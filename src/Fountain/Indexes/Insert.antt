-- ===== src/Fountain/Indexes/Insert.antt =====
-- Insertion into a set of part indexes: part_indexes_add of src/fountain_decoder.c.
use c_ur.Base.{ℕ, zero, suc, ◌≤◌, ◌<◌, ◌≡◌, ◌⊎◌, inl, inr, refl, sym, ap, ◌∙◌, arith}
use c_ur.Base.{
  Bool, true, false, ◌||◌, List, [], ◌∷◌, length, take, drop, All-append, All-take, All-drop,
  length-append, length-take, length-drop, ◌==◌,
}
use mathlib.Core.Path.{subst}
use c_ur.Fountain.Indexes.{
  PartIndexes, search_all, insert_at, with_room, store_at, next_capacity, part_indexes_add,
}
use c_ur.Fountain.Indexes.Sorted.{IsSorted, has, Below, Above, has-append, has-split}
use c_ur.Fountain.Indexes.Search.{search_all-Outcome}

pub insert_at-IsSorted :
    (xs : List ℕ) (k n : ℕ)
    → IsSorted xs
    → Below n (take k xs)
    → Above n (drop k xs)
    → IsSorted (insert_at xs k n)
unfolding insert_at
insert_at-IsSorted xs zero n s below above = (above, s)
insert_at-IsSorted [] (suc k) n s below above = (tt, tt)
insert_at-IsSorted (x ∷ xs) (suc k) n s below above = (
  All-append (λ y. x < y) (take k xs) (n ∷ drop k xs) (All-take (λ y. x < y) k xs s.0)
      (below.0, All-drop (λ y. x < y) k xs s.0),
  insert_at-IsSorted xs k n s.1 below.1 above,
)

pub has-insert_at : (xs : List ℕ) (k n m : ℕ) → has (insert_at xs k n) m ≡ ((n == m) || has xs m)
unfolding insert_at has
has-insert_at xs k n m = ground (arith, has-append (take k xs) (n ∷ drop k xs) m, has-split k xs m)

pub length-insert_at : (xs : List ℕ) (k n : ℕ) → length (insert_at xs k n) ≡ suc (length xs)
unfolding insert_at
length-insert_at xs k n =
    omega (arith, length-append (take k xs) (n ∷ drop k xs), length-take k xs, length-drop k xs)

-- A set in an array: sorted, and no longer than what was allocated.
pub record IsIndexSet (p : PartIndexes) : Type 0 where
  pub sorted : IsSorted p.indexes
  pub fits : length p.indexes ≤ p.capacity

module _ (alloc : ℕ → Bool) where
  -- The test on the capacity leaves the indexes alone and makes room, or fails.
  pub with_room_cases :
      (p : PartIndexes)
      → length p.indexes ≤ p.capacity
      → ((with_room alloc p ≡ ((with_room alloc p).0, true))
          × ((with_room alloc p).0.indexes ≡ p.indexes)
          × (length p.indexes < (with_room alloc p).0.capacity))
        ⊎ ((with_room alloc p ≡ (p, false)) × (alloc (next_capacity p.capacity) ≡ false))
  unfolding with_room
  with_room_cases p h = ground arith

  -- What adding an index makes of a set: one with that index too, or the same after a failed
  -- allocation.
  abbrev pub Added : PartIndexes → ℕ → PartIndexes × Bool → Type 0
  Added p n r =
      IsIndexSet r.0
      × (((r.1 ≡ true) × ((m : ℕ) → has r.0.indexes m ≡ ((n == m) || has p.indexes m)))
          ⊎ ((r ≡ (p, false)) × (alloc (next_capacity p.capacity) ≡ false)))

  pub store_at-Added :
      (p q : PartIndexes) (n k : ℕ)
      → q.indexes ≡ p.indexes
      → length p.indexes < q.capacity
      → IsSorted p.indexes
      → Below n (take k p.indexes)
      → Above n (drop k p.indexes)
      → Added p n (store_at alloc k n (q, true))
  unfolding store_at
  store_at-Added p q n k e room s below above = (
    record {
      sorted =
          subst (λ xs. IsSorted (insert_at xs k n)) (sym e)
            (insert_at-IsSorted p.indexes k n s below above);
      fits = omega (arith, length-insert_at q.indexes k n, ap length e, room);
    },
    inl (refl, λ m. has-insert_at q.indexes k n m ∙ ap (λ xs. (n == m) || has xs m) e),
  )

  store_at_failed : (p : PartIndexes) (n k : ℕ) → store_at alloc k n (p, false) ≡ (p, false)
  unfolding store_at
  store_at_failed p n k = refl

  pub store-Added :
      (p : PartIndexes) (n k : ℕ)
      → IsIndexSet p
      → Below n (take k p.indexes)
      → Above n (drop k p.indexes)
      → Added p n (store_at alloc k n (with_room alloc p))
  store-Added p n k set below above = elim (with_room_cases p set.fits) [
    | inl (e, same, room) ↦
        subst (λ r. Added p n (store_at alloc k n r)) (sym e)
          (store_at-Added p (with_room alloc p).0 n k same room set.sorted below above)
    | inr (e, refused) ↦
        subst (λ r. Added p n (store_at alloc k n r)) (sym e)
          (subst (Added p n) (sym (store_at_failed p n k)) (set, inr (refl, refused)))
  ]

  add_cases :
      (p : PartIndexes) (n : ℕ)
      → (((search_all p.indexes n).0 ≡ true) × (part_indexes_add alloc p n ≡ (p, true)))
        ⊎ (((search_all p.indexes n).0 ≡ false)
            × (part_indexes_add alloc p n
                ≡ store_at alloc (search_all p.indexes n).1 n (with_room alloc p)))
  unfolding part_indexes_add
  add_cases p n = ground arith

  absorbed : (xs : List ℕ) (n m : ℕ) → has xs n ≡ true → has xs m ≡ ((n == m) || has xs m)
  absorbed xs n m h = grind arith

  -- part_indexes_add on a sorted array within its capacity leaves one: it returns true and the
  -- array holds the index and what it held before, or it returns false, the array is the same, and
  -- the allocator refused the larger one.
  pub part_indexes_add-IsIndexSet :
      (p : PartIndexes) (n : ℕ) → IsIndexSet p → Added p n (part_indexes_add alloc p n)
  part_indexes_add-IsIndexSet p n set = elim (search_all-Outcome p.indexes n set.sorted) [
    | inl (found, h) ↦ elim (add_cases p n) [
      | inl (f, e) ↦ subst (Added p n) (sym e) (set, inl (refl, λ m. absorbed p.indexes n m h))
      | inr (f, e) ↦ cc
    ]
    | inr (missing, bound, below, above) ↦ elim (add_cases p n) [
      | inl (f, e) ↦ cc
      | inr (f, e) ↦
          subst (Added p n) (sym e) (store-Added p n (search_all p.indexes n).1 set below above)
    ]
  ]
