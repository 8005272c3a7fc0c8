-- ===== src/Fountain/HashSet/Laws.antt =====
-- What hash_set_add of src/fountain_decoder.c keeps.
use c_ur.Base.{
  ℕ, ◌*◌, ◌≤◌, ◌<◌, ◌≡◌, ◌⊎◌, inl, inr, refl, sym, ap, ◌∙◌, arith, Bool, true, false, ◌||◌, List,
  [], some, length, take, drop, ◌==◌,
}
use mathlib.Core.Path.{subst}
use c_ur.Fountain.Indexes.{search_all, insert_at}
use c_ur.Fountain.Indexes.Sorted.{IsSorted, has, Below, Above}
use c_ur.Fountain.Indexes.Search.{search_all-Outcome, has-between}
use c_ur.Fountain.Indexes.Insert.{insert_at-IsSorted, has-insert_at, length-insert_at}
use c_ur.Fountain.HashSet.{
  HashSet, max_duplicate_tracking, grown_capacity, hash_set_init, hash_set_insert, hash_set_add,
}

-- Sorted, within the capacity, which is not 0, and within the limit of 512 hashes.
pub record IsHashSet (set : HashSet) : Type 0 where
  pub sorted : IsSorted set.hashes
  pub fits : length set.hashes ≤ set.capacity
  pub positive : 0 < set.capacity
  pub limited : length set.hashes ≤ max_duplicate_tracking

init_cases :
    (alloc : ℕ → Bool) (capacity : ℕ) (set : HashSet)
    → hash_set_init alloc capacity ≡ some set
    → (0 < capacity) × (record { hashes = []; capacity = capacity } ≡ set)
unfolding hash_set_init
init_cases alloc capacity set e = ground arith

-- A new set is one, whatever its capacity.
pub hash_set_init-IsHashSet :
    (alloc : ℕ → Bool) (capacity : ℕ) (set : HashSet)
    → hash_set_init alloc capacity ≡ some set
    → IsHashSet set
hash_set_init-IsHashSet alloc capacity set e =
    let (pos, f) = init_cases alloc capacity set e in
    subst IsHashSet f
      (record { sorted = tt; fits = omega arith; positive = pos; limited = omega arith })

module _ (alloc : ℕ → Bool) where
  -- What adding a hash makes of a set: one with that hash too; or the same set, which had it, is at
  -- the limit, or was refused a larger array.
  abbrev pub Added : HashSet → ℕ → HashSet × Bool → Type 0
  Added set hash r =
      IsHashSet r.0
      × (((r.1 ≡ true)
            × (has set.hashes hash ≡ false)
            × ((n : ℕ) → has r.0.hashes n ≡ ((hash == n) || has set.hashes n)))
          ⊎ ((r ≡ (set, false))
              × ((has set.hashes hash ≡ true)
                  ⊎ ((length set.hashes ≡ max_duplicate_tracking)
                      ⊎ (alloc (grown_capacity set.capacity * 4) ≡ false)))))

  insert_cases :
      (set : HashSet) (hash lo : ℕ)
      → IsHashSet set
      → ((hash_set_insert alloc set hash lo ≡ (set, false))
          × ((length set.hashes ≡ max_duplicate_tracking)
              ⊎ (alloc (grown_capacity set.capacity * 4) ≡ false)))
        ⊎ (((hash_set_insert alloc set hash lo).1 ≡ true)
            × ((hash_set_insert alloc set hash lo).0.hashes ≡ insert_at set.hashes lo hash)
            × (length set.hashes < (hash_set_insert alloc set hash lo).0.capacity)
            × (length set.hashes < max_duplicate_tracking))
  unfolding hash_set_insert
  insert_cases set hash lo h = ground (arith, h.fits, h.positive, h.limited)

  inserted :
      (set : HashSet) (hash lo : ℕ) (r : HashSet × Bool)
      → IsHashSet set
      → has set.hashes hash ≡ false
      → Below hash (take lo set.hashes)
      → Above hash (drop lo set.hashes)
      → r.1 ≡ true
      → r.0.hashes ≡ insert_at set.hashes lo hash
      → length set.hashes < r.0.capacity
      → length set.hashes < max_duplicate_tracking
      → Added set hash r
  inserted set hash lo r h missing below above ok stored room limit = (
    record {
      sorted =
          subst IsSorted (sym stored) (insert_at-IsSorted set.hashes lo hash h.sorted below above);
      fits = omega (arith, ap length stored, length-insert_at set.hashes lo hash, room);
      positive = omega (arith, room);
      limited = omega (arith, ap length stored, length-insert_at set.hashes lo hash, limit);
    },
    inl (
      ok,
      missing,
      λ n. ap (λ (l : List ℕ). has l n) stored ∙ has-insert_at set.hashes lo hash n,
    ),
  )

  insert-Added :
      (set : HashSet) (hash lo : ℕ)
      → IsHashSet set
      → has set.hashes hash ≡ false
      → Below hash (take lo set.hashes)
      → Above hash (drop lo set.hashes)
      → Added set hash (hash_set_insert alloc set hash lo)
  insert-Added set hash lo h missing below above = elim (insert_cases set hash lo h) [
    | inl (e, why) ↦ subst (Added set hash) (sym e) (h, inr (refl, inr why))
    | inr (ok, stored, room, limit) ↦
        inserted set hash lo (hash_set_insert alloc set hash lo) h missing below above ok stored
          room limit
  ]

  add_cases :
      (set : HashSet) (hash : ℕ)
      → (((search_all set.hashes hash).0 ≡ true) × (hash_set_add alloc set hash ≡ (set, false)))
        ⊎ (((search_all set.hashes hash).0 ≡ false)
            × (hash_set_add alloc set hash
                ≡ hash_set_insert alloc set hash (search_all set.hashes hash).1))
  unfolding hash_set_add
  add_cases set hash = ground arith

  -- hash_set_add on a sorted set of at most 512 hashes, within its capacity, which is 1 at least and
  -- may be above 512, leaves one: it returns true, the hash was not
  -- in the set and now is, beside the others; or it returns false and the set is the same, and the
  -- hash was in it, the set has 512 hashes, or the allocator refused a larger array.
  pub hash_set_add-IsHashSet :
      (set : HashSet) (hash : ℕ) → IsHashSet set → Added set hash (hash_set_add alloc set hash)
  hash_set_add-IsHashSet set hash h = elim (search_all-Outcome set.hashes hash h.sorted) [
    | inl (found, here) ↦ elim (add_cases set hash) [
      | inl (f, e) ↦ subst (Added set hash) (sym e) (h, inr (refl, inl here))
      | inr (f, e) ↦ cc
    ]
    | inr (missing, bound, below, above) ↦ elim (add_cases set hash) [
      | inl (f, e) ↦ cc
      | inr (f, e) ↦ subst (Added set hash) (sym e) (
          insert-Added set hash (search_all set.hashes hash).1 h
            (has-between (search_all set.hashes hash).1 set.hashes hash below above) below above)
    ]
  ]
