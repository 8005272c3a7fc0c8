-- ===== src/Fountain/Indexes/Difference.antt =====
-- The loop of part_indexes_difference of src/fountain_utils.c.
use c_ur.Base.{ℕ, zero, suc, ◌+◌, ◌≤◌, ◌<◌, ◌≡◌, ◌⊎◌, inl, inr, refl, sym, ap, ◌∙◌, arith}
use c_ur.Base.{
  Bool, true, false, ◌&&◌, not, List, [], ◌∷◌, ◌++◌, length, length-append, append_assoc,
  append-nil,
}
use mathlib.Core.Path.{subst}
use c_ur.Fountain.Indexes.{
  ◌>=>◌, PartIndexes, with_room, store_at, insert_at, next_capacity, part_indexes_append_sorted,
  difference_loop, part_indexes_difference, part_indexes_clear,
}
use c_ur.Fountain.Indexes.Sorted.{IsSorted, has, Above-trans}
use c_ur.Fountain.Indexes.Insert.{IsIndexSet, with_room_cases}
use c_ur.Fountain.Indexes.Without.{
  without, has-without, without-IsSorted, without-cons, without-less, without-same,
}

insert_at-last : (xs : List ℕ) (v : ℕ) → insert_at xs (length xs) v ≡ xs ++ v ∷ []
unfolding insert_at
insert_at-last [] v = refl
insert_at-last (x ∷ xs) v = ap (λ (l : List ℕ). x ∷ l) (insert_at-last xs v)

module _ (alloc : ℕ → Bool) where
  -- A run that appended a list to the array and stayed within the capacity, or that the allocator
  -- stopped.
  abbrev pub Appended : PartIndexes → List ℕ → PartIndexes × Bool → Type 0
  Appended p added r =
      ((r.1 ≡ true) × (r.0.indexes ≡ p.indexes ++ added) × (length r.0.indexes ≤ r.0.capacity))
      ⊎ ((r.1 ≡ false) × ((c : ℕ) × (alloc c ≡ false)))

  store_at-true :
      (q : PartIndexes) (k v : ℕ)
      → store_at alloc k v (q, true)
        ≡ (record { indexes = insert_at q.indexes k v; capacity = q.capacity }, true)
  unfolding store_at
  store_at-true q k v = refl

  store_at-false : (q : PartIndexes) (k v : ℕ) → store_at alloc k v (q, false) ≡ (q, false)
  unfolding store_at
  store_at-false q k v = refl

  append-eq :
      (p : PartIndexes) (v : ℕ)
      → part_indexes_append_sorted alloc p v
        ≡ store_at alloc (length p.indexes) v (with_room alloc p)
  unfolding part_indexes_append_sorted
  append-eq p v = refl

  extend :
      (p q : PartIndexes) (v : ℕ) (rest : List ℕ) (r : PartIndexes × Bool)
      → q.indexes ≡ p.indexes ++ v ∷ []
      → Appended q rest r
      → Appended p (v ∷ rest) r
  extend p q v rest r e (inl (ok, added, fits)) =
      inl
        (ok, added ∙ ap (λ (l : List ℕ). l ++ rest) e ∙ append_assoc p.indexes (v ∷ []) rest, fits)
  extend p q v rest r e (inr stopped) = inr stopped

  append_step :
      (p : PartIndexes) (v : ℕ) (rest : List ℕ) (next : PartIndexes → PartIndexes × Bool)
      → length p.indexes ≤ p.capacity
      → ((q : PartIndexes)
          → q.indexes ≡ p.indexes ++ v ∷ []
          → length q.indexes ≤ q.capacity
          → Appended q rest (next q))
      → Appended p (v ∷ rest) (part_indexes_append_sorted alloc p v >=> next)
  append_step p v rest next fits goes_on = elim (with_room_cases alloc p fits) [
    | inl (e, same, room) ↦
        let q : PartIndexes = record {
          indexes = insert_at (with_room alloc p).0.indexes (length p.indexes) v;
          capacity = (with_room alloc p).0.capacity;
        } in
        let e_q : q.indexes ≡ p.indexes ++ v ∷ [] =
          ap (λ (l : List ℕ). insert_at l (length p.indexes) v) same ∙ insert_at-last p.indexes v in
        subst (λ r. Appended p (v ∷ rest) (r >=> next))
          (sym (
            append-eq p v
            ∙ ap (store_at alloc (length p.indexes) v) e
            ∙ store_at-true (with_room alloc p).0 (length p.indexes) v))
          (extend p q v rest (next q) e_q
            (goes_on q e_q (omega (arith, ap length e_q, length-append p.indexes (v ∷ []), room))))
    | inr (e, refused) ↦
        subst (λ r. Appended p (v ∷ rest) (r >=> next))
          (sym (
            append-eq p v
            ∙ ap (store_at alloc (length p.indexes) v) e
            ∙ store_at-false p (length p.indexes) v))
          (inr (refl, (next_capacity p.capacity, refused)))
  ]

  loop_cases :
      (rounds x : ℕ) (xs : List ℕ) (y : ℕ) (ys : List ℕ) (p : PartIndexes)
      → ((x < y)
          × (difference_loop alloc (suc rounds) (x ∷ xs) (y ∷ ys) p ≡ (
              part_indexes_append_sorted alloc p x >=> difference_loop alloc rounds xs (y ∷ ys))))
        ⊎ (((x ≡ y)
              × (difference_loop alloc (suc rounds) (x ∷ xs) (y ∷ ys) p
                  ≡ difference_loop alloc rounds xs ys p))
            ⊎ ((y < x)
                × (difference_loop alloc (suc rounds) (x ∷ xs) (y ∷ ys) p
                    ≡ difference_loop alloc rounds (x ∷ xs) ys p)))
  unfolding difference_loop
  loop_cases rounds x xs y ys p = ground arith

  unchanged : (p : PartIndexes) → length p.indexes ≤ p.capacity → Appended p [] (p, true)
  unchanged p fits = inl (refl, sym (append-nil p.indexes), fits)

  difference_loop-Appended :
      (rounds : ℕ) (xs ys : List ℕ) (p : PartIndexes)
      → IsSorted xs
      → IsSorted ys
      → length xs + length ys ≤ rounds
      → length p.indexes ≤ p.capacity
      → Appended p (without xs ys) (difference_loop alloc rounds xs ys p)
  unfolding difference_loop without has
  difference_loop-Appended zero [] ys p s t fuel fits = unchanged p fits
  difference_loop-Appended zero (x ∷ xs) ys p s t fuel fits = absurd (omega arith)
  difference_loop-Appended (suc rounds) [] ys p s t fuel fits = unchanged p fits
  difference_loop-Appended (suc rounds) (x ∷ xs) [] p s t fuel fits =
      append_step p x (without xs []) (difference_loop alloc rounds xs []) fits
        (λ q e k. difference_loop-Appended rounds xs [] q s.1 tt (omega arith) k)
  difference_loop-Appended (suc rounds) (x ∷ xs) (y ∷ ys) p s t fuel fits =
      elim (loop_cases rounds x xs y ys p) [
        | inl (lt, e) ↦ subst (Appended p (without (x ∷ xs) (y ∷ ys))) (sym e) (
            subst
              (λ l.
                Appended p l (
                  part_indexes_append_sorted alloc p x
                  >=> difference_loop alloc rounds xs (y ∷ ys)))
              (sym (without-less x xs (y ∷ ys) (lt, Above-trans x y ys lt t.0)))
              (append_step p x (without xs (y ∷ ys)) (difference_loop alloc rounds xs (y ∷ ys)) fits
                (λ q f k. difference_loop-Appended rounds xs (y ∷ ys) q s.1 t (omega arith) k)))
        | inr (inl (same, e)) ↦ subst (Appended p (without (x ∷ xs) (y ∷ ys))) (sym e) (
            subst (λ l. Appended p l (difference_loop alloc rounds xs ys p))
              (sym (without-same x y xs ys same s.0))
              (difference_loop-Appended rounds xs ys p s.1 t.1 (omega arith) fits))
        | inr (inr (lt, e)) ↦ subst (Appended p (without (x ∷ xs) (y ∷ ys))) (sym e) (
            subst (λ l. Appended p l (difference_loop alloc rounds (x ∷ xs) ys p))
              (sym (without-cons y (x ∷ xs) ys (lt, Above-trans y x xs lt s.0)))
              (difference_loop-Appended rounds (x ∷ xs) ys p s t.1 (omega arith) fits))
      ]

  -- What a set is after the second one was taken out of the first, or after a failed allocation.
  abbrev pub Subtracted : PartIndexes → PartIndexes → PartIndexes × Bool → Type 0
  Subtracted a b r =
      ((r.1 ≡ true)
        × IsIndexSet r.0
        × ((n : ℕ) → has r.0.indexes n ≡ (has a.indexes n && not (has b.indexes n))))
      ⊎ ((r.1 ≡ false) × ((c : ℕ) × (alloc c ≡ false)))

  subtracted :
      (a b p : PartIndexes) (r : PartIndexes × Bool)
      → IsSorted a.indexes
      → p.indexes ≡ []
      → Appended p (without a.indexes b.indexes) r
      → Subtracted a b r
  subtracted a b p r s e (inl (ok, added, fits)) =
      let only : r.0.indexes ≡ without a.indexes b.indexes =
        added ∙ ap (λ (l : List ℕ). l ++ without a.indexes b.indexes) e in
      inl (
        ok,
        record {
          sorted = subst IsSorted (sym only) (without-IsSorted a.indexes b.indexes s);
          fits = fits;
        },
        λ n. ap (λ (l : List ℕ). has l n) only ∙ has-without a.indexes b.indexes n,
      )
  subtracted a b p r s e (inr stopped) = inr stopped

  difference-eq :
      (a b result : PartIndexes)
      → part_indexes_difference alloc a b result
        ≡ difference_loop alloc
            (length a.indexes + length b.indexes)
            a.indexes
            b.indexes
            (record { indexes = []; capacity = result.capacity })
  unfolding part_indexes_difference part_indexes_clear
  difference-eq a b result = refl

  -- On two sorted arrays part_indexes_difference returns true and leaves a sorted array within its
  -- capacity that holds the indexes of the first that are not in the second, or it returns false
  -- and the allocator refused an array.
  pub part_indexes_difference-IsIndexSet :
      (a b result : PartIndexes)
      → IsSorted a.indexes
      → IsSorted b.indexes
      → Subtracted a b (part_indexes_difference alloc a b result)
  part_indexes_difference-IsIndexSet a b result s t =
      subst (Subtracted a b) (sym (difference-eq a b result)) (
        subtracted a b (record { indexes = []; capacity = result.capacity })
          (difference_loop alloc (length a.indexes + length b.indexes) a.indexes b.indexes
            (record { indexes = []; capacity = result.capacity }))
          s refl
          (difference_loop-Appended (length a.indexes + length b.indexes) a.indexes b.indexes
            (record { indexes = []; capacity = result.capacity }) s t (omega arith) (omega arith)))

  subtracted-without :
      (a b p : PartIndexes) (r : PartIndexes × Bool)
      → p.indexes ≡ []
      → Appended p (without a.indexes b.indexes) r
      → r.1 ≡ true
      → r.0.indexes ≡ without a.indexes b.indexes
  subtracted-without a b p r e (inl (ok, added, fits)) t =
      added ∙ ap (λ (l : List ℕ). l ++ without a.indexes b.indexes) e
  subtracted-without a b p r e (inr (failed, why)) t = cc

  -- The indexes themselves.
  pub part_indexes_difference-without :
      (a b result : PartIndexes)
      → IsSorted a.indexes
      → IsSorted b.indexes
      → (part_indexes_difference alloc a b result).1 ≡ true
      → (part_indexes_difference alloc a b result).0.indexes ≡ without a.indexes b.indexes
  part_indexes_difference-without a b result s t ok =
      subtracted-without a b (record { indexes = []; capacity = result.capacity })
        (part_indexes_difference alloc a b result) refl
        (subst
          (Appended (record { indexes = []; capacity = result.capacity })
            (without a.indexes b.indexes))
          (sym (difference-eq a b result))
          (difference_loop-Appended (length a.indexes + length b.indexes) a.indexes b.indexes
            (record { indexes = []; capacity = result.capacity }) s t (omega arith) (omega arith)))
        ok
