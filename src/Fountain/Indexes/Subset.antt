-- ===== src/Fountain/Indexes/Subset.antt =====
-- part_indexes_is_strict_subset and part_indexes_equal of src/fountain_utils.c on sorted arrays.
use c_ur.Base.{ℕ, ◌≤◌, ◌<◌, ◌≡◌, ◌↔◌, ◌≢◌, ◌⊎◌, inl, inr, refl, sym, ap, ◌∙◌, arith}
use c_ur.Base.{Bool, true, false, List, [], ◌∷◌, length, Bool-cases}
use mathlib.Core.Path.{subst}
use mathlib.Core.Bool.{true≢false}
use c_ur.Fountain.Indexes.{
  PartIndexes, subset_loop, part_indexes_is_strict_subset, same_indexes, part_indexes_equal,
}
use c_ur.Fountain.Indexes.Sorted.{IsSorted, has, Above, Above-trans, has-Above}

abbrev pub Includes : List ℕ → List ℕ → Type 0
Includes ys xs = (n : ℕ) → has xs n ≡ true → has ys n ≡ true

pub has-greater : (m n : ℕ) (xs : List ℕ) → Above m xs → has xs n ≡ true → m < n
unfolding has
has-greater m n [] above h = cc
has-greater m n (x ∷ xs) above h = elim (Bool-cases (has xs n)) [
  | inl more ↦ has-greater m n xs above.1 more
  | inr last ↦ ground (arith, above.0)
]

pub subset_loop_cases :
    (x : ℕ) (xs : List ℕ) (y : ℕ) (ys : List ℕ)
    → ((x < y) × (subset_loop (x ∷ xs) (y ∷ ys) ≡ false))
      ⊎ (((x ≡ y) × (subset_loop (x ∷ xs) (y ∷ ys) ≡ subset_loop xs ys))
          ⊎ ((y < x) × (subset_loop (x ∷ xs) (y ∷ ys) ≡ subset_loop (x ∷ xs) ys)))
unfolding subset_loop
subset_loop_cases x xs y ys = grind arith

has-head : (x : ℕ) (xs : List ℕ) → has (x ∷ xs) x ≡ true
unfolding has
has-head x xs = ground arith

has-tail : (x : ℕ) (xs : List ℕ) (n : ℕ) → has xs n ≡ true → has (x ∷ xs) n ≡ true
unfolding has
has-tail x xs n h = ground arith

has-cons_cases : (x : ℕ) (xs : List ℕ) (n : ℕ) → has (x ∷ xs) n ≡ true → (x ≡ n) ⊎ (has xs n ≡ true)
unfolding has
has-cons_cases x xs n h = ground arith

has-rest : (x : ℕ) (xs : List ℕ) (n : ℕ) → x < n → has (x ∷ xs) n ≡ true → has xs n ≡ true
unfolding has
has-rest x xs n lt h = ground arith

subset_loop-Includes :
    (ys xs : List ℕ) → IsSorted xs → IsSorted ys → subset_loop xs ys ≡ true → Includes ys xs
unfolding has subset_loop
subset_loop-Includes ys [] s t e n h = cc
subset_loop-Includes [] (x ∷ xs) s t e n h = cc
subset_loop-Includes (y ∷ ys) (x ∷ xs) s t e n h = elim (subset_loop_cases x xs y ys) [
  | inl (lt, f) ↦ cc
  | inr (inl (same, f)) ↦ elim (has-cons_cases x xs n h) [
    | inl here ↦ subst (λ k. has (y ∷ ys) k ≡ true) (sym same ∙ here) (has-head y ys)
    | inr more ↦ has-tail y ys n (subset_loop-Includes ys xs s.1 t.1 (sym f ∙ e) n more)
  ]
  | inr (inr (lt, f)) ↦ has-tail y ys n (subset_loop-Includes ys (x ∷ xs) s t.1 (sym f ∙ e) n h)
]

both_ways : {b c : Bool} → b ≡ false → b ≡ true → c ≡ true
both_ways e f = cc

Includes-subset_loop :
    (ys xs : List ℕ) → IsSorted xs → IsSorted ys → Includes ys xs → subset_loop xs ys ≡ true
unfolding subset_loop has
Includes-subset_loop ys [] s t inc = refl
Includes-subset_loop [] (x ∷ xs) s t inc = inc x (has-head x xs)
Includes-subset_loop (y ∷ ys) (x ∷ xs) s t inc = elim (subset_loop_cases x xs y ys) [
  | inl (lt, f) ↦
      both_ways (has-Above x (y ∷ ys) (lt, Above-trans x y ys lt t.0)) (inc x (has-head x xs))
  | inr (inl (same, f)) ↦
      f
      ∙ Includes-subset_loop ys xs s.1 t.1 (λ n h.
        has-rest y ys n (omega (arith, same, has-greater x n xs s.0 h)) (inc n (has-tail x xs n h)))
  | inr (inr (lt, f)) ↦
      f
      ∙ Includes-subset_loop ys (x ∷ xs) s t.1 (λ n h.
        has-rest y ys n (has-greater y n (x ∷ xs) (lt, Above-trans y x xs lt s.0) h) (inc n h))
]

subset_loop-length :
    (ys xs : List ℕ) → subset_loop xs ys ≡ true → (length xs < length ys) ⊎ (xs ≡ ys)
unfolding subset_loop
subset_loop-length [] [] e = inr refl
subset_loop-length (y ∷ ys) [] e = inl (omega arith)
subset_loop-length [] (x ∷ xs) e = cc
subset_loop-length (y ∷ ys) (x ∷ xs) e = elim (subset_loop_cases x xs y ys) [
  | inl (lt, f) ↦ cc
  | inr (inl (same, f)) ↦ elim (subset_loop-length ys xs (sym f ∙ e)) [
    | inl lt ↦ inl (omega arith)
    | inr eq ↦ inr cc
  ]
  | inr (inr (lt, f)) ↦ elim (subset_loop-length ys (x ∷ xs) (sym f ∙ e)) [
    | inl lt ↦ inl (omega arith)
    | inr eq ↦ inl (omega (arith, ap length eq))
  ]
]

pub strict_cases :
    (a b : PartIndexes)
    → ((length a.indexes < length b.indexes)
        × (part_indexes_is_strict_subset a b ≡ subset_loop a.indexes b.indexes))
      ⊎ ((length b.indexes ≤ length a.indexes) × (part_indexes_is_strict_subset a b ≡ false))
unfolding part_indexes_is_strict_subset
strict_cases a b = ground arith

-- An array that includes another sorted one is not shorter.
Includes-length :
    (xs ys : List ℕ) → IsSorted xs → IsSorted ys → Includes ys xs → length xs ≤ length ys
Includes-length xs ys s t inc =
    elim (subset_loop-length ys xs (Includes-subset_loop ys xs s t inc)) [
      | inl lt ↦ omega arith
      | inr e ↦ omega (arith, ap length e)
    ]

Includes-shorter :
    (xs ys : List ℕ)
    → IsSorted xs
    → IsSorted ys
    → Includes ys xs
    → ¬ Includes xs ys
    → length xs < length ys
Includes-shorter xs ys s t inc more =
    elim (subset_loop-length ys xs (Includes-subset_loop ys xs s t inc)) [
      | inl lt ↦ lt
      | inr e ↦ absurd (more (λ n h. ap (λ (l : List ℕ). has l n) e ∙ h))
    ]

-- On sorted arrays part_indexes_is_strict_subset returns true exactly when the second set includes
-- the first and the first does not include the second.
pub part_indexes_is_strict_subset_iff :
    (a b : PartIndexes)
    → IsSorted a.indexes
    → IsSorted b.indexes
    → (part_indexes_is_strict_subset a b ≡ true)
      ↔ (Includes b.indexes a.indexes × ¬ Includes a.indexes b.indexes)
part_indexes_is_strict_subset_iff a b s t = elim (strict_cases a b) [
  | inl (lt, e) ↦ (
    (λ h. (
      subset_loop-Includes b.indexes a.indexes s t (sym e ∙ h),
      λ inc. absurd (omega (arith, lt, Includes-length b.indexes a.indexes t s inc)),
    )),
    (λ (inc, more). e ∙ Includes-subset_loop b.indexes a.indexes s t inc),
  )
  | inr (le, e) ↦ (
    (λ h. absurd (true≢false (sym h ∙ e))),
    (λ (inc, more). absurd (omega (arith, le, Includes-shorter a.indexes b.indexes s t inc more))),
  )
]

same_cons : {x y : ℕ} {xs ys : List ℕ} → xs ≡ ys → x ≡ y → x ∷ xs ≡ y ∷ ys
same_cons e h = cc

same_indexes_sound : (xs ys : List ℕ) → length xs ≡ length ys → same_indexes xs ys ≡ true → xs ≡ ys
unfolding same_indexes
same_indexes_sound [] [] e h = refl
same_indexes_sound [] (y ∷ ys) e h = absurd (omega arith)
same_indexes_sound (x ∷ xs) [] e h = absurd (omega arith)
same_indexes_sound (x ∷ xs) (y ∷ ys) e h = elim (Bool-cases (same_indexes xs ys)) [
  | inl more ↦ same_cons (same_indexes_sound xs ys (omega arith) more) (ground arith)
  | inr differ ↦ ground arith
]

same_indexes_self : (xs : List ℕ) → same_indexes xs xs ≡ true
unfolding same_indexes
same_indexes_self [] = refl
same_indexes_self (x ∷ xs) = ground (arith, same_indexes_self xs)

equal_cases :
    (a b : PartIndexes)
    → ((length a.indexes ≡ length b.indexes)
        × (part_indexes_equal a b ≡ same_indexes a.indexes b.indexes))
      ⊎ ((length a.indexes ≢ length b.indexes) × (part_indexes_equal a b ≡ false))
unfolding part_indexes_equal
equal_cases a b = ground arith

-- part_indexes_equal returns true exactly when the arrays hold the same indexes in the same order.
pub part_indexes_equal_iff :
    (a b : PartIndexes) → (part_indexes_equal a b ≡ true) ↔ (a.indexes ≡ b.indexes)
part_indexes_equal_iff a b = elim (equal_cases a b) [
  | inl (len, e) ↦ (
    (λ h. same_indexes_sound a.indexes b.indexes len (sym e ∙ h)),
    (λ same. e ∙ subst (λ xs. same_indexes a.indexes xs ≡ true) same (same_indexes_self a.indexes)),
  )
  | inr (differ, e) ↦
      ((λ h. absurd (true≢false (sym h ∙ e))), (λ same. absurd (differ (ap length same))))
]
