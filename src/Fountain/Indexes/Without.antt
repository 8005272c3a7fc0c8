-- ===== src/Fountain/Indexes/Without.antt =====
-- The difference of two sorted arrays, which part_indexes_difference of src/fountain_utils.c computes.
use c_ur.Base.{ℕ, ◌≡◌, inl, inr, refl, arith}
use c_ur.Base.{◌&&◌, not, List, [], ◌∷◌, if◌then◌else◌, Bool-cases}
use c_ur.Fountain.Indexes.Sorted.{IsSorted, has, Above, has-Above}

-- The elements of the first list that are not in the second.
unfoldable pub without : List ℕ → List ℕ → List ℕ
without [] ys = []
without (x ∷ xs) ys = let rest = without xs ys in if has ys x then rest else x ∷ rest

pub has-without : (xs ys : List ℕ) (n : ℕ) → has (without xs ys) n ≡ (has xs n && not (has ys n))
unfolding without has
has-without [] ys n = refl
has-without (x ∷ xs) ys n = grind (arith, has-without xs ys n)

Above-without : (m : ℕ) (xs ys : List ℕ) → Above m xs → Above m (without xs ys)
unfolding without
Above-without m [] ys h = tt
Above-without m (x ∷ xs) ys h = elim (Bool-cases (has ys x)) [
  | inl e ↦ rw e (Above-without m xs ys h.1)
  | inr e ↦ rw e ((h.0, Above-without m xs ys h.1))
]

pub without-IsSorted : (xs ys : List ℕ) → IsSorted xs → IsSorted (without xs ys)
unfolding without
without-IsSorted [] ys s = tt
without-IsSorted (x ∷ xs) ys s = elim (Bool-cases (has ys x)) [
  | inl e ↦ rw e (without-IsSorted xs ys s.1)
  | inr e ↦ rw e ((Above-without x xs ys s.0, without-IsSorted xs ys s.1))
]

pub without-cons : (y : ℕ) (xs ys : List ℕ) → Above y xs → without xs (y ∷ ys) ≡ without xs ys
unfolding without has
without-cons y [] ys h = refl
without-cons y (x ∷ xs) ys h = ground (arith, h.0, without-cons y xs ys h.1)

pub without-nil : (xs : List ℕ) → without xs [] ≡ xs
unfolding without has
without-nil [] = refl
without-nil (x ∷ xs) = rw (without-nil xs)

pub without-less : (x : ℕ) (xs zs : List ℕ) → Above x zs → without (x ∷ xs) zs ≡ x ∷ without xs zs
unfolding without
without-less x xs zs h = rw (has-Above x zs h)

pub without-same :
    (x y : ℕ) (xs ys : List ℕ) → x ≡ y → Above x xs → without (x ∷ xs) (y ∷ ys) ≡ without xs ys
unfolding without has
without-same x y xs ys e h = ground (arith, without-cons y xs ys)
