-- ===== src/Fountain/Indexes/Sorted.antt =====
-- Sorted arrays of numbers as sets.
use c_ur.Base.{ℕ, zero, suc, ◌<◌, ◌≡◌, refl, arith}
use c_ur.Base.{Bool, true, false, ◌||◌, List, [], ◌∷◌, ◌++◌, length, take, drop, get_or, All, ◌==◌}

-- Strictly ascending.
abbrev pub IsSorted : List ℕ → Type 0
IsSorted [] = Unit
IsSorted (x ∷ xs) = All (λ y. x < y) xs × IsSorted xs

-- The set that an array stands for.
unfoldable pub has : List ℕ → ℕ → Bool
has [] n = false
has (x ∷ xs) n = let rest = has xs n in (x == n) || rest

abbrev pub Below : ℕ → List ℕ → Type 0
Below n xs = All (λ y. y < n) xs

abbrev pub Above : ℕ → List ℕ → Type 0
Above n xs = All (λ y. n < y) xs

pub Above-trans : (m n : ℕ) (xs : List ℕ) → m < n → Above n xs → Above m xs
Above-trans m n [] h k = tt
Above-trans m n (x ∷ xs) h k = (omega (arith, k.0), Above-trans m n xs h k.1)

pub has-Above : (n : ℕ) (xs : List ℕ) → Above n xs → has xs n ≡ false
unfolding has
has-Above n [] h = refl
has-Above n (x ∷ xs) h = ground (arith, has-Above n xs h.1, h.0)

pub has-Below : (n : ℕ) (xs : List ℕ) → Below n xs → has xs n ≡ false
unfolding has
has-Below n [] h = refl
has-Below n (x ∷ xs) h = ground (arith, has-Below n xs h.1, h.0)

pub has-append : (xs ys : List ℕ) (n : ℕ) → has (xs ++ ys) n ≡ (has xs n || has ys n)
unfolding has
has-append [] ys n = refl
has-append (x ∷ xs) ys n = ground (arith, has-append xs ys n)

pub has-split : (k : ℕ) (xs : List ℕ) (n : ℕ) → has xs n ≡ (has (take k xs) n || has (drop k xs) n)
unfolding has
has-split zero xs n = refl
has-split (suc k) [] n = refl
has-split (suc k) (x ∷ xs) n = ground (arith, has-split k xs n)

pub has-get_or : (xs : List ℕ) (k : ℕ) → k < length xs → has xs (get_or xs k 0) ≡ true
unfolding has
has-get_or [] k h = absurd (omega arith)
has-get_or (x ∷ xs) zero h = ground arith
has-get_or (x ∷ xs) (suc k) h = ground (arith, has-get_or xs k (omega arith))

pub Above-get_or : (m : ℕ) (xs : List ℕ) (k : ℕ) → Above m xs → k < length xs → m < get_or xs k 0
Above-get_or m [] k h lt = absurd (omega arith)
Above-get_or m (x ∷ xs) zero h lt = h.0
Above-get_or m (x ∷ xs) (suc k) h lt = Above-get_or m xs k h.1 (omega arith)

-- In a sorted array what is left of a smaller element is smaller, and right of a larger one larger.
pub Below-take :
    (xs : List ℕ) (k n : ℕ)
    → IsSorted xs
    → k < length xs
    → get_or xs k 0 < n
    → Below n (take (suc k) xs)
Below-take [] k n s h lt = absurd (omega arith)
Below-take (x ∷ xs) zero n s h lt = (lt, tt)
Below-take (x ∷ xs) (suc k) n s h lt = (
  omega (arith, lt, Above-get_or x xs k s.0 (omega arith)),
  Below-take xs k n s.1 (omega arith) lt,
)

pub Above-drop : (xs : List ℕ) (k n : ℕ) → IsSorted xs → n < get_or xs k 0 → Above n (drop k xs)
Above-drop [] zero n s lt = tt
Above-drop [] (suc k) n s lt = tt
Above-drop (x ∷ xs) zero n s lt = (lt, Above-trans n x xs lt s.0)
Above-drop (x ∷ xs) (suc k) n s lt = Above-drop xs k n s.1 lt
