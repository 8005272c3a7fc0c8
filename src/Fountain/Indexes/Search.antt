-- ===== src/Fountain/Indexes/Search.antt =====
-- The binary search of src/fountain_decoder.c on a sorted array.
use c_ur.Base.{ℕ, zero, suc, ◌+◌, ◌-◌, ◌/◌, ◌≤◌, ◌<◌, ◌≡◌, ◌⊎◌, inl, inr, refl, sym, ◌∙◌, arith}
use c_ur.Base.{Bool, true, false, List, [], ◌∷◌, length, take, drop, get_or, ◌==◌, if◌then◌else◌}
use mathlib.Core.Path.{subst}
use c_ur.Fountain.Indexes.{PartIndexes, search, search_all, part_indexes_contains}
use c_ur.Fountain.Indexes.Sorted.{
  IsSorted, has, Below, Above, has-Above, has-Below, has-split, has-get_or, Below-take, Above-drop,
}

-- What a finished search says: the index is there, or everything before the insertion point is
-- smaller and everything from it on is larger.
abbrev pub Outcome : List ℕ → ℕ → Bool × ℕ → Type 0
Outcome xs n s =
    ((s.0 ≡ true) × (has xs n ≡ true))
    ⊎ ((s.0 ≡ false) × (s.1 ≤ length xs) × Below n (take s.1 xs) × Above n (drop s.1 xs))

abbrev middle : ℕ → ℕ → ℕ
middle left right = left + (right - left) / 2

search_cases :
    (rounds : ℕ) (xs : List ℕ) (n left right : ℕ)
    → ((right ≤ left) × (search (suc rounds) xs n left right ≡ (false, left)))
      ⊎ (((left < right)
            × (get_or xs (middle left right) 0 ≡ n)
            × (search (suc rounds) xs n left right ≡ (true, left)))
          ⊎ (((left < right)
                × (get_or xs (middle left right) 0 < n)
                × (search (suc rounds) xs n left right
                    ≡ search rounds xs n (middle left right + 1) right))
              ⊎ ((left < right)
                  × (n < get_or xs (middle left right) 0)
                  × (search (suc rounds) xs n left right
                      ≡ search rounds xs n left (middle left right)))))
unfolding search
search_cases rounds xs n left right = ground arith

search-stop :
    (xs : List ℕ) (n left right : ℕ)
    → left ≤ right
    → right ≤ left
    → right ≤ length xs
    → Below n (take left xs)
    → Above n (drop right xs)
    → Outcome xs n (false, left)
search-stop xs n left right h k r below above =
    inr (refl, omega arith, below, subst (λ (i : ℕ). Above n (drop i xs)) (omega arith) above)

search-none : (xs : List ℕ) (n left right : ℕ) → search 0 xs n left right ≡ (false, left)
unfolding search
search-none xs n left right = refl

search-Outcome :
    (rounds : ℕ) (xs : List ℕ) (n left right : ℕ)
    → IsSorted xs
    → left ≤ right
    → right ≤ length xs
    → right - left ≤ rounds
    → Below n (take left xs)
    → Above n (drop right xs)
    → Outcome xs n (search rounds xs n left right)
search-Outcome zero xs n left right s h r fuel below above =
    subst (Outcome xs n) (sym (search-none xs n left right))
      (search-stop xs n left right h (omega arith) r below above)
search-Outcome (suc rounds) xs n left right s h r fuel below above =
    elim (search_cases rounds xs n left right) [
      | inl (stop, e) ↦
          subst (Outcome xs n) (sym e) (search-stop xs n left right h stop r below above)
      | inr (inl (lt, here, e)) ↦ subst (Outcome xs n) (sym e) (
          inl (
            refl,
            subst (λ (i : ℕ). has xs i ≡ true) here
                (has-get_or xs (middle left right) (omega arith)),
          ))
      | inr (inr (inl (lt, less, e))) ↦ subst (Outcome xs n) (sym e) (
          search-Outcome rounds xs n (middle left right + 1) right s (omega arith) r (omega arith)
            (subst (λ (i : ℕ). Below n (take i xs)) {x = suc (middle left right)} (omega arith)
              (Below-take xs (middle left right) n s (omega arith) less))
            above)
      | inr (inr (inr (lt, more, e))) ↦ subst (Outcome xs n) (sym e) (
          search-Outcome rounds xs n left (middle left right) s (omega arith) (omega arith)
            (omega arith) below (Above-drop xs (middle left right) n s more))
    ]

Above-drop-length : (n : ℕ) (xs : List ℕ) → Above n (drop (length xs) xs)
Above-drop-length n [] = tt
Above-drop-length n (x ∷ xs) = Above-drop-length n xs

pub search_all-Outcome : (xs : List ℕ) (n : ℕ) → IsSorted xs → Outcome xs n (search_all xs n)
search_all-Outcome xs n s =
    search-Outcome (length xs) xs n 0 (length xs) s (omega arith) (omega arith) (omega arith) tt
      (Above-drop-length n xs)

pub has-between :
    (k : ℕ) (xs : List ℕ) (n : ℕ) → Below n (take k xs) → Above n (drop k xs) → has xs n ≡ false
has-between k xs n below above =
    ground (arith, has-split k xs n, has-Below n (take k xs) below, has-Above n (drop k xs) above)

search_unless_empty :
    (xs : List ℕ) (n : ℕ)
    → (if length xs == 0 then false else (search_all xs n).0) ≡ (search_all xs n).0
unfolding search
search_unless_empty [] n = refl
search_unless_empty (x ∷ xs) n = ground arith

contains-search : (p : PartIndexes) (n : ℕ) → part_indexes_contains p n ≡ (search_all p.indexes n).0
unfolding part_indexes_contains
contains-search p n = search_unless_empty p.indexes n

-- On a sorted array part_indexes_contains says whether the index is in it.
pub part_indexes_contains-has :
    (p : PartIndexes) (n : ℕ) → IsSorted p.indexes → part_indexes_contains p n ≡ has p.indexes n
part_indexes_contains-has p n s = contains-search p n ∙ elim (search_all-Outcome p.indexes n s) [
  | inl (found, h) ↦ rw (found, h)
  | inr (missing, bound, below, above) ↦
      missing ∙ sym (has-between (search_all p.indexes n).1 p.indexes n below above)
]
