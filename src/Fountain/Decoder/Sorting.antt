-- ===== src/Fountain/Decoder/Sorting.antt =====
-- The insertion sort of process_simple_part of src/fountain_decoder.c.
use c_ur.Base.{
  ℕ, ◌<◌, ◌≤◌, ◌≡◌, ◌⊎◌, inl, inr, refl, ap, sym, ◌∙◌, arith, true, false, ◌||◌, Bool-cases, List,
  [], ◌∷◌, ◌++◌, All, ◌==◌,
}
use mathlib.Core.Path.{subst, ap₂}
use c_ur.Fountain.Indexes.Subset.{has-greater}
use c_ur.Fountain.Indexes.Sorted.{IsSorted, has, Above, Below, has-Above, has-append}
use c_ur.Fountain.Decoder.State.{SimplePart}
use c_ur.Fountain.Decoder.Assembly.{has_key, shift_in, onto, sort_loop, sort_parts}

-- The keys in their order.
unfoldable pub keys : List SimplePart → List ℕ
keys [] = []
keys (p ∷ ps) = p.key ∷ keys ps

abbrev IsDescending : List ℕ → Type 0
IsDescending [] = Unit {0}
IsDescending (x ∷ xs) = Below x xs × IsDescending xs

abbrev pub DistinctKeys : List SimplePart → Type 0
DistinctKeys [] = Unit {0}
DistinctKeys (p ∷ ps) = (has (keys ps) p.key ≡ false) × DistinctKeys ps

pub has_key-keys : (ps : List SimplePart) (n : ℕ) → has_key ps n ≡ has (keys ps) n
unfolding has_key keys has
has_key-keys [] n = refl
has_key-keys (p ∷ ps) n = ground (arith, has_key-keys ps n)

pub keys-append : (ps qs : List SimplePart) → keys (ps ++ qs) ≡ keys ps ++ keys qs
unfolding keys
keys-append [] qs = refl
keys-append (p ∷ ps) qs = ap (λ (l : List ℕ). p.key ∷ l) (keys-append ps qs)

-- A part with a new key behind the others.
pub DistinctKeys-snoc :
    (ps : List SimplePart) (p : SimplePart)
    → DistinctKeys ps
    → has (keys ps) p.key ≡ false
    → DistinctKeys (ps ++ p ∷ [])
unfolding keys has
DistinctKeys-snoc [] p d h = (refl, tt)
DistinctKeys-snoc (q ∷ qs) p d h = (
  ground (arith, keys-append qs (p ∷ []), has-append (keys qs) (p.key ∷ []) q.key, d.0),
  DistinctKeys-snoc qs p d.1 (ground arith),
)

shift_cases :
    (p : SimplePart) (ps : List SimplePart) (v : SimplePart)
    → ((v.key < p.key) × (shift_in (p ∷ ps) v ≡ p ∷ shift_in ps v))
      ⊎ ((p.key ≤ v.key) × (shift_in (p ∷ ps) v ≡ v ∷ p ∷ ps))
unfolding shift_in
shift_cases p ps v = ground arith

has-shift_in :
    (ps : List SimplePart) (v : SimplePart) (n : ℕ)
    → has (keys (shift_in ps v)) n ≡ ((v.key == n) || has (keys ps) n)
unfolding keys has shift_in
has-shift_in [] v n = refl
has-shift_in (p ∷ ps) v n = elim (shift_cases p ps v) [
  | inl (lt, e) ↦ ground (arith, has-shift_in ps v n)
  | inr (le, e) ↦ ground arith
]

Below-shift_in :
    (m : ℕ) (ps : List SimplePart) (v : SimplePart)
    → v.key < m
    → Below m (keys ps)
    → Below m (keys (shift_in ps v))
unfolding keys shift_in
Below-shift_in m [] v h k = (h, tt)
Below-shift_in m (p ∷ ps) v h k =
    let P : List SimplePart → Type 0 = λ l. Below m (keys l) in
    elim (shift_cases p ps v) [
      | inl (lt, e) ↦ subst P (sym e) (k.0, Below-shift_in m ps v h k.1)
      | inr (le, e) ↦ subst P (sym e) (h, k)
    ]

Below-trans : (m n : ℕ) (xs : List ℕ) → m < n → Below m xs → Below n xs
Below-trans m n [] h k = tt
Below-trans m n (x ∷ xs) h k = (omega (arith, k.0), Below-trans m n xs h k.1)

shift_in-IsDescending :
    (ps : List SimplePart) (v : SimplePart)
    → IsDescending (keys ps)
    → has (keys ps) v.key ≡ false
    → IsDescending (keys (shift_in ps v))
unfolding keys has shift_in
shift_in-IsDescending [] v d h = (tt, tt)
shift_in-IsDescending (p ∷ ps) v d h =
    let P : List SimplePart → Type 0 = λ l. IsDescending (keys l) in
    elim (shift_cases p ps v) [
      | inl (lt, e) ↦
          subst P (sym e)
            (Below-shift_in p.key ps v lt d.0, shift_in-IsDescending ps v d.1 (ground arith))
      | inr (le, e) ↦
          let less : p.key < v.key = ground arith in
          subst P (sym e) ((less, Below-trans p.key v.key (keys ps) less d.0), d)
    ]

both :
    (n : ℕ) (ms out : List ℕ)
    → Below n ms
    → All (λ m. Above m out) ms
    → All (λ m. Above m (n ∷ out)) ms
both n [] out below above = tt
both n (m ∷ ms) out below above = ((below.0, above.0), both n ms out below.1 above.1)

-- The descending places put in front of ascending ones that are larger.
onto-IsSorted :
    (ps out : List SimplePart)
    → IsDescending (keys ps)
    → IsSorted (keys out)
    → All (λ n. Above n (keys out)) (keys ps)
    → IsSorted (keys (onto ps out))
unfolding keys onto
onto-IsSorted [] out d s h = s
onto-IsSorted (p ∷ ps) out d s h =
    onto-IsSorted ps (p ∷ out) d.1 (h.0, s) (both p.key (keys ps) (keys out) d.0 h.1)

has-onto :
    (ps out : List SimplePart) (n : ℕ)
    → has (keys (onto ps out)) n ≡ (has (keys ps) n || has (keys out) n)
unfolding keys has onto
has-onto [] out n = refl
has-onto (p ∷ ps) out n = ground (arith, has-onto ps (p ∷ out) n)

Above-none : (ns : List ℕ) → All (λ n. Above n []) ns
Above-none [] = tt
Above-none (n ∷ ns) = (tt, Above-none ns)

sort_loop-IsSorted :
    (sorted rest : List SimplePart)
    → IsDescending (keys sorted)
    → DistinctKeys rest
    → ((n : ℕ) → has (keys sorted) n ≡ true → has (keys rest) n ≡ false)
    → IsSorted (keys (sort_loop sorted rest))
unfolding keys has sort_loop
sort_loop-IsSorted sorted [] d u h = onto-IsSorted sorted [] d tt (Above-none (keys sorted))
sort_loop-IsSorted sorted (v ∷ rest) d u h =
    sort_loop-IsSorted (shift_in sorted v) rest
      (shift_in-IsDescending sorted v d (ground (arith, h v.key))) u.1
      (λ n e. ground (arith, has-shift_in sorted v n, h n, u.0))

has-sort_loop :
    (sorted rest : List SimplePart) (n : ℕ)
    → has (keys (sort_loop sorted rest)) n ≡ (has (keys sorted) n || has (keys rest) n)
unfolding keys has sort_loop
has-sort_loop sorted [] n = has-onto sorted [] n
has-sort_loop sorted (v ∷ rest) n =
    ground (arith, has-sort_loop (shift_in sorted v) rest n, has-shift_in sorted v n)

module _ (P : SimplePart → Type 0) where
  All-shift_in : (ps : List SimplePart) (v : SimplePart) → All P ps → P v → All P (shift_in ps v)
  unfolding shift_in
  All-shift_in [] v h k = (k, tt)
  All-shift_in (p ∷ ps) v h k = elim (shift_cases p ps v) [
    | inl (lt, e) ↦ subst (All P) (sym e) (h.0, All-shift_in ps v h.1 k)
    | inr (le, e) ↦ subst (All P) (sym e) (k, h)
  ]

  All-onto : (ps out : List SimplePart) → All P ps → All P out → All P (onto ps out)
  unfolding onto
  All-onto [] out h k = k
  All-onto (p ∷ ps) out h k = All-onto ps (p ∷ out) h.1 (h.0, k)

  All-sort_loop :
      (sorted rest : List SimplePart) → All P sorted → All P rest → All P (sort_loop sorted rest)
  unfolding sort_loop
  All-sort_loop sorted [] h k = All-onto sorted [] h tt
  All-sort_loop sorted (v ∷ rest) h k =
      All-sort_loop (shift_in sorted v) rest (All-shift_in sorted v h k.0) k.1

  pub All-sort_parts : (ps : List SimplePart) → All P ps → All P (sort_parts ps)
  All-sort_parts ps h = All-sort_loop [] ps tt h

pub sort_parts-IsSorted : (ps : List SimplePart) → DistinctKeys ps → IsSorted (keys (sort_parts ps))
unfolding keys has
sort_parts-IsSorted ps u = sort_loop-IsSorted [] ps tt u (λ n e. cc)

pub has-sort_parts : (ps : List SimplePart) (n : ℕ) → has (keys (sort_parts ps)) n ≡ has (keys ps) n
unfolding keys has
has-sort_parts ps n = has-sort_loop [] ps n

has_head : (x : ℕ) (xs : List ℕ) → has (x ∷ xs) x ≡ true
unfolding has
has_head x xs = ground arith

head_le : (x : ℕ) (xs : List ℕ) (n : ℕ) → IsSorted (x ∷ xs) → has (x ∷ xs) n ≡ true → x ≤ n
unfolding has
head_le x xs n s h = ground (arith, has-greater x n xs s.0)

-- Two ascending lists of the same numbers are the same.
pub IsSorted-same :
    (xs ys : List ℕ) → IsSorted xs → IsSorted ys → ((n : ℕ) → has xs n ≡ has ys n) → xs ≡ ys
unfolding has
IsSorted-same [] [] s t h = refl
IsSorted-same [] (y ∷ ys) s t h = absurd (ground (arith, h y))
IsSorted-same (x ∷ xs) [] s t h = absurd (ground (arith, h x))
IsSorted-same (x ∷ xs) (y ∷ ys) s t h =
    let same : x ≡ y = omega (
      arith,
      head_le x xs y s (h y ∙ has_head y ys),
      head_le y ys x t (sym (h x) ∙ has_head x xs),
    ) in
    ap₂ (λ (z : ℕ) (zs : List ℕ). z ∷ zs) same
      (IsSorted-same xs ys s.1 t.1 (λ n. elim (Bool-cases (x == n)) [
        | inl e ↦ ground (arith, has-Above n xs, has-Above n ys, s.0, t.0)
        | inr e ↦ ground (arith, h n)
      ]))
