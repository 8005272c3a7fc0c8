-- ===== src/Fountain/Fragments/Joined.antt =====
-- Joining the fragments of src/fountain_encoder.c with join_fragments of src/fountain_utils.c.
use c_ur.Base.{
  ℕ, zero, suc, ◌+◌, ◌-◌, ◌≤◌, ◌<◌, ◌≡◌, ◌⊎◌, inl, inr, refl, sym, ap, ◌∙◌, true, Bool-cases, leb,
  ltb, arith, if◌then◌else◌,
}
use c_ur.Base.{
  List, [], ◌∷◌, ◌++◌, length, take, drop, replicate, All, append-nil, append_assoc, length-append,
  length-take, length-drop, length-replicate, take-append-drop, take-length-append, Option, some,
}
use native.Mathlib.Nat.{div-eq_of_lt, add-div_right}
use c_ur.Fountain.Fragments.{
  fragment, partition_loop, fragment_capacity, partition_message, join_loop, join_fragments,
}

module _ {ℓ} {A : Type ℓ} where
  take-all : (n : ℕ) (xs : List A) → length xs ≤ n → take n xs ≡ xs
  take-all zero [] h = refl
  take-all zero (x ∷ xs) h = grind arith
  take-all (suc n) [] h = refl
  take-all (suc n) (x ∷ xs) h = ap (λ (l : List A). x ∷ l) (take-all n xs (omega arith))

  take-append : (n : ℕ) (xs ys : List A) → n ≡ length xs → take n (xs ++ ys) ≡ xs
  take-append n xs ys e = ap (λ (k : ℕ). take k (xs ++ ys)) e ∙ take-length-append xs ys

length-fragment : (len : ℕ) (xs : List ℕ) → length (fragment len xs) ≡ len
unfolding fragment
length-fragment len xs = omega (
  arith,
  length-append (take len xs) (replicate (len - length xs) 0),
  length-take len xs,
  length-replicate {A = ℕ} (len - length xs) 0,
)

-- The part of a fragment that belongs to the message.
take-fragment :
    (len copy_len : ℕ) (xs : List ℕ)
    → ((length xs < len) × (copy_len ≡ length xs)) ⊎ ((len ≤ length xs) × (copy_len ≡ len))
    → take copy_len (fragment len xs) ≡ take len xs
unfolding fragment
take-fragment len c xs h =
    take-append c (take len xs) (replicate (len - length xs) 0) (grind (arith, length-take len xs))

copied_length : ℕ → ℕ → ℕ → ℕ
copied_length message_len offset len =
    if ltb message_len (offset + len) then message_len - offset else len

join_loop-some :
    (f : List ℕ) (fs : List (Option (List ℕ))) (n : ℕ) (out : List ℕ)
    → 0 < length f
    → join_loop (some f ∷ fs) n out ≡ (
        if leb n (length (out ++ take (copied_length n (length out) (length f)) f))
        then out ++ take (copied_length n (length out) (length f)) f
        else join_loop fs n (out ++ take (copied_length n (length out) (length f)) f))
unfolding join_loop copied_length
join_loop-some [] fs n out h = grind arith
join_loop-some (b ∷ bs) fs n out h = refl

copied_length_cases :
    (o r len : ℕ)
    → ((r < len) × (copied_length (o + r) o len ≡ r))
      ⊎ ((len ≤ r) × (copied_length (o + r) o len ≡ len))
unfolding copied_length
copied_length_cases o r len = ground arith

abbrev pub all_some : List (List ℕ) → List (Option (List ℕ))
all_some [] = []
all_some (f ∷ fs) = some f ∷ all_some fs

-- One fragment joined: what is left of the message is done, or goes on behind it.
join_loop-fragment :
    (len : ℕ) (xs : List ℕ) (fs : List (Option (List ℕ))) (out : List ℕ)
    → 0 < len
    → join_loop (some (fragment len xs) ∷ fs) (length out + length xs) out ≡ (
        if leb (length out + length xs) (length (out ++ take len xs))
        then out ++ take len xs
        else join_loop fs (length out + length xs) (out ++ take len xs))
join_loop-fragment len xs fs out pos = rw (
  join_loop-some (fragment len xs) fs (length out + length xs) out
      (omega (arith, length-fragment len xs)),
  length-fragment len xs,
  take-fragment len (copied_length (length out + length xs) (length out) len) xs
      (copied_length_cases (length out) (length xs) len),
)

length-take-drop :
    (len : ℕ) (xs out : List ℕ)
    → length out + length xs ≡ length (out ++ take len xs) + length (drop len xs)
length-take-drop len xs out =
    omega (arith, length-append out (take len xs), length-take len xs, length-drop len xs)

take-done :
    (len : ℕ) (xs out : List ℕ)
    → leb (length out + length xs) (length (out ++ take len xs)) ≡ true
    → out ++ take len xs ≡ out ++ xs
take-done len xs out e =
    ap (λ (l : List ℕ). out ++ l)
      (take-all len xs (ground (arith, length-append out (take len xs), length-take len xs)))

take-more :
    (len : ℕ) (xs out : List ℕ) (fs : List (Option (List ℕ)))
    → join_loop fs (length (out ++ take len xs) + length (drop len xs)) (out ++ take len xs)
      ≡ (out ++ take len xs) ++ drop len xs
    → join_loop fs (length out + length xs) (out ++ take len xs) ≡ out ++ xs
take-more len xs out fs more =
    ap (λ (n : ℕ). join_loop fs n (out ++ take len xs)) (length-take-drop len xs out)
    ∙ more
    ∙ append_assoc out (take len xs) (drop len xs)
    ∙ ap (λ (l : List ℕ). out ++ l) (take-append-drop len xs)

join_loop-step :
    (len : ℕ) (xs out : List ℕ) (fs : List (Option (List ℕ)))
    → 0 < len
    → join_loop fs (length (out ++ take len xs) + length (drop len xs)) (out ++ take len xs)
      ≡ (out ++ take len xs) ++ drop len xs
    → join_loop (some (fragment len xs) ∷ fs) (length out + length xs) out ≡ out ++ xs
join_loop-step len xs out fs pos more =
    join_loop-fragment len xs fs out pos
    ∙ elim (Bool-cases (leb (length out + length xs) (length (out ++ take len xs)))) [
      | inl e ↦ rw (e, take-done len xs out e)
      | inr e ↦ rw (e, take-more len xs out fs more)
    ]

join_loop-partition_loop :
    (rounds len : ℕ) (xs out : List ℕ)
    → 0 < len
    → length xs ≤ rounds
    → join_loop (all_some (partition_loop rounds len xs)) (length out + length xs) out ≡ out ++ xs
unfolding join_loop partition_loop
join_loop-partition_loop rounds len [] out pos k = sym (append-nil out)
join_loop-partition_loop zero len (b ∷ xs) out pos k = grind arith
join_loop-partition_loop (suc rounds) len (b ∷ xs) out pos k =
    join_loop-step len (b ∷ xs) out (all_some (partition_loop rounds len (drop len (b ∷ xs)))) pos (
      join_loop-partition_loop rounds len (drop len (b ∷ xs)) (out ++ take len (b ∷ xs)) pos
        (omega (arith, length-drop len (b ∷ xs))))

capacity_step :
    (x len : ℕ) → 0 < x → 0 < len → suc (fragment_capacity (x - len) len) ≡ fragment_capacity x len
capacity_step x len h pos = grind (
  arith,
  div-eq_of_lt {n = x - 1} {m = len},
  div-eq_of_lt {n = x - len + len - 1} {m = len},
  add-div_right (x - 1) {k = len} pos,
)

length-partition_loop :
    (rounds len : ℕ) (xs : List ℕ)
    → 0 < len
    → length xs ≤ rounds
    → length (partition_loop rounds len xs) ≡ fragment_capacity (length xs) len
unfolding partition_loop
length-partition_loop rounds len [] pos k = sym (div-eq_of_lt (omega arith))
length-partition_loop zero len (b ∷ xs) pos k = grind arith
length-partition_loop (suc rounds) len (b ∷ xs) pos k =
    ap suc (
      length-partition_loop rounds len (drop len (b ∷ xs)) pos
        (omega (arith, length-drop len (b ∷ xs))))
    ∙ ap (λ (n : ℕ). suc (fragment_capacity n len)) (length-drop len (b ∷ xs))
    ∙ capacity_step (length (b ∷ xs)) len (omega arith) pos

partition_loop-lengths :
    (rounds len : ℕ) (xs : List ℕ) → All (λ f. length f ≡ len) (partition_loop rounds len xs)
unfolding partition_loop
partition_loop-lengths rounds len [] = tt
partition_loop-lengths zero len (b ∷ xs) = tt
partition_loop-lengths (suc rounds) len (b ∷ xs) =
    (length-fragment len (b ∷ xs), partition_loop-lengths rounds len (drop len (b ∷ xs)))

join_loop-whole :
    (len : ℕ) (message : List ℕ)
    → 0 < len
    → join_loop (all_some (partition_loop (length message) len message)) (length message) []
      ≡ message
join_loop-whole len message pos =
    ap (λ (n : ℕ). join_loop (all_some (partition_loop (length message) len message)) n [])
      (omega arith)
    ∙ join_loop-partition_loop (length message) len message [] pos (omega arith)

join_fragments-partition_loop :
    (len b : ℕ) (bs : List ℕ)
    → 0 < len
    → join_fragments (all_some (partition_loop (length (b ∷ bs)) len (b ∷ bs))) (length (b ∷ bs))
      ≡ some (b ∷ bs)
unfolding join_fragments partition_loop
join_fragments-partition_loop len b bs pos =
    ap (λ (l : List ℕ). some l) (join_loop-whole len (b ∷ bs) pos)

partition_message-eq :
    (message : List ℕ) (len : ℕ)
    → 0 < length message
    → 0 < len
    → partition_message message len ≡ some (partition_loop (length message) len message)
unfolding partition_message
partition_message-eq message len nonempty pos = ground arith

-- A message that is not empty is partitioned, for a fragment length above 0, into as many fragments
-- of this length as were allocated, and join_fragments of all of them gives the message back.
pub join_fragments-partition_message :
    (message : List ℕ) (len : ℕ)
    → 0 < length message
    → 0 < len
    → (frags : List (List ℕ)) × (partition_message message len ≡ some frags)
      × (length frags ≡ fragment_capacity (length message) len)
      × All (λ f. length f ≡ len) frags
      × (join_fragments (all_some frags) (length message) ≡ some message)
join_fragments-partition_message [] len nonempty pos = absurd (omega arith)
join_fragments-partition_message (b ∷ bs) len nonempty pos = (
  partition_loop (length (b ∷ bs)) len (b ∷ bs),
  partition_message-eq (b ∷ bs) len nonempty pos,
  length-partition_loop (length (b ∷ bs)) len (b ∷ bs) pos (omega arith),
  partition_loop-lengths (length (b ∷ bs)) len (b ∷ bs),
  join_fragments-partition_loop len b bs pos,
)
