-- ===== src/Fountain/Decoder/Joined.antt =====
-- The message that process_simple_part of src/fountain_decoder.c joins from all simple parts.
use c_ur.Base.{
  ℕ, zero, suc, ◌<◌, ◌≤◌, ◌≡◌, ◌⊎◌, inl, inr, refl, ap, sym, ◌∙◌, arith, List, [], ◌∷◌, ◌++◌,
  append-nil, length, take, drop, All, Option, some,
}
use mathlib.Core.Path.{ap₂}
use mathlib.Core.Option.{some-injective}
use c_ur.Fountain.Fragments.{join_loop, join_fragments}
use c_ur.Fountain.Fragments.Joined.{all_some}
use c_ur.Fountain.Indexes.{PartIndexes}
use c_ur.Fountain.Indexes.Sorted.{IsSorted, has, Above}
use c_ur.Fountain.Indexes.Insert.{IsIndexSet}
use c_ur.Fountain.Xor.Algebra.{IsBuffer, xor_bytes-zeros}
use c_ur.Fountain.Parts.Combined.{xor_all, IsSound}
use c_ur.Fountain.Parts.Mixing.{fragment_at, fragment_at-IsBuffer}
use c_ur.Fountain.Decoder.State.{Machine, SimplePart}
use c_ur.Fountain.Decoder.Assembly.{copied_part, copy_loop, message_of, sort_parts}
use c_ur.Fountain.Decoder.Sorting.{
  keys, DistinctKeys, All-sort_parts, sort_parts-IsSorted, has-sort_parts, IsSorted-same,
}

-- The numbers from `i` on.
abbrev pub count_from : ℕ → ℕ → List ℕ
count_from i zero = []
count_from i (suc n) = i ∷ count_from (suc i) n

pub count_from-Above : (m i n : ℕ) → m < i → Above m (count_from i n)
count_from-Above m i zero h = tt
count_from-Above m i (suc n) h = (h, count_from-Above m (suc i) n (omega arith))

pub count_from-IsSorted : (i n : ℕ) → IsSorted (count_from i n)
count_from-IsSorted i zero = tt
count_from-IsSorted i (suc n) =
    (count_from-Above i (suc i) n (omega arith), count_from-IsSorted (suc i) n)

module _ (frag : ℕ → List ℕ) (len : ℕ) where
  -- A simple part under its key.
  pub record IsStored (p : SimplePart) : Type 0 where
    pub value_sound : IsSound frag len p.value
    pub named : p.value.indexes.indexes ≡ p.key ∷ []

  -- The simple parts, and the indexes that were received.
  pub record IsKept (stored : List SimplePart) (received : PartIndexes) : Type 0 where
    pub all_stored : All IsStored stored
    pub distinct : DistinctKeys stored
    pub received_set : IsIndexSet received
    pub same_keys : (n : ℕ) → has (keys stored) n ≡ has received.indexes n

abbrev payloads : List SimplePart → List (List ℕ)
payloads [] = []
payloads (p ∷ ps) = p.value.payload ∷ payloads ps

abbrev fragments_of : (ℕ → List ℕ) → List ℕ → List (List ℕ)
fragments_of frag [] = []
fragments_of frag (i ∷ is) = frag i ∷ fragments_of frag is

module _ (frag : ℕ → List ℕ) (len : ℕ) (buffers : (i : ℕ) → IsBuffer len (frag i)) where
  stored_payload : (p : SimplePart) → IsStored frag len p → p.value.payload ≡ frag p.key
  unfolding xor_all
  stored_payload p h =
      h.value_sound.combined
      ∙ ap (xor_all frag len) h.named
      ∙ xor_bytes-zeros len (frag p.key) (buffers p.key).has_length

  payloads-eq :
      (ps : List SimplePart)
      → All (IsStored frag len) ps
      → payloads ps ≡ fragments_of frag (keys ps)
  unfolding keys
  payloads-eq [] h = refl
  payloads-eq (p ∷ ps) h =
      ap₂ (λ (l : List ℕ) (ls : List (List ℕ)). l ∷ ls) (stored_payload p h.0) (payloads-eq ps h.1)

fragments_of-shift :
    (frag : ℕ → List ℕ) (i n : ℕ)
    → fragments_of frag (count_from (suc i) n)
      ≡ fragments_of (λ (k : ℕ). frag (suc k)) (count_from i n)
fragments_of-shift frag i zero = refl
fragments_of-shift frag i (suc n) =
    ap (λ (l : List (List ℕ)). frag (suc i) ∷ l) (fragments_of-shift frag (suc i) n)

all_fragments :
    (frags : List (List ℕ)) (len : ℕ)
    → fragments_of (fragment_at frags len) (count_from 0 (length frags)) ≡ frags
all_fragments [] len = refl
all_fragments (f ∷ fs) len =
    ap (λ (l : List (List ℕ)). f ∷ l)
      (fragments_of-shift (fragment_at (f ∷ fs) len) 0 (length fs) ∙ all_fragments fs len)

copy_done :
    (ps : List SimplePart) (message_len : ℕ) (out : List ℕ)
    → message_len ≤ length out
    → copy_loop ps message_len out ≡ out
unfolding copy_loop
copy_done [] message_len out h = refl
copy_done (p ∷ ps) message_len out h = ground arith

take-nil : (n : ℕ) → take {A = ℕ} n [] ≡ []
take-nil zero = refl
take-nil (suc n) = refl

drop_past : (n : ℕ) (xs : List ℕ) → length xs ≤ n → drop n xs ≡ []
drop_past zero [] h = refl
drop_past zero (x ∷ xs) h = absurd (omega arith)
drop_past (suc n) [] h = refl
drop_past (suc n) (x ∷ xs) h = drop_past n xs (omega arith)

copied-empty : (message_len : ℕ) (out : List ℕ) → copied_part message_len out [] ≡ out
unfolding copied_part
copied-empty message_len out = ap (λ (l : List ℕ). out ++ l) (take-nil _) ∙ append-nil out

copy_round :
    (p : SimplePart) (ps : List SimplePart) (message_len : ℕ) (out : List ℕ)
    → length out < message_len
    → copy_loop (p ∷ ps) message_len out
      ≡ copy_loop ps message_len (copied_part message_len out p.value.payload)
unfolding copy_loop
copy_round p ps message_len out h = ground arith

join_round :
    (b : ℕ) (bs : List ℕ) (rest : List (Option (List ℕ))) (message_len : ℕ) (out : List ℕ)
    → ((message_len ≤ length (copied_part message_len out (b ∷ bs)))
        × (join_loop (some (b ∷ bs) ∷ rest) message_len out ≡ copied_part message_len out (b ∷ bs)))
      ⊎ ((length (copied_part message_len out (b ∷ bs)) < message_len)
          × (join_loop (some (b ∷ bs) ∷ rest) message_len out
              ≡ join_loop rest message_len (copied_part message_len out (b ∷ bs))))
unfolding join_loop copied_part
join_round b bs rest message_len out = ground arith

-- One part joined, when the others are.
join_part :
    (payload : List ℕ) (ps : List SimplePart) (message_len : ℕ) (out : List ℕ)
    → length out < message_len
    → ((out' : List ℕ)
        → length out' < message_len
        → copy_loop ps message_len out' ≡ join_loop (all_some (payloads ps)) message_len out')
    → copy_loop ps message_len (copied_part message_len out payload)
      ≡ join_loop (some payload ∷ all_some (payloads ps)) message_len out
unfolding join_loop
join_part [] ps message_len out h more =
    ap (copy_loop ps message_len) (copied-empty message_len out) ∙ more out h
join_part (b ∷ bs) ps message_len out h more =
    elim (join_round b bs (all_some (payloads ps)) message_len out) [
      | inl (le, e) ↦ copy_done ps message_len (copied_part message_len out (b ∷ bs)) le ∙ sym e
      | inr (lt, e) ↦ more (copied_part message_len out (b ∷ bs)) lt ∙ sym e
    ]

-- The inline join is join_fragments on the data of the parts.
copy_loop-join_loop :
    (ps : List SimplePart) (message_len : ℕ) (out : List ℕ)
    → length out < message_len
    → copy_loop ps message_len out ≡ join_loop (all_some (payloads ps)) message_len out
unfolding copy_loop join_loop
copy_loop-join_loop [] message_len out h = refl
copy_loop-join_loop (p ∷ ps) message_len out h =
    copy_round p ps message_len out h
    ∙ join_part p.value.payload ps message_len out h (copy_loop-join_loop ps message_len)

joined_fragments :
    (frags : List (List ℕ)) (message : List ℕ)
    → join_fragments (all_some frags) (length message) ≡ some message
    → join_loop (all_some frags) (length message) [] ≡ message
unfolding join_fragments
joined_fragments [] message e = cc
joined_fragments (f ∷ fs) message e = some-injective _ _ e

module _ (m : Machine) (message : List ℕ) (len : ℕ) (frags : List (List ℕ))
    (buffers : All (IsBuffer len) frags) (nonempty : 0 < length message)
    (joined : join_fragments (all_some frags) (length message) ≡ some message) where
  -- If the indexes of the simple parts are those of all fragments, and the parts are the fragments, the
  -- sorted parts joined are the message.
  pub copy_loop-sort_parts :
      (stored : List SimplePart) (received : PartIndexes)
      → IsKept (fragment_at frags len) len stored received
      → received.indexes ≡ count_from 0 (length frags)
      → copy_loop (sort_parts stored) (length message) [] ≡ message
  copy_loop-sort_parts stored received h e =
      let frag : ℕ → List ℕ = fragment_at frags len in
      let sorted_keys : keys (sort_parts stored) ≡ received.indexes =
        IsSorted-same (keys (sort_parts stored)) received.indexes
          (sort_parts-IsSorted stored h.distinct) h.received_set.sorted
          (λ n. has-sort_parts stored n ∙ h.same_keys n) in
      copy_loop-join_loop (sort_parts stored) (length message) [] nonempty
      ∙ ap (λ (l : List (List ℕ)). join_loop (all_some l) (length message) [])
          (payloads-eq frag len (λ i. fragment_at-IsBuffer frags len i buffers) (sort_parts stored)
              (All-sort_parts (IsStored frag len) stored h.all_stored)
            ∙ ap (fragments_of frag) (sorted_keys ∙ e)
            ∙ all_fragments frags len)
      ∙ joined_fragments frags message joined

  pub message_of-sort_parts :
      (stored : List SimplePart) (received : PartIndexes)
      → IsKept (fragment_at frags len) len stored received
      → received.indexes ≡ count_from 0 (length frags)
      → length (m.garbage (length message)) ≡ length message
      → message_of m (sort_parts stored) (length message) ≡ message
  unfolding message_of
  message_of-sort_parts stored received h e size =
      let whole = copy_loop-sort_parts stored received h e in
      ap₂ (λ (l k : List ℕ). l ++ k) whole
        (ap (λ (l : List ℕ). drop (length l) (m.garbage (length message))) whole
          ∙ drop_past (length message) (m.garbage (length message)) (omega arith))
      ∙ append-nil message
