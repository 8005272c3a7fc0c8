-- ===== src/Fountain/Parts/Mixing.antt =====
-- mix_fragments of src/fountain_encoder.c combines the fragments that the indexes name.
use c_ur.Base.{
  ℕ, zero, suc, ◌<◌, ◌≡◌, refl, ap, sym, ◌∙◌, arith, Bool, true, List, [], ◌∷◌, length, get_or,
  take, All, some,
}
use c_ur.ByteBuffer.{safe_malloc}
use c_ur.Fountain.Indexes.{PartIndexes}
use c_ur.Fountain.Xor.{ur_xor_inplace}
use c_ur.Fountain.Xor.Words.{xor_bytes, ur_xor_inplace-xor_bytes}
use c_ur.Fountain.Xor.Algebra.{
  IsBuffer, zeros, zeros-IsBuffer, xor_bytes-IsBuffer, xor_bytes_assoc, xor_bytes-zeros,
}
use c_ur.Fountain.Parts.{mix_loop, mix_chosen, mix_fragments}
use c_ur.Fountain.Parts.Combined.{xor_all}

take-all : (n : ℕ) (a : List ℕ) → length a ≡ n → take n a ≡ a
take-all zero [] h = refl
take-all zero (x ∷ a) h = absurd (omega arith)
take-all (suc n) [] h = refl
take-all (suc n) (x ∷ a) h = ap (λ (l : List ℕ). x ∷ l) (take-all n a (omega arith))

-- The fragment at an index, zeros past the last.
abbrev pub fragment_at : List (List ℕ) → ℕ → ℕ → List ℕ
fragment_at fragments len i = get_or fragments i (zeros len)

fragment_at-eq :
    (fragments : List (List ℕ)) (len i : ℕ)
    → i < length fragments
    → get_or fragments i [] ≡ fragment_at fragments len i
fragment_at-eq [] len i h = absurd (omega arith)
fragment_at-eq (f ∷ fs) len zero h = refl
fragment_at-eq (f ∷ fs) len (suc i) h = fragment_at-eq fs len i (omega arith)

pub fragment_at-IsBuffer :
    (fragments : List (List ℕ)) (len i : ℕ)
    → All (IsBuffer len) fragments
    → IsBuffer len (fragment_at fragments len i)
fragment_at-IsBuffer [] len i h = zeros-IsBuffer len
fragment_at-IsBuffer (f ∷ fs) len zero h = h.0
fragment_at-IsBuffer (f ∷ fs) len (suc i) h = fragment_at-IsBuffer fs len i h.1

module _ (fragments : List (List ℕ)) (len : ℕ) (buffers : All (IsBuffer len) fragments) where
  loop_round :
      (i : ℕ) (is result : List ℕ)
      → i < length fragments
      → mix_loop fragments len (i ∷ is) result
        ≡ mix_loop fragments len is (ur_xor_inplace result (get_or fragments i []) len)
  unfolding mix_loop
  loop_round i is result h = ground arith

  loop_end : (result : List ℕ) → mix_loop fragments len [] result ≡ some result
  unfolding mix_loop
  loop_end result = refl

  xor_all-cons :
      (i : ℕ) (is : List ℕ)
      → xor_all (fragment_at fragments len) len (i ∷ is)
        ≡ xor_bytes (fragment_at fragments len i) (xor_all (fragment_at fragments len) len is)
  unfolding xor_all
  xor_all-cons i is = refl

  xor_all-nil : xor_all (fragment_at fragments len) len [] ≡ zeros len
  unfolding xor_all
  xor_all-nil = refl

  mix_loop-eq :
      (is result : List ℕ)
      → All (λ i. i < length fragments) is
      → IsBuffer len result
      → mix_loop fragments len is result
        ≡ some (xor_bytes result (xor_all (fragment_at fragments len) len is))
  mix_loop-eq [] result h k =
      loop_end result
      ∙ ap (λ (l : List ℕ). some l)
          (sym (ap (xor_bytes result) xor_all-nil ∙ xor_bytes-zeros len result k.has_length))
  mix_loop-eq (i ∷ is) result h k =
      let f : IsBuffer len (fragment_at fragments len i) =
        fragment_at-IsBuffer fragments len i buffers in
      loop_round i is result h.0
      ∙ ap (λ (l : List ℕ). mix_loop fragments len is (ur_xor_inplace result l len))
          (fragment_at-eq fragments len i h.0)
      ∙ ap (mix_loop fragments len is) (
          ur_xor_inplace-xor_bytes result (fragment_at fragments len i) len k.has_length
            f.has_length k.are_bytes f.are_bytes)
      ∙ mix_loop-eq is (xor_bytes result (fragment_at fragments len i)) h.1
          (xor_bytes-IsBuffer len result (fragment_at fragments len i) k f)
      ∙ ap (λ (l : List ℕ). some l)
          (xor_bytes_assoc result (fragment_at fragments len i)
              (xor_all (fragment_at fragments len) len is)
            ∙ ap (xor_bytes result) (sym (xor_all-cons i is)))

  mix_chosen-eq :
      (is : List ℕ)
      → All (λ i. i < length fragments) is
      → mix_chosen fragments len is ≡ some (xor_all (fragment_at fragments len) len is)
  unfolding mix_chosen
  mix_chosen-eq [] h = ap (λ (l : List ℕ). some l) (sym xor_all-nil)
  mix_chosen-eq (i ∷ is) h =
      let f : IsBuffer len (fragment_at fragments len i) =
        fragment_at-IsBuffer fragments len i buffers in
      let copied : take len (get_or fragments i []) ≡ fragment_at fragments len i =
        ap (take len) (fragment_at-eq fragments len i h.0)
        ∙ take-all len (fragment_at fragments len i) f.has_length in
      let rest : mix_loop fragments len is (take len (get_or fragments i []))
          ≡ some (xor_all (fragment_at fragments len) len (i ∷ is)) =
        ap (mix_loop fragments len is) copied
        ∙ mix_loop-eq is (fragment_at fragments len i) h.1 f
        ∙ ap (λ (l : List ℕ). some l) (sym (xor_all-cons i is)) in
      ground (arith, rest, h.0)

  -- When fragments of one length are there for all the indexes and the result can be allocated,
  -- mix_fragments returns the XOR of the fragments that the indexes name.
  pub mix_fragments-xor_all :
      (alloc : ℕ → Bool) (p : PartIndexes)
      → safe_malloc alloc len ≡ true
      → All (λ i. i < length fragments) p.indexes
      → mix_fragments alloc fragments len p
        ≡ some (xor_all (fragment_at fragments len) len p.indexes)
  unfolding mix_fragments
  mix_fragments-xor_all alloc p e h = rw e (mix_chosen-eq p.indexes h)
