-- ===== src/Fountain/Parts/Combined.antt =====
-- What a part stands for: the XOR of the fragments that its indexes name.
use c_ur.Base.{ℕ, ◌≡◌, inl, inr, ap, sym, ◌∙◌, true, List, [], ◌∷◌}
use c_ur.Fountain.Indexes.{subset_loop}
use c_ur.Fountain.Indexes.Sorted.{IsSorted, Above-trans}
use c_ur.Fountain.Indexes.Subset.{subset_loop_cases}
use c_ur.Fountain.Indexes.Without.{without, without-nil, without-less, without-same}
use c_ur.Fountain.Xor.Words.{xor_bytes}
use c_ur.Fountain.Xor.Algebra.{
  IsBuffer, zeros, zeros-IsBuffer, xor_bytes-IsBuffer, xor_bytes_assoc, xor_bytes-zeros,
  xor_bytes_common,
}
use c_ur.Fountain.Parts.{DecoderPart}

module _ (frag : ℕ → List ℕ) (len : ℕ) where
  -- The fragments of these indexes combined.
  unfoldable pub xor_all : List ℕ → List ℕ
  xor_all [] = zeros len
  xor_all (i ∷ is) = xor_bytes (frag i) (xor_all is)

  -- The indexes are in order, and the data are the fragments of these combined.
  pub record IsSound (part : DecoderPart) : Type 0 where
    pub sorted : IsSorted part.indexes.indexes
    pub combined : part.payload ≡ xor_all part.indexes.indexes

module _ (frag : ℕ → List ℕ) (len : ℕ) (buffers : (i : ℕ) → IsBuffer len (frag i)) where
  pub xor_all-IsBuffer : (is : List ℕ) → IsBuffer len (xor_all frag len is)
  unfolding xor_all
  xor_all-IsBuffer [] = zeros-IsBuffer len
  xor_all-IsBuffer (i ∷ is) =
      xor_bytes-IsBuffer len (frag i) (xor_all frag len is) (buffers i) (xor_all-IsBuffer is)

  -- A subset taken away.
  pub xor_all-without :
      (is js : List ℕ)
      → IsSorted is
      → IsSorted js
      → subset_loop js is ≡ true
      → xor_bytes (xor_all frag len is) (xor_all frag len js) ≡ xor_all frag len (without is js)
  unfolding xor_all subset_loop
  xor_all-without is [] s t e =
      xor_bytes-zeros len (xor_all frag len is) (xor_all-IsBuffer is).has_length
      ∙ ap (xor_all frag len) (sym (without-nil is))
  xor_all-without [] (j ∷ js) s t e = cc
  xor_all-without (i ∷ is) (j ∷ js) s t e = elim (subset_loop_cases j js i is) [
    | inl (lt, f) ↦ cc
    | inr (inl (same, f)) ↦
        ap
          (λ (k : ℕ).
            xor_bytes (xor_bytes (frag i) (xor_all frag len is))
              (xor_bytes (frag k) (xor_all frag len js)))
          same
        ∙ xor_bytes_common len (frag i) (xor_all frag len is) (xor_all frag len js)
            (buffers i).has_length (xor_all-IsBuffer js).has_length
        ∙ xor_all-without is js s.1 t.1 (sym f ∙ e)
        ∙ ap (xor_all frag len) (sym (without-same i j is js (sym same) s.0))
    | inr (inr (lt, f)) ↦
        xor_bytes_assoc (frag i) (xor_all frag len is) (xor_all frag len (j ∷ js))
        ∙ ap (xor_bytes (frag i)) (xor_all-without is (j ∷ js) s.1 t (sym f ∙ e))
        ∙ ap (xor_all frag len) (sym (without-less i is (j ∷ js) (lt, Above-trans i j js lt t.0)))
  ]
