-- ===== src/Fountain/Parts/Reduction.antt =====
-- reduce_part_by_part of src/fountain_decoder.c keeps what a part stands for.
use c_ur.Base.{
  ℕ, ◌<◌, ◌≡◌, ◌⊎◌, inl, inr, refl, ap, sym, ◌∙◌, arith, Bool, true, false, List, [], ◌∷◌, length,
  some, ◌>>=◌, bind_cases,
}
use mathlib.Core.Path.{subst}
use c_ur.Fountain.Indexes.{
  PartIndexes, subset_loop, part_indexes_copy, part_indexes_difference, part_indexes_clear,
}
use c_ur.Fountain.Indexes.Sorted.{IsSorted}
use c_ur.Fountain.Indexes.Subset.{strict_cases}
use c_ur.Fountain.Indexes.Without.{without, without-IsSorted}
use c_ur.Fountain.Indexes.Difference.{part_indexes_difference-without}
use c_ur.Fountain.Xor.{ur_xor}
use c_ur.Fountain.Xor.Words.{xor_bytes, ur_xor-xor_bytes}
use c_ur.Fountain.Xor.Algebra.{IsBuffer}
use c_ur.Fountain.Parts.{
  DecoderPart, no_indexes, succeeded, copy_payload, decoder_part_copy, xor_payload,
  reduce_part_by_part,
}
use c_ur.Fountain.Parts.Combined.{xor_all, IsSound, xor_all-IsBuffer, xor_all-without}

pub succeeded-eq-some :
    {A : Type 0} (r : A × Bool) (a : A) → succeeded r ≡ some a → (r.1 ≡ true) × (r.0 ≡ a)
succeeded-eq-some (p, true) a e = (refl, cc)
succeeded-eq-some (p, false) a e = cc

nil_of_length : (xs : List ℕ) → length xs ≡ 0 → xs ≡ []
nil_of_length [] h = refl
nil_of_length (x ∷ xs) h = absurd (omega arith)

pub part_indexes_copy-eq :
    (array_alloc : ℕ → Bool) (src : PartIndexes)
    → (part_indexes_copy array_alloc src no_indexes).1 ≡ true
    → (part_indexes_copy array_alloc src no_indexes).0.indexes ≡ src.indexes
unfolding part_indexes_copy part_indexes_clear
part_indexes_copy-eq array_alloc src e = ground (arith, nil_of_length src.indexes)

copy_payload-eq :
    (array_alloc alloc : ℕ → Bool) (indexes : PartIndexes) (payload : List ℕ) (copy : DecoderPart)
    → copy_payload array_alloc alloc indexes payload ≡ some copy
    → (copy.indexes ≡ indexes) × (copy.payload ≡ payload)
unfolding copy_payload
copy_payload-eq array_alloc alloc indexes [] copy e = ground arith
copy_payload-eq array_alloc alloc indexes (b ∷ bs) copy e = ground arith

-- A successful copy has the indexes and the data of its source.
pub decoder_part_copy-eq :
    (array_alloc alloc : ℕ → Bool) (src copy : DecoderPart)
    → decoder_part_copy array_alloc alloc src ≡ some copy
    → (copy.indexes.indexes ≡ src.indexes.indexes) × (copy.payload ≡ src.payload)
unfolding decoder_part_copy
decoder_part_copy-eq array_alloc alloc src copy e =
    bind_cases (succeeded (part_indexes_copy array_alloc src.indexes no_indexes)) _ e
      λ is copied rest.
        let parts = copy_payload-eq array_alloc alloc is src.payload copy rest in
        let found =
          succeeded-eq-some (part_indexes_copy array_alloc src.indexes no_indexes) is copied in
        (
          ap (λ (q : PartIndexes). q.indexes) (parts.0 ∙ sym found.1)
              ∙ part_indexes_copy-eq array_alloc src.indexes found.0,
          parts.1,
        )

xor_payload-eq :
    (array_alloc alloc : ℕ → Bool) (a b : DecoderPart) (is : PartIndexes) (r : DecoderPart)
    → xor_payload array_alloc alloc a b is ≡ some r
    → (r.indexes ≡ is) × (r.payload ≡ ur_xor a.payload b.payload (length a.payload))
unfolding xor_payload
xor_payload-eq array_alloc alloc a b is r e = ground arith

-- Either nothing is to be reduced and the part is copied, or the second part names fewer fragments.
pub reduce_cases :
    (array_alloc alloc : ℕ → Bool) (a b : DecoderPart)
    → ((subset_loop b.indexes.indexes a.indexes.indexes ≡ true)
        × (length b.indexes.indexes < length a.indexes.indexes)
        × (reduce_part_by_part array_alloc alloc a b ≡ (
            succeeded (part_indexes_difference array_alloc a.indexes b.indexes no_indexes)
            >>= xor_payload array_alloc alloc a b)))
      ⊎ (reduce_part_by_part array_alloc alloc a b ≡ decoder_part_copy array_alloc alloc a)
unfolding reduce_part_by_part
reduce_cases array_alloc alloc a b = elim (strict_cases b.indexes a.indexes) [
  | inl (lt, e) ↦ ground (arith, e, lt)
  | inr (le, e) ↦ ground (arith, e)
]

module _ (frag : ℕ → List ℕ) (len : ℕ) (buffers : (i : ℕ) → IsBuffer len (frag i)) where
  pub IsSound-IsBuffer : (p : DecoderPart) → IsSound frag len p → IsBuffer len p.payload
  IsSound-IsBuffer p s =
      subst (IsBuffer len) (sym s.combined) (xor_all-IsBuffer frag len buffers p.indexes.indexes)

  -- A part with the same indexes and data.
  pub IsSound-same :
      (p q : DecoderPart)
      → q.indexes.indexes ≡ p.indexes.indexes
      → q.payload ≡ p.payload
      → IsSound frag len p
      → IsSound frag len q
  IsSound-same p q e f s = record {
    sorted = subst IsSorted (sym e) s.sorted;
    combined = f ∙ s.combined ∙ ap (xor_all frag len) (sym e);
  }

  -- The data of the reduced part.
  pub ur_xor-xor_all :
      (a b : DecoderPart)
      → IsSound frag len a
      → IsSound frag len b
      → subset_loop b.indexes.indexes a.indexes.indexes ≡ true
      → ur_xor a.payload b.payload (length a.payload)
        ≡ xor_all frag len (without a.indexes.indexes b.indexes.indexes)
  ur_xor-xor_all a b s t h =
      let a_buffer = IsSound-IsBuffer a s in
      let b_buffer = IsSound-IsBuffer b t in
      ur_xor-xor_bytes a.payload b.payload (length a.payload) refl
        (b_buffer.has_length ∙ sym a_buffer.has_length) a_buffer.are_bytes b_buffer.are_bytes
      ∙ ap (λ (l : List ℕ). xor_bytes l b.payload) s.combined
      ∙ ap (xor_bytes (xor_all frag len a.indexes.indexes)) t.combined
      ∙ xor_all-without frag len buffers a.indexes.indexes b.indexes.indexes s.sorted t.sorted h

  -- If two parts are each the XOR of the fragments that they name, so is the part that
  -- reduce_part_by_part makes of them, if it makes one.
  pub reduce_part_by_part-IsSound :
      (array_alloc alloc : ℕ → Bool) (a b r : DecoderPart)
      → IsSound frag len a
      → IsSound frag len b
      → reduce_part_by_part array_alloc alloc a b ≡ some r
      → IsSound frag len r
  reduce_part_by_part-IsSound array_alloc alloc a b r s t e =
      elim (reduce_cases array_alloc alloc a b) [
        | inl (sub, lt, f) ↦
            bind_cases
              (succeeded (part_indexes_difference array_alloc a.indexes b.indexes no_indexes)) _
              (sym f ∙ e)
              λ is taken rest.
                let found =
                  succeeded-eq-some
                    (part_indexes_difference array_alloc a.indexes b.indexes no_indexes) is taken in
                let made = xor_payload-eq array_alloc alloc a b is r rest in
                let names : r.indexes.indexes ≡ without a.indexes.indexes b.indexes.indexes =
                  ap (λ (q : PartIndexes). q.indexes) (made.0 ∙ sym found.1)
                  ∙ part_indexes_difference-without array_alloc a.indexes b.indexes no_indexes
                      s.sorted t.sorted found.0 in
                record {
                  sorted =
                      subst IsSorted (sym names)
                        (without-IsSorted a.indexes.indexes b.indexes.indexes s.sorted);
                  combined =
                      made.1 ∙ ur_xor-xor_all a b s t sub ∙ ap (xor_all frag len) (sym names);
                }
        | inr f ↦
            let same = decoder_part_copy-eq array_alloc alloc a r (sym f ∙ e) in
            IsSound-same a r same.0 same.1 s
      ]
