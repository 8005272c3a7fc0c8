-- ===== src/Fountain/Encoder/Parts.antt =====
-- The parts of the encoder of src/fountain_encoder.c are parts of its message.
use c_ur.Base.{
  ℕ, ◌+◌, ◌%◌, ◌^◌, ◌<◌, ◌≡◌, ap, sym, ◌∙◌, arith, Bool, true, List, length, All, Option, none,
  some,
}
use mathlib.Core.Path.{subst}
use mathlib.Core.Option.{some-injective}
use c_ur.ByteBuffer.{safe_malloc}
use c_ur.Crc32.{crc32_calculate}
use c_ur.Fountain.Indexes.{PartIndexes}
use c_ur.Fountain.Indexes.Sorted.{IsSorted}
use c_ur.Fountain.PartCbor.{Part}
use c_ur.Fountain.Xor.Algebra.{IsBuffer}
use c_ur.Fountain.Parts.{mix_fragments}
use c_ur.Fountain.Parts.Combined.{IsSound}
use c_ur.Fountain.Parts.Mixing.{fragment_at, mix_fragments-xor_all}
use c_ur.Fountain.Decoder.State.{Machine}
use c_ur.Fountain.Decoder.Given.{IsPartOf}
use c_ur.Fountain.Encoder.{Encoder, part_of, or_failed, part_chosen, fountain_encoder_next_part}

-- An encoder of the message in these fragments.
pub record IsEncoderOf (message : List ℕ) (len : ℕ) (frags : List (List ℕ)) (e : Encoder)
    : Type 0 where
  pub message_len_is : e.message_len ≡ length message
  pub checksum_is : e.checksum ≡ crc32_calculate message
  pub fragment_len_is : e.fragment_len ≡ len
  pub fragments_are : e.fragments ≡ frags
  pub sampler_is : e.degree_sampler ≡ length frags

mix_alloc :
    (alloc : ℕ → Bool) (frags : List (List ℕ)) (len : ℕ) (p : PartIndexes) (mixed : List ℕ)
    → mix_fragments alloc frags len p ≡ some mixed
    → safe_malloc alloc len ≡ true
unfolding mix_fragments
mix_alloc alloc frags len p mixed e = ground arith

next_alloc :
    (m : Machine) (e : Encoder) (part : Part)
    → (fountain_encoder_next_part m e).1 ≡ some part
    → (part_chosen m
        (record e { seq_num = (e.seq_num + 1) % 2 ^ 32 })
        (m.choose ((e.seq_num + 1) % 2 ^ 32) (length e.fragments) e.checksum e.degree_sampler)).1
      ≡ some part
unfolding fountain_encoder_next_part
next_alloc m e part h = ground arith

-- What is chosen for the part of this number, with n fragments and this checksum, is in order and
-- below n.
abbrev pub NamesFragments : Machine → ℕ → ℕ → ℕ → Type 0
NamesFragments m n checksum seq_num =
    (chosen : PartIndexes)
    → m.choose seq_num n checksum n ≡ some chosen
    → IsSorted chosen.indexes × All (λ i. i < n) chosen.indexes

module _ (m : Machine) (message : List ℕ) (len : ℕ) (frags : List (List ℕ))
    (buffers : All (IsBuffer len) frags) where
  choices :
      (seq_num : ℕ) (e : Encoder)
      → IsEncoderOf message len frags e
      → m.choose seq_num (length e.fragments) e.checksum e.degree_sampler
        ≡ m.choose seq_num (length frags) (crc32_calculate message) e.degree_sampler
  choices seq_num e h =
      ap (λ (n : ℕ). m.choose seq_num n e.checksum e.degree_sampler) (ap length h.fragments_are)
      ∙ ap (λ (c : ℕ). m.choose seq_num (length frags) c e.degree_sampler) h.checksum_is

  same_choice :
      (e : Encoder)
      → IsEncoderOf message len frags e
      → m.choose e.seq_num (length e.fragments) e.checksum (length frags)
        ≡ m.choose e.seq_num (length frags) (crc32_calculate message) (length frags)
  same_choice e h =
      ap (λ (n : ℕ). m.choose e.seq_num n e.checksum (length frags)) (ap length h.fragments_are)
      ∙ ap (λ (c : ℕ). m.choose e.seq_num (length frags) c (length frags)) h.checksum_is

  chosen-IsSound :
      (chosen : PartIndexes) (mixed : List ℕ)
      → IsSorted chosen.indexes × All (λ i. i < length frags) chosen.indexes
      → mix_fragments m.alloc frags len chosen ≡ some mixed
      → IsSound (fragment_at frags len) len (record { indexes = chosen; payload = mixed })
  chosen-IsSound chosen mixed good e = record {
    sorted = good.0;
    combined = some-injective _ _ (
        sym e
        ∙ mix_fragments-xor_all frags len buffers m.alloc chosen
            (mix_alloc m.alloc frags len chosen mixed e) good.1);
  }

  -- The part that is made when these fragments were chosen.
  or_failed-IsPartOf :
      (e : Encoder) (indexes : PartIndexes) (result : Option (List ℕ)) (part : Part)
      → IsEncoderOf message len frags e
      → NamesFragments m (length frags) (crc32_calculate message) e.seq_num
      → m.choose e.seq_num (length frags) (crc32_calculate message) (length frags) ≡ some indexes
      → mix_fragments m.alloc frags len indexes ≡ result
      → (or_failed m e indexes result).1 ≡ some part
      → IsPartOf m message len frags part
  unfolding part_of
  or_failed-IsPartOf e indexes none part h proper c g f = cc
  or_failed-IsPartOf e indexes (some mixed) part h proper c g f =
      subst (IsPartOf m message len frags) (some-injective _ _ f) (record {
        seq_len_is = ap length h.fragments_are;
        message_len_is = h.message_len_is;
        checksum_is = h.checksum_is;
        combined = λ chosen again.
            chosen-IsSound chosen mixed (proper chosen (sym (same_choice e h) ∙ again)) (
              ap (mix_fragments m.alloc frags len)
                (some-injective chosen indexes (sym again ∙ same_choice e h ∙ c))
              ∙ g);
      })

  part_chosen-IsPartOf :
      (e : Encoder) (chosen : Option PartIndexes) (part : Part)
      → IsEncoderOf message len frags e
      → NamesFragments m (length frags) (crc32_calculate message) e.seq_num
      → m.choose e.seq_num (length frags) (crc32_calculate message) (length frags) ≡ chosen
      → (part_chosen m e chosen).1 ≡ some part
      → IsPartOf m message len frags part
  unfolding part_chosen
  part_chosen-IsPartOf e none part h proper c f = cc
  part_chosen-IsPartOf e (some indexes) part h proper c f =
      or_failed-IsPartOf e indexes (mix_fragments m.alloc e.fragments e.fragment_len indexes) part h
        proper c
        (sym (
          ap (λ (fs : List (List ℕ)). mix_fragments m.alloc fs e.fragment_len indexes)
            h.fragments_are
          ∙ ap (λ (n : ℕ). mix_fragments m.alloc frags n indexes) h.fragment_len_is))
        f

  -- If the fragments that are chosen for the encoder's next number are in order and exist, the next part
  -- that the encoder of a message gives is a part of this message: the header says so, and the data are
  -- the XOR of the fragments that are chosen for its number.
  pub fountain_encoder_next_part-IsPartOf :
      (e : Encoder) (part : Part)
      → IsEncoderOf message len frags e
      → NamesFragments m (length frags) (crc32_calculate message) ((e.seq_num + 1) % 2 ^ 32)
      → (fountain_encoder_next_part m e).1 ≡ some part
      → IsPartOf m message len frags part
  fountain_encoder_next_part-IsPartOf e part h proper f =
      part_chosen-IsPartOf (record e { seq_num = (e.seq_num + 1) % 2 ^ 32 }) _ part
        (record {
          message_len_is = h.message_len_is;
          checksum_is = h.checksum_is;
          fragment_len_is = h.fragment_len_is;
          fragments_are = h.fragments_are;
          sampler_is = h.sampler_is;
        })
        proper
        (sym (
          choices ((e.seq_num + 1) % 2 ^ 32) e h
          ∙ ap (m.choose ((e.seq_num + 1) % 2 ^ 32) (length frags) (crc32_calculate message))
              h.sampler_is))
        (next_alloc m e part f)
