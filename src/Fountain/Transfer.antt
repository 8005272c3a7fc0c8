-- ===== src/Fountain/Transfer.antt =====
-- The encoder of src/fountain_encoder.c and the decoder of src/fountain_decoder.c together.
mod Tests
use c_ur.Base.{
  ℕ, ◌+◌, ◌%◌, ◌^◌, ◌<◌, ◌≡◌, ◌⊎◌, inl, inr, refl, ap, sym, ◌∙◌, arith, Bool, true, List, [], ◌∷◌,
  length, All, IsByte, if◌then◌else◌, Option, none, some,
}
use mathlib.Core.Path.{subst}
use c_ur.ByteBuffer.{safe_malloc}
use c_ur.Fountain.Fragments.{find_nominal_fragment_length}
use c_ur.Fountain.Indexes.{PartIndexes}
use c_ur.Fountain.Indexes.Sorted.{IsSorted}
use c_ur.Fountain.PartCbor.{Part}
use c_ur.Fountain.Parts.{mix_fragments}
use c_ur.Fountain.Decoder.State.{
  Machine, Decoder, fountain_decoder_new, fountain_decoder_is_complete, fountain_decoder_is_success,
  fountain_decoder_result_message, fountain_decoder_result_message_len,
}
use c_ur.Fountain.Decoder.Receive.{fountain_decoder_receive_part}
use c_ur.Fountain.Decoder.Fed.{Fed, created, given, Fed-fountain_decoder_result_message}
use c_ur.Fountain.Encoder.{
  Encoder, part_of, or_failed, part_chosen, fountain_encoder_new, fountain_encoder_next_part,
}
use c_ur.Fountain.Prng.{PrngState}
use c_ur.Fountain.Choose.{choose_fragments}
use c_ur.Fountain.Choose.Chosen.{InRange, start_of, choose_fragments-IsSorted}
use c_ur.Crc32.{crc32_calculate}
use c_ur.Fountain.Encoder.Parts.{IsEncoderOf, NamesFragments, fountain_encoder_next_part-IsPartOf}
use c_ur.Fountain.Encoder.Created.{IsPartition, fountain_encoder_new-IsEncoderOf}

-- The encoders that come of this one by asking for parts.
pub data Later (m : Machine) (start : Encoder) : Encoder → Type 0 where
  now : Later m start start
  next : {e : Encoder} → Later m start e → Later m start (fountain_encoder_next_part m e).0

-- The decoders that come of a new one by receiving parts of this encoder, in any order, any of them
-- missing or repeated, with the numbers of these parts, the last one first.
pub data Transfer (m : Machine) (start : Encoder) : List ℕ → Decoder → Type 0 where
  begun : {d : Decoder} → fountain_decoder_new m ≡ some d → Transfer m start [] d
  delivered :
      {nums : List ℕ} {d : Decoder} {e : Encoder} {part : Part}
      → Transfer m start nums d
      → Later m start e
      → (fountain_encoder_next_part m e).1 ≡ some part
      → Transfer m start
          ((e.seq_num + 1) % 2 ^ 32 ∷ nums)
          (fountain_decoder_receive_part m d part).0

module _ (m : Machine) (message : List ℕ) (len : ℕ) (frags : List (List ℕ)) where
  abbrev Same : Encoder → Encoder → Type 0
  Same e e' =
      (e'.message_len ≡ e.message_len)
      × (e'.checksum ≡ e.checksum)
      × (e'.fragment_len ≡ e.fragment_len)
      × (e'.fragments ≡ e.fragments)
      × (e'.degree_sampler ≡ e.degree_sampler)

  or_failed-Same :
      (e : Encoder) (indexes : PartIndexes) (mixed : Option (List ℕ))
      → Same e (or_failed m e indexes mixed).0
  unfolding part_of
  or_failed-Same e indexes none = (refl, refl, refl, refl, refl)
  or_failed-Same e indexes (some mixed) = (refl, refl, refl, refl, refl)

  part_chosen-Same : (e : Encoder) (chosen : Option PartIndexes) → Same e (part_chosen m e chosen).0
  unfolding part_chosen
  part_chosen-Same e none = (refl, refl, refl, refl, refl)
  part_chosen-Same e (some indexes) = or_failed-Same e indexes _

  next_cases :
      (e : Encoder)
      → ((fountain_encoder_next_part m e).0 ≡ record e { seq_num = (e.seq_num + 1) % 2 ^ 32 })
        ⊎ ((fountain_encoder_next_part m e).0
            ≡ (part_chosen m
                (record e { seq_num = (e.seq_num + 1) % 2 ^ 32 })
                (m.choose
                  ((e.seq_num + 1) % 2 ^ 32)
                  (length e.fragments)
                  e.checksum
                  e.degree_sampler)).0)
  unfolding fountain_encoder_next_part
  next_cases e = ground arith

  next-Same : (e : Encoder) → Same e (fountain_encoder_next_part m e).0
  next-Same e = elim (next_cases e) [
    | inl f ↦ subst (Same e) (sym f) (refl, refl, refl, refl, refl)
    | inr f ↦
        subst (Same e) (sym f)
          (part_chosen-Same (record e { seq_num = (e.seq_num + 1) % 2 ^ 32 }) _)
  ]

  Later-IsEncoderOf :
      (start e : Encoder)
      → IsEncoderOf message len frags start
      → Later m start e
      → IsEncoderOf message len frags e
  Later-IsEncoderOf start e h now = h
  Later-IsEncoderOf start _ h (next {e = e} l) =
      let before = Later-IsEncoderOf start e h l in
      let same = next-Same e in
      record {
        message_len_is = same.0 ∙ before.message_len_is;
        checksum_is = same.1 ∙ before.checksum_is;
        fragment_len_is = same.2 ∙ before.fragment_len_is;
        fragments_are = same.3 ∙ before.fragments_are;
        sampler_is = same.4 ∙ before.sampler_is;
      }

module _ (m : Machine) (start : Encoder) where
  Transfer-Fed :
      (message : List ℕ) (len : ℕ) (nums : List ℕ) (d : Decoder)
      → IsEncoderOf message len start.fragments start
      → IsPartition message len start.fragments
      → All (NamesFragments m (length start.fragments) (crc32_calculate message)) nums
      → Transfer m start nums d
      → Fed m message len start.fragments d
  Transfer-Fed message len _ d h p proper (begun e) = created e
  Transfer-Fed message len _ _ h p proper
        (delivered {nums = nums} {d = d} {e = e} {part = part} t l f) =
      given (Transfer-Fed message len nums d h p proper.1 t) (
        fountain_encoder_next_part-IsPartOf m message len start.fragments p.buffers e part
          (Later-IsEncoderOf m message len start.fragments start e h l) proper.0 f)

-- The parts that choose_fragments serves as it should: they have a number from 1 on, and where this is
-- above the number n of fragments, the numbers drawn for the part are in range.
module _ (sha256 : List ℕ → List ℕ) (beyond : List ℕ → ℕ → ℕ)
    (next_int : PrngState → ℕ → PrngState × ℕ)
    (next_degree : PrngState → ℕ → ℕ → PrngState × ℕ) where
  abbrev pub IsDrawn : (ℕ → Bool) → (ℕ → Bool) → ℕ → ℕ → ℕ → Type 0
  IsDrawn array_alloc alloc n checksum seq_num =
      (0 < seq_num)
      × (n < seq_num
          → InRange next_int
              (start_of array_alloc alloc sha256 beyond next_int next_degree seq_num n checksum n).1
              (start_of array_alloc alloc sha256 beyond next_int next_degree seq_num n checksum n).0
              n)

  module _ (m : Machine)
      (choice : (seq_num seq_len checksum sampler : ℕ)
        → m.choose seq_num seq_len checksum sampler
          ≡ choose_fragments m.array_alloc m.alloc sha256 beyond next_int next_degree seq_num
              seq_len checksum sampler) where
    IsDrawn-NamesFragments :
        (n checksum : ℕ) (nums : List ℕ)
        → n < 2 ^ 32
        → All (IsDrawn m.array_alloc m.alloc n checksum) nums
        → All (NamesFragments m n checksum) nums
    IsDrawn-NamesFragments n checksum [] fits h = tt
    IsDrawn-NamesFragments n checksum (num ∷ nums) fits h = (
      λ chosen e.
          choose_fragments-IsSorted m.array_alloc m.alloc sha256 beyond next_int next_degree num n
            checksum n chosen h.0.0 fits h.0.1 (sym (choice num n checksum n) ∙ e),
      IsDrawn-NamesFragments n checksum nums fits h.1,
    )

    -- Let the fragments be chosen by choose_fragments, the allocator serve every array of indexes, a
    -- block of the message's length have that many bytes, and there be less than 2 ^ 32 fragments.
    -- Whatever parts of an encoder that fountain_encoder_new made for a message of bytes reached a new
    -- decoder, in any order, missing or repeated, each of a number from 1 on and, where it is a mixed
    -- one, with draws of prng_next_int that are in range: if the decoder is complete, it is a success,
    -- and its result is the message.
    pub Transfer-fountain_decoder_result_message :
        (encoder_size : ℕ) (message : List ℕ) (max_fragment_len first_seq_num min_fragment_len : ℕ)
        (start : Encoder) (nums : List ℕ) (d : Decoder)
        → ((c : ℕ) → m.array_alloc c ≡ true)
        → length (m.garbage (length message)) ≡ length message
        → 0 < length message
        → All IsByte message
        → fountain_encoder_new m encoder_size message max_fragment_len first_seq_num
            min_fragment_len
          ≡ some start
        → length start.fragments < 2 ^ 32
        → All
            (IsDrawn m.array_alloc m.alloc (length start.fragments) (crc32_calculate message))
            nums
        → Transfer m start nums d
        → fountain_decoder_is_complete d ≡ true
        → (fountain_decoder_is_success d ≡ true)
          × (fountain_decoder_result_message d ≡ some message)
          × (fountain_decoder_result_message_len d ≡ length message)
    Transfer-fountain_decoder_result_message encoder_size message max first min start nums d served
          size pos bytes made few drawn t complete =
        let len : ℕ = find_nominal_fragment_length (length message) min max in
        let h =
          fountain_encoder_new-IsEncoderOf m encoder_size message max first min start bytes made in
        let proper =
          IsDrawn-NamesFragments (length start.fragments) (crc32_calculate message) nums few
            drawn in
        Fed-fountain_decoder_result_message m message len start.fragments h.1.buffers pos h.1.joined
          size served h.1.not_none d (Transfer-Fed m start message len nums d h.0 h.1 proper t)
          complete
