-- ===== src/Fountain/Encoder.antt =====
-- The fountain encoder of src/fountain_encoder.c: fountain_encoder_t and the parts that it gives.
pub mod Parts
pub mod Created
use c_ur.Base.{
  ℕ, ◌+◌, ◌*◌, ◌%◌, ◌^◌, Bool, true, false, List, [], ◌∷◌, length, get_or, ltb, leb, ◌==◌,
  if◌then◌else◌, Option, none, some, ◌>>=◌,
}
use c_ur.ByteBuffer.{safe_malloc}
use c_ur.Crc32.{crc32_calculate}
use c_ur.Fountain.Fragments.{find_nominal_fragment_length, partition_message}
use c_ur.Fountain.Indexes.{PartIndexes, part_indexes_copy}
use c_ur.Fountain.PartCbor.{Part}
use c_ur.Fountain.Parts.{no_indexes, mix_fragments}
use c_ur.Fountain.Decoder.State.{Machine}
use c_ur.Fountain.Decoder.Receive.{sampler_for}

-- `degree_sampler` is the number of degrees for which the sampler was made.
pub record Encoder : Type 0 where
  pub message_len : ℕ
  pub checksum : ℕ
  pub fragment_len : ℕ
  pub fragments : List (List ℕ)
  pub seq_num : ℕ
  pub last_part_indexes : PartIndexes
  pub degree_sampler : ℕ

module _ (m : Machine) where
  -- `encoder_size` is sizeof(fountain_encoder_t), which calloc allocates.
  unfoldable pub encoder_of : List ℕ → ℕ → ℕ → Option Encoder
  encoder_of message fragment_len first_seq_num = do
    fragments ← if fragment_len == 0 then none else partition_message message fragment_len
    sampler ← sampler_for m 0 (length fragments)
    some (record {
      message_len = length message;
      checksum = crc32_calculate message;
      fragment_len = fragment_len;
      fragments = fragments;
      seq_num = first_seq_num;
      last_part_indexes = no_indexes;
      degree_sampler = sampler;
    })

  unfoldable pub fountain_encoder_new : ℕ → List ℕ → ℕ → ℕ → ℕ → Option Encoder
  fountain_encoder_new encoder_size message max_fragment_len first_seq_num min_fragment_len =
      if length message == 0
      then none
      else if m.alloc encoder_size
      then encoder_of message
          (find_nominal_fragment_length (length message) min_fragment_len max_fragment_len)
          first_seq_num
      else none

  -- The part for these fragments, and the encoder that remembers them. The result of the copy of the
  -- indexes is not looked at.
  unfoldable pub part_of : Encoder → PartIndexes → List ℕ → Encoder × Option Part
  part_of e indexes mixed = (
    record e { last_part_indexes = (part_indexes_copy m.array_alloc indexes no_indexes).0 },
    some (record {
      seq_num = e.seq_num;
      seq_len = length e.fragments;
      message_len = e.message_len;
      checksum = e.checksum;
      payload = mixed;
    }),
  )

  abbrev pub or_failed : Encoder → PartIndexes → Option (List ℕ) → Encoder × Option Part
  or_failed e indexes none = (e, none)
  or_failed e indexes (some mixed) = part_of e indexes mixed

  unfoldable pub part_chosen : Encoder → Option PartIndexes → Encoder × Option Part
  part_chosen e none = (e, none)
  part_chosen e (some indexes) =
      or_failed e indexes (mix_fragments m.alloc e.fragments e.fragment_len indexes)

  -- The number has 32 bits; it is advanced whatever happens then.
  unfoldable pub fountain_encoder_next_part : Encoder → Encoder × Option Part
  fountain_encoder_next_part e =
      let e' : Encoder = record e { seq_num = (e.seq_num + 1) % 2 ^ 32 } in
      let chosen =
        m.choose ((e.seq_num + 1) % 2 ^ 32) (length e.fragments) e.checksum e.degree_sampler in
      if safe_malloc m.alloc m.set_size then part_chosen e' chosen else (e', none)

unfoldable pub fountain_encoder_seq_len : Encoder → ℕ
fountain_encoder_seq_len e = length e.fragments

unfoldable pub fountain_encoder_is_single_part : Encoder → Bool
fountain_encoder_is_single_part e = length e.fragments == 1
