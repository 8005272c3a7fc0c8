-- ===== src/Fountain/Parts.antt =====
-- The parts that src/fountain_decoder.c works on, their reduction, and the mixing of fragments of
-- src/fountain_encoder.c.
pub mod Combined
pub mod Mixing
pub mod Reduction
pub mod Tests
use c_ur.Base.{ℕ, zero, suc, ◌+◌, Bool, true, false, List, [], ◌∷◌, length, get_or, replicate, take}
use c_ur.Base.{leb, ltb, ◌==◌, if◌then◌else◌, Option, none, some, ◌>>=◌}
use c_ur.ByteBuffer.{safe_malloc}
use c_ur.Fountain.Indexes.{
  PartIndexes, part_indexes_copy, part_indexes_difference, part_indexes_is_strict_subset,
}
use c_ur.Fountain.Xor.{ur_xor, ur_xor_inplace}

-- decoder_part_t; the length of `payload` is data_len, and no data is the empty list.
pub record DecoderPart : Type 0 where
  pub indexes : PartIndexes
  pub payload : List ℕ

-- (part_indexes_t){0}
abbrev pub no_indexes : PartIndexes
no_indexes = record { indexes = []; capacity = 0 }

unfoldable pub is_simple_part : DecoderPart → Bool
is_simple_part part = length part.indexes.indexes == 1

unfoldable pub get_part_index : DecoderPart → ℕ
get_part_index part = get_or part.indexes.indexes 0 0

-- The result of a function that reports success, where a failure leaves nothing to be used.
abbrev pub succeeded {ℓ} : {A : Type ℓ} → A × Bool → Option A
succeeded (a, true) = some a
succeeded (a, false) = none

-- `array_alloc` answers for arrays of indexes, by their number; `alloc` for blocks of bytes.
module _ (array_alloc alloc : ℕ → Bool) where
  -- The copy of the data that decoder_part_copy makes.
  unfoldable pub copy_payload : PartIndexes → List ℕ → Option DecoderPart
  copy_payload indexes [] = some (record { indexes = indexes; payload = [] })
  copy_payload indexes (b ∷ bs) =
      if safe_malloc alloc (length (b ∷ bs))
      then some (record { indexes = indexes; payload = b ∷ bs })
      else none

  unfoldable pub decoder_part_copy : DecoderPart → Option DecoderPart
  decoder_part_copy src = do
    indexes ← succeeded (part_indexes_copy array_alloc src.indexes no_indexes)
    copy_payload indexes src.payload

  -- The reduced part, once its indexes are known.
  unfoldable pub xor_payload : DecoderPart → DecoderPart → PartIndexes → Option DecoderPart
  xor_payload a b indexes =
      if safe_malloc alloc (length a.payload)
      then some
          (record { indexes = indexes; payload = ur_xor a.payload b.payload (length a.payload) })
      else none

  unfoldable pub reduce_part_by_part : DecoderPart → DecoderPart → Option DecoderPart
  reduce_part_by_part a b =
      if part_indexes_is_strict_subset b.indexes a.indexes
      then (succeeded (part_indexes_difference array_alloc a.indexes b.indexes no_indexes)
          >>= xor_payload a b)
      else decoder_part_copy a

-- The loop of mix_fragments over the indexes after the first.
unfoldable pub mix_loop : List (List ℕ) → ℕ → List ℕ → List ℕ → Option (List ℕ)
mix_loop fragments fragment_len [] result = some result
mix_loop fragments fragment_len (index ∷ indexes) result =
    let more =
      mix_loop fragments fragment_len indexes
        (ur_xor_inplace result (get_or fragments index []) fragment_len) in
    if leb (length fragments) index then none else more

-- The first fragment is copied, the others are combined with it.
unfoldable pub mix_chosen : List (List ℕ) → ℕ → List ℕ → Option (List ℕ)
mix_chosen fragments fragment_len [] = some (replicate fragment_len 0)
mix_chosen fragments fragment_len (first ∷ indexes) =
    if leb (length fragments) first
    then none
    else mix_loop fragments fragment_len indexes (take fragment_len (get_or fragments first []))

unfoldable pub mix_fragments : (ℕ → Bool) → List (List ℕ) → ℕ → PartIndexes → Option (List ℕ)
mix_fragments alloc fragments fragment_len p =
    if safe_malloc alloc fragment_len then mix_chosen fragments fragment_len p.indexes else none
