-- ===== src/Fountain/Choose.antt =====
-- choose_fragments of src/fountain_utils.c.
pub mod Chosen
use c_ur.Base.{
  ℕ, zero, suc, ◌+◌, ◌-◌, ◌*◌, ◌/◌, ◌%◌, ◌^◌, Bool, true, false, List, [], ◌∷◌, ◌++◌, length, take,
  drop, get_or, ltb, leb, ◌==◌, if◌then◌else◌, Option, none, some,
}
use c_ur.ByteBuffer.{safe_malloc}
use c_ur.Cbor.Encode.{u8}
use c_ur.Fountain.Indexes.{PartIndexes, part_indexes_add}
use c_ur.Fountain.Prng.{PrngState, prng_init_from_bytes}
use c_ur.Fountain.Parts.{no_indexes, succeeded}

-- The bytes of the seed.
abbrev pub seed_of : ℕ → ℕ → List ℕ
seed_of seq_num checksum =
    u8 (seq_num / 2 ^ 24)
    ∷ u8 (seq_num / 2 ^ 16)
    ∷ u8 (seq_num / 2 ^ 8)
    ∷ u8 seq_num
    ∷ u8 (checksum / 2 ^ 24)
    ∷ u8 (checksum / 2 ^ 16)
    ∷ u8 (checksum / 2 ^ 8)
    ∷ u8 checksum
    ∷ []

-- 0, 1, ... in remaining_indexes.
unfoldable pub all_indexes : ℕ → ℕ → List ℕ
all_indexes i zero = []
all_indexes i (suc n) = i ∷ all_indexes (suc i) n

-- The shift that takes out the index at `idx`; the count goes down by one in any case.
unfoldable pub remove_at : List ℕ → ℕ → List ℕ
remove_at xs idx = take (length xs - 1) (take idx xs ++ drop (suc idx) xs)

-- `sha256` is that of the bundled library, and `beyond` what is read behind the indexes that are left.
-- `next_int` is prng_next_int from 0 and `next_degree` what choose_degree draws with the sampler of so
-- many degrees: both compute with doubles.
module _ (array_alloc alloc : ℕ → Bool) (sha256 : List ℕ → List ℕ) (beyond : List ℕ → ℕ → ℕ)
    (next_int : PrngState → ℕ → PrngState × ℕ)
    (next_degree : PrngState → ℕ → ℕ → PrngState × ℕ) where
  -- The loop of the draws, `draws` of them left.
  unfoldable pub draw_loop : ℕ → PrngState → List ℕ → PartIndexes → Option PartIndexes
  draw_loop zero rng remaining result = some result
  draw_loop (suc draws) rng remaining result =
      let drawn = next_int rng (length remaining - 1) in
      let added =
        part_indexes_add array_alloc result (get_or remaining drawn.1 (beyond remaining drawn.1)) in
      let rest = draw_loop draws drawn.0 (remove_at remaining drawn.1) added.0 in
      if length remaining == 0 then some result else if added.1 then rest else none

  -- The first parts are the fragments themselves; seq_num - 1 has 32 bits. The seed starts a new
  -- generator for each later part.
  unfoldable pub choose_fragments : ℕ → ℕ → ℕ → ℕ → Option PartIndexes
  choose_fragments seq_num seq_len checksum sampler =
      let rng = prng_init_from_bytes sha256 (seed_of seq_num checksum) in
      let degree = next_degree rng seq_len sampler in
      let draws = if ltb degree.1 seq_len then degree.1 else seq_len in
      let drawn = draw_loop draws degree.0 (all_indexes 0 seq_len) no_indexes in
      if seq_len == 0
      then none
      else if leb seq_num seq_len
      then succeeded (part_indexes_add array_alloc no_indexes ((seq_num + (2 ^ 32 - 1)) % 2 ^ 32))
      else if safe_malloc alloc (seq_len * 8)
      then drawn
      else none
