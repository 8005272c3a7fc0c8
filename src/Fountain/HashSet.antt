-- ===== src/Fountain/HashSet.antt =====
-- The sorted set of hashes by which src/fountain_decoder.c knows a fragment again.
pub mod Laws
use c_ur.Base.{
  ℕ, ◌+◌, ◌*◌, ◌%◌, ◌^◌, bit_xor, Bool, true, false, List, [], ◌∷◌, length, leb, ltb, ◌==◌,
  if◌then◌else◌, Option, some, none,
}
use c_ur.ByteBuffer.{safe_malloc}
use c_ur.Fountain.Indexes.{PartIndexes, search_all, insert_at}

-- `count` is the length of `hashes`.
pub record HashSet : Type 0 where
  pub hashes : List ℕ
  pub capacity : ℕ

-- MAX_DUPLICATE_TRACKING
abbrev pub max_duplicate_tracking : ℕ
max_duplicate_tracking = 512

-- FNV1A_OFFSET_BASIS, FNV1A_PRIME
abbrev pub fnv1a_offset_basis : ℕ
fnv1a_offset_basis = 2166136261

abbrev pub fnv1a_prime : ℕ
fnv1a_prime = 16777619

unfoldable pub hash_loop : ℕ → List ℕ → ℕ
hash_loop hash [] = hash
hash_loop hash (i ∷ indexes) = hash_loop (bit_xor hash i * fnv1a_prime % 2 ^ 64) indexes

-- size_t has 64 bits.
unfoldable pub hash_indexes : PartIndexes → ℕ
hash_indexes p = if length p.indexes == 0 then 0 else hash_loop fnv1a_offset_basis p.indexes

-- A loop of the same text as that of part_indexes_contains.
unfoldable pub hash_set_contains : HashSet → ℕ → Bool
hash_set_contains set hash =
    if length set.hashes == 0 then false else (search_all set.hashes hash).0

-- The capacity to grow to.
abbrev pub grown_capacity : ℕ → ℕ
grown_capacity capacity =
    if ltb max_duplicate_tracking (capacity * 2) then max_duplicate_tracking else capacity * 2

module _ (alloc : ℕ → Bool) where
  -- A hash has 4 bytes.
  unfoldable pub hash_set_init : ℕ → Option HashSet
  hash_set_init capacity =
      if capacity == 0
      then none
      else if safe_malloc alloc (capacity * 4)
      then some (record { hashes = []; capacity = capacity })
      else none

  -- The limit, the growth and the insertion at `lo`.
  unfoldable pub hash_set_insert : HashSet → ℕ → ℕ → HashSet × Bool
  hash_set_insert set hash lo =
      if leb max_duplicate_tracking (length set.hashes)
      then (set, false)
      else if leb set.capacity (length set.hashes)
      then if alloc (grown_capacity set.capacity * 4)
        then (
          record { hashes = insert_at set.hashes lo hash; capacity = grown_capacity set.capacity },
          true,
        )
        else (set, false)
      else (record { hashes = insert_at set.hashes lo hash; capacity = set.capacity }, true)

  unfoldable pub hash_set_add : HashSet → ℕ → HashSet × Bool
  hash_set_add set hash =
      let found = search_all set.hashes hash in
      if found.0 then (set, false) else hash_set_insert set hash found.1
