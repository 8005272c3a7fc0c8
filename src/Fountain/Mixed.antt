-- ===== src/Fountain/Mixed.antt =====
-- The table of mixed parts of src/fountain_decoder.c: chains of entries in buckets, by the hash of the
-- set of indexes.
pub mod Cases
pub mod Sound
pub mod Measure
use c_ur.Base.{
  ℕ, ◌+◌, ◌-◌, ◌%◌, Bool, true, false, ◌&&◌, ◌||◌, List, [], ◌∷◌, ◌++◌, length, get_or, set,
  replicate, ltb, ◌==◌, if◌then◌else◌, Option, none, some, ◌>>=◌,
}
use c_ur.Fountain.Indexes.{
  PartIndexes, part_indexes_contains, part_indexes_copy, part_indexes_difference,
  part_indexes_equal, part_indexes_is_strict_subset,
}
use c_ur.Fountain.HashSet.{hash_indexes}
use c_ur.Fountain.Xor.{ur_xor_inplace}
use c_ur.Fountain.Parts.{
  DecoderPart, no_indexes, is_simple_part, get_part_index, succeeded, decoder_part_copy,
}
use c_ur.Fountain.Queue.{PartQueue, queue_enqueue}

pub record HashEntry : Type 0 where
  pub key : PartIndexes
  pub value : DecoderPart
  pub key_hash : ℕ

-- sizeof(hash_entry_t), with pointers of 8 bytes.
abbrev pub hash_entry_size : ℕ
hash_entry_size = 80

-- A chain is the list of its entries from the head on.
pub record MixedHash : Type 0 where
  pub buckets : List (List HashEntry)
  pub count : ℕ
  pub capacity : ℕ

unfoldable pub mixed_hash_init : (ℕ → Bool) → ℕ → Option MixedHash
mixed_hash_init array_alloc capacity =
    if capacity == 0
    then none
    else if array_alloc capacity
    then some (record { buckets = replicate capacity []; count = 0; capacity = capacity })
    else none

-- The walk along a chain for an entry with this key.
unfoldable pub in_chain : List HashEntry → ℕ → PartIndexes → Bool
in_chain [] key_hash key = false
in_chain (entry ∷ chain) key_hash key =
    let rest = in_chain chain key_hash key in
    (entry.key_hash == key_hash && part_indexes_equal entry.key key) || rest

abbrev pub chain_at : List (List HashEntry) → ℕ → List HashEntry
chain_at buckets bucket = get_or buckets bucket []

-- An entry at the head of its chain.
abbrev pub link : List (List HashEntry) → ℕ → HashEntry → List (List HashEntry)
link buckets bucket entry = set buckets bucket (entry ∷ chain_at buckets bucket)

module _ (array_alloc alloc : ℕ → Bool) where
  -- The copies of the key and of the value in a new entry.
  unfoldable pub copied_entry : PartIndexes → DecoderPart → Option HashEntry
  copied_entry key value = do
    key' ← succeeded (part_indexes_copy array_alloc key no_indexes)
    value' ← decoder_part_copy array_alloc alloc value
    some (record { key = key'; value = value'; key_hash = hash_indexes key })

  unfoldable pub new_entry : PartIndexes → DecoderPart → Option HashEntry
  new_entry key value = if alloc hash_entry_size then copied_entry key value else none

  unfoldable pub put_entry : MixedHash → ℕ → Option HashEntry → MixedHash × Bool
  put_entry hash bucket none = (hash, false)
  put_entry hash bucket (some entry) =
      (record hash { buckets = link hash.buckets bucket entry; count = hash.count + 1 }, true)

  unfoldable pub mixed_hash_put : MixedHash → PartIndexes → DecoderPart → MixedHash × Bool
  mixed_hash_put hash key value =
      let key_hash = hash_indexes key in
      let bucket = key_hash % hash.capacity in
      if hash.capacity == 0
      then (hash, false)
      else if in_chain (chain_at hash.buckets bucket) key_hash key
      then (hash, false)
      else put_entry hash bucket (new_entry key value)

-- What the walk of reduce_mixed_by changes besides the chains.
pub record Walk : Type 0 where
  pub queue : PartQueue
  pub count : ℕ
  pub rehash_list : List HashEntry

module _ (array_alloc : ℕ → Bool) (received : PartIndexes) (part : DecoderPart) (capacity : ℕ) where
  -- The entry after the XOR, with its new indexes. The result of the copy is not looked at.
  unfoldable pub reduced_entry : HashEntry → PartIndexes → HashEntry
  reduced_entry entry new_indexes =
      let value_len = length entry.value.payload in
      let part_len = length part.payload in
      let xor_len = if ltb value_len part_len then value_len else part_len in
      record {
        key = new_indexes;
        value = record {
          indexes = (part_indexes_copy array_alloc new_indexes no_indexes).0;
          payload = ur_xor_inplace entry.value.payload part.payload xor_len;
        };
        key_hash = hash_indexes new_indexes;
      }

  -- Where a reduced entry goes: to the queue (which may be full), to another bucket, or nowhere.
  unfoldable pub place : ℕ → HashEntry → Walk → List HashEntry × Walk
  place bucket entry walk =
      let index = get_part_index entry.value in
      let queue' =
        if part_indexes_contains received index
        then walk.queue
        else (queue_enqueue walk.queue entry.value).0 in
      if is_simple_part entry.value
      then ([], record walk { queue = queue'; count = walk.count - 1 })
      else if entry.key_hash % capacity == bucket
      then (entry ∷ [], walk)
      else ([], record walk { rehash_list = entry ∷ walk.rehash_list })

  -- One entry: what stays in the chain for it.
  unfoldable pub visit : ℕ → HashEntry → Walk → List HashEntry × Walk
  visit bucket entry walk =
      let difference = part_indexes_difference array_alloc entry.key part.indexes no_indexes in
      if part_indexes_is_strict_subset part.indexes entry.key
      then if difference.1
        then place bucket (reduced_entry entry difference.0) walk
        else (entry ∷ [], walk)
      else (entry ∷ [], walk)

  unfoldable pub walk_chain : ℕ → List HashEntry → Walk → List HashEntry × Walk
  walk_chain bucket [] walk = ([], walk)
  walk_chain bucket (entry ∷ chain) walk =
      let here = visit bucket entry walk in
      let rest = walk_chain bucket chain here.1 in (here.0 ++ rest.0, rest.1)

  unfoldable pub walk_buckets : ℕ → List (List HashEntry) → Walk → List (List HashEntry) × Walk
  walk_buckets bucket [] walk = ([], walk)
  walk_buckets bucket (chain ∷ buckets) walk =
      let here = walk_chain bucket chain walk in
      let rest = walk_buckets (bucket + 1) buckets here.1 in (here.0 ∷ rest.0, rest.1)

-- The loop over rehash_list.
unfoldable pub reinsert : ℕ → List HashEntry → List (List HashEntry) → List (List HashEntry)
reinsert capacity [] buckets = buckets
reinsert capacity (entry ∷ rest) buckets =
    reinsert capacity rest (link buckets (entry.key_hash % capacity) entry)

-- The table and the queue afterwards.
unfoldable pub reduce_mixed_by :
    (ℕ → Bool) → PartIndexes → DecoderPart → MixedHash → PartQueue → MixedHash × PartQueue
reduce_mixed_by array_alloc received part hash queue =
    let start : Walk = record { queue = queue; count = hash.count; rehash_list = [] } in
    let walked = walk_buckets array_alloc received part hash.capacity 0 hash.buckets start in
    if hash.count == 0 then (hash, queue) else (
      record hash {
        buckets = reinsert hash.capacity walked.1.rehash_list walked.0;
        count = walked.1.count;
      },
      walked.1.queue,
    )
