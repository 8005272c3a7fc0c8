-- ===== src/Fountain/Decoder/Receive.antt =====
-- fountain_decoder_receive_part of src/fountain_decoder.c and the counts that the decoder reports.
use c_ur.Base.{
  ℕ, zero, suc, ◌+◌, ◌*◌, ◌%◌, ◌^◌, Bool, true, false, length, ltb, ◌==◌, ◌&&◌, if◌then◌else◌,
  Option, none, some, ◌>>=◌,
}
use c_ur.ByteBuffer.{safe_malloc}
use c_ur.Fountain.Indexes.{PartIndexes, ◌>=>◌, part_indexes_add, part_indexes_copy}
use c_ur.Fountain.HashSet.{hash_indexes, hash_set_init, hash_set_contains, hash_set_add}
use c_ur.Fountain.PartCbor.{Part}
use c_ur.Fountain.Parts.{no_indexes, succeeded}
use c_ur.Fountain.Queue.{PartQueue, queue_enqueue}
use c_ur.Fountain.Mixed.{MixedHash, mixed_hash_init}
use c_ur.Fountain.Mixed.Measure.{entries}
use c_ur.Fountain.Decoder.State.{
  Machine, Decoder, clear_initialization, fountain_decoder_is_complete,
}
use c_ur.Fountain.Decoder.Process.{process_queue}

-- HASH_MIN_CAPACITY; HASH_CAPACITY_MULTIPLIER is 1.
abbrev pub hash_min_capacity : ℕ
hash_min_capacity = 64

abbrev pub table_entries : Option MixedHash → ℕ
table_entries none = 0
table_entries (some hash) = entries hash.buckets

-- The passes that the loop over the queue may take.
abbrev pub queue_rounds : Decoder → ℕ
queue_rounds d = 3 * d.queue.count + 2 * table_entries d.mixed_parts_hash

module _ (m : Machine) where
  -- The loop that adds the indexes from `i` on to expected_part_indexes.
  unfoldable pub add_range : ℕ → ℕ → PartIndexes → PartIndexes × Bool
  add_range zero i p = (p, true)
  add_range (suc rounds) i p = part_indexes_add m.array_alloc p i >=> add_range rounds (i + 1)

  abbrev pub table_capacity : ℕ → ℕ
  table_capacity seq_len = if ltb seq_len hash_min_capacity then hash_min_capacity else seq_len

  -- The sampler of the degrees; a double has 8 bytes.
  unfoldable pub sampler_for : ℕ → ℕ → Option ℕ
  sampler_for old seq_len =
      if seq_len == 0
      then some old
      else if m.alloc (seq_len * 8)
      then if m.sampler_ready seq_len then some seq_len else none
      else none

  unfoldable pub table_for : ℕ → Option MixedHash
  table_for seq_len =
      if safe_malloc m.alloc m.table_size
      then mixed_hash_init m.array_alloc (table_capacity seq_len)
      else none

  -- What the first part sets up, if everything can be had.
  unfoldable pub initialized : Decoder → Part → Option Decoder
  initialized d part = do
    expected ← succeeded (add_range part.seq_len 0 no_indexes)
    table ← table_for part.seq_len
    hashes ← hash_set_init m.alloc (table_capacity part.seq_len)
    sampler ← sampler_for d.degree_sampler part.seq_len
    some (record d {
      expected_part_indexes = some expected;
      expected_checksum = part.checksum;
      expected_fragment_len = length part.payload;
      expected_message_len = part.message_len;
      mixed_parts_hash = some table;
      received_fragments_hashes = hashes;
      degree_sampler = sampler;
    })

  -- A failure takes back what was set up.
  unfoldable pub or_cleared : Decoder → Option Decoder → Decoder × Bool
  or_cleared d none = (clear_initialization d, false)
  or_cleared d (some d') = (d', true)

  unfoldable pub initialize : Option PartIndexes → Decoder → Part → Decoder × Bool
  initialize (some expected) d part = (d, true)
  initialize none d part =
      if safe_malloc m.alloc m.set_size then or_cleared d (initialized d part) else (d, false)

  -- part_indexes_new and the copy, whose result is not looked at.
  unfoldable pub last_indexes : PartIndexes → Option PartIndexes
  last_indexes chosen =
      if safe_malloc m.alloc m.set_size
      then some (part_indexes_copy m.array_alloc chosen no_indexes).0
      else none

  -- A part that was enqueued, or could not be.
  unfoldable pub receive_enqueued : Part → Decoder → PartQueue × Bool → Decoder × Bool
  receive_enqueued part d (queue, false) = (d, false)
  receive_enqueued part d (queue, true) =
      let start : Decoder = record d { queue = queue } in
      let worked = process_queue m (queue_rounds start) start in
      (
        record worked {
          processed_parts_count = worked.processed_parts_count + 1;
          last_fragment_seq_num = part.seq_num;
          has_received_fragment = true;
        },
        true,
      )

  -- A part whose fragments are known.
  unfoldable pub receive_chosen : Decoder → Part → Option PartIndexes → Decoder × Bool
  receive_chosen d part none = (d, false)
  receive_chosen d part (some chosen) =
      let hash = hash_indexes chosen % 2 ^ 32 in
      let d' : Decoder = record d {
        received_fragments_hashes = (hash_set_add m.alloc d.received_fragments_hashes hash).0;
        last_part_indexes = last_indexes chosen;
      } in
      if hash_set_contains d.received_fragments_hashes hash
      then (d, true)
      else receive_enqueued part d'
          (queue_enqueue d.queue (record { indexes = chosen; payload = part.payload }))

  -- A part for a decoder that is set up, or could not be.
  unfoldable pub receive_initialized : Part → Decoder × Bool → Decoder × Bool
  receive_initialized part (d, false) = (d, false)
  receive_initialized part (d, true) =
      if length part.payload == d.expected_fragment_len
      then receive_chosen d part (m.choose part.seq_num part.seq_len part.checksum d.degree_sampler)
      else (d, false)

  unfoldable pub fountain_decoder_receive_part : Decoder → Part → Decoder × Bool
  fountain_decoder_receive_part d part =
      if fountain_decoder_is_complete d
      then (d, false)
      else if d.has_received_fragment && (part.seq_num == d.last_fragment_seq_num)
      then (d, true)
      else receive_initialized part (initialize d.expected_part_indexes d part)

-- The number of parts the message has, once a part told it.
abbrev pub count_of : Option PartIndexes → ℕ
count_of none = 0
count_of (some expected) = length expected.indexes

unfoldable pub fountain_decoder_expected_part_count : Decoder → ℕ
fountain_decoder_expected_part_count d = count_of d.expected_part_indexes

unfoldable pub fountain_decoder_processed_parts_count : Decoder → ℕ
fountain_decoder_processed_parts_count d = d.processed_parts_count

unfoldable pub fountain_decoder_received_parts_count : Decoder → ℕ
fountain_decoder_received_parts_count d = length d.received_part_indexes.indexes
