-- ===== src/Fountain/Decoder/State.antt =====
-- The state of the fountain decoder, fountain_decoder_t of src/fountain_decoder.c, and what it has of
-- its surroundings.
use c_ur.Base.{ℕ, Bool, true, false, List, [], Option, none, some, if◌then◌else◌}
use c_ur.ByteBuffer.{safe_malloc}
use c_ur.Fountain.Indexes.{PartIndexes}
use c_ur.Fountain.HashSet.{HashSet}
use c_ur.Fountain.Parts.{DecoderPart, no_indexes}
use c_ur.Fountain.Queue.{PartQueue, queue_init, queue_initial_capacity}
use c_ur.Fountain.Mixed.{MixedHash}

-- What the decoder calls and does not define itself. `array_alloc` answers for arrays of indexes and
-- of buckets, by their number, `alloc` for all other blocks, by their bytes; `garbage` is what stands
-- in a new block of so many bytes. `choose` is choose_fragments_cached: the last argument is the number
-- of degrees for which the sampler was made. `sampler_ready` tells whether a sampler for so many
-- degrees can be made.
pub record Machine : Type 0 where
  pub array_alloc : ℕ → Bool
  pub alloc : ℕ → Bool
  pub part_size : ℕ
  pub result_size : ℕ
  pub table_size : ℕ
  pub set_size : ℕ
  pub decoder_size : ℕ
  pub garbage : ℕ → List ℕ
  pub sampler_ready : ℕ → Bool
  pub choose : ℕ → ℕ → ℕ → ℕ → Option PartIndexes

-- fountain_decoder_result_t; `bytes` is data, which may be NULL.
pub record FountainResult : Type 0 where
  pub bytes : Option (List ℕ)
  pub bytes_len : ℕ
  pub is_success : Bool
  pub is_error : Bool

-- One place of the three arrays of simple_parts.
pub record SimplePart : Type 0 where
  pub key : ℕ
  pub value : DecoderPart
  pub value_len : ℕ

-- `count` is the length of `stored`.
pub record SimpleParts : Type 0 where
  pub stored : List SimplePart
  pub capacity : ℕ

-- `degree_sampler` is the number of degrees, 0 for a sampler that was freed.
pub record Decoder : Type 0 where
  pub received_part_indexes : PartIndexes
  pub last_part_indexes : Option PartIndexes
  pub processed_parts_count : ℕ
  pub outcome : Option FountainResult
  pub expected_part_indexes : Option PartIndexes
  pub expected_fragment_len : ℕ
  pub expected_message_len : ℕ
  pub expected_checksum : ℕ
  pub simple_parts : SimpleParts
  pub mixed_parts_hash : Option MixedHash
  pub received_fragments_hashes : HashSet
  pub queue : PartQueue
  pub degree_sampler : ℕ
  pub last_fragment_seq_num : ℕ
  pub has_received_fragment : Bool

abbrev pub no_hashes : HashSet
no_hashes = record { hashes = []; capacity = 0 }

-- The zeroed block of a new decoder, with its queue.
abbrev pub fresh_decoder : PartQueue → Decoder
fresh_decoder queue = record {
  received_part_indexes = no_indexes;
  last_part_indexes = none;
  processed_parts_count = 0;
  outcome = none;
  expected_part_indexes = none;
  expected_fragment_len = 0;
  expected_message_len = 0;
  expected_checksum = 0;
  simple_parts = record { stored = []; capacity = 0 };
  mixed_parts_hash = none;
  received_fragments_hashes = no_hashes;
  queue = queue;
  degree_sampler = 0;
  last_fragment_seq_num = 0;
  has_received_fragment = false;
}

abbrev pub with_queue : Option PartQueue → Option Decoder
with_queue none = none
with_queue (some queue) = some (fresh_decoder queue)

unfoldable pub fountain_decoder_new : Machine → Option Decoder
fountain_decoder_new m =
    if safe_malloc m.alloc m.decoder_size
    then with_queue (queue_init m.alloc m.part_size queue_initial_capacity)
    else none

abbrev pub is_some {ℓ} : {A : Type ℓ} → Option A → Bool
is_some none = false
is_some (some a) = true

unfoldable pub fountain_decoder_is_complete : Decoder → Bool
fountain_decoder_is_complete d = is_some d.outcome

abbrev pub success_of : Option FountainResult → Bool
success_of none = false
success_of (some r) = r.is_success

unfoldable pub fountain_decoder_is_success : Decoder → Bool
fountain_decoder_is_success d = success_of d.outcome

abbrev pub bytes_of_result : Option FountainResult → Option (List ℕ)
bytes_of_result none = none
bytes_of_result (some r) = r.bytes

unfoldable pub fountain_decoder_result_message : Decoder → Option (List ℕ)
fountain_decoder_result_message d = bytes_of_result d.outcome

abbrev pub emptied : Option FountainResult → Option FountainResult
emptied none = none
emptied (some r) = some (record r { bytes = none })

-- The message, and the decoder that no longer has it.
unfoldable pub fountain_decoder_take_result_message : Decoder → Option (List ℕ) × Decoder
fountain_decoder_take_result_message d =
    (bytes_of_result d.outcome, record d { outcome = emptied d.outcome })

abbrev pub len_of_result : Option FountainResult → ℕ
len_of_result none = 0
len_of_result (some r) = r.bytes_len

unfoldable pub fountain_decoder_result_message_len : Decoder → ℕ
fountain_decoder_result_message_len d = len_of_result d.outcome

-- fountain_decoder_clear_initialization
unfoldable pub clear_initialization : Decoder → Decoder
clear_initialization d = record d {
  expected_part_indexes = none;
  mixed_parts_hash = none;
  received_fragments_hashes = no_hashes;
  degree_sampler = 0;
  expected_fragment_len = 0;
  expected_message_len = 0;
  expected_checksum = 0;
}
