-- ===== src/Fountain/Decoder/Tests.antt =====
-- The fountain encoder and decoder at concrete inputs.
use c_ur.Base.{ℕ, ◌<◌, ◌≡◌, refl, arith, Bool, true, List, [], ◌∷◌, All, replicate, some}
use mathlib.Core.Path.{subst}
use mathlib.Core.Option.{some-injective}
use c_ur.Crc32.{crc32_calculate}
use c_ur.Fountain.Fragments.{join_fragments, join_loop}
use c_ur.Fountain.Fragments.Joined.{all_some}
use c_ur.Fountain.Indexes.{PartIndexes}
use c_ur.Fountain.Indexes.Sorted.{IsSorted}
use c_ur.Fountain.PartCbor.{Part}
use c_ur.Fountain.Parts.Combined.{IsSound}
use c_ur.Fountain.Parts.Mixing.{fragment_at, fragment_at-IsBuffer}
use c_ur.Fountain.Parts.Tests.{
  two_fragments, two_buffers, first_part, both_parts, first_part-IsSound, both_parts-IsSound,
  small_ring, small_ring-IsRing,
}
use c_ur.ByteBuffer.{safe_malloc}
use c_ur.Fountain.Queue.{no_part, queue_init}
use c_ur.Fountain.Queue.Fifo.{IsRing}
use c_ur.Fountain.Decoder.State.{
  Machine, Decoder, fresh_decoder, fountain_decoder_new, fountain_decoder_is_complete,
  fountain_decoder_is_success, fountain_decoder_result_message, fountain_decoder_result_message_len,
}
use c_ur.Fountain.Decoder.Process.{process_queue}
use c_ur.Fountain.Decoder.Receive.{queue_rounds, fountain_decoder_receive_part}
use c_ur.Fountain.Decoder.Termination.{Settled, queue_rounds-Settled}
use c_ur.Fountain.Decoder.Given.{IsPartOf}
use c_ur.Fountain.Decoder.Fed.{created, given, Fed-fountain_decoder_result_message}
use c_ur.ByteBuffer.{safe_malloc}
use c_ur.Crc32.{crc32_nibble, crc32_byte, crc32_loop, crc32_calculate}
use c_ur.Fountain.Indexes.{
  search, part_indexes_contains, part_indexes_clear, insert_at, with_room, store_at,
  part_indexes_add, part_indexes_append_sorted, difference_loop, part_indexes_difference,
  subset_loop, part_indexes_is_strict_subset, same_indexes, part_indexes_equal, part_indexes_copy,
}
use c_ur.Fountain.HashSet.{
  hash_loop, hash_indexes, hash_set_contains, hash_set_init, hash_set_insert, hash_set_add,
}
use c_ur.Fountain.Xor.{word_of, bytes_of, word_loop, byte_loop, ur_xor, ur_xor_inplace}
use c_ur.Fountain.Parts.{
  is_simple_part, get_part_index, copy_payload, decoder_part_copy, xor_payload, reduce_part_by_part,
  mix_loop, mix_chosen, mix_fragments,
}
use c_ur.Fountain.Queue.{queue_init, queue_enqueue, queue_dequeue, queue_is_empty}
use c_ur.Fountain.Mixed.{
  mixed_hash_init, in_chain, copied_entry, new_entry, put_entry, mixed_hash_put, reduced_entry,
  place, visit, walk_chain, walk_buckets, reinsert, reduce_mixed_by,
}
use c_ur.Fountain.Mixed.Measure.{entries}
use c_ur.Fountain.Decoder.State.{
  fountain_decoder_new, fountain_decoder_is_complete, fountain_decoder_is_success,
  fountain_decoder_result_message, fountain_decoder_take_result_message,
  fountain_decoder_result_message_len, clear_initialization,
}
use c_ur.Fountain.Decoder.Assembly.{
  has_key, simple_room, store_copy, store_simple, add_simple_part, shift_in, onto, sort_loop,
  copied_part, copy_loop, message_of, outcome_of, assemble, try_assemble, process_simple_part,
}
use c_ur.Fountain.Decoder.Process.{
  reduce_by_simple, reduce_by_chain, reduce_by_table, add_mixed_part, decoder_reduce_mixed_by,
  keep_reduced, process_copy, process_mixed_part, process_dequeued, process_queue_item,
  process_queue,
}
use c_ur.Fountain.Decoder.Receive.{
  add_range, sampler_for, table_for, initialized, or_cleared, initialize, last_indexes,
  receive_enqueued, receive_chosen, receive_initialized, fountain_decoder_receive_part,
  fountain_decoder_expected_part_count, fountain_decoder_processed_parts_count,
  fountain_decoder_received_parts_count,
}
use c_ur.Base.{inr}
use c_ur.Fountain.Prng.{PrngState}
use c_ur.Fountain.Choose.{draw_loop, all_indexes, remove_at, choose_fragments}
use c_ur.Fountain.Choose.Chosen.{choose_fragments-IsSorted}
use c_ur.Fountain.Encoder.{Encoder, part_of, part_chosen, fountain_encoder_next_part}
use c_ur.Fountain.Encoder.Parts.{IsEncoderOf, NamesFragments, fountain_encoder_next_part-IsPartOf}
use c_ur.Fountain.Parts.{no_indexes}
use c_ur.Fountain.Mixed.{MixedHash}
use c_ur.Fountain.Mixed.Sound.{AllEntries, IsQueue, reduce_mixed_by-IsSound}

abbrev serves_all : ℕ → Bool
serves_all n = true

-- Each draw takes the first index that is left.
abbrev pub draws_first : PrngState → ℕ → PrngState × ℕ
draws_first rng k = (rng, 0)

abbrev pub two_degrees : PrngState → ℕ → ℕ → PrngState × ℕ
two_degrees rng seq_len sampler = (rng, 2)

abbrev pub reads_zero : List ℕ → ℕ → ℕ
reads_zero remaining i = 0

abbrev pub no_hash : List ℕ → List ℕ
no_hash bytes = replicate 32 0

abbrev pub machine : Machine
machine = record {
  array_alloc = serves_all;
  alloc = serves_all;
  part_size = 40;
  result_size = 32;
  table_size = 24;
  set_size = 24;
  decoder_size = 400;
  garbage = λ n. replicate n 0;
  sampler_ready = serves_all;
  choose = choose_fragments serves_all serves_all no_hash reads_zero draws_first two_degrees;
}

abbrev pub message : List ℕ
message = 1 ∷ 2 ∷ 3 ∷ []

abbrev pub part_1 : Part
part_1 = record {
  seq_num = 1;
  seq_len = 2;
  message_len = 3;
  checksum = crc32_calculate message;
  payload = 1 ∷ 2 ∷ [];
}

abbrev pub part_3 : Part
part_3 = record {
  seq_num = 3;
  seq_len = 2;
  message_len = 3;
  checksum = crc32_calculate message;
  payload = 2 ∷ 2 ∷ [];
}

part_1-IsPartOf : IsPartOf machine message 2 two_fragments part_1
unfolding choose_fragments draw_loop all_indexes remove_at part_indexes_add search store_at
    with_room insert_at safe_malloc
part_1-IsPartOf = record {
  seq_len_is = refl;
  message_len_is = refl;
  checksum_is = refl;
  combined = λ chosen e.
      subst
        (λ (c : PartIndexes).
          IsSound (fragment_at two_fragments 2) 2 (record { indexes = c; payload = 1 ∷ 2 ∷ [] }))
        (some-injective first_part.indexes chosen e) first_part-IsSound;
}

part_3-IsPartOf : IsPartOf machine message 2 two_fragments part_3
unfolding choose_fragments draw_loop all_indexes remove_at part_indexes_add search store_at
    with_room insert_at safe_malloc
part_3-IsPartOf = record {
  seq_len_is = refl;
  message_len_is = refl;
  checksum_is = refl;
  combined = λ chosen e.
      subst
        (λ (c : PartIndexes).
          IsSound (fragment_at two_fragments 2) 2 (record { indexes = c; payload = 2 ∷ 2 ∷ [] }))
        (some-injective both_parts.indexes chosen e) both_parts-IsSound;
}

joined : join_fragments (all_some two_fragments) 3 ≡ some message
unfolding join_fragments join_loop
joined = refl

-- The mixed part first, then the part that reduces it.
abbrev pub fed_twice : Decoder → Decoder
fed_twice d =
    (fountain_decoder_receive_part machine (fountain_decoder_receive_part machine d part_3).0
      part_1).0

abbrev pub start : Decoder
start =
    fresh_decoder
      (record { parts = replicate 8 no_part; front = 0; rear = 0; count = 0; capacity = 8 })

pub new_start : fountain_decoder_new machine ≡ some start
unfolding fountain_decoder_new queue_init safe_malloc
new_start = refl

pub fed_complete : fountain_decoder_is_complete (fed_twice start) ≡ true
unfolding choose_fragments draw_loop all_indexes remove_at safe_malloc crc32_nibble crc32_byte
    crc32_loop crc32_calculate search part_indexes_contains part_indexes_clear insert_at with_room
    store_at part_indexes_add part_indexes_append_sorted difference_loop part_indexes_difference
    subset_loop part_indexes_is_strict_subset same_indexes part_indexes_equal part_indexes_copy
    hash_loop hash_indexes hash_set_contains hash_set_init hash_set_insert hash_set_add word_of
    bytes_of word_loop byte_loop ur_xor ur_xor_inplace is_simple_part get_part_index copy_payload
    decoder_part_copy xor_payload reduce_part_by_part mix_loop mix_chosen mix_fragments queue_init
    queue_enqueue queue_dequeue queue_is_empty mixed_hash_init in_chain copied_entry new_entry
    put_entry mixed_hash_put reduced_entry place visit walk_chain walk_buckets reinsert
    reduce_mixed_by entries fountain_decoder_new fountain_decoder_is_complete
    fountain_decoder_is_success fountain_decoder_result_message fountain_decoder_take_result_message
    fountain_decoder_result_message_len clear_initialization has_key simple_room store_copy
    store_simple add_simple_part shift_in onto sort_loop copied_part copy_loop message_of outcome_of
    assemble try_assemble process_simple_part reduce_by_simple reduce_by_chain reduce_by_table
    add_mixed_part decoder_reduce_mixed_by keep_reduced process_copy process_mixed_part
    process_dequeued process_queue_item process_queue add_range sampler_for table_for initialized
    or_cleared initialize last_indexes receive_enqueued receive_chosen receive_initialized
    fountain_decoder_receive_part fountain_decoder_expected_part_count
    fountain_decoder_processed_parts_count fountain_decoder_received_parts_count
fed_complete = refl

Fed-fountain_decoder_result_message_example :
    (fountain_decoder_is_success (fed_twice start) ≡ true)
    × (fountain_decoder_result_message (fed_twice start) ≡ some message)
    × (fountain_decoder_result_message_len (fed_twice start) ≡ 3)
Fed-fountain_decoder_result_message_example =
    Fed-fountain_decoder_result_message machine message 2 two_fragments two_buffers (omega arith)
      joined refl (λ c. refl) (omega arith) (fed_twice start)
      (given (given (created new_start) part_3-IsPartOf) part_1-IsPartOf) fed_complete

queue_rounds-Settled_example :
    Settled
      (process_queue machine (queue_rounds (fresh_decoder small_ring)) (fresh_decoder small_ring))
    × IsRing
        (process_queue machine
          (queue_rounds (fresh_decoder small_ring))
          (fresh_decoder small_ring)).queue
queue_rounds-Settled_example =
    queue_rounds-Settled machine (fresh_decoder small_ring) small_ring-IsRing

abbrev encoder : Encoder
encoder = record {
  message_len = 3;
  checksum = crc32_calculate message;
  fragment_len = 2;
  fragments = two_fragments;
  seq_num = 2;
  last_part_indexes = no_indexes;
  degree_sampler = 2;
}

third-NamesFragments : NamesFragments machine 2 (crc32_calculate message) 3
unfolding choose_fragments draw_loop all_indexes remove_at part_indexes_add search store_at
    with_room insert_at safe_malloc
third-NamesFragments chosen e =
    subst (λ (c : PartIndexes). IsSorted c.indexes × All (λ i. i < 2) c.indexes)
      (some-injective both_parts.indexes chosen e)
      (((omega arith, tt), (tt, tt)), (omega arith, (omega arith, tt)))

encoder-IsEncoderOf : IsEncoderOf message 2 two_fragments encoder
encoder-IsEncoderOf = record {
  message_len_is = refl;
  checksum_is = refl;
  fragment_len_is = refl;
  fragments_are = refl;
  sampler_is = refl;
}

third_part : (fountain_encoder_next_part machine encoder).1 ≡ some part_3
unfolding choose_fragments draw_loop all_indexes remove_at part_indexes_add search store_at
    with_room insert_at fountain_encoder_next_part part_chosen part_of mix_fragments mix_chosen
    mix_loop safe_malloc ur_xor_inplace ur_xor word_loop byte_loop word_of bytes_of crc32_calculate
    crc32_loop crc32_byte
third_part = refl

fountain_encoder_next_part-IsPartOf_example : IsPartOf machine message 2 two_fragments part_3
fountain_encoder_next_part-IsPartOf_example =
    fountain_encoder_next_part-IsPartOf machine message 2 two_fragments two_buffers encoder part_3
      encoder-IsEncoderOf third-NamesFragments third_part

three_chosen :
    choose_fragments serves_all serves_all no_hash reads_zero draws_first two_degrees 9 3 0 3
    ≡ some (record { indexes = 0 ∷ 1 ∷ []; capacity = 4 })
unfolding choose_fragments draw_loop all_indexes remove_at part_indexes_add search store_at
    with_room insert_at safe_malloc
three_chosen = refl

choose_fragments-IsSorted_example : IsSorted (0 ∷ 1 ∷ []) × All (λ k. k < 3) (0 ∷ 1 ∷ [])
choose_fragments-IsSorted_example =
    choose_fragments-IsSorted serves_all serves_all no_hash reads_zero draws_first two_degrees 9 3 0
      3 (record { indexes = 0 ∷ 1 ∷ []; capacity = 4 }) (omega arith) (omega arith)
      (λ later. inr (omega arith, inr (omega arith, tt))) three_chosen

-- A table with the mixed part, which the first fragment reduces.
abbrev table : MixedHash
table = record {
  buckets =
      (record {
        key = both_parts.indexes;
        value = both_parts;
        key_hash = hash_indexes both_parts.indexes;
      }
        ∷ [])
      ∷ [];
  count = 1;
  capacity = 1;
}

reduce_mixed_by-IsSound_example :
    AllEntries
      (fragment_at two_fragments 2)
      2
      (reduce_mixed_by serves_all no_indexes first_part table small_ring).0.buckets
    × IsQueue
        (fragment_at two_fragments 2)
        2
        (reduce_mixed_by serves_all no_indexes first_part table small_ring).1
reduce_mixed_by-IsSound_example =
    reduce_mixed_by-IsSound (fragment_at two_fragments 2) 2
      (λ i. fragment_at-IsBuffer two_fragments 2 i two_buffers) serves_all (λ c. refl) no_indexes
      first_part table small_ring first_part-IsSound
      ((record { value_sound = both_parts-IsSound; key_same = refl }, tt), tt)
      (record { ring = small_ring-IsRing; parts_sound = (first_part-IsSound, tt) })
