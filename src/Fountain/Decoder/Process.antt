-- ===== src/Fountain/Decoder/Process.antt =====
-- The queue of the fountain decoder worked off: process_mixed_part and process_queue_item of
-- src/fountain_decoder.c, and the loop that calls it.
use c_ur.Base.{
  ℕ, zero, suc, Bool, false, List, [], ◌∷◌, leb, ◌||◌, if◌then◌else◌, Option, none, some,
}
use c_ur.Fountain.Parts.{DecoderPart, is_simple_part, decoder_part_copy, reduce_part_by_part}
use c_ur.Fountain.Queue.{PartQueue, queue_enqueue, queue_dequeue, queue_is_empty}
use c_ur.Fountain.Mixed.{HashEntry, MixedHash, mixed_hash_put, reduce_mixed_by}
use c_ur.Fountain.Decoder.State.{Machine, SimplePart, Decoder, fountain_decoder_is_complete}
use c_ur.Fountain.Decoder.Assembly.{process_simple_part}

-- MAX_MIXED_PARTS
abbrev pub max_mixed_parts : ℕ
max_mixed_parts = 256

module _ (m : Machine) where
  -- `if (reduce_part_by_part(...))`: the reduced part, or the part as it was.
  abbrev pub reduced_or : DecoderPart → Option DecoderPart → DecoderPart
  reduced_or part none = part
  reduced_or part (some reduced) = reduced

  abbrev pub reduced_by : DecoderPart → DecoderPart → DecoderPart
  reduced_by part by = reduced_or part (reduce_part_by_part m.array_alloc m.alloc part by)

  -- The loop over the simple parts.
  unfoldable pub reduce_by_simple : List SimplePart → DecoderPart → DecoderPart
  reduce_by_simple [] part = part
  reduce_by_simple (p ∷ ps) part = reduce_by_simple ps (reduced_by part p.value)

  -- The loops over the buckets and their chains.
  unfoldable pub reduce_by_chain : List HashEntry → DecoderPart → DecoderPart
  reduce_by_chain [] part = part
  reduce_by_chain (entry ∷ chain) part = reduce_by_chain chain (reduced_by part entry.value)

  unfoldable pub reduce_by_table : List (List HashEntry) → DecoderPart → DecoderPart
  reduce_by_table [] part = part
  reduce_by_table (chain ∷ chains) part = reduce_by_table chains (reduce_by_chain chain part)

  unfoldable pub add_mixed_part : MixedHash → DecoderPart → MixedHash × Bool
  add_mixed_part hash part =
      if is_simple_part part
      then (hash, false)
      else if leb max_mixed_parts hash.count
      then (hash, false)
      else mixed_hash_put m.array_alloc m.alloc hash part.indexes part

  abbrev pub with_table : Decoder → MixedHash × PartQueue → Decoder
  with_table d (hash, queue) = record d { mixed_parts_hash = some hash; queue = queue }

  -- reduce_mixed_by on the decoder; nothing is done before there is a table.
  unfoldable pub decoder_reduce_mixed_by : Option MixedHash → Decoder → DecoderPart → Decoder
  decoder_reduce_mixed_by none d part = d
  decoder_reduce_mixed_by (some hash) d part =
      with_table d (reduce_mixed_by m.array_alloc d.received_part_indexes part hash d.queue)

  -- The end of process_mixed_part.
  unfoldable pub keep_reduced : MixedHash → Decoder → DecoderPart → Decoder
  keep_reduced hash d reduced =
      let after = reduce_mixed_by m.array_alloc d.received_part_indexes reduced hash d.queue in
      if is_simple_part reduced
      then record d { queue = (queue_enqueue d.queue reduced).0 }
      else with_table d ((add_mixed_part after.0 reduced).0, after.1)

  unfoldable pub process_copy : MixedHash → Decoder → Option DecoderPart → Decoder
  process_copy hash d none = d
  process_copy hash d (some copy) =
      keep_reduced hash d
        (reduce_by_table hash.buckets (reduce_by_simple d.simple_parts.stored copy))

  unfoldable pub process_mixed_part : Option MixedHash → Decoder → DecoderPart → Decoder
  process_mixed_part none d part = d
  process_mixed_part (some hash) d part =
      if is_simple_part part
      then d
      else process_copy hash d (decoder_part_copy m.array_alloc m.alloc part)

  unfoldable pub process_dequeued : Decoder → Option (DecoderPart × PartQueue) → Decoder
  process_dequeued d none = d
  process_dequeued d (some (part, queue)) =
      let rest : Decoder = record d { queue = queue } in
      let simple = process_simple_part m rest part in
      if is_simple_part part
      then decoder_reduce_mixed_by simple.mixed_parts_hash simple part
      else process_mixed_part rest.mixed_parts_hash rest part

  unfoldable pub process_queue_item : Decoder → Decoder
  process_queue_item d = process_dequeued d (queue_dequeue d.queue)

  -- The loop over the queue, with `rounds` passes left.
  unfoldable pub process_queue : ℕ → Decoder → Decoder
  process_queue zero d = d
  process_queue (suc rounds) d =
      let rest = process_queue rounds (process_queue_item d) in
      if fountain_decoder_is_complete d || queue_is_empty d.queue then d else rest
