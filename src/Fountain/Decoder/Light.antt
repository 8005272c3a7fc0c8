-- ===== src/Fountain/Decoder/Light.antt =====
-- What is left to do in the queue and the table of src/fountain_decoder.c, and how one pass of the
-- loop over the queue changes it.
use c_ur.Base.{
  ℕ, suc, ◌+◌, ◌*◌, ◌≤◌, ◌≡◌, ◌⊎◌, inl, inr, refl, ap, sym, arith, true, false, Bool-cases, Option,
  none, some,
}
use mathlib.Core.Path.{subst}
use c_ur.Fountain.Indexes.{PartIndexes, part_indexes_contains, part_indexes_add, part_indexes_equal}
use c_ur.Fountain.Parts.{DecoderPart, is_simple_part, get_part_index, decoder_part_copy}
use c_ur.Fountain.Queue.{PartQueue, queue_enqueue}
use c_ur.Fountain.Queue.Fifo.{IsRing}
use c_ur.Fountain.Mixed.{MixedHash, mixed_hash_put, reduce_mixed_by}
use c_ur.Fountain.Mixed.Measure.{
  item_weight, queue_weight, entries, queue_enqueue-IsWithin, reduce_mixed_by-shrinks,
  mixed_hash_put-entries,
}
use c_ur.Fountain.Decoder.State.{Machine, Decoder}
use c_ur.Fountain.Decoder.Assembly.{assemble, try_assemble, process_simple_part, add_simple_part}
use c_ur.Fountain.Decoder.Process.{
  add_mixed_part, with_table, decoder_reduce_mixed_by, keep_reduced, process_copy,
  process_mixed_part, process_dequeued,
}
use c_ur.Fountain.Decoder.Receive.{table_entries}

abbrev pub weight : Decoder → ℕ
weight d = queue_weight d.queue + 2 * table_entries d.mixed_parts_hash

-- A ring that weighs no more than this, the table included.
pub record IsLight (d : Decoder) (limit : ℕ) : Type 0 where
  pub ring : IsRing d.queue
  pub light : weight d ≤ limit

-- The queue and the table are as they were.
abbrev pub SameWork : Decoder → Decoder → Type 0
SameWork d d' = (d'.queue ≡ d.queue) × (d'.mixed_parts_hash ≡ d.mixed_parts_hash)

module _ (m : Machine) where
  assemble-SameWork : (d : Decoder) → SameWork d (assemble m d)
  unfolding assemble
  assemble-SameWork d = (ground arith, ground arith)

  try_assemble-SameWork :
      (expected : Option PartIndexes) (d : Decoder) → SameWork d (try_assemble m expected d)
  unfolding try_assemble
  try_assemble-SameWork none d = (refl, refl)
  try_assemble-SameWork (some expected) d =
      elim (Bool-cases (part_indexes_equal d.received_part_indexes expected)) [
        | inl h ↦ (ground (arith, (assemble-SameWork d).0), ground (arith, (assemble-SameWork d).1))
        | inr h ↦ (ground arith, ground arith)
      ]

  -- What a new simple part makes of the decoder before the message is looked at.
  abbrev pub added_to : Decoder → DecoderPart → Decoder
  added_to d part = record d {
    simple_parts = (add_simple_part m d.simple_parts part).0;
    received_part_indexes =
        (part_indexes_add m.array_alloc d.received_part_indexes (get_part_index part)).0;
  }

  pub simple_cases :
      (d : Decoder) (part : DecoderPart)
      → (process_simple_part m d part ≡ d)
        ⊎ ((((add_simple_part m d.simple_parts part).1 ≡ false)
              × (process_simple_part m d part
                  ≡ record d { simple_parts = (add_simple_part m d.simple_parts part).0 }))
            ⊎ ((((part_indexes_add m.array_alloc d.received_part_indexes (get_part_index part)).1
                    ≡ false)
                  × (process_simple_part m d part ≡ added_to d part))
                ⊎ ((is_simple_part part ≡ true)
                    × (part_indexes_contains d.received_part_indexes (get_part_index part) ≡ false)
                    × ((add_simple_part m d.simple_parts part).1 ≡ true)
                    × (process_simple_part m d part
                        ≡ try_assemble m d.expected_part_indexes (added_to d part)))))
  unfolding process_simple_part
  simple_cases d part = ground arith

  process_simple_part-SameWork :
      (d : Decoder) (part : DecoderPart) → SameWork d (process_simple_part m d part)
  process_simple_part-SameWork d part = elim (simple_cases d part) [
    | inl e ↦ subst (SameWork d) (sym e) (refl, refl)
    | inr (inl (failed, e)) ↦ subst (SameWork d) (sym e) (refl, refl)
    | inr (inr (inl (failed, e))) ↦ subst (SameWork d) (sym e) (refl, refl)
    | inr (inr (inr (simple, new, added, e))) ↦
        subst (SameWork d) (sym e) (try_assemble-SameWork d.expected_part_indexes _)
  ]

  decoder_reduce-IsLight :
      (table : Option MixedHash) (d : Decoder) (part : DecoderPart)
      → d.mixed_parts_hash ≡ table
      → IsRing d.queue
      → IsLight (decoder_reduce_mixed_by m table d part) (weight d)
  unfolding decoder_reduce_mixed_by
  decoder_reduce-IsLight none d part e h = record { ring = h; light = omega arith }
  decoder_reduce-IsLight (some hash) d part e h =
      let shrunk =
        reduce_mixed_by-shrinks m.array_alloc d.received_part_indexes part hash d.queue h in
      record { ring = shrunk.0; light = omega (arith, shrunk.1, ap table_entries e) }

  pub add_mixed_cases :
      (hash : MixedHash) (part : DecoderPart)
      → (add_mixed_part m hash part ≡ (hash, false))
        ⊎ (add_mixed_part m hash part ≡ mixed_hash_put m.array_alloc m.alloc hash part.indexes part)
  unfolding add_mixed_part
  add_mixed_cases hash part = ground arith

  add_mixed_part-entries :
      (hash : MixedHash) (part : DecoderPart)
      → entries (add_mixed_part m hash part).0.buckets ≤ entries hash.buckets + 1
  unfolding add_mixed_part
  add_mixed_part-entries hash part =
      ground (arith, mixed_hash_put-entries m.array_alloc m.alloc hash part.indexes part)

  pub keep_cases :
      (hash : MixedHash) (d : Decoder) (reduced : DecoderPart)
      → ((is_simple_part reduced ≡ true)
          × (keep_reduced m hash d reduced
              ≡ record d { queue = (queue_enqueue d.queue reduced).0 }))
        ⊎ (keep_reduced m hash d reduced
            ≡ with_table m d (
              (add_mixed_part m
                  (reduce_mixed_by m.array_alloc d.received_part_indexes reduced hash d.queue).0
                  reduced).0,
              (reduce_mixed_by m.array_alloc d.received_part_indexes reduced hash d.queue).1,
            ))
  unfolding keep_reduced
  keep_cases hash d reduced = ground arith

  keep_reduced-IsLight :
      (hash : MixedHash) (d : Decoder) (reduced : DecoderPart)
      → d.mixed_parts_hash ≡ some hash
      → IsRing d.queue
      → IsLight (keep_reduced m hash d reduced) (weight d + 2)
  keep_reduced-IsLight hash d reduced e h =
      let P : Decoder → Type 0 = λ d'. IsLight d' (weight d + 2) in
      let w = queue_enqueue-IsWithin d.queue reduced h in
      let shrunk =
        reduce_mixed_by-shrinks m.array_alloc d.received_part_indexes reduced hash d.queue h in
      elim (keep_cases hash d reduced) [
        | inl (simple, f) ↦
            subst P (sym f) (record { ring = w.ring; light = ground (arith, w.light, simple) })
        | inr f ↦ subst P (sym f) (record {
          ring = shrunk.0;
          light = omega (
            arith,
            shrunk.1,
            ap table_entries e,
            add_mixed_part-entries
                (reduce_mixed_by m.array_alloc d.received_part_indexes reduced hash d.queue).0
                reduced,
          );
        })
      ]

  process_copy-IsLight :
      (hash : MixedHash) (d : Decoder) (copy : Option DecoderPart)
      → d.mixed_parts_hash ≡ some hash
      → IsRing d.queue
      → IsLight (process_copy m hash d copy) (weight d + 2)
  unfolding process_copy
  process_copy-IsLight hash d none e h = record { ring = h; light = omega arith }
  process_copy-IsLight hash d (some copy) e h = keep_reduced-IsLight hash d _ e h

  pub mixed_cases :
      (hash : MixedHash) (d : Decoder) (part : DecoderPart)
      → (process_mixed_part m (some hash) d part ≡ d)
        ⊎ (process_mixed_part m (some hash) d part
            ≡ process_copy m hash d (decoder_part_copy m.array_alloc m.alloc part))
  unfolding process_mixed_part
  mixed_cases hash d part = ground arith

  process_mixed_part-IsLight :
      (table : Option MixedHash) (d : Decoder) (part : DecoderPart)
      → d.mixed_parts_hash ≡ table
      → IsRing d.queue
      → IsLight (process_mixed_part m table d part) (weight d + 2)
  unfolding process_mixed_part
  process_mixed_part-IsLight none d part e h = record { ring = h; light = omega arith }
  process_mixed_part-IsLight (some hash) d part e h =
      let P : Decoder → Type 0 = λ d'. IsLight d' (weight d + 2) in
      elim (mixed_cases hash d part) [
        | inl f ↦ subst P (sym f) (record { ring = h; light = omega arith })
        | inr f ↦ subst P (sym f) (process_copy-IsLight hash d _ e h)
      ]

  pub dequeued_cases :
      (d : Decoder) (part : DecoderPart) (queue : PartQueue)
      → ((is_simple_part part ≡ true)
          × (process_dequeued m d (some (part, queue))
              ≡ decoder_reduce_mixed_by m
                  (process_simple_part m (record d { queue = queue }) part).mixed_parts_hash
                  (process_simple_part m (record d { queue = queue }) part)
                  part))
        ⊎ ((is_simple_part part ≡ false)
            × (process_dequeued m d (some (part, queue))
                ≡ process_mixed_part m d.mixed_parts_hash (record d { queue = queue }) part))
  unfolding process_dequeued
  dequeued_cases d part queue = ground arith

  pub process_dequeued-IsLight :
      (d : Decoder) (part : DecoderPart) (queue : PartQueue) (limit : ℕ)
      → IsRing queue
      → item_weight part + queue_weight queue + 2 * table_entries d.mixed_parts_hash ≤ suc limit
      → IsLight (process_dequeued m d (some (part, queue))) limit
  process_dequeued-IsLight d part queue limit h le =
      let rest : Decoder = record d { queue = queue } in
      let done = process_simple_part m rest part in
      let same = process_simple_part-SameWork rest part in
      let P : Decoder → Type 0 = λ d'. IsLight d' limit in
      elim (dequeued_cases d part queue) [
        | inl (simple, e) ↦
            let l =
              decoder_reduce-IsLight done.mixed_parts_hash done part refl
                (subst IsRing (sym same.0) h) in
            subst P (sym e) (record {
              ring = l.ring;
              light =
                  ground
                    (arith, l.light, simple, le, ap queue_weight same.0, ap table_entries same.1);
            })
        | inr (mixed, e) ↦
            let l = process_mixed_part-IsLight d.mixed_parts_hash rest part refl h in
            subst P (sym e) (record { ring = l.ring; light = ground (arith, l.light, mixed, le) })
      ]
