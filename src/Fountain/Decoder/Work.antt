-- ===== src/Fountain/Decoder/Work.antt =====
-- The queue of src/fountain_decoder.c worked off when it holds parts of one message.
use c_ur.Base.{
  ℕ, zero, suc, ◌<◌, ◌≡◌, inl, inr, refl, sym, Bool, true, List, [], ◌∷◌, length, All, Option, none,
  some,
}
use mathlib.Core.Path.{subst}
use c_ur.Fountain.Fragments.{join_fragments}
use c_ur.Fountain.Fragments.Joined.{all_some}
use c_ur.Fountain.Xor.Algebra.{IsBuffer}
use c_ur.Fountain.Parts.{DecoderPart, decoder_part_copy, reduce_part_by_part}
use c_ur.Fountain.Parts.Combined.{IsSound}
use c_ur.Fountain.Parts.Reduction.{IsSound-same, decoder_part_copy-eq, reduce_part_by_part-IsSound}
use c_ur.Fountain.Parts.Mixing.{fragment_at, fragment_at-IsBuffer}
use c_ur.Fountain.Queue.{PartQueue}
use c_ur.Fountain.Queue.Fifo.{queue_dequeue-IsRing}
use c_ur.Fountain.Mixed.{HashEntry, MixedHash}
use c_ur.Fountain.Mixed.Sound.{
  IsEntry, IsQueue, AllEntries, queue_enqueue-IsQueue, reduce_mixed_by-IsSound,
  mixed_hash_put-AllEntries,
}
use c_ur.Fountain.Decoder.State.{Machine, SimplePart, Decoder}
use c_ur.Fountain.Decoder.Assembly.{process_simple_part}
use c_ur.Fountain.Decoder.Process.{
  reduced_or, reduced_by, reduce_by_simple, reduce_by_chain, reduce_by_table, add_mixed_part,
  decoder_reduce_mixed_by, keep_reduced, process_copy, process_mixed_part, process_dequeued,
  process_queue_item, process_queue,
}
use c_ur.Fountain.Decoder.Light.{dequeued_cases, keep_cases, mixed_cases, add_mixed_cases}
use c_ur.Fountain.Decoder.Termination.{queue_step}
use c_ur.Fountain.Decoder.Joined.{IsStored}
use c_ur.Fountain.Decoder.Correct.{TableSound, IsDecoding, process_simple_part-IsDecoding}

module _ (m : Machine) (frag : ℕ → List ℕ) (len : ℕ)
    (buffers : (i : ℕ) → IsBuffer len (frag i)) where
  reduced_or-IsSound :
      (part : DecoderPart) (r : Option DecoderPart)
      → IsSound frag len part
      → ((q : DecoderPart) → r ≡ some q → IsSound frag len q)
      → IsSound frag len (reduced_or m part r)
  reduced_or-IsSound part none s h = s
  reduced_or-IsSound part (some q) s h = h q refl

  reduced_by-IsSound :
      (part by : DecoderPart)
      → IsSound frag len part
      → IsSound frag len by
      → IsSound frag len (reduced_by m part by)
  reduced_by-IsSound part by s t =
      reduced_or-IsSound part (reduce_part_by_part m.array_alloc m.alloc part by) s
        (λ q e. reduce_part_by_part-IsSound frag len buffers m.array_alloc m.alloc part by q s t e)

  reduce_by_simple-IsSound :
      (ps : List SimplePart) (part : DecoderPart)
      → All (IsStored frag len) ps
      → IsSound frag len part
      → IsSound frag len (reduce_by_simple m ps part)
  unfolding reduce_by_simple
  reduce_by_simple-IsSound [] part h s = s
  reduce_by_simple-IsSound (p ∷ ps) part h s =
      reduce_by_simple-IsSound ps (reduced_by m part p.value) h.1
        (reduced_by-IsSound part p.value s h.0.value_sound)

  reduce_by_chain-IsSound :
      (chain : List HashEntry) (part : DecoderPart)
      → All (IsEntry frag len) chain
      → IsSound frag len part
      → IsSound frag len (reduce_by_chain m chain part)
  unfolding reduce_by_chain
  reduce_by_chain-IsSound [] part h s = s
  reduce_by_chain-IsSound (entry ∷ chain) part h s =
      reduce_by_chain-IsSound chain (reduced_by m part entry.value) h.1
        (reduced_by-IsSound part entry.value s h.0.value_sound)

  reduce_by_table-IsSound :
      (chains : List (List HashEntry)) (part : DecoderPart)
      → AllEntries frag len chains
      → IsSound frag len part
      → IsSound frag len (reduce_by_table m chains part)
  unfolding reduce_by_table
  reduce_by_table-IsSound [] part h s = s
  reduce_by_table-IsSound (chain ∷ chains) part h s =
      reduce_by_table-IsSound chains (reduce_by_chain m chain part) h.1
        (reduce_by_chain-IsSound chain part h.0 s)

  add_mixed_part-AllEntries :
      (hash : MixedHash) (part : DecoderPart)
      → IsSound frag len part
      → AllEntries frag len hash.buckets
      → AllEntries frag len (add_mixed_part m hash part).0.buckets
  add_mixed_part-AllEntries hash part s h =
      let P : MixedHash × Bool → Type 0 = λ r. AllEntries frag len r.0.buckets in
      elim (add_mixed_cases m hash part) [
        | inl e ↦ subst P (sym e) h
        | inr e ↦ subst P (sym e) (
            mixed_hash_put-AllEntries frag len buffers m.array_alloc m.alloc hash part.indexes part
              refl s h)
      ]

module _ (m : Machine) (message : List ℕ) (len : ℕ) (frags : List (List ℕ))
    (buffers : All (IsBuffer len) frags) (nonempty : 0 < length message)
    (joined : join_fragments (all_some frags) (length message) ≡ some message)
    (size : length (m.garbage (length message)) ≡ length message)
    (served : (c : ℕ) → m.array_alloc c ≡ true) where
  all_buffers : (i : ℕ) → IsBuffer len (fragment_at frags len i)
  all_buffers i = fragment_at-IsBuffer frags len i buffers

  decoder_reduce-IsDecoding :
      (table : Option MixedHash) (d : Decoder) (part : DecoderPart)
      → d.mixed_parts_hash ≡ table
      → IsSound (fragment_at frags len) len part
      → IsDecoding message len frags d
      → IsDecoding message len frags (decoder_reduce_mixed_by m table d part)
  unfolding decoder_reduce_mixed_by
  decoder_reduce-IsDecoding none d part e s h = h
  decoder_reduce-IsDecoding (some hash) d part e s h =
      let after =
        reduce_mixed_by-IsSound (fragment_at frags len) len all_buffers m.array_alloc served
          d.received_part_indexes part hash d.queue s
          (subst (TableSound (fragment_at frags len) len) e h.table) h.work in
      record { kept = h.kept; table = after.0; work = after.1; known = h.known; right = h.right }

  keep_reduced-IsDecoding :
      (hash : MixedHash) (d : Decoder) (reduced : DecoderPart)
      → d.mixed_parts_hash ≡ some hash
      → IsSound (fragment_at frags len) len reduced
      → IsDecoding message len frags d
      → IsDecoding message len frags (keep_reduced m hash d reduced)
  keep_reduced-IsDecoding hash d reduced e s h =
      let P : Decoder → Type 0 = IsDecoding message len frags in
      let frag : ℕ → List ℕ = fragment_at frags len in
      let after =
        reduce_mixed_by-IsSound frag len all_buffers m.array_alloc served d.received_part_indexes
          reduced hash d.queue s (subst (TableSound frag len) e h.table) h.work in
      elim (keep_cases m hash d reduced) [
        | inl (simple, f) ↦ subst P (sym f) (record {
          kept = h.kept;
          table = h.table;
          work = queue_enqueue-IsQueue frag len d.queue reduced h.work s;
          known = h.known;
          right = h.right;
        })
        | inr f ↦ subst P (sym f) (record {
          kept = h.kept;
          table = add_mixed_part-AllEntries m frag len all_buffers _ reduced s after.0;
          work = after.1;
          known = h.known;
          right = h.right;
        })
      ]

  process_copy-IsDecoding :
      (hash : MixedHash) (d : Decoder) (part : DecoderPart) (copy : Option DecoderPart)
      → d.mixed_parts_hash ≡ some hash
      → decoder_part_copy m.array_alloc m.alloc part ≡ copy
      → IsSound (fragment_at frags len) len part
      → IsDecoding message len frags d
      → IsDecoding message len frags (process_copy m hash d copy)
  unfolding process_copy
  process_copy-IsDecoding hash d part none e f s h = h
  process_copy-IsDecoding hash d part (some copy) e f s h =
      let frag : ℕ → List ℕ = fragment_at frags len in
      let eq = decoder_part_copy-eq m.array_alloc m.alloc part copy f in
      keep_reduced-IsDecoding hash d _ e
        (reduce_by_table-IsSound m frag len all_buffers hash.buckets _
          (subst (TableSound frag len) e h.table)
          (reduce_by_simple-IsSound m frag len all_buffers d.simple_parts.stored copy
            h.kept.all_stored (IsSound-same frag len all_buffers part copy eq.0 eq.1 s)))
        h

  process_mixed_part-IsDecoding :
      (table : Option MixedHash) (d : Decoder) (part : DecoderPart)
      → d.mixed_parts_hash ≡ table
      → IsSound (fragment_at frags len) len part
      → IsDecoding message len frags d
      → IsDecoding message len frags (process_mixed_part m table d part)
  unfolding process_mixed_part
  process_mixed_part-IsDecoding none d part e s h = h
  process_mixed_part-IsDecoding (some hash) d part e s h =
      let P : Decoder → Type 0 = IsDecoding message len frags in
      elim (mixed_cases m hash d part) [
        | inl f ↦ subst P (sym f) h
        | inr f ↦ subst P (sym f) (process_copy-IsDecoding hash d part _ e refl s h)
      ]

  process_dequeued-IsDecoding :
      (d : Decoder) (part : DecoderPart) (queue : PartQueue)
      → IsSound (fragment_at frags len) len part
      → IsQueue (fragment_at frags len) len queue
      → IsDecoding message len frags d
      → IsDecoding message len frags (process_dequeued m d (some (part, queue)))
  process_dequeued-IsDecoding d part queue s q h =
      let P : Decoder → Type 0 = IsDecoding message len frags in
      let rest : Decoder = record d { queue = queue } in
      let start : P rest = record {
        kept = h.kept;
        table = h.table;
        work = q;
        known = h.known;
        right = h.right;
      } in
      elim (dequeued_cases m d part queue) [
        | inl (simple, e) ↦ subst P (sym e) (
            decoder_reduce-IsDecoding _ (process_simple_part m rest part) part refl s (
              process_simple_part-IsDecoding m message len frags buffers nonempty joined size rest
                part served s start))
        | inr (mixed, e) ↦
            subst P (sym e)
              (process_mixed_part-IsDecoding d.mixed_parts_hash rest part refl s start)
      ]

  process_queue_item-IsDecoding :
      (d : Decoder)
      → IsDecoding message len frags d
      → IsDecoding message len frags (process_queue_item m d)
  unfolding process_queue_item process_dequeued
  process_queue_item-IsDecoding d h =
      let P : Option (DecoderPart × PartQueue) → Type 0 =
        λ r. IsDecoding message len frags (process_dequeued m d r) in
      elim (queue_dequeue-IsRing d.queue h.work.ring) [
        | inl (empty, e) ↦ subst P (sym e) h
        | inr (part, queue, e, f, ring) ↦
            let sound = subst (All (IsSound (fragment_at frags len) len)) f h.work.parts_sound in
            subst P (sym e) (
              process_dequeued-IsDecoding d part queue sound.0
                (record { ring = ring; parts_sound = sound.1 }) h)
      ]

  -- If the decoder holds only fragments of the message and their combinations, and the allocator serves
  -- every array of indexes, it does so after any number of passes over the queue; a result, if one is
  -- made, is a success with the message.
  pub process_queue-IsDecoding :
      (rounds : ℕ) (d : Decoder)
      → IsDecoding message len frags d
      → IsDecoding message len frags (process_queue m rounds d)
  unfolding process_queue
  process_queue-IsDecoding zero d h = h
  process_queue-IsDecoding (suc rounds) d h = elim (queue_step m rounds d) [
    | inl (s, e) ↦ subst (IsDecoding message len frags) (sym e) h
    | inr (busy, e) ↦ subst (IsDecoding message len frags) (sym e) (
        process_queue-IsDecoding rounds (process_queue_item m d)
          (process_queue_item-IsDecoding d h))
  ]
