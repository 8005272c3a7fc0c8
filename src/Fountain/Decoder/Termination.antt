-- ===== src/Fountain/Decoder/Termination.antt =====
-- The loop over the queue in fountain_decoder_receive_part of src/fountain_decoder.c ends.
use c_ur.Base.{
  ℕ, zero, suc, ◌+◌, ◌*◌, ◌%◌, ◌≤◌, ◌≡◌, ◌⊎◌, inl, inr, ap, sym, arith, true, false, ◌||◌, List,
  Option,
}
use mathlib.Core.Path.{subst}
use c_ur.Fountain.Parts.{DecoderPart}
use c_ur.Fountain.Queue.{PartQueue, queue_is_empty}
use c_ur.Fountain.Queue.Fifo.{IsRing, held, queue_dequeue-IsRing}
use c_ur.Fountain.Mixed.Measure.{weigh}
use c_ur.Fountain.Decoder.State.{Machine, Decoder, fountain_decoder_is_complete}
use c_ur.Fountain.Decoder.Process.{process_dequeued, process_queue_item, process_queue}
use c_ur.Fountain.Decoder.Receive.{queue_rounds}
use c_ur.Fountain.Decoder.Light.{weight, IsLight, process_dequeued-IsLight}

weigh-held-bounds :
    (parts : List DecoderPart) (cap front n : ℕ)
    → (n ≤ weigh (held parts cap front n)) × (weigh (held parts cap front n) ≤ 3 * n)
unfolding weigh
weigh-held-bounds parts cap front zero = (omega arith, omega arith)
weigh-held-bounds parts cap front (suc n) =
    let rest = weigh-held-bounds parts cap ((front + 1) % cap) n in
    (ground (arith, rest.0), ground (arith, rest.1))

pub weight-queue_rounds : (d : Decoder) → weight d ≤ queue_rounds d
weight-queue_rounds d =
    omega (arith, (weigh-held-bounds d.queue.parts d.queue.capacity d.queue.front d.queue.count).1)

-- The decoder is complete, or has nothing left to do.
abbrev pub Settled : Decoder → Type 0
Settled d = (fountain_decoder_is_complete d || queue_is_empty d.queue) ≡ true

module _ (m : Machine) where
  empty-Settled : (d : Decoder) → d.queue.count ≡ 0 → Settled d
  unfolding queue_is_empty
  empty-Settled d e = ground arith

  item-IsLight :
      (d : Decoder) (limit : ℕ)
      → IsRing d.queue
      → weight d ≤ suc limit
      → queue_is_empty d.queue ≡ false
      → IsLight (process_queue_item m d) limit
  unfolding process_queue_item queue_is_empty weigh
  item-IsLight d limit h le busy = elim (queue_dequeue-IsRing d.queue h) [
    | inl (empty, e) ↦ absurd (
        ground (
          arith,
          (weigh-held-bounds d.queue.parts d.queue.capacity d.queue.front d.queue.count).0,
          ap weigh empty,
        ))
    | inr (part, queue, e, f, ring) ↦
        subst (λ (r : Option (DecoderPart × PartQueue)). IsLight (process_dequeued m d r) limit)
          (sym e) (process_dequeued-IsLight m d part queue limit ring (omega (arith, ap weigh f)))
  ]

  pub queue_step :
      (rounds : ℕ) (d : Decoder)
      → (Settled d × (process_queue m (suc rounds) d ≡ d))
        ⊎ ((queue_is_empty d.queue ≡ false)
            × (process_queue m (suc rounds) d ≡ process_queue m rounds (process_queue_item m d)))
  unfolding process_queue
  queue_step rounds d = ground arith

  -- On a ring of parts, with as many passes as the weight of the queue and the table says, the loop
  -- stops because the decoder is complete or the queue empty, and leaves a ring.
  pub process_queue-Settled :
      (rounds : ℕ) (d : Decoder)
      → IsRing d.queue
      → weight d ≤ rounds
      → Settled (process_queue m rounds d) × IsRing (process_queue m rounds d).queue
  unfolding process_queue
  process_queue-Settled zero d h le = (
    empty-Settled d (
        omega (
          arith,
          (weigh-held-bounds d.queue.parts d.queue.capacity d.queue.front d.queue.count).0,
        )),
    h,
  )
  process_queue-Settled (suc rounds) d h le =
      let P : Decoder → Type 0 = λ d'. Settled d' × IsRing d'.queue in
      elim (queue_step rounds d) [
        | inl (s, e) ↦ subst P (sym e) (s, h)
        | inr (busy, e) ↦
            let l = item-IsLight d rounds h le busy in
            subst P (sym e) (process_queue-Settled rounds (process_queue_item m d) l.ring l.light)
      ]

  -- On a ring of parts the loop over the queue ends: with queue_rounds passes, 3 for each part in the
  -- queue and 2 for each entry of the table, it stops because the decoder is complete or the queue
  -- empty, and leaves a ring.
  pub queue_rounds-Settled :
      (d : Decoder)
      → IsRing d.queue
      → Settled (process_queue m (queue_rounds d) d)
        × IsRing (process_queue m (queue_rounds d) d).queue
  queue_rounds-Settled d h = process_queue-Settled (queue_rounds d) d h (weight-queue_rounds d)
