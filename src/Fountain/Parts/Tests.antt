-- ===== src/Fountain/Parts/Tests.antt =====
-- Parts, mixing and the queue at concrete inputs.
use c_ur.Base.{ℕ, ◌≡◌, ◌⊎◌, refl, arith, Bool, true, List, [], ◌∷◌, All, none, some}
use c_ur.ByteBuffer.{safe_malloc}
use c_ur.Fountain.Indexes.{
  part_indexes_is_strict_subset, subset_loop, part_indexes_difference, difference_loop,
  part_indexes_append_sorted, with_room, store_at, insert_at, part_indexes_clear,
}
use c_ur.Fountain.Xor.{word_of, bytes_of, word_loop, byte_loop, ur_xor}
use c_ur.Fountain.Xor.Words.{xor_bytes, ur_xor-xor_bytes}
use c_ur.Fountain.Xor.Algebra.{IsBuffer}
use c_ur.Fountain.Parts.{DecoderPart, xor_payload, reduce_part_by_part, mix_fragments}
use c_ur.Fountain.Parts.Combined.{xor_all, IsSound}
use c_ur.Fountain.Parts.Reduction.{reduce_part_by_part-IsSound}
use c_ur.Fountain.Parts.Mixing.{fragment_at, fragment_at-IsBuffer, mix_fragments-xor_all}
use c_ur.Fountain.Queue.{PartQueue, no_part, queue_enqueue, queue_dequeue}
use c_ur.Fountain.Queue.Fifo.{
  IsRing, contents, Enqueued, queue_enqueue-IsRing, queue_dequeue-IsRing,
}

abbrev serves_all : ℕ → Bool
serves_all n = true

abbrev pub two_fragments : List (List ℕ)
two_fragments = (1 ∷ 2 ∷ []) ∷ (3 ∷ 0 ∷ []) ∷ []

pub two_buffers : All (IsBuffer 2) two_fragments
two_buffers = (
  record { has_length = refl; are_bytes = (omega arith, (omega arith, tt)) },
  (record { has_length = refl; are_bytes = (omega arith, (omega arith, tt)) }, tt),
)

-- The first fragment, and both combined.
abbrev pub first_part : DecoderPart
first_part = record { indexes = record { indexes = 0 ∷ []; capacity = 4 }; payload = 1 ∷ 2 ∷ [] }

abbrev pub both_parts : DecoderPart
both_parts = record {
  indexes = record { indexes = 0 ∷ 1 ∷ []; capacity = 4 };
  payload = 2 ∷ 2 ∷ [];
}

abbrev pub second_part : DecoderPart
second_part = record { indexes = record { indexes = 1 ∷ []; capacity = 4 }; payload = 3 ∷ 0 ∷ [] }

pub first_part-IsSound : IsSound (fragment_at two_fragments 2) 2 first_part
unfolding xor_all xor_bytes
first_part-IsSound = record { sorted = (tt, tt); combined = refl }

pub both_parts-IsSound : IsSound (fragment_at two_fragments 2) 2 both_parts
unfolding xor_all xor_bytes
both_parts-IsSound = record { sorted = ((omega arith, tt), (tt, tt)); combined = refl }

reduce_both : reduce_part_by_part serves_all serves_all both_parts first_part ≡ some second_part
unfolding reduce_part_by_part part_indexes_is_strict_subset subset_loop part_indexes_difference
    difference_loop part_indexes_append_sorted with_room store_at insert_at part_indexes_clear
    xor_payload safe_malloc ur_xor word_loop byte_loop word_of bytes_of
reduce_both = refl

reduce_part_by_part-IsSound_example : IsSound (fragment_at two_fragments 2) 2 second_part
reduce_part_by_part-IsSound_example =
    reduce_part_by_part-IsSound (fragment_at two_fragments 2) 2
      (λ i. fragment_at-IsBuffer two_fragments 2 i two_buffers) serves_all serves_all both_parts
      first_part second_part both_parts-IsSound first_part-IsSound reduce_both

served_two : safe_malloc serves_all 2 ≡ true
unfolding safe_malloc
served_two = refl

mix_fragments-xor_all_example :
    mix_fragments serves_all two_fragments 2 (record { indexes = 0 ∷ 1 ∷ []; capacity = 4 })
    ≡ some (xor_all (fragment_at two_fragments 2) 2 (0 ∷ 1 ∷ []))
mix_fragments-xor_all_example =
    mix_fragments-xor_all two_fragments 2 two_buffers serves_all
      (record { indexes = 0 ∷ 1 ∷ []; capacity = 4 }) served_two (omega arith, (omega arith, tt))

ur_xor-xor_bytes_example :
    ur_xor (1 ∷ 2 ∷ 3 ∷ 4 ∷ 5 ∷ 6 ∷ 7 ∷ 8 ∷ 9 ∷ []) (9 ∷ 8 ∷ 7 ∷ 6 ∷ 5 ∷ 4 ∷ 3 ∷ 2 ∷ 1 ∷ []) 9
    ≡ xor_bytes (1 ∷ 2 ∷ 3 ∷ 4 ∷ 5 ∷ 6 ∷ 7 ∷ 8 ∷ 9 ∷ []) (9 ∷ 8 ∷ 7 ∷ 6 ∷ 5 ∷ 4 ∷ 3 ∷ 2 ∷ 1 ∷ [])
ur_xor-xor_bytes_example =
    ur_xor-xor_bytes (1 ∷ 2 ∷ 3 ∷ 4 ∷ 5 ∷ 6 ∷ 7 ∷ 8 ∷ 9 ∷ [])
      (9 ∷ 8 ∷ 7 ∷ 6 ∷ 5 ∷ 4 ∷ 3 ∷ 2 ∷ 1 ∷ []) 9 refl refl
      (
        omega arith,
        (
          omega arith,
          (
            omega arith,
            (
              omega arith,
              (omega arith, (omega arith, (omega arith, (omega arith, (omega arith, tt))))),
            ),
          ),
        ),
      )
      (
        omega arith,
        (
          omega arith,
          (
            omega arith,
            (
              omega arith,
              (omega arith, (omega arith, (omega arith, (omega arith, (omega arith, tt))))),
            ),
          ),
        ),
      )

-- A ring of two slots whose one part stands in the last.
abbrev pub small_ring : PartQueue
small_ring = record {
  parts = no_part ∷ first_part ∷ [];
  front = 1;
  rear = 0;
  count = 1;
  capacity = 2;
}

pub small_ring-IsRing : IsRing small_ring
small_ring-IsRing = record {
  roomy = omega arith;
  front_in = omega arith;
  not_over = omega arith;
  rear_behind = refl;
}

queue_enqueue-IsRing_example : Enqueued small_ring both_parts (queue_enqueue small_ring both_parts)
queue_enqueue-IsRing_example = queue_enqueue-IsRing small_ring both_parts small_ring-IsRing

queue_dequeue-IsRing_example :
    ((contents small_ring ≡ []) × (queue_dequeue small_ring ≡ none))
    ⊎ ((part : DecoderPart) × (q' : PartQueue) × (queue_dequeue small_ring ≡ some (part, q'))
        × (contents small_ring ≡ part ∷ contents q')
        × IsRing q')
queue_dequeue-IsRing_example = queue_dequeue-IsRing small_ring small_ring-IsRing
