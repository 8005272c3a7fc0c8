-- ===== src/Fountain/Queue.antt =====
-- part_queue_t of src/fountain_decoder.c: parts in a ring of slots.
pub mod Fifo
use c_ur.Base.{
  ℕ, ◌+◌, ◌-◌, ◌*◌, ◌%◌, Bool, true, false, List, [], ◌∷◌, length, get_or, set, replicate, leb,
  ◌==◌, if◌then◌else◌, Option, none, some,
}
use c_ur.ByteBuffer.{safe_malloc}
use c_ur.Fountain.Parts.{DecoderPart, no_indexes}

pub record PartQueue : Type 0 where
  pub parts : List DecoderPart
  pub front : ℕ
  pub rear : ℕ
  pub count : ℕ
  pub capacity : ℕ

-- (decoder_part_t){0}
abbrev pub no_part : DecoderPart
no_part = record { indexes = no_indexes; payload = [] }

-- QUEUE_INITIAL_CAPACITY
abbrev pub queue_initial_capacity : ℕ
queue_initial_capacity = 8

-- A block of zeros from the allocator; `part_size` is sizeof(decoder_part_t).
unfoldable pub queue_init : (ℕ → Bool) → ℕ → ℕ → Option PartQueue
queue_init alloc part_size capacity =
    if capacity == 0
    then none
    else if safe_malloc alloc (capacity * part_size)
    then some (record {
      parts = replicate capacity no_part;
      front = 0;
      rear = 0;
      count = 0;
      capacity = capacity;
    })
    else none

-- decoder_part_move takes the part from its owner: on a success it is the queue's.
unfoldable pub queue_enqueue : PartQueue → DecoderPart → PartQueue × Bool
queue_enqueue q part = if leb q.capacity q.count then (q, false) else (
  record q {
    parts = set q.parts q.rear part;
    rear = (q.rear + 1) % q.capacity;
    count = q.count + 1;
  },
  true,
)

unfoldable pub queue_dequeue : PartQueue → Option (DecoderPart × PartQueue)
queue_dequeue q =
    if q.count == 0
    then none
    else some (
      get_or q.parts q.front no_part,
      record q {
        parts = set q.parts q.front no_part;
        front = (q.front + 1) % q.capacity;
        count = q.count - 1;
      },
    )

unfoldable pub queue_is_empty : PartQueue → Bool
queue_is_empty q = q.count == 0
