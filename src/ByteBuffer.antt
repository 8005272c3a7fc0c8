-- ===== src/ByteBuffer.antt =====
-- The growing byte buffer of src/types/byte_buffer.c, with the allocators of src/utils.c.
pub mod Laws
mod Tests
use c_ur.Base.{ℕ, zero, suc, ◌+◌, ◌-◌, ◌*◌, ◌/◌, ◌%◌, ◌^◌, ◌≤◌, Bool, true, false}
use c_ur.Base.{List, [], ◌∷◌, ◌++◌, length, ltb, ◌==◌, if◌then◌else◌, Option, none, some}

-- `contents` is data[0 .. len); what lies between len and capacity is never read.
pub record ByteBuffer : Type 0 where
  pub contents : List ℕ
  pub capacity : ℕ

-- BYTE_BUFFER_MAX_CAPACITY
abbrev pub max_capacity : ℕ
max_capacity = 1024 * 1024

-- sizeof(byte_buffer_t), where a pointer has 64 bits.
abbrev pub buffer_size : ℕ
buffer_size = 24

-- `alloc n` says whether the platform's allocator hands out a block of `n` bytes.
unfoldable pub safe_malloc : (ℕ → Bool) → ℕ → Bool
safe_malloc alloc size = if size == 0 then false else alloc size

-- The loop that doubles the capacity; `suc rounds` rounds are left.
unfoldable pub grow : ℕ → ℕ → ℕ → ℕ
grow zero new_capacity required = new_capacity
grow (suc rounds) new_capacity required =
    let rest = grow rounds (new_capacity * 2) required in
    if ltb new_capacity required
    then (if ltb (max_capacity / 2) new_capacity then required else rest)
    else new_capacity

-- A capacity of at least 1 passes any length up to 2 ^ 20 in 20 doublings.
abbrev pub grow_rounds : ℕ
grow_rounds = 21

module _ (alloc : ℕ → Bool) where
  unfoldable pub byte_buffer_new_with_capacity : ℕ → Option ByteBuffer
  unfolding safe_malloc
  byte_buffer_new_with_capacity capacity =
      if safe_malloc alloc buffer_size
      then if safe_malloc alloc capacity
        then some (record { contents = []; capacity = capacity })
        else none
      else none

  unfoldable pub byte_buffer_new : Option ByteBuffer
  unfolding byte_buffer_new_with_capacity
  byte_buffer_new = byte_buffer_new_with_capacity 16

  -- The room is `size_t` arithmetic, 64 bits wide. Returns the buffer and the result.
  unfoldable pub byte_buffer_append : ByteBuffer → List ℕ → ByteBuffer × Bool
  byte_buffer_append buf bytes =
      let room = (max_capacity + 2 ^ 64 - length buf.contents) % 2 ^ 64 in
      let required_total = length buf.contents + length bytes in
      let start = if buf.capacity == 0 then 16 else buf.capacity in
      let new_capacity = grow grow_rounds start required_total in
      let contents = buf.contents ++ bytes in
      if length bytes == 0
      then (buf, true)
      else if ltb room (length bytes)
      then (buf, false)
      else if ltb buf.capacity required_total
      then (if alloc new_capacity
          then (record { contents = contents; capacity = new_capacity }, true)
          else (buf, false))
      else (record buf { contents = contents }, true)

-- What every buffer satisfies from its creation on.
pub record IsValid (buf : ByteBuffer) : Type 0 where
  pub within : length buf.contents ≤ buf.capacity
  pub below_max : length buf.contents ≤ max_capacity
