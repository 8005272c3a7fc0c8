-- ===== src/Fountain/PartCbor.antt =====
-- The small CBOR encoder of src/fountain_encoder.c and the header of a part that it writes.
pub mod Canonical
use c_ur.Base.{
  ℕ, ◌+◌, ◌*◌, ◌/◌, ◌^◌, Bool, true, false, List, [], ◌∷◌, ◌++◌, length, ltb, leb, ◌==◌,
  if◌then◌else◌, Option, none, some,
}
use c_ur.ByteBuffer.{safe_malloc}
use c_ur.Cbor.Encode.{u8}

-- fountain_encoder_part_t; its data are `payload`, which is empty where they are NULL: no block of 0
-- bytes is handed out.
pub record Part : Type 0 where
  pub seq_num : ℕ
  pub seq_len : ℕ
  pub message_len : ℕ
  pub checksum : ℕ
  pub payload : List ℕ

-- cbor_lite_encoder_t: `written` is buffer[0 .. size).
pub record LiteEncoder : Type 0 where
  pub written : List ℕ
  pub capacity : ℕ

-- CBOR_ENCODER_MAX_CAPACITY
abbrev pub encoder_max_capacity : ℕ
encoder_max_capacity = 1024 * 1024

unfoldable pub get_byte_length : ℕ → ℕ
get_byte_length value =
    if ltb value 24
    then 0
    else if leb value 0xff
    then 1
    else if leb value 0xffff
    then 2
    else if leb value 0xffffffff
    then 4
    else 8

-- The capacity after a growth.
abbrev pub larger_capacity : ℕ → ℕ → ℕ
larger_capacity capacity required =
    let wanted = if ltb (capacity * 3 / 2) required then required else capacity * 3 / 2 in
    if ltb encoder_max_capacity wanted then encoder_max_capacity else wanted

-- The bytes of a head of more than one byte, by the number of bytes of the argument.
unfoldable pub long_head : ℕ → ℕ → ℕ → List ℕ
long_head bytes major_type value =
    if bytes == 1
    then u8 (major_type + 24) ∷ u8 value ∷ []
    else if bytes == 2
    then u8 (major_type + 25) ∷ u8 (value / 2 ^ 8) ∷ u8 value ∷ []
    else if bytes == 4
    then (u8 (major_type + 26)
        ∷ u8 (value / 2 ^ 24)
        ∷ u8 (value / 2 ^ 16)
        ∷ u8 (value / 2 ^ 8)
        ∷ u8 value
        ∷ [])
    else (u8 (major_type + 27)
        ∷ u8 (value / 2 ^ 56)
        ∷ u8 (value / 2 ^ 48)
        ∷ u8 (value / 2 ^ 40)
        ∷ u8 (value / 2 ^ 32)
        ∷ u8 (value / 2 ^ 24)
        ∷ u8 (value / 2 ^ 16)
        ∷ u8 (value / 2 ^ 8)
        ∷ u8 value
        ∷ [])

-- A step that failed ends the run.
infixl 5 ◌>=>◌
abbrev pub ◌>=>◌ : LiteEncoder × Bool → (LiteEncoder → LiteEncoder × Bool) → LiteEncoder × Bool
(enc, true) >=> next = next enc
(enc, false) >=> next = (enc, false)

-- What is written once the capacity is there.
abbrev pub write : List ℕ → LiteEncoder → LiteEncoder × Bool
write bytes enc = (record { written = enc.written ++ bytes; capacity = enc.capacity }, true)

module _ (alloc : ℕ → Bool) where
  unfoldable pub ensure_capacity : LiteEncoder → ℕ → LiteEncoder × Bool
  ensure_capacity enc additional =
      let required = length enc.written + additional in
      let new_capacity = larger_capacity enc.capacity required in
      if leb required enc.capacity
      then (enc, true)
      else if ltb encoder_max_capacity required
      then (enc, false)
      else if alloc new_capacity
      then (record { written = enc.written; capacity = new_capacity }, true)
      else (enc, false)

  unfoldable pub append_byte : ℕ → LiteEncoder → LiteEncoder × Bool
  append_byte byte enc = ensure_capacity enc 1 >=> write (byte ∷ [])

  unfoldable pub encode_tag_and_value : ℕ → ℕ → LiteEncoder → LiteEncoder × Bool
  encode_tag_and_value major_type value enc =
      let bytes = get_byte_length value in
      if bytes == 0
      then append_byte (u8 (major_type + u8 value)) enc
      else (ensure_capacity enc (1 + bytes) >=> write (long_head bytes major_type value))

  unfoldable pub encode_unsigned : ℕ → LiteEncoder → LiteEncoder × Bool
  encode_unsigned value enc = encode_tag_and_value 0 value enc

  unfoldable pub encode_array_start : ℕ → LiteEncoder → LiteEncoder × Bool
  encode_array_start count enc = encode_tag_and_value (4 * 2 ^ 5) count enc

  unfoldable pub encode_bytes : List ℕ → LiteEncoder → LiteEncoder × Bool
  encode_bytes payload enc =
      if length payload == 0
      then (enc, false)
      else (encode_tag_and_value (2 * 2 ^ 5) (length payload) enc
          >=> (λ enc'. ensure_capacity enc' (length payload) >=> write payload))

  -- The bytes of a finished run; whether the final shrinking succeeds makes no difference to them.
  unfoldable pub get_buffer : LiteEncoder × Bool → Option (List ℕ)
  get_buffer (enc, true) = if length enc.written == 0 then none else some enc.written
  get_buffer (enc, false) = none

  unfoldable pub encode_part : Part → LiteEncoder → LiteEncoder × Bool
  encode_part part enc =
      encode_array_start 5 enc
      >=> encode_unsigned part.seq_num
      >=> encode_unsigned part.seq_len
      >=> encode_unsigned part.message_len
      >=> encode_unsigned part.checksum
      >=> encode_bytes part.payload

  unfoldable pub fountain_encoder_part_to_cbor : Part → Option (List ℕ)
  fountain_encoder_part_to_cbor part =
      if length part.payload == 0
      then none
      else if safe_malloc alloc (64 + length part.payload)
      then get_buffer
          (encode_part part (record { written = []; capacity = 64 + length part.payload }))
      else none
