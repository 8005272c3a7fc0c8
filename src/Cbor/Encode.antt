-- ===== src/Cbor/Encode.antt =====
-- src/types/cbor_encoder.c.
use c_ur.Base.{ℕ, ◌*◌, ◌/◌, ◌%◌, ◌^◌, bit_or, Bool, true, false, List, [], ◌∷◌}
use c_ur.Base.{length, ltb, leb, if◌then◌else◌, Option, none, some}
use c_ur.ByteBuffer.{safe_malloc, ByteBuffer, byte_buffer_append, byte_buffer_new}
use c_ur.Cbor.Value.{Value, Items, Pairs, unsigned_int, bytes, string, array, map, tag, bool}
use c_ur.Cbor.Value.{nil, cons, end, pair, item_count, pair_count}

abbrev pub u8 : ℕ → ℕ
u8 n = n % 256

-- The bytes that `encode_head` appends: the head of major type `major_type` and argument `value`.
unfoldable pub head_bytes : ℕ → ℕ → List ℕ
head_bytes major_type value =
    let mt = u8 (major_type * 2 ^ 5) in
    if ltb value 24
    then bit_or mt (u8 value) ∷ []
    else if leb value 0xff
    then bit_or mt 24 ∷ u8 value ∷ []
    else if leb value 0xffff
    then bit_or mt 25 ∷ u8 (value / 2 ^ 8) ∷ u8 value ∷ []
    else if leb value 0xffffffff
    then (bit_or mt 26
        ∷ u8 (value / 2 ^ 24)
        ∷ u8 (value / 2 ^ 16)
        ∷ u8 (value / 2 ^ 8)
        ∷ u8 value
        ∷ [])
    else (bit_or mt 27
        ∷ u8 (value / 2 ^ 56)
        ∷ u8 (value / 2 ^ 48)
        ∷ u8 (value / 2 ^ 40)
        ∷ u8 (value / 2 ^ 32)
        ∷ u8 (value / 2 ^ 24)
        ∷ u8 (value / 2 ^ 16)
        ∷ u8 (value / 2 ^ 8)
        ∷ u8 value
        ∷ [])

-- `if (!step) return false;` and the next step on the buffer that the first one left.
infixl 5 ◌>=>◌
abbrev pub ◌>=>◌ : ByteBuffer × Bool → (ByteBuffer → ByteBuffer × Bool) → ByteBuffer × Bool
(buf, true) >=> next = next buf
(buf, false) >=> next = (buf, false)

-- The bytes of a finished run; a failed or empty one is NULL.
unfoldable pub encoded_bytes : ByteBuffer × Bool → Option (List ℕ)
encoded_bytes (buf, true) = if ltb 0 (length buf.contents) then some buf.contents else none
encoded_bytes (buf, false) = none

-- sizeof(urtypes_cbor_encoder_t), where a pointer has 64 bits.
abbrev pub cbor_encoder_size : ℕ
cbor_encoder_size = 8

module _ (alloc : ℕ → Bool) where
  unfoldable pub encode_head : ByteBuffer → ℕ → ℕ → ByteBuffer × Bool
  encode_head buf major_type value = byte_buffer_append alloc buf (head_bytes major_type value)

  -- `if (len > 0) return byte_buffer_append(...); return true;`
  unfoldable pub append_payload : List ℕ → ByteBuffer → ByteBuffer × Bool
  append_payload payload buf =
      if ltb 0 (length payload) then byte_buffer_append alloc buf payload else (buf, true)

  unfoldable mutual
    pub encode_value : Value → ByteBuffer → ByteBuffer × Bool
    encode_value (unsigned_int n) buf = encode_head buf 0 n
    encode_value (bytes payload) buf = encode_head buf 2 (length payload) >=> append_payload payload
    encode_value (string str) buf = encode_head buf 3 (length str) >=> append_payload str
    encode_value (array xs) buf = encode_head buf 4 (item_count xs) >=> encode_items xs
    encode_value (map ps) buf = encode_head buf 5 (pair_count ps) >=> encode_pairs ps
    encode_value (tag t content) buf = encode_head buf 6 t >=> encode_value content
    encode_value (bool b) buf = byte_buffer_append alloc buf ((if b then 0xf5 else 0xf4) ∷ [])

    pub encode_items : Items → ByteBuffer → ByteBuffer × Bool
    encode_items nil buf = (buf, true)
    encode_items (cons x xs) buf = encode_value x buf >=> encode_items xs

    pub encode_pairs : Pairs → ByteBuffer → ByteBuffer × Bool
    encode_pairs end buf = (buf, true)
    encode_pairs (pair k v ps) buf = encode_value k buf >=> encode_value v >=> encode_pairs ps

  unfoldable pub cbor_encode : Value → Option (List ℕ)
  unfolding encode_value
  cbor_encode value =
      let encoded : Option (List ℕ) = elim (byte_buffer_new alloc) [
        | none ↦ none
        | some buf ↦ encoded_bytes (encode_value value buf)
      ] in
      if safe_malloc alloc cbor_encoder_size then encoded else none
