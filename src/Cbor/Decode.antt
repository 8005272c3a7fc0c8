-- ===== src/Cbor/Decode.antt =====
-- src/types/cbor_decoder.c. The decoder's state is the list of bytes from `offset` on.
use c_ur.Base.{ℕ, zero, suc, ◌+◌, ◌-◌, ◌*◌, ◌/◌, ◌^◌, bit_or, bit_and, Bool, true, false}
use c_ur.Base.{
  List, [], ◌∷◌, length, take, drop, get_or, ltb, leb, ◌==◌, if◌then◌else◌, Option, none, some,
  ◌>>=◌,
}
use c_ur.ByteBuffer.{safe_malloc}
use c_ur.Cbor.Value.{Value, unsigned_int, array, map, tag, bool, nil, end}
use c_ur.Cbor.Value.{cbor_value_new_bytes, cbor_value_new_string, cbor_array_append, cbor_map_set}

-- CBOR_MAX_ITEM_LEN, CBOR_MAX_ITEMS, CBOR_MAX_DEPTH
abbrev pub max_item_len : ℕ
max_item_len = 256 * 1024

-- sizeof(urtypes_cbor_decoder_t), where a pointer has 64 bits.
abbrev pub cbor_decoder_size : ℕ
cbor_decoder_size = 24

abbrev pub max_items : ℕ
max_items = 1024

abbrev pub max_depth : ℕ
max_depth = 16

abbrev pub Parser : Type 0 → Type 0
Parser A = List ℕ → Option (A × List ℕ)

unfoldable pub read_byte : Parser ℕ
read_byte [] = none
read_byte (b ∷ rest) = some (b, rest)

unfoldable pub read_bytes : ℕ → Parser (List ℕ)
read_bytes count input =
    if ltb (length input) count then none else some (take count input, drop count input)

-- The arguments of two and of four bytes, highest byte first.
abbrev pub join_2 : List ℕ → ℕ
join_2 bs = bit_or (get_or bs 0 0 * 2 ^ 8) (get_or bs 1 0)

abbrev pub join_4 : List ℕ → ℕ
join_4 bs =
    bit_or
      (bit_or (bit_or (get_or bs 0 0 * 2 ^ 24) (get_or bs 1 0 * 2 ^ 16)) (get_or bs 2 0 * 2 ^ 8))
      (get_or bs 3 0)

unfoldable pub read_argument : ℕ → Parser ℕ
unfolding read_byte read_bytes
read_argument additional input =
    if ltb additional 24
    then some (additional, input)
    else if additional == 24
    then read_byte input
    else if additional == 25
    then (read_bytes 2 input >>= λ r. some (join_2 r.0, r.1))
    else if additional == 26
    then (read_bytes 4 input >>= λ r. some (join_4 r.0, r.1))
    else none

unfoldable pub decode_unsigned_int : ℕ → Parser Value
decode_unsigned_int additional input = do
  (value, rest) ← read_argument additional input
  some (unsigned_int value, rest)

unfoldable pub decode_simple : ℕ → Parser Value
decode_simple additional rest =
    if additional == 20
    then some (bool false, rest)
    else if additional == 21
    then some (bool true, rest)
    else none

abbrev pub guard : Bool → Option (Unit {0})
guard true = some tt
guard false = none

module _ (alloc : ℕ → Bool) where
  unfoldable pub decode_bytes : ℕ → Parser Value
  decode_bytes additional input = do
    (len, rest) ← read_argument additional input
    _ ← guard (leb len max_item_len)
    _ ← guard (safe_malloc alloc len)
    (payload, after) ← read_bytes len rest
    value ← cbor_value_new_bytes alloc payload
    some (value, after)

  unfoldable pub decode_string : ℕ → Parser Value
  decode_string additional input = do
    (len, rest) ← read_argument additional input
    _ ← guard (leb len max_item_len)
    _ ← guard (safe_malloc alloc (len + 1))
    (str, after) ← read_bytes len rest
    value ← cbor_value_new_string alloc str
    some (value, after)

-- The loops over the elements; `decode` is `decode_value` one level deeper.
module _ (decode : Parser Value) where
  unfoldable pub decode_items : ℕ → Value → Parser Value
  decode_items zero acc input = some (acc, input)
  decode_items (suc left) acc input = do
    (item, rest) ← decode input
    acc' ← cbor_array_append acc item
    decode_items left acc' rest

  unfoldable pub decode_pairs : ℕ → Value → Parser Value
  decode_pairs zero acc input = some (acc, input)
  decode_pairs (suc left) acc input = do
    (key, rest) ← decode input
    (value, rest') ← decode rest
    acc' ← cbor_map_set acc key value
    decode_pairs left acc' rest'

  unfoldable pub decode_array : ℕ → Parser Value
  decode_array additional input = do
    (count, rest) ← read_argument additional input
    _ ← guard (leb count max_items)
    decode_items count (array nil) rest

  unfoldable pub decode_map : ℕ → Parser Value
  decode_map additional input = do
    (count, rest) ← read_argument additional input
    _ ← guard (leb count max_items)
    decode_pairs count (map end) rest

  unfoldable pub decode_tag : ℕ → Parser Value
  decode_tag additional input = do
    (t, rest) ← read_argument additional input
    (content, after) ← decode rest
    some (tag t content, after)

  -- The switch on the major type.
  unfoldable pub decode_major : (ℕ → Bool) → ℕ → ℕ → Parser Value
  decode_major alloc major additional input =
      if major == 0
      then decode_unsigned_int additional input
      else if major == 2
      then decode_bytes alloc additional input
      else if major == 3
      then decode_string alloc additional input
      else if major == 4
      then decode_array additional input
      else if major == 5
      then decode_map additional input
      else if major == 6
      then decode_tag additional input
      else if major == 7
      then decode_simple additional input
      else none

module _ (alloc : ℕ → Bool) where
  -- `levels` is how many more levels the depth limit admits: 0 is depth > CBOR_MAX_DEPTH.
  unfoldable pub decode_level : ℕ → Parser Value
  decode_level zero input = none
  decode_level (suc levels) input = do
    (initial_byte, rest) ← read_byte input
    decode_major (decode_level levels) alloc (bit_and (initial_byte / 2 ^ 5) 7)
        (bit_and initial_byte 0x1f) rest

  unfoldable pub decode_value : ℕ → Parser Value
  decode_value depth = decode_level (max_depth + 1 - depth)

  -- What follows the first item is not looked at.
  unfoldable pub cbor_decode : List ℕ → Option Value
  cbor_decode [] = none
  cbor_decode (b ∷ bs) =
      if safe_malloc alloc cbor_decoder_size
      then (decode_value 0 (b ∷ bs) >>= λ r. some r.0)
      else none
