-- ===== src/UrDecoder/Header.antt =====
-- The CBOR of a part as src/ur_decoder.c reads it.
pub mod RoundTrip
use c_ur.Base.{
  ℕ, ◌+◌, ◌-◌, ◌*◌, ◌^◌, Bool, true, false, List, [], ◌∷◌, length, take, ltb, leb, ◌==◌, ◌||◌, ◌&&◌,
  not, if◌then◌else◌, Option, none, some, ◌>>=◌,
}
use c_ur.Fountain.PartCbor.{Part}

-- UR_MAX_SEQ_LEN, UR_MAX_MESSAGE_LEN
abbrev pub ur_max_seq_len : ℕ
ur_max_seq_len = 1024

abbrev pub ur_max_message_len : ℕ
ur_max_message_len = 256 * 1024

-- The argument of one, two or four bytes behind a head; the shifted bytes do not overlap.
unfoldable pub argument_1 : List ℕ → Option (ℕ × List ℕ)
argument_1 (a ∷ rest) = some (a, rest)
argument_1 _ = none

unfoldable pub argument_2 : List ℕ → Option (ℕ × List ℕ)
argument_2 (a ∷ b ∷ rest) = some (a * 2 ^ 8 + b, rest)
argument_2 _ = none

unfoldable pub argument_4 : List ℕ → Option (ℕ × List ℕ)
argument_4 (a ∷ b ∷ c ∷ d ∷ rest) = some (a * 2 ^ 24 + b * 2 ^ 16 + c * 2 ^ 8 + d, rest)
argument_4 _ = none

-- The number and what follows it.
unfoldable pub cbor_read_uint32 : List ℕ → Option (ℕ × List ℕ)
cbor_read_uint32 [] = none
cbor_read_uint32 (head ∷ rest) =
    if ltb head 24
    then some (head, rest)
    else if head == 24
    then argument_1 rest
    else if head == 25
    then argument_2 rest
    else if head == 26
    then argument_4 rest
    else none

-- The bytes of a byte string whose length has been read.
unfoldable pub bytes_within : ℕ × List ℕ → Option (List ℕ)
bytes_within (len, rest) = if ltb (length rest) len then none else some (take len rest)

-- The bytes; what follows them is not looked at.
unfoldable pub cbor_read_bytes : List ℕ → Option (List ℕ)
cbor_read_bytes [] = none
cbor_read_bytes (head ∷ rest) =
    if leb 0x40 head && leb head 0x57
    then bytes_within (head - 0x40, rest)
    else if head == 0x58
    then (argument_1 rest >>= bytes_within)
    else if head == 0x59
    then (argument_2 rest >>= bytes_within)
    else if head == 0x5a
    then (argument_4 rest >>= bytes_within)
    else none

-- The test on the length, and the head of an array of 5 elements.
unfoldable pub read_start : List ℕ → Option (List ℕ)
read_start [] = none
read_start (head ∷ rest) =
    if ltb (length (head ∷ rest)) 5 then none else if head == 0x85 then some rest else none

-- The four numbers against the path and the bounds.
unfoldable pub accepted : ℕ → ℕ → ℕ → ℕ → ℕ → Bool
accepted seq_num seq_len cbor_seq_num cbor_seq_len message_len =
    (cbor_seq_num == seq_num)
    && ((cbor_seq_len == seq_len) && (not (message_len == 0) && leb message_len ur_max_message_len))

-- The fragment, which may not be empty.
unfoldable pub fragment_part : ℕ → ℕ → ℕ → ℕ → List ℕ → Option Part
fragment_part seq_num seq_len message_len checksum [] = none
fragment_part seq_num seq_len message_len checksum (b ∷ bs) = some (record {
  seq_num = seq_num;
  seq_len = seq_len;
  message_len = message_len;
  checksum = checksum;
  payload = b ∷ bs;
})

-- A part from its CBOR and the numbers of the path; every failure is an invalid fragment.
unfoldable pub read_part : ℕ → ℕ → List ℕ → Option Part
read_part seq_num seq_len cbor = do
  start ← read_start cbor
  num ← cbor_read_uint32 start
  len ← cbor_read_uint32 num.1
  message ← cbor_read_uint32 len.1
  checksum ← cbor_read_uint32 message.1
  payload ←
      if accepted seq_num seq_len num.0 len.0 message.0 then cbor_read_bytes checksum.1 else none
  fragment_part seq_num seq_len message.0 checksum.0 payload
