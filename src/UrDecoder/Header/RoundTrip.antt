-- ===== src/UrDecoder/Header/RoundTrip.antt =====
-- The CBOR that src/fountain_encoder.c writes for a part is read back by src/ur_decoder.c.
use c_ur.Base.{
  ℕ, ◌+◌, ◌^◌, ◌≤◌, ◌<◌, ◌≡◌, refl, ap, ◌∙◌, arith, Bool, true, List, [], ◌∷◌, ◌++◌, append_assoc,
  length, length-append, take, some,
}
use c_ur.Cbor.Head.{canonical_head_lem}
use c_ur.Cbor.Spec.{canonical_head, encoding}
use c_ur.Fountain.PartCbor.{Part, fountain_encoder_part_to_cbor}
use c_ur.Fountain.PartCbor.Canonical.{part_value, fountain_encoder_part_to_cbor-encoding}
use c_ur.UrDecoder.Header.{
  ur_max_message_len, argument_1, argument_2, argument_4, cbor_read_uint32, bytes_within,
  cbor_read_bytes, read_start, accepted, fragment_part, read_part,
}

read_number :
    (v : ℕ) (rest : List ℕ)
    → v < 2 ^ 32
    → cbor_read_uint32 (canonical_head 0 v ++ rest) ≡ some (v, rest)
unfolding cbor_read_uint32 argument_1 argument_2 argument_4
read_number v rest h =
    ap (λ (l : List ℕ). cbor_read_uint32 (l ++ rest)) (canonical_head_lem 0 v (omega arith))
    ∙ ground arith

take-append : (xs ys : List ℕ) → take (length xs) (xs ++ ys) ≡ xs
take-append [] ys = refl
take-append (x ∷ xs) ys = ap (λ (l : List ℕ). x ∷ l) (take-append xs ys)

bytes_within-append : (xs rest : List ℕ) → bytes_within (length xs, xs ++ rest) ≡ some xs
unfolding bytes_within
bytes_within-append xs rest = ground (arith, length-append xs rest, take-append xs rest)

read_length :
    (n : ℕ) (rest : List ℕ)
    → n < 2 ^ 32
    → cbor_read_bytes (canonical_head 2 n ++ rest) ≡ bytes_within (n, rest)
unfolding cbor_read_bytes argument_1 argument_2 argument_4
read_length n rest h =
    ap (λ (l : List ℕ). cbor_read_bytes (l ++ rest)) (canonical_head_lem 2 n (omega arith))
    ∙ ground arith

fragment_part-eq :
    (num len message checksum : ℕ) (payload : List ℕ)
    → 0 < length payload
    → fragment_part num len message checksum payload
      ≡ some (record {
        seq_num = num;
        seq_len = len;
        message_len = message;
        checksum = checksum;
        payload = payload;
      })
unfolding fragment_part
fragment_part-eq num len message checksum [] h = absurd (omega arith)
fragment_part-eq num len message checksum (b ∷ bs) h = refl

start_of : (text : List ℕ) → 4 ≤ length text → read_start (133 ∷ text) ≡ some text
unfolding read_start
start_of text h = ground arith

length_text : (v : ℕ) (text : List ℕ) → 1 + length text ≤ length (canonical_head 0 v ++ text)
length_text v text = omega (
  arith,
  length-append (canonical_head 0 v) text,
  ap length (canonical_head_lem 0 v (omega arith)),
)

written :
    (alloc : ℕ → Bool) (part : Part) (cbor : List ℕ)
    → fountain_encoder_part_to_cbor alloc part ≡ some cbor
    → cbor ≡ encoding (part_value part)
written alloc part cbor e = ground (arith, fountain_encoder_part_to_cbor-encoding alloc part)

accepted-eq :
    (num len message : ℕ)
    → 0 < message
    → message ≤ ur_max_message_len
    → accepted num len num len message ≡ true
unfolding accepted
accepted-eq num len message pos max = ground arith

-- The steps of read_part, each with what it reads.
read_steps :
    (cbor t₀ t₁ t₂ t₃ : List ℕ) (num len message checksum : ℕ) (payload t₄ : List ℕ)
    → read_start cbor ≡ some t₀
    → cbor_read_uint32 t₀ ≡ some (num, t₁)
    → cbor_read_uint32 t₁ ≡ some (len, t₂)
    → cbor_read_uint32 t₂ ≡ some (message, t₃)
    → cbor_read_uint32 t₃ ≡ some (checksum, t₄)
    → cbor_read_bytes t₄ ≡ some payload
    → 0 < message
    → message ≤ ur_max_message_len
    → read_part num len cbor ≡ fragment_part num len message checksum payload
unfolding read_part
read_steps cbor t₀ t₁ t₂ t₃ num len message checksum payload t₄ e₀ e₁ e₂ e₃ e₄ e₅ pos max =
    rw (e₀, e₁, e₂, e₃, e₄, accepted-eq num len message pos max, e₅)

module _ (part : Part) where
  abbrev bytes_text : List ℕ
  bytes_text = (canonical_head 2 (length part.payload) ++ part.payload) ++ []

  abbrev checksum_text : List ℕ
  checksum_text = canonical_head 0 part.checksum ++ bytes_text

  abbrev message_text : List ℕ
  message_text = canonical_head 0 part.message_len ++ checksum_text

  abbrev len_text : List ℕ
  len_text = canonical_head 0 part.seq_len ++ message_text

  abbrev num_text : List ℕ
  num_text = canonical_head 0 part.seq_num ++ len_text

  read_payload : length part.payload < 2 ^ 32 → cbor_read_bytes bytes_text ≡ some part.payload
  read_payload h =
      ap cbor_read_bytes (append_assoc (canonical_head 2 (length part.payload)) part.payload [])
      ∙ read_length (length part.payload) (part.payload ++ []) h
      ∙ bytes_within-append part.payload []

  encoding_text : encoding (part_value part) ≡ 133 ∷ num_text
  unfolding encoding
  encoding_text = ap (λ (l : List ℕ). l ++ num_text) (canonical_head_lem 4 5 (omega arith))

  start_read : 0 < length part.payload → read_start (encoding (part_value part)) ≡ some num_text
  start_read h =
      ap read_start encoding_text
      ∙ start_of num_text (
          omega (
            arith,
            length_text part.seq_num len_text,
            length_text part.seq_len message_text,
            length_text part.message_len checksum_text,
            length_text part.checksum bytes_text,
          ))

  -- A part with data, whose message is not empty and within the bound of the decoder, and whose numbers
  -- and length have 32 bits, is read back from the CBOR that fountain_encoder_part_to_cbor writes for
  -- it, where the path has its numbers.
  pub read_part-fountain_encoder_part_to_cbor :
      (alloc : ℕ → Bool) (cbor : List ℕ)
      → 0 < length part.payload
      → length part.payload < 2 ^ 32
      → part.seq_num < 2 ^ 32
      → part.seq_len < 2 ^ 32
      → part.checksum < 2 ^ 32
      → 0 < part.message_len
      → part.message_len ≤ ur_max_message_len
      → fountain_encoder_part_to_cbor alloc part ≡ some cbor
      → read_part part.seq_num part.seq_len cbor ≡ some part
  read_part-fountain_encoder_part_to_cbor alloc cbor has_data data_len num len sum pos max e =
      ap (read_part part.seq_num part.seq_len) (written alloc part cbor e)
      ∙ read_steps (encoding (part_value part)) num_text len_text message_text checksum_text
          part.seq_num part.seq_len part.message_len part.checksum part.payload bytes_text
          (start_read has_data) (read_number part.seq_num len_text num)
          (read_number part.seq_len message_text len)
          (read_number part.message_len checksum_text (omega arith))
          (read_number part.checksum bytes_text sum) (read_payload data_len) pos max
      ∙ fragment_part-eq part.seq_num part.seq_len part.message_len part.checksum part.payload
          has_data
