-- ===== src/UrEncoder/Tests.antt =====
-- URs written and read at concrete inputs.
use c_ur.Base.{
  ℕ, ◌+◌, ◌-◌, ◌≡◌, ◌≢◌, ◌⊎◌, refl, arith, true, false, ◌&&◌, List, [], ◌∷◌, All, IsByte, leb,
  if◌then◌else◌, none, some,
}
use c_ur.ByteBuffer.{safe_malloc}
use c_ur.Crc32.{crc32_calculate, crc32_loop, crc32_byte}
use c_ur.Bytewords.{bytewords_encode, words, word, crc_bytes, IsToLower}
use c_ur.Bytewords.Tables.{codes, bytewords_minimal}
use c_ur.UrString.{is_ur_type, type_loop, str_to_lower}
use c_ur.Fountain.PartCbor.{
  Part, fountain_encoder_part_to_cbor, encode_part, encode_tag_and_value, encode_unsigned,
  encode_array_start, encode_bytes, ensure_capacity, append_byte, get_buffer, get_byte_length,
  long_head,
}
use c_ur.Fountain.Queue.{queue_init}
use c_ur.Fountain.Decoder.State.{fresh_decoder, fountain_decoder_new, fountain_decoder_is_complete}
use c_ur.Fountain.Decoder.Fed.{empty_queue}
use c_ur.Fountain.Decoder.Tests.{machine}
use c_ur.UrString.Parse.{IsPart}
use c_ur.UrDecoder.{
  error_invalid_scheme, after_fountain, receive_components, ok, processing, UrResult, UrDecoder,
  Platform, ur_decoder_new, ur_decoder_receive_part, ur_decoder_get_result,
}
use c_ur.UrDecoder.Multipart.{receive_components-fountain_encoder_part_to_cbor}
use c_ur.Fountain.Decoder.Receive.{fountain_decoder_receive_part}
use c_ur.UrString.{parse_sequence_component, both_numbers, positive_number, str_split, split_loop}
use c_ur.Bytewords.{bytewords_decode_raw, decode_words, decode_word, check_crc, expected_crc}
use c_ur.Bytewords.Tables.{lookup_table}
use c_ur.UrDecoder.Reachable.{
  created, receive_all, ur_decoder_get_result-Reachable, receive_all-ur_decoder_get_result,
}
use c_ur.UrEncoder.{Writer, encode_uri, encode_ur, path_of, path_len, ur_encoder_encode_single}
use c_ur.UrEncoder.Single.{ur_decoder_get_result-ur_encoder_encode_single}

abbrev ascii_lower : ℕ → ℕ
ascii_lower c = if leb 65 c && leb c 90 then c + 32 else c

ascii_lower-IsToLower : IsToLower ascii_lower
ascii_lower-IsToLower = record {
  upper = λ c h k. ground arith;
  below = λ c h. ground arith;
  above = λ c h. ground arith;
}

abbrev ascii_upper : ℕ → ℕ
ascii_upper c = if leb 97 c && leb c 122 then c - 32 else c

ascii_fold : (c : ℕ) → ascii_lower (ascii_upper c) ≡ ascii_lower c
ascii_fold c = ground arith

-- A number of one digit.
abbrev one_digit : List ℕ → ℕ × List ℕ
one_digit (c ∷ []) = (c - 48, [])
one_digit text = (0, text)

abbrev platform : Platform
platform = record {
  machine = machine;
  tolower = ascii_lower;
  islower = λ c. leb 97 c && leb c 122;
  isdigit = λ c. leb 48 c && leb c 57;
  strtoul = one_digit;
  pointer_size = 8;
  result_size = 24;
  decoder_size = 32;
  part_size = 40;
}

abbrev writer : Writer
writer = record {
  machine = machine;
  toupper = ascii_upper;
  decimal = λ n. (48 + n) ∷ [];
  encoder_size = 16;
  fountain_size = 104;
}

abbrev three_bytes : List ℕ
three_bytes = 0 ∷ 1 ∷ 2 ∷ []

abbrev three_text : List ℕ
three_text = codes "UR:BYTES/AEADAOAYGHLDLB"

three_encoded : ur_encoder_encode_single writer (codes "bytes") three_bytes ≡ some three_text
unfolding ur_encoder_encode_single encode_ur encode_uri path_of path_len bytewords_encode words word
    crc_bytes crc32_calculate crc32_loop crc32_byte safe_malloc bytewords_minimal
three_encoded = refl

abbrev start : UrDecoder
start = record {
  fountain_decoder = fresh_decoder empty_queue;
  expected_type = none;
  result = none;
  state = processing;
}

new_start : ur_decoder_new platform ≡ some start
unfolding ur_decoder_new fountain_decoder_new queue_init safe_malloc
new_start = refl

not_complete : fountain_decoder_is_complete start.fountain_decoder ≡ false
unfolding fountain_decoder_is_complete
not_complete = refl

bytes_is_type : is_ur_type platform.islower platform.isdigit (codes "bytes") ≡ true
unfolding is_ur_type type_loop
bytes_is_type = refl

bytes_is_lower : str_to_lower ascii_lower (codes "bytes") ≡ codes "bytes"
unfolding str_to_lower
bytes_is_lower = refl

bytes-IsPart : IsPart (codes "bytes")
bytes-IsPart =
    (omega arith, (omega arith, (omega arith, (omega arith, (omega arith, (omega arith, tt))))))

three-IsByte : All IsByte three_bytes
three-IsByte = (omega arith, (omega arith, (omega arith, tt)))

abbrev three_result : UrResult
three_result = record { type_name = codes "bytes"; cbor_data = three_bytes; cbor_len = 3 }

-- The decoder after a text that is no UR.
abbrev after_stray : UrDecoder
after_stray = record start { state = error_invalid_scheme }

ur_decoder_get_result-ur_encoder_encode_single_example :
    ur_decoder_get_result (ur_decoder_receive_part platform after_stray (some three_text))
    ≡ some three_result
ur_decoder_get_result-ur_encoder_encode_single_example =
    ur_decoder_get_result-ur_encoder_encode_single platform writer (λ n. refl) (λ n. refl)
      (omega arith) (omega arith) ascii_lower-IsToLower ascii_fold after_stray (codes "bytes")
      three_bytes three_text (λ e. cc) (λ e. cc) (λ e. cc) refl not_complete bytes_is_type
      bytes_is_lower bytes-IsPart three-IsByte three_encoded

three_read :
    ur_decoder_get_result (ur_decoder_receive_part platform start (some three_text))
    ≡ some three_result
three_read =
    ur_decoder_get_result-ur_encoder_encode_single platform writer (λ n. refl) (λ n. refl)
      (omega arith) (omega arith) ascii_lower-IsToLower ascii_fold start (codes "bytes") three_bytes
      three_text (λ e. cc) (λ e. cc) (λ e. cc) refl not_complete bytes_is_type bytes_is_lower
      bytes-IsPart three-IsByte three_encoded

-- A part that is NULL, then the text.
abbrev received_both : UrDecoder
received_both = receive_all platform start (none ∷ some three_text ∷ [])

ur_decoder_get_result-Reachable_example :
    (((received_both.state ≡ ok)
        × ((r : UrResult) × (ur_decoder_get_result received_both ≡ some r)
            × (received_both.expected_type ≡ some r.type_name)))
      ⊎ ((received_both.state ≢ ok) × (ur_decoder_get_result received_both ≡ none)))
    × ((start.expected_type ≡ none) ⊎ (received_both.expected_type ≡ start.expected_type))
ur_decoder_get_result-Reachable_example =
    ur_decoder_get_result-Reachable platform start (none ∷ some three_text ∷ []) (created new_start)

receive_all-ur_decoder_get_result_example :
    ur_decoder_get_result (
      receive_all platform
        (ur_decoder_receive_part platform start (some three_text))
        (none ∷ some [] ∷ []))
    ≡ some three_result
receive_all-ur_decoder_get_result_example =
    receive_all-ur_decoder_get_result platform
      (ur_decoder_receive_part platform start (some three_text)) three_result (none ∷ some [] ∷ [])
      three_read

abbrev small_part : Part
small_part = record {
  seq_num = 3;
  seq_len = 2;
  message_len = 300;
  checksum = 70000;
  payload = 5 ∷ 6 ∷ [];
}

abbrev small_cbor : List ℕ
small_cbor = 133 ∷ 3 ∷ 2 ∷ 25 ∷ 1 ∷ 44 ∷ 26 ∷ 0 ∷ 1 ∷ 17 ∷ 112 ∷ 66 ∷ 5 ∷ 6 ∷ []

small_written : fountain_encoder_part_to_cbor machine.alloc small_part ≡ some small_cbor
unfolding fountain_encoder_part_to_cbor encode_part encode_tag_and_value encode_unsigned
    encode_array_start encode_bytes ensure_capacity append_byte get_buffer get_byte_length long_head
    safe_malloc
small_written = refl

abbrev small_body : List ℕ
small_body = codes "lpaxaocfaddwcyaeadbyjofwahamdmqzaovs"

small_decoded : bytewords_decode_raw machine.alloc ascii_lower small_body ≡ some small_cbor
unfolding bytewords_decode_raw decode_words decode_word check_crc expected_crc crc32_calculate
    crc32_loop crc32_byte safe_malloc lookup_table
small_decoded = refl

three_of_two : parse_sequence_component machine.alloc 8 one_digit (codes "3-2") ≡ some (3, 2)
unfolding parse_sequence_component both_numbers positive_number str_split split_loop safe_malloc
three_of_two = refl

receive_components-fountain_encoder_part_to_cbor_example :
    receive_components platform start (codes "bytes") (codes "3-2" ∷ small_body ∷ [])
    ≡ after_fountain platform start
        (fountain_decoder_receive_part machine start.fountain_decoder small_part)
unfolding safe_malloc
receive_components-fountain_encoder_part_to_cbor_example =
    receive_components-fountain_encoder_part_to_cbor platform start (codes "bytes") (codes "3-2")
      small_body small_cbor small_part machine.alloc (omega arith) (omega arith) (omega arith)
      (omega arith) (omega arith) (omega arith) (omega arith) (omega arith) refl small_written
      small_decoded three_of_two
