-- ===== src/UrEncoder/Single.antt =====
-- A single part of src/ur_encoder.c read by src/ur_decoder.c.
use c_ur.Base.{
  ℕ, suc, ◌+◌, ◌<◌, ◌≤◌, ◌≡◌, ◌≢◌, refl, ap, sym, ◌∙◌, arith, Bool, true, false, List, [], ◌∷◌,
  ◌++◌, length, length-append, All, All-append, IsByte, Option, none, some, ◌>>=◌, passes_at,
}
use mathlib.Core.Path.{ap₂}
use c_ur.ByteBuffer.{safe_malloc}
use c_ur.Crc32.{crc32_calculate}
use c_ur.UrString.{str_to_lower, is_ur_type, parse_ur_string}
use c_ur.UrString.Parse.{IsPart, path_text, parse_ur_string-path_text}
use c_ur.Bytewords.{
  word, words, crc_bytes, bytewords_decode_raw, decode_word, decode_words, IsToLower,
}
use c_ur.Bytewords.Letters.{word_found, words_found}
use c_ur.Bytewords.RoundTrip.{
  length-words, bytewords_encode-words, bytewords_decode_raw-bytewords_encode, crc_bytes-IsByte,
}
use c_ur.Fountain.Decoder.State.{fountain_decoder_is_complete}
use c_ur.UrDecoder.{
  DecoderState, ok, no_result, error_invalid_scheme, error_invalid_type, error_invalid_path_length,
  error_invalid_sequence_component, error_invalid_fragment, error_invalid_part,
  error_invalid_checksum, error_memory, error_null_pointer, ur_decoder_state_is_terminal,
  processing, UrResult, UrDecoder, Platform, state_code, ur_decoder_state_is_terminal,
  validate_against, validate_part_type, decode_single_part, store_single, receive_components,
  receive_validated, receive_parsed, receive_string, ur_decoder_receive_part, ur_decoder_get_result,
}
use c_ur.UrEncoder.{Writer, upper_all, path_of, encode_uri, encode_ur, ur_encoder_encode_single}

abbrev IsCapital : ℕ → Type 0
IsCapital c = (65 ≤ c) × (c ≤ 90)

words-IsCapital : (bytes : List ℕ) → All IsByte bytes → All IsCapital (words bytes)
unfolding words word
words-IsCapital [] h = tt
words-IsCapital (b ∷ bs) h =
    let found = passes_at word_found 256 b words_found h.0 in
    (
      (ground (arith, found), ground (arith, found)),
      ((ground (arith, found), ground (arith, found)), words-IsCapital bs h.1),
    )

module _ (tolower : ℕ → ℕ) (ascii : IsToLower tolower) where
  lower_twice : (c : ℕ) → tolower (tolower c) ≡ tolower c
  lower_twice c =
      ground (arith, ascii.upper c, ascii.below c, ascii.above c, ascii.above (tolower c))

  decode_word-lower :
      (c d : ℕ) → decode_word tolower (tolower c) (tolower d) ≡ decode_word tolower c d
  unfolding decode_word
  decode_word-lower c d = rw (lower_twice c, lower_twice d) refl

  decode_words-lower :
      (text : List ℕ) → decode_words tolower (str_to_lower tolower text) ≡ decode_words tolower text
  unfolding decode_words str_to_lower
  decode_words-lower [] = refl
  decode_words-lower (c ∷ []) = refl
  decode_words-lower (c ∷ d ∷ rest) = rw (decode_word-lower c d, decode_words-lower rest) refl

  length-lower : (text : List ℕ) → length (str_to_lower tolower text) ≡ length text
  unfolding str_to_lower
  length-lower [] = refl
  length-lower (c ∷ cs) = ap (λ (n : ℕ). suc n) (length-lower cs)

  decode_raw-lower :
      (alloc : ℕ → Bool) (text : List ℕ)
      → bytewords_decode_raw alloc tolower (str_to_lower tolower text)
        ≡ bytewords_decode_raw alloc tolower text
  unfolding bytewords_decode_raw
  decode_raw-lower alloc text = rw (length-lower text, decode_words-lower text) refl

  lower-append :
      (xs ys : List ℕ)
      → str_to_lower tolower (xs ++ ys) ≡ str_to_lower tolower xs ++ str_to_lower tolower ys
  unfolding str_to_lower
  lower-append [] ys = refl
  lower-append (x ∷ xs) ys = ap (λ (l : List ℕ). tolower x ∷ l) (lower-append xs ys)

  lower-upper_all :
      (toupper : ℕ → ℕ) (xs : List ℕ)
      → ((c : ℕ) → tolower (toupper c) ≡ tolower c)
      → str_to_lower tolower (upper_all toupper xs) ≡ str_to_lower tolower xs
  unfolding str_to_lower
  lower-upper_all toupper [] fold = refl
  lower-upper_all toupper (x ∷ xs) fold =
      ap₂ (λ (c : ℕ) (l : List ℕ). c ∷ l) (fold x) (lower-upper_all toupper xs fold)

  no_slash : (text : List ℕ) → All IsCapital text → All (λ c. c ≢ 47) (str_to_lower tolower text)
  unfolding str_to_lower
  no_slash [] h = tt
  no_slash (c ∷ cs) h = (omega (arith, ascii.upper c h.0.0 h.0.1), no_slash cs h.1)

module _ (p : Platform) (w : Writer) (served : (n : ℕ) → p.machine.alloc n ≡ true)
    (served_writer : (n : ℕ) → w.machine.alloc n ≡ true) (pointers : 0 < p.pointer_size)
    (results : 0 < p.result_size) (ascii : IsToLower p.tolower)
    (fold : (c : ℕ) → p.tolower (w.toupper c) ≡ p.tolower c) where
  abbrev lowered : List ℕ → List ℕ
  lowered text = str_to_lower p.tolower text

  -- What encode_single writes, in lower case.
  abbrev body_of : List ℕ → List ℕ
  body_of cbor = words (cbor ++ crc_bytes (crc32_calculate cbor))

  encoded_text :
      (type cbor ur : List ℕ)
      → ur_encoder_encode_single w type cbor ≡ some ur
      → (0 < length cbor)
        × (ur
            ≡ upper_all w.toupper (117 ∷ 114 ∷ [])
              ++ 58 ∷ upper_all w.toupper type
              ++ 47 ∷ upper_all w.toupper (body_of cbor))
  unfolding ur_encoder_encode_single encode_ur encode_uri path_of
  encoded_text type cbor ur e =
      ground (arith, e, bytewords_encode-words w.machine.alloc cbor served_writer, served_writer _)

  encoded_lowered :
      (type cbor ur : List ℕ)
      → ur_encoder_encode_single w type cbor ≡ some ur
      → lowered type ≡ type
      → lowered ur ≡ 117 ∷ 114 ∷ 58 ∷ path_text type (lowered (body_of cbor) ∷ [])
  unfolding str_to_lower
  encoded_lowered type cbor ur e t =
      ap lowered (encoded_text type cbor ur e).1
      ∙ rw
          (
            fold 117,
            fold 114,
            ascii.above 117 (omega arith),
            ascii.above 114 (omega arith),
            ascii.below 58 (omega arith),
            lower-append p.tolower ascii (upper_all w.toupper type)
                (47 ∷ upper_all w.toupper (body_of cbor)),
            ascii.below 47 (omega arith),
            lower-upper_all p.tolower ascii w.toupper type fold,
            lower-upper_all p.tolower ascii w.toupper (body_of cbor) fold,
            t,
          )
          refl

  body_decoded :
      (cbor : List ℕ)
      → 0 < length cbor
      → All IsByte cbor
      → bytewords_decode_raw p.machine.alloc p.tolower (lowered (body_of cbor)) ≡ some cbor
  body_decoded cbor pos bytes =
      decode_raw-lower p.tolower ascii p.machine.alloc (body_of cbor)
      ∙ sym (
          ap (λ (o : Option (List ℕ)). o >>= bytewords_decode_raw p.machine.alloc p.tolower)
            (bytewords_encode-words p.machine.alloc cbor served pos))
      ∙ bytewords_decode_raw-bytewords_encode p.machine.alloc p.tolower cbor served ascii pos bytes

  body-IsPart :
      (cbor : List ℕ) → 0 < length cbor → All IsByte cbor → IsPart (lowered (body_of cbor))
  body-IsPart cbor pos bytes = (
    omega (
      arith,
      length-lower p.tolower ascii (body_of cbor),
      length-words (cbor ++ crc_bytes (crc32_calculate cbor)),
      length-append cbor (crc_bytes (crc32_calculate cbor)),
      pos,
    ),
    no_slash p.tolower ascii (body_of cbor) (
        words-IsCapital (cbor ++ crc_bytes (crc32_calculate cbor)) (
          All-append IsByte cbor (crc_bytes (crc32_calculate cbor)) bytes
            (crc_bytes-IsByte (crc32_calculate cbor)))),
  )

  -- The result of a single part.
  abbrev result_of : List ℕ → List ℕ → UrResult
  result_of type cbor = record { type_name = type; cbor_data = cbor; cbor_len = length cbor }

  malloc_served : (n : ℕ) → 0 < n → safe_malloc p.machine.alloc n ≡ true
  unfolding safe_malloc
  malloc_served n pos = ground (arith, served n)

  single_decoded :
      (type body cbor : List ℕ)
      → bytewords_decode_raw p.machine.alloc p.tolower body ≡ some cbor
      → decode_single_part p type body ≡ some (result_of type cbor)
  unfolding decode_single_part
  single_decoded type body cbor e =
      rw (e, malloc_served p.result_size results, malloc_served (length type + 1) (omega arith))
        refl

  new_type :
      (d : UrDecoder) (type : List ℕ)
      → is_ur_type p.islower p.isdigit type ≡ true
      → validate_against p d type none ≡ (record d { expected_type = some type }, true)
  unfolding validate_against
  new_type d type h = rw (h, malloc_served (length type + 1) (omega arith)) refl

  type_accepted :
      (d : UrDecoder) (type : List ℕ)
      → d.expected_type ≡ none
      → is_ur_type p.islower p.isdigit type ≡ true
      → validate_part_type p d type ≡ (record d { expected_type = some type }, true)
  unfolding validate_part_type
  type_accepted d type e h = ap (validate_against p d type) e ∙ new_type d type h

  received_single :
      (d : UrDecoder) (type body cbor : List ℕ)
      → d.expected_type ≡ none
      → is_ur_type p.islower p.isdigit type ≡ true
      → bytewords_decode_raw p.machine.alloc p.tolower body ≡ some cbor
      → ur_decoder_get_result (receive_parsed p d (some (type, body ∷ [])))
        ≡ some (result_of type cbor)
  unfolding receive_parsed receive_validated receive_components store_single ur_decoder_get_result
      state_code
  received_single d type body cbor e h g =
      rw (type_accepted d type e h, single_decoded type body cbor g) refl

  -- No other state is terminal.
  open_state :
      (s : DecoderState)
      → s ≢ ok
      → s ≢ no_result
      → s ≢ error_invalid_checksum
      → ur_decoder_state_is_terminal s ≡ false
  unfolding ur_decoder_state_is_terminal
  open_state ok a b c = absurd (a refl)
  open_state processing a b c = refl
  open_state no_result a b c = absurd (b refl)
  open_state error_invalid_scheme a b c = refl
  open_state error_invalid_type a b c = refl
  open_state error_invalid_path_length a b c = refl
  open_state error_invalid_sequence_component a b c = refl
  open_state error_invalid_fragment a b c = refl
  open_state error_invalid_part a b c = refl
  open_state error_invalid_checksum a b c = absurd (c refl)
  open_state error_memory a b c = refl
  open_state error_null_pointer a b c = refl

  string_parsed :
      (d : UrDecoder) (ur : List ℕ)
      → ur_decoder_state_is_terminal d.state ≡ false
      → fountain_decoder_is_complete d.fountain_decoder ≡ false
      → ur_decoder_receive_part p d (some ur)
        ≡ receive_parsed p
            (record d { state = processing })
            (parse_ur_string p.machine.alloc p.islower p.isdigit p.pointer_size p.tolower ur)
  unfolding ur_decoder_receive_part receive_string
  string_parsed d ur e h = ground arith

  -- In the C locale, where every allocation is served: what ur_encoder_encode_single writes for a UR
  -- type in lower case and bytes, a decoder in any state but the three terminal ones, UR_DECODER_OK,
  -- UR_DECODER_NO_RESULT and UR_DECODER_ERROR_INVALID_CHECKSUM, that expects no type yet and has no
  -- complete message reads as a result of this type and these bytes.
  pub ur_decoder_get_result-ur_encoder_encode_single :
      (d : UrDecoder) (type cbor ur : List ℕ)
      → d.state ≢ ok
      → d.state ≢ no_result
      → d.state ≢ error_invalid_checksum
      → d.expected_type ≡ none
      → fountain_decoder_is_complete d.fountain_decoder ≡ false
      → is_ur_type p.islower p.isdigit type ≡ true
      → str_to_lower p.tolower type ≡ type
      → IsPart type
      → All IsByte cbor
      → ur_encoder_encode_single w type cbor ≡ some ur
      → ur_decoder_get_result (ur_decoder_receive_part p d (some ur)) ≡ some (result_of type cbor)
  ur_decoder_get_result-ur_encoder_encode_single d type cbor ur s₁ s₂ s₃ e f h t part bytes
        written =
      let pos = (encoded_text type cbor ur written).0 in
      let body : List ℕ = lowered (body_of cbor) in
      let parsed =
        parse_ur_string-path_text p.machine.alloc served p.islower p.isdigit p.pointer_size pointers
          p.tolower ur type body [] (encoded_lowered type cbor ur written t) h part
          (body-IsPart cbor pos bytes, tt) (omega arith) in
      ap ur_decoder_get_result (
        string_parsed d ur (open_state d.state s₁ s₂ s₃) f
        ∙ ap (receive_parsed p (record d { state = processing })) parsed)
      ∙ received_single (record d { state = processing }) type body cbor e h
          (body_decoded cbor pos bytes)
