-- ===== src/UrDecoder.antt =====
-- The UR decoder of src/ur_decoder.c: its states and the parts that it receives.
pub mod Header
pub mod Consistent
pub mod Handlers
pub mod Received
pub mod Kept
pub mod Multipart
pub mod Reachable
use c_ur.Base.{
  ℕ, zero, suc, ◌+◌, ◌-◌, ◌*◌, ◌^◌, Bool, true, false, List, [], ◌∷◌, length, take, drop, ltb, leb,
  ◌==◌, ◌||◌, ◌&&◌, not, if◌then◌else◌, Option, none, some, ◌>>=◌,
}
use c_ur.ByteBuffer.{safe_malloc}
use c_ur.UrString.{parse_ur_string, parse_sequence_component, is_ur_type}
use c_ur.Bytewords.{bytewords_decode_raw}
use c_ur.Fountain.PartCbor.{Part}
use c_ur.UrDecoder.Header.{read_part, ur_max_seq_len}
use c_ur.Fountain.Decoder.State.{
  Machine, Decoder, is_some, fountain_decoder_new, fountain_decoder_is_complete,
  fountain_decoder_is_success, fountain_decoder_result_message_len,
  fountain_decoder_take_result_message,
}
use c_ur.Fountain.Decoder.Receive.{
  fountain_decoder_receive_part, fountain_decoder_expected_part_count,
  fountain_decoder_processed_parts_count, fountain_decoder_received_parts_count,
}

-- ur_decoder_state_t, without the state that is reported for a decoder that is NULL.
pub data DecoderState : Type 0 where
  ok : DecoderState
  processing : DecoderState
  no_result : DecoderState
  error_invalid_scheme : DecoderState
  error_invalid_type : DecoderState
  error_invalid_path_length : DecoderState
  error_invalid_sequence_component : DecoderState
  error_invalid_fragment : DecoderState
  error_invalid_part : DecoderState
  error_invalid_checksum : DecoderState
  error_memory : DecoderState
  error_null_pointer : DecoderState

unfoldable pub ur_decoder_state_is_terminal : DecoderState → Bool
ur_decoder_state_is_terminal ok = true
ur_decoder_state_is_terminal no_result = true
ur_decoder_state_is_terminal error_invalid_checksum = true
ur_decoder_state_is_terminal _ = false

-- The number of a state, by which it is an error or not.
unfoldable pub state_code : DecoderState → ℕ
state_code ok = 0
state_code processing = 1
state_code no_result = 2
state_code error_invalid_scheme = 16
state_code error_invalid_type = 17
state_code error_invalid_path_length = 18
state_code error_invalid_sequence_component = 19
state_code error_invalid_fragment = 20
state_code error_invalid_part = 21
state_code error_invalid_checksum = 22
state_code error_memory = 23
state_code error_null_pointer = 24

unfoldable pub ur_decoder_state_is_error : DecoderState → Bool
ur_decoder_state_is_error s = leb 16 (state_code s)

-- ur_result_t
pub record UrResult : Type 0 where
  pub type_name : List ℕ
  pub cbor_data : List ℕ
  pub cbor_len : ℕ

pub record UrDecoder : Type 0 where
  pub fountain_decoder : Decoder
  pub expected_type : Option (List ℕ)
  pub result : Option UrResult
  pub state : DecoderState

-- What the decoder calls of the C library, and the sizes of what it allocates.
pub record Platform : Type 0 where
  pub machine : Machine
  pub tolower : ℕ → ℕ
  pub islower : ℕ → Bool
  pub isdigit : ℕ → Bool
  pub strtoul : List ℕ → ℕ × List ℕ
  pub pointer_size : ℕ
  pub result_size : ℕ
  pub decoder_size : ℕ
  pub part_size : ℕ

abbrev pub with_fountain : Option Decoder → Option UrDecoder
with_fountain none = none
with_fountain (some fountain) = some (record {
  fountain_decoder = fountain;
  expected_type = none;
  result = none;
  state = processing;
})

module _ (p : Platform) where
  unfoldable pub ur_decoder_new : Option UrDecoder
  ur_decoder_new =
      if safe_malloc p.machine.alloc p.decoder_size
      then with_fountain (fountain_decoder_new p.machine)
      else none

-- strcmp gives 0.
unfoldable pub same_bytes : List ℕ → List ℕ → Bool
same_bytes [] [] = true
same_bytes [] (y ∷ ys) = false
same_bytes (x ∷ xs) [] = false
same_bytes (x ∷ xs) (y ∷ ys) = let rest = same_bytes xs ys in if x == y then rest else false

-- safe_strdup
abbrev pub duplicated : (ℕ → Bool) → Option (List ℕ) → Option (List ℕ)
duplicated alloc none = none
duplicated alloc (some str) = if safe_malloc alloc (length str + 1) then some str else none

module _ (p : Platform) where
  -- The type of a part against the one that is expected, if there is one.
  unfoldable pub validate_against : UrDecoder → List ℕ → Option (List ℕ) → UrDecoder × Bool
  validate_against d type none =
      if is_ur_type p.islower p.isdigit type
      then if safe_malloc p.machine.alloc (length type + 1)
        then (record d { expected_type = some type }, true)
        else (record d { state = error_memory }, false)
      else (record d { state = error_invalid_type }, false)
  validate_against d type (some expected) =
      if same_bytes expected type
      then (d, true)
      else (record d { state = error_invalid_type }, false)

  unfoldable pub validate_part_type : UrDecoder → List ℕ → UrDecoder × Bool
  validate_part_type d type = validate_against d type d.expected_type

  -- decode_single_part: the body decoded, with a copy of the type.
  unfoldable pub decode_single_part : List ℕ → List ℕ → Option UrResult
  decode_single_part type body = do
    bytes ← bytewords_decode_raw p.machine.alloc p.tolower body
    type' ←
        if safe_malloc p.machine.alloc p.result_size
        then duplicated p.machine.alloc (some type)
        else none
    some (record { type_name = type'; cbor_data = bytes; cbor_len = length bytes })

  -- The message that was taken, in a result of this type.
  unfoldable pub take_result : UrDecoder → List ℕ → ℕ → Option (List ℕ) → UrDecoder
  take_result d type len none = record d { state = no_result }
  take_result d type len (some message) =
      if len == 0 then record d { state = no_result } else record d {
        result = some (record { type_name = type; cbor_data = message; cbor_len = len });
        state = ok;
      }

  unfoldable pub finalize_typed : UrDecoder → Option (List ℕ) → UrDecoder
  finalize_typed d none = record d { state = error_memory }
  finalize_typed d (some type) =
      let taken = fountain_decoder_take_result_message d.fountain_decoder in
      take_result (record d { fountain_decoder = taken.1 }) type
        (fountain_decoder_result_message_len d.fountain_decoder) taken.0

  -- finalize_fountain_result, and the state that the caller stores.
  unfoldable pub finalize_fountain_result : UrDecoder → UrDecoder
  finalize_fountain_result d =
      let typed = finalize_typed d (
        if safe_malloc p.machine.alloc p.result_size
        then duplicated p.machine.alloc d.expected_type
        else none) in
      if fountain_decoder_is_success d.fountain_decoder
      then typed
      else record d { state = error_invalid_checksum }

  -- What follows the call of the fountain decoder.
  unfoldable pub after_fountain : UrDecoder → Decoder × Bool → UrDecoder
  after_fountain d (fountain, false) = record d {
    fountain_decoder = fountain;
    state = error_invalid_part;
  }
  after_fountain d (fountain, true) =
      let d' : UrDecoder = record d { fountain_decoder = fountain } in
      if fountain_decoder_is_complete fountain then finalize_fountain_result d' else d'

  -- create_fountain_part_from_cbor fails only for want of memory here.
  unfoldable pub receive_fragment : UrDecoder → Option Part → UrDecoder
  receive_fragment d none = record d { state = error_invalid_fragment }
  receive_fragment d (some part) =
      if safe_malloc p.machine.alloc p.part_size
      then after_fountain d (fountain_decoder_receive_part p.machine d.fountain_decoder part)
      else record d { state = error_memory }

  unfoldable pub receive_numbered : UrDecoder → List ℕ → Option (ℕ × ℕ) → UrDecoder
  receive_numbered d body none = record d { state = error_invalid_sequence_component }
  receive_numbered d body (some (seq_num, seq_len)) =
      if (seq_len == 0) || ltb ur_max_seq_len seq_len
      then record d { state = error_invalid_sequence_component }
      else receive_fragment d
          (bytewords_decode_raw p.machine.alloc p.tolower body >>= read_part seq_num seq_len)

  unfoldable pub store_single : UrDecoder → Option UrResult → UrDecoder
  store_single d none = record d { result = none; state = error_invalid_fragment }
  store_single d (some r) = record d { result = some r; state = ok }

  unfoldable pub receive_components : UrDecoder → List ℕ → List (List ℕ) → UrDecoder
  receive_components d type (body ∷ []) = store_single d (decode_single_part type body)
  receive_components d type (sequence ∷ body ∷ []) =
      receive_numbered d body
        (parse_sequence_component p.machine.alloc p.pointer_size p.strtoul sequence)
  receive_components d type _ = record d { state = error_invalid_path_length }

  unfoldable pub receive_validated : List ℕ → List (List ℕ) → UrDecoder × Bool → UrDecoder
  receive_validated type components (d, false) = d
  receive_validated type components (d, true) = receive_components d type components

  unfoldable pub receive_parsed : UrDecoder → Option (List ℕ × List (List ℕ)) → UrDecoder
  receive_parsed d none = record d { state = error_invalid_scheme }
  receive_parsed d (some (type, components)) =
      receive_validated type components (validate_part_type d type)

  unfoldable pub receive_string : UrDecoder → Option (List ℕ) → UrDecoder
  receive_string d none = record d { state = error_null_pointer }
  receive_string d (some part_str) =
      let d' : UrDecoder = record d { state = processing } in
      if fountain_decoder_is_complete d.fountain_decoder
      then finalize_fountain_result d'
      else receive_parsed d'
          (parse_ur_string p.machine.alloc p.islower p.isdigit p.pointer_size p.tolower part_str)

  -- The state that is returned is that of the decoder afterwards; no string is NULL.
  unfoldable pub ur_decoder_receive_part : UrDecoder → Option (List ℕ) → UrDecoder
  ur_decoder_receive_part d part_str =
      if ur_decoder_state_is_terminal d.state then d else receive_string d part_str

-- ur_decoder_get_result
unfoldable pub ur_decoder_get_result : UrDecoder → Option UrResult
ur_decoder_get_result d = if state_code d.state == 0 then d.result else none

unfoldable pub ur_decoder_expected_part_count : UrDecoder → ℕ
ur_decoder_expected_part_count d = fountain_decoder_expected_part_count d.fountain_decoder

unfoldable pub ur_decoder_processed_parts_count : UrDecoder → ℕ
ur_decoder_processed_parts_count d = fountain_decoder_processed_parts_count d.fountain_decoder

unfoldable pub ur_decoder_received_parts_count : UrDecoder → ℕ
ur_decoder_received_parts_count d = fountain_decoder_received_parts_count d.fountain_decoder
