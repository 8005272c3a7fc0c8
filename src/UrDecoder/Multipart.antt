-- ===== src/UrDecoder/Multipart.antt =====
-- A part as src/ur_decoder.c takes it from the text and gives it to the fountain decoder.
use c_ur.Base.{ℕ, ◌^◌, ◌≤◌, ◌<◌, ◌≡◌, ap, ◌∙◌, arith, Bool, true, List, [], ◌∷◌, length, some}
use c_ur.ByteBuffer.{safe_malloc}
use c_ur.Bytewords.{bytewords_decode_raw}
use c_ur.UrString.{parse_sequence_component}
use c_ur.Fountain.PartCbor.{Part, fountain_encoder_part_to_cbor}
use c_ur.Fountain.Decoder.Receive.{fountain_decoder_receive_part}
use c_ur.UrDecoder.Header.{ur_max_seq_len, ur_max_message_len, read_part}
use c_ur.UrDecoder.Header.RoundTrip.{read_part-fountain_encoder_part_to_cbor}
use c_ur.UrDecoder.{
  UrDecoder, Platform, after_fountain, receive_fragment, receive_numbered, receive_components,
}

module _ (p : Platform) where
  numbered_read :
      (d : UrDecoder) (body cbor : List ℕ) (part : Part)
      → 0 < part.seq_len
      → part.seq_len ≤ ur_max_seq_len
      → safe_malloc p.machine.alloc p.part_size ≡ true
      → bytewords_decode_raw p.machine.alloc p.tolower body ≡ some cbor
      → read_part part.seq_num part.seq_len cbor ≡ some part
      → receive_numbered p d body (some (part.seq_num, part.seq_len))
        ≡ after_fountain p d (fountain_decoder_receive_part p.machine d.fountain_decoder part)
  unfolding receive_numbered receive_fragment
  numbered_read d body cbor part pos max room e f = ground (arith, e, f)

  -- A part with data, whose message is not empty and within the bound of the decoder, whose sequence
  -- length is from 1 to UR_MAX_SEQ_LEN, and whose numbers and length have 32 bits: where the sequence
  -- component of a UR is read as its two numbers, the body decodes to the CBOR that
  -- fountain_encoder_part_to_cbor writes for it, and its record can be allocated, the UR decoder gives
  -- exactly this part to its fountain decoder.
  pub receive_components-fountain_encoder_part_to_cbor :
      (d : UrDecoder) (type sequence body cbor : List ℕ) (part : Part) (alloc : ℕ → Bool)
      → 0 < length part.payload
      → length part.payload < 2 ^ 32
      → part.seq_num < 2 ^ 32
      → part.checksum < 2 ^ 32
      → 0 < part.seq_len
      → part.seq_len ≤ ur_max_seq_len
      → 0 < part.message_len
      → part.message_len ≤ ur_max_message_len
      → safe_malloc p.machine.alloc p.part_size ≡ true
      → fountain_encoder_part_to_cbor alloc part ≡ some cbor
      → bytewords_decode_raw p.machine.alloc p.tolower body ≡ some cbor
      → parse_sequence_component p.machine.alloc p.pointer_size p.strtoul sequence
        ≡ some (part.seq_num, part.seq_len)
      → receive_components p d type (sequence ∷ body ∷ [])
        ≡ after_fountain p d (fountain_decoder_receive_part p.machine d.fountain_decoder part)
  unfolding receive_components
  receive_components-fountain_encoder_part_to_cbor d type sequence body cbor part alloc has_data
        data_len num sum len max_len message max_message room written decoded parsed =
      ap (receive_numbered p d body) parsed
      ∙ numbered_read d body cbor part len max_len room decoded (
          read_part-fountain_encoder_part_to_cbor part alloc cbor has_data data_len num
            (omega arith) sum message max_message written)
