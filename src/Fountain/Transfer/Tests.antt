-- ===== src/Fountain/Transfer/Tests.antt =====
-- A message of three bytes from the encoder to the decoder.
use c_ur.Fountain.Choose.{choose_fragments, draw_loop, all_indexes, remove_at}
use c_ur.Base.{inr, [], ◌∷◌, ◌≡◌, refl, arith, true, some}
use c_ur.ByteBuffer.{safe_malloc}
use c_ur.Crc32.{crc32_calculate, crc32_loop, crc32_byte}
use c_ur.Fountain.Fragments.{
  nominal_loop, find_nominal_fragment_length, fragment, partition_loop, partition_message,
}
use c_ur.Fountain.Indexes.{
  part_indexes_copy, part_indexes_add, search, store_at, with_room, insert_at,
}
use c_ur.Fountain.Parts.{no_indexes, mix_fragments, mix_chosen, mix_loop}
use c_ur.Fountain.Parts.Tests.{two_fragments}
use c_ur.Fountain.Xor.{ur_xor, ur_xor_inplace, word_loop, byte_loop, word_of, bytes_of}
use c_ur.Fountain.Decoder.State.{
  fountain_decoder_is_success, fountain_decoder_result_message, fountain_decoder_result_message_len,
}
use c_ur.Fountain.Decoder.Receive.{sampler_for}
use c_ur.Fountain.Decoder.Tests.{
  machine, message, part_1, part_3, fed_twice, start, new_start, fed_complete, no_hash, reads_zero,
  draws_first, two_degrees,
}
use c_ur.Fountain.Encoder.{
  Encoder, encoder_of, part_of, part_chosen, fountain_encoder_new, fountain_encoder_next_part,
}
use c_ur.Fountain.Encoder.Parts.{IsEncoderOf}
use c_ur.Fountain.Encoder.Created.{IsPartition, fountain_encoder_new-IsEncoderOf}
use c_ur.Fountain.Transfer.{begun, delivered, now, next, Transfer-fountain_decoder_result_message}

abbrev first_encoder : Encoder
first_encoder = record {
  message_len = 3;
  checksum = crc32_calculate message;
  fragment_len = 2;
  fragments = two_fragments;
  seq_num = 0;
  last_part_indexes = no_indexes;
  degree_sampler = 2;
}

new_first : fountain_encoder_new machine 104 message 2 0 1 ≡ some first_encoder
unfolding fountain_encoder_new encoder_of find_nominal_fragment_length nominal_loop
    partition_message partition_loop fragment sampler_for
new_first = refl

abbrev third_encoder : Encoder
third_encoder =
    (fountain_encoder_next_part machine (fountain_encoder_next_part machine first_encoder).0).0

written_1 : (fountain_encoder_next_part machine first_encoder).1 ≡ some part_1
unfolding choose_fragments draw_loop all_indexes remove_at part_indexes_add search store_at
    with_room insert_at fountain_encoder_next_part part_chosen part_of mix_fragments mix_chosen
    mix_loop safe_malloc ur_xor_inplace ur_xor word_loop byte_loop word_of bytes_of crc32_calculate
    crc32_loop crc32_byte
written_1 = refl

written_3 : (fountain_encoder_next_part machine third_encoder).1 ≡ some part_3
unfolding choose_fragments draw_loop all_indexes remove_at part_indexes_add search store_at
    with_room insert_at fountain_encoder_next_part part_chosen part_of mix_fragments mix_chosen
    mix_loop safe_malloc ur_xor_inplace ur_xor word_loop byte_loop word_of bytes_of crc32_calculate
    crc32_loop crc32_byte part_indexes_copy
written_3 = refl

Transfer-fountain_decoder_result_message_example :
    (fountain_decoder_is_success (fed_twice start) ≡ true)
    × (fountain_decoder_result_message (fed_twice start) ≡ some message)
    × (fountain_decoder_result_message_len (fed_twice start) ≡ 3)
unfolding fountain_encoder_next_part safe_malloc part_chosen choose_fragments part_indexes_add
    search store_at with_room mix_fragments mix_chosen insert_at mix_loop part_of
Transfer-fountain_decoder_result_message_example =
    Transfer-fountain_decoder_result_message no_hash reads_zero draws_first two_degrees machine
      (λ seq_num seq_len checksum sampler. refl) 104 message 2 0 1 first_encoder (1 ∷ 3 ∷ [])
      (fed_twice start) (λ c. refl) refl (omega arith)
      (omega arith, (omega arith, (omega arith, tt))) new_first (omega arith)
      (
        (omega arith, λ later. absurd (omega arith)),
        ((omega arith, λ later. inr (omega arith, inr (omega arith, tt))), tt),
      )
      (delivered (delivered (begun new_start) (next (next now)) written_3) now written_1)
      fed_complete

fountain_encoder_new-IsEncoderOf_example :
    IsEncoderOf message (find_nominal_fragment_length 3 1 2) two_fragments first_encoder
    × IsPartition message (find_nominal_fragment_length 3 1 2) two_fragments
fountain_encoder_new-IsEncoderOf_example =
    fountain_encoder_new-IsEncoderOf machine 104 message 2 0 1 first_encoder
      (omega arith, (omega arith, (omega arith, tt))) new_first
