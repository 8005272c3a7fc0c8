-- ===== src/Lib.antt =====
-- cUR: Uniform Resources in C, its encodings modelled and verified.
--
-- The program turns a binary payload into strings for QR codes and back. A payload is a CBOR item
-- (src/types/cbor_data.c, cbor_encoder.c, cbor_decoder.c, over the growing buffer of
-- src/types/byte_buffer.c); a part of it is written as bytewords, pairs of letters with a CRC-32 at
-- the end (src/bytewords.c, src/crc32.c).
--
-- Which module models what:
--   Base: shared names, Boolean tests, lists by native numbers, the bit operations as arithmetic.
--   ByteBuffer: byte_buffer_t as its contents and its capacity, byte_buffer_new,
--     byte_buffer_append with its growth loop, and safe_malloc of src/utils.c.
--   Crc32: crc32_calculate with crc32_table (the default build); Crc32.Bitwise is the standard's
--     CRC-32, one bit at a time.
--   Bytewords: bytewords_encode and bytewords_decode_raw with both tables of src/bytewords.c.
--   Cbor.Value: cbor_value_t as data, with cbor_array_append, cbor_map_set and cbor_map_get.
--   Cbor.Encode: encode_head, encode_value and cbor_encode; a step returns the buffer and the
--     C function's result, and a failed step ends the run with the buffer as it is.
--   Cbor.Decode: the decoder; its state is the list of bytes from `offset` on, NULL is `none`.
--   Cbor.Spec: the canonical bytes of a value, and the values within the decoder's limits.
--
--   UrString: the string functions of src/utils.c, parse_ur_string and parse_sequence_component.
--   Fountain.Fragments: the fragment length and the partition of src/fountain_encoder.c, and
--     join_fragments of src/fountain_utils.c.
--   Fountain.Indexes: part_indexes_t, its binary search and insertion (src/fountain_decoder.c), and
--     difference, strict subset, equality and copy (src/fountain_utils.c).
--   Fountain.HashSet: the hash of a set of indexes and the set of hashes of src/fountain_decoder.c.
--   Fountain.PartCbor: the small CBOR encoder of src/fountain_encoder.c, up to
--     fountain_encoder_part_to_cbor.
--   Fountain.Prng: prng_init_from_bytes and prng_next_uint64 of src/fountain_utils.c.
--   Fountain.Choose: choose_fragments of src/fountain_utils.c.
--   Fountain.Xor: the portable ur_xor and ur_xor_inplace of src/utils.c.
--   Fountain.Parts: decoder_part_t with its copy and reduction (src/fountain_decoder.c), and
--     mix_fragments (src/fountain_encoder.c).
--   Fountain.Queue: part_queue_t, the ring of parts of src/fountain_decoder.c.
--   Fountain.Mixed: the table of mixed parts of src/fountain_decoder.c, with mixed_hash_put and
--     reduce_mixed_by; a chain is a list of entries, and a walk passes on the queue, the count and
--     the entries put aside.
--   Fountain.Decoder.State, Assembly, Process, Receive: fountain_decoder_t, add_simple_part and the
--     assembly of the message, the queue worked off, and fountain_decoder_receive_part; the other
--     modules below Fountain.Decoder hold the proofs.
--   Fountain.Encoder: fountain_encoder_t, fountain_encoder_new and fountain_encoder_next_part.
--   Fountain.Transfer: the parts of an encoder given to a decoder.
--   UrDecoder: ur_decoder_t and ur_decoder_receive_part of src/ur_decoder.c; UrDecoder.Header is the
--     CBOR of a part as it is read there, and UrDecoder.Multipart takes the part to the fountain decoder.
--   UrEncoder: src/ur_encoder.c.
--
-- A UR string is parsed by UrString, decoded by Bytewords, its header read by UrDecoder.Header, and the
-- part given to Fountain.Decoder; UrEncoder goes the other way over Fountain.Encoder.
--
-- Conventions: bytes and words are native numbers with the wrap-around written out; size_t has 64
-- bits; a C string is the list of its bytes before the terminating zero. The platform's allocator is
-- a parameter `alloc`, which says whether a block of a given size is handed out; the allocations of
-- single CBOR nodes, of their pointer arrays and of fragments, are taken to succeed; for an array of
-- indexes `alloc` is asked by the number of indexes. `tolower`, `islower`, `isdigit` and `strtoul` of
-- the C library are parameters; for bytewords `tolower` behaves as the C locale fixes it.
-- A pointer has 64 bits, in the sizes of the objects that the codec allocates. NULL arguments are not
-- modelled: a caller's value is always there, but for the string given to the UR decoder and the data
-- of a part, which are NULL exactly where the payload is empty: safe_malloc hands out no block of 0
-- bytes.
--
-- Bounds: the decoder recurs on the levels that CBOR_MAX_DEPTH leaves, 17 at the top. The growth loop
-- has 21 rounds of fuel, enough since a capacity of at least 1 doubles past 2 ^ 20 in 20 rounds. A
-- binary search has a round for each element, and takes at least one away in each; the loop over the
-- fragments has one for each byte, the difference of two sets one for each of their elements. The loop
-- over the decoder's queue has 3 rounds for each part in the queue and 2 for each entry of the table:
-- a part that is worked on leaves the queue, at most one entry or one simple part comes of a mixed
-- part, and an entry that leaves the table becomes at most one simple part.
--
-- The machine: what the decoder and the encoder call and the model does not define is a record,
-- Machine of Fountain.Decoder.State, and Platform and Writer above it: the allocator, the sizes of
-- blocks, what stands in a block that is not initialised, and the fragments that are chosen, which
-- Fountain.Transfer takes to be those of choose_fragments.
--
-- Not modelled: the draws that compute with doubles (prng_next_int, the alias sampler), which are
-- parameters of choose_fragments, together with what is read behind the indexes that are left when a
-- draw is out of range; the percentage estimates; DEBUG_STATS, the cross-reduction build and
-- the SIMD build of the XOR; the type codecs above CBOR and src/ur.c; SHA-256; the slice-by-8 build of
-- the CRC; base58; the MicroPython binding.
pub mod Base
pub mod ByteBuffer
pub mod Crc32
pub mod Bytewords
pub mod Cbor
pub mod Fountain
pub mod UrString
pub mod UrDecoder
pub mod UrEncoder
