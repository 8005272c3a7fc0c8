-- ===== src/Cbor/Tests.antt =====
-- Runs of the codec of src/types, and its theorems at concrete inputs.
use c_ur.Base.{
  ℕ, ◌+◌, ◌≤◌, Bool, true, false, List, [], ◌∷◌, ◌++◌, ◌≡◌, refl, none, some, length, arith,
}
use c_ur.Base.{if◌then◌else◌, leb, ◌==◌}
use c_ur.ByteBuffer.{byte_buffer_append, byte_buffer_new, grow}
use c_ur.ByteBuffer.{safe_malloc, max_capacity}
use c_ur.Cbor.Value.{
  Value, Pairs, unsigned_int, bytes, string, array, map, tag, bool, nil, cons, end, pair,
}
use c_ur.Cbor.Value.{cbor_value_new_bytes, cbor_value_new_string, c_string, cbor_array_append}
use c_ur.Cbor.Value.{cbor_map_set, cbor_map_get, set_pair, same_key}
use c_ur.Cbor.Encode.{encode_head, head_bytes, append_payload, encoded_bytes, cbor_encode}
use c_ur.Cbor.Decode.{
  decode_value, decode_level, decode_major, decode_array, decode_map, decode_tag,
}
use c_ur.Cbor.Decode.{decode_items, decode_pairs, decode_bytes, decode_string, decode_simple}
use c_ur.Cbor.Decode.{decode_unsigned_int, read_argument, cbor_decode, max_depth}
use c_ur.Cbor.Spec.{
  canonical_head, argument_size, additional_information, big_endian, encoding, Fits, Distinct,
}
use c_ur.Cbor.Appends.{cbor_encode-encoding}
use c_ur.Cbor.RoundTrip.{cbor_decode-cbor_encode}
use c_ur.Cbor.Sound.{cbor_decode-Fits, cbor_decode-canonical}
use c_ur.Cbor.Maps.{cbor_map_get-cbor_map_set}
use c_ur.Cbor.Refused.{decode_level-empty_bytes, decode_level-wide_int}

abbrev serves_all : ℕ → Bool
serves_all n = true

abbrev pair_list : Pairs
pair_list =
    pair (unsigned_int 1) (bytes (7 ∷ 8 ∷ []))
      (pair (unsigned_int 3) (array (cons (bool true) (cons (string (97 ∷ 98 ∷ [])) nil))) end)

abbrev sample : Value
sample = tag 308 (map pair_list)

abbrev sample_bytes : List ℕ
sample_bytes = 217 ∷ 1 ∷ 52 ∷ 162 ∷ 1 ∷ 66 ∷ 7 ∷ 8 ∷ 3 ∷ 130 ∷ 245 ∷ 98 ∷ 97 ∷ 98 ∷ []

encode_sample : cbor_encode serves_all sample ≡ some sample_bytes
unfolding cbor_encode encoded_bytes encode_head head_bytes append_payload byte_buffer_append
    byte_buffer_new grow
encode_sample = refl

decode_sample : cbor_decode serves_all sample_bytes ≡ some sample
unfolding cbor_decode decode_value decode_level decode_major decode_array decode_map decode_tag
    decode_items decode_pairs decode_bytes decode_string decode_simple decode_unsigned_int
    read_argument cbor_value_new_bytes cbor_value_new_string c_string cbor_array_append cbor_map_set
    set_pair same_key safe_malloc
decode_sample = refl

-- A repeated key keeps its place and takes the later value.
decode_repeated_key :
    cbor_decode serves_all (0xa2 ∷ 1 ∷ 2 ∷ 1 ∷ 3 ∷ [])
    ≡ some (map (pair (unsigned_int 1) (unsigned_int 3) end))
unfolding cbor_decode decode_value decode_level decode_major decode_array decode_map decode_tag
    decode_items decode_pairs decode_bytes decode_string decode_simple decode_unsigned_int
    read_argument cbor_value_new_bytes cbor_value_new_string c_string cbor_array_append cbor_map_set
    set_pair same_key safe_malloc
decode_repeated_key = refl

-- A number may be written with more bytes than it needs.
decode_padded : cbor_decode serves_all (0x18 ∷ 5 ∷ []) ≡ some (unsigned_int 5)
unfolding cbor_decode decode_value decode_level decode_major decode_array decode_map decode_tag
    decode_items decode_pairs decode_bytes decode_string decode_simple decode_unsigned_int
    read_argument cbor_value_new_bytes cbor_value_new_string c_string cbor_array_append cbor_map_set
    set_pair same_key safe_malloc
decode_padded = refl

sample-Fits : Fits (max_depth + 1) sample
unfolding Fits same_key
sample-Fits = ground arith

cbor_decode-cbor_encode_example :
    (bs : List ℕ) × (cbor_encode serves_all sample ≡ some bs)
    × (cbor_decode serves_all (bs ++ (9 ∷ [])) ≡ some sample)
unfolding encoding canonical_head argument_size additional_information big_endian
cbor_decode-cbor_encode_example =
    cbor_decode-cbor_encode serves_all sample (9 ∷ []) (λ n. refl) sample-Fits (omega arith)

cbor_decode-Fits_example :
    Fits (max_depth + 1) (unsigned_int 5) × (length (encoding (unsigned_int 5)) ≤ 2)
cbor_decode-Fits_example =
    cbor_decode-Fits serves_all (0x18 ∷ 5 ∷ []) (unsigned_int 5) (omega arith) decode_padded

cbor_decode-canonical_example :
    (bs : List ℕ) × (cbor_encode serves_all (unsigned_int 5) ≡ some bs)
    × (cbor_decode serves_all bs ≡ some (unsigned_int 5))
cbor_decode-canonical_example =
    cbor_decode-canonical serves_all (0x18 ∷ 5 ∷ []) (unsigned_int 5) (λ n. refl) (omega arith)
      (omega arith) decode_padded

cbor_encode-encoding_example :
    cbor_encode serves_all sample
    ≡ (if leb (length (encoding sample)) max_capacity then some (encoding sample) else none)
cbor_encode-encoding_example = cbor_encode-encoding serves_all sample (λ n. refl)

cbor_map_get-cbor_map_set_example :
    (qs : Pairs) × (cbor_map_set (map pair_list) (unsigned_int 3) (bool false) ≡ some (map qs))
    × (cbor_map_get (map qs) (unsigned_int 1)
        ≡ (if 3 == 1 then some (bool false) else cbor_map_get (map pair_list) (unsigned_int 1)))
    × Distinct qs
unfolding same_key
cbor_map_get-cbor_map_set_example =
    cbor_map_get-cbor_map_set pair_list 3 1 (bool false) ((refl, tt), (tt, tt))

decode_level-empty_bytes_example :
    decode_level serves_all 17 (encoding (bytes []) ++ (1 ∷ [])) ≡ none
decode_level-empty_bytes_example = decode_level-empty_bytes serves_all 17 (1 ∷ [])

decode_level-wide_int_example :
    decode_level serves_all 17 (encoding (unsigned_int 5000000000) ++ []) ≡ none
decode_level-wide_int_example = decode_level-wide_int serves_all 17 5000000000 [] (omega arith)
