-- ===== src/Fountain/Tests.antt =====
-- Runs of the fountain coder at concrete inputs, and the instances of its theorems.
use c_ur.Base.{
  ℕ, ◌≤◌, ◌≡◌, refl, ◌/◌, List, [], ◌∷◌, length, All, some, none, if◌then◌else◌, ◌^◌, arith,
}
use c_ur.Fountain.Fragments.{
  nominal_loop, find_nominal_fragment_length, fragment, partition_loop, partition_message,
  fragment_capacity, join_loop, join_fragments,
}
use c_ur.Fountain.Fragments.Nominal.{IsNominal, find_nominal_fragment_length-IsNominal}
use c_ur.Fountain.Fragments.Joined.{all_some, join_fragments-partition_message}
use c_ur.Base.{Bool, true, false, leb, ◌↔◌}
use c_ur.Fountain.Indexes.{
  PartIndexes, search, insert_at, with_room, store_at, part_indexes_contains, part_indexes_add,
  part_indexes_append_sorted, part_indexes_clear, difference_loop, part_indexes_difference,
  subset_loop, part_indexes_is_strict_subset, part_indexes_equal, same_indexes, part_indexes_copy,
}
use c_ur.Fountain.Indexes.Sorted.{has}
use c_ur.Fountain.Indexes.Search.{part_indexes_contains-has}
use c_ur.Fountain.Indexes.Insert.{IsIndexSet, Added, part_indexes_add-IsIndexSet}
use c_ur.Fountain.Indexes.Difference.{Subtracted, part_indexes_difference-IsIndexSet}
use c_ur.Fountain.Indexes.Subset.{
  Includes, part_indexes_is_strict_subset_iff, part_indexes_equal_iff,
}
use c_ur.Fountain.HashSet.{
  HashSet, hash_set_init, hash_set_add, hash_set_insert, hash_indexes, hash_loop,
}
use c_ur.Fountain.HashSet.Laws.{IsHashSet, hash_set_add-IsHashSet}
use c_ur.Fountain.HashSet.Laws as HashLaws
use c_ur.ByteBuffer.{safe_malloc}
use c_ur.Cbor.Spec.{encoding}
use c_ur.Fountain.PartCbor.{
  Part, fountain_encoder_part_to_cbor, encode_part, encode_array_start, encode_unsigned,
  encode_bytes, encode_tag_and_value, append_byte, ensure_capacity, get_byte_length, long_head,
  get_buffer,
}
use c_ur.Fountain.PartCbor.Canonical.{part_value, fountain_encoder_part_to_cbor-encoding}
use c_ur.Fountain.Prng.{rotl, read_word, prng_init_from_bytes, prng_next_uint64}

nominal_fits : find_nominal_fragment_length 100 10 30 ≡ 25
unfolding find_nominal_fragment_length nominal_loop
nominal_fits = refl

-- No length between the two bounds exists, and the result is above the maximum.
nominal_above_maximum : find_nominal_fragment_length 19 10 10 ≡ 19
unfolding find_nominal_fragment_length nominal_loop
nominal_above_maximum = refl

nominal_short_message : find_nominal_fragment_length 9 10 30 ≡ 0
unfolding find_nominal_fragment_length nominal_loop
nominal_short_message = refl

abbrev five_bytes : List ℕ
five_bytes = 7 ∷ 8 ∷ 9 ∷ 10 ∷ 11 ∷ []

partition_pads :
    partition_message five_bytes 2 ≡ some ((7 ∷ 8 ∷ []) ∷ (9 ∷ 10 ∷ []) ∷ (11 ∷ 0 ∷ []) ∷ [])
unfolding partition_message partition_loop fragment
partition_pads = refl

join_missing :
    join_fragments (some (7 ∷ 8 ∷ []) ∷ none ∷ some (11 ∷ 0 ∷ []) ∷ []) 3 ≡ some (7 ∷ 8 ∷ 11 ∷ [])
unfolding join_fragments join_loop
join_missing = refl

find_nominal_fragment_length-IsNominal_example :
    IsNominal 100 (100 / 10) 30 (find_nominal_fragment_length 100 10 30)
    × (10 ≤ find_nominal_fragment_length 100 10 30)
    × (find_nominal_fragment_length 100 10 30 ≤ 100)
find_nominal_fragment_length-IsNominal_example =
    find_nominal_fragment_length-IsNominal 100 10 30 (omega arith) (omega arith) (omega arith)

join_fragments-partition_message_example :
    (frags : List (List ℕ)) × (partition_message five_bytes 2 ≡ some frags)
    × (length frags ≡ fragment_capacity (length five_bytes) 2)
    × All (λ f. length f ≡ 2) frags
    × (join_fragments (all_some frags) (length five_bytes) ≡ some five_bytes)
join_fragments-partition_message_example =
    join_fragments-partition_message five_bytes 2 (omega arith) (omega arith)

abbrev evens : PartIndexes
evens = record { indexes = 0 ∷ 2 ∷ 4 ∷ 6 ∷ []; capacity = 4 }

abbrev low : PartIndexes
low = record { indexes = 0 ∷ 2 ∷ []; capacity = 4 }

abbrev serves_all : ℕ → Bool
serves_all n = true

evens-IsIndexSet : IsIndexSet evens
evens-IsIndexSet = record {
  sorted = (
    (omega arith, (omega arith, (omega arith, tt))),
    ((omega arith, (omega arith, tt)), ((omega arith, tt), (tt, tt))),
  );
  fits = omega arith;
}

contains_four : part_indexes_contains evens 4 ≡ true
unfolding part_indexes_contains search
contains_four = refl

add_five :
    part_indexes_add serves_all evens 5
    ≡ (record { indexes = 0 ∷ 2 ∷ 4 ∷ 5 ∷ 6 ∷ []; capacity = 8 }, true)
unfolding part_indexes_add search with_room store_at insert_at
add_five = refl

add_refused : part_indexes_add (λ n. leb n 4) evens 5 ≡ (evens, false)
unfolding part_indexes_add search with_room store_at insert_at
add_refused = refl

difference_high :
    part_indexes_difference serves_all evens low evens
    ≡ (record { indexes = 4 ∷ 6 ∷ []; capacity = 4 }, true)
unfolding part_indexes_difference part_indexes_clear difference_loop part_indexes_append_sorted
    with_room store_at insert_at
difference_high = refl

low_subset : part_indexes_is_strict_subset low evens ≡ true
unfolding part_indexes_is_strict_subset subset_loop
low_subset = refl

evens_equal : part_indexes_equal evens evens ≡ true
unfolding part_indexes_equal same_indexes
evens_equal = refl

copy_grows :
    part_indexes_copy serves_all evens (record { indexes = []; capacity = 0 })
    ≡ (record { indexes = evens.indexes; capacity = 4 }, true)
unfolding part_indexes_copy part_indexes_clear
copy_grows = refl

part_indexes_contains-has_example : part_indexes_contains evens 5 ≡ has evens.indexes 5
part_indexes_contains-has_example = part_indexes_contains-has evens 5 evens-IsIndexSet.sorted

part_indexes_add-IsIndexSet_example : Added serves_all evens 5 (part_indexes_add serves_all evens 5)
part_indexes_add-IsIndexSet_example =
    part_indexes_add-IsIndexSet serves_all evens 5 evens-IsIndexSet

part_indexes_difference-IsIndexSet_example :
    Subtracted serves_all evens low (part_indexes_difference serves_all evens low evens)
part_indexes_difference-IsIndexSet_example =
    part_indexes_difference-IsIndexSet serves_all evens low evens evens-IsIndexSet.sorted
      ((omega arith, tt), (tt, tt))

part_indexes_is_strict_subset_iff_example :
    (part_indexes_is_strict_subset low evens ≡ true)
    ↔ (Includes evens.indexes low.indexes × ¬ Includes low.indexes evens.indexes)
part_indexes_is_strict_subset_iff_example =
    part_indexes_is_strict_subset_iff low evens ((omega arith, tt), (tt, tt))
      evens-IsIndexSet.sorted

part_indexes_equal_iff_example :
    (part_indexes_equal low evens ≡ true) ↔ (low.indexes ≡ evens.indexes)
part_indexes_equal_iff_example = part_indexes_equal_iff low evens

abbrev two_hashes : HashSet
two_hashes = record { hashes = 3 ∷ 9 ∷ []; capacity = 2 }

add_hash :
    hash_set_add serves_all two_hashes 5 ≡ (record { hashes = 3 ∷ 5 ∷ 9 ∷ []; capacity = 4 }, true)
unfolding hash_set_add hash_set_insert search insert_at
add_hash = refl

hash_of_two : hash_indexes (record { indexes = 1 ∷ 2 ∷ []; capacity = 4 }) ≡ 3766514163106717834
unfolding hash_indexes hash_loop
hash_of_two = refl

-- A set as the decoder makes it for a message of 1024 parts.
abbrev wide_set : HashSet
wide_set = record { hashes = []; capacity = 1024 }

wide_made : hash_set_init serves_all 1024 ≡ some wide_set
unfolding hash_set_init safe_malloc
wide_made = refl

hash_set_add-IsHashSet_example :
    HashLaws.Added serves_all wide_set 5 (hash_set_add serves_all wide_set 5)
hash_set_add-IsHashSet_example =
    hash_set_add-IsHashSet serves_all wide_set 5
      (HashLaws.hash_set_init-IsHashSet serves_all 1024 wide_set wide_made)

abbrev small_part : Part
small_part = record {
  seq_num = 7;
  seq_len = 3;
  message_len = 300;
  checksum = 0x12345678;
  payload = 1 ∷ 2 ∷ [];
}

small_part_bytes :
    fountain_encoder_part_to_cbor serves_all small_part
    ≡ some (0x85 ∷ 7 ∷ 3 ∷ 0x19 ∷ 1 ∷ 44 ∷ 0x1a ∷ 0x12 ∷ 0x34 ∷ 0x56 ∷ 0x78 ∷ 0x42 ∷ 1 ∷ 2 ∷ [])
unfolding fountain_encoder_part_to_cbor encode_part encode_array_start encode_unsigned encode_bytes
    encode_tag_and_value append_byte ensure_capacity get_byte_length long_head get_buffer
    safe_malloc
small_part_bytes = refl

fountain_encoder_part_to_cbor-encoding_example :
    fountain_encoder_part_to_cbor serves_all small_part
    ≡ (if safe_malloc serves_all 66 then some (encoding (part_value small_part)) else none)
fountain_encoder_part_to_cbor-encoding_example =
    fountain_encoder_part_to_cbor-encoding serves_all small_part

first_draw :
    prng_next_uint64 (record { state_0 = 1; state_1 = 2; state_2 = 3; state_3 = 4 })
    ≡ (record { state_0 = 7; state_1 = 0; state_2 = 262146; state_3 = 211106232532992 }, 11520)
unfolding prng_next_uint64 rotl
first_draw = refl

wide_draw :
    prng_next_uint64 (record {
      state_0 = 18446744073709551615;
      state_1 = 9223372036854775813;
      state_2 = 77;
      state_3 = 1099511627776;
    })
    ≡ (
      record {
        state_0 = 9223370937343148026;
        state_1 = 9223372036854775735;
        state_2 = 18446744073708896178;
        state_3 = 193514048585728;
      },
      29376,
    )
unfolding prng_next_uint64 rotl
wide_draw = refl

abbrev words : List ℕ
words = 1 ∷ 0 ∷ 0 ∷ 0 ∷ 0 ∷ 0 ∷ 0 ∷ 0 ∷ 0 ∷ 0 ∷ 0 ∷ 0 ∷ 0 ∷ 0 ∷ 0 ∷ 2 ∷ []

-- A seed of no bytes, with a hash of two words: what is missing counts as 0.
seeded :
    prng_init_from_bytes (λ seed. words) []
    ≡ record { state_0 = 2 ^ 56; state_1 = 2; state_2 = 0; state_3 = 0 }
unfolding prng_init_from_bytes read_word
seeded = refl
