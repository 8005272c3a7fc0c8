-- ===== src/Fountain/Decoder/Assembly.antt =====
-- The message put together from the simple parts: add_simple_part and the end of process_simple_part
-- of src/fountain_decoder.c.
use c_ur.Base.{ℕ, ◌+◌, ◌-◌, ◌*◌, Bool, true, false, List, [], ◌∷◌, ◌++◌, length, take, drop}
use c_ur.Base.{ltb, ◌==◌, if◌then◌else◌, Option, none, some}
use c_ur.ByteBuffer.{safe_malloc}
use c_ur.Crc32.{crc32_calculate}
use c_ur.Fountain.Indexes.{PartIndexes, part_indexes_add, part_indexes_contains, part_indexes_equal}
use c_ur.Fountain.Parts.{DecoderPart, is_simple_part, get_part_index, decoder_part_copy}
use c_ur.Fountain.Decoder.State.{Machine, FountainResult, SimplePart, SimpleParts, Decoder}

unfoldable pub has_key : List SimplePart → ℕ → Bool
has_key [] index = false
has_key (p ∷ ps) index = let rest = has_key ps index in if p.key == index then true else rest

-- SIMPLE_PARTS_INITIAL_CAPACITY
abbrev pub simple_parts_initial_capacity : ℕ
simple_parts_initial_capacity = 4

abbrev pub next_simple_capacity : ℕ → ℕ
next_simple_capacity capacity =
    if capacity == 0 then simple_parts_initial_capacity else capacity * 2

module _ (m : Machine) where
  -- The three arrays grow one after the other; size_t has 8 bytes.
  unfoldable pub simple_room : SimpleParts → SimpleParts × Bool
  simple_room s =
      let capacity = next_simple_capacity s.capacity in
      if ltb (length s.stored) s.capacity
      then (s, true)
      else if m.alloc (8 * capacity)
      then if m.alloc (m.part_size * capacity)
        then (record s { capacity = capacity }, true)
        else (s, false)
      else (s, false)

  unfoldable pub store_copy : DecoderPart → SimpleParts → Option DecoderPart → SimpleParts × Bool
  store_copy part s none = (s, false)
  store_copy part s (some copy) =
      let stored' : List SimplePart =
        s.stored
        ++ record { key = get_part_index part; value = copy; value_len = length part.payload }
          ∷ [] in
      (record s { stored = stored' }, true)

  unfoldable pub store_simple : DecoderPart → SimpleParts × Bool → SimpleParts × Bool
  store_simple part (s, true) = store_copy part s (decoder_part_copy m.array_alloc m.alloc part)
  store_simple part (s, false) = (s, false)

  unfoldable pub add_simple_part : SimpleParts → DecoderPart → SimpleParts × Bool
  add_simple_part s part =
      if is_simple_part part
      then if has_key s.stored (get_part_index part)
        then (s, true)
        else store_simple part (simple_room s)
      else (s, false)

-- The while loop of the insertion sort: the sorted places from j - 1 down, the nearest first.
unfoldable pub shift_in : List SimplePart → SimplePart → List SimplePart
shift_in [] v = v ∷ []
shift_in (p ∷ ps) v = let rest = shift_in ps v in if ltb v.key p.key then p ∷ rest else v ∷ p ∷ ps

unfoldable pub onto : List SimplePart → List SimplePart → List SimplePart
onto [] out = out
onto (p ∷ ps) out = onto ps (p ∷ out)

-- The for loop: `sorted` are the places before i, from the last one down.
unfoldable pub sort_loop : List SimplePart → List SimplePart → List SimplePart
sort_loop sorted [] = onto sorted []
sort_loop sorted (v ∷ rest) = sort_loop (shift_in sorted v) rest

abbrev pub sort_parts : List SimplePart → List SimplePart
sort_parts parts = sort_loop [] parts

-- What one pass of the join copies; a part without data is passed over.
unfoldable pub copied_part : ℕ → List ℕ → List ℕ → List ℕ
copied_part message_len out payload =
    let copy_len =
      if ltb message_len (length out + length payload)
      then message_len - length out
      else length payload in
    out ++ take copy_len payload

-- The inline join: `out` is message[0 .. offset).
unfoldable pub copy_loop : List SimplePart → ℕ → List ℕ → List ℕ
copy_loop [] message_len out = out
copy_loop (p ∷ ps) message_len out =
    let more = copy_loop ps message_len (copied_part message_len out p.value.payload) in
    if ltb (length out) message_len then more else out

module _ (m : Machine) where
  -- The whole block: what was copied, and behind it what stood there.
  unfoldable pub message_of : List SimplePart → ℕ → List ℕ
  message_of parts message_len =
      let copied = copy_loop parts message_len [] in
      copied ++ drop (length copied) (m.garbage message_len)

  unfoldable pub outcome_of : List ℕ → ℕ → ℕ → Option FountainResult
  outcome_of message message_len checksum =
      if safe_malloc m.alloc m.result_size
      then if crc32_calculate message == checksum
        then some (record {
          bytes = some message;
          bytes_len = message_len;
          is_success = true;
          is_error = false;
        })
        else some (record { bytes = none; bytes_len = 0; is_success = false; is_error = true })
      else none

  -- What follows the test that all parts are there. The sorted parts stay sorted.
  unfoldable pub assemble : Decoder → Decoder
  assemble d =
      let sorted = sort_parts d.simple_parts.stored in
      let d' : Decoder = record d {
        simple_parts = record { stored = sorted; capacity = d.simple_parts.capacity };
      } in
      let message = message_of sorted d.expected_message_len in
      if safe_malloc m.alloc d.expected_message_len
      then record d' { outcome = outcome_of message d.expected_message_len d.expected_checksum }
      else d'

  unfoldable pub try_assemble : Option PartIndexes → Decoder → Decoder
  try_assemble none d = d
  try_assemble (some expected) d =
      if part_indexes_equal d.received_part_indexes expected then assemble d else d

  unfoldable pub process_simple_part : Decoder → DecoderPart → Decoder
  process_simple_part d part =
      let index = get_part_index part in
      let added = add_simple_part m d.simple_parts part in
      let received = part_indexes_add m.array_alloc d.received_part_indexes index in
      if is_simple_part part
      then if part_indexes_contains d.received_part_indexes index
        then d
        else if added.1
        then if received.1
          then try_assemble d.expected_part_indexes
              (record d { simple_parts = added.0; received_part_indexes = received.0 })
          else record d { simple_parts = added.0; received_part_indexes = received.0 }
        else record d { simple_parts = added.0 }
      else d
