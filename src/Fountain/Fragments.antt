-- ===== src/Fountain/Fragments.antt =====
-- A message in fragments of one length: fountain_encoder_find_nominal_fragment_length and
-- fountain_encoder_partition_message of src/fountain_encoder.c, join_fragments of
-- src/fountain_utils.c.
pub mod Nominal
pub mod Joined
use c_ur.Base.{
  ℕ, zero, suc, ◌+◌, ◌-◌, ◌/◌, Bool, ◌||◌, List, [], ◌∷◌, ◌++◌, length, take, drop, replicate,
}
use c_ur.Base.{ltb, leb, ◌==◌, if◌then◌else◌, Option, none, some}

-- The loop over fragment_count, from `count` on with `rounds` passes left.
unfoldable pub nominal_loop : ℕ → ℕ → ℕ → ℕ → ℕ → ℕ
nominal_loop zero count message_len max_len fragment_len = fragment_len
nominal_loop (suc rounds) count message_len max_len fragment_len =
    let len = (message_len + count - 1) / count in
    let rest = nominal_loop rounds (count + 1) message_len max_len len in
    if leb len max_len then len else rest

unfoldable pub find_nominal_fragment_length : ℕ → ℕ → ℕ → ℕ
find_nominal_fragment_length message_len min_len max_len =
    if (message_len == 0) || (min_len == 0) || ltb max_len min_len
    then 0
    else nominal_loop (message_len / min_len) 1 message_len max_len 0

-- One fragment: what is left of the message up to the length, and zeros behind it.
unfoldable pub fragment : ℕ → List ℕ → List ℕ
fragment len rest = take len rest ++ replicate (len - length rest) 0

-- The loop over the offset; `rest` is the message from the offset on. Each pass takes a byte at
-- least, so a round for each byte is enough.
unfoldable pub partition_loop : ℕ → ℕ → List ℕ → List (List ℕ)
partition_loop rounds len [] = []
partition_loop zero len (b ∷ rest) = []
partition_loop (suc rounds) len (b ∷ rest) =
    fragment len (b ∷ rest) ∷ partition_loop rounds len (drop len (b ∷ rest))

-- The capacity with which the array of fragments is allocated.
abbrev pub fragment_capacity : ℕ → ℕ → ℕ
fragment_capacity message_len len = (message_len + len - 1) / len

-- The allocations are taken to succeed.
unfoldable pub partition_message : List ℕ → ℕ → Option (List (List ℕ))
partition_message message len =
    if (length message == 0) || (len == 0)
    then none
    else some (partition_loop (length message) len message)

-- The loop over the fragments; `out` is result[0 .. offset), and a missing fragment is NULL.
unfoldable pub join_loop : List (Option (List ℕ)) → ℕ → List ℕ → List ℕ
join_loop [] message_len out = out
join_loop (none ∷ rest) message_len out = join_loop rest message_len out
join_loop (some [] ∷ rest) message_len out = join_loop rest message_len out
join_loop (some (b ∷ bs) ∷ rest) message_len out =
    let copy_len =
      if ltb message_len (length out + length (b ∷ bs))
      then message_len - length out
      else length (b ∷ bs) in
    let out' = out ++ take copy_len (b ∷ bs) in
    let more = join_loop rest message_len out' in
    if leb message_len (length out') then out' else more

unfoldable pub join_fragments : List (Option (List ℕ)) → ℕ → Option (List ℕ)
join_fragments [] message_len = none
join_fragments (f ∷ fs) message_len = some (join_loop (f ∷ fs) message_len [])
