-- ===== src/UrString.antt =====
-- The strings of src/utils.c: prefixes, case, splitting, UR types and the parts of a UR. A C string
-- is the list of its bytes before the terminating zero.
pub mod Parse
mod Tests
use c_ur.Base.{ℕ, zero, suc, ◌+◌, ◌-◌, ◌*◌, ◌%◌, ◌^◌, Bool, true, false, ◌||◌, not, List, [], ◌∷◌}
use c_ur.Base.{◌++◌, length, drop, ltb, ◌==◌, if◌then◌else◌, Option, none, some, ◌>>=◌}
use c_ur.ByteBuffer.{safe_malloc}

-- strncmp on the length of the prefix.
unfoldable pub str_has_prefix : List ℕ → List ℕ → Bool
str_has_prefix str [] = true
str_has_prefix [] (p ∷ ps) = false
str_has_prefix (c ∷ cs) (p ∷ ps) = let rest = str_has_prefix cs ps in if c == p then rest else false

abbrev is_empty : List ℕ → Bool
is_empty [] = true
is_empty (c ∷ cs) = false

module _ (alloc : ℕ → Bool) where
  -- The loop of str_split: `left` is max_parts - count, the string is that from `end` on, and
  -- `part` the bytes from `start` to `end`.
  unfoldable pub split_loop : ℕ → ℕ → List ℕ → List ℕ → List (List ℕ)
  split_loop delimiter left [] part = []
  split_loop delimiter zero (c ∷ rest) part = []
  split_loop delimiter (suc left) (c ∷ rest) part =
      let part' = if c == delimiter then part else part ++ c ∷ [] in
      let ends = (c == delimiter) || is_empty rest in
      let kept = not (is_empty part') in
      let stored = safe_malloc alloc (length part' + 1) in
      let left' =
        if ends then if kept then if stored then left else suc left else suc left else suc left in
      let more = split_loop delimiter left' rest (if ends then [] else part') in
      if ends then if kept then if stored then part' ∷ more else more else more else more

  unfoldable pub str_split : List ℕ → ℕ → ℕ → List (List ℕ)
  str_split str delimiter max_parts = split_loop delimiter max_parts str []

-- `tolower`, `islower` and `isdigit` belong to the C library.
module _ (tolower : ℕ → ℕ) where
  unfoldable pub str_to_lower : List ℕ → List ℕ
  str_to_lower [] = []
  str_to_lower (c ∷ cs) = tolower c ∷ str_to_lower cs

module _ (islower isdigit : ℕ → Bool) where
  -- The loop over the type; `last` is the byte before.
  unfoldable pub type_loop : ℕ → List ℕ → Bool
  type_loop last [] = not (last == 45)
  type_loop last (c ∷ cs) =
      let rest = type_loop c cs in if islower c || isdigit c || (c == 45) then rest else false

  unfoldable pub is_ur_type : List ℕ → Bool
  is_ur_type [] = false
  is_ur_type (c ∷ cs) = if c == 45 then false else type_loop 0 (c ∷ cs)

-- The loop that cuts the path at its slashes: `left` is how many more parts are kept, `part` what
-- stands from `start` on. Empty parts are skipped.
unfoldable pub path_loop : ℕ → List ℕ → List ℕ → List (List ℕ)
path_loop zero part path = []
path_loop (suc left) [] [] = []
path_loop (suc left) (p ∷ part) [] = (p ∷ part) ∷ []
path_loop (suc left) [] (c ∷ path) = path_loop (suc left) (if c == 47 then [] else c ∷ []) path
path_loop (suc left) (p ∷ part) (c ∷ path) =
    let rest =
      path_loop (if c == 47 then left else suc left) (if c == 47 then [] else p ∷ part ++ c ∷ [])
        path in
    if c == 47 then (p ∷ part) ∷ rest else rest

-- The copies of the parts; one that cannot be allocated ends the run.
unfoldable pub strdup_all : (ℕ → Bool) → List (List ℕ) → Option (List (List ℕ))
strdup_all alloc [] = some []
strdup_all alloc (part ∷ parts) =
    if safe_malloc alloc (length part + 1)
    then (strdup_all alloc parts >>= λ rest. some (part ∷ rest))
    else none

module _ (alloc : ℕ → Bool) (islower isdigit : ℕ → Bool) (pointer_size : ℕ) where
  -- What follows the cutting of the path.
  unfoldable pub components_of : List (List ℕ) → Option (List ℕ × List (List ℕ))
  components_of [] = none
  components_of (type ∷ []) = none
  components_of (type ∷ c ∷ components) =
      if is_ur_type islower isdigit type
      then if safe_malloc alloc (length type + 1)
        then if safe_malloc alloc (pointer_size * length (c ∷ components))
          then (strdup_all alloc (c ∷ components) >>= λ parts. some (type, parts))
          else none
        else none
      else none

  -- The string after it was lowered.
  unfoldable pub parse_lowered : List ℕ → Option (List ℕ × List (List ℕ))
  parse_lowered lowered =
      if str_has_prefix lowered (117 ∷ 114 ∷ 58 ∷ [])
      then components_of (path_loop 10 [] (drop 3 lowered))
      else none

  unfoldable pub parse_ur_string : (ℕ → ℕ) → List ℕ → Option (List ℕ × List (List ℕ))
  parse_ur_string tolower ur_str =
      if safe_malloc alloc (length ur_str + 1)
      then parse_lowered (str_to_lower tolower ur_str)
      else none

-- `strtoul` belongs to the C library: the number it reads and the string at `endptr`. An
-- unsigned long is taken to have the bits of a size_t; the sequence number is cut to 32 bits.
module _ (alloc : ℕ → Bool) (pointer_size : ℕ) (strtoul : List ℕ → ℕ × List ℕ) where
  unfoldable pub positive_number : List ℕ → Option ℕ
  positive_number str =
      let read = strtoul str in
      if is_empty read.1 then if read.0 == 0 then none else some read.0 else none

  unfoldable pub both_numbers : List (List ℕ) → Option (ℕ × ℕ)
  both_numbers (a ∷ b ∷ []) = do
    num ← positive_number a
    len ← positive_number b
    some (num % 2 ^ 32, len)
  both_numbers _ = none

  unfoldable pub parse_sequence_component : List ℕ → Option (ℕ × ℕ)
  parse_sequence_component seq_str =
      if safe_malloc alloc (pointer_size * 2)
      then both_numbers (str_split alloc seq_str 45 2)
      else none
