-- ===== src/UrString/Tests.antt =====
-- Runs of the string functions at concrete inputs, and the instance of their theorem.
use c_ur.Base.{
  ℕ, ◌+◌, ◌^◌, ◌≡◌, refl, Bool, true, false, ◌&&◌, List, [], ◌∷◌, leb, if◌then◌else◌, some, arith,
}
use c_ur.ByteBuffer.{safe_malloc}
use c_ur.UrString.{
  str_has_prefix, split_loop, str_split, str_to_lower, type_loop, is_ur_type, path_loop, strdup_all,
  components_of, parse_lowered, parse_ur_string, positive_number, both_numbers,
  parse_sequence_component,
}
use c_ur.UrString.Parse.{parse_ur_string-path_text}

abbrev serves_all : ℕ → Bool
serves_all n = true

abbrev lower : ℕ → Bool
lower c = leb 97 c && leb c 122

abbrev digit : ℕ → Bool
digit c = leb 48 c && leb c 57

abbrev to_lower : ℕ → ℕ
to_lower c = if leb 65 c && leb c 90 then c + 32 else c

-- "UR:A/B"
abbrev short_ur : List ℕ
short_ur = 85 ∷ 82 ∷ 58 ∷ 65 ∷ 47 ∷ 66 ∷ []

parse_short :
    parse_ur_string serves_all lower digit 8 to_lower short_ur ≡ some (97 ∷ [], (98 ∷ []) ∷ [])
unfolding parse_ur_string parse_lowered components_of strdup_all is_ur_type type_loop path_loop
    str_has_prefix str_to_lower safe_malloc
parse_short = refl

-- A UR type does not end in a hyphen.
refuse_hyphen : is_ur_type lower digit (97 ∷ 45 ∷ []) ≡ false
unfolding is_ur_type type_loop
refuse_hyphen = refl

-- "1-2-3" is split into its first two parts: the rest is not looked at.
split_rest : str_split serves_all (49 ∷ 45 ∷ 50 ∷ 45 ∷ 51 ∷ []) 45 2 ≡ (49 ∷ []) ∷ (50 ∷ []) ∷ []
unfolding str_split split_loop safe_malloc
split_rest = refl

-- A sequence number of 2 ^ 32, as strtoul may read it, is cut to 0.
wide_sequence_number :
    parse_sequence_component serves_all 8 (λ str. (2 ^ 32, [])) (49 ∷ 45 ∷ 50 ∷ [])
    ≡ some (0, 2 ^ 32)
unfolding parse_sequence_component both_numbers positive_number str_split split_loop safe_malloc
wide_sequence_number = refl

short_ur_lowers : str_to_lower to_lower short_ur ≡ 117 ∷ 114 ∷ 58 ∷ 97 ∷ 47 ∷ 98 ∷ []
unfolding str_to_lower
short_ur_lowers = refl

accept_letter : is_ur_type lower digit (97 ∷ []) ≡ true
unfolding is_ur_type type_loop
accept_letter = refl

parse_ur_string-path_text_example :
    parse_ur_string serves_all lower digit 8 to_lower short_ur ≡ some (97 ∷ [], (98 ∷ []) ∷ [])
parse_ur_string-path_text_example =
    parse_ur_string-path_text serves_all (λ n. refl) lower digit 8 (omega arith) to_lower short_ur
      (97 ∷ []) (98 ∷ []) [] short_ur_lowers accept_letter ((omega arith, (omega arith, tt)))
      ((omega arith, (omega arith, tt)), tt) (omega arith)
