-- ===== src/Bytewords/Letters.antt =====
-- The two tables of src/bytewords.c are inverse to one another, up to the case of letters.
use c_ur.Base.{ℕ, ◌+◌, ◌-◌, ◌*◌, ◌/◌, ◌%◌, ◌<◌, ◌≡◌, refl, Bool, true, ◌&&◌, ◌||◌, arith}
use c_ur.Base.{get_or, leb, ltb, ◌==◌, some, passes, passes_at}
use c_ur.Bytewords.{decode_word, IsToLower}
use c_ur.Bytewords.Tables.{bytewords_minimal, lookup_table, no_word}

abbrev pub first_letter : ℕ → ℕ
first_letter b = get_or bytewords_minimal (b * 2) 0

abbrev pub last_letter : ℕ → ℕ
last_letter b = get_or bytewords_minimal (b * 2 + 1) 0

abbrev pub word_found : ℕ → Bool
word_found b =
    leb 65 (first_letter b)
    && (leb (first_letter b) 90
        && (leb 65 (last_letter b)
            && (leb (last_letter b) 90
                && (get_or lookup_table ((last_letter b - 65) * 26 + (first_letter b - 65)) no_word
                    == b))))

pub words_found : passes word_found 256 ≡ true
unfolding passes bytewords_minimal lookup_table
words_found = refl

abbrev entry_found : ℕ → Bool
entry_found i =
    let v = get_or lookup_table i no_word in
    (v == no_word)
    || (ltb v 256 && ((first_letter v == i % 26 + 65) && (last_letter v == i / 26 + 65)))

entries_found : passes entry_found 676 ≡ true
unfolding passes bytewords_minimal lookup_table
entries_found = refl

module _ (tolower : ℕ → ℕ) (ascii : IsToLower tolower) where
  -- The two letters of a byte are read as that byte.
  pub decode_word-word :
      (b : ℕ) → b < 256 → decode_word tolower (first_letter b) (last_letter b) ≡ some b
  unfolding decode_word
  decode_word-word b h = ground (
    arith,
    passes_at word_found 256 b words_found,
    ascii.upper (first_letter b),
    ascii.upper (last_letter b),
  )

  -- Two letters that are read as a byte are the letters of that byte, whatever their case.
  pub decode_word_lem :
      (c d b : ℕ)
      → decode_word tolower c d ≡ some b
      → (b < 256) × (tolower (first_letter b) ≡ tolower c) × (tolower (last_letter b) ≡ tolower d)
  unfolding decode_word
  decode_word_lem c d b h =
      let i = (tolower d - 97) * 26 + (tolower c - 97) in
      ground (
        arith,
        passes_at entry_found 676 i entries_found,
        ascii.upper (first_letter b),
        ascii.upper (last_letter b),
      )
