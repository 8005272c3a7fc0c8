-- ===== src/Bytewords/RoundTrip.antt =====
-- `bytewords_decode_raw` reads back what `bytewords_encode` wrote.
use c_ur.Base.{
  ℕ, ◌+◌, ◌-◌, ◌*◌, ◌/◌, ◌%◌, ◌^◌, ◌≤◌, ◌<◌, ◌≡◌, refl, ap, ◌∙◌, Bool, true, arith, bit_or,
}
use c_ur.Base.{
  List, [], ◌∷◌, ◌++◌, length, All, All-append, IsByte, length-append, take-length-append,
  drop-length-append,
}
use c_ur.Base.{none, some, ◌>>=◌, if◌then◌else◌, ltb, ◌==◌}
use c_ur.Base.Bits.{bit_or-add}
use c_ur.ByteBuffer.{safe_malloc}
use c_ur.Crc32.{crc32_calculate}
use c_ur.Bytewords.{word, words, crc_bytes, bytewords_encode, bytewords_decode_raw, decode_words}
use c_ur.Bytewords.{expected_crc, check_crc, IsToLower}
use c_ur.Bytewords.Letters.{decode_word-word, first_letter, last_letter}

pub words-append : (xs ys : List ℕ) → words (xs ++ ys) ≡ words xs ++ words ys
unfolding words word
words-append [] ys = refl
words-append (x ∷ xs) ys =
    ap (λ (l : List ℕ). first_letter x ∷ last_letter x ∷ l) (words-append xs ys)

pub length-words : (xs : List ℕ) → length (words xs) ≡ length xs * 2
unfolding words word
length-words [] = omega arith
length-words (x ∷ xs) = omega (arith, length-words xs)

pub decode_words-words :
    (tolower : ℕ → ℕ) (bytes : List ℕ)
    → IsToLower tolower
    → All IsByte bytes
    → decode_words tolower (words bytes) ≡ some bytes
unfolding words word decode_words
decode_words-words tolower [] ascii h = refl
decode_words-words tolower (b ∷ bs) ascii h =
    rw (decode_word-word tolower ascii b h.0, decode_words-words tolower bs ascii h.1)

pub expected_crc-crc_bytes : (crc : ℕ) → crc < 2 ^ 32 → expected_crc (crc_bytes crc) ≡ crc
unfolding expected_crc crc_bytes
expected_crc-crc_bytes v h = rw (high, middle, low) refl
  where
    high : bit_or (v / 2 ^ 24 % 256 * 2 ^ 24) (v / 2 ^ 16 % 256 * 2 ^ 16) ≡ v / 2 ^ 16 * 2 ^ 16
    high = omega (arith, bit_or-add 24 (v / 2 ^ 24 % 256) (v / 2 ^ 16 % 256 * 2 ^ 16) (omega arith))

    middle : bit_or (v / 2 ^ 16 * 2 ^ 16) (v / 2 ^ 8 % 256 * 2 ^ 8) ≡ v / 2 ^ 8 * 2 ^ 8
    middle = omega (arith, bit_or-add 16 (v / 2 ^ 16) (v / 2 ^ 8 % 256 * 2 ^ 8) (omega arith))

    low : bit_or (v / 2 ^ 8 * 2 ^ 8) (v % 256) ≡ v
    low = omega (arith, bit_or-add 8 (v / 2 ^ 8) (v % 256) (omega arith))

pub crc32_calculate-lt : (bytes : List ℕ) → crc32_calculate bytes < 2 ^ 32
unfolding crc32_calculate
crc32_calculate-lt [] = omega arith
crc32_calculate-lt (b ∷ bs) = omega arith

-- The check of a body with four bytes behind it.
pub check_crc-append :
    (body tail : List ℕ)
    → length tail ≡ 4
    → check_crc (body ++ tail) ≡ (
        if ltb 0 (length body)
        then (if expected_crc tail == crc32_calculate body then some body else none)
        else none)
unfolding check_crc
check_crc-append body tail four =
    let size : length (body ++ tail) - 4 ≡ length body = omega (arith, length-append body tail) in
    rw (size, take-length-append body tail, drop-length-append body tail)
      (ground (arith, length-append body tail))

pub length-crc_bytes : (crc : ℕ) → length (crc_bytes crc) ≡ 4
unfolding crc_bytes
length-crc_bytes crc = refl

pub crc_bytes-IsByte : (crc : ℕ) → All IsByte (crc_bytes crc)
unfolding crc_bytes
crc_bytes-IsByte crc = omega arith

pub bytewords_decode_raw-words :
    (alloc : ℕ → Bool) (tolower : ℕ → ℕ) (bytes : List ℕ)
    → ((n : ℕ) → alloc n ≡ true)
    → IsToLower tolower
    → 4 ≤ length bytes
    → All IsByte bytes
    → bytewords_decode_raw alloc tolower (words bytes) ≡ check_crc bytes
unfolding bytewords_decode_raw safe_malloc
bytewords_decode_raw-words alloc tolower bytes served ascii enough h = ground (
  arith,
  length-words bytes,
  served (length (words bytes) / 2),
  decode_words-words tolower bytes ascii h,
)

pub bytewords_encode-words :
    (alloc : ℕ → Bool) (bytes : List ℕ)
    → ((n : ℕ) → alloc n ≡ true)
    → 0 < length bytes
    → bytewords_encode alloc bytes ≡ some (words (bytes ++ crc_bytes (crc32_calculate bytes)))
unfolding bytewords_encode safe_malloc
bytewords_encode-words alloc [] served pos = absurd (omega arith)
bytewords_encode-words alloc (b ∷ bs) served pos =
    rw (words-append (b ∷ bs) (crc_bytes (crc32_calculate (b ∷ bs))))
      (ground (arith, served ((length (b ∷ bs) + 4) * 2 + 1)))

-- When every allocation is served and `tolower` is that of the C locale, decoding gives back every
-- non-empty list of bytes that was encoded.
pub bytewords_decode_raw-bytewords_encode :
    (alloc : ℕ → Bool) (tolower : ℕ → ℕ) (bytes : List ℕ)
    → ((n : ℕ) → alloc n ≡ true)
    → IsToLower tolower
    → 0 < length bytes
    → All IsByte bytes
    → (bytewords_encode alloc bytes >>= bytewords_decode_raw alloc tolower) ≡ some bytes
bytewords_decode_raw-bytewords_encode alloc tolower bytes served ascii pos h =
    let crc = crc32_calculate bytes in
    let all_bytes = All-append IsByte bytes (crc_bytes crc) h (crc_bytes-IsByte crc) in
    rw (bytewords_encode-words alloc bytes served pos) (
      bytewords_decode_raw-words alloc tolower (bytes ++ crc_bytes crc) served ascii
        (omega (arith, length-append bytes (crc_bytes crc), length-crc_bytes crc)) all_bytes
      ∙ check_crc-append bytes (crc_bytes crc) (length-crc_bytes crc)
      ∙ ground (arith, expected_crc-crc_bytes crc, crc32_calculate-lt bytes))
