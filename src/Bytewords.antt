-- ===== src/Bytewords.antt =====
-- src/bytewords.c: bytes as pairs of letters with a CRC-32 at the end.
pub mod Tables
pub mod Letters
pub mod RoundTrip
pub mod Canonical
mod Tests
use c_ur.Base.{ℕ, suc, ◌+◌, ◌-◌, ◌*◌, ◌/◌, ◌%◌, ◌^◌, ◌≤◌, ◌≡◌, bit_or, Bool, true, false, ◌||◌}
use c_ur.Base.{
  List, [], ◌∷◌, ◌++◌, length, take, drop, get_or, ltb, leb, ◌==◌, if◌then◌else◌, Option, none,
  some,
}
use c_ur.Base.{◌>>=◌}
use c_ur.ByteBuffer.{safe_malloc}
use c_ur.Crc32.{crc32_calculate}
use Tables.{bytewords_minimal, lookup_table, no_word}

-- The two letters of one byte.
unfoldable pub word : ℕ → List ℕ
word byte = get_or bytewords_minimal (byte * 2) 0 ∷ get_or bytewords_minimal (byte * 2 + 1) 0 ∷ []

unfoldable pub words : List ℕ → List ℕ
words [] = []
words (b ∷ bs) = word b ++ words bs

unfoldable pub crc_bytes : ℕ → List ℕ
crc_bytes crc = crc / 2 ^ 24 % 256 ∷ crc / 2 ^ 16 % 256 ∷ crc / 2 ^ 8 % 256 ∷ crc % 256 ∷ []

-- The string without its terminating zero.
unfoldable pub bytewords_encode : (ℕ → Bool) → List ℕ → Option (List ℕ)
bytewords_encode alloc [] = none
bytewords_encode alloc (b ∷ bs) =
    if safe_malloc alloc ((length (b ∷ bs) + 4) * 2 + 1)
    then some (words (b ∷ bs) ++ words (crc_bytes (crc32_calculate (b ∷ bs))))
    else none

-- What the C standard says of `tolower` in the "C" locale, on the values of `unsigned char`.
pub record IsToLower (tolower : ℕ → ℕ) : Type 0 where
  pub upper : (c : ℕ) → 65 ≤ c → c ≤ 90 → tolower c ≡ c + 32
  pub below : (c : ℕ) → c ≤ 64 → tolower c ≡ c
  pub above : (c : ℕ) → 91 ≤ c → tolower c ≡ c

-- `tolower` belongs to the C library.
module _ (tolower : ℕ → ℕ) where
  -- One pass of the decoding loop; `x` and `y` below 0 are letters below 'a'.
  unfoldable pub decode_word : ℕ → ℕ → Option ℕ
  decode_word c d =
      let first = tolower c in
      let last = tolower d in
      let x = first - 97 in
      let y = last - 97 in
      let value = get_or lookup_table (y * 26 + x) no_word in
      if ltb first 97 || leb 26 x || ltb last 97 || leb 26 y
      then none
      else if value == no_word
      then none
      else some (value % 256)

  unfoldable pub decode_words : List ℕ → Option (List ℕ)
  decode_words [] = some []
  decode_words (c ∷ []) = none
  decode_words (c ∷ d ∷ rest) = do
    byte ← decode_word c d
    bytes ← decode_words rest
    some (byte ∷ bytes)

-- The last four bytes as a number.
unfoldable pub expected_crc : List ℕ → ℕ
expected_crc bs =
    bit_or
      (bit_or (bit_or (get_or bs 0 0 * 2 ^ 24) (get_or bs 1 0 * 2 ^ 16)) (get_or bs 2 0 * 2 ^ 8))
      (get_or bs 3 0)

unfoldable pub check_crc : List ℕ → Option (List ℕ)
check_crc buf =
    let body_size = length buf - 4 in
    let body = take body_size buf in
    if ltb (length buf) 5
    then none
    else if expected_crc (drop body_size buf) == crc32_calculate body
    then some body
    else none

-- `encoded` is the string without its terminating zero. Whether the final shrinking succeeds makes
-- no difference to the bytes.
unfoldable pub bytewords_decode_raw : (ℕ → Bool) → (ℕ → ℕ) → List ℕ → Option (List ℕ)
bytewords_decode_raw alloc tolower encoded =
    let encoded_len = length encoded in
    if (encoded_len % 2 == 1) || ltb encoded_len 8
    then none
    else if safe_malloc alloc (encoded_len / 2)
    then (decode_words tolower encoded >>= check_crc)
    else none
