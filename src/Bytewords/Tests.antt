-- ===== src/Bytewords/Tests.antt =====
-- Runs of bytewords, and its theorems at concrete inputs.
use c_ur.Base.{ℕ, ◌+◌, ◌<◌, Bool, true, ◌&&◌, List, [], ◌∷◌, ◌≡◌, refl, none, some, ◌>>=◌}
use c_ur.Base.{All, IsByte, arith, leb, if◌then◌else◌}
use mathlib.Core.List.{map}
use c_ur.ByteBuffer.{safe_malloc}
use c_ur.Crc32.{crc32_calculate, crc32_loop, crc32_byte}
use c_ur.Bytewords.{bytewords_encode, bytewords_decode_raw, words, word, crc_bytes, decode_words}
use c_ur.Bytewords.{decode_word, check_crc, expected_crc, IsToLower}
use c_ur.Bytewords.Tables.{codes, bytewords_minimal, lookup_table}
use c_ur.Bytewords.RoundTrip.{bytewords_decode_raw-bytewords_encode}
use c_ur.Bytewords.Canonical.{bytewords_encode-bytewords_decode_raw}

abbrev serves_all : ℕ → Bool
serves_all n = true

-- What `tolower` is in the "C" locale.
abbrev ascii_lower : ℕ → ℕ
ascii_lower c = if leb 65 c && leb c 90 then c + 32 else c

ascii_lower-IsToLower : IsToLower ascii_lower
ascii_lower-IsToLower = record {
  upper = λ c h k. ground arith;
  below = λ c h. ground arith;
  above = λ c h. ground arith;
}

encode_three : bytewords_encode serves_all (0 ∷ 1 ∷ 2 ∷ []) ≡ some (codes "AEADAOAYGHLDLB")
unfolding bytewords_encode words word crc_bytes crc32_calculate crc32_loop crc32_byte safe_malloc
    bytewords_minimal
encode_three = refl

decode_three :
    bytewords_decode_raw serves_all ascii_lower (codes "aeadaoAYGHLDLB") ≡ some (0 ∷ 1 ∷ 2 ∷ [])
unfolding bytewords_decode_raw decode_words decode_word check_crc expected_crc crc32_calculate
    crc32_loop crc32_byte safe_malloc lookup_table
decode_three = refl

decode_corrupted : bytewords_decode_raw serves_all ascii_lower (codes "ADADAOAYGHLDLB") ≡ none
unfolding bytewords_decode_raw decode_words decode_word check_crc expected_crc crc32_calculate
    crc32_loop crc32_byte safe_malloc lookup_table
decode_corrupted = refl

bytewords_decode_raw-bytewords_encode_example :
    (bytewords_encode serves_all (0 ∷ 255 ∷ []) >>= bytewords_decode_raw serves_all ascii_lower)
    ≡ some (0 ∷ 255 ∷ [])
bytewords_decode_raw-bytewords_encode_example =
    bytewords_decode_raw-bytewords_encode serves_all ascii_lower (0 ∷ 255 ∷ []) (λ n. refl)
      ascii_lower-IsToLower (omega arith) (omega arith)

bytewords_encode-bytewords_decode_raw_example :
    (0 < 3)
    × All IsByte (0 ∷ 1 ∷ 2 ∷ [])
    × ((s : List ℕ) × (bytewords_encode serves_all (0 ∷ 1 ∷ 2 ∷ []) ≡ some s)
        × (map ascii_lower s ≡ map ascii_lower (codes "aeadaoAYGHLDLB")))
bytewords_encode-bytewords_decode_raw_example =
    bytewords_encode-bytewords_decode_raw serves_all ascii_lower (codes "aeadaoAYGHLDLB")
      (0 ∷ 1 ∷ 2 ∷ []) (λ n. refl) ascii_lower-IsToLower decode_three
