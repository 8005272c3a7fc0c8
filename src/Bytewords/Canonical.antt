-- ===== src/Bytewords/Canonical.antt =====
-- What `bytewords_decode_raw` accepts is what `bytewords_encode` writes, up to the case of letters.
use c_ur.Base.{ℕ, ◌+◌, ◌-◌, ◌*◌, ◌^◌, ◌≤◌, ◌<◌, ◌≡◌, refl, sym, ap, ◌∙◌, Bool, true, arith, bit_or}
use c_ur.Base.{
  List, [], ◌∷◌, ◌++◌, length, take, drop, All, All-drop, All-take, IsByte, take-append-drop,
  length-drop, length-take, bind_cases,
}
use c_ur.Base.{some, ◌>>=◌}
use mathlib.Core.List.{map}
use mathlib.Core.Option.{some-injective}
use mathlib.Core.Path.{ap₂, subst}
use c_ur.Base.Bits.{bit_or-add}
use c_ur.Crc32.{crc32_calculate}
use c_ur.Bytewords.{
  word, words, crc_bytes, bytewords_encode, bytewords_decode_raw, decode_word, decode_words,
}
use c_ur.Bytewords.{expected_crc, check_crc, IsToLower}
use c_ur.Bytewords.Letters.{decode_word_lem}
use c_ur.Bytewords.RoundTrip.{bytewords_encode-words}

crc_bytes-expected_crc :
    (bs : List ℕ) → length bs ≡ 4 → All IsByte bs → crc_bytes (expected_crc bs) ≡ bs
unfolding crc_bytes expected_crc
crc_bytes-expected_crc (a ∷ b ∷ c ∷ d ∷ []) e h = rw (high, middle, low) (ground arith)
  where
    high : bit_or (a * 2 ^ 24) (b * 2 ^ 16) ≡ (a * 256 + b) * 2 ^ 16
    high = omega (arith, bit_or-add 24 a (b * 2 ^ 16) (omega arith))

    middle : bit_or ((a * 256 + b) * 2 ^ 16) (c * 2 ^ 8) ≡ ((a * 256 + b) * 256 + c) * 2 ^ 8
    middle = omega (arith, bit_or-add 16 (a * 256 + b) (c * 2 ^ 8) (omega arith))

    low : bit_or (((a * 256 + b) * 256 + c) * 2 ^ 8) d ≡ ((a * 256 + b) * 256 + c) * 256 + d
    low = omega (arith, bit_or-add 8 ((a * 256 + b) * 256 + c) d (omega arith))
crc_bytes-expected_crc _ e h = absurd (omega arith)

abbrev IsRead : (ℕ → ℕ) → List ℕ → List ℕ → Type 0
IsRead tolower encoded bytes = All IsByte bytes × (map tolower (words bytes) ≡ map tolower encoded)

decode_words_lem :
    (tolower : ℕ → ℕ) (encoded bytes : List ℕ)
    → IsToLower tolower
    → decode_words tolower encoded ≡ some bytes
    → All IsByte bytes × (map tolower (words bytes) ≡ map tolower encoded)
unfolding decode_words words word
decode_words_lem tolower [] bytes ascii e =
    subst (IsRead tolower []) (some-injective _ _ e) (tt, refl)
decode_words_lem tolower (c ∷ []) bytes ascii e = cc
decode_words_lem tolower (c ∷ d ∷ rest) bytes ascii e =
    bind_cases (decode_word tolower c d) _ e λ b e₁ e₂.
      bind_cases (decode_words tolower rest) _ e₂ λ bs e₃ e₄.
        let (small, first, last) = decode_word_lem tolower ascii c d b e₁ in
        let (ok, same) = decode_words_lem tolower rest bs ascii e₃ in
        subst (IsRead tolower (c ∷ d ∷ rest)) (some-injective _ _ e₄)
          ((small, ok), ap₂ (λ x l. x ∷ l) first (ap₂ (λ x l. x ∷ l) last same))

check_crc_facts :
    (buf body : List ℕ)
    → check_crc buf ≡ some body
    → (5 ≤ length buf)
      × (expected_crc (drop (length buf - 4) buf) ≡ crc32_calculate (take (length buf - 4) buf))
      × (take (length buf - 4) buf ≡ body)
unfolding check_crc
check_crc_facts buf body e = ground arith

abbrev IsChecked : List ℕ → List ℕ → Type 0
IsChecked buf body =
    (0 < length body) × (body ++ crc_bytes (crc32_calculate body) ≡ buf) × All IsByte body

check_crc_lem :
    (buf body : List ℕ)
    → All IsByte buf
    → check_crc buf ≡ some body
    → (0 < length body) × (body ++ crc_bytes (crc32_calculate body) ≡ buf) × All IsByte body
check_crc_lem buf body h e =
    let n = length buf - 4 in
    let (enough, crc, taken) = check_crc_facts buf body e in
    let four : length (drop n buf) ≡ 4 = omega (arith, length-drop n buf) in
    let tail : crc_bytes (crc32_calculate (take n buf)) ≡ drop n buf =
      ap crc_bytes (sym crc) ∙ crc_bytes-expected_crc (drop n buf) four (All-drop IsByte n buf h) in
    subst (IsChecked buf) taken (
      omega (arith, length-take n buf),
      ap (λ (l : List ℕ). take n buf ++ l) tail ∙ take-append-drop n buf,
      All-take IsByte n buf h,
    )

bytewords_decode_raw_cases :
    (alloc : ℕ → Bool) (tolower : ℕ → ℕ) (encoded bytes : List ℕ)
    → bytewords_decode_raw alloc tolower encoded ≡ some bytes
    → (decode_words tolower encoded >>= check_crc) ≡ some bytes
unfolding bytewords_decode_raw
bytewords_decode_raw_cases alloc tolower encoded bytes e = ground arith

-- When every allocation is served and `tolower` is that of the C locale, a string that decodes gives
-- a non-empty list of bytes, and the string that encodes these is, up to case, the one decoded.
pub bytewords_encode-bytewords_decode_raw :
    (alloc : ℕ → Bool) (tolower : ℕ → ℕ) (encoded bytes : List ℕ)
    → ((n : ℕ) → alloc n ≡ true)
    → IsToLower tolower
    → bytewords_decode_raw alloc tolower encoded ≡ some bytes
    → (0 < length bytes)
      × All IsByte bytes
      × ((s : List ℕ) × (bytewords_encode alloc bytes ≡ some s)
          × (map tolower s ≡ map tolower encoded))
bytewords_encode-bytewords_decode_raw alloc tolower encoded bytes served ascii e =
    bind_cases (decode_words tolower encoded) check_crc
      (bytewords_decode_raw_cases alloc tolower encoded bytes e)
      λ buf e₁ e₂.
        let (ok, same) = decode_words_lem tolower encoded buf ascii e₁ in
        let (pos, whole, body_ok) = check_crc_lem buf bytes ok e₂ in
        (
          pos,
          body_ok,
          (
            words (bytes ++ crc_bytes (crc32_calculate bytes)),
            bytewords_encode-words alloc bytes served pos,
            ap (λ (l : List ℕ). map tolower (words l)) whole ∙ same,
          ),
        )
