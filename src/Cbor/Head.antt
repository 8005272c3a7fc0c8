-- ===== src/Cbor/Head.antt =====
-- The heads of CBOR items: what `encode_head` writes in plain arithmetic, and what the decoder
-- makes of it.
use c_ur.Base.{ℕ, suc, ◌+◌, ◌*◌, ◌/◌, ◌%◌, ◌^◌, ◌<◌, bit_or, bit_and, Bool}
use c_ur.Base.{List, [], ◌∷◌, ◌++◌, ltb, leb, ◌==◌, if◌then◌else◌}
use c_ur.Base.{some, ◌≡◌, refl, sym, ◌∙◌, arith, passes, passes_at, ==_iff}
use mathlib.Core.Path.{ap₂}
use c_ur.Base.Bits.{bit_or-add}
use c_ur.Cbor.Encode.{head_bytes}
use c_ur.Cbor.Spec.{canonical_head, argument_size, additional_information, big_endian}
use c_ur.Cbor.Decode.{read_byte, read_argument, join_2, join_4, decode_level, decode_major}

-- The low five bits of the first byte, and the bytes after it.
abbrev pub additional : ℕ → ℕ
additional v =
    if ltb v 24
    then v
    else if leb v 0xff
    then 24
    else if leb v 0xffff
    then 25
    else if leb v 0xffffffff
    then 26
    else 27

abbrev pub head_args : ℕ → List ℕ
head_args v =
    if ltb v 24
    then []
    else if leb v 0xff
    then v ∷ []
    else if leb v 0xffff
    then v / 2 ^ 8 ∷ v % 256 ∷ []
    else if leb v 0xffffffff
    then (v / 2 ^ 24 ∷ v / 2 ^ 16 % 256 ∷ v / 2 ^ 8 % 256 ∷ v % 256 ∷ [])
    else (v / 2 ^ 56 % 256
        ∷ v / 2 ^ 48 % 256
        ∷ v / 2 ^ 40 % 256
        ∷ v / 2 ^ 32 % 256
        ∷ v / 2 ^ 24 % 256
        ∷ v / 2 ^ 16 % 256
        ∷ v / 2 ^ 8 % 256
        ∷ v % 256
        ∷ [])

head_bytes_lem : (m v : ℕ) → m < 8 → head_bytes m v ≡ (m * 32 + additional v) ∷ head_args v
unfolding head_bytes
head_bytes_lem m v h = ground (
  arith,
  bit_or-add 5 m v,
  bit_or-add 5 m 24,
  bit_or-add 5 m 25,
  bit_or-add 5 m 26,
  bit_or-add 5 m 27,
)

pub canonical_head_lem :
    (m v : ℕ) → m < 8 → canonical_head m v ≡ (m * 32 + additional v) ∷ head_args v
unfolding canonical_head argument_size additional_information big_endian
canonical_head_lem m v h = ground arith

-- The encoder's head is the canonical one.
pub head_bytes-canonical_head : (m v : ℕ) → m < 8 → head_bytes m v ≡ canonical_head m v
head_bytes-canonical_head m v h = head_bytes_lem m v h ∙ sym (canonical_head_lem m v h)

join_2_lem : (v : ℕ) → v < 2 ^ 16 → join_2 (v / 2 ^ 8 ∷ v % 256 ∷ []) ≡ v
join_2_lem v h = omega (arith, bit_or-add 8 (v / 2 ^ 8) (v % 256) (omega arith))

join_4_lem :
    (v : ℕ)
    → v < 2 ^ 32
    → join_4 (v / 2 ^ 24 ∷ v / 2 ^ 16 % 256 ∷ v / 2 ^ 8 % 256 ∷ v % 256 ∷ []) ≡ v
join_4_lem v h = rw (high, middle, low) refl
  where
    high : bit_or (v / 2 ^ 24 * 2 ^ 24) (v / 2 ^ 16 % 256 * 2 ^ 16) ≡ v / 2 ^ 16 * 2 ^ 16
    high = omega (arith, bit_or-add 24 (v / 2 ^ 24) (v / 2 ^ 16 % 256 * 2 ^ 16) (omega arith))

    middle : bit_or (v / 2 ^ 16 * 2 ^ 16) (v / 2 ^ 8 % 256 * 2 ^ 8) ≡ v / 2 ^ 8 * 2 ^ 8
    middle = omega (arith, bit_or-add 16 (v / 2 ^ 16) (v / 2 ^ 8 % 256 * 2 ^ 8) (omega arith))

    low : bit_or (v / 2 ^ 8 * 2 ^ 8) (v % 256) ≡ v
    low = omega (arith, bit_or-add 8 (v / 2 ^ 8) (v % 256) (omega arith))

pub read_argument-head_args :
    (v : ℕ) (rest : List ℕ)
    → v < 2 ^ 32
    → read_argument (additional v) (head_args v ++ rest) ≡ some (v, rest)
unfolding read_argument
read_argument-head_args v rest h = ground (arith, join_2_lem v, join_4_lem v)

low_five : (b : ℕ) → b < 256 → bit_and b 0x1f ≡ b % 32
unfolding passes
low_five b h = (==_iff _ _).0 (passes_at (λ x. bit_and x 0x1f == x % 32) 256 b refl h)

high_three : (b : ℕ) → b < 256 → bit_and (b / 2 ^ 5) 7 ≡ b / 32
unfolding passes
high_three b h = (==_iff _ _).0 (passes_at (λ x. bit_and (x / 2 ^ 5) 7 == x / 32) 256 b refl h)

pub decode_level-cons :
    (alloc : ℕ → Bool) (levels b : ℕ) (rest : List ℕ)
    → b < 256
    → decode_level alloc (suc levels) (b ∷ rest)
      ≡ decode_major (decode_level alloc levels) alloc (b / 32) (b % 32) rest
unfolding decode_level read_byte
decode_level-cons alloc levels b rest h = rw (low_five b h, high_three b h)

pub decode_level-head :
    (alloc : ℕ → Bool) (levels m v : ℕ) (rest : List ℕ)
    → m < 8
    → decode_level alloc (suc levels) (canonical_head m v ++ rest)
      ≡ decode_major (decode_level alloc levels) alloc m (additional v) (head_args v ++ rest)
decode_level-head alloc levels m v rest h = rw (canonical_head_lem m v h) (
    decode_level-cons alloc levels (m * 32 + additional v) (head_args v ++ rest) (ground arith)
    ∙ ap₂ (λ (a b : ℕ). decode_major (decode_level alloc levels) alloc a b (head_args v ++ rest))
        (ground arith) (ground arith))
