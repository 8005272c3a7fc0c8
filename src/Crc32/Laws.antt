-- ===== src/Crc32/Laws.antt =====
-- The table-driven loop of src/crc32.c against the CRC-32 of the standards.
use c_ur.Base.{ℕ, ◌-◌, ◌*◌, ◌/◌, ◌%◌, ◌^◌, ◌<◌, ◌≡◌, refl, sym, ap, ◌∙◌, bit_xor, arith}
use mathlib.Core.Path.{ap₂}
use c_ur.Base.{List, [], ◌∷◌, All, IsByte, get_or, passes, passes_at, ◌==◌, ==_iff}
use c_ur.Base.Bits.{
  bit_xor_comm, bit_xor_assoc, bit_xor-zero, bit_xor-add, bit_and-fifteen, bit_xor-shift,
}
use c_ur.Crc32.{crc32_table, crc32_nibble, crc32_byte, crc32_loop, crc32_calculate}
use c_ur.Crc32.Bitwise.{
  bit_steps, bit_steps-bit_xor, bit_steps-add, bit_steps-shift, crc32_bits, crc32_spec,
}

table_checks : (i : ℕ) → i < 16 → bit_steps 4 i ≡ get_or crc32_table i 0
unfolding passes bit_steps
table_checks i h =
    (==_iff _ _).0 (passes_at (λ x. bit_steps 4 x == get_or crc32_table x 0) 16 i refl h)

-- Four steps are a shift by four and one lookup.
pub bit_steps_four : (c : ℕ) → bit_steps 4 c ≡ bit_xor (c / 16) (get_or crc32_table (c % 16) 0)
bit_steps_four c =
    ap (bit_steps 4) split
    ∙ bit_steps-bit_xor 4 (c / 16 * 2 ^ 4) (c % 16)
    ∙ ap₂ bit_xor (bit_steps-shift 4 (c / 16)) (table_checks (c % 16) (omega arith))
  where
    split : c ≡ bit_xor (c / 16 * 2 ^ 4) (c % 16)
    split = omega (arith, bit_xor-add 4 (c / 16) (c % 16) (omega arith))

xor_last : (a b c : ℕ) → bit_xor (bit_xor a b) c ≡ bit_xor (bit_xor a c) b
xor_last a b c = cc (bit_xor_assoc a b c, bit_xor_comm b c, bit_xor_assoc a c b)

pub crc32_nibble_lem :
    (crc nibble : ℕ)
    → bit_steps 4 (bit_xor crc nibble) ≡ bit_xor (crc32_nibble crc nibble) (nibble / 16)
unfolding crc32_nibble
crc32_nibble_lem crc nibble =
    bit_steps_four (bit_xor crc nibble)
    ∙ rw (bit_xor-shift crc nibble, bit_and-fifteen (bit_xor crc nibble))
        (xor_last (crc / 16) (nibble / 16) (get_or crc32_table (bit_xor crc nibble % 16) 0))

pub crc32_byte_lem :
    (crc byte : ℕ) → byte < 256 → crc32_byte crc byte ≡ bit_steps 8 (bit_xor crc byte)
unfolding crc32_byte
crc32_byte_lem crc byte h = sym (
    bit_steps-add 4 4 (bit_xor crc byte)
    ∙ ap (bit_steps 4) (crc32_nibble_lem crc byte)
    ∙ crc32_nibble_lem (crc32_nibble crc byte) (byte / 16)
    ∙ ap (bit_xor (crc32_nibble (crc32_nibble crc byte) (byte / 16))) {y = 0} (omega arith)
    ∙ bit_xor-zero _)

crc32_loop_lem :
    (bytes : List ℕ) (crc : ℕ) → All IsByte bytes → crc32_loop crc bytes ≡ crc32_bits crc bytes
unfolding crc32_loop crc32_bits
crc32_loop_lem [] crc h = refl
crc32_loop_lem (b ∷ bs) crc h =
    rw (crc32_byte_lem crc b h.0) (crc32_loop_lem bs (bit_steps 8 (bit_xor crc b)) h.1)

-- On bytes, `crc32_calculate` is the bit-by-bit CRC-32.
pub crc32_calculate-crc32_spec :
    (bytes : List ℕ) → All IsByte bytes → crc32_calculate bytes ≡ crc32_spec bytes
unfolding crc32_calculate crc32_spec crc32_bits
crc32_calculate-crc32_spec [] h = refl
crc32_calculate-crc32_spec (b ∷ bs) h = rw (crc32_loop_lem (b ∷ bs) (2 ^ 32 - 1) h)
