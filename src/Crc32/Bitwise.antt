-- ===== src/Crc32/Bitwise.antt =====
-- The CRC-32 of the standards, one bit at a time, and the linearity of its step.
use c_ur.Base.{ℕ, zero, suc, ◌+◌, ◌-◌, ◌*◌, ◌/◌, ◌%◌, ◌^◌, ◌<◌, ◌≡◌, refl, ap, ◌∙◌, bit_xor, arith}
use c_ur.Base.{List, [], ◌∷◌}
use mathlib.Core.Path.{ap₂}
use native.Mathlib.Nat.{zero-mul, one-mul, zero-add, suc-add, pow-suc}
use c_ur.Base.Bits.{
  bit_xor-half, bit_xor_low, bit_xor_self, bit_xor-zero, zero-bit_xor, bit_xor_swap,
}

abbrev pub polynomial : ℕ
polynomial = 0xedb88320

-- The register moves down by one bit; a bit that falls out adds the polynomial.
unfoldable pub bit_step : ℕ → ℕ
bit_step c = bit_xor (c / 2) (c % 2 * polynomial)

unfoldable pub bit_steps : ℕ → ℕ → ℕ
unfolding bit_step
bit_steps zero c = c
bit_steps (suc n) c = bit_steps n (bit_step c)

unfoldable pub crc32_bits : ℕ → List ℕ → ℕ
crc32_bits c [] = c
crc32_bits c (b ∷ bs) = crc32_bits (bit_steps 8 (bit_xor c b)) bs

-- The reflected CRC-32: initial value and final complement of all ones.
unfoldable pub crc32_spec : List ℕ → ℕ
crc32_spec bytes = 2 ^ 32 - 1 - crc32_bits (2 ^ 32 - 1) bytes

digits_times : (x y k : ℕ) → x < 2 → y < 2 → bit_xor (x * k) (y * k) ≡ (x + y) % 2 * k
digits_times zero zero k h l = omega (arith, bit_xor_self (0 * k))
digits_times zero (suc zero) k h l = simp (zero-mul, one-mul) (zero-bit_xor k)
digits_times (suc zero) zero k h l = simp (zero-mul, one-mul) (bit_xor-zero k)
digits_times (suc zero) (suc zero) k h l = omega (arith, bit_xor_self (1 * k))
digits_times (suc (suc x)) y k h l = absurd (omega arith)
digits_times zero (suc (suc y)) k h l = absurd (omega arith)
digits_times (suc zero) (suc (suc y)) k h l = absurd (omega arith)

digit_times : (a b k : ℕ) → bit_xor (a % 2 * k) (b % 2 * k) ≡ (a + b) % 2 * k
digit_times a b k =
    digits_times (a % 2) (b % 2) k (omega arith) (omega arith) ∙ ap (λ (t : ℕ). t * k) (omega arith)

pub bit_step-bit_xor : (a b : ℕ) → bit_step (bit_xor a b) ≡ bit_xor (bit_step a) (bit_step b)
unfolding bit_step
bit_step-bit_xor a b =
    rw (bit_xor-half a b, bit_xor_low a b, ← digit_times a b polynomial)
      (bit_xor_swap (a / 2) (b / 2) (a % 2 * polynomial) (b % 2 * polynomial))

pub bit_steps-bit_xor :
    (n a b : ℕ) → bit_steps n (bit_xor a b) ≡ bit_xor (bit_steps n a) (bit_steps n b)
unfolding bit_steps
bit_steps-bit_xor zero a b = refl
bit_steps-bit_xor (suc n) a b =
    rw (bit_step-bit_xor a b) (bit_steps-bit_xor n (bit_step a) (bit_step b))

pub bit_steps-add : (m n c : ℕ) → bit_steps (m + n) c ≡ bit_steps n (bit_steps m c)
unfolding bit_steps
bit_steps-add zero n c = rw zero-add
bit_steps-add (suc m) n c = rw suc-add (bit_steps-add m n (bit_step c))

bit_step-double : (a : ℕ) → bit_step (a * 2) ≡ a
unfolding bit_step
bit_step-double a = ap₂ bit_xor {x = a * 2 / 2} {y = a} (omega arith) (omega arith) ∙ bit_xor-zero a

-- Bits that do not reach the end only move.
pub bit_steps-shift : (n a : ℕ) → bit_steps n (a * 2 ^ n) ≡ a
unfolding bit_steps
bit_steps-shift zero a = omega arith
bit_steps-shift (suc n) a =
    ap (bit_steps n) (
      ap bit_step (omega (arith, ap (λ (t : ℕ). a * t) (pow-suc 2 n)))
      ∙ bit_step-double (a * 2 ^ n))
    ∙ bit_steps-shift n a
