-- ===== src/Base/Bits.antt =====
-- The bit operations of C as arithmetic: `|` of disjoint fields, low masks, and the laws of `^`.
-- The library states each operation as a recursion on binary digits with a count of digits to go.
use Prim.Native.Nat.{ℕ, zero, suc, ◌+◌, ◌*◌, ◌/◌, ◌%◌, ◌^◌, ◌≤◌, ◌<◌, min, max}
use Prim.Native.Nat.{bit_and, bit_or, bit_xor, digits, bitwise, differ}
use Prim.Native.Nat.{bit_and-bitwise, bit_or-bitwise, bit_xor-bitwise}
use mathlib.Core.Path.{◌≡◌, refl, sym, ap, ap₂, ◌∙◌}
use native.Mathlib.Nat.{pow-suc}
use native.Mathlib.Omega.{arith}

module _ (z : ℕ → ℕ) (f : ℕ → ℕ → ℕ) where
  digits_of_zero : (n b : ℕ) → digits z f n 0 b ≡ z b
  digits_of_zero zero b = refl
  digits_of_zero (suc n) b = refl

  -- Any two counts that cover the first number give the same digits.
  digits_count : (a n m b : ℕ) → a ≤ m → a ≤ n → digits z f n a b ≡ digits z f m a b
  digits_count zero n m b p q = digits_of_zero n b ∙ sym (digits_of_zero m b)
  digits_count (suc a) zero m b p q = absurd (omega arith)
  digits_count (suc a) (suc n) zero b p q = absurd (omega arith)
  digits_count (suc a) (suc n) (suc m) b p q =
      ap (λ (t : ℕ). t * 2 + f (suc a % 2) (b % 2))
        (digits_count (suc a / 2) n m (b / 2) (omega arith) (omega arith))

  bitwise_round :
      (a b : ℕ) → 0 < a → bitwise z f a b ≡ bitwise z f (a / 2) (b / 2) * 2 + f (a % 2) (b % 2)
  bitwise_round zero b h = absurd (omega arith)
  bitwise_round (suc a) b h =
      ap (λ (t : ℕ). t * 2 + f (suc a % 2) (b % 2))
        (digits_count (suc a / 2) a (suc a / 2) (b / 2) (omega arith) (omega arith))

-- One round of each operation, on the lowest digits.
pub bit_or_round : (a b : ℕ) → bit_or a b ≡ max (a % 2) (b % 2) + 2 * bit_or (a / 2) (b / 2)
bit_or_round zero b = simp bit_or-bitwise (omega arith)
bit_or_round (suc a) b =
    simp bit_or-bitwise (omega (arith, bitwise_round (λ y. y) max (suc a) b (omega arith)))

pub bit_and_round : (a b : ℕ) → bit_and a b ≡ min (a % 2) (b % 2) + 2 * bit_and (a / 2) (b / 2)
bit_and_round zero b = simp bit_and-bitwise (omega arith)
bit_and_round (suc a) b =
    simp bit_and-bitwise (omega (arith, bitwise_round (λ y. zero) min (suc a) b (omega arith)))

differ_digits : (x y : ℕ) → x < 2 → y < 2 → differ x y ≡ (x + y) % 2
differ_digits zero zero h k = refl
differ_digits zero (suc y) h k = omega arith
differ_digits (suc zero) zero h k = refl
differ_digits (suc zero) (suc zero) h k = refl
differ_digits (suc zero) (suc (suc y)) h k = absurd (omega arith)
differ_digits (suc (suc x)) y h k = absurd (omega arith)

pub zero-bit_xor : (b : ℕ) → bit_xor 0 b ≡ b
zero-bit_xor b = bit_xor-bitwise 0 b

pub bit_xor_round : (a b : ℕ) → bit_xor a b ≡ bit_xor (a / 2) (b / 2) * 2 + (a + b) % 2
bit_xor_round zero b = omega (arith, zero-bit_xor b, zero-bit_xor (b / 2))
bit_xor_round (suc a) b = simp bit_xor-bitwise (
    omega (
      arith,
      bitwise_round (λ y. y) differ (suc a) b (omega arith),
      differ_digits (suc a % 2) (b % 2) (omega arith) (omega arith),
    ))

-- Halving commutes with `^`, and the lowest digit is the parity of the sum.
pub bit_xor-half : (a b : ℕ) → bit_xor a b / 2 ≡ bit_xor (a / 2) (b / 2)
bit_xor-half a b = omega (arith, bit_xor_round a b)

pub bit_xor_low : (a b : ℕ) → bit_xor a b % 2 ≡ (a + b) % 2
bit_xor_low a b = omega (arith, bit_xor_round a b)

comm_below : (n a b : ℕ) → a ≤ n → b ≤ n → bit_xor a b ≡ bit_xor b a
comm_below zero zero zero h k = refl
comm_below zero (suc a) b h k = absurd (omega arith)
comm_below zero zero (suc b) h k = absurd (omega arith)
comm_below (suc n) a b h k = omega (
  arith,
  bit_xor_round a b,
  bit_xor_round b a,
  comm_below n (a / 2) (b / 2) (omega arith) (omega arith),
)

pub bit_xor_comm : (a b : ℕ) → bit_xor a b ≡ bit_xor b a
bit_xor_comm a b = comm_below (a + b) a b (omega arith) (omega arith)

pub bit_xor-zero : (a : ℕ) → bit_xor a 0 ≡ a
bit_xor-zero a = bit_xor_comm a 0 ∙ zero-bit_xor a

assoc_below :
    (n a b c : ℕ) → a ≤ n → b ≤ n → c ≤ n → bit_xor (bit_xor a b) c ≡ bit_xor a (bit_xor b c)
assoc_below zero zero zero zero h k l = refl
assoc_below zero (suc a) b c h k l = absurd (omega arith)
assoc_below zero zero (suc b) c h k l = absurd (omega arith)
assoc_below zero zero zero (suc c) h k l = absurd (omega arith)
assoc_below (suc n) a b c h k l =
    let left : bit_xor (bit_xor a b / 2) (c / 2) ≡ bit_xor (bit_xor (a / 2) (b / 2)) (c / 2) =
      ap (λ (t : ℕ). bit_xor t (c / 2)) (bit_xor-half a b) in
    let right : bit_xor (a / 2) (bit_xor b c / 2) ≡ bit_xor (a / 2) (bit_xor (b / 2) (c / 2)) =
      ap (λ (t : ℕ). bit_xor (a / 2) t) (bit_xor-half b c) in
    omega (
      arith,
      left,
      right,
      bit_xor_low a b,
      bit_xor_low b c,
      bit_xor_round (bit_xor a b) c,
      bit_xor_round a (bit_xor b c),
      assoc_below n (a / 2) (b / 2) (c / 2) (omega arith) (omega arith) (omega arith),
    )

pub bit_xor_assoc : (a b c : ℕ) → bit_xor (bit_xor a b) c ≡ bit_xor a (bit_xor b c)
bit_xor_assoc a b c = assoc_below (a + b + c) a b c (omega arith) (omega arith) (omega arith)

self_below : (n a : ℕ) → a ≤ n → bit_xor a a ≡ 0
self_below zero zero h = refl
self_below zero (suc a) h = absurd (omega arith)
self_below (suc n) a h = omega (arith, bit_xor_round a a, self_below n (a / 2) (omega arith))

pub bit_xor_self : (a : ℕ) → bit_xor a a ≡ 0
bit_xor_self a = self_below a a (omega arith)

pub bit_xor-lt : (k a b : ℕ) → a < 2 ^ k → b < 2 ^ k → bit_xor a b < 2 ^ k
bit_xor-lt zero zero zero h l = omega arith
bit_xor-lt zero (suc a) b h l = absurd (omega arith)
bit_xor-lt zero zero (suc b) h l = absurd (omega arith)
bit_xor-lt (suc k) a b h l = omega (
  arith,
  pow-suc 2 k,
  bit_xor_round a b,
  bit_xor-lt k (a / 2) (b / 2) (omega (arith, pow-suc 2 k)) (omega (arith, pow-suc 2 k)),
)

-- `|` with nothing to set, and `&` with an empty mask.
or_nothing : (n a : ℕ) → a ≤ n → bit_or a 0 ≡ a
or_nothing zero zero h = refl
or_nothing zero (suc a) h = absurd (omega arith)
or_nothing (suc n) a h = omega (arith, bit_or_round a 0, or_nothing n (a / 2) (omega arith))

and_nothing : (n a : ℕ) → a ≤ n → bit_and a 0 ≡ 0
and_nothing zero zero h = refl
and_nothing zero (suc a) h = absurd (omega arith)
and_nothing (suc n) a h = omega (arith, bit_and_round a 0, and_nothing n (a / 2) (omega arith))

double_power : (q k : ℕ) → q * 2 ^ suc k ≡ 2 * (q * 2 ^ k)
double_power q k = omega (arith, ap (λ (t : ℕ). q * t) (pow-suc 2 k))

-- A number shifted by `k` places, `|` a number of `k` bits, is their sum.
pub bit_or-add : (k q r : ℕ) → r < 2 ^ k → bit_or (q * 2 ^ k) r ≡ q * 2 ^ k + r
bit_or-add zero q zero h = omega (arith, or_nothing (q * 2 ^ 0) (q * 2 ^ 0) (omega arith))
bit_or-add zero q (suc r) h = absurd (omega arith)
bit_or-add (suc k) q r h =
    let halved : bit_or (q * 2 ^ suc k / 2) (r / 2) ≡ bit_or (q * 2 ^ k) (r / 2) =
      ap (λ (t : ℕ). bit_or t (r / 2)) (omega (arith, double_power q k)) in
    omega (
      arith,
      halved,
      bit_or_round (q * 2 ^ suc k) r,
      double_power q k,
      bit_or-add k q (r / 2) (omega (arith, pow-suc 2 k)),
    )

-- The same for `^`.
pub bit_xor-add : (k q r : ℕ) → r < 2 ^ k → bit_xor (q * 2 ^ k) r ≡ q * 2 ^ k + r
bit_xor-add zero q zero h = omega (arith, bit_xor-zero (q * 2 ^ 0))
bit_xor-add zero q (suc r) h = absurd (omega arith)
bit_xor-add (suc k) q r h =
    let halved : bit_xor (q * 2 ^ suc k / 2) (r / 2) ≡ bit_xor (q * 2 ^ k) (r / 2) =
      ap (λ (t : ℕ). bit_xor t (r / 2)) (omega (arith, double_power q k)) in
    omega (
      arith,
      halved,
      bit_xor_round (q * 2 ^ suc k) r,
      double_power q k,
      bit_xor-add k q (r / 2) (omega (arith, pow-suc 2 k)),
    )

-- A low mask is a remainder.
pub bit_and-fifteen : (a : ℕ) → bit_and a 15 ≡ a % 16
bit_and-fifteen a = omega (
  arith,
  bit_and_round a 15,
  bit_and_round (a / 2) 7,
  bit_and_round (a / 2 / 2) 3,
  bit_and_round (a / 2 / 2 / 2) 1,
  and_nothing (a / 2 / 2 / 2 / 2) (a / 2 / 2 / 2 / 2) (omega arith),
)

pub bit_xor_swap :
    (a b c d : ℕ) → bit_xor (bit_xor a b) (bit_xor c d) ≡ bit_xor (bit_xor a c) (bit_xor b d)
bit_xor_swap a b c d = cc (
  bit_xor_assoc a b (bit_xor c d),
  bit_xor_assoc b c d,
  bit_xor_comm b c,
  bit_xor_assoc c b d,
  bit_xor_assoc a c (bit_xor b d),
)

pub bit_xor-shift : (a b : ℕ) → bit_xor a b / 16 ≡ bit_xor (a / 16) (b / 16)
bit_xor-shift a b =
    let quarter : bit_xor (a / 2) (b / 2) / 2 ≡ bit_xor (a / 4) (b / 4) =
      bit_xor-half (a / 2) (b / 2) ∙ ap₂ bit_xor (omega arith) (omega arith) in
    let eighth : bit_xor (a / 4) (b / 4) / 2 ≡ bit_xor (a / 8) (b / 8) =
      bit_xor-half (a / 4) (b / 4) ∙ ap₂ bit_xor (omega arith) (omega arith) in
    let last : bit_xor (a / 8) (b / 8) / 2 ≡ bit_xor (a / 16) (b / 16) =
      bit_xor-half (a / 8) (b / 8) ∙ ap₂ bit_xor (omega arith) (omega arith) in
    omega (arith, bit_xor-half a b, quarter, eighth, last)
