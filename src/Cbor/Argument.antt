-- ===== src/Cbor/Argument.antt =====
-- What the reading routines of src/types/cbor_decoder.c return: the bytes they took, and the bounds
-- of the argument of a head.
use c_ur.Base.{ℕ, suc, ◌+◌, ◌*◌, ◌^◌, ◌≤◌, ◌<◌, ◌≡◌, ap, arith}
use c_ur.Base.{◌⊎◌, List, [], ◌∷◌, length, length-take, length-drop, All-take, All-drop}
use c_ur.Base.{All, IsByte, Option, some, ◌>>=◌, >>=-eq-some, inl, inr, bit_or}
use mathlib.Core.Path.{subst}
use c_ur.Base.Bits.{bit_or-add}
use c_ur.Cbor.Decode.{read_byte, read_bytes, read_argument, Parser, join_2, join_4}
use c_ur.Cbor.Head.{head_args}

pub read_bytes_lem :
    (n : ℕ) (input bs rest : List ℕ)
    → All IsByte input
    → read_bytes n input ≡ some (bs, rest)
    → (length bs ≡ n) × (length input ≡ n + length rest) × All IsByte bs × All IsByte rest
unfolding read_bytes
read_bytes_lem n input bs rest h e = ground (
  arith,
  length-take n input,
  length-drop n input,
  All-take IsByte n input h,
  All-drop IsByte n input h,
)

join_2-lt : (bs : List ℕ) → length bs ≡ 2 → All IsByte bs → join_2 bs < 2 ^ 16
join_2-lt (a ∷ b ∷ []) e h = omega (arith, bit_or-add 8 a b (omega arith))
join_2-lt _ e h = absurd (omega arith)

join_4-lt : (bs : List ℕ) → length bs ≡ 4 → All IsByte bs → join_4 bs < 2 ^ 32
join_4-lt (a ∷ b ∷ c ∷ d ∷ []) e h = rw (high, middle, low) (omega arith)
  where
    high : bit_or (a * 2 ^ 24) (b * 2 ^ 16) ≡ (a * 256 + b) * 2 ^ 16
    high = omega (arith, bit_or-add 24 a (b * 2 ^ 16) (omega arith))

    middle : bit_or ((a * 256 + b) * 2 ^ 16) (c * 2 ^ 8) ≡ ((a * 256 + b) * 256 + c) * 2 ^ 8
    middle = omega (arith, bit_or-add 16 (a * 256 + b) (c * 2 ^ 8) (omega arith))

    low : bit_or (((a * 256 + b) * 256 + c) * 2 ^ 8) d ≡ ((a * 256 + b) * 256 + c) * 256 + d
    low = omega (arith, bit_or-add 8 ((a * 256 + b) * 256 + c) d (omega arith))
join_4-lt _ e h = absurd (omega arith)

pub record ReadsArgument (input : List ℕ) (v : ℕ) (rest : List ℕ) : Type 0 where
  pub small : v < 2 ^ 32
  pub shorter : length (head_args v) + length rest ≤ length input
  pub rest_bytes : All IsByte rest

read_byte_lem :
    (input : List ℕ) (v : ℕ) (rest : List ℕ)
    → All IsByte input
    → read_byte input ≡ some (v, rest)
    → (v < 256) × (length input ≡ suc (length rest)) × All IsByte rest
unfolding read_byte
read_byte_lem [] v rest h e = cc
read_byte_lem (b ∷ bs) v rest h e = ground (arith, h.0, h.1)

-- An argument that `join` makes of `n` bytes.
abbrev read_joined : ℕ → (List ℕ → ℕ) → Parser ℕ
read_joined n join input = read_bytes n input >>= λ r. some (join r.0, r.1)

reads_joined :
    (n : ℕ) (join : List ℕ → ℕ) (input : List ℕ) (v : ℕ) (rest : List ℕ)
    → All IsByte input
    → ((bs : List ℕ)
        → length bs ≡ n
        → All IsByte bs
        → (join bs < 2 ^ 32) × (length (head_args (join bs)) ≤ n))
    → read_joined n join input ≡ some (v, rest)
    → ReadsArgument input v rest
reads_joined n join input v rest h small e =
    let f : List ℕ × List ℕ → Option (ℕ × List ℕ) = λ r. some (join r.0, r.1) in
    let (r, read, result) = >>=-eq-some (read_bytes n input) f e in
    let (len, left, bytes_ok, rest_ok) = read_bytes_lem n input r.0 r.1 h read in
    record {
      small = ground (arith, result, small r.0 len bytes_ok);
      shorter = ground (arith, result, small r.0 len bytes_ok, left);
      rest_bytes = ground (arith, result, rest_ok);
    }

-- The four forms of an argument.
read_argument_cases :
    (a : ℕ) (input : List ℕ) (v : ℕ) (rest : List ℕ)
    → read_argument a input ≡ some (v, rest)
    → ((a < 24) × (a ≡ v) × (input ≡ rest))
      ⊎ (read_byte input ≡ some (v, rest))
      ⊎ (read_joined 2 join_2 input ≡ some (v, rest))
      ⊎ (read_joined 4 join_4 input ≡ some (v, rest))
unfolding read_argument
read_argument_cases a input v rest e = ground arith

pub read_argument_lem :
    (a : ℕ) (input : List ℕ) (v : ℕ) (rest : List ℕ)
    → All IsByte input
    → read_argument a input ≡ some (v, rest)
    → ReadsArgument input v rest
read_argument_lem a input v rest h e = elim (read_argument_cases a input v rest e) [
  | inl (small, same, all) ↦ record {
    small = omega arith;
    shorter = ground (arith, ap length all);
    rest_bytes = subst (All IsByte) all h;
  }
  | inr (inl one) ↦
      let (small, len, ok) = read_byte_lem input v rest h one in
      record { small = omega arith; shorter = ground arith; rest_bytes = ok }
  | inr (inr (inl two)) ↦
      reads_joined 2 join_2 input v rest h
        (λ bs len ok. let lt = join_2-lt bs len ok in (omega arith, ground arith)) two
  | inr (inr (inr four)) ↦
      reads_joined 4 join_4 input v rest h
        (λ bs len ok. let lt = join_4-lt bs len ok in (lt, ground arith)) four
]
