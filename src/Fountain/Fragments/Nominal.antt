-- ===== src/Fountain/Fragments/Nominal.antt =====
-- The fragment length that src/fountain_encoder.c chooses.
use c_ur.Base.{ℕ, zero, suc, ◌+◌, ◌-◌, ◌/◌, ◌≤◌, ◌<◌, ◌≡◌, ◌⊎◌, inl, inr, sym, arith}
use mathlib.Core.Path.{subst}
use native.Mathlib.Nat.{le-div_iff_mul-le, div-le_of_le-mul, le-mul_of_pos_right}
use c_ur.Fountain.Fragments.{nominal_loop, find_nominal_fragment_length}

abbrev pub ceiling : ℕ → ℕ → ℕ
ceiling a b = (a + b - 1) / b

-- The chosen length: that of `parts` equal parts, the fewest that fit, or the most that the minimum
-- admits.
pub record IsNominal (message_len limit max_len : ℕ) (len : ℕ) : Type 0 where
  pub parts : ℕ
  pub one_at_least : 1 ≤ parts
  pub few_enough : parts ≤ limit
  pub is_ceiling : len ≡ ceiling message_len parts
  pub fewer_do_not_fit : (k : ℕ) → 1 ≤ k → k < parts → max_len < ceiling message_len k
  pub fits : (len ≤ max_len) ⊎ (parts ≡ limit)

-- A pass either takes the length of its count or finds it too long and goes on.
nominal_loop_cases :
    (rounds count m max f : ℕ)
    → ((ceiling m count ≤ max) × (nominal_loop (suc rounds) count m max f ≡ ceiling m count))
      ⊎ ((max < ceiling m count)
          × (nominal_loop (suc rounds) count m max f
              ≡ nominal_loop rounds (count + 1) m max (ceiling m count)))
unfolding nominal_loop
nominal_loop_cases rounds count m max f = ground arith

below_suc_cases : (k count : ℕ) → k < count + 1 → (k < count) ⊎ (k ≡ count)
below_suc_cases k count h = ground arith

nominal_loop-last : (count m max f : ℕ) → nominal_loop 1 count m max f ≡ ceiling m count
unfolding nominal_loop
nominal_loop-last count m max f = ground arith

fewer_extended :
    (count m max : ℕ)
    → ((k : ℕ) → 1 ≤ k → k < count → max < ceiling m k)
    → max < ceiling m count
    → (k : ℕ) → 1 ≤ k
    → k < count + 1
    → max < ceiling m k
fewer_extended count m max fewer over k pos lt = elim (below_suc_cases k count lt) [
  | inl less ↦ fewer k pos less
  | inr e ↦ subst (λ (n : ℕ). max < ceiling m n) (sym e) over
]

-- The loop from `count` on, with a limit not below it.
nominal_loop-IsNominal :
    (rounds count m max f : ℕ)
    → 1 ≤ count
    → ((k : ℕ) → 1 ≤ k → k < count → max < ceiling m k)
    → IsNominal m (count + rounds) max (nominal_loop (suc rounds) count m max f)
nominal_loop-IsNominal zero count m max f pos fewer = record {
  parts = count;
  one_at_least = pos;
  few_enough = omega arith;
  is_ceiling = nominal_loop-last count m max f;
  fewer_do_not_fit = fewer;
  fits = inr (omega arith);
}
nominal_loop-IsNominal (suc rounds) count m max f pos fewer =
    elim (nominal_loop_cases (suc rounds) count m max f) [
      | inl (fit, e) ↦ record {
        parts = count;
        one_at_least = pos;
        few_enough = omega arith;
        is_ceiling = e;
        fewer_do_not_fit = fewer;
        fits = inl (omega (arith, e, fit));
      }
      | inr (over, e) ↦
          subst (λ (n : ℕ). IsNominal m n max (nominal_loop (suc (suc rounds)) count m max f))
            (omega arith)
            (subst (IsNominal m (count + 1 + rounds) max) (sym e) (
              nominal_loop-IsNominal rounds (count + 1) m max (ceiling m count) (omega arith)
                (fewer_extended count m max fewer over)))
    ]

ceiling-le : (m parts : ℕ) → 1 ≤ m → 1 ≤ parts → ceiling m parts ≤ m
ceiling-le m zero h k = absurd (omega arith)
ceiling-le m (suc parts) h k =
    div-le_of_le-mul (suc parts) (grind (arith, le-mul_of_pos_right parts h))

le-ceiling : (m min parts : ℕ) → 0 < min → 1 ≤ parts → parts ≤ m / min → min ≤ ceiling m parts
le-ceiling m min parts pos one h =
    (le-div_iff_mul-le one).1 (grind (arith, (le-div_iff_mul-le pos).0 h))

nominal_loop-limit :
    (limit m max : ℕ) → 1 ≤ limit → IsNominal m limit max (nominal_loop limit 1 m max 0)
nominal_loop-limit zero m max h = absurd (omega arith)
nominal_loop-limit (suc rounds) m max h =
    subst (λ (n : ℕ). IsNominal m n max (nominal_loop (suc rounds) 1 m max 0)) (omega arith)
      (nominal_loop-IsNominal rounds 1 m max 0 (omega arith) (λ k one lt. absurd (omega arith)))

find_nominal_fragment_length-eq :
    (m min max : ℕ)
    → 0 < min
    → min ≤ max
    → min ≤ m
    → find_nominal_fragment_length m min max ≡ nominal_loop (m / min) 1 m max 0
unfolding find_nominal_fragment_length
find_nominal_fragment_length-eq m min max pos h k = ground arith

IsNominal-bounds :
    (m min max len : ℕ)
    → 0 < min
    → min ≤ m
    → IsNominal m (m / min) max len
    → IsNominal m (m / min) max len × (min ≤ len) × (len ≤ m)
IsNominal-bounds m min max len pos k nominal = (
  nominal,
  grind (
    arith,
    nominal.is_ceiling,
    le-ceiling m min nominal.parts pos nominal.one_at_least nominal.few_enough,
  ),
  grind (arith, nominal.is_ceiling, ceiling-le m nominal.parts (omega arith) nominal.one_at_least),
)

-- For arguments that are not refused and a message of the minimum length at least, the nominal
-- fragment length is the message in the fewest equal parts that do not exceed the maximum, or in as
-- many as the minimum admits if none does; it is at least the minimum and at most the message.
pub find_nominal_fragment_length-IsNominal :
    (message_len min_len max_len : ℕ)
    → 0 < min_len
    → min_len ≤ max_len
    → min_len ≤ message_len
    → IsNominal message_len
        (message_len / min_len)
        max_len
        (find_nominal_fragment_length message_len min_len max_len)
      × (min_len ≤ find_nominal_fragment_length message_len min_len max_len)
      × (find_nominal_fragment_length message_len min_len max_len ≤ message_len)
find_nominal_fragment_length-IsNominal m min max pos h k =
    IsNominal-bounds m min max (find_nominal_fragment_length m min max) pos k (
      subst (IsNominal m (m / min) max) (sym (find_nominal_fragment_length-eq m min max pos h k))
        (nominal_loop-limit (m / min) m max ((le-div_iff_mul-le pos).1 (omega arith))))
