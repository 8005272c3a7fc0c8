-- ===== src/Fountain/Prng.antt =====
-- The generator of src/fountain_utils.c by which fragments are chosen.
use c_ur.Base.{ℕ, ◌-◌, ◌*◌, ◌/◌, ◌%◌, ◌^◌, bit_or, bit_xor, List, [], ◌∷◌, take, drop}

-- A word of 64 bits.
abbrev pub u64 : ℕ → ℕ
u64 n = n % 2 ^ 64

-- prng_state_t
pub record PrngState : Type 0 where
  pub state_0 : ℕ
  pub state_1 : ℕ
  pub state_2 : ℕ
  pub state_3 : ℕ

unfoldable pub rotl : ℕ → ℕ → ℕ
rotl x k = bit_or (u64 (x * 2 ^ k)) (x / 2 ^ (64 - k))

-- The inner loop: `word` is what was read so far.
unfoldable pub read_word : ℕ → List ℕ → ℕ
read_word word [] = word
read_word word (b ∷ bytes) = read_word (bit_or (u64 (word * 2 ^ 8)) b) bytes

-- `sha256` belongs to the bundled library; it gives 32 bytes.
unfoldable pub prng_init_from_bytes : (List ℕ → List ℕ) → List ℕ → PrngState
prng_init_from_bytes sha256 seed =
    let hash = sha256 seed in
    record {
      state_0 = read_word 0 (take 8 hash);
      state_1 = read_word 0 (take 8 (drop 8 hash));
      state_2 = read_word 0 (take 8 (drop 16 hash));
      state_3 = read_word 0 (take 8 (drop 24 hash));
    }

-- The state after a draw, and the number drawn.
unfoldable pub prng_next_uint64 : PrngState → PrngState × ℕ
prng_next_uint64 prng =
    let result = u64 (rotl (u64 (prng.state_1 * 5)) 7 * 9) in
    let t = u64 (prng.state_1 * 2 ^ 17) in
    let s2 = bit_xor prng.state_2 prng.state_0 in
    let s3 = bit_xor prng.state_3 prng.state_1 in
    let s1 = bit_xor prng.state_1 s2 in
    let s0 = bit_xor prng.state_0 s3 in
    (record { state_0 = s0; state_1 = s1; state_2 = bit_xor s2 t; state_3 = rotl s3 45 }, result)
