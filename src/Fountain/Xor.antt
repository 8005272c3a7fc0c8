-- ===== src/Fountain/Xor.antt =====
-- The XOR of buffers of src/utils.c in its portable build: whole words of 8 bytes, then the bytes
-- that are left.
pub mod Words
pub mod Algebra
use c_ur.Base.{ℕ, zero, suc, ◌+◌, ◌*◌, ◌/◌, ◌%◌, ◌^◌, bit_xor, List, [], ◌∷◌, ◌++◌, take, drop}

-- What memcpy reads into a word of a little-endian machine, and what it writes back.
unfoldable pub word_of : List ℕ → ℕ
word_of [] = 0
word_of (b ∷ bs) = word_of bs * 2 ^ 8 + b

unfoldable pub bytes_of : ℕ → ℕ → List ℕ
bytes_of zero w = []
bytes_of (suc n) w = w % 2 ^ 8 ∷ bytes_of n (w / 2 ^ 8)

-- sizeof(ur_xor_word_t)
abbrev pub word_size : ℕ
word_size = 8

-- The loop over the words, from the two pointers on.
unfoldable pub word_loop : ℕ → List ℕ → List ℕ → List ℕ
word_loop zero a b = []
word_loop (suc words) a b =
    bytes_of word_size (bit_xor (word_of (take word_size a)) (word_of (take word_size b)))
    ++ word_loop words (drop word_size a) (drop word_size b)

-- The loop over the bytes; a buffer that ends too early ends it.
unfoldable pub byte_loop : ℕ → List ℕ → List ℕ → List ℕ
byte_loop zero a b = []
byte_loop (suc n) [] b = []
byte_loop (suc n) (x ∷ a) [] = []
byte_loop (suc n) (x ∷ a) (y ∷ b) = bit_xor x y ∷ byte_loop n a b

-- out[0 .. n)
unfoldable pub ur_xor : List ℕ → List ℕ → ℕ → List ℕ
ur_xor a b n =
    let words = n / word_size in
    word_loop words a b
    ++ byte_loop (n % word_size) (drop (words * word_size) a) (drop (words * word_size) b)

-- The buffer `dst` afterwards.
unfoldable pub ur_xor_inplace : List ℕ → List ℕ → ℕ → List ℕ
ur_xor_inplace dst src n = ur_xor dst src n ++ drop n dst
