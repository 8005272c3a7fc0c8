-- ===== src/Fountain/Xor/Words.antt =====
-- The loops of src/utils.c compute the XOR byte by byte.
use c_ur.Base.{
  ℕ, zero, suc, ◌+◌, ◌*◌, ◌/◌, ◌%◌, ◌^◌, ◌≤◌, ◌<◌, ◌≡◌, refl, ap, sym, ◌∙◌, arith, bit_xor,
}
use c_ur.Base.Bits.{bit_xor_round, bit_xor-lt}
use c_ur.Base.{
  List, [], ◌∷◌, ◌++◌, length, take, drop, take-append-drop, append_assoc, All, IsByte, append-nil,
  length-take, length-drop, All-take, All-drop,
}
use native.Mathlib.Nat.{pow-suc}
use c_ur.Fountain.Xor.{word_of, bytes_of, word_size, word_loop, byte_loop, ur_xor, ur_xor_inplace}

-- The XOR of two lists of bytes, as long as the shorter one.
unfoldable pub xor_bytes : List ℕ → List ℕ → List ℕ
xor_bytes [] b = []
xor_bytes (x ∷ a) [] = []
xor_bytes (x ∷ a) (y ∷ b) = bit_xor x y ∷ xor_bytes a b

cons_eq : {x y : ℕ} {a b : List ℕ} → x ≡ y → a ≡ b → x ∷ a ≡ y ∷ b
cons_eq e f = cc

shift_suc : (a k : ℕ) → a * 2 ^ suc k ≡ 2 * (a * 2 ^ k)
shift_suc a k = omega (arith, ap (λ (t : ℕ). a * t) (pow-suc 2 k))

-- High and low digits are combined separately.
bit_xor_parts :
    (k a b i j : ℕ)
    → i < 2 ^ k
    → j < 2 ^ k
    → bit_xor (a * 2 ^ k + i) (b * 2 ^ k + j) ≡ bit_xor a b * 2 ^ k + bit_xor i j
bit_xor_parts zero a b zero zero h l =
    ap (λ (t : ℕ). bit_xor t (b * 2 ^ 0 + 0)) a_plain ∙ ap (bit_xor a) b_plain ∙ omega arith
  where
    a_plain : a * 2 ^ 0 + 0 ≡ a
    a_plain = omega arith

    b_plain : b * 2 ^ 0 + 0 ≡ b
    b_plain = omega arith
bit_xor_parts zero a b (suc i) j h l = absurd (omega arith)
bit_xor_parts zero a b zero (suc j) h l = absurd (omega arith)
bit_xor_parts (suc k) a b i j h l =
    let left : (a * 2 ^ suc k + i) / 2 ≡ a * 2 ^ k + i / 2 = omega (arith, shift_suc a k) in
    let right : (b * 2 ^ suc k + j) / 2 ≡ b * 2 ^ k + j / 2 = omega (arith, shift_suc b k) in
    let halves : bit_xor ((a * 2 ^ suc k + i) / 2) ((b * 2 ^ suc k + j) / 2)
        ≡ bit_xor a b * 2 ^ k + bit_xor (i / 2) (j / 2) =
      ap (λ (t : ℕ). bit_xor t ((b * 2 ^ suc k + j) / 2)) left
      ∙ ap (bit_xor (a * 2 ^ k + i / 2)) right
      ∙ bit_xor_parts k a b (i / 2) (j / 2) (omega (arith, pow-suc 2 k))
          (omega (arith, pow-suc 2 k)) in
    omega (
      arith,
      halves,
      bit_xor_round (a * 2 ^ suc k + i) (b * 2 ^ suc k + j),
      bit_xor_round i j,
      shift_suc a k,
      shift_suc b k,
      shift_suc (bit_xor a b) k,
    )

bytes_of-bit_xor :
    (n : ℕ) (a b : List ℕ)
    → length a ≡ n
    → length b ≡ n
    → All IsByte a
    → All IsByte b
    → bytes_of n (bit_xor (word_of a) (word_of b)) ≡ xor_bytes a b
unfolding bytes_of word_of xor_bytes
bytes_of-bit_xor zero [] b e f h k = refl
bytes_of-bit_xor (suc n) (x ∷ a) (y ∷ b) e f h k =
    let w : bit_xor (word_of a * 2 ^ 8 + x) (word_of b * 2 ^ 8 + y)
        ≡ bit_xor (word_of a) (word_of b) * 2 ^ 8 + bit_xor x y =
      bit_xor_parts 8 (word_of a) (word_of b) x y h.0 k.0 in
    let low : bit_xor x y < 2 ^ 8 = bit_xor-lt 8 x y h.0 k.0 in
    let head : bit_xor (word_of a * 2 ^ 8 + x) (word_of b * 2 ^ 8 + y) % 2 ^ 8 ≡ bit_xor x y =
      omega arith in
    let tail : bit_xor (word_of a * 2 ^ 8 + x) (word_of b * 2 ^ 8 + y) / 2 ^ 8
        ≡ bit_xor (word_of a) (word_of b) =
      omega arith in
    cons_eq head (ap (bytes_of n) tail ∙ bytes_of-bit_xor n a b (omega arith) (omega arith) h.1 k.1)
bytes_of-bit_xor zero (x ∷ a) b e f h k = absurd (omega arith)
bytes_of-bit_xor (suc n) [] b e f h k = absurd (omega arith)
bytes_of-bit_xor (suc n) (x ∷ a) [] e f h k = absurd (omega arith)

xor_bytes-append :
    (a b c d : List ℕ)
    → length a ≡ length b
    → xor_bytes (a ++ c) (b ++ d) ≡ xor_bytes a b ++ xor_bytes c d
unfolding xor_bytes
xor_bytes-append [] [] c d e = refl
xor_bytes-append [] (y ∷ b) c d e = absurd (omega arith)
xor_bytes-append (x ∷ a) [] c d e = absurd (omega arith)
xor_bytes-append (x ∷ a) (y ∷ b) c d e =
    ap (λ (l : List ℕ). bit_xor x y ∷ l) (xor_bytes-append a b c d (omega arith))

byte_loop-eq :
    (n : ℕ) (a b : List ℕ) → length a ≡ n → length b ≡ n → byte_loop n a b ≡ xor_bytes a b
unfolding byte_loop xor_bytes
byte_loop-eq zero [] b e f = refl
byte_loop-eq zero (x ∷ a) b e f = absurd (omega arith)
byte_loop-eq (suc n) [] b e f = refl
byte_loop-eq (suc n) (x ∷ a) [] e f = refl
byte_loop-eq (suc n) (x ∷ a) (y ∷ b) e f =
    ap (λ (l : List ℕ). bit_xor x y ∷ l) (byte_loop-eq n a b (omega arith) (omega arith))

drop-nil : (n : ℕ) → drop {A = ℕ} n [] ≡ []
drop-nil zero = refl
drop-nil (suc n) = refl

drop-drop : (m n k : ℕ) (a : List ℕ) → k ≡ m + n → drop k a ≡ drop n (drop m a)
drop-drop zero n k a e = ap (λ (i : ℕ). drop i a) {y = n} (omega arith)
drop-drop (suc m) n zero a e = absurd (omega arith)
drop-drop (suc m) n (suc k) [] e = sym (drop-nil n)
drop-drop (suc m) n (suc k) (x ∷ a) e = drop-drop m n k a (omega arith)

xor_bytes-take-drop :
    (n : ℕ) (a b : List ℕ)
    → n ≤ length a
    → n ≤ length b
    → xor_bytes (take n a) (take n b) ++ xor_bytes (drop n a) (drop n b) ≡ xor_bytes a b
xor_bytes-take-drop n a b h k =
    sym (
      xor_bytes-append (take n a) (take n b) (drop n a) (drop n b)
        (omega (arith, length-take n a, length-take n b)))
    ∙ ap (λ (l : List ℕ). xor_bytes l (take n b ++ drop n b)) (take-append-drop n a)
    ∙ ap (xor_bytes a) (take-append-drop n b)

loops_joined :
    (words n : ℕ) (a b : List ℕ)
    → length a ≡ words * word_size + n
    → length b ≡ words * word_size + n
    → All IsByte a
    → All IsByte b
    → word_loop words a b ++ byte_loop n (drop (words * word_size) a) (drop (words * word_size) b)
      ≡ xor_bytes a b
unfolding word_loop
loops_joined zero n a b e f h k = byte_loop-eq n a b (omega arith) (omega arith)
loops_joined (suc words) n a b e f h k =
    rw
      (
        drop-drop 8 (words * 8) (suc words * 8) a (omega arith),
        drop-drop 8 (words * 8) (suc words * 8) b (omega arith),
        bytes_of-bit_xor 8 (take 8 a) (take 8 b) (omega (arith, length-take 8 a, e))
            (omega (arith, length-take 8 b, f)) (All-take IsByte 8 a h) (All-take IsByte 8 b k),
        append_assoc,
        loops_joined words n (drop 8 a) (drop 8 b) (omega (arith, length-drop 8 a, e))
            (omega (arith, length-drop 8 b, f)) (All-drop IsByte 8 a h) (All-drop IsByte 8 b k),
      )
      (xor_bytes-take-drop 8 a b (omega (arith, e)) (omega (arith, f)))

-- On two buffers of n bytes ur_xor gives the XOR byte by byte, whatever the split into words.
pub ur_xor-xor_bytes :
    (a b : List ℕ) (n : ℕ)
    → length a ≡ n
    → length b ≡ n
    → All IsByte a
    → All IsByte b
    → ur_xor a b n ≡ xor_bytes a b
unfolding ur_xor
ur_xor-xor_bytes a b n e f h k =
    loops_joined (n / 8) (n % 8) a b (omega (arith, e)) (omega (arith, f)) h k

drop-all : (n : ℕ) (a : List ℕ) → length a ≤ n → drop n a ≡ []
drop-all zero [] h = refl
drop-all zero (x ∷ a) h = absurd (omega arith)
drop-all (suc n) [] h = refl
drop-all (suc n) (x ∷ a) h = drop-all n a (omega arith)

pub ur_xor_inplace-xor_bytes :
    (a b : List ℕ) (n : ℕ)
    → length a ≡ n
    → length b ≡ n
    → All IsByte a
    → All IsByte b
    → ur_xor_inplace a b n ≡ xor_bytes a b
unfolding ur_xor_inplace
ur_xor_inplace-xor_bytes a b n e f h k =
    rw (drop-all n a (omega arith), ur_xor-xor_bytes a b n e f h k, append-nil)
