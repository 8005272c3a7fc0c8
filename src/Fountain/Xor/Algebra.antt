-- ===== src/Fountain/Xor/Algebra.antt =====
-- The laws of the XOR of buffers of one length.
use c_ur.Base.{ℕ, zero, suc, ◌≡◌, refl, ap, ◌∙◌, arith}
use c_ur.Base.{List, [], ◌∷◌, length, replicate, All, IsByte}
use c_ur.Base.Bits.{bit_xor_comm, bit_xor_assoc, bit_xor_self, bit_xor-zero, bit_xor-lt}
use c_ur.Fountain.Xor.Words.{xor_bytes}

-- A buffer of `n` bytes.
pub record IsBuffer (n : ℕ) (a : List ℕ) : Type 0 where
  pub has_length : length a ≡ n
  pub are_bytes : All IsByte a

abbrev pub zeros : ℕ → List ℕ
zeros n = replicate n 0

pub zeros-IsBuffer : (n : ℕ) → IsBuffer n (zeros n)
zeros-IsBuffer zero = record { has_length = refl; are_bytes = tt }
zeros-IsBuffer (suc n) = record {
  has_length = ap suc (zeros-IsBuffer n).has_length;
  are_bytes = (omega arith, (zeros-IsBuffer n).are_bytes);
}

length-xor_bytes : (n : ℕ) (a b : List ℕ) → length a ≡ n → length b ≡ n → length (xor_bytes a b) ≡ n
unfolding xor_bytes
length-xor_bytes n [] b e f = e
length-xor_bytes n (x ∷ a) [] e f = f
length-xor_bytes zero (x ∷ a) (y ∷ b) e f = absurd (omega arith)
length-xor_bytes (suc n) (x ∷ a) (y ∷ b) e f =
    ap suc (length-xor_bytes n a b (omega arith) (omega arith))

xor_bytes-All : (a b : List ℕ) → All IsByte a → All IsByte b → All IsByte (xor_bytes a b)
unfolding xor_bytes
xor_bytes-All [] b h k = tt
xor_bytes-All (x ∷ a) [] h k = tt
xor_bytes-All (x ∷ a) (y ∷ b) h k = (bit_xor-lt 8 x y h.0 k.0, xor_bytes-All a b h.1 k.1)

pub xor_bytes-IsBuffer :
    (n : ℕ) (a b : List ℕ) → IsBuffer n a → IsBuffer n b → IsBuffer n (xor_bytes a b)
xor_bytes-IsBuffer n a b h k = record {
  has_length = length-xor_bytes n a b h.has_length k.has_length;
  are_bytes = xor_bytes-All a b h.are_bytes k.are_bytes;
}

cons_eq : {x y : ℕ} {a b : List ℕ} → x ≡ y → a ≡ b → x ∷ a ≡ y ∷ b
cons_eq e f = cc

pub xor_bytes_comm : (a b : List ℕ) → xor_bytes a b ≡ xor_bytes b a
unfolding xor_bytes
xor_bytes_comm [] [] = refl
xor_bytes_comm [] (y ∷ b) = refl
xor_bytes_comm (x ∷ a) [] = refl
xor_bytes_comm (x ∷ a) (y ∷ b) = cons_eq (bit_xor_comm x y) (xor_bytes_comm a b)

pub xor_bytes_assoc : (a b c : List ℕ) → xor_bytes (xor_bytes a b) c ≡ xor_bytes a (xor_bytes b c)
unfolding xor_bytes
xor_bytes_assoc [] b c = refl
xor_bytes_assoc (x ∷ a) [] c = refl
xor_bytes_assoc (x ∷ a) (y ∷ b) [] = refl
xor_bytes_assoc (x ∷ a) (y ∷ b) (z ∷ c) = cons_eq (bit_xor_assoc x y z) (xor_bytes_assoc a b c)

pub xor_bytes_self : (n : ℕ) (a : List ℕ) → length a ≡ n → xor_bytes a a ≡ zeros n
unfolding xor_bytes
xor_bytes_self zero [] e = refl
xor_bytes_self zero (x ∷ a) e = absurd (omega arith)
xor_bytes_self (suc n) [] e = absurd (omega arith)
xor_bytes_self (suc n) (x ∷ a) e = cons_eq (bit_xor_self x) (xor_bytes_self n a (omega arith))

pub xor_bytes-zeros : (n : ℕ) (a : List ℕ) → length a ≡ n → xor_bytes a (zeros n) ≡ a
unfolding xor_bytes
xor_bytes-zeros zero [] e = refl
xor_bytes-zeros zero (x ∷ a) e = absurd (omega arith)
xor_bytes-zeros (suc n) [] e = refl
xor_bytes-zeros (suc n) (x ∷ a) e = cons_eq (bit_xor-zero x) (xor_bytes-zeros n a (omega arith))

-- The second operand taken away again.
pub xor_bytes_cancel :
    (n : ℕ) (a b : List ℕ) → length a ≡ n → length b ≡ n → xor_bytes (xor_bytes a b) b ≡ a
xor_bytes_cancel n a b e f =
    xor_bytes_assoc a b b ∙ ap (xor_bytes a) (xor_bytes_self n b f) ∙ xor_bytes-zeros n a e

-- A common operand of both sides drops out.
pub xor_bytes_common :
    (n : ℕ) (c a b : List ℕ)
    → length c ≡ n
    → length b ≡ n
    → xor_bytes (xor_bytes c a) (xor_bytes c b) ≡ xor_bytes a b
xor_bytes_common n c a b e f =
    ap (λ (l : List ℕ). xor_bytes l (xor_bytes c b)) (xor_bytes_comm c a)
    ∙ xor_bytes_assoc a c (xor_bytes c b)
    ∙ ap (xor_bytes a) (
        xor_bytes_comm c (xor_bytes c b)
        ∙ ap (λ (l : List ℕ). xor_bytes l c) (xor_bytes_comm c b)
        ∙ xor_bytes_cancel n b c f e)
