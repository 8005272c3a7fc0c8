-- ===== src/Cbor/Payload.antt =====
-- Byte strings and strings accepted by src/types/cbor_decoder.c: within the limits, and no longer
-- when encoded again.
use c_ur.Base.{ℕ, suc, ◌+◌, ◌≤◌, ◌<◌, ◌≢◌, ◌≡◌, refl, ap, ◌∙◌, Bool, true, false, arith}
use c_ur.Base.{List, [], ◌∷◌, length, length-append, leb, ◌==◌}
use c_ur.Base.{All, IsByte, Option, some, bind_cases, inl, inr, Bool-cases}
use mathlib.Core.Path.{subst₂}
use c_ur.ByteBuffer.{safe_malloc}
use c_ur.Cbor.Value.{Value, bytes, string}
use c_ur.Cbor.Value.{c_string}
use c_ur.Cbor.Value.{cbor_value_new_bytes, cbor_value_new_string}
use c_ur.Cbor.Decode.{max_item_len, read_bytes, read_argument, guard}
use c_ur.Cbor.Decode.{decode_bytes, decode_string}
use c_ur.Cbor.Head.{head_args, canonical_head_lem}
use c_ur.Cbor.Spec.{canonical_head, encoding, Fits}
use c_ur.Cbor.Argument.{read_bytes_lem, read_argument_lem}

-- What is known of a value decoded from the bytes after its first one.
pub record Sound (levels : ℕ) (input : List ℕ) (v : Value) (rest : List ℕ) : Type 0 where
  pub fits : Fits levels v
  pub shorter : length (encoding v) + length rest ≤ suc (length input)
  pub rest_bytes : All IsByte rest

pub guard-eq-true : (b : Bool) {u : Unit {0}} → guard b ≡ some u → b ≡ true
guard-eq-true true h = refl
guard-eq-true false h = cc

cbor_value_new_bytes_lem :
    (alloc : ℕ → Bool) (payload : List ℕ) {w : Value}
    → cbor_value_new_bytes alloc payload ≡ some w
    → bytes payload ≡ w
unfolding cbor_value_new_bytes
cbor_value_new_bytes_lem alloc [] h = ground arith
cbor_value_new_bytes_lem alloc (b ∷ bs) h = ground arith

cbor_value_new_string_lem :
    (alloc : ℕ → Bool) (str : List ℕ) {w : Value}
    → cbor_value_new_string alloc str ≡ some w
    → string (c_string str) ≡ w
unfolding cbor_value_new_string
cbor_value_new_string_lem alloc str h = ground arith

c_string_lem :
    (str : List ℕ)
    → All IsByte str
    → All (λ b. (b ≢ 0) × IsByte b) (c_string str) × (length (c_string str) ≤ length str)
unfolding c_string
c_string_lem [] h = (tt, omega arith)
c_string_lem (b ∷ bs) h = elim (Bool-cases (b == 0)) [
  | inl stop ↦ rw stop (tt, omega arith)
  | inr more ↦
      let (text, short) = c_string_lem bs h.1 in rw more (((ground arith, h.0), text), omega arith)
]

pub length-canonical_head_eq :
    (m v : ℕ) → m < 8 → length (canonical_head m v) ≡ suc (length (head_args v))
length-canonical_head_eq m v h = rw (canonical_head_lem m v h)

-- A shorter argument has no longer head.
pub head_args_mono : (v w : ℕ) → v ≤ w → length (head_args v) ≤ length (head_args w)
head_args_mono v w h = ground arith

-- The result of a routine, moved along what is known of it.
pub Sound-along :
    {levels : ℕ} {input : List ℕ} {u w v : Value} {q rest : List ℕ}
    → u ≡ w
    → ◌≡◌ {A = Option (Value × List ℕ)} (some (w, q)) (some (v, rest))
    → Sound levels input u q
    → Sound levels input v rest
Sound-along {levels} {input} p e s =
    subst₂ (λ a b. Sound levels input a b) (p ∙ ground (arith, e)) (ground (arith, e)) s

bytes-Sound :
    (levels : ℕ) (input payload rest : List ℕ)
    → 0 < length payload
    → length payload ≤ max_item_len
    → All IsByte payload
    → All IsByte rest
    → length (head_args (length payload)) + length payload + length rest ≤ length input
    → Sound (suc levels) input (bytes payload) rest
unfolding Fits encoding
bytes-Sound levels input payload rest pos fits ok rest_ok short = record {
  fits = (pos, fits, ok);
  shorter = omega (
    arith,
    length-append (canonical_head 2 (length payload)) payload,
    length-canonical_head_eq 2 (length payload) (omega arith),
  );
  rest_bytes = rest_ok;
}

string-Sound :
    (levels : ℕ) (input str rest : List ℕ)
    → length str ≤ max_item_len
    → All (λ b. (b ≢ 0) × IsByte b) str
    → All IsByte rest
    → length (head_args (length str)) + length str + length rest ≤ length input
    → Sound (suc levels) input (string str) rest
unfolding Fits encoding
string-Sound levels input str rest fits ok rest_ok short = record {
  fits = (fits, ok);
  shorter = omega (
    arith,
    length-append (canonical_head 3 (length str)) str,
    length-canonical_head_eq 3 (length str) (omega arith),
  );
  rest_bytes = rest_ok;
}

module _ (alloc : ℕ → Bool) (levels a : ℕ) (input : List ℕ) (v : Value) (rest : List ℕ)
    (ok : All IsByte input) where
  pub decode_bytes-Sound :
      decode_bytes alloc a input ≡ some (v, rest) → Sound (suc levels) input v rest
  unfolding decode_bytes safe_malloc
  decode_bytes-Sound e = bind_cases (read_argument a input) _ e λ p e₁ e₂.
      bind_cases (guard (leb p.0 max_item_len)) _ e₂ λ u₁ g₁ e₃.
        bind_cases (guard (safe_malloc alloc p.0)) _ e₃ λ u₂ g₂ e₄.
          bind_cases (read_bytes p.0 p.1) _ e₄ λ q e₅ e₆.
            bind_cases (cbor_value_new_bytes alloc q.0) _ e₆ λ w e₇ e₈.
              let r = read_argument_lem a input p.0 p.1 ok e₁ in
              let (len, left, bytes_ok, rest_ok) = read_bytes_lem p.0 p.1 q.0 q.1 r.rest_bytes e₅ in
              Sound-along (cbor_value_new_bytes_lem alloc q.0 e₇) e₈ (
                bytes-Sound levels input q.0 q.1
                  (ground (arith, guard-eq-true (safe_malloc alloc p.0) g₂))
                  (ground (arith, guard-eq-true (leb p.0 max_item_len) g₁)) bytes_ok rest_ok
                  (ground (arith, r.shorter)))

  pub decode_string-Sound :
      decode_string alloc a input ≡ some (v, rest) → Sound (suc levels) input v rest
  unfolding decode_string
  decode_string-Sound e = bind_cases (read_argument a input) _ e λ p e₁ e₂.
      bind_cases (guard (leb p.0 max_item_len)) _ e₂ λ u₁ g₁ e₃.
        bind_cases (guard (safe_malloc alloc (p.0 + 1))) _ e₃ λ u₂ g₂ e₄.
          bind_cases (read_bytes p.0 p.1) _ e₄ λ q e₅ e₆.
            bind_cases (cbor_value_new_string alloc q.0) _ e₆ λ w e₇ e₈.
              let r = read_argument_lem a input p.0 p.1 ok e₁ in
              let (len, left, bytes_ok, rest_ok) = read_bytes_lem p.0 p.1 q.0 q.1 r.rest_bytes e₅ in
              let (text, short) = c_string_lem q.0 bytes_ok in
              Sound-along (cbor_value_new_string_lem alloc q.0 e₇) e₈ (
                string-Sound levels input (c_string q.0) q.1
                  (ground (arith, guard-eq-true (leb p.0 max_item_len) g₁)) text rest_ok
                  (omega (
                    arith,
                    r.shorter,
                    ap (λ (t : ℕ). length (head_args t)) len,
                    head_args_mono (length (c_string q.0)) (length q.0) short,
                  )))
