-- ===== src/Cbor/Sound.antt =====
-- Whatever src/types/cbor_decoder.c accepts is within its limits, and is decoded again from its own
-- canonical bytes.
use c_ur.Base.{◌>>=◌, ℕ, zero, suc, ◌+◌, ◌/◌, ◌%◌, ◌≤◌, ◌≡◌, Bool, true, arith}
use c_ur.Base.{◌⊎◌, List, [], ◌∷◌, length}
use c_ur.Base.{All, IsByte, some, bind_cases, inl, inr}
use mathlib.Core.Path.{subst}
use c_ur.ByteBuffer.{max_capacity}
use c_ur.Cbor.Value.{Value}
use c_ur.Cbor.Decode.{max_depth, read_byte, Parser}
use c_ur.Cbor.Decode.{decode_unsigned_int, decode_simple, decode_bytes, decode_string}
use c_ur.Cbor.Decode.{decode_array, decode_map, decode_tag, decode_major, decode_level}
use c_ur.Cbor.Decode.{decode_value, cbor_decode}
use c_ur.Cbor.Head.{decode_level-cons}
use c_ur.Cbor.Spec.{encoding, Fits}
use c_ur.Cbor.Payload.{Sound, decode_bytes-Sound, decode_string-Sound}
use c_ur.Cbor.Loops.{
  Accepts, decode_array-Sound, decode_map-Sound, decode_tag-Sound, decode_unsigned_int-Sound,
  decode_simple-Sound,
}
use c_ur.Cbor.RoundTrip.{cbor_decode-cbor_encode}
use c_ur.Cbor.Encode.{cbor_encode}
use c_ur.Base.{append-nil}

-- The routine that the major type selects.
decode_major_cases :
    (decode : Parser Value) (alloc : ℕ → Bool) (m a : ℕ) (input : List ℕ) (r : Value × List ℕ)
    → decode_major decode alloc m a input ≡ some r
    → (decode_unsigned_int a input ≡ some r)
      ⊎ (decode_bytes alloc a input ≡ some r)
      ⊎ (decode_string alloc a input ≡ some r)
      ⊎ (decode_array decode a input ≡ some r)
      ⊎ (decode_map decode a input ≡ some r)
      ⊎ (decode_tag decode a input ≡ some r)
      ⊎ (decode_simple a input ≡ some r)
unfolding decode_major
decode_major_cases decode alloc m a input r e = ground arith

module _ (alloc : ℕ → Bool) where
  decode_major-Sound :
      (levels : ℕ) (decode : Parser Value)
      → ((input : List ℕ) (v : Value) (rest : List ℕ)
          → All IsByte input
          → decode input ≡ some (v, rest)
          → Accepts levels input v rest)
      → (m a : ℕ) (input : List ℕ) (v : Value) (rest : List ℕ) → All IsByte input
      → decode_major decode alloc m a input ≡ some (v, rest)
      → Sound (suc levels) input v rest
  decode_major-Sound l d sound m a input v rest ok e =
      elim (decode_major_cases d alloc m a input (v, rest) e) [
        | inl k ↦ decode_unsigned_int-Sound l a input v rest ok k
        | inr (inl k) ↦ decode_bytes-Sound alloc l a input v rest ok k
        | inr (inr (inl k)) ↦ decode_string-Sound alloc l a input v rest ok k
        | inr (inr (inr (inl k))) ↦ decode_array-Sound l d sound a input v rest ok k
        | inr (inr (inr (inr (inl k)))) ↦ decode_map-Sound l d sound a input v rest ok k
        | inr (inr (inr (inr (inr (inl k))))) ↦ decode_tag-Sound l d sound a input v rest ok k
        | inr (inr (inr (inr (inr (inr k))))) ↦ decode_simple-Sound l a input v rest ok k
      ]

  pub decode_level-Accepts :
      (levels : ℕ) (input : List ℕ) (v : Value) (rest : List ℕ)
      → All IsByte input
      → decode_level alloc levels input ≡ some (v, rest)
      → Accepts levels input v rest
  decode_level-Accepts zero input v rest ok e = unfold decode_level in cc
  decode_level-Accepts (suc l) [] v rest ok e = unfold decode_level read_byte in cc
  decode_level-Accepts (suc l) (b ∷ bs) v rest ok e =
      let e' = rw (decode_level-cons alloc l b bs ok.0) at e in
      let s =
        decode_major-Sound l (decode_level alloc l) (decode_level-Accepts l) (b / 32) (b % 32) bs v
          rest ok.1 e' in
      record { fits = s.fits; shorter = s.shorter; rest_bytes = s.rest_bytes }

-- Any value that `cbor_decode` returns, whatever the allocator answers and whatever bytes it is
-- given, is within the decoder's limits, and its canonical bytes are no more than the input.
pub cbor_decode-Fits :
    (alloc : ℕ → Bool) (input : List ℕ) (v : Value)
    → All IsByte input
    → cbor_decode alloc input ≡ some v
    → Fits (max_depth + 1) v × (length (encoding v) ≤ length input)
unfolding cbor_decode decode_value
cbor_decode-Fits alloc [] v ok e = cc
cbor_decode-Fits alloc (b ∷ bs) v ok e =
    let decoded : (decode_level alloc (max_depth + 1) (b ∷ bs) >>= λ r. some r.0) ≡ some v =
      ground arith in
    bind_cases (decode_level alloc (max_depth + 1) (b ∷ bs)) (λ r. some r.0) decoded
      λ p e₁ e₂.
        let a = decode_level-Accepts alloc (max_depth + 1) (b ∷ bs) p.0 p.1 ok e₁ in
        subst (λ w. Fits (max_depth + 1) w × (length (encoding w) ≤ length (b ∷ bs)))
          (ground (arith, e₂)) (a.fits, omega (arith, a.shorter))

-- When every allocation is served, a value that was decoded from at most 1 MiB of bytes, in any form
-- that the decoder accepts, is encoded to bytes that decode to the same value.
pub cbor_decode-canonical :
    (alloc : ℕ → Bool) (input : List ℕ) (v : Value)
    → ((n : ℕ) → alloc n ≡ true)
    → All IsByte input
    → length input ≤ max_capacity
    → cbor_decode alloc input ≡ some v
    → (bs : List ℕ) × (cbor_encode alloc v ≡ some bs) × (cbor_decode alloc bs ≡ some v)
cbor_decode-canonical alloc input v served ok small e =
    let (fits, short) = cbor_decode-Fits alloc input v ok e in
    let (bs, written, read) =
      cbor_decode-cbor_encode alloc v [] served fits (omega (arith, short)) in
    (bs, written, rw append-nil at read)
