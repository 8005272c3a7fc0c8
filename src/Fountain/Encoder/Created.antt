-- ===== src/Fountain/Encoder/Created.antt =====
-- fountain_encoder_new of src/fountain_encoder.c makes an encoder of its message.
use c_ur.Base.{
  ℕ, zero, suc, ◌-◌, ◌<◌, ◌≡◌, refl, sym, ◌∙◌, arith, List, [], ◌∷◌, length, take, drop, replicate,
  All, All-append, All-take, All-drop, IsByte, ◌==◌, if◌then◌else◌, none, some, bind_cases,
}
use mathlib.Core.Path.{subst}
use mathlib.Core.Option.{some-injective}
use c_ur.Fountain.Fragments.{
  find_nominal_fragment_length, fragment, partition_loop, partition_message, join_fragments,
}
use c_ur.Fountain.Fragments.Joined.{all_some, join_fragments-partition_message}
use c_ur.Fountain.Xor.Algebra.{IsBuffer}
use c_ur.Fountain.Decoder.State.{Machine}
use c_ur.Fountain.Decoder.Receive.{sampler_for}
use c_ur.Fountain.Decoder.Given.{sampler_for-eq}
use c_ur.Fountain.Encoder.{Encoder, encoder_of, fountain_encoder_new}
use c_ur.Fountain.Encoder.Parts.{IsEncoderOf}

zeros-IsByte : (n : ℕ) → All IsByte (replicate n 0)
zeros-IsByte zero = tt
zeros-IsByte (suc n) = (omega arith, zeros-IsByte n)

fragment-IsByte : (len : ℕ) (rest : List ℕ) → All IsByte rest → All IsByte (fragment len rest)
unfolding fragment
fragment-IsByte len rest h =
    All-append IsByte (take len rest) (replicate (len - length rest) 0) (All-take IsByte len rest h)
      (zeros-IsByte (len - length rest))

partition_loop-IsByte :
    (rounds len : ℕ) (xs : List ℕ) → All IsByte xs → All (All IsByte) (partition_loop rounds len xs)
unfolding partition_loop
partition_loop-IsByte rounds len [] h = tt
partition_loop-IsByte zero len (b ∷ xs) h = tt
partition_loop-IsByte (suc rounds) len (b ∷ xs) h = (
  fragment-IsByte len (b ∷ xs) h,
  partition_loop-IsByte rounds len (drop len (b ∷ xs)) (All-drop IsByte len (b ∷ xs) h),
)

both_kinds :
    (len : ℕ) (frags : List (List ℕ))
    → All (λ f. length f ≡ len) frags
    → All (All IsByte) frags
    → All (IsBuffer len) frags
both_kinds len [] h k = tt
both_kinds len (f ∷ fs) h k =
    (record { has_length = h.0; are_bytes = k.0 }, both_kinds len fs h.1 k.1)

partition_message-loop :
    (message : List ℕ) (len : ℕ) (frags : List (List ℕ))
    → partition_message message len ≡ some frags
    → (0 < length message) × (0 < len) × (partition_loop (length message) len message ≡ frags)
unfolding partition_message
partition_message-loop message len frags e =
    ground (arith, some-injective (partition_loop (length message) len message) frags)

some_joined :
    (frags : List (List ℕ)) (message : List ℕ)
    → join_fragments (all_some frags) (length message) ≡ some message
    → 0 < length frags
unfolding join_fragments
some_joined [] message e = cc
some_joined (f ∷ fs) message e = omega arith

-- Fragments of the message, all of one length, that join_fragments puts together again.
pub record IsPartition (message : List ℕ) (len : ℕ) (frags : List (List ℕ)) : Type 0 where
  pub buffers : All (IsBuffer len) frags
  pub joined : join_fragments (all_some frags) (length message) ≡ some message
  pub not_none : 0 < length frags

pub partition_message-IsPartition :
    (message : List ℕ) (len : ℕ) (frags : List (List ℕ))
    → All IsByte message
    → partition_message message len ≡ some frags
    → IsPartition message len frags
partition_message-IsPartition message len frags h e =
    let parts = partition_message-loop message len frags e in
    let whole = join_fragments-partition_message message len parts.0 parts.1 in
    let same : whole.0 ≡ frags = some-injective whole.0 frags (sym whole.1 ∙ e) in
    let joined =
      subst (λ (fs : List (List ℕ)). join_fragments (all_some fs) (length message) ≡ some message)
        same whole.4 in
    record {
      buffers =
          both_kinds len frags (subst (All (λ f. length f ≡ len)) same whole.3) (
            subst (All (All IsByte)) parts.2
              (partition_loop-IsByte (length message) len message h));
      joined = joined;
      not_none = some_joined frags message joined;
    }

module _ (m : Machine) where
  encoder_of-IsEncoderOf :
      (message : List ℕ) (len first : ℕ) (e : Encoder)
      → All IsByte message
      → encoder_of m message len first ≡ some e
      → IsEncoderOf message len e.fragments e × IsPartition message len e.fragments
  unfolding encoder_of
  encoder_of-IsEncoderOf message len first e h made =
      bind_cases (if len == 0 then none else partition_message message len) _ made λ frags e₁ r₁.
        bind_cases (sampler_for m 0 (length frags)) _ r₁ λ sampler e₂ r₂.
          let part = partition_message-IsPartition message len frags h (ground arith) in
          subst
            (λ (q : Encoder).
              IsEncoderOf message len q.fragments q × IsPartition message len q.fragments)
            (some-injective _ _ r₂)
            (
              record {
                message_len_is = refl;
                checksum_is = refl;
                fragment_len_is = refl;
                fragments_are = refl;
                sampler_is = sampler_for-eq m 0 (length frags) sampler part.not_none e₂;
              },
              part,
            )

  new_cases :
      (encoder_size : ℕ) (message : List ℕ) (max first min : ℕ) (e : Encoder)
      → fountain_encoder_new m encoder_size message max first min ≡ some e
      → encoder_of m message (find_nominal_fragment_length (length message) min max) first ≡ some e
  unfolding fountain_encoder_new
  new_cases encoder_size message max first min e made = ground arith

  -- If fountain_encoder_new makes an encoder of a message of bytes, it is one of this message: it has its
  -- length and its checksum, the nominal fragment length, the sampler of as many degrees as it has
  -- fragments, and these are one at least, all of that length, and joined by join_fragments give the
  -- message.
  pub fountain_encoder_new-IsEncoderOf :
      (encoder_size : ℕ) (message : List ℕ) (max_fragment_len first_seq_num min_fragment_len : ℕ)
      (e : Encoder)
      → All IsByte message
      → fountain_encoder_new m encoder_size message max_fragment_len first_seq_num min_fragment_len
        ≡ some e
      → IsEncoderOf message
          (find_nominal_fragment_length (length message) min_fragment_len max_fragment_len)
          e.fragments
          e
        × IsPartition message
            (find_nominal_fragment_length (length message) min_fragment_len max_fragment_len)
            e.fragments
  fountain_encoder_new-IsEncoderOf encoder_size message max first min e h made =
      encoder_of-IsEncoderOf message (find_nominal_fragment_length (length message) min max) first e
        h (new_cases encoder_size message max first min e made)
