-- ===== src/UrDecoder/Consistent.antt =====
-- A decoder of src/ur_decoder.c has a result exactly in the state that says so.
use c_ur.Base.{
  ℕ, ◌≡◌, refl, ap, sym, ◌∙◌, arith, Bool, true, false, List, [], ◌∷◌, ◌==◌, Option, none, some,
}
use mathlib.Core.Option.{some-injective}
use c_ur.Fountain.Decoder.State.{is_some}
use c_ur.UrDecoder.{
  DecoderState, ok, processing, no_result, error_invalid_scheme, error_invalid_type,
  error_invalid_path_length, error_invalid_sequence_component, error_invalid_fragment,
  error_invalid_part, error_invalid_checksum, error_memory, error_null_pointer, state_code,
  ur_decoder_state_is_terminal, UrResult, UrDecoder, same_bytes, duplicated,
}

-- The result is there exactly in the state `ok`, and has the expected type if that is known.
pub record IsConsistent (d : UrDecoder) : Type 0 where
  pub result_when_ok : is_some d.result ≡ (state_code d.state == 0)
  pub type_kept : (r : UrResult) → d.result ≡ some r → d.expected_type ≡ some r.type_name

-- A decoder that is working on a part.
pub record IsOpen (d : UrDecoder) : Type 0 where
  pub no_result_yet : d.result ≡ none
  pub at_work : d.state ≡ processing

pub empty-IsConsistent :
    (d : UrDecoder) → d.result ≡ none → (state_code d.state == 0) ≡ false → IsConsistent d
empty-IsConsistent d e f = record { result_when_ok = ap is_some e ∙ sym f; type_kept = λ r g. cc }

pub filled-IsConsistent :
    (d : UrDecoder) (r : UrResult)
    → d.result ≡ some r
    → d.state ≡ ok
    → d.expected_type ≡ some r.type_name
    → IsConsistent d
unfolding state_code
filled-IsConsistent d r e f g = record {
  result_when_ok = ap is_some e ∙ ap (λ (s : DecoderState). state_code s == 0) (sym f);
  type_kept = λ q h. g ∙ ap (λ (t : UrResult). some t.type_name) (some-injective r q (sym e ∙ h));
}

pub IsOpen-IsConsistent : (d : UrDecoder) → IsOpen d → IsConsistent d
unfolding state_code
IsOpen-IsConsistent d h =
    empty-IsConsistent d h.no_result_yet (ap (λ (s : DecoderState). state_code s == 0) h.at_work)

pub same_bytes-eq : (xs ys : List ℕ) → same_bytes xs ys ≡ true → xs ≡ ys
unfolding same_bytes
same_bytes-eq [] [] e = refl
same_bytes-eq [] (y ∷ ys) e = cc
same_bytes-eq (x ∷ xs) [] e = cc
same_bytes-eq (x ∷ xs) (y ∷ ys) e = ground (arith, same_bytes-eq xs ys)

pub duplicated-eq :
    (alloc : ℕ → Bool) (str : Option (List ℕ)) (copy : List ℕ)
    → duplicated alloc str ≡ some copy
    → str ≡ some copy
duplicated-eq alloc none copy e = e
duplicated-eq alloc (some str) copy e = ground arith

pub is_some-false : (o : Option UrResult) → is_some o ≡ false → o ≡ none
is_some-false none e = refl
is_some-false (some r) e = cc

pub open_code :
    (s : DecoderState) → ur_decoder_state_is_terminal s ≡ false → (state_code s == 0) ≡ false
unfolding ur_decoder_state_is_terminal state_code
open_code ok e = cc
open_code processing e = refl
open_code no_result e = refl
open_code error_invalid_scheme e = refl
open_code error_invalid_type e = refl
open_code error_invalid_path_length e = refl
open_code error_invalid_sequence_component e = refl
open_code error_invalid_fragment e = refl
open_code error_invalid_part e = refl
open_code error_invalid_checksum e = refl
open_code error_memory e = refl
open_code error_null_pointer e = refl
