-- ===== src/UrDecoder/Reachable.antt =====
-- What a decoder of src/ur_decoder.c gives after any parts.
use c_ur.Base.{
  ℕ, ◌≡◌, ◌≢◌, ◌⊎◌, inl, inr, refl, ap, sym, ◌∙◌, arith, true, false, List, [], ◌∷◌, ◌==◌, Option,
  none, some,
}
use mathlib.Core.Bool.{true≢false}
use mathlib.Core.Path.{subst}
use mathlib.Core.Option.{some-injective}
use c_ur.Fountain.Decoder.State.{Decoder, is_some, fountain_decoder_new}
use c_ur.UrDecoder.{
  DecoderState, ok, processing, no_result, error_invalid_scheme, error_invalid_type,
  error_invalid_path_length, error_invalid_sequence_component, error_invalid_fragment,
  error_invalid_part, error_invalid_checksum, error_memory, error_null_pointer, state_code,
  ur_decoder_state_is_terminal, UrResult, UrDecoder, Platform, with_fountain, ur_decoder_new,
  ur_decoder_receive_part, ur_decoder_get_result,
}
use c_ur.UrDecoder.Consistent.{IsConsistent, empty-IsConsistent}
use c_ur.UrDecoder.Kept.{ur_decoder_receive_part-keeps}
use c_ur.UrDecoder.Received.{ur_decoder_receive_part-IsConsistent}

ok_code : (s : DecoderState) → (state_code s == 0) ≡ true → s ≡ ok
unfolding state_code
ok_code ok e = refl
ok_code processing e = cc
ok_code no_result e = cc
ok_code error_invalid_scheme e = cc
ok_code error_invalid_type e = cc
ok_code error_invalid_path_length e = cc
ok_code error_invalid_sequence_component e = cc
ok_code error_invalid_fragment e = cc
ok_code error_invalid_part e = cc
ok_code error_invalid_checksum e = cc
ok_code error_memory e = cc
ok_code error_null_pointer e = cc

not_ok : (s : DecoderState) → (state_code s == 0) ≡ false → s ≢ ok
unfolding state_code
not_ok s e f = absurd (true≢false (sym (ap (λ (t : DecoderState). state_code t == 0) f) ∙ e))

is_some-true : (o : Option UrResult) → is_some o ≡ true → (r : UrResult) × (o ≡ some r)
is_some-true none e = cc
is_some-true (some r) e = (r, refl)

module _ (p : Platform) where
  -- The decoders that come of a new one by receiving parts.
  pub data Reachable : UrDecoder → Type 0 where
    created : {d : UrDecoder} → ur_decoder_new p ≡ some d → Reachable d
    received :
        {d : UrDecoder}
        → Reachable d
        → (str : Option (List ℕ)) → Reachable (ur_decoder_receive_part p d str)

  fountain-IsConsistent :
      (fountain : Option Decoder) (d : UrDecoder) → with_fountain fountain ≡ some d → IsConsistent d
  unfolding state_code
  fountain-IsConsistent none d e = cc
  fountain-IsConsistent (some fountain) d e =
      subst IsConsistent (some-injective _ _ e) (empty-IsConsistent _ refl refl)

  new_cases :
      (d : UrDecoder)
      → ur_decoder_new p ≡ some d
      → with_fountain (fountain_decoder_new p.machine) ≡ some d
  unfolding ur_decoder_new
  new_cases d e = ground arith

  pub Reachable-IsConsistent : (d : UrDecoder) → Reachable d → IsConsistent d
  Reachable-IsConsistent d (created e) = fountain-IsConsistent _ d (new_cases d e)
  Reachable-IsConsistent _ (received {d = d} h str) =
      ur_decoder_receive_part-IsConsistent p d str (Reachable-IsConsistent d h)

  get_cases :
      (d : UrDecoder)
      → (((state_code d.state == 0) ≡ true) × (ur_decoder_get_result d ≡ d.result))
        ⊎ (((state_code d.state == 0) ≡ false) × (ur_decoder_get_result d ≡ none))
  unfolding ur_decoder_get_result
  get_cases d = ground arith

  result_of_state :
      (d : UrDecoder)
      → Reachable d
      → ((d.state ≡ ok)
          × ((r : UrResult) × (ur_decoder_get_result d ≡ some r)
              × (d.expected_type ≡ some r.type_name)))
        ⊎ ((d.state ≢ ok) × (ur_decoder_get_result d ≡ none))
  result_of_state d h =
      let c = Reachable-IsConsistent d h in
      elim (get_cases d) [
        | inl (e, f) ↦
            let found = is_some-true d.result (c.result_when_ok ∙ e) in
            inl (ok_code d.state e, (found.0, f ∙ found.1, c.type_kept found.0 found.1))
        | inr (e, f) ↦ inr (not_ok d.state e, f)
      ]

  -- The parts received one after the other.
  unfoldable pub receive_all : UrDecoder → List (Option (List ℕ)) → UrDecoder
  receive_all d [] = d
  receive_all d (str ∷ strs) = receive_all (ur_decoder_receive_part p d str) strs

  receive_all-Reachable :
      (d : UrDecoder) (strs : List (Option (List ℕ))) → Reachable d → Reachable (receive_all d strs)
  unfolding receive_all
  receive_all-Reachable d [] h = h
  receive_all-Reachable d (str ∷ strs) h =
      receive_all-Reachable (ur_decoder_receive_part p d str) strs (received h str)

  receive_all-keeps :
      (d : UrDecoder) (t : List ℕ) (strs : List (Option (List ℕ)))
      → d.expected_type ≡ some t
      → (receive_all d strs).expected_type ≡ some t
  unfolding receive_all
  receive_all-keeps d t [] e = e
  receive_all-keeps d t (str ∷ strs) e =
      receive_all-keeps (ur_decoder_receive_part p d str) t strs
        (ur_decoder_receive_part-keeps p d t str e)

  kept_or_new :
      (d : UrDecoder) (expected : Option (List ℕ)) (strs : List (Option (List ℕ)))
      → d.expected_type ≡ expected
      → (d.expected_type ≡ none) ⊎ ((receive_all d strs).expected_type ≡ d.expected_type)
  kept_or_new d none strs e = inl e
  kept_or_new d (some t) strs e = inr (receive_all-keeps d t strs e ∙ sym e)

  -- Take any decoder that a new one became by receiving parts, NULL ones included, and any further
  -- parts. After these it gives a result exactly in the state UR_DECODER_OK, and the type of the result
  -- is the one that it expects; and if it expected a type before them, it expects the same one after
  -- them: the first part that sets it fixes the type of any result.
  pub ur_decoder_get_result-Reachable :
      (d : UrDecoder) (strs : List (Option (List ℕ)))
      → Reachable d
      → ((((receive_all d strs).state ≡ ok)
            × ((r : UrResult) × (ur_decoder_get_result (receive_all d strs) ≡ some r)
                × ((receive_all d strs).expected_type ≡ some r.type_name)))
          ⊎ (((receive_all d strs).state ≢ ok)
              × (ur_decoder_get_result (receive_all d strs) ≡ none)))
        × ((d.expected_type ≡ none) ⊎ ((receive_all d strs).expected_type ≡ d.expected_type))
  ur_decoder_get_result-Reachable d strs h = (
    result_of_state (receive_all d strs) (receive_all-Reachable d strs h),
    kept_or_new d d.expected_type strs refl,
  )

  terminal_part :
      (d : UrDecoder) (str : Option (List ℕ))
      → ur_decoder_state_is_terminal d.state ≡ true
      → ur_decoder_receive_part p d str ≡ d
  unfolding ur_decoder_receive_part
  terminal_part d str e = ground arith

  terminal_parts :
      (d : UrDecoder) (strs : List (Option (List ℕ)))
      → ur_decoder_state_is_terminal d.state ≡ true
      → receive_all d strs ≡ d
  unfolding receive_all
  terminal_parts d [] e = refl
  terminal_parts d (str ∷ strs) e =
      ap (λ (d' : UrDecoder). receive_all d' strs) (terminal_part d str e) ∙ terminal_parts d strs e

  -- A result, once the decoder gives it, is the result after any further parts.
  pub receive_all-ur_decoder_get_result :
      (d : UrDecoder) (r : UrResult) (strs : List (Option (List ℕ)))
      → ur_decoder_get_result d ≡ some r
      → ur_decoder_get_result (receive_all d strs) ≡ some r
  unfolding ur_decoder_state_is_terminal
  receive_all-ur_decoder_get_result d r strs e = elim (get_cases d) [
    | inl (code, f) ↦
        ap ur_decoder_get_result
          (terminal_parts d strs (ap ur_decoder_state_is_terminal (ok_code d.state code)))
        ∙ e
    | inr (code, f) ↦ cc
  ]
