-- ===== src/UrDecoder/Received.antt =====
-- ur_decoder_receive_part of src/ur_decoder.c keeps state and result together.
use c_ur.Base.{
  ℕ, ◌≡◌, ◌⊎◌, inl, inr, refl, ap, sym, ◌∙◌, arith, Bool, true, false, Bool-cases, List, Option,
  none, some,
}
use mathlib.Core.Path.{subst}
use c_ur.UrString.{parse_ur_string}
use c_ur.UrDecoder.{
  processing, error_invalid_type, error_memory, state_code, ur_decoder_state_is_terminal, UrDecoder,
  Platform, same_bytes, validate_against, validate_part_type, finalize_fountain_result,
  receive_validated, receive_parsed, receive_string, ur_decoder_receive_part,
}
use c_ur.UrDecoder.Consistent.{
  IsConsistent, IsOpen, empty-IsConsistent, same_bytes-eq, is_some-false, open_code,
}
use c_ur.UrDecoder.Handlers.{finalize-IsConsistent, receive_components-IsConsistent}

module _ (p : Platform) where
  -- A type that is not accepted leaves an error; one that is accepted is the one that is expected.
  abbrev Validated : List ℕ → UrDecoder × Bool → Type 0
  Validated type r =
      ((r.1 ≡ true) × (r.0.expected_type ≡ some type) × IsOpen r.0)
      ⊎ ((r.1 ≡ false) × IsConsistent r.0)

  new_type_cases :
      (d : UrDecoder) (type : List ℕ)
      → (validate_against p d type none ≡ (record d { expected_type = some type }, true))
        ⊎ ((validate_against p d type none ≡ (record d { state = error_memory }, false))
            ⊎ (validate_against p d type none ≡ (record d { state = error_invalid_type }, false)))
  unfolding validate_against
  new_type_cases d type = ground arith

  validate_against-Validated :
      (d : UrDecoder) (type : List ℕ) (expected : Option (List ℕ))
      → d.expected_type ≡ expected
      → IsOpen d
      → Validated type (validate_against p d type expected)
  unfolding validate_against state_code
  validate_against-Validated d type none e h =
      let P : UrDecoder × Bool → Type 0 = Validated type in
      elim (new_type_cases d type) [
        | inl f ↦
            subst P (sym f)
              (inl (refl, refl, record { no_result_yet = h.no_result_yet; at_work = h.at_work }))
        | inr (inl f) ↦ subst P (sym f) (inr (refl, empty-IsConsistent _ h.no_result_yet refl))
        | inr (inr f) ↦ subst P (sym f) (inr (refl, empty-IsConsistent _ h.no_result_yet refl))
      ]
  validate_against-Validated d type (some expected) e h =
      elim (Bool-cases (same_bytes expected type)) [
        | inl f ↦
            subst (Validated type) {x = (d, true)} (ground arith)
              (inl (refl, e ∙ ap some (same_bytes-eq expected type f), h))
        | inr f ↦
            subst (Validated type) {x = (record d { state = error_invalid_type }, false)}
              (ground arith) (inr (refl, empty-IsConsistent _ h.no_result_yet refl))
      ]

  receive_validated-IsConsistent :
      (type : List ℕ) (components : List (List ℕ)) (r : UrDecoder × Bool)
      → Validated type r
      → IsConsistent (receive_validated p type components r)
  unfolding receive_validated
  receive_validated-IsConsistent type components (d, false) (inl (a, b, c)) = cc
  receive_validated-IsConsistent type components (d, false) (inr (a, b)) = b
  receive_validated-IsConsistent type components (d, true) (inl (a, b, c)) =
      receive_components-IsConsistent p d type components b c
  receive_validated-IsConsistent type components (d, true) (inr (a, b)) = cc

  receive_parsed-IsConsistent :
      (d : UrDecoder) (parsed : Option (List ℕ × List (List ℕ)))
      → IsOpen d
      → IsConsistent (receive_parsed p d parsed)
  unfolding receive_parsed state_code validate_part_type
  receive_parsed-IsConsistent d none h = empty-IsConsistent _ h.no_result_yet refl
  receive_parsed-IsConsistent d (some (type, components)) h =
      receive_validated-IsConsistent type components _
        (validate_against-Validated d type d.expected_type refl h)

  string_cases :
      (d : UrDecoder) (str : List ℕ)
      → (receive_string p d (some str)
          ≡ finalize_fountain_result p (record d { state = processing }))
        ⊎ (receive_string p d (some str)
            ≡ receive_parsed p
                (record d { state = processing })
                (parse_ur_string p.machine.alloc p.islower p.isdigit p.pointer_size p.tolower str))
  unfolding receive_string
  string_cases d str = ground arith

  receive_string-IsConsistent :
      (d : UrDecoder) (str : Option (List ℕ))
      → d.result ≡ none
      → IsConsistent (receive_string p d str)
  unfolding receive_string state_code
  receive_string-IsConsistent d none e = empty-IsConsistent _ e refl
  receive_string-IsConsistent d (some str) e = elim (string_cases d str) [
    | inl f ↦ subst IsConsistent (sym f) (finalize-IsConsistent p _ e)
    | inr f ↦
        subst IsConsistent (sym f)
          (receive_parsed-IsConsistent _ _ (record { no_result_yet = e; at_work = refl }))
  ]

  open_result :
      (d : UrDecoder)
      → IsConsistent d
      → ur_decoder_state_is_terminal d.state ≡ false
      → d.result ≡ none
  open_result d h e = is_some-false d.result (h.result_when_ok ∙ open_code d.state e)

  part_cases :
      (d : UrDecoder) (str : Option (List ℕ))
      → (ur_decoder_receive_part p d str ≡ d)
        ⊎ ((ur_decoder_state_is_terminal d.state ≡ false)
            × (ur_decoder_receive_part p d str ≡ receive_string p d str))
  unfolding ur_decoder_receive_part
  part_cases d str = ground arith

  pub ur_decoder_receive_part-IsConsistent :
      (d : UrDecoder) (str : Option (List ℕ))
      → IsConsistent d
      → IsConsistent (ur_decoder_receive_part p d str)
  ur_decoder_receive_part-IsConsistent d str h = elim (part_cases d str) [
    | inl e ↦ subst IsConsistent (sym e) h
    | inr (e, f) ↦
        subst IsConsistent (sym f) (receive_string-IsConsistent d str (open_result d h e))
  ]
