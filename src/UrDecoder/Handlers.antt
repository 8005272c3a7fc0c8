-- ===== src/UrDecoder/Handlers.antt =====
-- The handlers of src/ur_decoder.c for what a part holds keep state and result together.
use c_ur.Base.{
  ℕ, ◌≡◌, ◌⊎◌, inl, inr, refl, ap, sym, ◌∙◌, arith, Bool, true, false, Bool-cases, List, [], ◌∷◌,
  ◌==◌, if◌then◌else◌, Option, none, some, ◌>>=◌,
}
use mathlib.Core.Path.{subst}
use mathlib.Core.Option.{some-injective}
use c_ur.Base.{bind_cases, Option-cases}
use c_ur.ByteBuffer.{safe_malloc}
use c_ur.Bytewords.{bytewords_decode_raw}
use c_ur.Fountain.PartCbor.{Part}
use c_ur.Fountain.Decoder.State.{Decoder, fountain_decoder_is_complete}
use c_ur.Fountain.Decoder.Receive.{fountain_decoder_receive_part}
use c_ur.UrDecoder.Header.{read_part}
use c_ur.UrDecoder.{
  ok, no_result, error_invalid_sequence_component, error_invalid_checksum, error_memory, state_code,
  UrResult, UrDecoder, Platform, duplicated, decode_single_part, take_result, finalize_typed,
  finalize_fountain_result, after_fountain, receive_fragment, receive_numbered, store_single,
  receive_components,
}
use c_ur.UrDecoder.Consistent.{
  IsConsistent, IsOpen, empty-IsConsistent, IsOpen-IsConsistent, filled-IsConsistent, duplicated-eq,
}

module _ (p : Platform) where
  take_result-IsConsistent :
      (d : UrDecoder) (type : List ℕ) (len : ℕ) (message : Option (List ℕ))
      → d.result ≡ none
      → d.expected_type ≡ some type
      → IsConsistent (take_result p d type len message)
  unfolding take_result state_code
  take_result-IsConsistent d type len none e f = empty-IsConsistent _ e refl
  take_result-IsConsistent d type len (some message) e f = elim (Bool-cases (len == 0)) [
    | inl h ↦
        subst IsConsistent {x = record d { state = no_result }} (ground arith)
          (empty-IsConsistent _ e refl)
    | inr h ↦
        subst IsConsistent
          {x = record d {
            result = some (record { type_name = type; cbor_data = message; cbor_len = len });
            state = ok;
          }}
          (ground arith) (filled-IsConsistent _ _ refl refl f)
  ]

  finalize_typed-IsConsistent :
      (d : UrDecoder) (type : Option (List ℕ))
      → d.result ≡ none
      → ((t : List ℕ) → type ≡ some t → d.expected_type ≡ some t)
      → IsConsistent (finalize_typed p d type)
  unfolding finalize_typed state_code
  finalize_typed-IsConsistent d none e f = empty-IsConsistent _ e refl
  finalize_typed-IsConsistent d (some t) e f = take_result-IsConsistent _ t _ _ e (f t refl)

  finalize_cases :
      (d : UrDecoder)
      → (finalize_fountain_result p d ≡ record d { state = error_invalid_checksum })
        ⊎ ((finalize_fountain_result p d ≡ finalize_typed p d none)
            ⊎ (finalize_fountain_result p d
                ≡ finalize_typed p d (duplicated p.machine.alloc d.expected_type)))
  unfolding finalize_fountain_result
  finalize_cases d = ground arith

  pub finalize-IsConsistent :
      (d : UrDecoder) → d.result ≡ none → IsConsistent (finalize_fountain_result p d)
  unfolding state_code
  finalize-IsConsistent d e = elim (finalize_cases d) [
    | inl f ↦ subst IsConsistent (sym f) (empty-IsConsistent _ e refl)
    | inr (inl f) ↦ subst IsConsistent (sym f) (finalize_typed-IsConsistent d none e (λ t g. cc))
    | inr (inr f) ↦
        subst IsConsistent (sym f)
          (finalize_typed-IsConsistent d _ e (duplicated-eq p.machine.alloc d.expected_type))
  ]

  after_fountain-IsConsistent :
      (d : UrDecoder) (r : Decoder × Bool) → IsOpen d → IsConsistent (after_fountain p d r)
  unfolding after_fountain state_code
  after_fountain-IsConsistent d (fountain, false) h = empty-IsConsistent _ h.no_result_yet refl
  after_fountain-IsConsistent d (fountain, true) h =
      let d' : UrDecoder = record d { fountain_decoder = fountain } in
      elim (Bool-cases (fountain_decoder_is_complete fountain)) [
        | inl e ↦
            subst IsConsistent {x = finalize_fountain_result p d'} (ground arith)
              (finalize-IsConsistent d' h.no_result_yet)
        | inr e ↦ subst IsConsistent {x = d'} (ground arith) (
            IsOpen-IsConsistent d'
              (record { no_result_yet = h.no_result_yet; at_work = h.at_work }))
      ]

  receive_fragment-IsConsistent :
      (d : UrDecoder) (part : Option Part) → IsOpen d → IsConsistent (receive_fragment p d part)
  unfolding receive_fragment state_code
  receive_fragment-IsConsistent d none h = empty-IsConsistent _ h.no_result_yet refl
  receive_fragment-IsConsistent d (some part) h =
      let received = fountain_decoder_receive_part p.machine d.fountain_decoder part in
      elim (Bool-cases (safe_malloc p.machine.alloc p.part_size)) [
        | inl e ↦
            subst IsConsistent {x = after_fountain p d received} (ground arith)
              (after_fountain-IsConsistent d received h)
        | inr e ↦
            subst IsConsistent {x = record d { state = error_memory }} (ground arith)
              (empty-IsConsistent _ h.no_result_yet refl)
      ]

  numbered_cases :
      (d : UrDecoder) (body : List ℕ) (num len : ℕ)
      → (receive_numbered p d body (some (num, len))
          ≡ record d { state = error_invalid_sequence_component })
        ⊎ (receive_numbered p d body (some (num, len))
            ≡ receive_fragment p d
                (bytewords_decode_raw p.machine.alloc p.tolower body >>= read_part num len))
  unfolding receive_numbered
  numbered_cases d body num len = ground arith

  receive_numbered-IsConsistent :
      (d : UrDecoder) (body : List ℕ) (numbers : Option (ℕ × ℕ))
      → IsOpen d
      → IsConsistent (receive_numbered p d body numbers)
  unfolding receive_numbered state_code
  receive_numbered-IsConsistent d body none h = empty-IsConsistent _ h.no_result_yet refl
  receive_numbered-IsConsistent d body (some (num, len)) h = elim (numbered_cases d body num len) [
    | inl e ↦ subst IsConsistent (sym e) (empty-IsConsistent _ h.no_result_yet refl)
    | inr e ↦ subst IsConsistent (sym e) (receive_fragment-IsConsistent d _ h)
  ]

  -- The type of a single part's result.
  single-type :
      (type body : List ℕ) (r : UrResult)
      → decode_single_part p type body ≡ some r
      → r.type_name ≡ type
  unfolding decode_single_part
  single-type type body r e =
      bind_cases (bytewords_decode_raw p.machine.alloc p.tolower body) _ e λ bytes decoded rest.
        bind_cases
          (if safe_malloc p.machine.alloc p.result_size
            then duplicated p.machine.alloc (some type)
            else none)
          _ rest λ t copied made. ground (arith, some-injective _ _ made)

  store_single-IsConsistent :
      (d : UrDecoder) (type body : List ℕ)
      → d.expected_type ≡ some type
      → IsConsistent (store_single p d (decode_single_part p type body))
  unfolding store_single state_code
  store_single-IsConsistent d type body e = elim (Option-cases (decode_single_part p type body)) [
    | inl f ↦
        subst (λ (r : Option UrResult). IsConsistent (store_single p d r)) (sym f)
          (empty-IsConsistent _ refl refl)
    | inr (r, f) ↦
        subst (λ (o : Option UrResult). IsConsistent (store_single p d o)) (sym f)
          (filled-IsConsistent _ r refl refl (e ∙ ap some (sym (single-type type body r f))))
  ]

  pub receive_components-IsConsistent :
      (d : UrDecoder) (type : List ℕ) (components : List (List ℕ))
      → d.expected_type ≡ some type
      → IsOpen d
      → IsConsistent (receive_components p d type components)
  unfolding receive_components state_code
  receive_components-IsConsistent d type [] e h = empty-IsConsistent _ h.no_result_yet refl
  receive_components-IsConsistent d type (body ∷ []) e h = store_single-IsConsistent d type body e
  receive_components-IsConsistent d type (sequence ∷ body ∷ []) e h =
      receive_numbered-IsConsistent d body _ h
  receive_components-IsConsistent d type (a ∷ b ∷ c ∷ more) e h =
      empty-IsConsistent _ h.no_result_yet refl
