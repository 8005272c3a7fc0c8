-- ===== src/UrDecoder/Kept.antt =====
-- The type that a decoder of src/ur_decoder.c expects, once it is set, stays.
use c_ur.Base.{
  ℕ, ◌≡◌, refl, ap, ◌∙◌, arith, Bool, true, false, List, [], ◌∷◌, Option, none, some, if◌then◌else◌,
  ◌>>=◌,
}
use c_ur.ByteBuffer.{safe_malloc}
use c_ur.UrString.{parse_ur_string}
use c_ur.Bytewords.{bytewords_decode_raw}
use c_ur.Fountain.PartCbor.{Part}
use c_ur.Fountain.Decoder.Receive.{fountain_decoder_receive_part}
use c_ur.UrDecoder.Header.{read_part}
use c_ur.Fountain.Decoder.State.{Decoder}
use c_ur.UrDecoder.{
  processing, duplicated, UrResult, UrDecoder, Platform, validate_against, validate_part_type,
  take_result, finalize_typed, finalize_fountain_result, after_fountain, receive_fragment,
  receive_numbered, store_single, receive_components, receive_validated, receive_parsed,
  receive_string, ur_decoder_receive_part,
}

-- The type that is expected is the same.
abbrev SameType : UrDecoder → UrDecoder → Type 0
SameType d d' = d'.expected_type ≡ d.expected_type

module _ (p : Platform) where
  take_result-SameType :
      (d : UrDecoder) (type : List ℕ) (len : ℕ) (message : Option (List ℕ))
      → SameType d (take_result p d type len message)
  unfolding take_result
  take_result-SameType d type len none = refl
  take_result-SameType d type len (some message) = ground arith

  finalize_typed-SameType :
      (d : UrDecoder) (type : Option (List ℕ)) → SameType d (finalize_typed p d type)
  unfolding finalize_typed
  finalize_typed-SameType d none = refl
  finalize_typed-SameType d (some type) = take_result-SameType _ type _ _

  finalize-SameType : (d : UrDecoder) → SameType d (finalize_fountain_result p d)
  unfolding finalize_fountain_result
  finalize-SameType d = ground (
    arith,
    finalize_typed-SameType d (
        if safe_malloc p.machine.alloc p.result_size
        then duplicated p.machine.alloc d.expected_type
        else none),
  )

  after_fountain-SameType : (d : UrDecoder) (r : Decoder × Bool) → SameType d (after_fountain p d r)
  unfolding after_fountain
  after_fountain-SameType d (fountain, false) = refl
  after_fountain-SameType d (fountain, true) =
      ground (arith, finalize-SameType (record d { fountain_decoder = fountain }))

  receive_fragment-SameType :
      (d : UrDecoder) (part : Option Part) → SameType d (receive_fragment p d part)
  unfolding receive_fragment
  receive_fragment-SameType d none = refl
  receive_fragment-SameType d (some part) = ground (
    arith,
    after_fountain-SameType d (fountain_decoder_receive_part p.machine d.fountain_decoder part),
  )

  receive_numbered-SameType :
      (d : UrDecoder) (body : List ℕ) (numbers : Option (ℕ × ℕ))
      → SameType d (receive_numbered p d body numbers)
  unfolding receive_numbered
  receive_numbered-SameType d body none = refl
  receive_numbered-SameType d body (some (num, len)) = ground (
    arith,
    receive_fragment-SameType d
        (bytewords_decode_raw p.machine.alloc p.tolower body >>= read_part num len),
  )

  store_single-SameType : (d : UrDecoder) (r : Option UrResult) → SameType d (store_single p d r)
  unfolding store_single
  store_single-SameType d none = refl
  store_single-SameType d (some r) = refl

  receive_components-SameType :
      (d : UrDecoder) (type : List ℕ) (components : List (List ℕ))
      → SameType d (receive_components p d type components)
  unfolding receive_components
  receive_components-SameType d type [] = refl
  receive_components-SameType d type (body ∷ []) = store_single-SameType d _
  receive_components-SameType d type (sequence ∷ body ∷ []) = receive_numbered-SameType d body _
  receive_components-SameType d type (a ∷ b ∷ c ∷ more) = refl

  -- A type that is expected already is not replaced.
  validate_against-SameType :
      (d : UrDecoder) (type t : List ℕ) → SameType d (validate_against p d type (some t)).0
  unfolding validate_against
  validate_against-SameType d type t = ground arith

  validated-SameType :
      (d : UrDecoder) (type : List ℕ) (components : List (List ℕ)) (r : UrDecoder × Bool)
      → SameType d r.0
      → SameType d (receive_validated p type components r)
  unfolding receive_validated
  validated-SameType d type components (d', false) e = e
  validated-SameType d type components (d', true) e =
      receive_components-SameType d' type components ∙ e

  receive_parsed-keeps :
      (d : UrDecoder) (t : List ℕ) (parsed : Option (List ℕ × List (List ℕ)))
      → d.expected_type ≡ some t
      → SameType d (receive_parsed p d parsed)
  unfolding receive_parsed validate_part_type
  receive_parsed-keeps d t none e = refl
  receive_parsed-keeps d t (some (type, components)) e =
      validated-SameType d type components (validate_against p d type d.expected_type) (
        ap (λ (o : Option (List ℕ)). (validate_against p d type o).0.expected_type) e
        ∙ validate_against-SameType d type t)

  receive_string-keeps :
      (d : UrDecoder) (t : List ℕ) (str : Option (List ℕ))
      → d.expected_type ≡ some t
      → SameType d (receive_string p d str)
  unfolding receive_string
  receive_string-keeps d t none e = refl
  receive_string-keeps d t (some str) e =
      let d' : UrDecoder = record d { state = processing } in
      ground (
        arith,
        finalize-SameType d',
        receive_parsed-keeps d' t
            (parse_ur_string p.machine.alloc p.islower p.isdigit p.pointer_size p.tolower str) e,
      )

  pub ur_decoder_receive_part-keeps :
      (d : UrDecoder) (t : List ℕ) (str : Option (List ℕ))
      → d.expected_type ≡ some t
      → (ur_decoder_receive_part p d str).expected_type ≡ some t
  unfolding ur_decoder_receive_part
  ur_decoder_receive_part-keeps d t str e = ground (arith, receive_string-keeps d t str e)
