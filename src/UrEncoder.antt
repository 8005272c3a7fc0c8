-- ===== src/UrEncoder.antt =====
-- The UR encoder of src/ur_encoder.c: URIs in upper case, single parts and the parts of a message.
pub mod Single
mod Tests
use c_ur.Base.{
  ℕ, ◌+◌, ◌*◌, ◌%◌, ◌^◌, Bool, true, false, List, [], ◌∷◌, ◌++◌, length, get_or, leb, ◌==◌,
  if◌then◌else◌, Option, none, some, ◌>>=◌,
}
use c_ur.ByteBuffer.{safe_malloc}
use c_ur.Bytewords.{bytewords_encode}
use c_ur.Fountain.PartCbor.{Part, fountain_encoder_part_to_cbor}
use c_ur.Fountain.Decoder.State.{Machine}
use c_ur.Fountain.Encoder.{
  Encoder, fountain_encoder_new, fountain_encoder_next_part, fountain_encoder_seq_len,
  fountain_encoder_is_single_part,
}

-- `toupper` belongs to the C library, and `decimal` is what snprintf writes for PRIu32.
pub record Writer : Type 0 where
  pub machine : Machine
  pub toupper : ℕ → ℕ
  pub decimal : ℕ → List ℕ
  pub encoder_size : ℕ
  pub fountain_size : ℕ

abbrev pub upper_all : (ℕ → ℕ) → List ℕ → List ℕ
upper_all toupper [] = []
upper_all toupper (c ∷ cs) = toupper c ∷ upper_all toupper cs

-- The loop over the components, a slash after each but the last.
unfoldable pub path_of : (ℕ → ℕ) → List (List ℕ) → List ℕ
path_of toupper [] = []
path_of toupper (c ∷ []) = upper_all toupper c
path_of toupper (c ∷ d ∷ cs) = upper_all toupper c ++ 47 ∷ path_of toupper (d ∷ cs)

-- The length needed, the terminating zero included.
unfoldable pub path_len : List (List ℕ) → ℕ
path_len [] = 0
path_len (c ∷ cs) = length c + 1 + path_len cs

module _ (w : Writer) where
  unfoldable pub encode_uri : List ℕ → List (List ℕ) → Option (List ℕ)
  encode_uri scheme components =
      if length components == 0
      then none
      else if w.machine.alloc (length scheme + 1 + path_len components)
      then some (upper_all w.toupper scheme ++ 58 ∷ path_of w.toupper components)
      else none

  unfoldable pub encode_ur : List (List ℕ) → Option (List ℕ)
  encode_ur components = encode_uri (117 ∷ 114 ∷ []) components

  unfoldable pub ur_encoder_encode_single : List ℕ → List ℕ → Option (List ℕ)
  ur_encoder_encode_single type cbor_data =
      if length cbor_data == 0
      then none
      else (bytewords_encode w.machine.alloc cbor_data >>= λ body. encode_ur (type ∷ body ∷ []))

  -- The sequence component: both numbers have 32 bits and so fit in the buffer.
  abbrev pub sequence_of : Part → List ℕ
  sequence_of part = w.decimal (part.seq_num % 2 ^ 32) ++ 45 ∷ w.decimal (part.seq_len % 2 ^ 32)

  unfoldable pub encode_part : List ℕ → Part → Option (List ℕ)
  encode_part type part = do
    cbor ← fountain_encoder_part_to_cbor w.machine.alloc part
    body ← bytewords_encode w.machine.alloc cbor
    encode_ur (type ∷ sequence_of part ∷ body ∷ [])

-- ur_encoder_t; `type_name` is type.
pub record UrEncoder : Type 0 where
  pub type_name : List ℕ
  pub fountain_encoder : Encoder

module _ (w : Writer) where
  unfoldable pub ur_encoder_new : List ℕ → List ℕ → ℕ → ℕ → ℕ → Option UrEncoder
  ur_encoder_new type cbor_data max_fragment_len first_seq_num min_fragment_len =
      let made =
        fountain_encoder_new w.machine w.fountain_size cbor_data max_fragment_len first_seq_num
          min_fragment_len
        >>= λ fountain. some (record { type_name = type; fountain_encoder = fountain }) in
      if length cbor_data == 0
      then none
      else if w.machine.alloc w.encoder_size
      then if w.machine.alloc (length type + 1) then made else none
      else none

  -- A single part was made, or not.
  unfoldable pub single_made : UrEncoder → Option (List ℕ) → UrEncoder × Option (List ℕ)
  single_made e none = (e, none)
  single_made e (some text) =
      let fountain : Encoder = e.fountain_encoder in
      (
        record e {
          fountain_encoder = record fountain { seq_num = (fountain.seq_num + 1) % 2 ^ 32 };
        },
        some text,
      )

  unfoldable pub part_made : UrEncoder → Encoder × Option Part → UrEncoder × Option (List ℕ)
  part_made e (fountain, none) = (record e { fountain_encoder = fountain }, none)
  part_made e (fountain, some part) =
      (record e { fountain_encoder = fountain }, encode_part w e.type_name part)

  unfoldable pub ur_encoder_next_part : UrEncoder → UrEncoder × Option (List ℕ)
  ur_encoder_next_part e =
      let single =
        single_made e
          (ur_encoder_encode_single w e.type_name (get_or e.fountain_encoder.fragments 0 [])) in
      if fountain_encoder_is_single_part e.fountain_encoder
      then single
      else part_made e (fountain_encoder_next_part w.machine e.fountain_encoder)

unfoldable pub ur_encoder_seq_len : UrEncoder → ℕ
ur_encoder_seq_len e = fountain_encoder_seq_len e.fountain_encoder

unfoldable pub ur_encoder_is_single_part : UrEncoder → Bool
ur_encoder_is_single_part e = fountain_encoder_is_single_part e.fountain_encoder

unfoldable pub ur_encoder_is_complete : UrEncoder → Bool
ur_encoder_is_complete e =
    let fountain : Encoder = e.fountain_encoder in leb (length fountain.fragments) fountain.seq_num
