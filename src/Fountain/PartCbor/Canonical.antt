-- ===== src/Fountain/PartCbor/Canonical.antt =====
-- The header of a part, as src/fountain_encoder.c writes it, is the canonical CBOR of an array.
use c_ur.Base.{Bool-cases, inl, inr}
use c_ur.Base.{
  ℕ, ◌+◌, ◌*◌, ◌^◌, ◌≤◌, ◌<◌, ◌≡◌, ◌≢◌, refl, ap, ◌∙◌, arith, Bool, true, false, List, [], ◌∷◌,
  ◌++◌, length, length-append, append_assoc, append-nil, ◌==◌, if◌then◌else◌, Option, some, none,
}
use c_ur.ByteBuffer.{safe_malloc}
use c_ur.Cbor.Encode.{u8}
use c_ur.Cbor.Value.{Value, unsigned_int, bytes, array, nil, cons}
use c_ur.Cbor.Head.{canonical_head_lem}
use c_ur.Cbor.Spec.{canonical_head, encoding}
use c_ur.Fountain.PartCbor.{
  Part, LiteEncoder, get_byte_length, long_head, write, ensure_capacity, append_byte,
  encode_tag_and_value, encode_unsigned, encode_array_start, encode_bytes, get_buffer, encode_part,
  fountain_encoder_part_to_cbor, ◌>=>◌,
}

abbrev lite_head : ℕ → ℕ → List ℕ
lite_head major_type value =
    if get_byte_length value == 0
    then u8 (major_type + u8 value) ∷ []
    else long_head (get_byte_length value) major_type value

length-lite_head : (major value : ℕ) → length (lite_head major value) ≡ 1 + get_byte_length value
unfolding get_byte_length long_head
length-lite_head major value = ground arith

get_byte_length-le : (value : ℕ) → get_byte_length value ≤ 8
unfolding get_byte_length
get_byte_length-le value = ground arith

module _ (alloc : ℕ → Bool) where
  room_enough :
      (enc : LiteEncoder) (n : ℕ)
      → length enc.written + n ≤ enc.capacity
      → ensure_capacity alloc enc n ≡ (enc, true)
  unfolding ensure_capacity
  room_enough enc n h = ground arith

  encode_tag_and_value-eq :
      (major value : ℕ) (enc : LiteEncoder)
      → length enc.written + 9 ≤ enc.capacity
      → encode_tag_and_value alloc major value enc ≡ write (lite_head major value) enc
  unfolding encode_tag_and_value append_byte
  encode_tag_and_value-eq major value enc h = ground (
    arith,
    room_enough enc 1,
    room_enough enc (1 + get_byte_length value),
    get_byte_length-le value,
  )

lite_head-eq : (m v : ℕ) → m < 8 → lite_head (m * 2 ^ 5) v ≡ canonical_head m v
unfolding long_head get_byte_length
lite_head-eq m v h = ground (arith, canonical_head_lem m v h)

length-canonical_head : (m v : ℕ) → m < 8 → length (canonical_head m v) ≤ 9
length-canonical_head m v h = ground (arith, canonical_head_lem m v h)

-- A run that has written a list, after at most `k` heads.
abbrev Wrote : ℕ → List ℕ → ℕ → LiteEncoder × Bool → Type 0
Wrote k written capacity r =
    (r ≡ (record { written = written; capacity = capacity }, true)) × (length written ≤ 9 * k)

flatten :
    (h a b c d l p : List ℕ)
    → ((((((([] ++ h) ++ a) ++ b) ++ c) ++ d) ++ l) ++ p)
      ≡ h ++ (a ++ (b ++ (c ++ (d ++ ((l ++ p) ++ [])))))
flatten h a b c d l p = simp (append_assoc, append-nil)

-- A part as a CBOR value.
abbrev pub part_value : Part → Value
part_value part = array (
    cons (unsigned_int part.seq_num) (
      cons (unsigned_int part.seq_len) (
        cons (unsigned_int part.message_len)
          (cons (unsigned_int part.checksum) (cons (bytes part.payload) nil)))))

module _ (alloc : ℕ → Bool) where
  write_head :
      (k m v : ℕ) (written : List ℕ) (capacity : ℕ) (r : LiteEncoder × Bool)
      → m < 8
      → 9 * k + 9 ≤ capacity
      → Wrote k written capacity r
      → Wrote
          (k + 1)
          (written ++ canonical_head m v)
          capacity
          (r >=> encode_tag_and_value alloc (m * 2 ^ 5) v)
  write_head k m v written capacity r h room (e, short) = (
    ap (λ q. q >=> encode_tag_and_value alloc (m * 2 ^ 5) v) e
        ∙ encode_tag_and_value-eq alloc (m * 2 ^ 5) v
            (record { written = written; capacity = capacity }) (omega (arith, short, room))
        ∙ ap (λ l. write l (record { written = written; capacity = capacity }))
            (lite_head-eq m v h),
    omega (arith, length-append written (canonical_head m v), length-canonical_head m v h, short),
  )

  write_payload :
      (k : ℕ) (written payload : List ℕ) (capacity : ℕ) (r : LiteEncoder × Bool)
      → 9 * k + length payload ≤ capacity
      → Wrote k written capacity r
      → (r >=> (λ enc. ensure_capacity alloc enc (length payload) >=> write payload))
        ≡ (record { written = written ++ payload; capacity = capacity }, true)
  write_payload k written payload capacity r room (e, short) =
      ap (λ q. q >=> (λ enc. ensure_capacity alloc enc (length payload) >=> write payload)) e
      ∙ ap (λ q. q >=> write payload)
          (room_enough alloc (record { written = written; capacity = capacity }) (length payload)
            (omega (arith, short, room)))

  -- Data that are there are written as a head and the bytes.
  bytes_steps :
      (payload : List ℕ) (r : LiteEncoder × Bool)
      → length payload ≢ 0
      → (r >=> encode_bytes alloc payload) ≡ (
          (r >=> encode_tag_and_value alloc (2 * 2 ^ 5) (length payload))
          >=> (λ enc. ensure_capacity alloc enc (length payload) >=> write payload))
  unfolding encode_bytes
  bytes_steps payload (enc, true) h = ground arith
  bytes_steps payload (enc, false) h = refl

  encode_part-eq :
      (part : Part)
      → length part.payload ≢ 0
      → encode_part alloc part (record { written = []; capacity = 64 + length part.payload }) ≡ (
        record { written = encoding (part_value part); capacity = 64 + length part.payload },
        true,
      )
  unfolding encode_part encode_array_start encode_unsigned encoding
  encode_part-eq part h =
      let c : ℕ = 64 + length part.payload in
      let start : LiteEncoder × Bool = (record { written = []; capacity = c }, true) in
      let w1 = write_head 0 4 5 [] c start (omega arith) (omega arith) (refl, omega arith) in
      let w2 = write_head 1 0 part.seq_num _ c _ (omega arith) (omega arith) w1 in
      let w3 = write_head 2 0 part.seq_len _ c _ (omega arith) (omega arith) w2 in
      let w4 = write_head 3 0 part.message_len _ c _ (omega arith) (omega arith) w3 in
      let w5 = write_head 4 0 part.checksum _ c _ (omega arith) (omega arith) w4 in
      let w6 = write_head 5 2 (length part.payload) _ c _ (omega arith) (omega arith) w5 in
      bytes_steps part.payload
        (encode_array_start alloc 5 (record { written = []; capacity = 64 + length part.payload })
          >=> encode_unsigned alloc part.seq_num
          >=> encode_unsigned alloc part.seq_len
          >=> encode_unsigned alloc part.message_len
          >=> encode_unsigned alloc part.checksum)
        h
      ∙ write_payload 6 _ part.payload c _ (omega arith) w6
      ∙ ap (λ (l : List ℕ). (record { written = l; capacity = c }, true))
          (flatten (canonical_head 4 5) (canonical_head 0 part.seq_num)
            (canonical_head 0 part.seq_len) (canonical_head 0 part.message_len)
            (canonical_head 0 part.checksum) (canonical_head 2 (length part.payload)) part.payload)

  encoding-part_value : (part : Part) → length (encoding (part_value part)) ≢ 0
  unfolding encoding canonical_head
  encoding-part_value part = omega arith

  get_buffer-eq :
      (written : List ℕ) (capacity : ℕ)
      → length written ≢ 0
      → get_buffer alloc (record { written = written; capacity = capacity }, true) ≡ some written
  unfolding get_buffer
  get_buffer-eq written capacity h = ground arith

  -- For every part with data, fountain_encoder_part_to_cbor returns the canonical CBOR of the array of
  -- its four numbers and its data if the first allocation is served, and fails otherwise; it fails for
  -- a part without data.
  pub fountain_encoder_part_to_cbor-encoding :
      (part : Part)
      → fountain_encoder_part_to_cbor alloc part ≡ (
          if length part.payload == 0
          then none
          else if safe_malloc alloc (64 + length part.payload)
          then some (encoding (part_value part))
          else none)
  unfolding fountain_encoder_part_to_cbor
  fountain_encoder_part_to_cbor-encoding part = elim (Bool-cases (length part.payload == 0)) [
    | inl e ↦ rw e refl
    | inr e ↦
        let h : length part.payload ≢ 0 = ground arith in
        rw (e, encode_part-eq part h)
          (ap
            (λ (o : Option (List ℕ)).
              if safe_malloc alloc (64 + length part.payload) then o else none)
            (get_buffer-eq (encoding (part_value part)) (64 + length part.payload)
              (encoding-part_value part)))
  ]
