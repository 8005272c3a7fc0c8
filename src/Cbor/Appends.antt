-- ===== src/Cbor/Appends.antt =====
-- The encoder of src/types/cbor_encoder.c against the canonical bytes of a value.
use c_ur.Base.{ℕ, suc, ◌+◌, ◌≤◌, ◌<◌, ◌↔◌, ◌≡◌, refl, sym, ap, ◌∙◌, Bool, true, false, arith}
use c_ur.Base.{
  List, [], ◌∷◌, ◌++◌, length, length-append, append_assoc, append-nil, if◌then◌else◌, leb, lt→ltb,
  none, some,
}
use c_ur.ByteBuffer.{
  ByteBuffer, IsValid, max_capacity, byte_buffer_append, byte_buffer_new, safe_malloc,
}
use c_ur.ByteBuffer.Laws.{byte_buffer_append-IsValid, byte_buffer_append_iff}
use c_ur.Cbor.Value.{Value, Items, Pairs, unsigned_int, bytes, string, array, map, tag, bool}
use c_ur.Cbor.Value.{nil, cons, end, pair, item_count, pair_count}
use c_ur.Cbor.Encode.{
  head_bytes, encode_head, append_payload, encode_value, encode_items, encode_pairs,
}
use c_ur.Cbor.Encode.{◌>=>◌, encoded_bytes, cbor_encode}
use c_ur.Cbor.Head.{head_bytes-canonical_head}
use mathlib.Core.Path.{subst}
use c_ur.Cbor.Spec.{canonical_head, encoding, items_encoding, pairs_encoding}

-- A run from `start` that appends `more`, or fails for want of room.
pub record Appends (start : ByteBuffer) (more : List ℕ) (after : ByteBuffer × Bool) : Type 0 where
  pub valid : IsValid after.0
  pub contents : after.1 ≡ true → after.0.contents ≡ start.contents ++ more
  pub succeeds : (after.1 ≡ true) ↔ (length start.contents + length more ≤ max_capacity)

Appends-then :
    {start : ByteBuffer} {xs ys : List ℕ} (after : ByteBuffer × Bool)
    (next : ByteBuffer → ByteBuffer × Bool)
    → Appends start xs after
    → ((buf : ByteBuffer) → IsValid buf → Appends buf ys (next buf))
    → Appends start (xs ++ ys) (after >=> next)
Appends-then {start} {xs} {ys} (buf, true) next h k =
    let rest = k buf h.valid in
    let l₁ = length-append start.contents xs in
    let l₂ = length-append xs ys in
    let here : buf.contents ≡ start.contents ++ xs = h.contents refl in
    record {
      valid = rest.valid;
      contents = λ e.
          rest.contents e ∙ ap (λ (l : List ℕ). l ++ ys) here ∙ append_assoc start.contents xs ys;
      succeeds = (
        (λ e. omega (arith, rest.succeeds.0 e, ap length here, l₁, l₂)),
        λ room. rest.succeeds.1 (omega (arith, ap length here, l₁, l₂)),
      );
    }
Appends-then {start} {xs} {ys} (buf, false) next h k = record {
  valid = h.valid;
  contents = λ e. cc;
  succeeds = ((λ e. cc), λ room. h.succeeds.1 (omega (arith, length-append xs ys)));
}

module _ (alloc : ℕ → Bool) (served : (n : ℕ) → alloc n ≡ true) where
  append-Appends :
      (buf : ByteBuffer) (more : List ℕ)
      → IsValid buf
      → Appends buf more (byte_buffer_append alloc buf more)
  append-Appends buf more ok =
      let (valid, kept) = byte_buffer_append-IsValid alloc buf ok more in
      record {
        valid = valid;
        contents = λ e. ground (arith, kept);
        succeeds = byte_buffer_append_iff alloc buf ok more served;
      }

  head-Appends :
      (buf : ByteBuffer) (m v : ℕ)
      → m < 8
      → IsValid buf
      → Appends buf (canonical_head m v) (encode_head alloc buf m v)
  unfolding encode_head
  head-Appends buf m v h ok =
      subst (λ (bs : List ℕ). Appends buf bs (byte_buffer_append alloc buf (head_bytes m v)))
        (head_bytes-canonical_head m v h) (append-Appends buf (head_bytes m v) ok)

  payload-Appends :
      (more : List ℕ) (buf : ByteBuffer)
      → IsValid buf
      → Appends buf more (append_payload alloc more buf)
  unfolding append_payload
  payload-Appends [] buf ok = record {
    valid = ok;
    contents = λ e. sym (append-nil buf.contents);
    succeeds = ((λ e. omega (arith, ok.below_max)), λ e. refl);
  }
  payload-Appends (b ∷ bs) buf ok =
      rw (lt→ltb 0 (suc (length bs)) (omega arith)) (append-Appends buf (b ∷ bs) ok)

  mutual
    unfolding encode_value encoding

    value-Appends :
        (v : Value) (buf : ByteBuffer)
        → IsValid buf
        → Appends buf (encoding v) (encode_value alloc v buf)
    value-Appends (unsigned_int n) buf ok = head-Appends buf 0 n (omega arith) ok
    value-Appends (bytes payload) buf ok =
        Appends-then (encode_head alloc buf 2 (length payload)) (append_payload alloc payload)
          (head-Appends buf 2 (length payload) (omega arith) ok) (payload-Appends payload)
    value-Appends (string str) buf ok =
        Appends-then (encode_head alloc buf 3 (length str)) (append_payload alloc str)
          (head-Appends buf 3 (length str) (omega arith) ok) (payload-Appends str)
    value-Appends (array xs) buf ok =
        Appends-then (encode_head alloc buf 4 (item_count xs)) (encode_items alloc xs)
          (head-Appends buf 4 (item_count xs) (omega arith) ok) (items-Appends xs)
    value-Appends (map ps) buf ok =
        Appends-then (encode_head alloc buf 5 (pair_count ps)) (encode_pairs alloc ps)
          (head-Appends buf 5 (pair_count ps) (omega arith) ok) (pairs-Appends ps)
    value-Appends (tag t content) buf ok =
        Appends-then (encode_head alloc buf 6 t) (encode_value alloc content)
          (head-Appends buf 6 t (omega arith) ok) (value-Appends content)
    value-Appends (bool b) buf ok = append-Appends buf ((if b then 0xf5 else 0xf4) ∷ []) ok

    items-Appends :
        (xs : Items) (buf : ByteBuffer)
        → IsValid buf
        → Appends buf (items_encoding xs) (encode_items alloc xs buf)
    items-Appends nil buf ok = record {
      valid = ok;
      contents = λ e. sym (append-nil buf.contents);
      succeeds = ((λ e. omega (arith, ok.below_max)), λ e. refl);
    }
    items-Appends (cons x xs) buf ok =
        Appends-then (encode_value alloc x buf) (encode_items alloc xs) (value-Appends x buf ok)
          (items-Appends xs)

    pairs-Appends :
        (ps : Pairs) (buf : ByteBuffer)
        → IsValid buf
        → Appends buf (pairs_encoding ps) (encode_pairs alloc ps buf)
    pairs-Appends end buf ok = record {
      valid = ok;
      contents = λ e. sym (append-nil buf.contents);
      succeeds = ((λ e. omega (arith, ok.below_max)), λ e. refl);
    }
    pairs-Appends (pair k v ps) buf ok =
        rw (← append_assoc (encoding k) (encoding v) (pairs_encoding ps)) (
          Appends-then (encode_value alloc k buf >=> encode_value alloc v) (encode_pairs alloc ps)
            (Appends-then (encode_value alloc k buf) (encode_value alloc v) (value-Appends k buf ok)
              (value-Appends v))
            (pairs-Appends ps))

  new_buffer : byte_buffer_new alloc ≡ some (record { contents = []; capacity = 16 })
  unfolding byte_buffer_new safe_malloc
  new_buffer = rw (served 24, served 16)

encoded_bytes-Appends :
    {start : ByteBuffer} (bs : List ℕ) (after : ByteBuffer × Bool)
    → start.contents ≡ []
    → 0 < length bs
    → Appends start bs after
    → encoded_bytes after ≡ (if leb (length bs) max_capacity then some bs else none)
unfolding encoded_bytes
encoded_bytes-Appends bs (buf, true) fresh pos h =
    ground (
      arith,
      h.contents refl,
      h.succeeds.0 refl,
      ap (λ (l : List ℕ). l ++ bs) fresh,
      ap length fresh,
    )
encoded_bytes-Appends bs (buf, false) fresh pos h = ground (arith, h.succeeds, ap length fresh)

length-canonical_head : (m v : ℕ) → 0 < length (canonical_head m v)
unfolding canonical_head
length-canonical_head m v = omega arith

pub length-encoding : (v : Value) → 0 < length (encoding v)
unfolding encoding
length-encoding (unsigned_int n) = length-canonical_head 0 n
length-encoding (bytes p) =
    omega (arith, length-append (canonical_head 2 (length p)) p, length-canonical_head 2 (length p))
length-encoding (string p) =
    omega (arith, length-append (canonical_head 3 (length p)) p, length-canonical_head 3 (length p))
length-encoding (array xs) = omega (
  arith,
  length-append (canonical_head 4 (item_count xs)) (items_encoding xs),
  length-canonical_head 4 (item_count xs),
)
length-encoding (map ps) = omega (
  arith,
  length-append (canonical_head 5 (pair_count ps)) (pairs_encoding ps),
  length-canonical_head 5 (pair_count ps),
)
length-encoding (tag t c) =
    omega (arith, length-append (canonical_head 6 t) (encoding c), length-canonical_head 6 t)
length-encoding (bool b) = omega arith

-- When the allocator serves every request, `cbor_encode` gives the canonical bytes of every value
-- whose bytes fit the buffer's maximum of 1 MiB, and NULL for every other value.
pub cbor_encode-encoding :
    (alloc : ℕ → Bool) (v : Value)
    → ((n : ℕ) → alloc n ≡ true)
    → cbor_encode alloc v
      ≡ (if leb (length (encoding v)) max_capacity then some (encoding v) else none)
unfolding cbor_encode safe_malloc
cbor_encode-encoding alloc v served =
    let buf : ByteBuffer = record { contents = []; capacity = 16 } in
    rw (served 8, new_buffer alloc served, cbor_encode)
      (encoded_bytes-Appends {start = buf} (encoding v) (encode_value alloc v buf) refl
        (length-encoding v) (value-Appends alloc served v buf (omega arith)))
