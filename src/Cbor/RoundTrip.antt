-- ===== src/Cbor/RoundTrip.antt =====
-- What src/types/cbor_encoder.c writes, src/types/cbor_decoder.c reads back.
use c_ur.Base.{ℕ, zero, suc, ◌+◌, ◌^◌, ◌≤◌, ◌<◌, ◌≢◌, ◌≡◌, refl, ap, ◌∙◌, Bool, true, false, arith}
use c_ur.Base.{List, [], ◌∷◌, ◌++◌, length, length-append, append_assoc, if◌then◌else◌}
use c_ur.Base.{take-length-append, drop-length-append, All, IsByte, some, ◌>>=◌}
use c_ur.ByteBuffer.{safe_malloc, max_capacity}
use c_ur.Cbor.Value.{Value, Items, Pairs, unsigned_int, bytes, string, array, map, tag, bool}
use c_ur.Cbor.Value.{
  nil, cons, end, pair, item_count, pair_count, snoc, c_string, same_key, set_pair,
}
use c_ur.Cbor.Value.{cbor_value_new_bytes, cbor_value_new_string, cbor_array_append, cbor_map_set}
use c_ur.Cbor.Decode.{cbor_decoder_size, max_item_len, max_items, max_depth, read_bytes, Parser}
use c_ur.Cbor.Decode.{decode_unsigned_int, decode_simple, decode_bytes, decode_string, decode_items}
use c_ur.Cbor.Decode.{
  decode_pairs, decode_array, decode_map, decode_tag, decode_major, decode_level,
}
use c_ur.Cbor.Decode.{decode_value, cbor_decode}
use c_ur.Cbor.Encode.{cbor_encode}
use c_ur.Cbor.Appends.{cbor_encode-encoding, length-encoding}
use c_ur.Cbor.Head.{
  additional, head_args, read_argument-head_args, decode_level-head, decode_level-cons,
}
use c_ur.Cbor.Spec.{
  canonical_head, encoding, items_encoding, pairs_encoding, Absent, Distinct, Fits, ItemsFit,
  PairsFit,
}

read_bytes-append : (xs rest : List ℕ) → read_bytes (length xs) (xs ++ rest) ≡ some (xs, rest)
unfolding read_bytes
read_bytes-append xs rest =
    ground (arith, length-append xs rest, take-length-append xs rest, drop-length-append xs rest)

c_string_whole : (str : List ℕ) → All (λ b. (b ≢ 0) × IsByte b) str → c_string str ≡ str
unfolding c_string
c_string_whole [] h = refl
c_string_whole (b ∷ bs) h = ground (arith, c_string_whole bs h.1, h.0.0)

module _ (alloc : ℕ → Bool) (served : (n : ℕ) → alloc n ≡ true) where
  decode_bytes-append :
      (payload rest : List ℕ)
      → 0 < length payload
      → length payload ≤ max_item_len
      → decode_bytes alloc
          (additional (length payload))
          (head_args (length payload) ++ (payload ++ rest))
        ≡ some (bytes payload, rest)
  unfolding decode_bytes safe_malloc cbor_value_new_bytes
  decode_bytes-append [] rest pos fits = absurd (omega arith)
  decode_bytes-append (b ∷ bs) rest pos fits = ground (
    arith,
    read_argument-head_args (length (b ∷ bs)) ((b ∷ bs) ++ rest),
    read_bytes-append (b ∷ bs) rest,
    served (length (b ∷ bs)),
  )

  decode_string-append :
      (str rest : List ℕ)
      → All (λ b. (b ≢ 0) × IsByte b) str
      → length str ≤ max_item_len
      → decode_string alloc (additional (length str)) (head_args (length str) ++ (str ++ rest))
        ≡ some (string str, rest)
  unfolding decode_string safe_malloc cbor_value_new_string
  decode_string-append str rest text fits = ground (
    arith,
    read_argument-head_args (length str) (str ++ rest),
    read_bytes-append str rest,
    c_string_whole str text,
    served (length str + 1),
  )

-- The items of the first, and then those of the second.
abbrev append_items : Items → Items → Items
append_items nil ys = ys
append_items (cons x xs) ys = cons x (append_items xs ys)

abbrev append_pairs : Pairs → Pairs → Pairs
append_pairs end qs = qs
append_pairs (pair k v ps) qs = pair k v (append_pairs ps qs)

append_items-snoc :
    (acc : Items) (x : Value) (xs : Items)
    → append_items (snoc acc x) xs ≡ append_items acc (cons x xs)
append_items-snoc nil x xs = refl
append_items-snoc (cons y ys) x xs = ap (cons y) (append_items-snoc ys x xs)

append_pairs_assoc :
    (ps qs rs : Pairs) → append_pairs (append_pairs ps qs) rs ≡ append_pairs ps (append_pairs qs rs)
append_pairs_assoc end qs rs = refl
append_pairs_assoc (pair k v ps) qs rs = ap (pair k v) (append_pairs_assoc ps qs rs)

Absent-middle :
    (key : Value) (ps : Pairs) (k v : Value) (qs : Pairs)
    → Absent key (append_pairs ps (pair k v qs))
    → same_key key k ≡ false
Absent-middle key end k v qs h = h.0
Absent-middle key (pair k' v' ps) k v qs h = Absent-middle key ps k v qs h.1

-- A pair whose key differs from those before it goes to the end.
set_pair-Distinct :
    (acc : Pairs) (k v : Value) (ps : Pairs)
    → Distinct (append_pairs acc (pair k v ps))
    → set_pair acc k v ≡ append_pairs acc (pair k v end)
unfolding set_pair
set_pair-Distinct end k v ps h = refl
set_pair-Distinct (pair k' v' acc) k v ps h =
    ground (arith, Absent-middle k' acc k v ps h.0, set_pair-Distinct acc k v ps h.1)

-- A head in front of `body`, and the routine that its major type selects.
pub decode_level-headed :
    (alloc : ℕ → Bool) (levels m v : ℕ) (body rest : List ℕ)
    → m < 8
    → decode_level alloc (suc levels) ((canonical_head m v ++ body) ++ rest)
      ≡ decode_major
          (decode_level alloc levels)
          alloc
          m
          (additional v)
          (head_args v ++ (body ++ rest))
decode_level-headed alloc levels m v body rest h =
    rw (append_assoc (canonical_head m v) body rest)
      (decode_level-head alloc levels m v (body ++ rest) h)

module _ (decode : Parser Value) where
  decode_array-head :
      (count : ℕ) (rest : List ℕ)
      → count ≤ max_items
      → decode_array decode (additional count) (head_args count ++ rest)
        ≡ decode_items decode count (array nil) rest
  unfolding decode_array
  decode_array-head count rest h = ground (arith, read_argument-head_args count rest)

  decode_map-head :
      (count : ℕ) (rest : List ℕ)
      → count ≤ max_items
      → decode_map decode (additional count) (head_args count ++ rest)
        ≡ decode_pairs decode count (map end) rest
  unfolding decode_map
  decode_map-head count rest h = ground (arith, read_argument-head_args count rest)

  decode_tag-head :
      (t : ℕ) (content : Value) (input rest : List ℕ)
      → t < 2 ^ 32
      → decode input ≡ some (content, rest)
      → decode_tag decode (additional t) (head_args t ++ input) ≡ some (tag t content, rest)
  unfolding decode_tag
  decode_tag-head t content input rest h e = ground (arith, read_argument-head_args t input)

  decode_items-suc :
      (n : ℕ) (acc : Items) (x : Value) (input rest : List ℕ)
      → decode input ≡ some (x, rest)
      → decode_items decode (suc n) (array acc) input
        ≡ decode_items decode n (array (snoc acc x)) rest
  unfolding decode_items cbor_array_append
  decode_items-suc n acc x input rest e = rw e

  decode_pairs-suc :
      (n : ℕ) (acc : Pairs) (k v : Value) (input middle rest : List ℕ)
      → decode input ≡ some (k, middle)
      → decode middle ≡ some (v, rest)
      → decode_pairs decode (suc n) (map acc) input
        ≡ decode_pairs decode n (map (set_pair acc k v)) rest
  unfolding decode_pairs cbor_map_set
  decode_pairs-suc n acc k v input middle rest e f = rw (e, f)

append_items-nil : (acc : Items) → append_items acc nil ≡ acc
append_items-nil nil = refl
append_items-nil (cons x xs) = ap (cons x) (append_items-nil xs)

append_pairs-end : (acc : Pairs) → append_pairs acc end ≡ acc
append_pairs-end end = refl
append_pairs-end (pair k v ps) = ap (pair k v) (append_pairs-end ps)

decode_items-nil :
    (decode : Parser Value) (acc : Items) (rest : List ℕ)
    → decode_items decode 0 (array acc) rest ≡ some (array (append_items acc nil), rest)
unfolding decode_items
decode_items-nil decode acc rest = rw (append_items-nil acc)

decode_pairs-end :
    (decode : Parser Value) (acc : Pairs) (rest : List ℕ)
    → decode_pairs decode 0 (map acc) rest ≡ some (map (append_pairs acc end), rest)
unfolding decode_pairs
decode_pairs-end decode acc rest = rw (append_pairs-end acc)

decode_unsigned_int-head :
    (n : ℕ) (rest : List ℕ)
    → n < 2 ^ 32
    → decode_unsigned_int (additional n) (head_args n ++ rest) ≡ some (unsigned_int n, rest)
unfolding decode_unsigned_int
decode_unsigned_int-head n rest h = rw (read_argument-head_args n rest h)

decode_level-bool :
    (alloc : ℕ → Bool) (levels : ℕ) (b : Bool) (rest : List ℕ)
    → decode_level alloc (suc levels) ((if b then 0xf5 else 0xf4) ∷ rest) ≡ some (bool b, rest)
unfolding decode_major decode_simple
decode_level-bool alloc levels true rest = decode_level-cons alloc levels 0xf5 rest (omega arith)
decode_level-bool alloc levels false rest = decode_level-cons alloc levels 0xf4 rest (omega arith)

module _ (alloc : ℕ → Bool) (served : (n : ℕ) → alloc n ≡ true) where
  mutual
    unfolding encoding Fits decode_major

    pub decode_level-encoding :
        (v : Value) (levels : ℕ) (rest : List ℕ)
        → Fits levels v
        → decode_level alloc levels (encoding v ++ rest) ≡ some (v, rest)
    decode_level-encoding (unsigned_int n) zero rest h = absurd h
    decode_level-encoding (unsigned_int n) (suc levels) rest h =
        decode_level-head alloc levels 0 n rest (omega arith) ∙ decode_unsigned_int-head n rest h
    decode_level-encoding (bytes p) zero rest h = absurd h
    decode_level-encoding (bytes p) (suc levels) rest h =
        decode_level-headed alloc levels 2 (length p) p rest (omega arith)
        ∙ decode_bytes-append alloc served p rest h.0 h.1
    decode_level-encoding (string p) zero rest h = absurd h
    decode_level-encoding (string p) (suc levels) rest h =
        decode_level-headed alloc levels 3 (length p) p rest (omega arith)
        ∙ decode_string-append alloc served p rest h.1 h.0
    decode_level-encoding (array xs) zero rest h = absurd h
    decode_level-encoding (array xs) (suc levels) rest h =
        decode_level-headed alloc levels 4 (item_count xs) (items_encoding xs) rest (omega arith)
        ∙ decode_array-head (decode_level alloc levels) (item_count xs) (items_encoding xs ++ rest)
            h.0
        ∙ decode_items-encoding xs levels nil rest h.1
    decode_level-encoding (map ps) zero rest h = absurd h
    decode_level-encoding (map ps) (suc levels) rest h =
        decode_level-headed alloc levels 5 (pair_count ps) (pairs_encoding ps) rest (omega arith)
        ∙ decode_map-head (decode_level alloc levels) (pair_count ps) (pairs_encoding ps ++ rest)
            h.0
        ∙ decode_pairs-encoding ps levels end rest h.1 h.2
    decode_level-encoding (tag t c) zero rest h = absurd h
    decode_level-encoding (tag t c) (suc levels) rest h =
        decode_level-headed alloc levels 6 t (encoding c) rest (omega arith)
        ∙ decode_tag-head (decode_level alloc levels) t c (encoding c ++ rest) rest h.0
            (decode_level-encoding c levels rest h.1)
    decode_level-encoding (bool b) zero rest h = absurd h
    decode_level-encoding (bool b) (suc levels) rest h = decode_level-bool alloc levels b rest

    decode_items-encoding :
        (xs : Items) (levels : ℕ) (acc : Items) (rest : List ℕ)
        → ItemsFit levels xs
        → decode_items
            (decode_level alloc levels)
            (item_count xs)
            (array acc)
            (items_encoding xs ++ rest)
          ≡ some (array (append_items acc xs), rest)
    decode_items-encoding nil levels acc rest h =
        decode_items-nil (decode_level alloc levels) acc rest
    decode_items-encoding (cons x xs) levels acc rest h =
        rw (append_assoc (encoding x) (items_encoding xs) rest) (
          decode_items-suc (decode_level alloc levels) (item_count xs) acc x _ _
            (decode_level-encoding x levels (items_encoding xs ++ rest) h.0)
          ∙ decode_items-encoding xs levels (snoc acc x) rest h.1
          ∙ ap (λ (l : Items). some (array l, rest)) (append_items-snoc acc x xs))

    decode_pairs-encoding :
        (ps : Pairs) (levels : ℕ) (acc : Pairs) (rest : List ℕ)
        → PairsFit levels ps
        → Distinct (append_pairs acc ps)
        → decode_pairs
            (decode_level alloc levels)
            (pair_count ps)
            (map acc)
            (pairs_encoding ps ++ rest)
          ≡ some (map (append_pairs acc ps), rest)
    decode_pairs-encoding end levels acc rest h d =
        decode_pairs-end (decode_level alloc levels) acc rest
    decode_pairs-encoding (pair k v ps) levels acc rest h d =
        rw
          (
            append_assoc (encoding k) (encoding v ++ pairs_encoding ps) rest,
            append_assoc (encoding v) (pairs_encoding ps) rest,
          )
          (decode_pairs-suc (decode_level alloc levels) (pair_count ps) acc k v _ _ _
              (decode_level-encoding k levels (encoding v ++ (pairs_encoding ps ++ rest)) h.0)
              (decode_level-encoding v levels (pairs_encoding ps ++ rest) h.1)
            ∙ rw (set_pair-Distinct acc k v ps d) (
                decode_pairs-encoding ps levels (append_pairs acc (pair k v end)) rest h.2
                  (rw (append_pairs_assoc acc (pair k v end) ps) d)
                ∙ ap (λ (l : Pairs). some (map l, rest))
                    (append_pairs_assoc acc (pair k v end) ps)))

malloc_served :
    (alloc : ℕ → Bool) → ((n : ℕ) → alloc n ≡ true) → safe_malloc alloc cbor_decoder_size ≡ true
unfolding safe_malloc
malloc_served alloc served = served cbor_decoder_size

pub cbor_decode-nonempty :
    (alloc : ℕ → Bool) (input : List ℕ)
    → 0 < length input
    → safe_malloc alloc cbor_decoder_size ≡ true
    → cbor_decode alloc input ≡ (decode_value alloc 0 input >>= λ r. some r.0)
unfolding cbor_decode
cbor_decode-nonempty alloc [] h served = absurd (omega arith)
cbor_decode-nonempty alloc (b ∷ bs) h served = rw served refl

-- When every allocation is served, a value within the decoder's limits whose canonical bytes are at
-- most 1 MiB is encoded, and the bytes, with anything behind them, decode to that value.
pub cbor_decode-cbor_encode :
    (alloc : ℕ → Bool) (v : Value) (rest : List ℕ)
    → ((n : ℕ) → alloc n ≡ true)
    → Fits (max_depth + 1) v
    → length (encoding v) ≤ max_capacity
    → (bs : List ℕ) × (cbor_encode alloc v ≡ some bs) × (cbor_decode alloc (bs ++ rest) ≡ some v)
cbor_decode-cbor_encode alloc v rest served fits small = (
  encoding v,
  cbor_encode-encoding alloc v served ∙ ground arith,
  cbor_decode-nonempty alloc (encoding v ++ rest)
        (omega (arith, length-append (encoding v) rest, length-encoding v))
        (malloc_served alloc served)
      ∙ unfold decode_value in rw (decode_level-encoding alloc served v (max_depth + 1) rest fits),
)
