-- ===== src/Cbor/Spec.antt =====
-- What the codec is specified against: the canonical bytes of a value, and the values that the
-- decoder accepts.
use c_ur.Base.{ℕ, zero, suc, ◌+◌, ◌*◌, ◌/◌, ◌%◌, ◌^◌, ltb, ◌≤◌, ◌<◌, ◌≢◌, ◌≡◌, false}
use c_ur.Base.{List, [], ◌∷◌, ◌++◌, length, All, IsByte, if◌then◌else◌}
use c_ur.Cbor.Value.{Value, Items, Pairs, unsigned_int, bytes, string, array, map, tag, bool}
use c_ur.Cbor.Value.{nil, cons, end, pair, item_count, pair_count, same_key}
use c_ur.Cbor.Decode.{max_item_len, max_items}

-- The number of bytes of an argument behind the initial byte: the fewest of 0, 1, 2, 4 and 8, an
-- argument below 24 being in the initial byte itself.
unfoldable pub argument_size : ℕ → ℕ
argument_size v =
    if ltb v 24
    then 0
    else if ltb v (2 ^ 8)
    then 1
    else if ltb v (2 ^ 16)
    then 2
    else if ltb v (2 ^ 32)
    then 4
    else 8

-- The low five bits of the initial byte for an argument of that size.
unfoldable pub additional_information : ℕ → ℕ → ℕ
additional_information zero v = v
additional_information (suc zero) v = 24
additional_information (suc (suc zero)) v = 25
additional_information (suc (suc (suc (suc zero)))) v = 26
additional_information _ v = 27

-- The last `size` bytes of a number, the highest first.
unfoldable pub big_endian : ℕ → ℕ → List ℕ
big_endian zero v = []
big_endian (suc size) v = v / 256 ^ size % 256 ∷ big_endian size v

-- The canonical head of an item, which RFC 8949 fixes: the major type in the high three bits.
unfoldable pub canonical_head : ℕ → ℕ → List ℕ
canonical_head major_type v =
    (major_type * 32 + additional_information (argument_size v) v) ∷ big_endian (argument_size v) v

-- The bytes of a value, with no buffer and no failure.
unfoldable mutual
  pub encoding : Value → List ℕ
  encoding (unsigned_int n) = canonical_head 0 n
  encoding (bytes payload) = canonical_head 2 (length payload) ++ payload
  encoding (string str) = canonical_head 3 (length str) ++ str
  encoding (array xs) = canonical_head 4 (item_count xs) ++ items_encoding xs
  encoding (map ps) = canonical_head 5 (pair_count ps) ++ pairs_encoding ps
  encoding (tag t content) = canonical_head 6 t ++ encoding content
  encoding (bool b) = (if b then 0xf5 else 0xf4) ∷ []

  pub items_encoding : Items → List ℕ
  items_encoding nil = []
  items_encoding (cons x xs) = encoding x ++ items_encoding xs

  pub pairs_encoding : Pairs → List ℕ
  pairs_encoding end = []
  pairs_encoding (pair k v ps) = encoding k ++ (encoding v ++ pairs_encoding ps)

-- No key of the pairs is the unsigned number that `key` is.
abbrev pub Absent : Value → Pairs → Type 0
Absent key end = Unit {0}
Absent key (pair k v ps) = (same_key key k ≡ false) × Absent key ps

abbrev pub Distinct : Pairs → Type 0
Distinct end = Unit {0}
Distinct (pair k v ps) = Absent k ps × Distinct ps

-- The values within the decoder's limits, `levels` being the nesting that is left: numbers below
-- 2 ^ 32, bounded sizes, byte strings that are not empty, strings with no zero in them, and maps
-- whose unsigned keys differ.
unfoldable mutual
  pub Fits : ℕ → Value → Type 0
  Fits zero v = ⊥
  Fits (suc levels) (unsigned_int n) = n < 2 ^ 32
  Fits (suc levels) (bytes payload) =
      (0 < length payload) × (length payload ≤ max_item_len) × All IsByte payload
  Fits (suc levels) (string str) = (length str ≤ max_item_len) × All (λ b. (b ≢ 0) × IsByte b) str
  Fits (suc levels) (array xs) = (item_count xs ≤ max_items) × ItemsFit levels xs
  Fits (suc levels) (map ps) = (pair_count ps ≤ max_items) × PairsFit levels ps × Distinct ps
  Fits (suc levels) (tag t content) = (t < 2 ^ 32) × Fits levels content
  Fits (suc levels) (bool b) = Unit {0}

  pub ItemsFit : ℕ → Items → Type 0
  ItemsFit levels nil = Unit {0}
  ItemsFit levels (cons x xs) = Fits levels x × ItemsFit levels xs

  pub PairsFit : ℕ → Pairs → Type 0
  PairsFit levels end = Unit {0}
  PairsFit levels (pair k v ps) = Fits levels k × Fits levels v × PairsFit levels ps
