-- ===== src/Cbor/Containers.antt =====
-- Arrays, maps, tags and simple values accepted by src/types/cbor_decoder.c, given what is known of
-- the decoder one level deeper.
use c_ur.Base.{ℕ, suc, ◌+◌, ◌≤◌, ◌≡◌, refl, false, arith}
use c_ur.Base.{[], ◌++◌, length, length-append}
use c_ur.Base.{inl, inr, Bool-cases}
use c_ur.Cbor.Value.{Value, Items, Pairs}
use c_ur.Cbor.Value.{nil, cons, end, pair, item_count, pair_count, snoc, same_key, set_pair}
use c_ur.Cbor.Spec.{
  encoding, items_encoding, pairs_encoding, Absent, Distinct, Fits, ItemsFit, PairsFit,
}

pub ItemsFit-snoc :
    (levels : ℕ) (acc : Items) (x : Value)
    → ItemsFit levels acc
    → Fits levels x
    → ItemsFit levels (snoc acc x)
unfolding Fits
ItemsFit-snoc levels nil x h f = (f, tt)
ItemsFit-snoc levels (cons y ys) x h f = (h.0, ItemsFit-snoc levels ys x h.1 f)

pub length-snoc :
    (acc : Items) (x : Value)
    → (length (items_encoding (snoc acc x)) ≡ length (items_encoding acc) + length (encoding x))
      × (item_count (snoc acc x) ≡ suc (item_count acc))
unfolding encoding
length-snoc nil x = (omega (arith, length-append (encoding x) []), refl)
length-snoc (cons y ys) x = (
  omega (
    arith,
    length-append (encoding y) (items_encoding (snoc ys x)),
    length-append (encoding y) (items_encoding ys),
    length-snoc ys x,
  ),
  omega (arith, length-snoc ys x),
)

-- Replacing the value of a key, or adding a pair at the end, keeps all keys apart.
Absent-set_pair :
    (key : Value) (ps : Pairs) (k v : Value)
    → Absent key ps
    → same_key key k ≡ false
    → Absent key (set_pair ps k v)
unfolding set_pair
Absent-set_pair key end k v h new = (new, tt)
Absent-set_pair key (pair k' v' ps) k v h new = elim (Bool-cases (same_key k' k)) [
  | inl same ↦ rw same h
  | inr other ↦ rw other (h.0, Absent-set_pair key ps k v h.1 new)
]

pub Distinct-set_pair : (ps : Pairs) (k v : Value) → Distinct ps → Distinct (set_pair ps k v)
unfolding set_pair
Distinct-set_pair end k v h = (tt, tt)
Distinct-set_pair (pair k' v' ps) k v h = elim (Bool-cases (same_key k' k)) [
  | inl same ↦ rw same h
  | inr other ↦ rw other (Absent-set_pair k' ps k v h.0 other, Distinct-set_pair ps k v h.1)
]

pub PairsFit-set_pair :
    (levels : ℕ) (ps : Pairs) (k v : Value)
    → PairsFit levels ps
    → Fits levels k
    → Fits levels v
    → PairsFit levels (set_pair ps k v)
unfolding set_pair Fits
PairsFit-set_pair levels end k v h f g = (f, g, tt)
PairsFit-set_pair levels (pair k' v' ps) k v h f g = elim (Bool-cases (same_key k' k)) [
  | inl same ↦ rw same (h.0, g, h.2)
  | inr other ↦ rw other (h.0, h.1, PairsFit-set_pair levels ps k v h.2 f g)
]

length-pair :
    (k v : Value) (ps : Pairs)
    → length (pairs_encoding (pair k v ps))
      ≡ length (encoding k) + length (encoding v) + length (pairs_encoding ps)
unfolding encoding
length-pair k v ps = omega (
  arith,
  length-append (encoding k) (encoding v ++ pairs_encoding ps),
  length-append (encoding v) (pairs_encoding ps),
)

pub length-set_pair :
    (ps : Pairs) (k v : Value)
    → (length (pairs_encoding (set_pair ps k v))
        ≤ length (pairs_encoding ps) + length (encoding k) + length (encoding v))
      × (pair_count (set_pair ps k v) ≤ suc (pair_count ps))
unfolding set_pair encoding
length-set_pair end k v = (
  omega (arith, length-append (encoding k) (encoding v ++ []), length-append (encoding v) []),
  omega arith,
)
length-set_pair (pair k' v' ps) k v =
    let old = length-pair k' v' ps in
    elim (Bool-cases (same_key k' k)) [
      | inl same ↦ rw same (omega (arith, old, length-pair k' v ps), omega arith)
      | inr other ↦ rw other (
        omega (arith, old, length-pair k' v' (set_pair ps k v), length-set_pair ps k v),
        omega (arith, length-set_pair ps k v),
      )
    ]
