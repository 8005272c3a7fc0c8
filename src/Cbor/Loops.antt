-- ===== src/Cbor/Loops.antt =====
-- The loops of decode_array and decode_map in src/types/cbor_decoder.c, and the routines around them,
-- given what is known of the decoder one level deeper.
use c_ur.Base.{ℕ, zero, suc, ◌+◌, ◌≤◌, ◌≡◌, refl, Bool, true, false, arith}
use c_ur.Base.{List, length, length-append, leb, ◌==◌}
use c_ur.Base.{All, IsByte, some, bind_cases, inl, inr, Bool-cases}
use mathlib.Core.Path.{subst}
use c_ur.Cbor.Value.{Value, Items, Pairs, unsigned_int, array, map, tag, bool}
use c_ur.Cbor.Value.{nil, end, item_count, pair_count, snoc, set_pair}
use c_ur.Cbor.Value.{cbor_array_append, cbor_map_set}
use c_ur.Cbor.Decode.{max_items, read_argument, Parser, guard}
use c_ur.Cbor.Decode.{decode_unsigned_int, decode_simple, decode_items}
use c_ur.Cbor.Decode.{decode_pairs, decode_array, decode_map, decode_tag}
use c_ur.Cbor.Head.{head_args}
use c_ur.Cbor.Spec.{
  canonical_head, encoding, items_encoding, pairs_encoding, Distinct, Fits, ItemsFit, PairsFit,
}
use c_ur.Cbor.Argument.{read_argument_lem}
use c_ur.Cbor.Payload.{Sound, Sound-along, guard-eq-true, length-canonical_head_eq}
use c_ur.Cbor.Payload.{head_args_mono}
use c_ur.Base.{leb→le}
use c_ur.Cbor.Containers.{
  ItemsFit-snoc, length-snoc, Distinct-set_pair, PairsFit-set_pair, length-set_pair,
}

-- What is known of a whole decoded item.
pub record Accepts (levels : ℕ) (input : List ℕ) (v : Value) (rest : List ℕ) : Type 0 where
  pub fits : Fits levels v
  pub shorter : length (encoding v) + length rest ≤ length input
  pub rest_bytes : All IsByte rest

-- The items and the pairs that the loops leave.
record ItemsRead (levels n : ℕ) (acc : Items) (input : List ℕ) (v : Value) (rest : List ℕ)
    : Type 0 where
  xs : Items
  made : array xs ≡ v
  count : item_count xs ≡ item_count acc + n
  fit : ItemsFit levels xs
  shorter : length (items_encoding xs) + length rest ≤ length (items_encoding acc) + length input
  rest_bytes : All IsByte rest

record PairsRead (levels n : ℕ) (acc : Pairs) (input : List ℕ) (v : Value) (rest : List ℕ)
    : Type 0 where
  ps : Pairs
  made : map ps ≡ v
  count : pair_count ps ≤ pair_count acc + n
  fit : PairsFit levels ps
  distinct : Distinct ps
  shorter : length (pairs_encoding ps) + length rest ≤ length (pairs_encoding acc) + length input
  rest_bytes : All IsByte rest

array-Sound :
    (levels : ℕ) (input : List ℕ) (xs : Items) (rest : List ℕ)
    → item_count xs ≤ max_items
    → ItemsFit levels xs
    → All IsByte rest
    → length (head_args (item_count xs)) + length (items_encoding xs) + length rest ≤ length input
    → Sound (suc levels) input (array xs) rest
unfolding Fits encoding
array-Sound levels input xs rest small fit ok short = record {
  fits = (small, fit);
  shorter = omega (
    arith,
    length-canonical_head_eq 4 (item_count xs) (omega arith),
    length-append (canonical_head 4 (item_count xs)) (items_encoding xs),
  );
  rest_bytes = ok;
}

map-Sound :
    (levels : ℕ) (input : List ℕ) (ps : Pairs) (rest : List ℕ)
    → pair_count ps ≤ max_items
    → PairsFit levels ps
    → Distinct ps
    → All IsByte rest
    → length (head_args (pair_count ps)) + length (pairs_encoding ps) + length rest ≤ length input
    → Sound (suc levels) input (map ps) rest
unfolding Fits encoding
map-Sound levels input ps rest small fit distinct ok short = record {
  fits = (small, fit, distinct);
  shorter = omega (
    arith,
    length-canonical_head_eq 5 (pair_count ps) (omega arith),
    length-append (canonical_head 5 (pair_count ps)) (pairs_encoding ps),
  );
  rest_bytes = ok;
}

module _ (levels : ℕ) (decode : Parser Value)
    (sound : (input : List ℕ) (v : Value) (rest : List ℕ)
      → All IsByte input
      → decode input ≡ some (v, rest)
      → Accepts levels input v rest) where
  decode_items-ItemsRead :
      (n : ℕ) (acc : Items) (input : List ℕ) (v : Value) (rest : List ℕ)
      → All IsByte input
      → ItemsFit levels acc
      → decode_items decode n (array acc) input ≡ some (v, rest)
      → ItemsRead levels n acc input v rest
  unfolding decode_items cbor_array_append
  decode_items-ItemsRead zero acc input v rest ok fit e = record {
    xs = acc;
    made = ground (arith, e);
    count = omega arith;
    fit = fit;
    shorter = ground (arith, e);
    rest_bytes = subst (All IsByte) (ground (arith, e)) ok;
  }
  decode_items-ItemsRead (suc n) acc input v rest ok fit e =
      bind_cases (decode input) _ e λ p e₁ e₂.
        let a = sound input p.0 p.1 ok e₁ in
        let (more, one) = length-snoc acc p.0 in
        let r =
          decode_items-ItemsRead n (snoc acc p.0) p.1 v rest a.rest_bytes
            (ItemsFit-snoc levels acc p.0 fit a.fits) e₂ in
        record {
          xs = r.xs;
          made = r.made;
          count = omega (arith, r.count, one);
          fit = r.fit;
          shorter = omega (arith, r.shorter, more, a.shorter);
          rest_bytes = r.rest_bytes;
        }

  decode_pairs-PairsRead :
      (n : ℕ) (acc : Pairs) (input : List ℕ) (v : Value) (rest : List ℕ)
      → All IsByte input
      → PairsFit levels acc
      → Distinct acc
      → decode_pairs decode n (map acc) input ≡ some (v, rest)
      → PairsRead levels n acc input v rest
  unfolding decode_pairs cbor_map_set
  decode_pairs-PairsRead zero acc input v rest ok fit d e = record {
    ps = acc;
    made = ground (arith, e);
    count = omega arith;
    fit = fit;
    distinct = d;
    shorter = ground (arith, e);
    rest_bytes = subst (All IsByte) (ground (arith, e)) ok;
  }
  decode_pairs-PairsRead (suc n) acc input v rest ok fit d e =
      bind_cases (decode input) _ e λ p e₁ e₂. bind_cases (decode p.1) _ e₂ λ q e₃ e₄.
        let a = sound input p.0 p.1 ok e₁ in
        let b = sound p.1 q.0 q.1 a.rest_bytes e₃ in
        let (more, one) = length-set_pair acc p.0 q.0 in
        let r =
          decode_pairs-PairsRead n (set_pair acc p.0 q.0) q.1 v rest b.rest_bytes
            (PairsFit-set_pair levels acc p.0 q.0 fit a.fits b.fits)
            (Distinct-set_pair acc p.0 q.0 d) e₄ in
        record {
          ps = r.ps;
          made = r.made;
          count = omega (arith, r.count, one);
          fit = r.fit;
          distinct = r.distinct;
          shorter = omega (arith, r.shorter, more, a.shorter, b.shorter);
          rest_bytes = r.rest_bytes;
        }

  pub decode_array-Sound :
      (a : ℕ) (input : List ℕ) (v : Value) (rest : List ℕ)
      → All IsByte input
      → decode_array decode a input ≡ some (v, rest)
      → Sound (suc levels) input v rest
  unfolding decode_array Fits encoding
  decode_array-Sound a input v rest ok e = bind_cases (read_argument a input) _ e λ p e₁ e₂.
      bind_cases (guard (leb p.0 max_items)) _ e₂ λ u g e₃.
        let r = read_argument_lem a input p.0 p.1 ok e₁ in
        let s = decode_items-ItemsRead p.0 nil p.1 v rest r.rest_bytes tt e₃ in
        let small = leb→le p.0 max_items (guard-eq-true (leb p.0 max_items) g) in
        let count : item_count s.xs ≤ p.0 = omega (arith, s.count) in
        subst (λ w. Sound (suc levels) input w rest) s.made
          (array-Sound levels input s.xs rest (omega (arith, small, count)) s.fit s.rest_bytes
            (omega (arith, s.shorter, r.shorter, head_args_mono (item_count s.xs) p.0 count)))

  pub decode_map-Sound :
      (a : ℕ) (input : List ℕ) (v : Value) (rest : List ℕ)
      → All IsByte input
      → decode_map decode a input ≡ some (v, rest)
      → Sound (suc levels) input v rest
  unfolding decode_map Fits encoding
  decode_map-Sound a input v rest ok e = bind_cases (read_argument a input) _ e λ p e₁ e₂.
      bind_cases (guard (leb p.0 max_items)) _ e₂ λ u g e₃.
        let r = read_argument_lem a input p.0 p.1 ok e₁ in
        let s = decode_pairs-PairsRead p.0 end p.1 v rest r.rest_bytes tt tt e₃ in
        let small = leb→le p.0 max_items (guard-eq-true (leb p.0 max_items) g) in
        let count : pair_count s.ps ≤ p.0 = omega (arith, s.count) in
        subst (λ w. Sound (suc levels) input w rest) s.made
          (map-Sound levels input s.ps rest (omega (arith, small, count)) s.fit s.distinct
            s.rest_bytes
            (omega (arith, s.shorter, r.shorter, head_args_mono (pair_count s.ps) p.0 count)))

  pub decode_tag-Sound :
      (a : ℕ) (input : List ℕ) (v : Value) (rest : List ℕ)
      → All IsByte input
      → decode_tag decode a input ≡ some (v, rest)
      → Sound (suc levels) input v rest
  unfolding decode_tag Fits encoding
  decode_tag-Sound a input v rest ok e = bind_cases (read_argument a input) _ e λ p e₁ e₂.
      bind_cases (decode p.1) _ e₂ λ q e₃ e₄.
        let r = read_argument_lem a input p.0 p.1 ok e₁ in
        let s = sound p.1 q.0 q.1 r.rest_bytes e₃ in
        Sound-along {u = tag p.0 q.0} refl e₄ (record {
          fits = (r.small, s.fits);
          shorter = omega (
            arith,
            s.shorter,
            r.shorter,
            length-canonical_head_eq 6 p.0 (omega arith),
            length-append (canonical_head 6 p.0) (encoding q.0),
          );
          rest_bytes = s.rest_bytes;
        })

-- Numbers and booleans need nothing deeper.
pub decode_unsigned_int-Sound :
    (levels a : ℕ) (input : List ℕ) (v : Value) (rest : List ℕ)
    → All IsByte input
    → decode_unsigned_int a input ≡ some (v, rest)
    → Sound (suc levels) input v rest
unfolding decode_unsigned_int Fits encoding
decode_unsigned_int-Sound levels a input v rest ok e =
    bind_cases (read_argument a input) _ e λ p e₁ e₂.
      let r = read_argument_lem a input p.0 p.1 ok e₁ in
      Sound-along {u = unsigned_int p.0} refl e₂ (record {
        fits = r.small;
        shorter = omega (arith, r.shorter, length-canonical_head_eq 0 p.0 (omega arith));
        rest_bytes = r.rest_bytes;
      })

bool-Sound :
    (levels : ℕ) (input : List ℕ) (b : Bool)
    → All IsByte input
    → Sound (suc levels) input (bool b) input
unfolding Fits encoding
bool-Sound levels input b ok = record { fits = tt; shorter = omega arith; rest_bytes = ok }

pub decode_simple-Sound :
    (levels a : ℕ) (input : List ℕ) (v : Value) (rest : List ℕ)
    → All IsByte input
    → decode_simple a input ≡ some (v, rest)
    → Sound (suc levels) input v rest
unfolding decode_simple
decode_simple-Sound levels a input v rest ok e = elim (Bool-cases (a == 20)) [
  | inl low ↦ Sound-along {w = bool false} refl (ground arith) (bool-Sound levels input false ok)
  | inr high ↦ Sound-along {w = bool true} refl (ground arith) (bool-Sound levels input true ok)
]
