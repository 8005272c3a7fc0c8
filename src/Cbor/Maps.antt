-- ===== src/Cbor/Maps.antt =====
-- `cbor_map_set` and `cbor_map_get` of src/types/cbor_data.c as a map from unsigned keys.
use c_ur.Base.{ℕ, ◌==◌, ◌≡◌, refl, if◌then◌else◌, some, arith}
use c_ur.Cbor.Value.{Value, Pairs, unsigned_int, bytes, map, end, pair}
use c_ur.Cbor.Value.{same_key, set_pair, find_pair, cbor_map_set, cbor_map_get}
use c_ur.Cbor.Spec.{Distinct}
use c_ur.Cbor.Containers.{Distinct-set_pair}

find_pair-set_pair :
    (ps : Pairs) (a b : ℕ) (v : Value)
    → find_pair (set_pair ps (unsigned_int a) v) (unsigned_int b)
      ≡ (if a == b then some v else find_pair ps (unsigned_int b))
unfolding find_pair set_pair same_key
find_pair-set_pair end a b v = refl
find_pair-set_pair (pair (unsigned_int n) w ps) a b v = ground (arith, find_pair-set_pair ps a b v)
find_pair-set_pair (pair (bytes _) w ps) a b v = find_pair-set_pair ps a b v
find_pair-set_pair (pair _ w ps) a b v = find_pair-set_pair ps a b v

-- On a map whose unsigned keys differ, writing at an unsigned key succeeds; reading an unsigned key
-- then gives the value that was written if the keys agree, and what the map had before otherwise; and
-- the unsigned keys still differ.
pub cbor_map_get-cbor_map_set :
    (ps : Pairs) (a b : ℕ) (v : Value)
    → Distinct ps
    → (qs : Pairs) × (cbor_map_set (map ps) (unsigned_int a) v ≡ some (map qs))
      × (cbor_map_get (map qs) (unsigned_int b)
          ≡ (if a == b then some v else cbor_map_get (map ps) (unsigned_int b)))
      × Distinct qs
unfolding cbor_map_set cbor_map_get
cbor_map_get-cbor_map_set ps a b v d = (
  set_pair ps (unsigned_int a) v,
  refl,
  find_pair-set_pair ps a b v,
  Distinct-set_pair ps (unsigned_int a) v d,
)
