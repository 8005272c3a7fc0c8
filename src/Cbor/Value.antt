-- ===== src/Cbor/Value.antt =====
-- src/types/cbor_data.h and cbor_data.c: CBOR values, arrays and maps.
use c_ur.Base.{ℕ, suc, ◌+◌, Bool, false, List, [], ◌∷◌, length, ltb, ◌==◌, if◌then◌else◌}
use c_ur.Base.{Option, none, some}
use c_ur.ByteBuffer.{safe_malloc}

-- A string holds the bytes before its terminating zero.
mutual
  pub data Value : Type 0 where
    unsigned_int : ℕ → Value
    bytes : List ℕ → Value
    string : List ℕ → Value
    array : Items → Value
    map : Pairs → Value
    tag : ℕ → Value → Value
    bool : Bool → Value

  pub data Items : Type 0 where
    nil : Items
    cons : Value → Items → Items

  pub data Pairs : Type 0 where
    end : Pairs
    pair : Value → Value → Pairs → Pairs

abbrev pub item_count : Items → ℕ
item_count nil = 0
item_count (cons x xs) = suc (item_count xs)

abbrev pub pair_count : Pairs → ℕ
pair_count end = 0
pair_count (pair k v ps) = suc (pair_count ps)

abbrev pub snoc : Items → Value → Items
snoc nil v = cons v nil
snoc (cons x xs) v = cons x (snoc xs v)

-- The bytes before the first zero, as `strlen` and `strcpy` see them.
unfoldable pub c_string : List ℕ → List ℕ
c_string [] = []
c_string (b ∷ bs) = let rest = c_string bs in if b == 0 then [] else b ∷ rest

module _ (alloc : ℕ → Bool) where
  unfoldable pub cbor_value_new_bytes : List ℕ → Option Value
  cbor_value_new_bytes [] = some (bytes [])
  cbor_value_new_bytes (b ∷ bs) =
      if safe_malloc alloc (length (b ∷ bs)) then some (bytes (b ∷ bs)) else none

  unfoldable pub cbor_value_new_string : List ℕ → Option Value
  cbor_value_new_string str =
      if safe_malloc alloc (length (c_string str) + 1) then some (string (c_string str)) else none

unfoldable pub cbor_array_append : Value → Value → Option Value
cbor_array_append (array xs) item = some (array (snoc xs item))
cbor_array_append _ item = none

-- Only unsigned keys are compared.
unfoldable pub same_key : Value → Value → Bool
same_key (unsigned_int a) (unsigned_int b) = a == b
same_key _ _ = false

-- The loop over the keys: the first equal key takes the value, else the pair goes to the end.
unfoldable pub set_pair : Pairs → Value → Value → Pairs
set_pair end key value = pair key value end
set_pair (pair k v ps) key value =
    let rest = set_pair ps key value in if same_key k key then pair k value ps else pair k v rest

unfoldable pub cbor_map_set : Value → Value → Value → Option Value
cbor_map_set (map ps) key value = some (map (set_pair ps key value))
cbor_map_set _ key value = none

unfoldable pub find_pair : Pairs → Value → Option Value
find_pair end key = none
find_pair (pair k v ps) key = let rest = find_pair ps key in if same_key k key then some v else rest

-- A key that is not unsigned is never found: `same_key` is false at it.
unfoldable pub cbor_map_get : Value → Value → Option Value
cbor_map_get (map ps) (unsigned_int n) = find_pair ps (unsigned_int n)
cbor_map_get _ _ = none

unfoldable pub cbor_value_get_uint : Value → ℕ
cbor_value_get_uint (unsigned_int n) = n
cbor_value_get_uint _ = 0

unfoldable pub cbor_value_get_array_size : Value → ℕ
cbor_value_get_array_size (array xs) = item_count xs
cbor_value_get_array_size _ = 0

abbrev pub nth_item : Items → ℕ → Option Value
nth_item nil i = none
nth_item (cons x xs) ℕ.zero = some x
nth_item (cons x xs) (suc i) = nth_item xs i

unfoldable pub cbor_value_get_array_item : Value → ℕ → Option Value
cbor_value_get_array_item (array xs) index =
    if ltb index (item_count xs) then nth_item xs index else none
cbor_value_get_array_item _ index = none
