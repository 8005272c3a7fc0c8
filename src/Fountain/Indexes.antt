-- ===== src/Fountain/Indexes.antt =====
-- Sets of part indexes as sorted arrays: part_indexes_t of src/fountain_types.h, its operations of
-- src/fountain_decoder.c and src/fountain_utils.c.
pub mod Sorted
pub mod Search
pub mod Insert
pub mod Without
pub mod Difference
pub mod Subset
use c_ur.Base.{ℕ, zero, suc, ◌+◌, ◌-◌, ◌*◌, ◌/◌, Bool, true, false, List, [], ◌∷◌, ◌++◌, length}
use c_ur.Base.{take, drop, get_or, ltb, leb, ◌==◌, if◌then◌else◌}

-- `count` is the length of `indexes`.
pub record PartIndexes : Type 0 where
  pub indexes : List ℕ
  pub capacity : ℕ

-- The binary search, with `rounds` passes left: whether the index was met, and `left` at the end.
unfoldable pub search : ℕ → List ℕ → ℕ → ℕ → ℕ → Bool × ℕ
search zero xs index left right = (false, left)
search (suc rounds) xs index left right =
    let mid = left + (right - left) / 2 in
    let x = get_or xs mid 0 in
    let left' = if ltb x index then mid + 1 else left in
    let right' = if ltb x index then right else mid in
    let rest = search rounds xs index left' right' in
    if ltb left right then if x == index then (true, left) else rest else (false, left)

-- Each pass leaves at most half, so a pass for each index is enough.
abbrev pub search_all : List ℕ → ℕ → Bool × ℕ
search_all xs index = search (length xs) xs index 0 (length xs)

unfoldable pub part_indexes_contains : PartIndexes → ℕ → Bool
part_indexes_contains p index =
    if length p.indexes == 0 then false else (search_all p.indexes index).0

unfoldable pub part_indexes_clear : PartIndexes → PartIndexes
part_indexes_clear p = record { indexes = []; capacity = p.capacity }

-- The loop that shifts the elements from `left` on, and the store.
unfoldable pub insert_at : List ℕ → ℕ → ℕ → List ℕ
insert_at xs left index = take left xs ++ index ∷ drop left xs

-- INDEXES_INITIAL_CAPACITY
abbrev pub indexes_initial_capacity : ℕ
indexes_initial_capacity = 4

abbrev pub next_capacity : ℕ → ℕ
next_capacity capacity = if capacity == 0 then indexes_initial_capacity else capacity * 2

-- `if (!append(...)) return false;` and the rest of the loop on the set that the append left.
infixl 5 ◌>=>◌
abbrev pub ◌>=>◌ : PartIndexes × Bool → (PartIndexes → PartIndexes × Bool) → PartIndexes × Bool
(p, true) >=> next = next p
(p, false) >=> next = (p, false)

-- `alloc` says whether an array of so many indexes can be had.
module _ (alloc : ℕ → Bool) where
  -- The test on the capacity: the set with room for one more index, or a failure.
  unfoldable pub with_room : PartIndexes → PartIndexes × Bool
  with_room p =
      if leb p.capacity (length p.indexes)
      then if alloc (next_capacity p.capacity)
        then (record { indexes = p.indexes; capacity = next_capacity p.capacity }, true)
        else (p, false)
      else (p, true)

  -- The store at `left` in a set that has room.
  unfoldable pub store_at : ℕ → ℕ → PartIndexes × Bool → PartIndexes × Bool
  store_at left index (p, true) =
      (record { indexes = insert_at p.indexes left index; capacity = p.capacity }, true)
  store_at left index (p, false) = (p, false)

  unfoldable pub part_indexes_add : PartIndexes → ℕ → PartIndexes × Bool
  part_indexes_add p index =
      let found = search_all p.indexes index in
      if found.0 then (p, true) else store_at found.1 index (with_room p)

  unfoldable pub part_indexes_append_sorted : PartIndexes → ℕ → PartIndexes × Bool
  part_indexes_append_sorted p value = store_at (length p.indexes) value (with_room p)

  -- The loop of part_indexes_difference: the arguments are the rest of `a` from i on and of `b` from
  -- j on. Each pass drops an element of one of them.
  unfoldable pub difference_loop : ℕ → List ℕ → List ℕ → PartIndexes → PartIndexes × Bool
  difference_loop zero xs ys result = (result, true)
  difference_loop (suc rounds) [] ys result = (result, true)
  difference_loop (suc rounds) (x ∷ xs) [] result =
      part_indexes_append_sorted result x >=> difference_loop rounds xs []
  difference_loop (suc rounds) (x ∷ xs) (y ∷ ys) result =
      let xs' = if leb x y then xs else x ∷ xs in
      let ys' = if ltb x y then y ∷ ys else ys in
      let appended = if ltb x y then part_indexes_append_sorted result x else (result, true) in
      appended >=> difference_loop rounds xs' ys'

  unfoldable pub part_indexes_difference :
      PartIndexes → PartIndexes → PartIndexes → PartIndexes × Bool
  part_indexes_difference a b result =
      difference_loop (length a.indexes + length b.indexes) a.indexes b.indexes
        (part_indexes_clear result)

-- The loop of part_indexes_is_strict_subset, on the rests of the two arrays; at the end it is asked
-- whether nothing of `a` is left.
unfoldable pub subset_loop : List ℕ → List ℕ → Bool
subset_loop [] ys = true
subset_loop (x ∷ xs) [] = false
subset_loop (x ∷ xs) (y ∷ ys) =
    let rest = if x == y then xs else x ∷ xs in
    let more = subset_loop rest ys in if leb y x then more else false

unfoldable pub part_indexes_is_strict_subset : PartIndexes → PartIndexes → Bool
part_indexes_is_strict_subset a b =
    if leb (length b.indexes) (length a.indexes) then false else subset_loop a.indexes b.indexes

-- The loop of part_indexes_equal, after the test on the counts.
unfoldable pub same_indexes : List ℕ → List ℕ → Bool
same_indexes [] ys = true
same_indexes (x ∷ xs) [] = false
same_indexes (x ∷ xs) (y ∷ ys) = let rest = same_indexes xs ys in if x == y then rest else false

unfoldable pub part_indexes_equal : PartIndexes → PartIndexes → Bool
part_indexes_equal a b =
    if length a.indexes == length b.indexes then same_indexes a.indexes b.indexes else false

module _ (alloc : ℕ → Bool) where
  unfoldable pub part_indexes_copy : PartIndexes → PartIndexes → PartIndexes × Bool
  part_indexes_copy src dst =
      let count = length src.indexes in
      if count == 0
      then (part_indexes_clear dst, true)
      else if ltb dst.capacity count
      then if alloc count
        then (record { indexes = src.indexes; capacity = count }, true)
        else (part_indexes_clear dst, false)
      else (record { indexes = src.indexes; capacity = dst.capacity }, true)
