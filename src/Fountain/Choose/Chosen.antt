-- ===== src/Fountain/Choose/Chosen.antt =====
-- The fragments that choose_fragments of src/fountain_utils.c names.
use c_ur.Base.{
  ℕ, zero, suc, ◌+◌, ◌-◌, ◌%◌, ◌^◌, ◌<◌, ◌≤◌, ◌≡◌, ◌⊎◌, inl, inr, refl, ap, sym, ◌∙◌, arith, Bool,
  true, List, [], ◌∷◌, ◌++◌, length, length-take, length-drop, length-append, get_or, take, drop,
  All, All-append, All-take, All-drop, ltb, if◌then◌else◌, none, some,
}
use mathlib.Core.Path.{subst}
use mathlib.Core.Option.{some-injective}
use c_ur.Fountain.Indexes.{PartIndexes, part_indexes_add}
use c_ur.Fountain.Indexes.Sorted.{IsSorted, has}
use c_ur.Fountain.Indexes.Insert.{IsIndexSet, part_indexes_add-IsIndexSet}
use c_ur.Fountain.Prng.{PrngState, prng_init_from_bytes}
use c_ur.Fountain.Parts.{no_indexes, succeeded}
use c_ur.Fountain.Parts.Reduction.{succeeded-eq-some}
use c_ur.Fountain.Choose.{seed_of, all_indexes, remove_at, draw_loop, choose_fragments}

-- The set of an array is below a bound.
abbrev Within : ℕ → List ℕ → Type 0
Within n xs = (k : ℕ) → has xs k ≡ true → k < n

Within-All : (n : ℕ) (xs : List ℕ) → Within n xs → All (λ k. k < n) xs
unfolding has
Within-All n [] h = tt
Within-All n (x ∷ xs) h = (h x (ground arith), Within-All n xs (λ k e. h k (ground arith)))

all_indexes-below : (i n m : ℕ) → i + n ≤ m → All (λ k. k < m) (all_indexes i n)
unfolding all_indexes
all_indexes-below i zero m h = tt
all_indexes-below i (suc n) m h = (omega arith, all_indexes-below (suc i) n m (omega arith))

length-all_indexes : (i n : ℕ) → length (all_indexes i n) ≡ n
unfolding all_indexes
length-all_indexes i zero = refl
length-all_indexes i (suc n) = ap suc (length-all_indexes (suc i) n)

get_or-below : (xs : List ℕ) (i m d : ℕ) → i < length xs → All (λ k. k < m) xs → get_or xs i d < m
get_or-below [] i m d lt h = absurd (omega arith)
get_or-below (x ∷ xs) zero m d lt h = h.0
get_or-below (x ∷ xs) (suc i) m d lt h = get_or-below xs i m d (omega arith) h.1

remove_at-below : (xs : List ℕ) (i m : ℕ) → All (λ k. k < m) xs → All (λ k. k < m) (remove_at xs i)
unfolding remove_at
remove_at-below xs i m h =
    All-take (λ k. k < m) (length xs - 1) (take i xs ++ drop (suc i) xs)
      (All-append (λ k. k < m) (take i xs) (drop (suc i) xs) (All-take (λ k. k < m) i xs h)
        (All-drop (λ k. k < m) (suc i) xs h))

-- A set in order, below a bound.
record IsWithin (n : ℕ) (p : PartIndexes) : Type 0 where
  set : IsIndexSet p
  below : Within n p.indexes

module _ (array_alloc : ℕ → Bool) where
  added-IsWithin :
      (n v : ℕ) (p : PartIndexes)
      → v < n
      → IsWithin n p
      → IsWithin n (part_indexes_add array_alloc p v).0
  added-IsWithin n v p lt h =
      let found = part_indexes_add-IsIndexSet array_alloc p v h.set in
      elim found.1 [
        | inl (ok, members) ↦ record {
          set = found.0;
          below = λ k e. ground (arith, members k, h.below k, lt);
        }
        | inr (e, refused) ↦ subst (λ (r : PartIndexes × Bool). IsWithin n r.0) (sym e) h
      ]

  none-IsWithin : (n : ℕ) → IsWithin n no_indexes
  unfolding has
  none-IsWithin n = record { set = record { sorted = tt; fits = omega arith }; below = λ k e. cc }

-- The numbers that so many draws give, from this generator and with `n` indexes left, are in range.
abbrev pub InRange : (PrngState → ℕ → PrngState × ℕ) → ℕ → PrngState → ℕ → Type 0
InRange next_int zero rng n = Unit {0}
InRange next_int (suc draws) rng n =
    (n ≡ 0)
    ⊎ (((next_int rng (n - 1)).1 < n) × InRange next_int draws (next_int rng (n - 1)).0 (n - 1))

length-remove_at : (xs : List ℕ) (i : ℕ) → i < length xs → length (remove_at xs i) ≡ length xs - 1
unfolding remove_at
length-remove_at xs i lt = omega (
  arith,
  length-take (length xs - 1) (take i xs ++ drop (suc i) xs),
  length-append (take i xs) (drop (suc i) xs),
  length-take i xs,
  length-drop (suc i) xs,
)

module _ (array_alloc alloc : ℕ → Bool) (sha256 : List ℕ → List ℕ) (beyond : List ℕ → ℕ → ℕ)
    (next_int : PrngState → ℕ → PrngState × ℕ)
    (next_degree : PrngState → ℕ → ℕ → PrngState × ℕ) where
  draw_cases :
      (draws : ℕ) (rng : PrngState) (remaining : List ℕ) (result : PartIndexes)
      → ((draw_loop array_alloc alloc sha256 beyond next_int next_degree
              (suc draws)
              rng
              remaining
              result
            ≡ some result)
          ⊎ (draw_loop array_alloc alloc sha256 beyond next_int next_degree
                (suc draws)
                rng
                remaining
                result
              ≡ none))
        ⊎ ((0 < length remaining)
            × (draw_loop array_alloc alloc sha256 beyond next_int next_degree
                  (suc draws)
                  rng
                  remaining
                  result
                ≡ draw_loop array_alloc alloc sha256 beyond next_int next_degree draws
                    (next_int rng (length remaining - 1)).0
                    (remove_at remaining (next_int rng (length remaining - 1)).1)
                    (part_indexes_add array_alloc result (
                      get_or remaining
                        (next_int rng (length remaining - 1)).1
                        (beyond remaining (next_int rng (length remaining - 1)).1))).0))
  unfolding draw_loop
  draw_cases draws rng remaining result = ground arith

  draw_loop-IsWithin :
      (n draws : ℕ) (rng : PrngState) (remaining : List ℕ) (result r : PartIndexes)
      → All (λ k. k < n) remaining
      → InRange next_int draws rng (length remaining)
      → IsWithin n result
      → draw_loop array_alloc alloc sha256 beyond next_int next_degree draws rng remaining result
        ≡ some r
      → IsWithin n r
  unfolding draw_loop
  draw_loop-IsWithin n zero rng remaining result r h bounded w e =
      subst (IsWithin n) (some-injective result r e) w
  draw_loop-IsWithin n (suc draws) rng remaining result r h bounded w e =
      elim (draw_cases draws rng remaining result) [
        | inl (inl f) ↦ subst (IsWithin n) (some-injective result r (sym f ∙ e)) w
        | inl (inr f) ↦ cc
        | inr (pos, f) ↦ elim bounded [
          | inl empty ↦ absurd (omega (arith, pos, empty))
          | inr (inside, more) ↦
              let idx : ℕ = (next_int rng (length remaining - 1)).1 in
              let v : ℕ = get_or remaining idx (beyond remaining idx) in
              let rng' : PrngState = (next_int rng (length remaining - 1)).0 in
              draw_loop-IsWithin n draws rng' (remove_at remaining idx)
                (part_indexes_add array_alloc result v).0 r (remove_at-below remaining idx n h)
                (subst (InRange next_int draws rng') (sym (length-remove_at remaining idx inside))
                  more)
                (added-IsWithin array_alloc n v result
                  (get_or-below remaining idx n (beyond remaining idx) inside h) w)
                (sym f ∙ e)
        ]
      ]

  -- The generator after the draw of the degree, and the number of draws that it asks for.
  abbrev pub start_of : ℕ → ℕ → ℕ → ℕ → PrngState × ℕ
  start_of seq_num seq_len checksum sampler =
      let degree =
        next_degree (prng_init_from_bytes sha256 (seed_of seq_num checksum)) seq_len sampler in
      (degree.0, if ltb degree.1 seq_len then degree.1 else seq_len)

  choose_cases :
      (seq_num seq_len checksum sampler : ℕ)
      → (choose_fragments array_alloc alloc sha256 beyond next_int next_degree seq_num seq_len
            checksum sampler
          ≡ none)
        ⊎ (((0 < seq_len)
              × (seq_num ≤ seq_len)
              × (choose_fragments array_alloc alloc sha256 beyond next_int next_degree seq_num
                    seq_len checksum sampler
                  ≡ succeeded (
                      part_indexes_add array_alloc no_indexes ((seq_num + (2 ^ 32 - 1)) % 2 ^ 32))))
            ⊎ ((seq_len < seq_num)
                × (choose_fragments array_alloc alloc sha256 beyond next_int next_degree seq_num
                      seq_len checksum sampler
                    ≡ draw_loop array_alloc alloc sha256 beyond next_int next_degree
                        (start_of seq_num seq_len checksum sampler).1
                        (start_of seq_num seq_len checksum sampler).0
                        (all_indexes 0 seq_len)
                        no_indexes)))
  unfolding choose_fragments
  choose_cases seq_num seq_len checksum sampler = ground arith

  -- If a part has a number from 1 on, the sequence length fits in 32 bits and, where the number is above
  -- the sequence length, the numbers that prng_next_int draws for this part are each at most the maximum
  -- it was asked for, the fragments that choose_fragments names, if it succeeds, are in order and all
  -- below the sequence length.
  pub choose_fragments-IsSorted :
      (seq_num seq_len checksum sampler : ℕ) (r : PartIndexes)
      → 0 < seq_num
      → seq_len < 2 ^ 32
      → (seq_len < seq_num
          → InRange next_int
              (start_of seq_num seq_len checksum sampler).1
              (start_of seq_num seq_len checksum sampler).0
              seq_len)
      → choose_fragments array_alloc alloc sha256 beyond next_int next_degree seq_num seq_len
          checksum sampler
        ≡ some r
      → IsSorted r.indexes × All (λ k. k < seq_len) r.indexes
  choose_fragments-IsSorted seq_num seq_len checksum sampler r pos fits bounded e =
      elim (choose_cases seq_num seq_len checksum sampler) [
        | inl f ↦ cc
        | inr (inl (some_len, le, f)) ↦
            let v : ℕ = (seq_num + (2 ^ 32 - 1)) % 2 ^ 32 in
            let w =
              added-IsWithin array_alloc seq_len v no_indexes (omega arith)
                (none-IsWithin array_alloc seq_len) in
            let same =
              (succeeded-eq-some (part_indexes_add array_alloc no_indexes v) r (sym f ∙ e)).1 in
            let h = subst (IsWithin seq_len) same w in
            (h.set.sorted, Within-All seq_len r.indexes h.below)
        | inr (inr (later, f)) ↦
            let h =
              draw_loop-IsWithin seq_len _ _ (all_indexes 0 seq_len) no_indexes r
                (all_indexes-below 0 seq_len seq_len (omega arith))
                (subst
                  (InRange next_int (start_of seq_num seq_len checksum sampler).1
                    (start_of seq_num seq_len checksum sampler).0)
                  (sym (length-all_indexes 0 seq_len)) (bounded later))
                (none-IsWithin array_alloc seq_len) (sym f ∙ e) in
            (h.set.sorted, Within-All seq_len r.indexes h.below)
      ]
