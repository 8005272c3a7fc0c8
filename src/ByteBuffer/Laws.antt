-- ===== src/ByteBuffer/Laws.antt =====
-- The growth loop and `byte_buffer_append` of src/types/byte_buffer.c.
use c_ur.Base.{ℕ, zero, suc, ◌+◌, ◌*◌, ◌^◌, ◌≤◌, ◌<◌, Bool, true, List, [], ◌∷◌, ◌++◌}
use c_ur.Base.{length, length-append, ltb, ◌≡◌, ap, arith, append-nil, sym, ◌↔◌}
use c_ur.Base.{if◌then◌else◌, ◌==◌, ◌/◌, Bool-cases, inl, inr}
use c_ur.ByteBuffer.{ByteBuffer, IsValid, max_capacity, grow, grow_rounds}
use c_ur.ByteBuffer.{byte_buffer_append}
use native.Mathlib.Nat.{pow-suc}

double_step : (c n : ℕ) → c * 2 * 2 ^ n ≡ c * 2 ^ suc n
double_step c n = omega (arith, ap (λ (t : ℕ). c * t) (pow-suc 2 n))

-- While 2 ^ rounds times the capacity passes what is required, the loop ends by its own test.
pub grow_bounds :
    (rounds capacity required : ℕ)
    → 0 < capacity
    → capacity ≤ max_capacity
    → required ≤ capacity * 2 ^ rounds
    → required ≤ max_capacity
    → (required ≤ grow rounds capacity required) × (grow rounds capacity required ≤ max_capacity)
unfolding grow
grow_bounds zero c r pos small enough fits = omega arith
grow_bounds (suc n) c r pos small enough fits = elim (Bool-cases (ltb c r)) [
  | inr done ↦ rw done (ground arith)
  | inl more ↦ rw more (elim (Bool-cases (ltb (max_capacity / 2) c)) [
    | inl near ↦ rw near (omega arith)
    | inr far ↦
        rw far (
          grow_bounds n (c * 2) r (omega arith) (ground arith) (omega (arith, double_step c n))
            fits)
  ])
]

abbrev start_capacity : ByteBuffer → ℕ
start_capacity buf = if buf.capacity == 0 then 16 else buf.capacity

abbrev grown : ByteBuffer → List ℕ → ℕ
grown buf bytes = grow grow_rounds (start_capacity buf) (length buf.contents + length bytes)

grown_bounds :
    (buf : ByteBuffer) (bytes : List ℕ)
    → buf.capacity < length buf.contents + length bytes
    → length buf.contents + length bytes ≤ max_capacity
    → (length buf.contents + length bytes ≤ grown buf bytes) × (grown buf bytes ≤ max_capacity)
grown_bounds buf bytes small fits =
    grow_bounds grow_rounds (start_capacity buf) (length buf.contents + length bytes) (ground arith)
      (ground arith) (ground arith) fits

module _ (alloc : ℕ → Bool) (buf : ByteBuffer) (ok : IsValid buf) where
  -- An append to a well-formed buffer leaves a well-formed one, with the bytes appended if it
  -- returns true and with the contents unchanged if it returns false.
  pub byte_buffer_append-IsValid :
      (bytes : List ℕ)
      → IsValid (byte_buffer_append alloc buf bytes).0
        × ((byte_buffer_append alloc buf bytes).0.contents ≡ (
            if (byte_buffer_append alloc buf bytes).1 then buf.contents ++ bytes else buf.contents))
  unfolding byte_buffer_append
  byte_buffer_append-IsValid [] = (ok, sym (append-nil buf.contents))
  byte_buffer_append-IsValid (b ∷ bs) =
      ground (arith, grown_bounds buf (b ∷ bs), length-append buf.contents (b ∷ bs))

  -- When the allocator serves every size, an append to a well-formed buffer succeeds exactly when
  -- the contents and the new bytes together are within the maximum.
  pub byte_buffer_append_iff :
      (bytes : List ℕ)
      → ((n : ℕ) → alloc n ≡ true)
      → ((byte_buffer_append alloc buf bytes).1 ≡ true)
        ↔ (length buf.contents + length bytes ≤ max_capacity)
  unfolding byte_buffer_append
  byte_buffer_append_iff bytes served =
      (ground (arith, ok.below_max), ground (arith, served (grown buf bytes)))
