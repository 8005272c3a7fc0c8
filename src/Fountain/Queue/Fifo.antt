-- ===== src/Fountain/Queue/Fifo.antt =====
-- The ring of src/fountain_decoder.c is a queue: first in, first out.
use c_ur.Base.{
  ℕ, zero, suc, ◌+◌, ◌-◌, ◌%◌, ◌≤◌, ◌<◌, ◌≡◌, ◌≢◌, ◌⊎◌, inl, inr, refl, ap, sym, ◌∙◌, arith, Bool,
  true, false, List, [], ◌∷◌, ◌++◌, length, get_or, set, none, some,
}
use mathlib.Core.Path.{subst}
use native.Mathlib.Nat.{mod-add-mod, mod-eq_of_lt, mod-lt}
use c_ur.Fountain.Parts.{DecoderPart}
use c_ur.Fountain.Queue.{PartQueue, no_part, queue_enqueue, queue_dequeue}

module _ {ℓ} {A : Type ℓ} where
  length-set : (xs : List A) (i : ℕ) (v : A) → length (set xs i v) ≡ length xs
  length-set [] i v = refl
  length-set (x ∷ xs) zero v = refl
  length-set (x ∷ xs) (suc i) v = ap suc (length-set xs i v)

  get_or-set_self : (xs : List A) (i : ℕ) (v d : A) → i < length xs → get_or (set xs i v) i d ≡ v
  get_or-set_self [] i v d h = absurd (omega arith)
  get_or-set_self (x ∷ xs) zero v d h = refl
  get_or-set_self (x ∷ xs) (suc i) v d h = get_or-set_self xs i v d (omega arith)

  get_or-set_ne :
      (xs : List A) (i j : ℕ) (v d : A) → j ≢ i → get_or (set xs i v) j d ≡ get_or xs j d
  get_or-set_ne [] i j v d h = refl
  get_or-set_ne (x ∷ xs) zero zero v d h = absurd (h refl)
  get_or-set_ne (x ∷ xs) zero (suc j) v d h = refl
  get_or-set_ne (x ∷ xs) (suc i) zero v d h = refl
  get_or-set_ne (x ∷ xs) (suc i) (suc j) v d h = get_or-set_ne xs i j v d (λ e. h (ap suc e))

cons_eq : {x y : DecoderPart} {xs ys : List DecoderPart} → x ≡ y → xs ≡ ys → x ∷ xs ≡ y ∷ ys
cons_eq e f = cc

-- The parts in `count` slots from `front` on.
abbrev pub held : List DecoderPart → ℕ → ℕ → ℕ → List DecoderPart
held parts capacity front zero = []
held parts capacity front (suc count) =
    get_or parts front no_part ∷ held parts capacity ((front + 1) % capacity) count

abbrev pub contents : PartQueue → List DecoderPart
contents q = held q.parts q.capacity q.front q.count

pub record IsRing (q : PartQueue) : Type 0 where
  pub roomy : q.capacity ≤ length q.parts
  pub front_in : q.front < q.capacity
  pub not_over : q.count ≤ q.capacity
  pub rear_behind : q.rear ≡ (q.front + q.count) % q.capacity

-- Fewer than `cap` steps do not lead back.
steps_ne : (h d cap : ℕ) → h < cap → 0 < d → d < cap → (h + d) % cap ≢ h
steps_ne h d cap a b c = grind arith

one_step : (h d cap : ℕ) → ((h + 1) % cap + d) % cap ≡ (h + suc d) % cap
one_step h d cap = mod-add-mod (h + 1) cap d ∙ ap (λ (n : ℕ). n % cap) (omega arith)

-- A write `d` steps ahead is not seen in fewer slots.
held-set :
    (parts : List DecoderPart) (cap h n d i : ℕ) (v : DecoderPart)
    → h < cap
    → n ≤ d
    → d < cap
    → i ≡ (h + d) % cap
    → held (set parts i v) cap h n ≡ held parts cap h n
held-set parts cap h zero d i v a b c e = refl
held-set parts cap h (suc n) zero i v a b c e = absurd (omega arith)
held-set parts cap h (suc n) (suc d) i v a b c e =
    cons_eq
      (get_or-set_ne parts i h v no_part
        (λ f. steps_ne h (suc d) cap a (omega arith) c (sym (f ∙ e))))
      (held-set parts cap ((h + 1) % cap) n d i v (mod-lt (h + 1) (omega arith)) (omega arith)
        (omega arith) (e ∙ sym (one_step h d cap)))

held-snoc :
    (parts : List DecoderPart) (cap h n : ℕ)
    → h < cap
    → held parts cap h (suc n) ≡ held parts cap h n ++ get_or parts ((h + n) % cap) no_part ∷ []
held-snoc parts cap h zero a =
    cons_eq
      (ap (λ (k : ℕ). get_or parts k no_part)
        (sym (mod-eq_of_lt a) ∙ ap (λ (k : ℕ). k % cap) (omega arith)))
      refl
held-snoc parts cap h (suc n) a = cons_eq refl (
    held-snoc parts cap ((h + 1) % cap) n (mod-lt (h + 1) (omega arith))
    ∙ ap (λ (k : ℕ). held parts cap ((h + 1) % cap) n ++ get_or parts k no_part ∷ [])
        (one_step h n cap))

rear_next :
    (q : PartQueue) → IsRing q → (q.rear + 1) % q.capacity ≡ (q.front + (q.count + 1)) % q.capacity
rear_next q h =
    ap (λ (k : ℕ). (k + 1) % q.capacity) h.rear_behind
    ∙ mod-add-mod (q.front + q.count) q.capacity 1
    ∙ ap (λ (k : ℕ). k % q.capacity) (omega arith)

rear_in : (q : PartQueue) → IsRing q → q.rear < length q.parts
rear_in q h = omega (
  arith,
  h.rear_behind,
  mod-lt (q.front + q.count) {m = q.capacity} (omega (arith, h.front_in)),
  h.roomy,
)

stored :
    (q : PartQueue) (part : DecoderPart)
    → IsRing q
    → q.count < q.capacity
    → held (set q.parts q.rear part) q.capacity q.front (q.count + 1) ≡ contents q ++ part ∷ []
stored q part h lt =
    let cap : ℕ = q.capacity in
    ap (held (set q.parts q.rear part) cap q.front) {y = suc q.count} (omega arith)
    ∙ held-snoc (set q.parts q.rear part) cap q.front q.count h.front_in
    ∙ ap
        (λ (l : List DecoderPart).
          l ++ get_or (set q.parts q.rear part) ((q.front + q.count) % cap) no_part ∷ [])
        (held-set q.parts cap q.front q.count q.count q.rear part h.front_in (omega arith) lt
          h.rear_behind)
    ∙ ap (λ (x : DecoderPart). contents q ++ x ∷ [])
        (ap (λ (k : ℕ). get_or (set q.parts q.rear part) k no_part) (sym h.rear_behind)
          ∙ get_or-set_self q.parts q.rear part no_part (rear_in q h))

held-pos :
    (parts : List DecoderPart) (cap h n : ℕ)
    → 0 < n
    → held parts cap h n ≡ get_or parts h no_part ∷ held parts cap ((h + 1) % cap) (n - 1)
held-pos parts cap h zero a = absurd (omega arith)
held-pos parts cap h (suc n) a =
    ap (λ (k : ℕ). get_or parts h no_part ∷ held parts cap ((h + 1) % cap) k) (omega arith)

full_turn : (h cap : ℕ) → h < cap → h ≡ ((h + 1) % cap + (cap - 1)) % cap
full_turn h cap a = grind (arith, one_step h (cap - 1) cap)

-- The queue without its first part.
abbrev rest_of : PartQueue → PartQueue
rest_of q = record q {
  parts = set q.parts q.front no_part;
  front = (q.front + 1) % q.capacity;
  count = q.count - 1;
}

contents-rest_of :
    (q : PartQueue)
    → IsRing q
    → 0 < q.count
    → contents q ≡ get_or q.parts q.front no_part ∷ contents (rest_of q)
contents-rest_of q h pos =
    held-pos q.parts q.capacity q.front q.count pos
    ∙ cons_eq refl (
        sym (
          held-set q.parts q.capacity ((q.front + 1) % q.capacity) (q.count - 1) (q.capacity - 1)
            q.front no_part (mod-lt (q.front + 1) (omega (arith, h.front_in)))
            (omega (arith, h.not_over)) (omega (arith, h.front_in))
            (full_turn q.front q.capacity h.front_in)))

rest_of-IsRing : (q : PartQueue) → IsRing q → 0 < q.count → IsRing (rest_of q)
rest_of-IsRing q h pos = record {
  roomy = omega (arith, h.roomy, length-set q.parts q.front no_part);
  front_in = mod-lt (q.front + 1) (omega (arith, h.front_in));
  not_over = omega (arith, h.not_over);
  rear_behind =
      h.rear_behind
      ∙ ap (λ (k : ℕ). (q.front + k) % q.capacity) {y = suc (q.count - 1)} (omega arith)
      ∙ sym (one_step q.front (q.count - 1) q.capacity);
}

dequeue_cases :
    (q : PartQueue)
    → ((q.count ≡ 0) × (queue_dequeue q ≡ none))
      ⊎ ((0 < q.count) × (queue_dequeue q ≡ some (get_or q.parts q.front no_part, rest_of q)))
unfolding queue_dequeue
dequeue_cases q = ground arith

-- queue_enqueue on a ring: the part is behind the others, or the ring is full and unchanged.
abbrev pub Enqueued : PartQueue → DecoderPart → PartQueue × Bool → Type 0
Enqueued q part r =
    IsRing r.0
    × (((r.1 ≡ true) × (q.count < q.capacity) × (contents r.0 ≡ contents q ++ part ∷ []))
        ⊎ ((r ≡ (q, false)) × (q.count ≡ q.capacity)))

enqueue_cases :
    (q : PartQueue) (part : DecoderPart)
    → ((q.count < q.capacity)
        × (queue_enqueue q part ≡ (
          record q {
            parts = set q.parts q.rear part;
            rear = (q.rear + 1) % q.capacity;
            count = q.count + 1;
          },
          true,
        )))
      ⊎ ((q.capacity ≤ q.count) × (queue_enqueue q part ≡ (q, false)))
unfolding queue_enqueue
enqueue_cases q part = ground arith

-- On a ring queue_enqueue keeps the ring, and puts the part behind the others, or returns false with
-- the queue as it was, exactly when the queue is full.
pub queue_enqueue-IsRing :
    (q : PartQueue) (part : DecoderPart) → IsRing q → Enqueued q part (queue_enqueue q part)
queue_enqueue-IsRing q part h = elim (enqueue_cases q part) [
  | inl (lt, e) ↦ subst (Enqueued q part) (sym e) (
    record {
      roomy = omega (arith, h.roomy, length-set q.parts q.rear part);
      front_in = h.front_in;
      not_over = omega (arith, lt);
      rear_behind = rear_next q h;
    },
    inl (refl, lt, stored q part h lt),
  )
  | inr (le, e) ↦ subst (Enqueued q part) (sym e) (h, inr (refl, omega (arith, le, h.not_over)))
]

-- On a ring queue_dequeue gives the first part and leaves the others, or fails when there is none.
pub queue_dequeue-IsRing :
    (q : PartQueue)
    → IsRing q
    → ((contents q ≡ []) × (queue_dequeue q ≡ none))
      ⊎ ((part : DecoderPart) × (q' : PartQueue) × (queue_dequeue q ≡ some (part, q'))
          × (contents q ≡ part ∷ contents q')
          × IsRing q')
queue_dequeue-IsRing q h = elim (dequeue_cases q) [
  | inl (zero_left, e) ↦ inl (ap (held q.parts q.capacity q.front) zero_left, e)
  | inr (pos, e) ↦ inr (
    get_or q.parts q.front no_part,
    rest_of q,
    e,
    contents-rest_of q h pos,
    rest_of-IsRing q h pos,
  )
]
