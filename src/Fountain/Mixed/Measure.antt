-- ===== src/Fountain/Mixed/Measure.antt =====
-- reduce_mixed_by of src/fountain_decoder.c takes from the table what it gives to the queue.
use c_ur.Base.{
  ℕ, zero, suc, ◌+◌, ◌*◌, ◌%◌, ◌≤◌, ◌≡◌, inl, inr, ap, sym, arith, Bool, List, [], ◌∷◌, ◌++◌,
  length, length-append, if◌then◌else◌, Option, none, some,
}
use mathlib.Core.Path.{subst}
use c_ur.Fountain.Indexes.{PartIndexes}
use c_ur.Fountain.HashSet.{hash_indexes}
use c_ur.Fountain.Parts.{DecoderPart, is_simple_part}
use c_ur.Fountain.Queue.{PartQueue, queue_enqueue}
use c_ur.Fountain.Queue.Fifo.{IsRing, contents, Enqueued, queue_enqueue-IsRing}
use c_ur.Fountain.Mixed.{
  HashEntry, MixedHash, Walk, link, new_entry, put_entry, mixed_hash_put, place, visit, walk_chain,
  walk_buckets, reinsert, reduce_mixed_by,
}
use c_ur.Fountain.Mixed.Cases.{put_cases, place_cases, visit_cases, reduce_mixed_cases}

-- How often a part may still be worked on: a mixed part may become an entry, an entry a simple part.
abbrev pub item_weight : DecoderPart → ℕ
item_weight part = if is_simple_part part then 1 else 3

unfoldable pub weigh : List DecoderPart → ℕ
weigh [] = 0
weigh (p ∷ ps) = item_weight p + weigh ps

abbrev pub queue_weight : PartQueue → ℕ
queue_weight q = weigh (contents q)

unfoldable pub entries : List (List HashEntry) → ℕ
entries [] = 0
entries (chain ∷ chains) = length chain + entries chains

abbrev walk_weight : Walk → ℕ
walk_weight walk = queue_weight walk.queue + 2 * length walk.rehash_list

pub weigh-append : (xs ys : List DecoderPart) → weigh (xs ++ ys) ≡ weigh xs + weigh ys
unfolding weigh
weigh-append [] ys = omega arith
weigh-append (x ∷ xs) ys = omega (arith, weigh-append xs ys)

-- The queue is a ring, and weighs no more than this.
pub record IsWithin (q : PartQueue) (limit : ℕ) : Type 0 where
  pub ring : IsRing q
  pub light : queue_weight q ≤ limit

IsWithin-mono : (q : PartQueue) (m n : ℕ) → m ≤ n → IsWithin q m → IsWithin q n
IsWithin-mono q m n le h = record { ring = h.ring; light = omega (arith, h.light) }

enqueued :
    (q : PartQueue) (part : DecoderPart) (r : PartQueue × Bool)
    → Enqueued q part r
    → IsWithin r.0 (queue_weight q + item_weight part)
unfolding weigh
enqueued q part r (ring, inl (ok, lt, e)) = record {
  ring = ring;
  light = omega (arith, ap weigh e, weigh-append (contents q) (part ∷ []));
}
enqueued q part r (ring, inr (e, full)) = record {
  ring = ring;
  light = omega (arith, ap (λ (p : PartQueue × Bool). queue_weight p.0) e);
}

pub queue_enqueue-IsWithin :
    (q : PartQueue) (part : DecoderPart)
    → IsRing q
    → IsWithin (queue_enqueue q part).0 (queue_weight q + item_weight part)
queue_enqueue-IsWithin q part h =
    enqueued q part (queue_enqueue q part) (queue_enqueue-IsRing q part h)

entries-set :
    (buckets : List (List HashEntry)) (bucket : ℕ) (entry : HashEntry)
    → entries (link buckets bucket entry) ≤ entries buckets + 1
unfolding entries
entries-set [] bucket entry = omega arith
entries-set (chain ∷ chains) zero entry = omega arith
entries-set (chain ∷ chains) (suc bucket) entry = omega (arith, entries-set chains bucket entry)

reinsert-entries :
    (capacity : ℕ) (rest : List HashEntry) (buckets : List (List HashEntry))
    → entries (reinsert capacity rest buckets) ≤ entries buckets + length rest
unfolding reinsert
reinsert-entries capacity [] buckets = omega arith
reinsert-entries capacity (entry ∷ rest) buckets = omega (
  arith,
  reinsert-entries capacity rest (link buckets (entry.key_hash % capacity) entry),
  entries-set buckets (entry.key_hash % capacity) entry,
)

-- A run over `before` entries that kept `kept` of them.
abbrev Shrunk : Walk → ℕ → ℕ → Walk → Type 0
Shrunk walk before kept walk' =
    IsRing walk'.queue × (walk_weight walk' + 2 * kept ≤ walk_weight walk + 2 * before)

module _ (array_alloc : ℕ → Bool) (received : PartIndexes) (part : DecoderPart) (capacity : ℕ) where
  place-Shrunk :
      (bucket : ℕ) (entry : HashEntry) (walk : Walk)
      → IsRing walk.queue
      → Shrunk walk 1
          (length (place array_alloc received part capacity bucket entry walk).0)
          (place array_alloc received part capacity bucket entry walk).1
  place-Shrunk bucket entry walk h =
      let P : List HashEntry × Walk → Type 0 = λ r. Shrunk walk 1 (length r.0) r.1 in
      elim (place_cases array_alloc received part capacity bucket entry walk) [
        | inl e ↦ subst P (sym e) (h, omega arith)
        | inr (inl (simple, e)) ↦
            let w = queue_enqueue-IsWithin walk.queue entry.value h in
            subst P (sym e) (w.ring, ground (arith, w.light, simple))
        | inr (inr (inl e)) ↦ subst P (sym e) (h, omega arith)
        | inr (inr (inr e)) ↦ subst P (sym e) (h, omega arith)
      ]

  visit-Shrunk :
      (bucket : ℕ) (entry : HashEntry) (walk : Walk)
      → IsRing walk.queue
      → Shrunk walk 1
          (length (visit array_alloc received part capacity bucket entry walk).0)
          (visit array_alloc received part capacity bucket entry walk).1
  visit-Shrunk bucket entry walk h =
      let P : List HashEntry × Walk → Type 0 = λ r. Shrunk walk 1 (length r.0) r.1 in
      elim (visit_cases array_alloc received part capacity bucket entry walk) [
        | inl e ↦ subst P (sym e) (h, omega arith)
        | inr (sub, lt, ok, e) ↦ subst P (sym e) (place-Shrunk bucket _ walk h)
      ]

  walk_chain-Shrunk :
      (bucket : ℕ) (chain : List HashEntry) (walk : Walk)
      → IsRing walk.queue
      → Shrunk walk
          (length chain)
          (length (walk_chain array_alloc received part capacity bucket chain walk).0)
          (walk_chain array_alloc received part capacity bucket chain walk).1
  unfolding walk_chain
  walk_chain-Shrunk bucket [] walk h = (h, omega arith)
  walk_chain-Shrunk bucket (entry ∷ chain) walk h =
      let here = visit array_alloc received part capacity bucket entry walk in
      let rest = walk_chain array_alloc received part capacity bucket chain here.1 in
      let one = visit-Shrunk bucket entry walk h in
      let more = walk_chain-Shrunk bucket chain here.1 one.0 in
      (more.0, omega (arith, one.1, more.1, length-append here.0 rest.0))

  walk_buckets-Shrunk :
      (bucket : ℕ) (buckets : List (List HashEntry)) (walk : Walk)
      → IsRing walk.queue
      → Shrunk walk
          (entries buckets)
          (entries (walk_buckets array_alloc received part capacity bucket buckets walk).0)
          (walk_buckets array_alloc received part capacity bucket buckets walk).1
  unfolding walk_buckets entries
  walk_buckets-Shrunk bucket [] walk h = (h, omega arith)
  walk_buckets-Shrunk bucket (chain ∷ buckets) walk h =
      let one = walk_chain-Shrunk bucket chain walk h in
      let more = walk_buckets-Shrunk (bucket + 1) buckets _ one.0 in
      (more.0, omega (arith, one.1, more.1))

-- The queue and the table after reduce_mixed_by together weigh no more than before, an entry of the
-- table 2.
pub reduce_mixed_by-shrinks :
    (array_alloc : ℕ → Bool) (received : PartIndexes) (part : DecoderPart) (hash : MixedHash)
    (queue : PartQueue)
    → IsRing queue
    → IsRing (reduce_mixed_by array_alloc received part hash queue).1
      × (queue_weight (reduce_mixed_by array_alloc received part hash queue).1
            + 2 * entries (reduce_mixed_by array_alloc received part hash queue).0.buckets
          ≤ queue_weight queue + 2 * entries hash.buckets)
reduce_mixed_by-shrinks array_alloc received part hash queue h =
    let P : MixedHash × PartQueue → Type 0 = λ r.
      IsRing r.1
      × (queue_weight r.1 + 2 * entries r.0.buckets
          ≤ queue_weight queue + 2 * entries hash.buckets) in
    let start : Walk = record { queue = queue; count = hash.count; rehash_list = [] } in
    let walked = walk_buckets array_alloc received part hash.capacity 0 hash.buckets start in
    let shrunk =
      walk_buckets-Shrunk array_alloc received part hash.capacity 0 hash.buckets start h in
    elim (reduce_mixed_cases array_alloc received part hash queue) [
      | inl e ↦ subst P (sym e) (h, omega arith)
      | inr e ↦ subst P (sym e) (
        shrunk.0,
        omega (arith, shrunk.1, reinsert-entries hash.capacity walked.1.rehash_list walked.0),
      )
    ]

put_entry-entries :
    (array_alloc alloc : ℕ → Bool) (hash : MixedHash) (bucket : ℕ) (made : Option HashEntry)
    → entries (put_entry array_alloc alloc hash bucket made).0.buckets ≤ entries hash.buckets + 1
unfolding put_entry
put_entry-entries array_alloc alloc hash bucket none = omega arith
put_entry-entries array_alloc alloc hash bucket (some entry) = entries-set hash.buckets bucket entry

pub mixed_hash_put-entries :
    (array_alloc alloc : ℕ → Bool) (hash : MixedHash) (key : PartIndexes) (value : DecoderPart)
    → entries (mixed_hash_put array_alloc alloc hash key value).0.buckets ≤ entries hash.buckets + 1
mixed_hash_put-entries array_alloc alloc hash key value =
    let P : MixedHash × Bool → Type 0 = λ r. entries r.0.buckets ≤ entries hash.buckets + 1 in
    elim (put_cases array_alloc alloc hash key value) [
      | inl e ↦ subst P (sym e) (omega arith)
      | inr e ↦ subst P (sym e) (
          put_entry-entries array_alloc alloc hash (hash_indexes key % hash.capacity)
            (new_entry array_alloc alloc key value))
    ]
