-- ===== src/Fountain/Mixed/Sound.antt =====
-- The table of mixed parts of src/fountain_decoder.c holds combined fragments only.
use c_ur.Base.{
  ℕ, ◌+◌, ◌%◌, ◌≡◌, inl, inr, refl, ap, sym, ◌∙◌, arith, Bool, true, List, [], ◌∷◌, length, get_or,
  set, zero, suc, All, All-append, Bool-cases, Option, some, none, bind_cases, if◌then◌else◌, ltb,
}
use mathlib.Core.Path.{subst}
use mathlib.Core.Option.{some-injective}
use c_ur.Fountain.Indexes.{PartIndexes, part_indexes_copy, part_indexes_difference, subset_loop}
use c_ur.Fountain.Indexes.Sorted.{IsSorted}
use c_ur.Fountain.Indexes.Without.{without, without-IsSorted}
use c_ur.Fountain.Indexes.Difference.{part_indexes_difference-without}
use c_ur.Fountain.Xor.{ur_xor_inplace}
use c_ur.Fountain.Xor.Words.{xor_bytes, ur_xor_inplace-xor_bytes}
use c_ur.Fountain.Xor.Algebra.{IsBuffer}
use c_ur.Fountain.Parts.{DecoderPart, no_indexes, succeeded, decoder_part_copy}
use c_ur.Fountain.Parts.Combined.{xor_all, IsSound, xor_all-without}
use c_ur.Fountain.Parts.Reduction.{
  IsSound-IsBuffer, IsSound-same, decoder_part_copy-eq, part_indexes_copy-eq, succeeded-eq-some,
}
use c_ur.Fountain.Queue.{PartQueue, queue_enqueue}
use c_ur.Fountain.Queue.Fifo.{IsRing, contents, Enqueued, queue_enqueue-IsRing}
use c_ur.Fountain.Mixed.Cases.{put_cases, place_cases, visit_cases, reduce_mixed_cases}
use c_ur.Fountain.Mixed.{
  HashEntry, MixedHash, Walk, chain_at, link, copied_entry, new_entry, put_entry, mixed_hash_put,
  reduced_entry, place, visit, walk_chain, walk_buckets, reinsert, reduce_mixed_by,
}

All-set {ℓ κ} :
    {A : Type ℓ} (P : A → Type κ) (xs : List A) (i : ℕ) (v : A)
    → All P xs
    → P v
    → All P (set xs i v)
All-set P [] i v h k = tt
All-set P (x ∷ xs) zero v h k = (k, h.1)
All-set P (x ∷ xs) (suc i) v h k = (h.0, All-set P xs i v h.1 k)

All-get_or {ℓ κ} :
    {A : Type ℓ} (P : A → Type κ) (xs : List A) (i : ℕ) (d : A) → All P xs → P d → P (get_or xs i d)
All-get_or P [] i d h k = k
All-get_or P (x ∷ xs) zero d h k = h.0
All-get_or P (x ∷ xs) (suc i) d h k = All-get_or P xs i d h.1 k

module _ (frag : ℕ → List ℕ) (len : ℕ) where
  -- An entry holds a sound part under that part's own indexes.
  pub record IsEntry (entry : HashEntry) : Type 0 where
    pub value_sound : IsSound frag len entry.value
    pub key_same : entry.key.indexes ≡ entry.value.indexes.indexes

  pub record IsQueue (q : PartQueue) : Type 0 where
    pub ring : IsRing q
    pub parts_sound : All (IsSound frag len) (contents q)

  pub record IsWalk (walk : Walk) : Type 0 where
    pub queue_sound : IsQueue walk.queue
    pub stashed : All IsEntry walk.rehash_list

  abbrev pub AllEntries : List (List HashEntry) → Type 0
  AllEntries buckets = All (All IsEntry) buckets

module _ (frag : ℕ → List ℕ) (len : ℕ) where
  enqueued :
      (q : PartQueue) (part : DecoderPart) (r : PartQueue × Bool)
      → IsQueue frag len q
      → IsSound frag len part
      → Enqueued q part r
      → IsQueue frag len r.0
  enqueued q part r h s (ring, inl (ok, lt, e)) = record {
    ring = ring;
    parts_sound =
        subst (All (IsSound frag len)) (sym e)
          (All-append (IsSound frag len) (contents q) (part ∷ []) h.parts_sound (s, tt));
  }
  enqueued q part r h s (ring, inr (e, full)) =
      subst (λ (p : PartQueue). IsQueue frag len p) (ap (λ (p : PartQueue × Bool). p.0) (sym e)) h

  pub queue_enqueue-IsQueue :
      (q : PartQueue) (part : DecoderPart)
      → IsQueue frag len q
      → IsSound frag len part
      → IsQueue frag len (queue_enqueue q part).0
  queue_enqueue-IsQueue q part h s =
      enqueued q part (queue_enqueue q part) h s (queue_enqueue-IsRing q part h.ring)

  pub link-AllEntries :
      (buckets : List (List HashEntry)) (bucket : ℕ) (entry : HashEntry)
      → AllEntries frag len buckets
      → IsEntry frag len entry
      → AllEntries frag len (link buckets bucket entry)
  link-AllEntries buckets bucket entry h k =
      All-set (All (IsEntry frag len)) buckets bucket (entry ∷ chain_at buckets bucket) h
        (k, All-get_or (All (IsEntry frag len)) buckets bucket [] h tt)

  reinsert-AllEntries :
      (capacity : ℕ) (rest : List HashEntry) (buckets : List (List HashEntry))
      → All (IsEntry frag len) rest
      → AllEntries frag len buckets
      → AllEntries frag len (reinsert capacity rest buckets)
  unfolding reinsert
  reinsert-AllEntries capacity [] buckets h k = k
  reinsert-AllEntries capacity (entry ∷ rest) buckets h k =
      reinsert-AllEntries capacity rest (link buckets (entry.key_hash % capacity) entry) h.1
        (link-AllEntries buckets (entry.key_hash % capacity) entry k h.0)

copy_cases :
    (array_alloc : ℕ → Bool) (src : PartIndexes)
    → ((n : ℕ) → array_alloc n ≡ true)
    → (part_indexes_copy array_alloc src no_indexes).1 ≡ true
unfolding part_indexes_copy
copy_cases array_alloc src served = ground (arith, served (length src.indexes))

common_length : (n m len : ℕ) → n ≡ len → m ≡ len → (if ltb n m then n else m) ≡ len
common_length n m len e f = elim (Bool-cases (ltb n m)) [ inl h ↦ cc | inr h ↦ cc ]

module _ (frag : ℕ → List ℕ) (len : ℕ) (buffers : (i : ℕ) → IsBuffer len (frag i)) where
  copied_entry-IsEntry :
      (array_alloc alloc : ℕ → Bool) (key : PartIndexes) (value : DecoderPart) (entry : HashEntry)
      → key.indexes ≡ value.indexes.indexes
      → IsSound frag len value
      → copied_entry array_alloc alloc key value ≡ some entry
      → IsEntry frag len entry
  unfolding copied_entry
  copied_entry-IsEntry array_alloc alloc key value entry same s e =
      bind_cases (succeeded (part_indexes_copy array_alloc key no_indexes)) _ e λ k copied rest.
        bind_cases (decoder_part_copy array_alloc alloc value) _ rest λ v copied_value made.
          let found = succeeded-eq-some (part_indexes_copy array_alloc key no_indexes) k copied in
          let value_eq = decoder_part_copy-eq array_alloc alloc value v copied_value in
          subst (IsEntry frag len) (some-injective _ _ made) (record {
            value_sound = IsSound-same frag len buffers value v value_eq.0 value_eq.1 s;
            key_same =
                ap (λ (p : PartIndexes). p.indexes) (sym found.1)
                ∙ part_indexes_copy-eq array_alloc key found.0
                ∙ same
                ∙ sym value_eq.0;
          })

  new_entry-IsEntry :
      (array_alloc alloc : ℕ → Bool) (key : PartIndexes) (value : DecoderPart) (entry : HashEntry)
      → key.indexes ≡ value.indexes.indexes
      → IsSound frag len value
      → new_entry array_alloc alloc key value ≡ some entry
      → IsEntry frag len entry
  unfolding new_entry
  new_entry-IsEntry array_alloc alloc key value entry same s e =
      copied_entry-IsEntry array_alloc alloc key value entry same s (ground arith)

  put_entry-AllEntries :
      (array_alloc alloc : ℕ → Bool) (hash : MixedHash) (bucket : ℕ) (made : Option HashEntry)
      → AllEntries frag len hash.buckets
      → ((entry : HashEntry) → made ≡ some entry → IsEntry frag len entry)
      → AllEntries frag len (put_entry array_alloc alloc hash bucket made).0.buckets
  unfolding put_entry
  put_entry-AllEntries array_alloc alloc hash bucket none h k = h
  put_entry-AllEntries array_alloc alloc hash bucket (some entry) h k =
      link-AllEntries frag len hash.buckets bucket entry h (k entry refl)

  pub mixed_hash_put-AllEntries :
      (array_alloc alloc : ℕ → Bool) (hash : MixedHash) (key : PartIndexes) (value : DecoderPart)
      → key.indexes ≡ value.indexes.indexes
      → IsSound frag len value
      → AllEntries frag len hash.buckets
      → AllEntries frag len (mixed_hash_put array_alloc alloc hash key value).0.buckets
  mixed_hash_put-AllEntries array_alloc alloc hash key value same s h =
      elim (put_cases array_alloc alloc hash key value) [
        | inl e ↦ subst (λ (r : MixedHash × Bool). AllEntries frag len r.0.buckets) (sym e) h
        | inr e ↦
            subst (λ (r : MixedHash × Bool). AllEntries frag len r.0.buckets) (sym e)
              (put_entry-AllEntries array_alloc alloc hash _ (new_entry array_alloc alloc key value)
                h (λ entry made. new_entry-IsEntry array_alloc alloc key value entry same s made))
      ]

  module _ (array_alloc : ℕ → Bool) (served : (n : ℕ) → array_alloc n ≡ true) where
    reduced_entry-IsEntry :
        (received : PartIndexes) (part : DecoderPart) (capacity : ℕ) (entry : HashEntry)
        → IsSound frag len part
        → IsEntry frag len entry
        → subset_loop part.indexes.indexes entry.key.indexes ≡ true
        → (part_indexes_difference array_alloc entry.key part.indexes no_indexes).1 ≡ true
        → IsEntry frag len (
            reduced_entry array_alloc received part capacity entry
              (part_indexes_difference array_alloc entry.key part.indexes no_indexes).0)
    unfolding reduced_entry
    reduced_entry-IsEntry received part capacity entry s h sub ok =
        let value : DecoderPart = entry.value in
        let taken : PartIndexes =
          (part_indexes_difference array_alloc entry.key part.indexes no_indexes).0 in
        let names : taken.indexes ≡ without value.indexes.indexes part.indexes.indexes =
          part_indexes_difference-without array_alloc entry.key part.indexes no_indexes
            (subst IsSorted (sym h.key_same) h.value_sound.sorted) s.sorted ok
          ∙ ap (λ (l : List ℕ). without l part.indexes.indexes) h.key_same in
        let copied = part_indexes_copy-eq array_alloc taken (copy_cases array_alloc taken served) in
        let v_buffer = IsSound-IsBuffer frag len buffers value h.value_sound in
        let p_buffer = IsSound-IsBuffer frag len buffers part s in
        record {
          value_sound = record {
            sorted =
                subst IsSorted (sym (copied ∙ names)) (
                  without-IsSorted value.indexes.indexes part.indexes.indexes h.value_sound.sorted);
            combined =
                ap (ur_xor_inplace value.payload part.payload) (
                  common_length (length value.payload) (length part.payload) len v_buffer.has_length
                    p_buffer.has_length)
                ∙ ur_xor_inplace-xor_bytes value.payload part.payload len v_buffer.has_length
                    p_buffer.has_length v_buffer.are_bytes p_buffer.are_bytes
                ∙ ap (λ (l : List ℕ). xor_bytes l part.payload) h.value_sound.combined
                ∙ ap (xor_bytes (xor_all frag len value.indexes.indexes)) s.combined
                ∙ xor_all-without frag len buffers value.indexes.indexes part.indexes.indexes
                    h.value_sound.sorted s.sorted
                    (ap (subset_loop part.indexes.indexes) (sym h.key_same) ∙ sub)
                ∙ ap (xor_all frag len) (sym (copied ∙ names));
          };
          key_same = sym copied;
        }

    -- What is left of a chain, and the queue and the entries put aside, are sound.
    abbrev Walked : List HashEntry × Walk → Type 0
    Walked r = All (IsEntry frag len) r.0 × IsWalk frag len r.1

    module _ (received : PartIndexes) (part : DecoderPart) (capacity : ℕ)
        (s : IsSound frag len part) where
      place-IsWalk :
          (bucket : ℕ) (entry : HashEntry) (walk : Walk)
          → IsEntry frag len entry
          → IsWalk frag len walk
          → Walked (place array_alloc received part capacity bucket entry walk)
      place-IsWalk bucket entry walk h k =
          elim (place_cases array_alloc received part capacity bucket entry walk) [
            | inl e ↦
                subst Walked (sym e)
                  (tt, record { queue_sound = k.queue_sound; stashed = k.stashed })
            | inr (inl (simple, e)) ↦ subst Walked (sym e) (
              tt,
              record {
                queue_sound =
                    queue_enqueue-IsQueue frag len walk.queue entry.value k.queue_sound
                      h.value_sound;
                stashed = k.stashed;
              },
            )
            | inr (inr (inl e)) ↦ subst Walked (sym e) ((h, tt), k)
            | inr (inr (inr e)) ↦
                subst Walked (sym e)
                  (tt, record { queue_sound = k.queue_sound; stashed = (h, k.stashed) })
          ]

      visit-IsWalk :
          (bucket : ℕ) (entry : HashEntry) (walk : Walk)
          → IsEntry frag len entry
          → IsWalk frag len walk
          → Walked (visit array_alloc received part capacity bucket entry walk)
      visit-IsWalk bucket entry walk h k =
          elim (visit_cases array_alloc received part capacity bucket entry walk) [
            | inl e ↦ subst Walked (sym e) ((h, tt), k)
            | inr (sub, lt, ok, e) ↦ subst Walked (sym e) (
                place-IsWalk bucket _ walk
                  (reduced_entry-IsEntry received part capacity entry s h sub ok) k)
          ]

      walk_chain-IsWalk :
          (bucket : ℕ) (chain : List HashEntry) (walk : Walk)
          → All (IsEntry frag len) chain
          → IsWalk frag len walk
          → Walked (walk_chain array_alloc received part capacity bucket chain walk)
      unfolding walk_chain
      walk_chain-IsWalk bucket [] walk h k = (tt, k)
      walk_chain-IsWalk bucket (entry ∷ chain) walk h k =
          let here = visit-IsWalk bucket entry walk h.0 k in
          let rest = walk_chain-IsWalk bucket chain _ h.1 here.1 in
          (All-append (IsEntry frag len) _ _ here.0 rest.0, rest.1)

      walk_buckets-IsWalk :
          (bucket : ℕ) (buckets : List (List HashEntry)) (walk : Walk)
          → AllEntries frag len buckets
          → IsWalk frag len walk
          → AllEntries frag len
              (walk_buckets array_alloc received part capacity bucket buckets walk).0
            × IsWalk frag len
                (walk_buckets array_alloc received part capacity bucket buckets walk).1
      unfolding walk_buckets
      walk_buckets-IsWalk bucket [] walk h k = (tt, k)
      walk_buckets-IsWalk bucket (chain ∷ buckets) walk h k =
          let here = walk_chain-IsWalk bucket chain walk h.0 k in
          let rest = walk_buckets-IsWalk (bucket + 1) buckets _ h.1 here.1 in
          ((here.0, rest.0), rest.1)

    -- If the part and the table's entries are each the XOR of the fragments that they name, and the
    -- queue's parts are as well, then after reduce_mixed_by, when the allocator serves every array of
    -- indexes, so are the entries of the table and the parts of the queue.
    pub reduce_mixed_by-IsSound :
        (received : PartIndexes) (part : DecoderPart) (hash : MixedHash) (queue : PartQueue)
        → IsSound frag len part
        → AllEntries frag len hash.buckets
        → IsQueue frag len queue
        → AllEntries frag len (reduce_mixed_by array_alloc received part hash queue).0.buckets
          × IsQueue frag len (reduce_mixed_by array_alloc received part hash queue).1
    reduce_mixed_by-IsSound received part hash queue s h q =
        let start : Walk = record { queue = queue; count = hash.count; rehash_list = [] } in
        let walked =
          walk_buckets-IsWalk received part hash.capacity s 0 hash.buckets start h
            (record { queue_sound = q; stashed = tt }) in
        elim (reduce_mixed_cases array_alloc received part hash queue) [
          | inl e ↦
              subst
                (λ (r : MixedHash × PartQueue).
                  AllEntries frag len r.0.buckets × IsQueue frag len r.1)
                (sym e) (h, q)
          | inr e ↦
              subst
                (λ (r : MixedHash × PartQueue).
                  AllEntries frag len r.0.buckets × IsQueue frag len r.1)
                (sym e)
                (
                  reinsert-AllEntries frag len hash.capacity _ _ walked.1.stashed walked.0,
                  walked.1.queue_sound,
                )
        ]
