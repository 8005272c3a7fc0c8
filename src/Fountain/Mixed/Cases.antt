-- ===== src/Fountain/Mixed/Cases.antt =====
-- The branches of the operations on the table of mixed parts of src/fountain_decoder.c.
use c_ur.Base.{ℕ, ◌-◌, ◌%◌, ◌<◌, ◌≡◌, ◌⊎◌, inl, inr, arith, Bool, true, false, [], ◌∷◌, length}
use c_ur.Fountain.Indexes.{PartIndexes, part_indexes_difference, subset_loop}
use c_ur.Fountain.Indexes.Subset.{strict_cases}
use c_ur.Fountain.HashSet.{hash_indexes}
use c_ur.Fountain.Parts.{DecoderPart, no_indexes, is_simple_part}
use c_ur.Fountain.Queue.{PartQueue, queue_enqueue}
use c_ur.Fountain.Mixed.{
  HashEntry, MixedHash, Walk, new_entry, put_entry, mixed_hash_put, reduced_entry, place, visit,
  walk_buckets, reinsert, reduce_mixed_by,
}

pub put_cases :
    (array_alloc alloc : ℕ → Bool) (hash : MixedHash) (key : PartIndexes) (value : DecoderPart)
    → (mixed_hash_put array_alloc alloc hash key value ≡ (hash, false))
      ⊎ (mixed_hash_put array_alloc alloc hash key value
          ≡ put_entry array_alloc alloc hash
              (hash_indexes key % hash.capacity)
              (new_entry array_alloc alloc key value))
unfolding mixed_hash_put
put_cases array_alloc alloc hash key value = ground arith

module _ (array_alloc : ℕ → Bool) (received : PartIndexes) (part : DecoderPart) where
  pub place_cases :
      (capacity bucket : ℕ) (entry : HashEntry) (walk : Walk)
      → (place array_alloc received part capacity bucket entry walk
          ≡ ([], record walk { queue = walk.queue; count = walk.count - 1 }))
        ⊎ (((is_simple_part entry.value ≡ true)
              × (place array_alloc received part capacity bucket entry walk ≡ (
                [],
                record walk {
                  queue = (queue_enqueue walk.queue entry.value).0;
                  count = walk.count - 1;
                },
              )))
            ⊎ ((place array_alloc received part capacity bucket entry walk ≡ (entry ∷ [], walk))
                ⊎ (place array_alloc received part capacity bucket entry walk
                    ≡ ([], record walk { rehash_list = entry ∷ walk.rehash_list }))))
  unfolding place
  place_cases capacity bucket entry walk = ground arith

  pub visit_cases :
      (capacity bucket : ℕ) (entry : HashEntry) (walk : Walk)
      → (visit array_alloc received part capacity bucket entry walk ≡ (entry ∷ [], walk))
        ⊎ ((subset_loop part.indexes.indexes entry.key.indexes ≡ true)
            × (length part.indexes.indexes < length entry.key.indexes)
            × ((part_indexes_difference array_alloc entry.key part.indexes no_indexes).1 ≡ true)
            × (visit array_alloc received part capacity bucket entry walk
                ≡ place array_alloc received part capacity bucket
                    (reduced_entry array_alloc received part capacity entry
                      (part_indexes_difference array_alloc entry.key part.indexes no_indexes).0)
                    walk))
  unfolding visit
  visit_cases capacity bucket entry walk = elim (strict_cases part.indexes entry.key) [
    | inl (lt, e) ↦ ground (arith, e, lt)
    | inr (le, e) ↦ ground (arith, e)
  ]

  pub reduce_mixed_cases :
      (hash : MixedHash) (queue : PartQueue)
      → (reduce_mixed_by array_alloc received part hash queue ≡ (hash, queue))
        ⊎ (reduce_mixed_by array_alloc received part hash queue ≡ (
          record hash {
            buckets =
                reinsert hash.capacity
                  (walk_buckets array_alloc received part hash.capacity 0 hash.buckets
                    (record { queue = queue; count = hash.count; rehash_list = [] })).1.rehash_list
                  (walk_buckets array_alloc received part hash.capacity 0 hash.buckets
                    (record { queue = queue; count = hash.count; rehash_list = [] })).0;
            count =
                (walk_buckets array_alloc received part hash.capacity 0 hash.buckets
                  (record { queue = queue; count = hash.count; rehash_list = [] })).1.count;
          },
          (walk_buckets array_alloc received part hash.capacity 0 hash.buckets
              (record { queue = queue; count = hash.count; rehash_list = [] })).1.queue,
        ))
  unfolding reduce_mixed_by
  reduce_mixed_cases hash queue = ground arith
