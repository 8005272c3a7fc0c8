-- ===== src/Fountain/Decoder/Keeping.antt =====
-- process_simple_part of src/fountain_decoder.c keeps fragments under their indexes.
use c_ur.Base.{
  ℕ, ◌≡◌, ◌⊎◌, inl, inr, refl, ap, sym, ◌∙◌, arith, Bool, true, false, ◌||◌, List, [], ◌∷◌, ◌++◌,
  length, get_or, All-append, ◌==◌, Option, none, some,
}
use mathlib.Core.Path.{subst}
use c_ur.Fountain.Indexes.{PartIndexes, part_indexes_contains}
use c_ur.Fountain.Indexes.Sorted.{IsSorted, has, has-Above, has-append}
use c_ur.Fountain.Indexes.Search.{part_indexes_contains-has}
use c_ur.Fountain.Indexes.Insert.{IsIndexSet}
use c_ur.Fountain.Xor.Algebra.{IsBuffer}
use c_ur.Fountain.Parts.{DecoderPart, is_simple_part, get_part_index, decoder_part_copy}
use c_ur.Fountain.Parts.Combined.{IsSound}
use c_ur.Fountain.Parts.Reduction.{IsSound-same, decoder_part_copy-eq}
use c_ur.Fountain.Decoder.State.{Machine, SimplePart, SimpleParts}
use c_ur.Fountain.Decoder.Assembly.{
  has_key, simple_room, store_copy, store_simple, add_simple_part, sort_parts,
}
use c_ur.Fountain.Decoder.Sorting.{
  keys, DistinctKeys, has_key-keys, keys-append, DistinctKeys-snoc, All-sort_parts,
  sort_parts-IsSorted, has-sort_parts,
}
use c_ur.Fountain.Decoder.Joined.{IsStored, IsKept}

abbrev pub entry_of : DecoderPart → DecoderPart → SimplePart
entry_of part copy = record {
  key = get_part_index part;
  value = copy;
  value_len = length part.payload;
}

-- What add_simple_part did: nothing, or a copy is behind the others.
abbrev pub Stored : Machine → SimpleParts → DecoderPart → SimpleParts × Bool → Type 0
Stored m s part r =
    ((r.1 ≡ false) × (r.0.stored ≡ s.stored))
    ⊎ ((copy : DecoderPart) × (r.1 ≡ true)
        × (decoder_part_copy m.array_alloc m.alloc part ≡ some copy)
        × (r.0.stored ≡ s.stored ++ entry_of part copy ∷ []))

simple_indexes :
    (part : DecoderPart)
    → is_simple_part part ≡ true
    → part.indexes.indexes ≡ get_part_index part ∷ []
unfolding is_simple_part get_part_index
simple_indexes part h = one_index part.indexes.indexes (ground arith)
  where
    one_index : (xs : List ℕ) → length xs ≡ 1 → xs ≡ get_or xs 0 0 ∷ []
    one_index [] e = absurd (omega arith)
    one_index (x ∷ []) e = refl
    one_index (x ∷ y ∷ xs) e = absurd (omega arith)

module _ (m : Machine) where
  room_stored : (s : SimpleParts) → (simple_room m s).0.stored ≡ s.stored
  unfolding simple_room
  room_stored s = ground arith

  store_copy-Stored :
      (s s' : SimpleParts) (part : DecoderPart) (copy : Option DecoderPart)
      → decoder_part_copy m.array_alloc m.alloc part ≡ copy
      → s'.stored ≡ s.stored
      → Stored m s part (store_copy m part s' copy)
  unfolding store_copy
  store_copy-Stored s s' part none e f = inl (refl, f)
  store_copy-Stored s s' part (some copy) e f =
      inr (copy, refl, e, ap (λ (l : List SimplePart). l ++ entry_of part copy ∷ []) f)

  store_simple-Stored :
      (s : SimpleParts) (part : DecoderPart) (r : SimpleParts × Bool)
      → r.0.stored ≡ s.stored
      → Stored m s part (store_simple m part r)
  unfolding store_simple
  store_simple-Stored s part (s', true) f = store_copy-Stored s s' part _ refl f
  store_simple-Stored s part (s', false) f = inl (refl, f)

  add_cases :
      (s : SimpleParts) (part : DecoderPart)
      → (add_simple_part m s part ≡ (s, false))
        ⊎ (((has_key s.stored (get_part_index part) ≡ true)
              × (add_simple_part m s part ≡ (s, true)))
            ⊎ (add_simple_part m s part ≡ store_simple m part (simple_room m s)))
  unfolding add_simple_part
  add_cases s part = ground arith

  pub add_simple_part-Stored :
      (s : SimpleParts) (part : DecoderPart)
      → has_key s.stored (get_part_index part) ≡ false
      → Stored m s part (add_simple_part m s part)
  add_simple_part-Stored s part new = elim (add_cases s part) [
    | inl e ↦ subst (Stored m s part) (sym e) (inl (refl, refl))
    | inr (inl (known, e)) ↦ cc
    | inr (inr e) ↦
        subst (Stored m s part) (sym e)
          (store_simple-Stored s part (simple_room m s) (room_stored s))
  ]

  -- add_simple_part that failed.
  pub add_simple_part-failed :
      (s : SimpleParts) (part : DecoderPart)
      → (add_simple_part m s part).1 ≡ false
      → (add_simple_part m s part).0.stored ≡ s.stored
  add_simple_part-failed s part failed = elim (add_cases s part) [
    | inl e ↦ ap (λ (r : SimpleParts × Bool). r.0.stored) e
    | inr (inl (known, e)) ↦ ap (λ (r : SimpleParts × Bool). r.0.stored) e
    | inr (inr e) ↦ elim (store_simple-Stored s part (simple_room m s) (room_stored s)) [
      | inl (refused, same) ↦ ap (λ (r : SimpleParts × Bool). r.0.stored) e ∙ same
      | inr (copy, stored, copied, same) ↦ cc
    ]
  ]

-- Ascending keys differ.
keys-DistinctKeys : (ps : List SimplePart) → IsSorted (keys ps) → DistinctKeys ps
unfolding keys
keys-DistinctKeys [] s = tt
keys-DistinctKeys (p ∷ ps) s = (has-Above p.key (keys ps) s.0, keys-DistinctKeys ps s.1)

module _ (frag : ℕ → List ℕ) (len : ℕ) where
  pub IsKept-sort_parts :
      (stored : List SimplePart) (received : PartIndexes)
      → IsKept frag len stored received
      → IsKept frag len (sort_parts stored) received
  IsKept-sort_parts stored received h = record {
    all_stored = All-sort_parts (IsStored frag len) stored h.all_stored;
    distinct = keys-DistinctKeys (sort_parts stored) (sort_parts-IsSorted stored h.distinct);
    received_set = h.received_set;
    same_keys = λ n. has-sort_parts stored n ∙ h.same_keys n;
  }

  pub has_key-contains :
      (stored : List SimplePart) (received : PartIndexes) (n : ℕ)
      → IsKept frag len stored received
      → has_key stored n ≡ part_indexes_contains received n
  has_key-contains stored received n h =
      has_key-keys stored n
      ∙ h.same_keys n
      ∙ sym (part_indexes_contains-has received n h.received_set.sorted)

module _ (frag : ℕ → List ℕ) (len : ℕ) (buffers : (i : ℕ) → IsBuffer len (frag i)) where
  -- A sound simple part whose index is new.
  pub IsKept-added :
      (m : Machine) (stored : List SimplePart) (received received' : PartIndexes)
      (part copy : DecoderPart)
      → IsKept frag len stored received
      → IsSound frag len part
      → is_simple_part part ≡ true
      → has_key stored (get_part_index part) ≡ false
      → decoder_part_copy m.array_alloc m.alloc part ≡ some copy
      → IsIndexSet received'
      → ((n : ℕ) → has received'.indexes n ≡ ((get_part_index part == n) || has received.indexes n))
      → IsKept frag len (stored ++ entry_of part copy ∷ []) received'
  unfolding keys has
  IsKept-added m stored received received' part copy h s simple new copied set same =
      let eq = decoder_part_copy-eq m.array_alloc m.alloc part copy copied in
      let one = entry_of part copy ∷ [] in
      record {
        all_stored = All-append (IsStored frag len) stored one h.all_stored (
          record {
            value_sound = IsSound-same frag len buffers part copy eq.0 eq.1 s;
            named = eq.0 ∙ simple_indexes part simple;
          },
          tt,
        );
        distinct =
            DistinctKeys-snoc stored (entry_of part copy) h.distinct
              (sym (has_key-keys stored (get_part_index part)) ∙ new);
        received_set = set;
        same_keys = λ n. ground (
          arith,
          keys-append stored one,
          has-append (keys stored) (keys one) n,
          h.same_keys n,
          same n,
        );
      }
