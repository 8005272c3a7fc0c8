-- ===== src/Fountain/Decoder/Correct.antt =====
-- process_simple_part of src/fountain_decoder.c on parts of one message.
use c_ur.Base.{
  ℕ, ◌<◌, ◌≡◌, ◌⊎◌, inl, inr, refl, ap, sym, ◌∙◌, arith, true, false, List, length, All, Option,
  none, some,
}
use mathlib.Core.Path.{subst}
use mathlib.Core.Bool.{true≢false}
use c_ur.Crc32.{crc32_calculate}
use c_ur.Fountain.Fragments.{join_fragments}
use c_ur.Fountain.Fragments.Joined.{all_some}
use c_ur.Fountain.Indexes.{PartIndexes, part_indexes_contains, part_indexes_equal}
use c_ur.Fountain.Indexes.Subset.{part_indexes_equal_iff}
use c_ur.Fountain.Indexes.Insert.{part_indexes_add-IsIndexSet}
use c_ur.Fountain.Xor.Algebra.{IsBuffer}
use c_ur.Fountain.Parts.{DecoderPart, is_simple_part, get_part_index}
use c_ur.Fountain.Parts.Combined.{IsSound}
use c_ur.Fountain.Parts.Mixing.{fragment_at, fragment_at-IsBuffer}
use c_ur.Fountain.Mixed.{MixedHash}
use c_ur.Fountain.Mixed.Sound.{IsQueue, AllEntries}
use c_ur.Fountain.Decoder.State.{Machine, FountainResult, SimplePart, Decoder}
use c_ur.Fountain.Decoder.Assembly.{
  sort_parts, message_of, outcome_of, assemble, try_assemble, process_simple_part, add_simple_part,
}
use c_ur.Fountain.Decoder.Light.{added_to, simple_cases}
use c_ur.Fountain.Decoder.Joined.{count_from, IsKept, message_of-sort_parts}
use c_ur.Fountain.Decoder.Keeping.{
  add_simple_part-Stored, add_simple_part-failed, IsKept-sort_parts, has_key-contains, IsKept-added,
}

abbrev pub TableSound : (ℕ → List ℕ) → ℕ → Option MixedHash → Type 0
TableSound frag len none = Unit {0}
TableSound frag len (some hash) = AllEntries frag len hash.buckets

-- What the first part told, if one was received.
abbrev pub Known : List ℕ → ℕ → Option PartIndexes → ℕ → ℕ → ℕ → Type 0
Known message count none message_len checksum sampler = Unit {0}
Known message count (some expected) message_len checksum sampler =
    (expected.indexes ≡ count_from 0 count)
    × (message_len ≡ length message)
    × (checksum ≡ crc32_calculate message)
    × (sampler ≡ count)

abbrev pub success_with : List ℕ → FountainResult
success_with message = record {
  bytes = some message;
  bytes_len = length message;
  is_success = true;
  is_error = false;
}

abbrev pub Right : List ℕ → Option FountainResult → Type 0
Right message none = Unit {0}
Right message (some r) = r ≡ success_with message

module _ (message : List ℕ) (len : ℕ) (frags : List (List ℕ)) where
  -- Whatever the decoder holds is made of the fragments of the message.
  pub record IsDecoding (d : Decoder) : Type 0 where
    pub kept : IsKept (fragment_at frags len) len d.simple_parts.stored d.received_part_indexes
    pub table : TableSound (fragment_at frags len) len d.mixed_parts_hash
    pub work : IsQueue (fragment_at frags len) len d.queue
    pub known :
        Known message
          (length frags)
          d.expected_part_indexes
          d.expected_message_len
          d.expected_checksum
          d.degree_sampler
    pub right : Right message d.outcome

module _ (m : Machine) (message : List ℕ) (len : ℕ) (frags : List (List ℕ))
    (buffers : All (IsBuffer len) frags) (nonempty : 0 < length message)
    (joined : join_fragments (all_some frags) (length message) ≡ some message)
    (size : length (m.garbage (length message)) ≡ length message) where
  outcome_cases :
      (outcome_of m message (length message) (crc32_calculate message) ≡ none)
      ⊎ (outcome_of m message (length message) (crc32_calculate message)
          ≡ some (success_with message))
  unfolding outcome_of
  outcome_cases = ground arith

  outcome_of-Right : Right message (outcome_of m message (length message) (crc32_calculate message))
  outcome_of-Right = elim outcome_cases [
    | inl e ↦ subst (Right message) (sym e) tt
    | inr e ↦ subst (Right message) (sym e) refl
  ]

  assemble_cases :
      (d : Decoder)
      → (assemble m d ≡ record d {
        simple_parts = record {
          stored = sort_parts d.simple_parts.stored;
          capacity = d.simple_parts.capacity;
        };
      })
        ⊎ (assemble m d ≡ record d {
          simple_parts = record {
            stored = sort_parts d.simple_parts.stored;
            capacity = d.simple_parts.capacity;
          };
          outcome =
              outcome_of m
                (message_of m (sort_parts d.simple_parts.stored) d.expected_message_len)
                d.expected_message_len
                d.expected_checksum;
        })
  unfolding assemble
  assemble_cases d = ground arith

  assemble-IsDecoding :
      (d : Decoder) (expected : PartIndexes)
      → d.expected_part_indexes ≡ some expected
      → d.received_part_indexes.indexes ≡ expected.indexes
      → IsDecoding message len frags d
      → IsDecoding message len frags (assemble m d)
  assemble-IsDecoding d expected e all h =
      let frag : ℕ → List ℕ = fragment_at frags len in
      let told =
        subst
          (λ (o : Option PartIndexes).
            Known message (length frags) o d.expected_message_len d.expected_checksum
              d.degree_sampler)
          e h.known in
      let stored : List SimplePart = sort_parts d.simple_parts.stored in
      let sorted =
        IsKept-sort_parts frag len d.simple_parts.stored d.received_part_indexes h.kept in
      let P : Decoder → Type 0 = IsDecoding message len frags in
      let whole =
        message_of-sort_parts m message len frags buffers nonempty joined d.simple_parts.stored
          d.received_part_indexes h.kept (all ∙ told.0) size in
      elim (assemble_cases d) [
        | inl f ↦ subst P (sym f) (record {
          kept = sorted;
          table = h.table;
          work = h.work;
          known = h.known;
          right = h.right;
        })
        | inr f ↦ subst P (sym f) (record {
          kept = sorted;
          table = h.table;
          work = h.work;
          known = h.known;
          right =
              subst (Right message)
                (sym (
                  ap (λ (n : ℕ). outcome_of m (message_of m stored n) n d.expected_checksum) told.1
                  ∙ ap
                      (λ (c : ℕ).
                        outcome_of m (message_of m stored (length message)) (length message) c)
                      told.2
                  ∙ ap (λ (w : List ℕ). outcome_of m w (length message) (crc32_calculate message))
                      whole))
                outcome_of-Right;
        })
      ]

  try_cases :
      (expected : PartIndexes) (d : Decoder)
      → ((part_indexes_equal d.received_part_indexes expected ≡ true)
          × (try_assemble m (some expected) d ≡ assemble m d))
        ⊎ (try_assemble m (some expected) d ≡ d)
  unfolding try_assemble
  try_cases expected d = ground arith

  try_assemble-IsDecoding :
      (expected : Option PartIndexes) (d : Decoder)
      → d.expected_part_indexes ≡ expected
      → IsDecoding message len frags d
      → IsDecoding message len frags (try_assemble m expected d)
  unfolding try_assemble
  try_assemble-IsDecoding none d e h = h
  try_assemble-IsDecoding (some expected) d e h =
      let P : Decoder → Type 0 = IsDecoding message len frags in
      elim (try_cases expected d) [
        | inl (equal, f) ↦ subst P (sym f) (
            assemble-IsDecoding d expected e
              ((part_indexes_equal_iff d.received_part_indexes expected).0 equal) h)
        | inr f ↦ subst P (sym f) h
      ]

  new_part-IsKept :
      (d : Decoder) (part : DecoderPart)
      → ((c : ℕ) → m.array_alloc c ≡ true)
      → IsKept (fragment_at frags len) len d.simple_parts.stored d.received_part_indexes
      → IsSound (fragment_at frags len) len part
      → is_simple_part part ≡ true
      → part_indexes_contains d.received_part_indexes (get_part_index part) ≡ false
      → (add_simple_part m d.simple_parts part).1 ≡ true
      → IsKept
          (fragment_at frags len)
          len
          (added_to m d part).simple_parts.stored
          (added_to m d part).received_part_indexes
  new_part-IsKept d part served h s simple new added =
      let frag : ℕ → List ℕ = fragment_at frags len in
      let buf : (i : ℕ) → IsBuffer len (frag i) = λ i. fragment_at-IsBuffer frags len i buffers in
      let received : PartIndexes = d.received_part_indexes in
      let index : ℕ = get_part_index part in
      let fresh = has_key-contains frag len d.simple_parts.stored received index h ∙ new in
      let found = part_indexes_add-IsIndexSet m.array_alloc received index h.received_set in
      elim (add_simple_part-Stored m d.simple_parts part fresh) [
        | inl (failed, same) ↦ cc
        | inr (copy, stored, copied, same) ↦ elim found.1 [
          | inl (ok, members) ↦
              subst
                (λ (l : List SimplePart).
                  IsKept frag len l (added_to m d part).received_part_indexes)
                (sym same)
                (IsKept-added frag len buf m d.simple_parts.stored received
                  (added_to m d part).received_part_indexes part copy h s simple fresh copied
                  found.0 members)
          | inr (e, refused) ↦ absurd (true≢false (sym (served _) ∙ refused))
        ]
      ]

  pub process_simple_part-IsDecoding :
      (d : Decoder) (part : DecoderPart)
      → ((c : ℕ) → m.array_alloc c ≡ true)
      → IsSound (fragment_at frags len) len part
      → IsDecoding message len frags d
      → IsDecoding message len frags (process_simple_part m d part)
  process_simple_part-IsDecoding d part served s h =
      let P : Decoder → Type 0 = IsDecoding message len frags in
      let received : PartIndexes = d.received_part_indexes in
      elim (simple_cases m d part) [
        | inl e ↦ subst P (sym e) h
        | inr (inl (failed, e)) ↦ subst P (sym e) (record {
          kept =
              subst (λ (l : List SimplePart). IsKept (fragment_at frags len) len l received)
                (sym (add_simple_part-failed m d.simple_parts part failed)) h.kept;
          table = h.table;
          work = h.work;
          known = h.known;
          right = h.right;
        })
        | inr (inr (inl (failed, e))) ↦
            elim (part_indexes_add-IsIndexSet m.array_alloc received (get_part_index part)
              h.kept.received_set).1 [
                | inl (ok, members) ↦ cc
                | inr (f, refused) ↦ absurd (true≢false (sym (served _) ∙ refused))
              ]
        | inr (inr (inr (simple, new, added, e))) ↦ subst P (sym e) (
            try_assemble-IsDecoding d.expected_part_indexes (added_to m d part) refl (record {
              kept = new_part-IsKept d part served h.kept s simple new added;
              table = h.table;
              work = h.work;
              known = h.known;
              right = h.right;
            }))
      ]
