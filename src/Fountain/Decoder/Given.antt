-- ===== src/Fountain/Decoder/Given.antt =====
-- Parts of one message received by the decoder of src/fountain_decoder.c.
use c_ur.Base.{
  ℕ, zero, suc, ◌+◌, ◌%◌, ◌^◌, ◌<◌, ◌≡◌, ◌⊎◌, inl, inr, refl, ap, sym, ◌∙◌, arith, Bool, true,
  false, ◌||◌, List, [], length, All, Option, none, some,
}
use mathlib.Core.Path.{subst}
use mathlib.Core.Bool.{true≢false}
use c_ur.Crc32.{crc32_calculate}
use c_ur.Fountain.Fragments.{join_fragments}
use c_ur.Fountain.Fragments.Joined.{all_some}
use c_ur.Fountain.Indexes.{PartIndexes, part_indexes_add}
use c_ur.Fountain.Indexes.Insert.{IsIndexSet, part_indexes_add-IsIndexSet}
use c_ur.Fountain.Xor.Algebra.{IsBuffer}
use c_ur.Fountain.Parts.Combined.{IsSound}
use c_ur.Fountain.Parts.Mixing.{fragment_at}
use c_ur.Fountain.Queue.{PartQueue, queue_enqueue}
use c_ur.Fountain.Mixed.{MixedHash}
use c_ur.Fountain.Mixed.Sound.{IsQueue, AllEntries, queue_enqueue-IsQueue}
use c_ur.Fountain.Decoder.State.{Machine, Decoder}
use c_ur.Fountain.Decoder.Joined.{count_from}
use c_ur.Fountain.Decoder.Correct.{Known, IsDecoding}
use c_ur.Base.{bind_cases, replicate}
use mathlib.Core.Option.{some-injective}
use c_ur.Fountain.Indexes.{◌>=>◌}
use c_ur.Fountain.Indexes.Sorted.{has}
use c_ur.Fountain.HashSet.{hash_indexes, hash_set_init, hash_set_add}
use c_ur.Fountain.PartCbor.{Part}
use c_ur.Fountain.Parts.{no_indexes, succeeded}
use c_ur.Fountain.Parts.Reduction.{succeeded-eq-some}
use c_ur.Fountain.Mixed.{mixed_hash_init}
use c_ur.Fountain.Decoder.State.{clear_initialization}
use c_ur.Fountain.Decoder.Sorting.{IsSorted-same}
use c_ur.Fountain.Decoder.Joined.{count_from-IsSorted}
use c_ur.Fountain.Decoder.Receive.{
  add_range, table_capacity, sampler_for, table_for, initialized, or_cleared, initialize,
  last_indexes, queue_rounds, receive_enqueued, receive_chosen, receive_initialized,
  fountain_decoder_receive_part,
}
use c_ur.Fountain.Decoder.Work.{process_queue-IsDecoding}

-- A part of the message: its header says so, and its data are the XOR of the fragments that
-- choose_fragments names for its number, in a set in order.
pub record IsPartOf (m : Machine) (message : List ℕ) (len : ℕ) (frags : List (List ℕ)) (part : Part)
    : Type 0 where
  pub seq_len_is : part.seq_len ≡ length frags
  pub message_len_is : part.message_len ≡ length message
  pub checksum_is : part.checksum ≡ crc32_calculate message
  pub combined :
      (chosen : PartIndexes)
      → m.choose part.seq_num part.seq_len part.checksum (length frags) ≡ some chosen
      → IsSound (fragment_at frags len) len (record { indexes = chosen; payload = part.payload })

go_on :
    (r : PartIndexes × Bool) (next : PartIndexes → PartIndexes × Bool)
    → r.1 ≡ true
    → (r >=> next) ≡ next r.0
go_on (p, true) next e = refl
go_on (p, false) next e = cc

All-replicate : (frag : ℕ → List ℕ) (len n : ℕ) → AllEntries frag len (replicate n [])
All-replicate frag len zero = tt
All-replicate frag len (suc n) = (tt, All-replicate frag len n)

pub sampler_for-eq :
    (m : Machine) (old count sampler : ℕ)
    → 0 < count
    → sampler_for m old count ≡ some sampler
    → sampler ≡ count
unfolding sampler_for
sampler_for-eq m old count sampler pos e = ground (arith, some-injective count sampler)

module _ (m : Machine) (served : (c : ℕ) → m.array_alloc c ≡ true) where
  abbrev Range : ℕ → ℕ → PartIndexes → PartIndexes × Bool → Type 0
  Range rounds i p r =
      IsIndexSet r.0
      × (r.1 ≡ true)
      × ((n : ℕ) → has r.0.indexes n ≡ (has p.indexes n || has (count_from i rounds) n))

  add_range-Range :
      (rounds i : ℕ) (p : PartIndexes) → IsIndexSet p → Range rounds i p (add_range m rounds i p)
  unfolding add_range has
  add_range-Range zero i p h = (h, refl, λ n. ground arith)
  add_range-Range (suc rounds) i p h =
      let r = part_indexes_add m.array_alloc p i in
      let found = part_indexes_add-IsIndexSet m.array_alloc p i h in
      elim found.1 [
        | inl (ok, members) ↦
            let more = add_range-Range rounds (suc i) r.0 found.0 in
            let next : add_range m (suc rounds) i p ≡ add_range m rounds (suc i) r.0 =
              go_on r (add_range m rounds (i + 1)) ok
              ∙ ap (λ (k : ℕ). add_range m rounds k r.0) {y = suc i} (omega arith) in
            subst (Range (suc rounds) i p) (sym next)
              (more.0, more.1, λ n. ground (arith, more.2 n, members n))
        | inr (e, refused) ↦ absurd (true≢false (sym (served _) ∙ refused))
      ]

  pub none-IsIndexSet : IsIndexSet no_indexes
  none-IsIndexSet = record { sorted = tt; fits = omega arith }

  pub add_range-count_from :
      (count : ℕ) → (add_range m count 0 no_indexes).0.indexes ≡ count_from 0 count
  unfolding has
  add_range-count_from count =
      let r = add_range-Range count 0 no_indexes none-IsIndexSet in
      IsSorted-same (add_range m count 0 no_indexes).0.indexes (count_from 0 count) r.0.sorted
        (count_from-IsSorted 0 count) r.2

  table_buckets :
      (count : ℕ) (table : MixedHash)
      → table_for m count ≡ some table
      → table.buckets ≡ replicate (table_capacity m count) []
  unfolding table_for mixed_hash_init
  table_buckets count table e = ground arith

  table_for-AllEntries :
      (frag : ℕ → List ℕ) (len count : ℕ) (table : MixedHash)
      → table_for m count ≡ some table
      → AllEntries frag len table.buckets
  table_for-AllEntries frag len count table e =
      subst (AllEntries frag len) (sym (table_buckets count table e))
        (All-replicate frag len (table_capacity m count))

module _ (m : Machine) (message : List ℕ) (len : ℕ) (frags : List (List ℕ))
    (buffers : All (IsBuffer len) frags) (nonempty : 0 < length message)
    (joined : join_fragments (all_some frags) (length message) ≡ some message)
    (size : length (m.garbage (length message)) ≡ length message)
    (served : (c : ℕ) → m.array_alloc c ≡ true) (some_fragment : 0 < length frags) where
  -- The decoder is sound, and one that goes on has the sampler of this message.
  abbrev Ready : Decoder × Bool → Type 0
  Ready r = IsDecoding message len frags r.0 × (r.1 ≡ true → r.0.degree_sampler ≡ length frags)

  initialized-Ready :
      (d d' : Decoder) (part : Part)
      → IsPartOf m message len frags part
      → IsDecoding message len frags d
      → initialized m d part ≡ some d'
      → Ready (d', true)
  unfolding initialized
  initialized-Ready d d' part o h e =
      bind_cases (succeeded (add_range m part.seq_len 0 no_indexes)) _ e λ expected e₁ r₁.
        bind_cases (table_for m part.seq_len) _ r₁ λ table e₂ r₂.
          bind_cases (hash_set_init m.alloc (table_capacity m part.seq_len)) _ r₂ λ hashes e₃ r₃.
            bind_cases (sampler_for m d.degree_sampler part.seq_len) _ r₃ λ sampler e₄ r₄.
              let range : expected.indexes ≡ count_from 0 (length frags) =
                ap (λ (q : PartIndexes). q.indexes)
                  (sym (succeeded-eq-some (add_range m part.seq_len 0 no_indexes) expected e₁).1)
                ∙ add_range-count_from m served part.seq_len
                ∙ ap (count_from 0) o.seq_len_is in
              let degrees : sampler ≡ length frags =
                sampler_for-eq m d.degree_sampler part.seq_len sampler (omega (arith, o.seq_len_is))
                  e₄
                ∙ o.seq_len_is in
              subst (λ (q : Decoder). Ready (q, true)) (some-injective _ _ r₄)
                (
                  record {
                    kept = h.kept;
                    table =
                        table_for-AllEntries m served (fragment_at frags len) len part.seq_len table
                          e₂;
                    work = h.work;
                    known = (range, o.message_len_is, o.checksum_is, degrees);
                    right = h.right;
                  },
                  λ t. degrees,
                )

  cleared-IsDecoding :
      (d : Decoder)
      → IsDecoding message len frags d
      → IsDecoding message len frags (clear_initialization d)
  unfolding clear_initialization
  cleared-IsDecoding d h = record {
    kept = h.kept;
    table = tt;
    work = h.work;
    known = tt;
    right = h.right;
  }

  or_cleared-Ready :
      (d : Decoder) (o : Option Decoder)
      → IsDecoding message len frags d
      → ((d' : Decoder) → o ≡ some d' → Ready (d', true))
      → Ready (or_cleared m d o)
  unfolding or_cleared
  or_cleared-Ready d none h k = (cleared-IsDecoding d h, λ t. cc)
  or_cleared-Ready d (some d') h k = k d' refl

  set_up_cases :
      (d : Decoder) (part : Part)
      → (initialize m none d part ≡ or_cleared m d (initialized m d part))
        ⊎ (initialize m none d part ≡ (d, false))
  unfolding initialize
  set_up_cases d part = ground arith

  initialize-Ready :
      (expected : Option PartIndexes) (d : Decoder) (part : Part)
      → d.expected_part_indexes ≡ expected
      → IsPartOf m message len frags part
      → IsDecoding message len frags d
      → Ready (initialize m expected d part)
  unfolding initialize
  initialize-Ready (some expected) d part e o h = (
    h,
    λ t.
        (subst
          (λ (q : Option PartIndexes).
            Known message (length frags) q d.expected_message_len d.expected_checksum
              d.degree_sampler)
          e h.known).3,
  )
  initialize-Ready none d part e o h = elim (set_up_cases d part) [
    | inl f ↦
        subst Ready (sym f)
          (or_cleared-Ready d (initialized m d part) h (λ d' g. initialized-Ready d d' part o h g))
    | inr f ↦ subst Ready (sym f) (h, λ t. cc)
  ]

  receive_enqueued-IsDecoding :
      (part : Part) (d : Decoder) (r : PartQueue × Bool)
      → IsQueue (fragment_at frags len) len r.0
      → IsDecoding message len frags d
      → IsDecoding message len frags (receive_enqueued m part d r).0
  unfolding receive_enqueued
  receive_enqueued-IsDecoding part d (queue, false) q h = h
  receive_enqueued-IsDecoding part d (queue, true) q h =
      let worked =
        process_queue-IsDecoding m message len frags buffers nonempty joined size served
          (queue_rounds (record d { queue = queue })) (record d { queue = queue })
          (record { kept = h.kept; table = h.table; work = q; known = h.known; right = h.right }) in
      record {
        kept = worked.kept;
        table = worked.table;
        work = worked.work;
        known = worked.known;
        right = worked.right;
      }

  chosen_cases :
      (d : Decoder) (part : Part) (chosen : PartIndexes)
      → (receive_chosen m d part (some chosen) ≡ (d, true))
        ⊎ (receive_chosen m d part (some chosen)
            ≡ receive_enqueued m part
                (record d {
                  received_fragments_hashes =
                      (hash_set_add m.alloc d.received_fragments_hashes
                        (hash_indexes chosen % 2 ^ 32)).0;
                  last_part_indexes = last_indexes m chosen;
                })
                (queue_enqueue d.queue (record { indexes = chosen; payload = part.payload })))
  unfolding receive_chosen
  chosen_cases d part chosen = ground arith

  receive_chosen-IsDecoding :
      (d : Decoder) (part : Part) (chosen : Option PartIndexes)
      → ((c : PartIndexes)
          → chosen ≡ some c
          → IsSound (fragment_at frags len) len (record { indexes = c; payload = part.payload }))
      → IsDecoding message len frags d
      → IsDecoding message len frags (receive_chosen m d part chosen).0
  unfolding receive_chosen
  receive_chosen-IsDecoding d part none k h = h
  receive_chosen-IsDecoding d part (some chosen) k h =
      let P : Decoder × Bool → Type 0 = λ r. IsDecoding message len frags r.0 in
      elim (chosen_cases d part chosen) [
        | inl e ↦ subst P (sym e) h
        | inr e ↦ subst P (sym e) (
            receive_enqueued-IsDecoding part _
              (queue_enqueue d.queue (record { indexes = chosen; payload = part.payload }))
              (queue_enqueue-IsQueue (fragment_at frags len) len d.queue
                (record { indexes = chosen; payload = part.payload }) h.work (k chosen refl))
              (record {
                kept = h.kept;
                table = h.table;
                work = h.work;
                known = h.known;
                right = h.right;
              }))
      ]

  length_cases :
      (part : Part) (d : Decoder)
      → (receive_initialized m part (d, true) ≡ (d, false))
        ⊎ (receive_initialized m part (d, true)
            ≡ receive_chosen m d part
                (m.choose part.seq_num part.seq_len part.checksum d.degree_sampler))
  unfolding receive_initialized
  length_cases part d = ground arith

  receive_initialized-IsDecoding :
      (part : Part) (r : Decoder × Bool)
      → IsPartOf m message len frags part
      → Ready r
      → IsDecoding message len frags (receive_initialized m part r).0
  unfolding receive_initialized
  receive_initialized-IsDecoding part (d, false) o h = h.0
  receive_initialized-IsDecoding part (d, true) o h =
      let P : Decoder × Bool → Type 0 = λ r. IsDecoding message len frags r.0 in
      elim (length_cases part d) [
        | inl e ↦ subst P (sym e) h.0
        | inr e ↦ subst P (sym e) (
            receive_chosen-IsDecoding d part _
              (λ c f.
                o.combined c
                  (ap (m.choose part.seq_num part.seq_len part.checksum) (sym (h.1 refl)) ∙ f))
              h.0)
      ]

  part_cases :
      (d : Decoder) (part : Part)
      → (fountain_decoder_receive_part m d part ≡ (d, false))
        ⊎ ((fountain_decoder_receive_part m d part ≡ (d, true))
            ⊎ (fountain_decoder_receive_part m d part
                ≡ receive_initialized m part (initialize m d.expected_part_indexes d part)))
  unfolding fountain_decoder_receive_part
  part_cases d part = ground arith

  -- A decoder that holds only fragments of the message and their combinations does so after a part of
  -- the message as well, when the allocator serves every array of indexes and a block of the
  -- message's length has that many bytes.
  pub fountain_decoder_receive_part-IsDecoding :
      (d : Decoder) (part : Part)
      → IsPartOf m message len frags part
      → IsDecoding message len frags d
      → IsDecoding message len frags (fountain_decoder_receive_part m d part).0
  fountain_decoder_receive_part-IsDecoding d part o h =
      let P : Decoder × Bool → Type 0 = λ r. IsDecoding message len frags r.0 in
      elim (part_cases d part) [
        | inl e ↦ subst P (sym e) h
        | inr (inl e) ↦ subst P (sym e) h
        | inr (inr e) ↦ subst P (sym e) (
            receive_initialized-IsDecoding part _ o
              (initialize-Ready d.expected_part_indexes d part refl o h))
      ]
