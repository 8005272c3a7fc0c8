-- ===== src/Fountain/Decoder/Fed.antt =====
-- What a decoder of src/fountain_decoder.c gives after any parts of one message.
use c_ur.Base.{ℕ, ◌<◌, ◌≡◌, refl, sym, arith, true, List, length, All, Option, none, some}
use mathlib.Core.Path.{subst}
use c_ur.Fountain.Fragments.{join_fragments}
use c_ur.Fountain.Fragments.Joined.{all_some}
use c_ur.Fountain.Xor.Algebra.{IsBuffer}
use c_ur.Fountain.Queue.{PartQueue}
use c_ur.Fountain.Decoder.State.{Machine, FountainResult, Decoder}
use c_ur.Fountain.Decoder.Correct.{Right, IsDecoding}
use c_ur.Base.{replicate}
use c_ur.Fountain.PartCbor.{Part}
use c_ur.Fountain.Decoder.State.{fountain_decoder_is_complete}
use c_ur.Fountain.Decoder.Sorting.{keys}
use c_ur.Fountain.Decoder.Receive.{fountain_decoder_receive_part}
use c_ur.Fountain.Queue.{queue_init, no_part}
use c_ur.Fountain.Decoder.State.{
  fresh_decoder, fountain_decoder_new, fountain_decoder_is_success, fountain_decoder_result_message,
  fountain_decoder_result_message_len,
}
use c_ur.Fountain.Decoder.Given.{
  IsPartOf, none-IsIndexSet, fountain_decoder_receive_part-IsDecoding,
}

-- The decoders that come of a new one by receiving parts of the message, in any order, any of them
-- missing or repeated.
pub data Fed (m : Machine) (message : List ℕ) (len : ℕ) (frags : List (List ℕ))
    : Decoder → Type 0 where
  created : {d : Decoder} → fountain_decoder_new m ≡ some d → Fed m message len frags d
  given :
      {d : Decoder} {part : Part}
      → Fed m message len frags d
      → IsPartOf m message len frags part
      → Fed m message len frags (fountain_decoder_receive_part m d part).0

abbrev pub empty_queue : PartQueue
empty_queue = record { parts = replicate 8 no_part; front = 0; rear = 0; count = 0; capacity = 8 }

new_cases :
    (m : Machine) (d : Decoder) → fountain_decoder_new m ≡ some d → d ≡ fresh_decoder empty_queue
unfolding fountain_decoder_new queue_init
new_cases m d e = ground arith

module _ (m : Machine) (message : List ℕ) (len : ℕ) (frags : List (List ℕ))
    (buffers : All (IsBuffer len) frags) (nonempty : 0 < length message)
    (joined : join_fragments (all_some frags) (length message) ≡ some message)
    (size : length (m.garbage (length message)) ≡ length message)
    (served : (c : ℕ) → m.array_alloc c ≡ true) (some_fragment : 0 < length frags) where
  fresh-IsDecoding : IsDecoding message len frags (fresh_decoder empty_queue)
  unfolding keys
  fresh-IsDecoding = record {
    kept = record {
      all_stored = tt;
      distinct = tt;
      received_set = none-IsIndexSet m served;
      same_keys = λ n. refl;
    };
    table = tt;
    work = record {
      ring = record {
        roomy = omega arith;
        front_in = omega arith;
        not_over = omega arith;
        rear_behind = refl;
      };
      parts_sound = tt;
    };
    known = tt;
    right = tt;
  }

  Fed-IsDecoding : (d : Decoder) → Fed m message len frags d → IsDecoding message len frags d
  Fed-IsDecoding d (created e) =
      subst (IsDecoding message len frags) (sym (new_cases m d e)) fresh-IsDecoding
  Fed-IsDecoding _ (given {d = d} {part = part} h o) =
      fountain_decoder_receive_part-IsDecoding m message len frags buffers nonempty joined size
        served some_fragment d part o (Fed-IsDecoding d h)

  outcome-Right :
      (d : Decoder) (o : Option FountainResult)
      → d.outcome ≡ o
      → Right message o
      → fountain_decoder_is_complete d ≡ true
      → (fountain_decoder_is_success d ≡ true)
        × (fountain_decoder_result_message d ≡ some message)
        × (fountain_decoder_result_message_len d ≡ length message)
  unfolding fountain_decoder_is_complete fountain_decoder_is_success fountain_decoder_result_message
      fountain_decoder_result_message_len
  outcome-Right d none e r c = cc
  outcome-Right d (some x) e r c = (cc, cc, cc)

  -- Let the message be partitioned into fragments that join_fragments puts together again, the allocator
  -- serve every array of indexes, and a block of the message's length have that many bytes. Whatever
  -- parts of this message a new decoder received, in any order, missing or repeated: if it is complete,
  -- it is a success, and its result is the message.
  pub Fed-fountain_decoder_result_message :
      (d : Decoder)
      → Fed m message len frags d
      → fountain_decoder_is_complete d ≡ true
      → (fountain_decoder_is_success d ≡ true)
        × (fountain_decoder_result_message d ≡ some message)
        × (fountain_decoder_result_message_len d ≡ length message)
  Fed-fountain_decoder_result_message d h c =
      outcome-Right d d.outcome refl (Fed-IsDecoding d h).right c
