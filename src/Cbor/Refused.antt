-- ===== src/Cbor/Refused.antt =====
-- Values that src/types/cbor_encoder.c writes and src/types/cbor_decoder.c does not read.
use c_ur.Base.{ℕ, zero, suc, ◌^◌, ◌≤◌, ◌≡◌, refl, ◌∙◌, Bool, List, [], ◌++◌, arith}
use c_ur.Base.{none}
use c_ur.ByteBuffer.{safe_malloc}
use c_ur.Cbor.Value.{unsigned_int, bytes}
use c_ur.Cbor.Decode.{read_argument, decode_bytes, decode_unsigned_int, decode_major, decode_level}
use c_ur.Cbor.Head.{additional, head_args, read_argument-head_args, decode_level-head}
use c_ur.Cbor.Spec.{encoding}
use c_ur.Cbor.RoundTrip.{decode_level-headed}

decode_bytes-zero :
    (alloc : ℕ → Bool) (rest : List ℕ)
    → decode_bytes alloc (additional 0) (head_args 0 ++ rest) ≡ none
unfolding decode_bytes safe_malloc
decode_bytes-zero alloc rest = rw (read_argument-head_args 0 rest (omega arith))

-- The empty byte string is encoded, and refused by the decoder at any depth, whatever follows it:
-- the allocation of its zero bytes counts as a failed one.
pub decode_level-empty_bytes :
    (alloc : ℕ → Bool) (levels : ℕ) (rest : List ℕ)
    → decode_level alloc levels (encoding (bytes []) ++ rest) ≡ none
unfolding encoding decode_major
decode_level-empty_bytes alloc zero rest = unfold decode_level in refl
decode_level-empty_bytes alloc (suc levels) rest =
    decode_level-headed alloc levels 2 0 [] rest (omega arith) ∙ decode_bytes-zero alloc rest

read_argument-wide :
    (n : ℕ) (input : List ℕ) → 2 ^ 32 ≤ n → read_argument (additional n) input ≡ none
unfolding read_argument
read_argument-wide n input h = ground arith

-- A number of more than 32 bits is encoded with eight bytes, and refused by the decoder.
pub decode_level-wide_int :
    (alloc : ℕ → Bool) (levels n : ℕ) (rest : List ℕ)
    → 2 ^ 32 ≤ n
    → decode_level alloc levels (encoding (unsigned_int n) ++ rest) ≡ none
unfolding encoding decode_major
decode_level-wide_int alloc zero n rest h = unfold decode_level in refl
decode_level-wide_int alloc (suc levels) n rest h =
    decode_level-head alloc levels 0 n rest (omega arith)
    ∙ unfold decode_unsigned_int in rw (read_argument-wide n (head_args n ++ rest) h)
