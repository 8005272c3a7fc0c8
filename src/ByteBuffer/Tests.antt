-- ===== src/ByteBuffer/Tests.antt =====
-- Runs of the byte buffer, and its theorems at concrete inputs.
use c_ur.Base.{ℕ, ◌+◌, ◌≤◌, ◌↔◌, Bool, true, false, [], ◌∷◌, ◌≡◌, refl, arith}
use c_ur.Base.{if◌then◌else◌, ltb}
use c_ur.ByteBuffer.{ByteBuffer, IsValid, byte_buffer_append, grow, max_capacity}
use c_ur.ByteBuffer.Laws.{byte_buffer_append-IsValid, byte_buffer_append_iff}

abbrev two_bytes : ByteBuffer
two_bytes = record { contents = 1 ∷ 2 ∷ []; capacity = 2 }

abbrev serves_little : ℕ → Bool
serves_little n = ltb n 4

append_grows :
    byte_buffer_append (λ n. true) two_bytes (3 ∷ 4 ∷ 5 ∷ [])
    ≡ (record { contents = 1 ∷ 2 ∷ 3 ∷ 4 ∷ 5 ∷ []; capacity = 8 }, true)
unfolding byte_buffer_append grow
append_grows = refl

append_refused : byte_buffer_append serves_little two_bytes (3 ∷ []) ≡ (two_bytes, false)
unfolding byte_buffer_append grow
append_refused = refl

two_bytes-IsValid : IsValid two_bytes
two_bytes-IsValid = omega arith

byte_buffer_append-IsValid_example :
    IsValid (byte_buffer_append serves_little two_bytes (3 ∷ [])).0
    × ((byte_buffer_append serves_little two_bytes (3 ∷ [])).0.contents ≡ (
        if (byte_buffer_append serves_little two_bytes (3 ∷ [])).1
        then 1 ∷ 2 ∷ 3 ∷ []
        else 1 ∷ 2 ∷ []))
byte_buffer_append-IsValid_example =
    byte_buffer_append-IsValid serves_little two_bytes two_bytes-IsValid (3 ∷ [])

byte_buffer_append_iff_example :
    ((byte_buffer_append (λ n. true) two_bytes (3 ∷ [])).1 ≡ true) ↔ (2 + 1 ≤ max_capacity)
byte_buffer_append_iff_example =
    byte_buffer_append_iff (λ n. true) two_bytes two_bytes-IsValid (3 ∷ []) (λ n. refl)
