-- ===== src/Crc32/Tests.antt =====
-- The check value of CRC-32, and the theorem at a concrete input.
use c_ur.Base.{[], ◌∷◌, ◌≡◌, refl, arith}
use c_ur.Crc32.{crc32_calculate, crc32_loop, crc32_byte}
use c_ur.Crc32.Bitwise.{crc32_spec}
use c_ur.Crc32.Laws.{crc32_calculate-crc32_spec}

check_value : crc32_calculate (49 ∷ 50 ∷ 51 ∷ 52 ∷ 53 ∷ 54 ∷ 55 ∷ 56 ∷ 57 ∷ []) ≡ 0xcbf43926
unfolding crc32_calculate crc32_loop crc32_byte
check_value = refl

crc32_calculate-crc32_spec_example :
    crc32_calculate (255 ∷ 0 ∷ 7 ∷ []) ≡ crc32_spec (255 ∷ 0 ∷ 7 ∷ [])
crc32_calculate-crc32_spec_example = crc32_calculate-crc32_spec (255 ∷ 0 ∷ 7 ∷ []) (omega arith)
