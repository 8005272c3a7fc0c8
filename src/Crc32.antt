-- ===== src/Crc32.antt =====
-- src/crc32.c, the portable build with the table of sixteen entries.
pub mod Laws
pub mod Bitwise
mod Tests
use c_ur.Base.{ℕ, ◌-◌, ◌/◌, ◌^◌, bit_and, bit_xor, List, [], ◌∷◌, get_or}

-- crc32_table
abbrev pub crc32_table : List ℕ
crc32_table =
    0x00000000 ∷ 0x1db71064 ∷ 0x3b6e20c8 ∷ 0x26d930ac ∷ 0x76dc4190 ∷ 0x6b6b51f4 ∷ 0x4db26158
    ∷ 0x5005713c ∷ 0xedb88320 ∷ 0xf00f9344 ∷ 0xd6d6a3e8 ∷ 0xcb61b38c ∷ 0x9b64c2b0 ∷ 0x86d3d2d4
    ∷ 0xa00ae278 ∷ 0xbdbdf21c ∷ []

-- One lookup: (crc >> 4) ^ crc32_table[(crc ^ nibble) & 0x0F]
unfoldable pub crc32_nibble : ℕ → ℕ → ℕ
crc32_nibble crc nibble =
    bit_xor (crc / 2 ^ 4) (get_or crc32_table (bit_and (bit_xor crc nibble) 0x0f) 0)

-- The body of the loop: the low half of the byte, then the high half.
unfoldable pub crc32_byte : ℕ → ℕ → ℕ
unfolding crc32_nibble
crc32_byte crc byte = crc32_nibble (crc32_nibble crc byte) (byte / 2 ^ 4)

unfoldable pub crc32_loop : ℕ → List ℕ → ℕ
crc32_loop crc [] = crc
crc32_loop crc (byte ∷ bytes) = crc32_loop (crc32_byte crc byte) bytes

-- `~crc` on 32 bits is 2 ^ 32 - 1 - crc.
unfoldable pub crc32_calculate : List ℕ → ℕ
crc32_calculate [] = 0
crc32_calculate (byte ∷ bytes) = 2 ^ 32 - 1 - crc32_loop 0xffffffff (byte ∷ bytes)
