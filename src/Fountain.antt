-- ===== src/Fountain.antt =====
-- The fountain coder of src/fountain_encoder.c, fountain_utils.c and fountain_decoder.c.
pub mod Fragments
pub mod Indexes
pub mod HashSet
pub mod PartCbor
pub mod Prng
pub mod Xor
pub mod Parts
pub mod Queue
pub mod Mixed
pub mod Decoder
pub mod Encoder
pub mod Choose
pub mod Transfer
mod Tests
