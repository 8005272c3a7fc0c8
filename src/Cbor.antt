-- ===== src/Cbor.antt =====
-- The CBOR codec of src/types: values (cbor_data.c), encoder (cbor_encoder.c), decoder
-- (cbor_decoder.c).
pub mod Value
pub mod Encode
pub mod Decode
pub mod Head
pub mod Spec
pub mod Appends
pub mod RoundTrip
pub mod Argument
pub mod Payload
pub mod Containers
pub mod Loops
pub mod Sound
pub mod Maps
pub mod Refused
mod Tests
