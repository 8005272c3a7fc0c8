-- ===== src/Fountain/Decoder.antt =====
-- The fountain decoder of src/fountain_decoder.c: its state, the message put together from simple
-- parts, the queue worked off, and the parts that it receives.
pub mod State
pub mod Assembly
pub mod Process
pub mod Receive
pub mod Light
pub mod Termination
pub mod Sorting
pub mod Joined
pub mod Keeping
pub mod Correct
pub mod Work
pub mod Given
pub mod Fed
pub mod Tests
