-- ===== src/Audio/Processing.antt =====
-- crates/speakeasy-audio/src/processing.rs: the worker behind the capture ring, which mixes a block
-- down to one channel, resamples it, keeps the last samples as pre-roll and collects an utterance.
-- An f32 is an `F`, and what is computed with it is a parameter.
use speakeasy_granite_rust_m.Base.{ℕ, List}
pub mod Resampler
pub mod Bounds
pub mod Buffers
pub mod Retain
pub mod Worker
pub mod Next
pub mod Ends
pub mod Build
pub mod Sound
pub mod Collect
pub mod Copy
pub mod Blocks
pub mod Working
pub mod Safe
pub mod Through
pub mod Noted
pub mod Runs
pub mod Turns
pub mod Utterance
pub mod Recording

-- The arithmetic of floats: 0.0, a point between two samples at a fraction, and the mean of a frame.
pub record Floats (F : Type 0) : Type 0 where
  pub silence : F
  pub between : F → F → ℕ → ℕ → F
  pub mean : List F → F
