-- ===== src/Audio/Ring.antt =====
-- crates/speakeasy-audio/src/callback.rs: the ring of blocks between the capture callback and its
-- consumer. The callback writes a block, and publishes it, in one step of `write_block`, between
-- whose steps the consumer may run; a step of either sees the cursor that the other stored last.
-- Samples of the device are of a type `T`, and an f32 of the ring is an `F`.
use speakeasy_granite_rust_m.Base.{
  ℕ, ◌+◌, ◌-◌, ◌*◌, ◌/◌, ◌%◌, min, Bool, true, false, not, Option, none, some, List, [], ◌∷◌, map,
  ltb, leb, ◌++◌, ◌==◌, if◌then◌else◌, saturating_add64, u64_max, length, take, drop, get_elem?,
  set, replicate, ◌⊎◌, inl, inr,
}
use speakeasy_granite_rust_m.Audio.Discontinuity.{
  AudioDiscontinuity, no_discontinuity, sample_clock_gap, callback_queue_overflow, union,
}
pub mod Produce
pub mod Consume
pub mod System
pub mod Slots
pub mod Steps
pub mod Rounds
pub mod Refine
pub mod Conserve

abbrev pub word : ℕ
word = 18446744073709551616

-- `fetch_add` and `wrapping_add`.
abbrev pub wrapping_add : ℕ → ℕ → ℕ
wrapping_add a b = (a + b) % word

-- `wrapping_sub`, of numbers below `word`.
abbrev pub wrapping_sub : ℕ → ℕ → ℕ
wrapping_sub a b = (a + word - b) % word

pub data NativeSampleFormat : Type 0 where
  f32 i16 u16 : NativeSampleFormat

abbrev pub same_format : NativeSampleFormat → NativeSampleFormat → Bool
same_format f32 f32 = true
same_format i16 i16 = true
same_format u16 u16 = true
same_format _ _ = false

pub record NativeStreamConfig : Type 0 where
  pub sample_format : NativeSampleFormat
  pub sample_rate_hz : ℕ
  pub channels : ℕ

pub record ConvertedSample (F : Type 0) : Type 0 where
  pub value : F
  pub clipped : Bool
  pub non_finite : Bool

-- The trait, whose three conversions are arithmetic on floats.
pub record NativeSample (T F : Type 0) : Type 0 where
  pub format : NativeSampleFormat
  pub to_normalized_f32 : T → ConvertedSample F

pub record CallbackStamp : Type 0 where
  pub first_frame_index : ℕ
  pub capture_monotonic_ns : ℕ
  pub discontinuity : AudioDiscontinuity

pub data CallbackWriteStatus : Type 0 where
  complete queue_full invalid_interleaving unexpected_sample_format : CallbackWriteStatus

pub record CallbackWrite : Type 0 where
  pub accepted_frames : ℕ
  pub dropped_frames : ℕ
  pub status : CallbackWriteStatus

pub record CallbackCounters : Type 0 where
  pub callbacks : ℕ
  pub native_frames_received : ℕ
  pub blocks_enqueued : ℕ
  pub native_frames_enqueued : ℕ
  pub blocks_dropped : ℕ
  pub native_frames_dropped : ℕ
  pub malformed_callbacks : ℕ
  pub sample_format_mismatches : ℕ
  pub clipped_samples : ℕ
  pub non_finite_samples : ℕ
  pub sample_clock_gaps : ℕ
  pub queue_overflows : ℕ

abbrev pub default_counters : CallbackCounters
default_counters = record {
  callbacks = 0;
  native_frames_received = 0;
  blocks_enqueued = 0;
  native_frames_enqueued = 0;
  blocks_dropped = 0;
  native_frames_dropped = 0;
  malformed_callbacks = 0;
  sample_format_mismatches = 0;
  clipped_samples = 0;
  non_finite_samples = 0;
  sample_clock_gaps = 0;
  queue_overflows = 0;
}

pub record Slot (F : Type 0) : Type 0 where
  pub samples : List F
  pub frames : ℕ
  pub source_sequence : ℕ
  pub first_frame_index : ℕ
  pub capture_monotonic_ns : ℕ
  pub discontinuity : AudioDiscontinuity

pub record Ring (F : Type 0) : Type 0 where
  pub slots : List (Slot F)
  pub published_blocks : ℕ
  pub consumed_blocks : ℕ
  pub counters : CallbackCounters
  pub stream_id : ℕ
  pub native : NativeStreamConfig
  pub frames_per_block : ℕ

pub record CaptureCallback : Type 0 where
  pub write_cursor : ℕ
  pub source_sequence : ℕ
  pub expected_first_frame : Option ℕ
  pub pending_discontinuity : AudioDiscontinuity

abbrev pub new_callback : CaptureCallback
new_callback = record {
  write_cursor = 0;
  source_sequence = 0;
  expected_first_frame = none;
  pending_discontinuity = no_discontinuity;
}

-- What `write` holds between two rounds of its loop.
pub record Writing (T : Type 0) : Type 0 where
  pub source : List T
  pub stamp : CallbackStamp
  pub frame_count : ℕ
  pub accepted : ℕ
  pub discontinuity : AudioDiscontinuity

pub record AudioChunkMetadata : Type 0 where
  pub stream_id : ℕ
  pub source_sequence : ℕ
  pub sample_rate_hz : ℕ
  pub first_frame_index : ℕ
  pub capture_monotonic_ns : ℕ
  pub discontinuity : AudioDiscontinuity

-- The consumer's copy of a block: its samples are the first `sample_len`.
pub record CapturedNativeBlock (F : Type 0) : Type 0 where
  pub samples : List F
  pub sample_len : ℕ
  pub frames : ℕ
  pub metadata : Option AudioChunkMetadata

module _ {F : Type 0} (zero_float : F) where
  abbrev pub new_slot : ℕ → Slot F
  new_slot sample_capacity = record {
    samples = replicate sample_capacity zero_float;
    frames = 0;
    source_sequence = 0;
    first_frame_index = 0;
    capture_monotonic_ns = 0;
    discontinuity = no_discontinuity;
  }

  abbrev pub fresh_ring : ℕ → NativeStreamConfig → ℕ → ℕ → Ring F
  fresh_ring stream_id native block_count frames_per_block = record {
    slots = replicate block_count (new_slot (frames_per_block * native.channels));
    published_blocks = 0;
    consumed_blocks = 0;
    counters = default_counters;
    stream_id = stream_id;
    native = native;
    frames_per_block = frames_per_block;
  }

  -- `Ring::new`; `none` is its panic.
  unfoldable pub new_ring : ℕ → NativeStreamConfig → ℕ → ℕ → Option (Ring F)
  new_ring stream_id native block_count frames_per_block =
      if leb word (frames_per_block * native.channels)
      then none
      else some (fresh_ring stream_id native block_count frames_per_block)

-- `iter().zip(..)` with a store into the first: past the shorter one nothing changes.
abbrev pub store_over : {A : Type 0} → List A → List A → List A
store_over [] src = []
store_over (d ∷ ds) [] = d ∷ ds
store_over (d ∷ ds) (s ∷ ss) = s ∷ store_over ds ss
