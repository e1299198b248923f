-- ===== src/Audio/Processing/Worker.antt =====
-- The worker: `process_next` takes a block from the ring, and utterances begin and end between blocks.
-- Its consumer and the block that it copies into are those of the ring's `System`. A scratch buffer is
-- its number of places, since every call writes what it reads; a counter is an unbounded number.
use speakeasy_granite_rust_m.Base.{ℕ, Bool, true, false, ◌||◌, List}
use speakeasy_granite_rust_m.Audio.Discontinuity.{AudioDiscontinuity}
use speakeasy_granite_rust_m.Audio.Ring.{NativeStreamConfig, AudioChunkMetadata}
use speakeasy_granite_rust_m.Audio.Format.Downmix.{ChannelPolicy}
use speakeasy_granite_rust_m.Audio.Processing.Resampler.{StreamingLinearResampler}
use speakeasy_granite_rust_m.Audio.Processing.Buffers.{TimedRingBuffer, TimedUtteranceBuffer}

pub record AudioPipelineConfig : Type 0 where
  pub stream_id : ℕ
  pub native : NativeStreamConfig
  pub target_sample_rate_hz : ℕ
  pub channel_policy : ChannelPolicy
  pub callback_block_count : ℕ
  pub max_native_frames_per_block : ℕ
  pub pre_roll_ms : ℕ
  pub utterance_capacity_frames : ℕ
  pub max_utterance_ms : ℕ
  pub max_buffered_bytes : ℕ

pub data UtteranceStateError : Type 0 where
  already_active not_active : UtteranceStateError

-- The set of issues, a flag for each bit.
pub record UtteranceIssues : Type 0 where
  pub duration_limit : Bool
  pub byte_limit : Bool
  pub buffer_capacity : Bool
  pub callback_queue_overflow : Bool
  pub discontinuity : Bool

abbrev pub no_issues : UtteranceIssues
no_issues = record {
  duration_limit = false;
  byte_limit = false;
  buffer_capacity = false;
  callback_queue_overflow = false;
  discontinuity = false;
}

abbrev pub has_issue : UtteranceIssues → Bool
has_issue i =
    i.duration_limit || i.byte_limit || i.buffer_capacity || i.callback_queue_overflow
    || i.discontinuity

-- `insert`.
abbrev pub with_issues : UtteranceIssues → UtteranceIssues → UtteranceIssues
with_issues a b = record {
  duration_limit = a.duration_limit || b.duration_limit;
  byte_limit = a.byte_limit || b.byte_limit;
  buffer_capacity = a.buffer_capacity || b.buffer_capacity;
  callback_queue_overflow = a.callback_queue_overflow || b.callback_queue_overflow;
  discontinuity = a.discontinuity || b.discontinuity;
}

pub record UtteranceCompletion : Type 0 where
  pub frames_buffered : ℕ
  pub drained_blocks : ℕ
  pub issues : UtteranceIssues

pub record WorkerCounters : Type 0 where
  pub blocks_processed : ℕ
  pub native_frames_processed : ℕ
  pub resampled_frames_produced : ℕ
  pub discontinuous_blocks : ℕ
  pub resampler_resets : ℕ
  pub pre_roll_overwritten_frames : ℕ
  pub utterances_started : ℕ
  pub utterance_frames_buffered : ℕ
  pub utterance_frames_rejected : ℕ
  pub utterance_limit_events : ℕ
  pub final_drain_blocks : ℕ

pub record AudioWorker (F : Type 0) : Type 0 where
  pub mono_capacity : ℕ
  pub resampled_capacity : ℕ
  pub config : AudioPipelineConfig
  pub resampler : StreamingLinearResampler F
  pub next_output_sample_index : ℕ
  pub pre_roll : TimedRingBuffer F
  pub utterance : TimedUtteranceBuffer F
  pub utterance_active : Bool
  pub utterance_issues : UtteranceIssues
  pub utterance_limit_issues : UtteranceIssues
  pub callback_overflows_at_start : ℕ
  pub counters : WorkerCounters

pub record ProcessedAudioBlock (F : Type 0) : Type 0 where
  pub source : AudioChunkMetadata
  pub first_output_sample_index : ℕ
  pub sample_rate_hz : ℕ
  pub samples : List F

abbrev pub is_discontinuous : AudioDiscontinuity → Bool
is_discontinuous d = d.has_device_report || d.has_clock_gap || d.has_overflow

abbrev pub the_discontinuity : UtteranceIssues
the_discontinuity = record no_issues { discontinuity = true }

abbrev pub the_overflow : UtteranceIssues
the_overflow = record no_issues { callback_queue_overflow = true }
