-- ===== src/Audio/Processing/Build.antt =====
-- `build_audio_pipeline`: the checks of the configuration, and the ring and the worker that it gives.
-- The allocations are taken to succeed. The size of a sample's metadata is the compiler's, a parameter.
use speakeasy_granite_rust_m.Base.{
  ℕ, ◌+◌, ◌*◌, ◌/◌, min, false, not, ◌&&◌, ◌==◌, Option, none, some, replicate, ltb, leb,
  if◌then◌else◌, Result, ok, err, u64_max,
}
use speakeasy_granite_rust_m.Audio.Ring.{Ring, CapturedNativeBlock, new_ring, word}
use speakeasy_granite_rust_m.Audio.Ring.System.{System, started}
use speakeasy_granite_rust_m.Audio.Format.Downmix.{FormatError, validate}
use speakeasy_granite_rust_m.Audio.Processing.Resampler.{new_resampler}
use speakeasy_granite_rust_m.Audio.Processing.Bounds.{div_ceil, resampled_bound}
use speakeasy_granite_rust_m.Audio.Processing.Buffers.{new_timed_ring, new_utterance}
use speakeasy_granite_rust_m.Audio.Processing.Worker.{
  AudioPipelineConfig, AudioWorker, UtteranceIssues, no_issues, WorkerCounters,
}

pub data PipelineBuildError : Type 0 where
  invalid_channel_policy : FormatError → PipelineBuildError
  pre_roll_outside_contract : ℕ → PipelineBuildError
  capacity_overflow : PipelineBuildError
  utterance_cannot_hold_pre_roll : (required available : ℕ) → PipelineBuildError

abbrev pub u128_limit : ℕ
u128_limit = word * word

abbrev pub pre_roll_frames : AudioPipelineConfig → ℕ
pre_roll_frames c = div_ceil (c.target_sample_rate_hz * c.pre_roll_ms) 1000

abbrev pub duration_limit_frames : AudioPipelineConfig → ℕ
duration_limit_frames c = c.target_sample_rate_hz * c.max_utterance_ms / 1000

abbrev pub byte_limit_frames : ℕ → AudioPipelineConfig → ℕ
byte_limit_frames metadata_bytes c = c.max_buffered_bytes / (4 + metadata_bytes)

abbrev pub utterance_limit_frames : ℕ → AudioPipelineConfig → ℕ
utterance_limit_frames metadata_bytes c =
    min (min c.utterance_capacity_frames (duration_limit_frames c))
      (byte_limit_frames metadata_bytes c)

abbrev pub limit_issues : ℕ → AudioPipelineConfig → UtteranceIssues
limit_issues metadata_bytes c =
    let limit = utterance_limit_frames metadata_bytes c in
    record no_issues {
      duration_limit = limit == duration_limit_frames c;
      byte_limit = limit == byte_limit_frames metadata_bytes c;
      buffer_capacity = limit == c.utterance_capacity_frames;
    }

-- `max_resampled_frames`.
abbrev pub max_resampled_frames : ℕ → ℕ → ℕ → Result PipelineBuildError ℕ
max_resampled_frames input_frames source_rate target_rate =
    if leb u128_limit (input_frames * target_rate)
    then err capacity_overflow
    else if ltb u64_max (resampled_bound input_frames source_rate target_rate)
    then err capacity_overflow
    else ok (resampled_bound input_frames source_rate target_rate)

abbrev no_counters : WorkerCounters
no_counters = record {
  blocks_processed = 0;
  native_frames_processed = 0;
  resampled_frames_produced = 0;
  discontinuous_blocks = 0;
  resampler_resets = 0;
  pre_roll_overwritten_frames = 0;
  utterances_started = 0;
  utterance_frames_buffered = 0;
  utterance_frames_rejected = 0;
  utterance_limit_events = 0;
  final_drain_blocks = 0;
}

module _ {F : Type 0} (silence : F) where
  abbrev pub new_worker : ℕ → AudioPipelineConfig → ℕ → AudioWorker F
  new_worker metadata_bytes c resampled_capacity = record {
    mono_capacity = c.max_native_frames_per_block;
    resampled_capacity = resampled_capacity;
    config = c;
    resampler = new_resampler c.native.sample_rate_hz c.target_sample_rate_hz;
    next_output_sample_index = 0;
    pre_roll = new_timed_ring silence (pre_roll_frames c);
    utterance = new_utterance silence (utterance_limit_frames metadata_bytes c);
    utterance_active = false;
    utterance_issues = no_issues;
    utterance_limit_issues = limit_issues metadata_bytes c;
    callback_overflows_at_start = 0;
    counters = no_counters;
  }

  -- `CapturedNativeBlock::new`.
  abbrev pub new_block : ℕ → CapturedNativeBlock F
  new_block sample_capacity = record {
    samples = replicate sample_capacity silence;
    sample_len = 0;
    frames = 0;
    metadata = none;
  }

module _ {T F : Type 0} (silence : F) (metadata_bytes : ℕ) where
  abbrev pub with_ring :
      AudioPipelineConfig
      → ℕ
      → Option (Ring F)
      → Option (Result PipelineBuildError (System T F × AudioWorker F))
  with_ring c resampled_capacity none = none
  with_ring c resampled_capacity (some r) = some (
      ok (
        started r (new_block silence (c.max_native_frames_per_block * c.native.channels)),
        new_worker silence metadata_bytes c resampled_capacity,
      ))

  -- What follows `max_resampled_frames`.
  abbrev pub with_limits :
      AudioPipelineConfig
      → Result PipelineBuildError ℕ
      → Option (Result PipelineBuildError (System T F × AudioWorker F))
  with_limits c (err e) = some (err e)
  with_limits c (ok resampled_capacity) =
      if ltb u64_max (c.target_sample_rate_hz * c.max_utterance_ms)
      then some (err capacity_overflow)
      else if ltb u64_max (4 + metadata_bytes)
      then some (err capacity_overflow)
      else if ltb (utterance_limit_frames metadata_bytes c) (pre_roll_frames c)
      then some (
          err (
            utterance_cannot_hold_pre_roll (pre_roll_frames c)
              (utterance_limit_frames metadata_bytes c)))
      else with_ring c resampled_capacity (
          new_ring silence c.stream_id c.native c.callback_block_count
            c.max_native_frames_per_block)

  -- What follows the check of the channel policy.
  abbrev pub with_policy :
      AudioPipelineConfig
      → Result FormatError (Unit {0})
      → Option (Result PipelineBuildError (System T F × AudioWorker F))
  with_policy c (err e) = some (err (invalid_channel_policy e))
  with_policy c (ok _) =
      if not (leb 250 c.pre_roll_ms && leb c.pre_roll_ms 500)
      then some (err (pre_roll_outside_contract c.pre_roll_ms))
      else if ltb u64_max (c.max_native_frames_per_block * c.native.channels)
      then some (err capacity_overflow)
      else if ltb u64_max (c.target_sample_rate_hz * c.pre_roll_ms)
      then some (err capacity_overflow)
      else if ltb c.utterance_capacity_frames (pre_roll_frames c)
      then some
          (err (utterance_cannot_hold_pre_roll (pre_roll_frames c) c.utterance_capacity_frames))
      else with_limits c (
          max_resampled_frames c.max_native_frames_per_block c.native.sample_rate_hz
            c.target_sample_rate_hz)

  -- `build_audio_pipeline`; `none` is the panic of `Ring::new`.
  unfoldable pub build_audio_pipeline :
      AudioPipelineConfig → Option (Result PipelineBuildError (System T F × AudioWorker F))
  unfolding new_ring
  build_audio_pipeline c = with_policy c (validate c.channel_policy c.native.channels)
