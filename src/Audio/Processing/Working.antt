-- ===== src/Audio/Processing/Working.antt =====
-- The worker's invariant, and what a block changes.
use speakeasy_granite_rust_m.Base.{
  ℕ, ◌+◌, ◌≤◌, ◌≡◌, true, false, Option, none, some, List, ◌++◌, if◌then◌else◌, length, take, ok,
}
use speakeasy_granite_rust_m.Audio.Ring.{Ring}
use speakeasy_granite_rust_m.Audio.Format.Downmix.{validate}
use speakeasy_granite_rust_m.Audio.Processing.Bounds.{IsValid, resampled_bound}
use speakeasy_granite_rust_m.Audio.Processing.Buffers.{utterance_samples}
use speakeasy_granite_rust_m.Audio.Processing.Retain.{IsRound, keep_last, held_samples}
use speakeasy_granite_rust_m.Audio.Processing.Collect.{IsBuffer}
use speakeasy_granite_rust_m.Audio.Processing.Worker.{has_issue, AudioWorker, ProcessedAudioBlock}

-- The worker fits the ring: its buffers are large enough for every block.
pub record IsWorking {F : Type 0} (r : Ring F) (w : AudioWorker F) : Type 0 where
  pub policy_fits : validate w.config.channel_policy w.config.native.channels ≡ ok tt
  pub same_channels : w.config.native.channels ≡ r.native.channels
  pub mono_fits : r.frames_per_block ≤ w.mono_capacity
  pub resampler_valid : IsValid w.resampler
  pub resampled_fits :
      w.resampled_capacity
      ≡ resampled_bound r.frames_per_block w.resampler.source_rate w.resampler.target_rate
  pub pre_roll_round : IsRound w.pre_roll
  pub utterance_sound : IsBuffer w.utterance
  pub limit_named : has_issue w.utterance_limit_issues ≡ true
  pub pre_roll_fits : length w.pre_roll.samples ≤ length w.utterance.samples

-- After `n` frames of the device, that gave the samples `xs`.
pub record Advanced {F : Type 0} (w : AudioWorker F) (n : ℕ) (xs : List F) (v : AudioWorker F)
    : Type 0 where
  pub same_activity : v.utterance_active ≡ w.utterance_active
  pub same_pre_roll : length v.pre_roll.samples ≡ length w.pre_roll.samples
  pub same_utterance : length v.utterance.samples ≡ length w.utterance.samples
  pub retained :
      held_samples v.pre_roll
      ≡ keep_last (length w.pre_roll.samples) (held_samples w.pre_roll ++ xs)
  pub collected : utterance_samples v.utterance ≡ (
      if w.utterance_active
      then take (length w.utterance.samples) (utterance_samples w.utterance ++ xs)
      else utterance_samples w.utterance)
  pub no_new_issue : has_issue v.utterance_issues ≡ false → has_issue w.utterance_issues ≡ false
  pub all_collected :
      has_issue v.utterance_issues ≡ false
      → w.utterance_active ≡ true
      → length (utterance_samples w.utterance ++ xs) ≤ length w.utterance.samples
  pub read_on : v.resampler.total_input_frames ≤ w.resampler.total_input_frames + n
  pub counted : v.counters.blocks_processed ≡ w.counters.blocks_processed + 1
  pub same_overflows : v.callback_overflows_at_start ≡ w.callback_overflows_at_start

abbrev pub BlockOk :
    {F : Type 0}
    → Ring F
    → AudioWorker F
    → ℕ
    → Option (AudioWorker F × ProcessedAudioBlock F)
    → Type 0
BlockOk r w n none = ⊥
BlockOk r w n (some (v, b)) = IsWorking r v × Advanced w n b.samples v
