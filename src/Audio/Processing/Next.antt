-- ===== src/Audio/Processing/Next.antt =====
-- `process_next`: a block of the ring through the worker. `none` is a panic.
use speakeasy_granite_rust_m.Base.{
  ℕ, zero, suc, ◌+◌, Option, none, some, List, [], ltb, if◌then◌else◌, length, Result, ok,
  saturating_add64,
}
use speakeasy_granite_rust_m.Audio.Ring.{NativeSample, AudioChunkMetadata}
use speakeasy_granite_rust_m.Audio.Ring.System.{
  System, Event, wrote, popped, nothing, Popped, pops, step,
}
use speakeasy_granite_rust_m.Audio.Format.Downmix.{FormatError, downmix_into}
use speakeasy_granite_rust_m.Audio.Processing.{Floats}
use speakeasy_granite_rust_m.Audio.Processing.Resampler.{
  StreamingLinearResampler, reset_resampler, process_into,
}
use speakeasy_granite_rust_m.Audio.Processing.Buffers.{
  TimedRingBuffer, TimedUtteranceBuffer, push_block, append_block,
}
use speakeasy_granite_rust_m.Audio.Processing.Worker.{
  has_issue, with_issues, AudioWorker, ProcessedAudioBlock, is_discontinuous, the_discontinuity,
}

module _ {F : Type 0} where
  -- A block after a gap starts the resampler anew.
  abbrev pub note_discontinuity : AudioWorker F → AudioChunkMetadata → AudioWorker F
  note_discontinuity w source =
      if is_discontinuous source.discontinuity
      then record w {
        resampler = reset_resampler w.resampler;
        utterance_issues =
            if w.utterance_active
            then with_issues w.utterance_issues the_discontinuity
            else w.utterance_issues;
        counters = record w.counters {
          discontinuous_blocks = w.counters.discontinuous_blocks + 1;
          resampler_resets = w.counters.resampler_resets + 1;
        };
      }
      else w

  -- The samples rejected are those past the limit, which is then an issue.
  abbrev pub keep_appended : AudioWorker F → TimedUtteranceBuffer F × ℕ × ℕ → AudioWorker F
  keep_appended w (utterance, accepted, rejected) = record w {
    utterance = utterance;
    utterance_issues =
        if ltb 0 rejected
        then with_issues w.utterance_issues w.utterance_limit_issues
        else w.utterance_issues;
    counters = record w.counters {
      utterance_frames_buffered = w.counters.utterance_frames_buffered + accepted;
      utterance_frames_rejected = w.counters.utterance_frames_rejected + rejected;
      utterance_limit_events =
          if ltb 0 rejected
          then (if has_issue w.utterance_issues
              then w.counters.utterance_limit_events
              else w.counters.utterance_limit_events + 1)
          else w.counters.utterance_limit_events;
    };
  }

  unfoldable pub append_if_active : AudioWorker F → List F → AudioChunkMetadata → AudioWorker F
  append_if_active w output source =
      if w.utterance_active
      then keep_appended w (
          append_block w.utterance output source w.next_output_sample_index
            w.config.target_sample_rate_hz)
      else w

  abbrev pub finish_block : AudioWorker F → Popped F → List F → AudioWorker F
  finish_block w block output = record w {
    next_output_sample_index = saturating_add64 w.next_output_sample_index (length output);
    counters = record w.counters {
      blocks_processed = w.counters.blocks_processed + 1;
      native_frames_processed = w.counters.native_frames_processed + block.frames;
      resampled_frames_produced = w.counters.resampled_frames_produced + length output;
    };
  }

  abbrev pub the_block : AudioWorker F → AudioChunkMetadata → List F → ProcessedAudioBlock F
  the_block w source output = record {
    source = source;
    first_output_sample_index = w.next_output_sample_index;
    sample_rate_hz = w.config.target_sample_rate_hz;
    samples = output;
  }

  abbrev pub after_push :
      AudioWorker F
      → Popped F
      → AudioChunkMetadata
      → List F
      → Option (TimedRingBuffer F × ℕ)
      → Option (AudioWorker F × ProcessedAudioBlock F)
  after_push w block source output none = none
  after_push w block source output (some (pre_roll, overwritten)) =
      let pushed = record w {
        pre_roll = pre_roll;
        counters = record w.counters {
          pre_roll_overwritten_frames = w.counters.pre_roll_overwritten_frames + overwritten;
        };
      } in
      some (
        finish_block (append_if_active pushed output source) block output,
        the_block w source output,
      )

  abbrev pub after_resample :
      AudioWorker F
      → Popped F
      → AudioChunkMetadata
      → Option (List F × StreamingLinearResampler F)
      → Option (AudioWorker F × ProcessedAudioBlock F)
  after_resample w block source none = none
  after_resample w block source (some (output, resampler)) =
      after_push (record w { resampler = resampler }) block source output
        (push_block w.pre_roll output source w.next_output_sample_index
          w.config.target_sample_rate_hz)

module _ {F : Type 0} (floats : Floats F) where
  abbrev pub after_downmix :
      AudioWorker F
      → Popped F
      → AudioChunkMetadata
      → Option (Result FormatError (List F))
      → Option (AudioWorker F × ProcessedAudioBlock F)
  after_downmix w block source (some (ok mono)) =
      after_resample w block source (process_into floats w.resampler w.resampled_capacity [] mono)
  after_downmix w block source _ = none

  abbrev pub process_with :
      AudioWorker F
      → Popped F
      → Option AudioChunkMetadata
      → Option (AudioWorker F × ProcessedAudioBlock F)
  process_with w block none = none
  process_with w block (some source) =
      let noted = note_discontinuity w source in
      after_downmix noted block source (
        downmix_into floats.mean block.samples noted.config.native.channels
          noted.config.channel_policy noted.mono_capacity)

  -- What `process_next` does with a block; `none` is a panic.
  unfoldable pub process_block :
      AudioWorker F → Popped F → Option (AudioWorker F × ProcessedAudioBlock F)
  process_block w block = process_with w block block.metadata

  module _ {T : Type 0} (sample : NativeSample T F) where
    abbrev pub with_system :
        System T F
        → Option (AudioWorker F × ProcessedAudioBlock F)
        → Option (System T F × AudioWorker F × Option (ProcessedAudioBlock F))
    with_system q none = none
    with_system q (some (w, block)) = some (q, w, some block)

    abbrev pub process_event :
        AudioWorker F
        → Option (System T F × Event F)
        → Option (System T F × AudioWorker F × Option (ProcessedAudioBlock F))
    process_event w none = none
    process_event w (some (q, popped block)) = with_system q (process_block w block)
    process_event w (some (q, wrote result)) = some (q, w, none)
    process_event w (some (q, nothing)) = some (q, w, none)

    -- `process_next`.
    unfoldable pub process_next :
        System T F
        → AudioWorker F
        → Option (System T F × AudioWorker F × Option (ProcessedAudioBlock F))
    unfolding process_block
    process_next s w = process_event w (step sample s pops)

    -- `while self.process_next().is_some() {}`, with fuel; no callback runs meanwhile.
    unfoldable pub drain : ℕ → System T F → AudioWorker F → Option (System T F × AudioWorker F)
    unfolding process_next
    drain zero s w = none
    drain (suc fuel) s w = elim (process_next s w) [
      | none ↦ none
      | some (q, v, none) ↦ some (q, v)
      | some (q, v, some block) ↦ drain fuel q v
    ]
