-- ===== src/Audio/Processing/Ends.antt =====
-- `begin_utterance`, `finish_utterance` and the rest that begins or ends an utterance.
use speakeasy_granite_rust_m.Base.{
  ℕ, ◌+◌, ◌-◌, true, false, not, Option, none, some, ltb, if◌then◌else◌, length, Result, ok, err,
  saturating_add64,
}
use speakeasy_granite_rust_m.Audio.Ring.{NativeSample}
use speakeasy_granite_rust_m.Audio.Ring.System.{System}
use speakeasy_granite_rust_m.Audio.Processing.{Floats}
use speakeasy_granite_rust_m.Audio.Processing.Buffers.{
  TimedUtteranceBuffer, copy_into, clear_buffer, utterance_samples,
}
use speakeasy_granite_rust_m.Audio.Processing.Worker.{
  UtteranceStateError, already_active, not_active, no_issues, with_issues, UtteranceCompletion,
  AudioWorker, the_overflow,
}
use speakeasy_granite_rust_m.Audio.Processing.Next.{drain}

module _ {F : Type 0} (floats : Floats F) where
  abbrev pub started_with :
      AudioWorker F → Option (TimedUtteranceBuffer F × ℕ) → Option (AudioWorker F)
  started_with w none = none
  started_with w (some (utterance, copied)) = some (record w {
    utterance = utterance;
    utterance_active = true;
    counters = record w.counters {
      utterances_started = w.counters.utterances_started + 1;
      utterance_frames_buffered = w.counters.utterance_frames_buffered + copied;
    };
  })

  abbrev pub begun : Option (AudioWorker F) → Option (Result UtteranceStateError (AudioWorker F))
  begun none = none
  begun (some w) = some (ok w)

  -- `begin_utterance`, with the overflows counted by the callback so far; `none` is a panic.
  unfoldable pub begin_utterance :
      AudioWorker F → ℕ → Option (Result UtteranceStateError (AudioWorker F))
  begin_utterance w queue_overflows =
      if w.utterance_active
      then some (err already_active)
      else begun (
          started_with
            (record w {
              utterance_issues = no_issues;
              callback_overflows_at_start = queue_overflows;
            })
            (copy_into w.pre_roll (clear_buffer floats.silence w.utterance)))

  -- `end_utterance` and `clear_utterance`.
  abbrev pub end_utterance : AudioWorker F → AudioWorker F
  end_utterance w = record w { utterance_active = false }

  abbrev pub clear_utterance : AudioWorker F → AudioWorker F
  clear_utterance w = record w {
    utterance_active = false;
    utterance = clear_buffer floats.silence w.utterance;
    utterance_issues = no_issues;
  }

  module _ {T : Type 0} (sample : NativeSample T F) where
    abbrev pub seal :
        ℕ → System T F × AudioWorker F → System T F × AudioWorker F × UtteranceCompletion
    seal blocks_before (q, v) =
        let drained = v.counters.blocks_processed - blocks_before in
        let issues =
          if ltb v.callback_overflows_at_start q.ring.counters.queue_overflows
          then with_issues v.utterance_issues the_overflow
          else v.utterance_issues in
        (
          q,
          record v {
            utterance_active = false;
            utterance_issues = issues;
            counters = record v.counters {
              final_drain_blocks = saturating_add64 v.counters.final_drain_blocks drained;
            };
          },
          record {
            frames_buffered = length (utterance_samples v.utterance);
            drained_blocks = drained;
            issues = issues;
          },
        )

    abbrev pub sealed :
        ℕ
        → Option (System T F × AudioWorker F)
        → Option (Result UtteranceStateError (System T F × AudioWorker F × UtteranceCompletion))
    sealed blocks_before none = none
    sealed blocks_before (some q) = some (ok (seal blocks_before q))

    -- `finish_utterance`; `none` is a panic, or the end of the fuel.
    unfoldable pub finish_utterance :
        ℕ
        → System T F
        → AudioWorker F
        → Option (Result UtteranceStateError (System T F × AudioWorker F × UtteranceCompletion))
    unfolding drain
    finish_utterance fuel s w =
        if not w.utterance_active
        then some (err not_active)
        else sealed w.counters.blocks_processed (drain floats sample fuel s w)
