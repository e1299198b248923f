-- ===== src/Audio/Processing/Safe.antt =====
-- What a block does to the worker: no panic, and every sample is kept or missed openly.
use mathlib.Core.Path.{subst}
use speakeasy_granite_rust_m.Base.{
  ℕ, ◌+◌, ◌≡◌, Bool, true, false, Option, none, some, List, ◌++◌, ltb, if◌then◌else◌, length, take,
  arith, refl, sym, ap, ◌∙◌, Bool-cases, inl, inr, length-append, length-take,
}
use speakeasy_granite_rust_m.Audio.Ring.{Ring, AudioChunkMetadata}
use speakeasy_granite_rust_m.Audio.Ring.System.{Popped}
use speakeasy_granite_rust_m.Audio.Processing.Buffers.{
  ProcessedSampleMetadata, TimedRingBuffer, TimedUtteranceBuffer, append_block, utterance_samples,
  sample_metadata,
}
use speakeasy_granite_rust_m.Audio.Processing.Retain.{Keeps, stamped}
use speakeasy_granite_rust_m.Audio.Processing.Collect.{Appends, append_block-Appends}
use speakeasy_granite_rust_m.Audio.Processing.Next.{
  keep_appended, append_if_active, finish_block, after_push,
}
use speakeasy_granite_rust_m.Audio.Processing.Worker.{
  UtteranceIssues, has_issue, with_issues, AudioWorker,
}
use speakeasy_granite_rust_m.Audio.Processing.Working.{IsWorking, Advanced, BlockOk}

abbrev on_active : {A : Type 0} → Bool → A → A → A
on_active b x y = if b then x else y

module _ {F : Type 0} where
  append_if_active_off :
      (w : AudioWorker F) (output : List F) (source : AudioChunkMetadata)
      → w.utterance_active ≡ false
      → append_if_active w output source ≡ w
  unfolding append_if_active
  append_if_active_off w output source a =
      ap
        (λ b.
          on_active b
            (keep_appended w (
              append_block w.utterance output source w.next_output_sample_index
                w.config.target_sample_rate_hz))
            w)
        a

  append_if_active_on :
      (w : AudioWorker F) (output : List F) (source : AudioChunkMetadata)
      → w.utterance_active ≡ true
      → append_if_active w output source
        ≡ keep_appended w (
            append_block w.utterance output source w.next_output_sample_index
              w.config.target_sample_rate_hz)
  unfolding append_if_active
  append_if_active_on w output source a =
      ap
        (λ b.
          on_active b
            (keep_appended w (
              append_block w.utterance output source w.next_output_sample_index
                w.config.target_sample_rate_hz))
            w)
        a

-- The issues after a block that had samples for the utterance.
abbrev issues_after : ℕ → UtteranceIssues → UtteranceIssues → UtteranceIssues
issues_after rejected held limit = if ltb 0 rejected then with_issues held limit else held

issues_after_lem :
    (rejected : ℕ) (held limit : UtteranceIssues)
    → has_issue limit ≡ true
    → has_issue (issues_after rejected held limit) ≡ false
    → (has_issue held ≡ false) × (rejected ≡ 0)
issues_after_lem rejected held limit h k = ground arith

off_on : {b : Bool} → b ≡ false → b ≡ true → ⊥
off_on x y = cc

module _ {F : Type 0} (r : Ring F) where
  idle_lem :
      (w : AudioWorker F) (block : Popped F) (output : List F) (pre_roll : TimedRingBuffer F)
      (ms : List ProcessedSampleMetadata) (overwritten n : ℕ)
      → IsWorking r w
      → w.utterance_active ≡ false
      → Keeps w.pre_roll output ms (some (pre_roll, overwritten))
      → let v =
          finish_block
            (record w {
              pre_roll = pre_roll;
              counters = record w.counters { pre_roll_overwritten_frames = n };
            })
            block
            output in
        IsWorking r v × Advanced w 0 output v
  idle_lem w block output pre_roll ms overwritten n g a (round, l, h, m, c) = (
    record {
      policy_fits = g.policy_fits;
      same_channels = g.same_channels;
      mono_fits = g.mono_fits;
      resampler_valid = g.resampler_valid;
      resampled_fits = g.resampled_fits;
      pre_roll_round = round;
      utterance_sound = g.utterance_sound;
      limit_named = g.limit_named;
      pre_roll_fits = omega (arith, g.pre_roll_fits);
    },
    record {
      same_activity = refl;
      same_pre_roll = l;
      same_utterance = refl;
      retained = h;
      collected = sym (
          ap
            (λ b.
              on_active b
                (take (length w.utterance.samples) (utterance_samples w.utterance ++ output))
                (utterance_samples w.utterance))
            a);
      no_new_issue = λ z. z;
      all_collected = λ z b. absurd (off_on a b);
      read_on = omega arith;
      counted = refl;
      same_overflows = refl;
    },
  )

  active_lem :
      (w : AudioWorker F) (block : Popped F) (output : List F) (pre_roll : TimedRingBuffer F)
      (ms ns : List ProcessedSampleMetadata) (overwritten n : ℕ)
      (z : TimedUtteranceBuffer F × ℕ × ℕ)
      → IsWorking r w
      → w.utterance_active ≡ true
      → Keeps w.pre_roll output ms (some (pre_roll, overwritten))
      → Appends w.utterance output ns z
      → let v =
          finish_block
            (keep_appended
              (record w {
                pre_roll = pre_roll;
                counters = record w.counters { pre_roll_overwritten_frames = n };
              })
              z)
            block
            output in
        IsWorking r v × Advanced w 0 output v
  active_lem w block output pre_roll ms ns overwritten n (q, accepted, rejected) g a
        (round, l, h, m, c) ((w1, l1, e1, f1, g1), c1, c2) =
      (
        record {
          policy_fits = g.policy_fits;
          same_channels = g.same_channels;
          mono_fits = g.mono_fits;
          resampler_valid = g.resampler_valid;
          resampled_fits = g.resampled_fits;
          pre_roll_round = round;
          utterance_sound = w1;
          limit_named = g.limit_named;
          pre_roll_fits = omega (arith, g.pre_roll_fits);
        },
        record {
          same_activity = refl;
          same_pre_roll = l;
          same_utterance = l1;
          retained = h;
          collected =
              e1
              ∙ sym (
                  ap
                    (λ b.
                      on_active b
                        (take (length w.utterance.samples)
                          (utterance_samples w.utterance ++ output))
                        (utterance_samples w.utterance))
                    a);
          no_new_issue = λ z.
              (issues_after_lem rejected w.utterance_issues w.utterance_limit_issues g.limit_named
                z).0;
          all_collected = λ z b.
              let k =
                (issues_after_lem rejected w.utterance_issues w.utterance_limit_issues g.limit_named
                  z).1 in
              omega (
                arith,
                length-append (utterance_samples w.utterance) output,
                length-take w.utterance.len w.utterance.samples,
                g.utterance_sound.within,
              );
          read_on = omega arith;
          counted = refl;
          same_overflows = refl;
        },
      )

  pub after_push_lem :
      (w : AudioWorker F) (block : Popped F) (source : AudioChunkMetadata) (output : List F)
      (ms : List ProcessedSampleMetadata) (o : Option (TimedRingBuffer F × ℕ))
      → IsWorking r w
      → Keeps w.pre_roll output ms o
      → BlockOk r w 0 (after_push w block source output o)
  after_push_lem w block source output ms none g k = k
  after_push_lem w block source output ms (some (pre_roll, overwritten)) g k =
      elim (Bool-cases w.utterance_active) [
        | inr a ↦
            subst
              (λ z.
                IsWorking r (finish_block z block output)
                × Advanced w 0 output (finish_block z block output))
              (sym (append_if_active_off pushed output source a))
              (idle_lem w block output pre_roll ms overwritten n g a k)
        | inl a ↦
            subst
              (λ z.
                IsWorking r (finish_block z block output)
                × Advanced w 0 output (finish_block z block output))
              (sym (append_if_active_on pushed output source a))
              (active_lem w block output pre_roll ms (stamped stamp 0 output) overwritten n
                (append_block w.utterance output source w.next_output_sample_index
                  w.config.target_sample_rate_hz)
                g a k
                (append_block-Appends w.utterance output source w.next_output_sample_index
                  w.config.target_sample_rate_hz g.utterance_sound))
      ]
    where
      n : ℕ
      n = w.counters.pre_roll_overwritten_frames + overwritten

      stamp : ℕ → ProcessedSampleMetadata
      stamp = sample_metadata source w.next_output_sample_index w.config.target_sample_rate_hz

      pushed : AudioWorker F
      pushed = record w {
        pre_roll = pre_roll;
        counters = record w.counters { pre_roll_overwritten_frames = n };
      }
