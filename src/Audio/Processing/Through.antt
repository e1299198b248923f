-- ===== src/Audio/Processing/Through.antt =====
-- A block from the mix on, through the resampler, to the pre-roll and the utterance.
use mathlib.Core.Path.{subst}
use speakeasy_granite_rust_m.Base.{
  ℕ, ◌+◌, ◌*◌, ◌≤◌, ◌<◌, ◌≡◌, Option, none, some, List, [], arith, sym, ap, ◌∙◌, u64_max,
}
use speakeasy_granite_rust_m.Audio.Ring.{Ring, AudioChunkMetadata}
use speakeasy_granite_rust_m.Audio.Ring.System.{Popped}
use speakeasy_granite_rust_m.Audio.Format.Downmix.{downmix_into, downmix_into_lem}
use speakeasy_granite_rust_m.Audio.Processing.{Floats}
use speakeasy_granite_rust_m.Audio.Processing.Resampler.{StreamingLinearResampler, process_into}
use speakeasy_granite_rust_m.Audio.Processing.Bounds.{
  ProcessOk, resampled_bound, process_into-IsValid,
}
use speakeasy_granite_rust_m.Audio.Processing.Buffers.{push_block, sample_metadata}
use speakeasy_granite_rust_m.Audio.Processing.Retain.{push_block-Keeps, stamped}
use speakeasy_granite_rust_m.Audio.Processing.Blocks.{IsFull}
use speakeasy_granite_rust_m.Audio.Processing.Next.{after_resample, after_downmix}
use speakeasy_granite_rust_m.Audio.Processing.Worker.{AudioWorker, ProcessedAudioBlock}
use speakeasy_granite_rust_m.Audio.Processing.Working.{IsWorking, BlockOk}
use speakeasy_granite_rust_m.Audio.Processing.Safe.{after_push_lem}

module _ {F : Type 0} (r : Ring F) where
  -- The resampler is another one, with as many samples more.
  Advanced-resampled :
      (w : AudioWorker F) (z : StreamingLinearResampler F) (n : ℕ)
      (o : Option (AudioWorker F × ProcessedAudioBlock F))
      → z.total_input_frames ≡ w.resampler.total_input_frames + n
      → BlockOk r (record w { resampler = z }) 0 o
      → BlockOk r w n o
  Advanced-resampled w z n none e h = h
  Advanced-resampled w z n (some (v, b)) e (g, a) = (
    g,
    record {
      same_activity = a.same_activity;
      same_pre_roll = a.same_pre_roll;
      same_utterance = a.same_utterance;
      retained = a.retained;
      collected = a.collected;
      no_new_issue = a.no_new_issue;
      all_collected = a.all_collected;
      read_on = omega (arith, a.read_on);
      counted = a.counted;
      same_overflows = a.same_overflows;
    },
  )

  after_resample_lem :
      (floats : Floats F) (w : AudioWorker F) (block : Popped F) (source : AudioChunkMetadata)
      (n : ℕ) (o : Option (List F × StreamingLinearResampler F))
      → IsWorking r w
      → ProcessOk floats w.resampler n w.resampled_capacity o
      → BlockOk r w n (after_resample w block source o)
  after_resample_lem floats w block source n none g h = h
  after_resample_lem floats w block source n (some (output, z)) g (v, l, e, f, k) =
      let x = record w { resampler = z } in
      let i : IsWorking r x = record {
        policy_fits = g.policy_fits;
        same_channels = g.same_channels;
        mono_fits = g.mono_fits;
        resampler_valid = v;
        resampled_fits =
            g.resampled_fits
            ∙ ap (λ j. resampled_bound r.frames_per_block j w.resampler.target_rate) (sym f)
            ∙ ap (resampled_bound r.frames_per_block z.source_rate) (sym k);
        pre_roll_round = g.pre_roll_round;
        utterance_sound = g.utterance_sound;
        limit_named = g.limit_named;
        pre_roll_fits = g.pre_roll_fits;
      } in
      Advanced-resampled w z n (after_resample w block source (some (output, z))) e (
        after_push_lem r x block source output
          (stamped
            (sample_metadata source w.next_output_sample_index w.config.target_sample_rate_hz) 0
            output)
          (push_block w.pre_roll output source w.next_output_sample_index
            w.config.target_sample_rate_hz)
          i
          (push_block-Keeps w.pre_roll output source w.next_output_sample_index
            w.config.target_sample_rate_hz g.pre_roll_round))

  -- From the samples of a full block on.
  pub from_downmix :
      (floats : Floats F) (w : AudioWorker F) (block : Popped F) (source : AudioChunkMetadata)
      → IsWorking r w
      → IsFull r block
      → 0 < r.native.channels
      → w.resampler.total_input_frames + block.frames ≤ u64_max
      → BlockOk r w block.frames (
          after_downmix floats w block source (
            downmix_into floats.mean block.samples w.config.native.channels w.config.channel_policy
              w.mono_capacity))
  from_downmix floats w block source g (e, l, m) c b =
      let (mono, q, k) =
        downmix_into_lem floats.mean w.config.channel_policy w.config.native.channels block.frames
          w.mono_capacity block.samples g.policy_fits (omega (arith, g.same_channels))
          (e ∙ ap (λ j. block.frames * j) (sym g.same_channels)) (omega (arith, g.mono_fits)) in
      let p =
        process_into-IsValid floats w.resampler r.frames_per_block mono g.resampler_valid
          (omega arith) (omega arith) in
      let p' : ProcessOk floats w.resampler block.frames w.resampled_capacity
          (process_into floats w.resampler w.resampled_capacity [] mono) =
        subst
          (λ j.
            ProcessOk floats w.resampler block.frames j (process_into floats w.resampler j [] mono))
          (sym g.resampled_fits)
          (subst
            (λ j.
              ProcessOk floats w.resampler j
                (resampled_bound r.frames_per_block w.resampler.source_rate w.resampler.target_rate)
                (process_into floats w.resampler
                  (resampled_bound r.frames_per_block w.resampler.source_rate
                    w.resampler.target_rate)
                  [] mono))
            k p) in
      subst (λ o. BlockOk r w block.frames (after_downmix floats w block source o)) (sym q)
        (after_resample_lem floats w block source block.frames
          (process_into floats w.resampler w.resampled_capacity [] mono) g p')
