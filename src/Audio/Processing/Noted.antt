-- ===== src/Audio/Processing/Noted.antt =====
-- A block from its metadata on, and the step of the worker that takes it.
use mathlib.Core.Path.{subst}
use speakeasy_granite_rust_m.Base.{
  ℕ, ◌+◌, ◌≤◌, ◌<◌, ◌≡◌, Bool, true, false, Option, none, some, if◌then◌else◌, arith, refl, sym, ap,
  Bool-cases, inl, inr, u64_max,
}
use speakeasy_granite_rust_m.Audio.Ring.{Ring, AudioChunkMetadata}
use speakeasy_granite_rust_m.Audio.Ring.System.{Popped}
use speakeasy_granite_rust_m.Audio.Format.Downmix.{downmix_into}
use speakeasy_granite_rust_m.Audio.Processing.{Floats}
use speakeasy_granite_rust_m.Audio.Processing.Resampler.{reset_resampler}
use speakeasy_granite_rust_m.Audio.Processing.Blocks.{IsFull, HasMetadata}
use speakeasy_granite_rust_m.Audio.Processing.Next.{after_downmix, process_with, process_block}
use speakeasy_granite_rust_m.Audio.Processing.Worker.{
  UtteranceIssues, has_issue, with_issues, the_discontinuity, AudioWorker, ProcessedAudioBlock,
  is_discontinuous,
}
use speakeasy_granite_rust_m.Audio.Processing.Working.{IsWorking, BlockOk}
use speakeasy_granite_rust_m.Audio.Processing.Through.{from_downmix}

noted_issue :
    (active : Bool) (held : UtteranceIssues)
    → has_issue (if active then with_issues held the_discontinuity else held) ≡ false
    → has_issue held ≡ false
noted_issue true held h = ground arith
noted_issue false held h = h

module _ {F : Type 0} where
  -- The worker after a block that follows a gap is noted.
  abbrev noted : AudioWorker F → AudioWorker F
  noted w = record w {
    resampler = reset_resampler w.resampler;
    utterance_issues =
        if w.utterance_active
        then with_issues w.utterance_issues the_discontinuity
        else w.utterance_issues;
    counters = record w.counters {
      discontinuous_blocks = w.counters.discontinuous_blocks + 1;
      resampler_resets = w.counters.resampler_resets + 1;
    };
  }

  noted-IsWorking : (r : Ring F) (w : AudioWorker F) → IsWorking r w → IsWorking r (noted w)
  noted-IsWorking r w g = record {
    policy_fits = g.policy_fits;
    same_channels = g.same_channels;
    mono_fits = g.mono_fits;
    resampler_valid = record {
      has_source = g.resampler_valid.has_source;
      has_target = g.resampler_valid.has_target;
      placed = (refl, refl);
    };
    resampled_fits = g.resampled_fits;
    pre_roll_round = g.pre_roll_round;
    utterance_sound = g.utterance_sound;
    limit_named = g.limit_named;
    pre_roll_fits = g.pre_roll_fits;
  }

  BlockOk-noted :
      (r : Ring F) (w : AudioWorker F) (n : ℕ) (o : Option (AudioWorker F × ProcessedAudioBlock F))
      → BlockOk r (noted w) n o
      → BlockOk r w n o
  BlockOk-noted r w n none h = h
  BlockOk-noted r w n (some (v, b)) (g, a) = (
    g,
    record {
      same_activity = a.same_activity;
      same_pre_roll = a.same_pre_roll;
      same_utterance = a.same_utterance;
      retained = a.retained;
      collected = a.collected;
      no_new_issue = λ z. noted_issue w.utterance_active w.utterance_issues (a.no_new_issue z);
      all_collected = a.all_collected;
      read_on = omega (arith, a.read_on);
      counted = a.counted;
      same_overflows = a.same_overflows;
    },
  )

  module _ (floats : Floats F) (r : Ring F) (w : AudioWorker F) (block : Popped F) where
    with_source_lem :
        (source : AudioChunkMetadata)
        → IsWorking r w
        → IsFull r block
        → 0 < r.native.channels
        → w.resampler.total_input_frames + block.frames ≤ u64_max
        → BlockOk r w block.frames (process_with floats w block (some source))
    with_source_lem source g f c b = elim (Bool-cases (is_discontinuous source.discontinuity)) [
      | inr a ↦
          subst (λ x. BlockOk r w block.frames (go x)) (sym (ap (λ t. if t then noted w else w) a))
            (from_downmix r floats w block source g f c b)
      | inl a ↦
          subst (λ x. BlockOk r w block.frames (go x)) (sym (ap (λ t. if t then noted w else w) a))
            (BlockOk-noted r w block.frames (go (noted w)) (
              from_downmix r floats (noted w) block source (noted-IsWorking r w g) f c
                (omega arith)))
    ]
      where
        go : AudioWorker F → Option (AudioWorker F × ProcessedAudioBlock F)
        go x = after_downmix floats x block source (
            downmix_into floats.mean block.samples x.config.native.channels x.config.channel_policy
              x.mono_capacity)

    process_with_lem :
        (o : Option AudioChunkMetadata)
        → HasMetadata o
        → IsWorking r w
        → IsFull r block
        → 0 < r.native.channels
        → w.resampler.total_input_frames + block.frames ≤ u64_max
        → BlockOk r w block.frames (process_with floats w block o)
    process_with_lem none m g f c b = m
    process_with_lem (some source) m g f c b = with_source_lem source g f c b

    -- A full block is processed with no panic.
    pub process_block-BlockOk :
        IsWorking r w
        → IsFull r block
        → 0 < r.native.channels
        → w.resampler.total_input_frames + block.frames ≤ u64_max
        → BlockOk r w block.frames (process_block floats w block)
    unfolding process_block
    process_block-BlockOk g (e, l, m) c b = process_with_lem block.metadata m g (e, l, m) c b
