-- ===== src/Audio/Processing/Runs.antt =====
-- The callback and the worker, a step of either at a time.
use speakeasy_granite_rust_m.Base.{
  ℕ, ◌+◌, ◌≤◌, ◌≡◌, true, false, Option, none, some, List, [], ◌++◌, if◌then◌else◌, length, take,
  arith, refl, sym, ap, ◌∙◌, u64_max, append_assoc, append-nil,
}
use speakeasy_granite_rust_m.Audio.Ring.{NativeSample, Ring}
use speakeasy_granite_rust_m.Audio.Ring.System.{
  System, pops, Event, wrote, popped, nothing, Popped, step,
}
use speakeasy_granite_rust_m.Audio.Ring.Steps.{Inv, held}
use speakeasy_granite_rust_m.Audio.Ring.Rounds.{length-held}
use speakeasy_granite_rust_m.Audio.Processing.{Floats}
use speakeasy_granite_rust_m.Audio.Processing.Bounds.{resampled_bound}
use speakeasy_granite_rust_m.Audio.Processing.Buffers.{utterance_samples}
use speakeasy_granite_rust_m.Audio.Processing.Retain.{
  keep_last, keep_last-append, held_samples, take-short, take-take_append, keep_all,
}
use speakeasy_granite_rust_m.Audio.Processing.Collect.{Collects-nil}
use speakeasy_granite_rust_m.Audio.Processing.Blocks.{GivesFull, pops-GivesFull}
use speakeasy_granite_rust_m.Audio.Processing.Working.{IsWorking, Advanced, BlockOk}
use speakeasy_granite_rust_m.Audio.Processing.Noted.{process_block-BlockOk}
use speakeasy_granite_rust_m.Audio.Processing.Next.{
  with_system, process_event, process_block, process_next,
}
use speakeasy_granite_rust_m.Audio.Processing.Worker.{has_issue, AudioWorker, ProcessedAudioBlock}

-- What the worker has after the samples `xs`: the last ones as pre-roll, the first ones in the
-- utterance that is on, and with no issue all of them there.
pub record Grown {F : Type 0} (w : AudioWorker F) (xs : List F) (v : AudioWorker F) : Type 0 where
  pub same_activity : v.utterance_active ≡ w.utterance_active
  pub same_pre_roll : length v.pre_roll.samples ≡ length w.pre_roll.samples
  pub same_utterance : length v.utterance.samples ≡ length w.utterance.samples
  pub retained :
      held_samples v.pre_roll
      ≡ keep_last (length w.pre_roll.samples) (held_samples w.pre_roll ++ xs)
  pub collected :
      w.utterance_active ≡ true
      → utterance_samples v.utterance
        ≡ take (length w.utterance.samples) (utterance_samples w.utterance ++ xs)
  pub no_new_issue : has_issue v.utterance_issues ≡ false → has_issue w.utterance_issues ≡ false
  pub all_collected :
      has_issue v.utterance_issues ≡ false
      → w.utterance_active ≡ true
      → utterance_samples v.utterance ≡ utterance_samples w.utterance ++ xs

module _ {F : Type 0} where
  Advanced-Grown : (w v : AudioWorker F) (n : ℕ) (xs : List F) → Advanced w n xs v → Grown w xs v
  Advanced-Grown w v n xs a = record {
    same_activity = a.same_activity;
    same_pre_roll = a.same_pre_roll;
    same_utterance = a.same_utterance;
    retained = a.retained;
    collected = collected;
    no_new_issue = a.no_new_issue;
    all_collected = λ h b.
        collected b
        ∙ take-short (length w.utterance.samples) (utterance_samples w.utterance ++ xs)
            (a.all_collected h b);
  }
    where
      collected :
          w.utterance_active ≡ true
          → utterance_samples v.utterance
            ≡ take (length w.utterance.samples) (utterance_samples w.utterance ++ xs)
      collected b =
          a.collected
          ∙ ap
              (λ t.
                if t
                then take (length w.utterance.samples) (utterance_samples w.utterance ++ xs)
                else utterance_samples w.utterance)
              b

  pub Grown-trans :
      (w v z : AudioWorker F) (xs ys : List F) → Grown w xs v → Grown v ys z → Grown w (xs ++ ys) z
  Grown-trans w v z xs ys g h =
      let p = length w.pre_roll.samples in
      let c = length w.utterance.samples in
      record {
        same_activity = h.same_activity ∙ g.same_activity;
        same_pre_roll = h.same_pre_roll ∙ g.same_pre_roll;
        same_utterance = h.same_utterance ∙ g.same_utterance;
        retained =
            h.retained
            ∙ ap (λ k. keep_last k (held_samples v.pre_roll ++ ys)) g.same_pre_roll
            ∙ ap (λ k. keep_last p (k ++ ys)) g.retained
            ∙ keep_last-append p (held_samples w.pre_roll ++ xs) ys
            ∙ ap (keep_last p) (append_assoc (held_samples w.pre_roll) xs ys);
        collected = λ a.
            h.collected (g.same_activity ∙ a)
            ∙ ap (λ k. take k (utterance_samples v.utterance ++ ys)) g.same_utterance
            ∙ ap (λ k. take c (k ++ ys)) (g.collected a)
            ∙ take-take_append c (utterance_samples w.utterance ++ xs) ys
            ∙ ap (take c) (append_assoc (utterance_samples w.utterance) xs ys);
        no_new_issue = λ i. g.no_new_issue (h.no_new_issue i);
        all_collected = λ i a.
            h.all_collected i (g.same_activity ∙ a)
            ∙ ap (λ k. k ++ ys) (g.all_collected (h.no_new_issue i) a)
            ∙ append_assoc (utterance_samples w.utterance) xs ys;
      }

  pub IsWorking-ring :
      (r q : Ring F) (w : AudioWorker F)
      → q.native.channels ≡ r.native.channels
      → q.frames_per_block ≡ r.frames_per_block
      → IsWorking r w
      → IsWorking q w
  IsWorking-ring r q w c f g = record {
    policy_fits = g.policy_fits;
    same_channels = g.same_channels ∙ sym c;
    mono_fits = omega (arith, g.mono_fits);
    resampler_valid = g.resampler_valid;
    resampled_fits =
        g.resampled_fits
        ∙ ap (λ k. resampled_bound k w.resampler.source_rate w.resampler.target_rate) (sym f);
    pre_roll_round = g.pre_roll_round;
    utterance_sound = g.utterance_sound;
    limit_named = g.limit_named;
    pre_roll_fits = g.pre_roll_fits;
  }

-- Nothing comes of no sample.
pub Grown-refl : {F : Type 0} (r : Ring F) (w : AudioWorker F) → IsWorking r w → Grown w [] w
Grown-refl r w g =
    let (v, l, e, f, n) = Collects-nil w.utterance g.utterance_sound in
    record {
      same_activity = refl;
      same_pre_roll = refl;
      same_utterance = refl;
      retained = keep_all w.pre_roll g.pre_roll_round;
      collected = λ a. e;
      no_new_issue = λ i. i;
      all_collected = λ i a. sym (append-nil (utterance_samples w.utterance));
    }

one_ne_zero : ◌≡◌ {A = ℕ} 1 0 → ⊥
one_ne_zero e = omega arith

abbrev pub blocks_of : {F : Type 0} → Option (ProcessedAudioBlock F) → ℕ
blocks_of none = 0
blocks_of (some b) = 1

-- What the samples of a result are.
abbrev pub samples_of : {F : Type 0} → Option (ProcessedAudioBlock F) → List F
samples_of none = []
samples_of (some b) = b.samples

-- A call of `process_next`: a block is taken from the ring, if there is one.
abbrev pub NextOk :
    {T F : Type 0}
    → System T F
    → AudioWorker F
    → Option (System T F × AudioWorker F × Option (ProcessedAudioBlock F))
    → Type 0
NextOk s w none = ⊥
NextOk s w (some (q, v, o)) =
    Inv q
    × IsWorking q.ring v
    × Grown w (samples_of o) v
    × (v.resampler.total_input_frames ≤ w.resampler.total_input_frames + s.ring.frames_per_block)
    × (q.ring.frames_per_block ≡ s.ring.frames_per_block)
    × (q.ring.published_blocks ≡ s.ring.published_blocks)
    × (length (held q) + blocks_of o ≡ length (held s))
    × (v.counters.blocks_processed ≡ w.counters.blocks_processed + blocks_of o)
    × (blocks_of o ≡ 0 → length (held s) ≡ 0)
    × (v.callback_overflows_at_start ≡ w.callback_overflows_at_start)

module _ {T F : Type 0} (sample : NativeSample T F) (floats : Floats F) where
  next_with :
      (s q : System T F) (w : AudioWorker F) (block : Popped F)
      → GivesFull s (some (q, popped block))
      → IsWorking s.ring w
      → BlockOk s.ring w block.frames (process_block floats w block)
      → NextOk s w (with_system floats sample q (process_block floats w block))
  next_with s q w block (v, (e, l, m), h, c, f, u, p) g k = go (process_block floats w block) k
    where
      go :
          (o : Option (AudioWorker F × ProcessedAudioBlock F))
          → BlockOk s.ring w block.frames o
          → NextOk s w (with_system floats sample q o)
      go none x = x
      go (some (z, b)) (y, a) = (
        v,
        IsWorking-ring s.ring q.ring z c f y,
        Advanced-Grown w z block.frames b.samples a,
        omega (arith, a.read_on),
        f,
        p,
        omega (arith, ap length h),
        a.counted,
        (λ d. absurd (one_ne_zero d)),
        a.same_overflows,
      )

  unchanged :
      (s q : System T F) (w : AudioWorker F)
      → IsWorking s.ring w
      → Inv q
      → (held q ≡ held s)
      → q.ring.native.channels ≡ s.ring.native.channels
      → q.ring.frames_per_block ≡ s.ring.frames_per_block
      → q.ring.published_blocks ≡ s.ring.published_blocks
      → length (held s) ≡ 0
      → NextOk s w (some (q, w, none))
  unchanged s q w g v h c f p z = (
    v,
    IsWorking-ring s.ring q.ring w c f g,
    Grown-refl s.ring w g,
    omega arith,
    f,
    p,
    omega (arith, ap length h),
    omega arith,
    (λ d. z),
    refl,
  )

  pub process_next-NextOk :
      (s : System T F) (w : AudioWorker F)
      → Inv s
      → IsWorking s.ring w
      → w.resampler.total_input_frames + s.ring.frames_per_block ≤ u64_max
      → NextOk s w (process_next floats sample s w)
  unfolding process_next
  process_next-NextOk s w v g b = go (step sample s pops) (pops-GivesFull sample s v)
    where
      go :
          (o : Option (System T F × Event F))
          → GivesFull s o
          → NextOk s w (process_event floats sample w o)
      go none x = x
      go (some (q, popped block)) (i, (e, l, m), h, c, f, u, p) =
          next_with s q w block (i, (e, l, m), h, c, f, u, p) g
            (process_block-BlockOk floats s.ring w block g (e, l, m) v.has_channels (omega arith))
      go (some (q, wrote result)) (i, e, h, c, f, u, p) = absurd u
      go (some (q, nothing)) (i, e, h, c, f, u, p) =
          unchanged s q w g i h c f p (omega (arith, length-held sample s v, v.read))
