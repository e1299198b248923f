-- ===== src/Audio/Processing/Turns.antt =====
-- The callback's writes and the worker's calls of `process_next` in any order.
use native.Mathlib.Nat.{add-mul}
use speakeasy_granite_rust_m.Base.{
  ℕ, suc, ◌+◌, ◌*◌, ◌≤◌, ◌<◌, ◌≡◌, Option, none, some, List, [], ◌∷◌, ◌++◌, length, arith, refl, ap,
  ◌∙◌, u64_max,
}
use speakeasy_granite_rust_m.Audio.Ring.{NativeSample, CallbackStamp, word}
use speakeasy_granite_rust_m.Audio.Ring.System.{System, Action, begins, continues, Event, step}
use speakeasy_granite_rust_m.Audio.Ring.Steps.{Inv, Advances, pushes}
use speakeasy_granite_rust_m.Audio.Ring.Refine.{step-Advances}
use speakeasy_granite_rust_m.Audio.Processing.{Floats}
use speakeasy_granite_rust_m.Audio.Processing.Blocks.{KeepsShape, step-KeepsShape}
use speakeasy_granite_rust_m.Audio.Processing.Working.{IsWorking}
use speakeasy_granite_rust_m.Audio.Processing.Runs.{
  Grown, Grown-refl, Grown-trans, IsWorking-ring, samples_of, NextOk, process_next-NextOk,
}
use speakeasy_granite_rust_m.Audio.Processing.Next.{process_next}
use speakeasy_granite_rust_m.Audio.Processing.Worker.{AudioWorker, ProcessedAudioBlock}

pub data Turn (T : Type 0) : Type 0 where
  -- A call of `write`, a round of its loop, and a call of `process_next`.
  writes : List T → CallbackStamp → Turn T
  goes_on processes : Turn T

module _ {T F : Type 0} where
  abbrev keep_worker :
      AudioWorker F → Option (System T F × Event F) → Option (System T F × AudioWorker F × List F)
  keep_worker w none = none
  keep_worker w (some (q, e)) = some (q, w, [])

  abbrev with_samples :
      Option (System T F × AudioWorker F × Option (ProcessedAudioBlock F))
      → Option (System T F × AudioWorker F × List F)
  with_samples none = none
  with_samples (some (q, v, o)) = some (q, v, samples_of o)

  abbrev more_samples :
      List F
      → Option (System T F × AudioWorker F × List F)
      → Option (System T F × AudioWorker F × List F)
  more_samples xs none = none
  more_samples xs (some (q, v, ys)) = some (q, v, xs ++ ys)

module _ {T F : Type 0} (sample : NativeSample T F) (floats : Floats F) where
  -- A turn, with the samples that it produces; `none` is a panic.
  unfoldable pub take_turn :
      System T F → AudioWorker F → Turn T → Option (System T F × AudioWorker F × List F)
  take_turn s w (writes samples stamp) = keep_worker w (step sample s (begins samples stamp))
  take_turn s w goes_on = keep_worker w (step sample s continues)
  take_turn s w processes = with_samples (process_next floats sample s w)

  unfoldable pub run_turns :
      System T F → AudioWorker F → List (Turn T) → Option (System T F × AudioWorker F × List F)
  unfolding take_turn
  run_turns s w [] = some (s, w, [])
  run_turns s w (t ∷ ts) = elim (take_turn s w t) [
    | none ↦ none
    | some (q, v, xs) ↦ more_samples xs (run_turns q v ts)
  ]

  -- After `n` turns that produced `xs`.
  abbrev pub RunOk :
      System T F → AudioWorker F → ℕ → Option (System T F × AudioWorker F × List F) → Type 0
  RunOk s w n none = ⊥
  RunOk s w n (some (q, v, xs)) =
      Inv q
      × IsWorking q.ring v
      × Grown w xs v
      × (v.resampler.total_input_frames
          ≤ w.resampler.total_input_frames + n * s.ring.frames_per_block)
      × (q.ring.frames_per_block ≡ s.ring.frames_per_block)
      × (q.ring.published_blocks ≤ s.ring.published_blocks + n)
      × (v.callback_overflows_at_start ≡ w.callback_overflows_at_start)

  callback_turn :
      (s : System T F) (w : AudioWorker F) (a : Action T)
      → Inv s
      → IsWorking s.ring w
      → suc s.ring.published_blocks < word
      → RunOk s w 1 (keep_worker w (step sample s a))
  callback_turn s w a v g b =
      go (step sample s a) (step-Advances sample s a v b) (step-KeepsShape sample s a)
    where
      go :
          (o : Option (System T F × Event F))
          → Advances s (pushes sample s a) o
          → KeepsShape s o
          → RunOk s w 1 (keep_worker w o)
      go none x k = x
      go (some (q, e)) (i, h, p, l) (c, f) = (
        i,
        IsWorking-ring s.ring q.ring w c f g,
        Grown-refl s.ring w g,
        omega arith,
        f,
        omega arith,
        refl,
      )

  take_turn-RunOk :
      (s : System T F) (w : AudioWorker F) (t : Turn T)
      → Inv s
      → IsWorking s.ring w
      → suc s.ring.published_blocks < word
      → w.resampler.total_input_frames + s.ring.frames_per_block ≤ u64_max
      → RunOk s w 1 (take_turn s w t)
  unfolding take_turn
  take_turn-RunOk s w (writes samples stamp) v g b m =
      callback_turn s w (begins samples stamp) v g b
  take_turn-RunOk s w goes_on v g b m = callback_turn s w continues v g b
  take_turn-RunOk s w processes v g b m =
      go (process_next floats sample s w) (process_next-NextOk sample floats s w v g m)
    where
      go :
          (o : Option (System T F × AudioWorker F × Option (ProcessedAudioBlock F)))
          → NextOk s w o
          → RunOk s w 1 (with_samples o)
      go none x = x
      go (some (q, z, o)) (i, k, h, t, f, p, l, c, e, u) = (i, k, h, omega arith, f, omega arith, u)

  -- However the callback and the worker take turns, nothing panics, the pre-roll has the last samples
  -- that were produced, and the utterance that is on has the first ones up to its limit, and all of
  -- them if no issue is noted. Fewer than 2^64 blocks are published and native frames read.
  pub run_turns-RunOk :
      (s : System T F) (w : AudioWorker F) (ts : List (Turn T))
      → Inv s
      → IsWorking s.ring w
      → s.ring.published_blocks + length ts < word
      → w.resampler.total_input_frames + length ts * s.ring.frames_per_block ≤ u64_max
      → RunOk s w (length ts) (run_turns s w ts)
  unfolding run_turns
  run_turns-RunOk s w [] v g b m =
      (v, g, Grown-refl s.ring w g, omega arith, refl, omega arith, refl)
  run_turns-RunOk s w (t ∷ ts) v g b m =
      let e = add-mul 1 (length ts) s.ring.frames_per_block in
      go (take_turn s w t) (take_turn-RunOk s w t v g (omega arith) (omega arith))
        (λ q z. run_turns-RunOk q z ts)
    where
      joined :
          (q : System T F) (z : AudioWorker F) (xs : List F)
          (o : Option (System T F × AudioWorker F × List F))
          → RunOk s w 1 (some (q, z, xs))
          → RunOk q z (length ts) o
          → RunOk s w (suc (length ts)) (more_samples xs o)
      joined q z xs none x y = y
      joined q z xs (some (q', z', ys)) (i, k, h, r, f, p, u) (i', k', h', r', f', p', u') =
          let e = add-mul 1 (length ts) s.ring.frames_per_block in
          let d = ap (λ n. length ts * n) f in
          (i', k', Grown-trans w z z' xs ys h h', omega arith, f' ∙ f, omega arith, u' ∙ u)

      go :
          (o : Option (System T F × AudioWorker F × List F))
          → RunOk s w 1 o
          → ((q : System T F) (z : AudioWorker F)
              → Inv q
              → IsWorking q.ring z
              → q.ring.published_blocks + length ts < word
              → z.resampler.total_input_frames + length ts * q.ring.frames_per_block ≤ u64_max
              → RunOk q z (length ts) (run_turns q z ts))
          → RunOk s w
              (suc (length ts))
              (elim o as (λ _. Option (System T F × AudioWorker F × List F)) [
                | none ↦ none
                | some (q, z, xs) ↦ more_samples xs (run_turns q z ts)
              ])
      go none x more = x
      go (some (q, z, xs)) (i, k, h, r, f, p, u) more =
          let e = add-mul 1 (length ts) s.ring.frames_per_block in
          let d = ap (λ n. length ts * n) f in
          joined q z xs (run_turns q z ts) (i, k, h, r, f, p, u)
            (more q z i k (omega arith) (omega arith))
