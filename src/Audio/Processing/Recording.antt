-- ===== src/Audio/Processing/Recording.antt =====
-- A whole utterance: its beginning, the turns of callback and worker, and its end.
use native.Mathlib.Nat.{add-mul}
use speakeasy_granite_rust_m.Base.{
  ℕ, ◌+◌, ◌*◌, ◌≤◌, ◌<◌, ◌≡◌, false, Option, none, some, List, [], ◌++◌, length, take, arith, ap,
  ◌∙◌, u64_max, Result, ok, err, append_assoc,
}
use speakeasy_granite_rust_m.Audio.Ring.{NativeSample, word}
use speakeasy_granite_rust_m.Audio.Ring.System.{System}
use speakeasy_granite_rust_m.Audio.Ring.Steps.{Inv, held}
use speakeasy_granite_rust_m.Audio.Ring.Rounds.{length-held}
use speakeasy_granite_rust_m.Audio.Processing.{Floats}
use speakeasy_granite_rust_m.Audio.Processing.Buffers.{utterance_samples}
use speakeasy_granite_rust_m.Audio.Processing.Retain.{held_samples, take-take_append}
use speakeasy_granite_rust_m.Audio.Processing.Working.{IsWorking}
use speakeasy_granite_rust_m.Audio.Processing.Turns.{Turn, run_turns, RunOk, run_turns-RunOk}
use speakeasy_granite_rust_m.Audio.Processing.Ends.{begin_utterance, finish_utterance}
use speakeasy_granite_rust_m.Audio.Processing.Worker.{
  has_issue, UtteranceStateError, UtteranceCompletion, AudioWorker,
}
use speakeasy_granite_rust_m.Audio.Processing.Utterance.{
  produced, Finishes, finish_utterance-Finishes, Begins, begin_utterance-Begins,
}

module _ {T F : Type 0} (sample : NativeSample T F) (floats : Floats F) where
  -- The worker begins an utterance, takes its turns, and finishes.
  abbrev then_finish :
      ℕ
      → Option (System T F × AudioWorker F × List F)
      → Option (Result UtteranceStateError (System T F × AudioWorker F × UtteranceCompletion))
  then_finish fuel none = none
  then_finish fuel (some (q, v, xs)) = finish_utterance floats sample fuel q v

  abbrev then_run :
      ℕ
      → System T F
      → List (Turn T)
      → Option (Result UtteranceStateError (AudioWorker F))
      → Option (Result UtteranceStateError (System T F × AudioWorker F × UtteranceCompletion))
  then_run fuel s ts none = none
  then_run fuel s ts (some (err e)) = some (err e)
  then_run fuel s ts (some (ok w)) = then_finish fuel (run_turns sample floats s w ts)

  unfoldable pub record_utterance :
      ℕ
      → System T F
      → AudioWorker F
      → List (Turn T)
      → Option (Result UtteranceStateError (System T F × AudioWorker F × UtteranceCompletion))
  unfolding begin_utterance run_turns finish_utterance
  record_utterance fuel s w ts =
      then_run fuel s ts (begin_utterance floats w s.ring.counters.queue_overflows)

  -- What `process_next` gave meanwhile, up to the last block.
  abbrev run_then_drain : ℕ → Option (System T F × AudioWorker F × List F) → List F
  run_then_drain fuel none = []
  run_then_drain fuel (some (q, v, xs)) = xs ++ produced sample floats fuel q v

  abbrev begun_then_run :
      ℕ → System T F → List (Turn T) → Option (Result UtteranceStateError (AudioWorker F)) → List F
  begun_then_run fuel s ts (some (ok w)) = run_then_drain fuel (run_turns sample floats s w ts)
  begun_then_run fuel s ts _ = []

  unfoldable pub recorded_samples : ℕ → System T F → AudioWorker F → List (Turn T) → List F
  unfolding begin_utterance run_turns produced
  recorded_samples fuel s w ts =
      begun_then_run fuel s ts (begin_utterance floats w s.ring.counters.queue_overflows)

  -- What was recorded: the pre-roll, and what came after it.
  abbrev pub Records :
      AudioWorker F
      → List F
      → Option (Result UtteranceStateError (System T F × AudioWorker F × UtteranceCompletion))
      → Type 0
  Records w xs none = ⊥
  Records w xs (some (err e)) = ⊥
  Records w xs (some (ok (q, v, c))) =
      (length (held q) ≡ 0)
      × (v.utterance_active ≡ false)
      × (c.frames_buffered ≡ length (utterance_samples v.utterance))
      × (utterance_samples v.utterance
          ≡ take (length w.utterance.samples) (held_samples w.pre_roll ++ xs))
      × (has_issue c.issues ≡ false → utterance_samples v.utterance ≡ held_samples w.pre_roll ++ xs)

  finish-Records :
      (fuel : ℕ) (s q : System T F) (w v z : AudioWorker F) (xs : List F) (ts : List (Turn T))
      (o : Option (Result UtteranceStateError (System T F × AudioWorker F × UtteranceCompletion)))
      → Begins s.ring w (some (ok v))
      → RunOk sample floats s v (length ts) (some (q, z, xs))
      → Finishes sample floats q z (produced sample floats fuel q z) o
      → Records w (xs ++ produced sample floats fuel q z) o
  finish-Records fuel s q w v z xs ts none b r f = f
  finish-Records fuel s q w v z xs ts (some (err e)) b r f = f
  finish-Records fuel s q w v z xs ts (some (ok (q', z', c))) (g, a, i, p, m, t)
        (iq, k, h, n, f, d, u) (e, ia, dr, fb, co, al) =
      let ys = produced sample floats fuel q z in
      (
        e,
        ia,
        fb,
        co
            ∙ ap (λ j. take j (utterance_samples z.utterance ++ ys)) (h.same_utterance ∙ m)
            ∙ ap (λ y. take (length w.utterance.samples) (y ++ ys))
                (h.collected a
                  ∙ ap (λ j. take j (utterance_samples v.utterance ++ xs)) m
                  ∙ ap (λ y. take (length w.utterance.samples) (y ++ xs)) p)
            ∙ take-take_append (length w.utterance.samples) (held_samples w.pre_roll ++ xs) ys
            ∙ ap (take (length w.utterance.samples)) (append_assoc (held_samples w.pre_roll) xs ys),
        λ no.
            (al no).1
            ∙ ap (λ y. y ++ ys) (h.all_collected (al no).0 a ∙ ap (λ y. y ++ xs) p)
            ∙ append_assoc (held_samples w.pre_roll) xs ys,
      )

  begun-Records :
      (fuel : ℕ) (s : System T F) (w : AudioWorker F) (ts : List (Turn T))
      (o : Option (Result UtteranceStateError (AudioWorker F)))
      → Inv s
      → s.ring.published_blocks + length ts < word
      → s.ring.published_blocks + length ts < fuel
      → w.resampler.total_input_frames + (length ts + fuel) * s.ring.frames_per_block ≤ u64_max
      → Begins s.ring w o
      → Records w (begun_then_run fuel s ts o) (then_run fuel s ts o)
  begun-Records fuel s w ts none i b f m x = x
  begun-Records fuel s w ts (some (err e)) i b f m x = x
  begun-Records fuel s w ts (some (ok v)) i b f m (g, a, n, p, l, t) =
      let e = add-mul (length ts) fuel s.ring.frames_per_block in
      go (run_turns sample floats s v ts) (run_turns-RunOk sample floats s v ts i g b (omega arith))
    where
      go :
          (o : Option (System T F × AudioWorker F × List F))
          → RunOk sample floats s v (length ts) o
          → Records w (run_then_drain fuel o) (then_finish fuel o)
      go none r = r
      go (some (q, z, xs)) (iq, k, h, c, d, u, y) =
          let e = add-mul (length ts) fuel s.ring.frames_per_block in
          let j = ap (λ n. fuel * n) d in
          let held_blocks = length-held sample q iq in
          finish-Records fuel s q w v z xs ts (finish_utterance floats sample fuel q z)
            (g, a, n, p, l, t) (iq, k, h, c, d, u, y)
            (finish_utterance-Finishes sample floats fuel q z iq k (h.same_activity ∙ a)
              (omega arith) (omega arith))

  -- However the callback and the worker take turns between its beginning and its end, an utterance
  -- is the pre-roll and all that was processed since, up to its limit and, with no issue noted,
  -- without a sample missing; the ring is then empty. Nothing panics, and the loop that drains the
  -- ring ends within as many rounds as blocks were published and one more.
  pub record_utterance-Records :
      (fuel : ℕ) (s : System T F) (w : AudioWorker F) (ts : List (Turn T))
      → Inv s
      → IsWorking s.ring w
      → w.utterance_active ≡ false
      → s.ring.published_blocks + length ts < word
      → s.ring.published_blocks + length ts < fuel
      → w.resampler.total_input_frames + (length ts + fuel) * s.ring.frames_per_block ≤ u64_max
      → Records w (recorded_samples fuel s w ts) (record_utterance fuel s w ts)
  unfolding record_utterance recorded_samples
  record_utterance-Records fuel s w ts i g a b f m =
      begun-Records fuel s w ts (begin_utterance floats w s.ring.counters.queue_overflows) i b f m
        (begin_utterance-Begins floats s.ring w s.ring.counters.queue_overflows g a)
