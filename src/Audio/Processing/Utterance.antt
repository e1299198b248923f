-- ===== src/Audio/Processing/Utterance.antt =====
-- An utterance from its beginning to its end.
use mathlib.Core.Path.{subst}
use native.Mathlib.Nat.{add-mul}
use speakeasy_granite_rust_m.Base.{
  ℕ, zero, suc, ◌+◌, ◌*◌, ◌≤◌, ◌<◌, ◌≡◌, true, false, not, Option, none, some, List, [], ◌++◌,
  length, take, drop, replicate, if◌then◌else◌, ltb, arith, refl, sym, ap, ◌∙◌, u64_max, Result, ok,
  err, length-append, length-replicate, length-drop,
}
use speakeasy_granite_rust_m.Audio.Window.{length-window}
use speakeasy_granite_rust_m.Audio.Ring.{NativeSample, Ring}
use speakeasy_granite_rust_m.Audio.Ring.System.{System}
use speakeasy_granite_rust_m.Audio.Ring.Steps.{Inv, held}
use speakeasy_granite_rust_m.Audio.Processing.{Floats}
use speakeasy_granite_rust_m.Audio.Processing.Buffers.{
  empty_sample_metadata, TimedUtteranceBuffer, utterance_samples, clear_buffer, copy_into,
}
use speakeasy_granite_rust_m.Audio.Processing.Retain.{held_samples, take-short}
use speakeasy_granite_rust_m.Audio.Processing.Collect.{IsBuffer}
use speakeasy_granite_rust_m.Audio.Processing.Copy.{copy_into-CopiesAll, CopiesAll}
use speakeasy_granite_rust_m.Audio.Processing.Working.{IsWorking}
use speakeasy_granite_rust_m.Audio.Processing.Runs.{Grown, Grown-trans, NextOk, process_next-NextOk}
use speakeasy_granite_rust_m.Audio.Processing.Next.{process_next, drain}
use speakeasy_granite_rust_m.Audio.Processing.Ends.{
  begin_utterance, sealed, started_with, begun, finish_utterance,
}
use speakeasy_granite_rust_m.Audio.Processing.Worker.{
  UtteranceIssues, no_issues, has_issue, with_issues, the_overflow, UtteranceStateError,
  UtteranceCompletion, AudioWorker, ProcessedAudioBlock, already_active, not_active,
}

module _ {T F : Type 0} (sample : NativeSample T F) (floats : Floats F) where
  -- The samples of the blocks that `drain` is given by `process_next`, in order.
  unfoldable pub produced : ℕ → System T F → AudioWorker F → List F
  unfolding process_next
  produced zero s w = []
  produced (suc fuel) s w = elim (process_next floats sample s w) [
    | none ↦ []
    | some (q, v, none) ↦ []
    | some (q, v, some block) ↦ block.samples ++ produced fuel q v
  ]

  -- The ring is empty, and `blocks` blocks of it were processed, which gave the samples `xs`.
  abbrev Drains : AudioWorker F → ℕ → List F → Option (System T F × AudioWorker F) → Type 0
  Drains w blocks xs none = ⊥
  Drains w blocks xs (some (q, v)) =
      Inv q
      × IsWorking q.ring v
      × (length (held q) ≡ 0)
      × (v.counters.blocks_processed ≡ w.counters.blocks_processed + blocks)
      × (v.callback_overflows_at_start ≡ w.callback_overflows_at_start)
      × Grown w xs v

  Drains-next :
      (w v : AudioWorker F) (xs ys : List F) (n blocks : ℕ)
      (o : Option (System T F × AudioWorker F))
      → Grown w xs v
      → v.counters.blocks_processed ≡ w.counters.blocks_processed + 1
      → v.callback_overflows_at_start ≡ w.callback_overflows_at_start
      → n + 1 ≡ blocks
      → Drains v n ys o
      → Drains w blocks (xs ++ ys) o
  Drains-next w v xs ys n blocks none g c u e d = d
  Drains-next w v xs ys n blocks (some (q, z)) g c u e (i, k, h, c', u', g') =
      (i, k, h, omega arith, u' ∙ u, Grown-trans w v z xs ys g g')

  drain-Drains :
      (fuel : ℕ) (s : System T F) (w : AudioWorker F)
      → Inv s
      → IsWorking s.ring w
      → length (held s) < fuel
      → w.resampler.total_input_frames + fuel * s.ring.frames_per_block ≤ u64_max
      → Drains w (length (held s)) (produced fuel s w) (drain floats sample fuel s w)
  unfolding drain produced
  drain-Drains zero s w v g h b = absurd (omega arith)
  drain-Drains (suc fuel) s w v g h b =
      let e = add-mul 1 fuel s.ring.frames_per_block in
      go (process_next floats sample s w) (process_next-NextOk sample floats s w v g (omega arith))
        (λ q z. drain-Drains fuel q z)
    where
      go :
          (o : Option (System T F × AudioWorker F × Option (ProcessedAudioBlock F)))
          → NextOk s w o
          → ((q : System T F) (z : AudioWorker F)
              → Inv q
              → IsWorking q.ring z
              → length (held q) < fuel
              → z.resampler.total_input_frames + fuel * q.ring.frames_per_block ≤ u64_max
              → Drains z (length (held q)) (produced fuel q z) (drain floats sample fuel q z))
          → Drains w
              (length (held s))
              (elim o as (λ _. List F) [
                | none ↦ []
                | some (q, z, none) ↦ []
                | some (q, z, some block) ↦ block.samples ++ produced fuel q z
              ])
              (elim o as (λ _. Option (System T F × AudioWorker F)) [
                | none ↦ none
                | some (q, z, none) ↦ some (q, z)
                | some (q, z, some block) ↦ drain floats sample fuel q z
              ])
      go none x more = x
      go (some (q, z, none)) (i, k, g', t, f, p, l, c, d, u) more =
          (i, k, omega (arith, d refl), omega (arith, d refl), u, g')
      go (some (q, z, some block)) (i, k, g', t, f, p, l, c, d, u) more =
          let e = add-mul 1 fuel s.ring.frames_per_block in
          let m = ap (λ n. fuel * n) f in
          Drains-next w z block.samples (produced fuel q z) (length (held q)) (length (held s))
            (drain floats sample fuel q z) g' c u l (more q z i k (omega arith) (omega arith))

  -- The utterance is sealed: the ring is empty, and with no issue the utterance has all samples.
  abbrev pub Finishes :
      System T F
      → AudioWorker F
      → List F
      → Option (Result UtteranceStateError (System T F × AudioWorker F × UtteranceCompletion))
      → Type 0
  Finishes s w xs none = ⊥
  Finishes s w xs (some (err e)) = ⊥
  Finishes s w xs (some (ok (q, v, c))) =
      (length (held q) ≡ 0)
      × (v.utterance_active ≡ false)
      × (c.drained_blocks ≡ length (held s))
      × (c.frames_buffered ≡ length (utterance_samples v.utterance))
      × (utterance_samples v.utterance
          ≡ take (length w.utterance.samples) (utterance_samples w.utterance ++ xs))
      × (has_issue c.issues ≡ false
          → (has_issue w.utterance_issues ≡ false)
            × (utterance_samples v.utterance ≡ utterance_samples w.utterance ++ xs))

  overflow_issue :
      (a b : ℕ) (i : UtteranceIssues)
      → has_issue (if ltb a b then with_issues i the_overflow else i) ≡ false
      → has_issue i ≡ false
  overflow_issue a b i h = ground arith

  pub finish_utterance-Finishes :
      (fuel : ℕ) (s : System T F) (w : AudioWorker F)
      → Inv s
      → IsWorking s.ring w
      → w.utterance_active ≡ true
      → length (held s) < fuel
      → w.resampler.total_input_frames + fuel * s.ring.frames_per_block ≤ u64_max
      → Finishes s w (produced fuel s w) (finish_utterance floats sample fuel s w)
  unfolding finish_utterance
  finish_utterance-Finishes fuel s w v g a h b =
      subst (Finishes s w (produced fuel s w))
        (sym (
          ap
            (λ t.
              if not t
              then some (err not_active)
              else sealed floats sample w.counters.blocks_processed (drain floats sample fuel s w))
            a))
        (go (drain floats sample fuel s w) (drain-Drains fuel s w v g h b))
    where
      go :
          (o : Option (System T F × AudioWorker F))
          → Drains w (length (held s)) (produced fuel s w) o
          → Finishes s w (produced fuel s w) (sealed floats sample w.counters.blocks_processed o)
      go none d = d
      go (some (q, z)) (i, k, e, c, u, g') = (
        e,
        refl,
        omega arith,
        refl,
        g'.collected a,
        λ n.
            let no =
              overflow_issue z.callback_overflows_at_start q.ring.counters.queue_overflows
                z.utterance_issues n in
            (g'.no_new_issue no, g'.all_collected no a),
      )

module _ {F : Type 0} where
  clear_buffer-IsBuffer :
      (silence : F) (u : TimedUtteranceBuffer F)
      → IsBuffer u
      → IsBuffer (clear_buffer silence u)
        × (length (clear_buffer silence u).samples ≡ length u.samples)
        × (utterance_samples (clear_buffer silence u) ≡ [])
        × ((clear_buffer silence u).len ≡ 0)
  unfolding clear_buffer
  clear_buffer-IsBuffer silence u v =
      let a = length-append (replicate u.len silence) (drop u.len u.samples) in
      let b = length-append (replicate u.len empty_sample_metadata) (drop u.len u.metadata) in
      let c = length-replicate u.len silence in
      let d = length-replicate u.len empty_sample_metadata in
      let e = length-drop u.len u.samples in
      let f = length-drop u.len u.metadata in
      (
        record { within = omega arith; as_many = omega (arith, v.within, v.as_many) },
        omega (arith, v.within),
        refl,
        refl,
      )

  -- The utterance begins with the pre-roll.
  abbrev pub Begins :
      Ring F → AudioWorker F → Option (Result UtteranceStateError (AudioWorker F)) → Type 0
  Begins r w none = ⊥
  Begins r w (some (err e)) = ⊥
  Begins r w (some (ok v)) =
      IsWorking r v
      × (v.utterance_active ≡ true)
      × (has_issue v.utterance_issues ≡ false)
      × (utterance_samples v.utterance ≡ held_samples w.pre_roll)
      × (length v.utterance.samples ≡ length w.utterance.samples)
      × (v.resampler.total_input_frames ≡ w.resampler.total_input_frames)

  pub begin_utterance-Begins :
      (floats : Floats F) (r : Ring F) (w : AudioWorker F) (overflows : ℕ)
      → IsWorking r w
      → w.utterance_active ≡ false
      → Begins r w (begin_utterance floats w overflows)
  unfolding begin_utterance
  begin_utterance-Begins floats r w overflows g a =
      let u = clear_buffer floats.silence w.utterance in
      let (b, l, e, n) = clear_buffer-IsBuffer floats.silence w.utterance g.utterance_sound in
      subst (Begins r w)
        (sym (
          ap
            (λ t.
              if t
              then some (err already_active)
              else begun floats (started_with floats fresh (copy_into w.pre_roll u)))
            a))
        (go (copy_into w.pre_roll u) l e (copy_into-CopiesAll w.pre_roll u g.pre_roll_round b))
    where
      fresh : AudioWorker F
      fresh = record w { utterance_issues = no_issues; callback_overflows_at_start = overflows }

      go :
          (o : Option (TimedUtteranceBuffer F × ℕ))
          → length (clear_buffer floats.silence w.utterance).samples ≡ length w.utterance.samples
          → utterance_samples (clear_buffer floats.silence w.utterance) ≡ []
          → CopiesAll w.pre_roll (clear_buffer floats.silence w.utterance) o
          → Begins r w (begun floats (started_with floats fresh o))
      go none l e c = c
      go (some (q, copied)) l e ((v, m, f, h, k), n) =
          let p =
            length-window (λ y. y) w.pre_roll.samples w.pre_roll.start w.pre_roll.len
              (omega (arith, g.pre_roll_round.has_places)) in
          (
            record {
              policy_fits = g.policy_fits;
              same_channels = g.same_channels;
              mono_fits = g.mono_fits;
              resampler_valid = g.resampler_valid;
              resampled_fits = g.resampled_fits;
              pre_roll_round = g.pre_roll_round;
              utterance_sound = v;
              limit_named = g.limit_named;
              pre_roll_fits = omega (arith, g.pre_roll_fits);
            },
            refl,
            refl,
            f
                ∙ ap
                    (λ y.
                      take (length (clear_buffer floats.silence w.utterance).samples)
                        (y ++ held_samples w.pre_roll))
                    e
                ∙ take-short (length (clear_buffer floats.silence w.utterance).samples)
                    (held_samples w.pre_roll)
                    (omega (arith, g.pre_roll_fits, g.pre_roll_round.within)),
            m ∙ l,
            refl,
          )
