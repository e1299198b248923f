-- ===== src/Audio/Ring/Refine.antt =====
-- The ring is a queue of at most as many blocks as it has slots.
use mathlib.Core.Path.{subst}
use speakeasy_granite_rust_m.Base.{
  ℕ, ◌+◌, ◌*◌, Option, none, some, List, [], ◌∷◌, ◌++◌, length, replicate, zero, suc, ◌≤◌, ◌<◌, ◌≡◌,
  refl, sym, ap, ◌∙◌, arith, append_assoc, append-nil,
}
use speakeasy_granite_rust_m.Audio.Ring.{
  word, NativeStreamConfig, NativeSample, Ring, CapturedNativeBlock,
}
use speakeasy_granite_rust_m.Audio.Ring.System.{
  System, Action, begins, continues, pops, Popped, Event, step, keep_event, run,
}
use speakeasy_granite_rust_m.Audio.Ring.Slots.{view}
use speakeasy_granite_rust_m.Audio.Window.{window, window-zero}
use speakeasy_granite_rust_m.Base.{All, length-replicate}
use speakeasy_granite_rust_m.Audio.Ring.{new_slot, fresh_ring, new_ring}
use speakeasy_granite_rust_m.Audio.Ring.System.{started}
use speakeasy_granite_rust_m.Audio.Ring.Steps.{
  Inv, held, IsSized, popped_of, pushes, Advances, pop_lem, begin_lem,
}
use speakeasy_granite_rust_m.Audio.Ring.Rounds.{length-held, round_lem}

-- All that a run of steps puts in, and all that it takes out.
unfoldable pub all_pushes :
    {T F : Type 0} → NativeSample T F → System T F → List (Action T) → List (Popped F)
all_pushes sample s [] = []
all_pushes sample s (a ∷ acts) = elim (step sample s a) [
  | none ↦ []
  | some (q, e) ↦ pushes sample s a ++ all_pushes sample q acts
]

abbrev pub all_popped : {F : Type 0} → List (Event F) → List (Popped F)
all_popped [] = []
all_popped (e ∷ es) = popped_of e ++ all_popped es

module _ {T F : Type 0} (sample : NativeSample T F) where
  pub step-Advances :
      (s : System T F) (a : Action T)
      → Inv s
      → suc s.ring.published_blocks < word
      → Advances s (pushes sample s a) (step sample s a)
  step-Advances s (begins samples stamp) v b = begin_lem sample s v samples stamp
  step-Advances s continues v b = round_lem sample s v b
  step-Advances s pops v b = pop_lem sample s v

  -- The run ends well and is first in, first out.
  abbrev pub IsFifo : System T F → List (Action T) → Option (System T F × List (Event F)) → Type 0
  IsFifo s acts none = ⊥
  IsFifo s acts (some (q, es)) =
      Inv q
      × (length q.ring.slots ≡ length s.ring.slots)
      × (all_popped es ++ held q ≡ held s ++ all_pushes sample s acts)

  regroup :
      {A : Type 0} (e p h o n x y : List A)
      → e ++ h ≡ o ++ n
      → p ++ x ≡ h ++ y
      → (e ++ p) ++ x ≡ o ++ (n ++ y)
  regroup e p h o n x y f g =
      append_assoc e p x
      ∙ ap (λ z. e ++ z) g
      ∙ sym (append_assoc e h y)
      ∙ ap (λ z. z ++ y) f
      ∙ append_assoc o n y

  all_pushes-step :
      (s q : System T F) (a : Action T) (acts : List (Action T)) (x : Event F)
      → step sample s a ≡ some (q, x)
      → all_pushes sample s (a ∷ acts) ≡ pushes sample s a ++ all_pushes sample q acts
  unfolding all_pushes
  all_pushes-step s q a acts x e = rw (all_pushes, e)

  extend :
      (s q : System T F) (a : Action T) (acts : List (Action T)) (x : Event F)
      (r : Option (System T F × List (Event F)))
      → step sample s a ≡ some (q, x)
      → length q.ring.slots ≡ length s.ring.slots
      → popped_of x ++ held q ≡ held s ++ pushes sample s a
      → IsFifo q acts r
      → IsFifo s (a ∷ acts) (keep_event x r)
  extend s q a acts x none e l f h = h
  extend s q a acts x (some (z, es)) e l f (w, m, g) = (
    w,
    m ∙ l,
    regroup (popped_of x) (all_popped es) (held q) (held s) (pushes sample s a) (held z)
          (all_pushes sample q acts) f g
        ∙ ap (λ p. held s ++ p) (sym (all_pushes-step s q a acts x e)),
  )

  run-IsFifo :
      (acts : List (Action T)) (s : System T F)
      → Inv s
      → s.ring.published_blocks + length acts < word
      → IsFifo s acts (run sample s acts)
  unfolding run all_pushes
  run-IsFifo [] s v b = (v, refl, sym (append-nil (held s)))
  run-IsFifo (a ∷ acts) s v b =
      go (step sample s a) refl (step-Advances s a v (omega arith)) (run-IsFifo acts)
    where
      go :
          (o : Option (System T F × Event F))
          → step sample s a ≡ o
          → Advances s (pushes sample s a) o
          → ((q : System T F)
              → Inv q
              → q.ring.published_blocks + length acts < word
              → IsFifo q acts (run sample q acts))
          → IsFifo s (a ∷ acts) (run sample s (a ∷ acts))
      go none e m ih = absurd m
      go (some (q, x)) e (w, f, n, l) ih =
          subst
            (λ o. IsFifo s (a ∷ acts) (elim o as (λ _. Option (System T F × List (Event F))) [
              | none ↦ none
              | some (q, y) ↦ keep_event y (run sample q acts)
            ]))
            (sym e) (extend s q a acts x (run sample q acts) e l f (ih q w (omega arith)))

All-replicate : {A : Type 0} (P : A → Type 0) (n : ℕ) (x : A) → P x → All P (replicate n x)
All-replicate P zero x p = tt
All-replicate P (suc n) x p = (p, All-replicate P n x p)

module _ {T F : Type 0} (zero_float : F) where
  pub fresh-Inv :
      (id : ℕ) (native : NativeStreamConfig) (block_count frames_per_block : ℕ)
      (destination : CapturedNativeBlock F)
      → 0 < native.channels
      → 0 < block_count
      → 0 < frames_per_block
      → frames_per_block * native.channels ≤ length destination.samples
      → Inv {T = T}
          (started (fresh_ring zero_float id native block_count frames_per_block) destination)
  fresh-Inv id native block_count frames_per_block destination c n f d =
      let slot = new_slot zero_float (frames_per_block * native.channels) in
      let r = fresh_ring zero_float id native block_count frames_per_block in
      let x = length-replicate block_count slot in
      record {
        written = refl;
        read = refl;
        behind = omega arith;
        within = omega arith;
        bounded = omega arith;
        has_slots = omega arith;
        has_channels = c;
        has_frames = f;
        sized =
            All-replicate (IsSized r) block_count slot
              (length-replicate (frames_per_block * native.channels) zero_float, omega arith);
        room = d;
        busy = tt;
      }

module _ {T F : Type 0} (sample : NativeSample T F) (zero_float : F) where
  abbrev pub RunsAsQueue :
      ℕ → System T F → List (Action T) → Option (System T F × List (Event F)) → Type 0
  RunsAsQueue block_count s acts none = ⊥
  RunsAsQueue block_count s acts (some (q, es)) =
      (all_popped es ++ held q ≡ all_pushes sample s acts) × (length (held q) ≤ block_count)

  from_fifo :
      (s : System T F) (acts : List (Action T)) (r : Option (System T F × List (Event F)))
      → held s ≡ []
      → IsFifo sample s acts r
      → RunsAsQueue (length s.ring.slots) s acts r
  from_fifo s acts none h f = f
  from_fifo s acts (some (q, es)) h (v, l, g) = (
    g ∙ ap (λ x. x ++ all_pushes sample s acts) h,
    omega (arith, length-held sample q v, v.within),
  )

  -- However the rounds of writes and the pops are interleaved, nothing panics, and the consumer gets
  -- the blocks that the rounds put in, with their samples and metadata, in their order: none is
  -- lost, repeated or overwritten, and never more wait than there are slots. The ring has channels,
  -- slots and frames, the consumer's block holds a whole one, and the cursors do not wrap.
  pub ring-RunsAsQueue :
      (id : ℕ) (native : NativeStreamConfig) (block_count frames_per_block : ℕ) (r : Ring F)
      (destination : CapturedNativeBlock F) (acts : List (Action T))
      → 0 < native.channels
      → 0 < block_count
      → 0 < frames_per_block
      → frames_per_block * native.channels ≤ length destination.samples
      → length acts < word
      → new_ring zero_float id native block_count frames_per_block ≡ some r
      → RunsAsQueue block_count
          (started r destination)
          acts
          (run sample (started r destination) acts)
  unfolding new_ring
  ring-RunsAsQueue id native block_count frames_per_block r destination acts c n f d b e =
      let g : fresh_ring zero_float id native block_count frames_per_block ≡ r = ground arith in
      let v =
        subst (λ x. Inv {T = T} (started x destination)) g
          (fresh-Inv zero_float id native block_count frames_per_block destination c n f d) in
      let l : length r.slots ≡ block_count = ground (
        arith,
        length-replicate block_count (new_slot zero_float (frames_per_block * native.channels)),
      ) in
      let p : r.published_blocks ≡ 0 = ground arith in
      let q : r.consumed_blocks ≡ 0 = ground arith in
      let z =
        ap (λ k. window (view r.native r.stream_id) r.slots r.consumed_blocks k) (omega arith)
        ∙ window-zero (view r.native r.stream_id) r.slots r.consumed_blocks in
      subst
        (λ k. RunsAsQueue k (started r destination) acts (run sample (started r destination) acts))
        l
        (from_fifo (started r destination) acts (run sample (started r destination) acts) z
          (run-IsFifo sample acts (started r destination) v (omega arith)))
