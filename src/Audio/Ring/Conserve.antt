-- ===== src/Audio/Ring/Conserve.antt =====
-- No frame and no discontinuity goes uncounted.
use speakeasy_granite_rust_m.Base.{
  ℕ, ◌+◌, ◌-◌, ◌*◌, ◌/◌, ◌%◌, min, false, Option, none, some, List, [], ◌∷◌, ltb, leb, ◌==◌, length,
  get_elem?, ◌⊎◌, inl, inr, ◌<◌, ◌≡◌, refl, arith,
}
use speakeasy_granite_rust_m.Audio.Discontinuity.{
  AudioDiscontinuity, no_discontinuity, callback_queue_overflow, union,
}
use speakeasy_granite_rust_m.Audio.Ring.{
  word, wrapping_sub, same_format, NativeSample, CallbackStamp, CallbackWriteStatus, queue_full,
  Slot, Ring, Writing, CapturedNativeBlock,
}
use speakeasy_granite_rust_m.Audio.Ring.System.{
  System, Action, begins, continues, pops, Event, wrote, step, keep_event, run,
}
use speakeasy_granite_rust_m.Audio.Ring.Produce.{begin_write, write_block}
use speakeasy_granite_rust_m.Audio.Ring.Consume.{try_pop}
use speakeasy_granite_rust_m.Base.{Bool-cases, ◌||◌}
use speakeasy_granite_rust_m.Audio.Ring.{default_counters}
use speakeasy_granite_rust_m.Audio.Ring.System.{started}

-- The frames that a write still has to place.
abbrev pub left : {T : Type 0} → Option (Writing T) → ℕ
left none = 0
left (some w) = w.frame_count - w.accepted

abbrev pub InProgress : {T : Type 0} → Option (Writing T) → Type 0
InProgress none = Unit {0}
InProgress (some w) =
    (w.accepted < w.frame_count) × (w.accepted ≡ 0 ⊎ w.discontinuity ≡ no_discontinuity)

-- The frames received are those put in, those dropped and those of the write that is on.
abbrev pub Balanced : {T F : Type 0} → System T F → Type 0
Balanced s =
    InProgress s.writing
    × (0 < s.ring.frames_per_block)
    × (s.ring.counters.native_frames_received
        ≡ (s.ring.counters.native_frames_enqueued
            + s.ring.counters.native_frames_dropped
            + left s.writing)
          % word)

-- The flags that wait for a block to carry them.
abbrev pub owed : {T F : Type 0} → System T F → AudioDiscontinuity
owed s = elim s.writing [
  | none ↦ s.callback.pending_discontinuity
  | some w ↦ union s.callback.pending_discontinuity w.discontinuity
]

-- Each flag of the first is in the second.
abbrev pub Covers : AudioDiscontinuity → AudioDiscontinuity → Type 0
Covers a b =
    (a.has_device_report || b.has_device_report ≡ b.has_device_report)
    × (a.has_clock_gap || b.has_clock_gap ≡ b.has_clock_gap)
    × (a.has_overflow || b.has_overflow ≡ b.has_overflow)

abbrev pub Owes : {T F : Type 0} → CallbackWriteStatus → System T F → System T F → Type 0
Owes queue_full s q = Covers (union (owed s) callback_queue_overflow) (owed q)
Owes _ s q = Unit {0}

-- What a round of `w` reports, if it ends the write.
abbrev pub Reports :
    {T F : Type 0} → Writing T → System T F → Option (System T F × Event F) → Type 0
Reports w s (some (q, wrote r)) =
    (r.accepted_frames + r.dropped_frames ≡ w.frame_count) × Owes r.status s q
Reports w s _ = Unit {0}

abbrev After : {T F : Type 0} → System T F → Option (System T F × Event F) → Type 0
After s none = Unit {0}
After s (some (q, e)) = Balanced q

module _ {T F : Type 0} (sample : NativeSample T F) (s : System T F) (v : Balanced s) where
  begins-Balanced :
      (samples : List T) (stamp : CallbackStamp) → After s (step sample s (begins samples stamp))
  unfolding step begin_write
  begins-Balanced samples stamp = go s.writing refl
    where
      go : (o : Option (Writing T)) → s.writing ≡ o → After s (step sample s (begins samples stamp))
      go (some w) e = rw e (ground arith)
      go none e = elim (Bool-cases (same_format sample.format s.ring.native.sample_format)) [
        | inr a ↦ rw (e, a) (ground arith)
        | inl a ↦ elim (Bool-cases (length samples % s.ring.native.channels == 0)) [
          | inr b ↦ rw (e, a, b) (ground arith)
          | inl b ↦ elim (Bool-cases (length samples / s.ring.native.channels == 0)) [
            | inl c ↦ rw (e, a, b, c) (ground arith)
            | inr c ↦ rw (e, a, b, c) (ground arith)
          ]
        ]
      ]

  pops-Balanced : After s (step sample s pops)
  unfolding step try_pop
  pops-Balanced = elim (Bool-cases (s.read_cursor == s.ring.published_blocks)) [
    | inl a ↦ rw a (ground arith)
    | inr a ↦ go a (get_elem? s.ring.slots (s.read_cursor % length s.ring.slots)) refl
  ]
    where
      go :
          (s.read_cursor == s.ring.published_blocks) ≡ false
          → (o : Option (Slot F)) → get_elem? s.ring.slots (s.read_cursor % length s.ring.slots) ≡ o
          → After s (step sample s pops)
      go a none e = rw (a, e) tt
      go a (some slot) e =
          elim (Bool-cases
            (ltb (length s.destination.samples) (slot.frames * s.ring.native.channels))) [
              | inl b ↦ rw (a, e, b) tt
              | inr b ↦ rw (a, e, b) (ground arith)
            ]

  continues-Balanced : After s (step sample s continues)
  unfolding step write_block
  continues-Balanced = go s.writing refl
    where
      round :
          (w : Writing T)
          → s.writing ≡ some w
          → leb (length s.ring.slots) (wrapping_sub s.callback.write_cursor s.ring.consumed_blocks)
            ≡ false
          → (o : Option (Slot F))
          → get_elem? s.ring.slots (s.callback.write_cursor % length s.ring.slots) ≡ o
          → After s (step sample s continues)
      round w e a none d = rw (e, a, d) tt
      round w e a (some slot) d =
          elim (Bool-cases (
            leb w.frame_count
              (w.accepted + min (w.frame_count - w.accepted) s.ring.frames_per_block))) [
                | inl b ↦ rw (e, a, d, b) (ground arith)
                | inr b ↦ rw (e, a, d, b) (ground arith)
              ]

      go : (o : Option (Writing T)) → s.writing ≡ o → After s (step sample s continues)
      go none e = rw e (ground arith)
      go (some w) e =
          elim (Bool-cases (
            leb (length s.ring.slots)
              (wrapping_sub s.callback.write_cursor s.ring.consumed_blocks))) [
                | inl a ↦ rw (e, a) (ground arith)
                | inr a ↦
                    round w e a
                      (get_elem? s.ring.slots (s.callback.write_cursor % length s.ring.slots)) refl
              ]

  -- A write that ends accounts for each of its frames as accepted or dropped; and if it found the
  -- queue full, the overflow and every flag that no block carried yet wait for the next block.
  pub round-Reports : (w : Writing T) → s.writing ≡ some w → Reports w s (step sample s continues)
  unfolding step write_block
  round-Reports w e =
      elim (Bool-cases
        (leb (length s.ring.slots) (wrapping_sub s.callback.write_cursor s.ring.consumed_blocks))) [
          | inl a ↦ rw (e, a) (ground arith)
          | inr a ↦
              round a (get_elem? s.ring.slots (s.callback.write_cursor % length s.ring.slots)) refl
        ]
    where
      round :
          leb (length s.ring.slots) (wrapping_sub s.callback.write_cursor s.ring.consumed_blocks)
            ≡ false
          → (o : Option (Slot F))
          → get_elem? s.ring.slots (s.callback.write_cursor % length s.ring.slots) ≡ o
          → Reports w s (step sample s continues)
      round a none d = rw (e, a, d) tt
      round a (some slot) d =
          elim (Bool-cases (
            leb w.frame_count
              (w.accepted + min (w.frame_count - w.accepted) s.ring.frames_per_block))) [
                | inl b ↦ rw (e, a, d, b) (ground arith)
                | inr b ↦ rw (e, a, d, b) tt
              ]

module _ {T F : Type 0} (sample : NativeSample T F) where
  step-Balanced : (s : System T F) (a : Action T) → Balanced s → After s (step sample s a)
  step-Balanced s (begins samples stamp) v = begins-Balanced sample s v samples stamp
  step-Balanced s continues v = continues-Balanced sample s v
  step-Balanced s pops v = pops-Balanced sample s v

  run_balance :
      (acts : List (Action T)) (s q : System T F) (es : List (Event F))
      → Balanced s
      → run sample s acts ≡ some (q, es)
      → Balanced q
  unfolding run
  run_balance [] s q es v e = ground arith
  run_balance (a ∷ acts) s q es v e =
      go (step sample s a) refl (step-Balanced s a v) (run_balance acts)
    where
      kept :
          (x : Event F) (o : Option (System T F × List (Event F)))
          → keep_event x o ≡ some (q, es)
          → (rest : List (Event F)) × (o ≡ some (q, rest))
      kept x none d = cc
      kept x (some (z, zs)) d = (zs, ground arith)

      go :
          (o : Option (System T F × Event F))
          → step sample s a ≡ o
          → After s o
          → ((s q : System T F) (es : List (Event F))
              → Balanced s
              → run sample s acts ≡ some (q, es)
              → Balanced q)
          → Balanced q
      go none d b ih = ground arith
      go (some (p, x)) d b ih =
          let (rest, g) = kept x (run sample p acts) (ground arith) in ih p q rest b g

  -- However writes and pops are interleaved, the frames received are those in the blocks put in,
  -- those dropped and those of the write that is on, as the counters count them.
  pub frames_conserved :
      (r : Ring F) (destination : CapturedNativeBlock F) (acts : List (Action T)) (q : System T F)
      (es : List (Event F))
      → 0 < r.frames_per_block
      → r.counters ≡ default_counters
      → run sample (started r destination) acts ≡ some (q, es)
      → Balanced q
  frames_conserved r destination acts q es f k e =
      run_balance acts (started r destination) q es (ground arith) e
