-- ===== src/Audio/Ring/Steps.antt =====
-- What a step of the callback or of the consumer does to the blocks in the ring.
use native.Mathlib.Nat.{add-mul, mod-add-div', mod-lt}
use speakeasy_granite_rust_m.Base.{
  ℕ, ◌+◌, ◌-◌, ◌*◌, ◌/◌, ◌%◌, min, false, Option, none, some, List, [], ◌∷◌, map, ltb, ◌++◌, ◌==◌,
  if◌then◌else◌, saturating_add64, u64_max, length, take, drop, get_elem?, set, inl, inr, zero, suc,
  ◌≤◌, ◌<◌, ◌≡◌, ◌≢◌, refl, sym, ap, ◌∙◌, arith, get_elem?-some, append-nil,
}
use speakeasy_granite_rust_m.Audio.Ring.{
  word, wrapping_add, same_format, NativeSample, CallbackStamp, Slot, Ring, CaptureCallback,
  Writing,
}
use speakeasy_granite_rust_m.Audio.Ring.System.{
  System, Action, begins, continues, pops, Popped, Event, popped, step,
}
use speakeasy_granite_rust_m.Audio.Ring.Produce.{begin_write}
use speakeasy_granite_rust_m.Audio.Ring.Consume.{try_pop}
use speakeasy_granite_rust_m.Audio.Ring.Slots.{take-copied, length-copied, view}
use speakeasy_granite_rust_m.Audio.Window.{window, window-first}
use speakeasy_granite_rust_m.Base.{All, Bool-cases}
use mathlib.Core.Path.{subst}

abbrev pub IsSized : {F : Type 0} → Ring F → Slot F → Type 0
IsSized r slot =
    (length slot.samples ≡ r.frames_per_block * r.native.channels)
    × (slot.frames * r.native.channels ≤ r.frames_per_block * r.native.channels)

-- A write between two rounds has frames left, and whole ones.
abbrev pub Fits : {T : Type 0} → ℕ → Option (Writing T) → Type 0
Fits channels none = Unit {0}
Fits channels (some w) = (w.frame_count * channels ≡ length w.source) × (w.accepted < w.frame_count)

pub record Inv {T F : Type 0} (s : System T F) : Type 0 where
  pub written : s.ring.published_blocks ≡ s.callback.write_cursor
  pub read : s.ring.consumed_blocks ≡ s.read_cursor
  pub behind : s.ring.consumed_blocks ≤ s.ring.published_blocks
  pub within : s.ring.published_blocks ≤ s.ring.consumed_blocks + length s.ring.slots
  pub bounded : s.ring.published_blocks < word
  pub has_slots : 0 < length s.ring.slots
  pub has_channels : 0 < s.ring.native.channels
  pub has_frames : 0 < s.ring.frames_per_block
  pub sized : All (IsSized s.ring) s.ring.slots
  pub room : s.ring.frames_per_block * s.ring.native.channels ≤ length s.destination.samples
  pub busy : Fits s.ring.native.channels s.writing

-- The blocks in the ring, oldest first.
abbrev pub held : {T F : Type 0} → System T F → List (Popped F)
held s =
    window (view s.ring.native s.ring.stream_id) s.ring.slots s.ring.consumed_blocks
      (s.ring.published_blocks - s.ring.consumed_blocks)

abbrev pub popped_of : {F : Type 0} → Event F → List (Popped F)
popped_of (popped b) = b ∷ []
popped_of _ = []

module _ {A : Type 0} (P : A → Type 0) where
  All-get : (xs : List A) (i : ℕ) (x : A) → All P xs → get_elem? xs i ≡ some x → P x
  All-get [] i x h e = cc
  All-get (y ∷ xs) zero x (p, h) e =
      subst (λ o. elim o as (λ _. Type 0) [ none ↦ Unit {0} | some z ↦ P z ]) e p
  All-get (y ∷ xs) (suc i) x (p, h) e = All-get xs i x h e

  pub All-set : (xs : List A) (i : ℕ) (x : A) → All P xs → P x → All P (set xs i x)
  All-set [] i x h p = tt
  All-set (y ∷ xs) zero x (q, h) p = (p, h)
  All-set (y ∷ xs) (suc i) x (q, h) p = (q, All-set xs i x h p)

-- The block that the next round of `w` puts in: its frames, converted, and its metadata.
abbrev pub block_of :
    {T F : Type 0} → NativeSample T F → Ring F → CaptureCallback → Writing T → Popped F
block_of sample r c w =
    let channels = r.native.channels in
    let frames = min (w.frame_count - w.accepted) r.frames_per_block in
    record {
      samples =
          map (λ x. x.value)
            (map sample.to_normalized_f32
              (take (frames * channels) (drop (w.accepted * channels) w.source)));
      frames = frames;
      metadata = some (record {
        stream_id = r.stream_id;
        source_sequence = c.source_sequence;
        sample_rate_hz = r.native.sample_rate_hz;
        first_frame_index = saturating_add64 w.stamp.first_frame_index w.accepted;
        capture_monotonic_ns =
            saturating_add64 w.stamp.capture_monotonic_ns
              (min (w.accepted * 1000000000) u64_max / r.native.sample_rate_hz);
        discontinuity = w.discontinuity;
      });
    }

abbrev pub round_pushes :
    {T F : Type 0} → NativeSample T F → System T F → Option (Writing T) → List (Popped F)
round_pushes sample s none = []
round_pushes sample s (some w) =
    if length (held s) == length s.ring.slots then [] else block_of sample s.ring s.callback w ∷ []

-- What a step puts into the queue: a round of a write does, unless the queue is full.
abbrev pub pushes : {T F : Type 0} → NativeSample T F → System T F → Action T → List (Popped F)
pushes sample s continues = round_pushes sample s s.writing
pushes sample s _ = []

pub frames_fit : (a b c : ℕ) → a ≤ b → a * c ≤ b * c
frames_fit a b c h = grind arith

pub rest_fits :
    (count accepted frames channels total : ℕ)
    → accepted < count
    → frames ≤ count - accepted
    → count * channels ≡ total
    → frames * channels ≤ total - accepted * channels
rest_fits count accepted frames channels total h k e =
    let m = frames_fit (frames + accepted) count channels (omega arith) in
    omega (arith, add-mul frames accepted channels)

-- After a step to `q` with event `e`, on which `offered` went in.
abbrev pub Advances :
    {T F : Type 0} → System T F → List (Popped F) → Option (System T F × Event F) → Type 0
Advances s offered none = ⊥
Advances s offered (some (q, e)) =
    Inv q
    × (popped_of e ++ held q ≡ held s ++ offered)
    × (q.ring.published_blocks ≤ suc s.ring.published_blocks)
    × (length q.ring.slots ≡ length s.ring.slots)

module _ {T F : Type 0} (sample : NativeSample T F) (s : System T F) (v : Inv s) where
  -- A slot that is there, and its sizes.
  pub slot_at :
      (c : ℕ)
      → (slot : Slot F) × (get_elem? s.ring.slots (c % length s.ring.slots) ≡ some slot)
        × IsSized s.ring slot
  slot_at c =
      let (slot, e) =
        get_elem?-some s.ring.slots (c % length s.ring.slots)
          (mod-lt c {m = length s.ring.slots} v.has_slots) in
      (slot, e, All-get (IsSized s.ring) s.ring.slots (c % length s.ring.slots) slot v.sized e)

  window_first :
      (slot : Slot F)
      → get_elem? s.ring.slots (s.read_cursor % length s.ring.slots) ≡ some slot
      → s.read_cursor ≢ s.ring.published_blocks
      → held s
        ≡ view s.ring.native s.ring.stream_id slot
          ∷ window
              (view s.ring.native s.ring.stream_id)
              s.ring.slots
              (suc s.read_cursor)
              (s.ring.published_blocks - suc s.read_cursor)
  window_first slot e ne =
      let d : s.ring.published_blocks - s.ring.consumed_blocks
          ≡ suc (s.ring.published_blocks - suc s.read_cursor) =
        ground arith in
      ap (λ k. window (view s.ring.native s.ring.stream_id) s.ring.slots s.ring.consumed_blocks k) d
      ∙ ap
          (λ c.
            window (view s.ring.native s.ring.stream_id) s.ring.slots c
              (suc (s.ring.published_blocks - suc s.read_cursor)))
          v.read
      ∙ window-first (view s.ring.native s.ring.stream_id) s.ring.slots slot s.read_cursor
          (s.ring.published_blocks - suc s.read_cursor) e

  pub pop_lem : Advances s [] (step sample s pops)
  unfolding step try_pop
  pop_lem =
      let (slot, e, (z, y)) = slot_at s.read_cursor in
      elim (Bool-cases (s.read_cursor == s.ring.published_blocks)) [
        | inl a ↦ rw a (v, sym (append-nil (held s)), omega arith, refl)
        | inr a ↦
            let w = window_first slot e (ground arith) in
            let l : slot.frames * s.ring.native.channels ≤ length s.destination.samples =
              omega (arith, v.room) in
            let k =
              take-copied (slot.frames * s.ring.native.channels) s.destination.samples slot.samples
                l (omega arith) in
            let m : wrapping_add s.read_cursor 1 ≡ suc s.read_cursor = ground arith in
            let b : ltb (length s.destination.samples) (slot.frames * s.ring.native.channels)
                ≡ false =
              ground arith in
            rw (a, e, b, m)
              (
                ground (
                  arith,
                  length-copied (slot.frames * s.ring.native.channels) s.destination.samples
                      slot.samples,
                ),
                ground (arith, append-nil (held s)),
                omega arith,
                refl,
              )
      ]

  pub begin_lem :
      (samples : List T) (stamp : CallbackStamp)
      → Advances s [] (step sample s (begins samples stamp))
  unfolding step begin_write
  begin_lem samples stamp = go s.writing refl
    where
      go :
          (o : Option (Writing T))
          → s.writing ≡ o
          → Advances s [] (step sample s (begins samples stamp))
      go (some w) e = rw e (ground arith, sym (append-nil (held s)), omega arith, refl)
      go none e = elim (Bool-cases (same_format sample.format s.ring.native.sample_format)) [
        | inr a ↦ rw (e, a) (ground arith, sym (append-nil (held s)), omega arith, refl)
        | inl a ↦ elim (Bool-cases (length samples % s.ring.native.channels == 0)) [
          | inr b ↦ rw (e, a, b) (ground arith, sym (append-nil (held s)), omega arith, refl)
          | inl b ↦ elim (Bool-cases (length samples / s.ring.native.channels == 0)) [
            | inl c ↦ rw (e, a, b, c) (ground arith, sym (append-nil (held s)), omega arith, refl)
            | inr c ↦
                let m = mod-add-div' (length samples) s.ring.native.channels in
                rw (e, a, b, c) (ground arith, sym (append-nil (held s)), omega arith, refl)
          ]
        ]
      ]
