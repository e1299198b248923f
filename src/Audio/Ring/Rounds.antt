-- ===== src/Audio/Ring/Rounds.antt =====
-- What a round of a write does to the blocks in the ring.
use speakeasy_granite_rust_m.Base.{
  ℕ, ◌+◌, ◌-◌, ◌*◌, ◌%◌, min, true, false, Option, none, some, List, [], ◌∷◌, map, leb, ◌++◌, ◌==◌,
  length, take, drop, set, inl, inr, suc, ◌≤◌, ◌<◌, ◌≡◌, refl, sym, ap, ◌∙◌, arith, length-set,
  length-take, length-drop, length-map, append-nil,
}
use speakeasy_granite_rust_m.Audio.Ring.{
  word, wrapping_add, wrapping_sub, NativeSample, Slot, Writing, store_over,
}
use speakeasy_granite_rust_m.Audio.Ring.System.{System, continues, step}
use speakeasy_granite_rust_m.Audio.Ring.Produce.{filled, write_block}
use speakeasy_granite_rust_m.Audio.Ring.Slots.{take_all, take-store_over, length-store_over, view}
use speakeasy_granite_rust_m.Audio.Window.{window, window-store, length-window}
use speakeasy_granite_rust_m.Base.{All, Bool-cases}
use mathlib.Core.Path.{subst}
use speakeasy_granite_rust_m.Audio.Ring.Steps.{
  IsSized, Fits, Inv, held, block_of, round_pushes, pushes, frames_fit, rest_fits, Advances,
  slot_at, All-set,
}

module _ {T F : Type 0} (sample : NativeSample T F) (s : System T F) (v : Inv s) where
  length-converted :
      (w : Writing T) (frames : ℕ)
      → frames ≤ w.frame_count - w.accepted
      → w.frame_count * s.ring.native.channels ≡ length w.source
      → w.accepted < w.frame_count
      → length (
          map sample.to_normalized_f32 (
            take
              (frames * s.ring.native.channels)
              (drop (w.accepted * s.ring.native.channels) w.source)))
        ≡ frames * s.ring.native.channels
  length-converted w frames h e l =
      let chunk =
        take (frames * s.ring.native.channels)
          (drop (w.accepted * s.ring.native.channels) w.source) in
      omega (
        arith,
        length-map chunk sample.to_normalized_f32,
        length-take (frames * s.ring.native.channels)
            (drop (w.accepted * s.ring.native.channels) w.source),
        length-drop (w.accepted * s.ring.native.channels) w.source,
        rest_fits w.frame_count w.accepted frames s.ring.native.channels (length w.source) l h e,
      )

  -- A stored slot reads as the block.
  view-filled :
      (w : Writing T) (slot : Slot F)
      → IsSized s.ring slot
      → Fits s.ring.native.channels (some w)
      → let frames = min (w.frame_count - w.accepted) s.ring.frames_per_block in
        let converted = map sample.to_normalized_f32 (
          take
            (frames * s.ring.native.channels)
            (drop (w.accepted * s.ring.native.channels) w.source)) in
        view s.ring.native s.ring.stream_id
          (filled s.ring s.callback w slot frames (take (length slot.samples) converted))
        ≡ block_of sample s.ring s.callback w
  view-filled w slot (z, y) (e, l) =
      let frames = min (w.frame_count - w.accepted) s.ring.frames_per_block in
      let converted = map sample.to_normalized_f32 (
        take (frames * s.ring.native.channels)
          (drop (w.accepted * s.ring.native.channels) w.source)) in
      let n = length-converted w frames (omega arith) e l in
      let fit = frames_fit frames s.ring.frames_per_block s.ring.native.channels (omega arith) in
      let whole = take_all (length slot.samples) converted (omega arith) in
      let m = length-map converted (λ x. x.value) in
      let t = take-store_over slot.samples (map (λ x. x.value) converted) (omega arith) in
      let g : take (frames * s.ring.native.channels)
            (store_over slot.samples (map (λ x. x.value) converted))
          ≡ map (λ x. x.value) converted =
        ap (λ k. take k (store_over slot.samples (map (λ x. x.value) converted))) (sym (m ∙ n))
        ∙ t in
      rw (whole, g)

  abbrev frames_of : Writing T → ℕ
  frames_of w = min (w.frame_count - w.accepted) s.ring.frames_per_block

  -- The slot that a round stores, over `slot`.
  abbrev stored : Writing T → Slot F → Slot F
  stored w slot = filled s.ring s.callback w slot (frames_of w) (
      take (length slot.samples) (
        map sample.to_normalized_f32 (
          take (frames_of w * s.ring.native.channels)
            (drop (w.accepted * s.ring.native.channels) w.source))))

  abbrev slots_after : Writing T → Slot F → List (Slot F)
  slots_after w slot =
      set s.ring.slots (s.callback.write_cursor % length s.ring.slots) (stored w slot)

  held_after :
      (w : Writing T) (slot : Slot F)
      → IsSized s.ring slot
      → Fits s.ring.native.channels (some w)
      → s.ring.published_blocks < s.ring.consumed_blocks + length s.ring.slots
      → window
          (view s.ring.native s.ring.stream_id)
          (slots_after w slot)
          s.ring.consumed_blocks
          (suc s.callback.write_cursor - s.ring.consumed_blocks)
        ≡ held s ++ block_of sample s.ring s.callback w ∷ []
  held_after w slot z g r =
      let k = s.ring.published_blocks - s.ring.consumed_blocks in
      let c : s.callback.write_cursor ≡ s.ring.consumed_blocks + k =
        omega (arith, v.written, v.behind) in
      let d : suc s.callback.write_cursor - s.ring.consumed_blocks ≡ suc k =
        omega (arith, v.written, v.behind) in
      ap
        (λ j.
          window (view s.ring.native s.ring.stream_id) (slots_after w slot) s.ring.consumed_blocks
            j)
        d
      ∙ ap
          (λ j.
            window (view s.ring.native s.ring.stream_id)
              (set s.ring.slots (j % length s.ring.slots) (stored w slot)) s.ring.consumed_blocks
              (suc k))
          c
      ∙ window-store (view s.ring.native s.ring.stream_id) s.ring.slots (stored w slot)
          s.ring.consumed_blocks k (omega (arith, v.behind))
      ∙ ap (λ b. held s ++ b ∷ []) (view-filled w slot z g)

  slots_after-IsSized :
      (w : Writing T) (slot : Slot F)
      → IsSized s.ring slot
      → All (IsSized s.ring) (slots_after w slot)
  slots_after-IsSized w slot (z, y) =
      All-set (IsSized s.ring) s.ring.slots (s.callback.write_cursor % length s.ring.slots)
        (stored w slot) v.sized
        (
          length-store_over slot.samples (
                map (λ x. x.value)
                  (take (length slot.samples) (
                    map sample.to_normalized_f32 (
                      take (frames_of w * s.ring.native.channels)
                        (drop (w.accepted * s.ring.native.channels) w.source)))))
              ∙ z,
          frames_fit (frames_of w) s.ring.frames_per_block s.ring.native.channels (omega arith),
        )

  -- A round that finds room.
  publish_lem :
      (w : Writing T)
      → s.writing ≡ some w
      → suc s.ring.published_blocks < word
      → s.ring.published_blocks < s.ring.consumed_blocks + length s.ring.slots
      → Advances s (block_of sample s.ring s.callback w ∷ []) (step sample s continues)
  unfolding step write_block
  publish_lem w e b r =
      let (slot, d, z) = slot_at sample s v s.callback.write_cursor in
      let f : Fits s.ring.native.channels (some w) = ground arith in
      let o : leb (length s.ring.slots)
            (wrapping_sub s.callback.write_cursor s.ring.consumed_blocks)
          ≡ false =
        ground arith in
      let m : wrapping_add s.callback.write_cursor 1 ≡ suc s.callback.write_cursor = ground arith in
      let h = held_after w slot z f r in
      let x = slots_after-IsSized w slot z in
      let n =
        length-set s.ring.slots (s.callback.write_cursor % length s.ring.slots) (stored w slot) in
      elim (Bool-cases (leb w.frame_count (w.accepted + frames_of w))) [
        | inl t ↦ rw (e, o, d, t, m) (ground arith, h, ground arith, n)
        | inr t ↦ rw (e, o, d, t, m) (ground arith, h, ground arith, n)
      ]

  full_lem :
      (w : Writing T)
      → s.writing ≡ some w
      → s.ring.published_blocks ≡ s.ring.consumed_blocks + length s.ring.slots
      → Advances s [] (step sample s continues)
  unfolding step write_block
  full_lem w e f =
      let o : leb (length s.ring.slots)
            (wrapping_sub s.callback.write_cursor s.ring.consumed_blocks)
          ≡ true =
        ground arith in
      rw (e, o) (ground arith, sym (append-nil (held s)), ground arith, refl)

  pub length-held : length (held s) ≡ s.ring.published_blocks - s.ring.consumed_blocks
  length-held =
      length-window (view s.ring.native s.ring.stream_id) s.ring.slots s.ring.consumed_blocks
        (s.ring.published_blocks - s.ring.consumed_blocks) v.has_slots

  idle_lem : s.writing ≡ none → Advances s [] (step sample s continues)
  unfolding step
  idle_lem e = rw e (ground arith, sym (append-nil (held s)), ground arith, refl)

  pub round_lem :
      suc s.ring.published_blocks < word
      → Advances s (pushes sample s continues) (step sample s continues)
  round_lem b = go s.writing refl
    where
      go :
          (o : Option (Writing T))
          → s.writing ≡ o
          → Advances s (pushes sample s continues) (step sample s continues)
      go none e =
          subst (λ p. Advances s p (step sample s continues)) (sym (ap (round_pushes sample s) e))
            (idle_lem e)
      go (some w) e = elim (Bool-cases (length (held s) == length s.ring.slots)) [
        | inl a ↦
            let n : round_pushes sample s (some w) ≡ [] = rw a in
            subst (λ p. Advances s p (step sample s continues))
              (sym (ap (round_pushes sample s) e ∙ n)) (full_lem w e (ground (arith, length-held)))
        | inr a ↦
            let n : round_pushes sample s (some w) ≡ block_of sample s.ring s.callback w ∷ [] =
              rw a in
            subst (λ p. Advances s p (step sample s continues))
              (sym (ap (round_pushes sample s) e ∙ n))
              (publish_lem w e b (ground (arith, length-held)))
      ]
