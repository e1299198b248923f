-- ===== src/Audio/Ring/Produce.antt =====
-- crates/speakeasy-audio/src/callback.rs: `CaptureCallback::write`, its loop a round at a time.
use speakeasy_granite_rust_m.Base.{
  ℕ, ◌+◌, ◌-◌, ◌*◌, ◌/◌, ◌%◌, min, Bool, false, not, Option, none, some, List, [], ◌∷◌, map, leb,
  ◌==◌, if◌then◌else◌, saturating_add64, u64_max, length, take, drop, get_elem?, set, ◌⊎◌, inl, inr,
}
use speakeasy_granite_rust_m.Audio.Discontinuity.{
  no_discontinuity, sample_clock_gap, callback_queue_overflow, union,
}
use speakeasy_granite_rust_m.Audio.Ring.{
  wrapping_add, wrapping_sub, same_format, ConvertedSample, NativeSample, CallbackStamp,
  CallbackWriteStatus, complete, queue_full, invalid_interleaving, unexpected_sample_format,
  CallbackWrite, CallbackCounters, Slot, Ring, CaptureCallback, Writing, store_over,
}

abbrev count_flags : {A : Type 0} → (A → Bool) → List A → ℕ
count_flags p [] = 0
count_flags p (x ∷ xs) = (if p x then 1 else 0) + count_flags p xs

abbrev gap_seen : Option ℕ → ℕ → Bool
gap_seen none first = false
gap_seen (some expected) first = not (expected == first)

module _ {T F : Type 0} where
  refuse :
      CallbackWriteStatus
      → Ring F
      → CaptureCallback
      → CallbackCounters
      → Ring F × CaptureCallback × (CallbackWrite ⊎ Writing T)
  refuse status r c counters = (
    record r { counters = counters },
    c,
    inl (record { accepted_frames = 0; dropped_frames = 0; status = status }),
  )

  -- From `frame_count` to the loop; the counter of callbacks is raised already.
  open_write :
      Ring F
      → CaptureCallback
      → List T
      → CallbackStamp
      → Ring F × CaptureCallback × (CallbackWrite ⊎ Writing T)
  open_write r c samples stamp =
      let frame_count = length samples / r.native.channels in
      let gap = gap_seen c.expected_first_frame stamp.first_frame_index in
      let joined = union stamp.discontinuity c.pending_discontinuity in
      let discontinuity = if gap then union joined sample_clock_gap else joined in
      let k = r.counters in
      let q = record r {
        counters = record k {
          native_frames_received = wrapping_add k.native_frames_received frame_count;
          sample_clock_gaps = wrapping_add k.sample_clock_gaps (if gap then 1 else 0);
        };
      } in
      let d = record c {
        expected_first_frame = some (saturating_add64 stamp.first_frame_index frame_count);
        pending_discontinuity = no_discontinuity;
      } in
      if frame_count == 0
      then (
        q,
        record d { pending_discontinuity = discontinuity },
        inl (record { accepted_frames = 0; dropped_frames = 0; status = complete }),
      )
      else (
        q,
        d,
        inr (record {
          source = samples;
          stamp = stamp;
          frame_count = frame_count;
          accepted = 0;
          discontinuity = discontinuity;
        }),
      )

  -- `CaptureCallback::write` up to its loop.
  unfoldable pub begin_write :
      NativeSample T F
      → Ring F
      → CaptureCallback
      → List T
      → CallbackStamp
      → Ring F × CaptureCallback × (CallbackWrite ⊎ Writing T)
  unfolding refuse open_write
  begin_write sample r c samples stamp =
      let k = record (r.counters) { callbacks = wrapping_add r.counters.callbacks 1 } in
      if not (same_format sample.format r.native.sample_format)
      then refuse unexpected_sample_format r c
          (record k { sample_format_mismatches = wrapping_add k.sample_format_mismatches 1 })
      else if not (length samples % r.native.channels == 0)
      then refuse invalid_interleaving r c
          (record k { malformed_callbacks = wrapping_add k.malformed_callbacks 1 })
      else open_write (record r { counters = k }) c samples stamp

  -- The round of the loop that finds the ring full.
  drop_rest :
      Ring F → CaptureCallback → Writing T → Ring F × CaptureCallback × (CallbackWrite ⊎ Writing T)
  drop_rest r c w =
      let dropped = w.frame_count - w.accepted in
      let k = r.counters in
      let overflowed = union c.pending_discontinuity callback_queue_overflow in
      (
        record r {
          counters = record k {
            blocks_dropped = wrapping_add k.blocks_dropped 1;
            native_frames_dropped = wrapping_add k.native_frames_dropped dropped;
            queue_overflows = wrapping_add k.queue_overflows 1;
          };
        },
        record c {
          pending_discontinuity =
              if w.accepted == 0 then union overflowed w.discontinuity else overflowed;
        },
        inl (record {
          accepted_frames = w.accepted;
          dropped_frames = dropped;
          status = queue_full;
        }),
      )

  -- The slot after the stores of a round, over `frames` frames of `chunk`.
  abbrev pub filled :
      Ring F → CaptureCallback → Writing T → Slot F → ℕ → List (ConvertedSample F) → Slot F
  filled r c w slot frames converted = record {
    samples = store_over slot.samples (map (λ x. x.value) converted);
    frames = frames;
    source_sequence = c.source_sequence;
    first_frame_index = saturating_add64 w.stamp.first_frame_index w.accepted;
    capture_monotonic_ns =
        saturating_add64 w.stamp.capture_monotonic_ns
          (min (w.accepted * 1000000000) u64_max / r.native.sample_rate_hz);
    discontinuity = w.discontinuity;
  }

  -- The round that publishes a block; `none` for a slot out of range, which panics.
  publish :
      Ring F
      → CaptureCallback
      → Writing T
      → ℕ
      → List (ConvertedSample F)
      → Option (Slot F)
      → Option (Ring F × CaptureCallback × (CallbackWrite ⊎ Writing T))
  publish r c w frames chunk none = none
  publish r c w frames chunk (some slot) =
      let converted = take (length slot.samples) chunk in
      let k = r.counters in
      let cursor = wrapping_add c.write_cursor 1 in
      let accepted = w.accepted + frames in
      let q = record r {
        slots = set r.slots (c.write_cursor % length r.slots) (filled r c w slot frames converted);
        published_blocks = cursor;
        counters = record k {
          clipped_samples = wrapping_add k.clipped_samples (count_flags (λ x. x.clipped) converted);
          non_finite_samples =
              wrapping_add k.non_finite_samples (count_flags (λ x. x.non_finite) converted);
          blocks_enqueued = wrapping_add k.blocks_enqueued 1;
          native_frames_enqueued = wrapping_add k.native_frames_enqueued frames;
        };
      } in
      let d = record c {
        write_cursor = cursor;
        source_sequence = wrapping_add c.source_sequence 1;
      } in
      some (
        if leb w.frame_count accepted
        then (
          q,
          d,
          inl (record { accepted_frames = accepted; dropped_frames = 0; status = complete }),
        )
        else (q, d, inr (record w { accepted = accepted; discontinuity = no_discontinuity })))

  -- A round of the loop of `CaptureCallback::write`.
  unfoldable pub write_block :
      NativeSample T F
      → Ring F
      → CaptureCallback
      → Writing T
      → Option (Ring F × CaptureCallback × (CallbackWrite ⊎ Writing T))
  unfolding drop_rest publish
  write_block sample r c w =
      let channels = r.native.channels in
      let frames = min (w.frame_count - w.accepted) r.frames_per_block in
      let chunk = take (frames * channels) (drop (w.accepted * channels) w.source) in
      if leb (length r.slots) (wrapping_sub c.write_cursor r.consumed_blocks)
      then some (drop_rest r c w)
      else publish r c w frames (map sample.to_normalized_f32 chunk)
          (get_elem? r.slots (c.write_cursor % length r.slots))
