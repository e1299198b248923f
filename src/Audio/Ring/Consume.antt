-- ===== src/Audio/Ring/Consume.antt =====
-- crates/speakeasy-audio/src/callback.rs: `RingConsumer::try_pop`.
use speakeasy_granite_rust_m.Base.{
  ℕ, ◌*◌, ◌%◌, Bool, true, false, Option, none, some, ltb, ◌++◌, ◌==◌, if◌then◌else◌, length, take,
  drop, get_elem?,
}
use speakeasy_granite_rust_m.Audio.Ring.{
  wrapping_add, Slot, Ring, AudioChunkMetadata, CapturedNativeBlock, store_over,
}

module _ {F : Type 0} where
  abbrev pub metadata_of : Ring F → Slot F → AudioChunkMetadata
  metadata_of r slot = record {
    stream_id = r.stream_id;
    source_sequence = slot.source_sequence;
    sample_rate_hz = r.native.sample_rate_hz;
    first_frame_index = slot.first_frame_index;
    capture_monotonic_ns = slot.capture_monotonic_ns;
    discontinuity = slot.discontinuity;
  }

  -- `none` where a slice is out of range, which panics.
  copy_out :
      Ring F
      → ℕ
      → CapturedNativeBlock F
      → Option (Slot F)
      → Option (Ring F × ℕ × CapturedNativeBlock F × Bool)
  copy_out r cursor dest none = none
  copy_out r cursor dest (some slot) =
      let sample_len = slot.frames * r.native.channels in
      let next = wrapping_add cursor 1 in
      if ltb (length dest.samples) sample_len
      then none
      else some (
        record r { consumed_blocks = next },
        next,
        record {
          samples =
              store_over (take sample_len dest.samples) slot.samples
              ++ drop sample_len dest.samples;
          sample_len = sample_len;
          frames = slot.frames;
          metadata = some (metadata_of r slot);
        },
        true,
      )

  -- `RingConsumer::try_pop`.
  unfoldable pub try_pop :
      Ring F → ℕ → CapturedNativeBlock F → Option (Ring F × ℕ × CapturedNativeBlock F × Bool)
  unfolding copy_out
  try_pop r cursor dest =
      if cursor == r.published_blocks
      then some (r, cursor, dest, false)
      else copy_out r cursor dest (get_elem? r.slots (cursor % length r.slots))
