-- ===== src/Audio/Processing/Buffers.antt =====
-- The buffers of samples with their metadata: the pre-roll, which goes round, and the utterance.
use speakeasy_granite_rust_m.Base.{
  ℕ, zero, suc, ◌+◌, ◌-◌, ◌*◌, ◌/◌, ◌%◌, min, Bool, true, false, Option, none, some, List, [], ◌∷◌,
  ◌++◌, ltb, ◌==◌, if◌then◌else◌, length, take, drop, get_elem?, set, replicate, u64_max,
  saturating_add64,
}
use speakeasy_granite_rust_m.Audio.Discontinuity.{AudioDiscontinuity, no_discontinuity}
use speakeasy_granite_rust_m.Audio.Ring.{AudioChunkMetadata}

pub record ProcessedSampleMetadata : Type 0 where
  pub output_sample_index : ℕ
  pub source_first_frame_index : ℕ
  pub estimated_monotonic_ns : ℕ
  pub discontinuity : AudioDiscontinuity

abbrev pub empty_sample_metadata : ProcessedSampleMetadata
empty_sample_metadata = record {
  output_sample_index = 0;
  source_first_frame_index = 0;
  estimated_monotonic_ns = 0;
  discontinuity = no_discontinuity;
}

abbrev pub sample_metadata : AudioChunkMetadata → ℕ → ℕ → ℕ → ProcessedSampleMetadata
sample_metadata source first_output_sample_index target_rate offset = record {
  output_sample_index = saturating_add64 first_output_sample_index offset;
  source_first_frame_index = source.first_frame_index;
  estimated_monotonic_ns =
      saturating_add64 source.capture_monotonic_ns
        (min (offset * 1000000000) u64_max / target_rate);
  discontinuity = if offset == 0 then source.discontinuity else no_discontinuity;
}

pub record TimedRingBuffer (F : Type 0) : Type 0 where
  pub samples : List F
  pub metadata : List ProcessedSampleMetadata
  pub start : ℕ
  pub len : ℕ

pub record TimedUtteranceBuffer (F : Type 0) : Type 0 where
  pub samples : List F
  pub metadata : List ProcessedSampleMetadata
  pub len : ℕ

module _ {F : Type 0} where
  abbrev pub new_timed_ring : F → ℕ → TimedRingBuffer F
  new_timed_ring silence capacity = record {
    samples = replicate capacity silence;
    metadata = replicate capacity empty_sample_metadata;
    start = 0;
    len = 0;
  }

  abbrev pub new_utterance : F → ℕ → TimedUtteranceBuffer F
  new_utterance silence capacity = record {
    samples = replicate capacity silence;
    metadata = replicate capacity empty_sample_metadata;
    len = 0;
  }

  -- The loop's body of `push_block`, with how many samples it overwrites; `none` is the panic of an
  -- index out of range.
  unfoldable pub push_sample :
      TimedRingBuffer F → F → ProcessedSampleMetadata → Option (TimedRingBuffer F × ℕ)
  push_sample b sample metadata =
      let index = (b.start + b.len) % length b.samples in
      if ltb b.len (length b.samples)
      then some (
        record b {
          samples = set b.samples index sample;
          metadata = set b.metadata index metadata;
          len = b.len + 1;
        },
        0,
      )
      else if ltb b.start (length b.samples)
      then some (
        record b {
          samples = set b.samples b.start sample;
          metadata = set b.metadata b.start metadata;
          start = (b.start + 1) % length b.samples;
        },
        1,
      )
      else none

  abbrev pub add_overwritten : ℕ → Option (TimedRingBuffer F × ℕ) → Option (TimedRingBuffer F × ℕ)
  add_overwritten n none = none
  add_overwritten n (some (b, overwritten)) = some (b, n + overwritten)

  -- The loop of `push_block`, from `offset` on.
  unfoldable pub push_from :
      TimedRingBuffer F
      → (ℕ → ProcessedSampleMetadata)
      → ℕ
      → List F
      → Option (TimedRingBuffer F × ℕ)
  unfolding push_sample
  push_from b stamp offset [] = some (b, 0)
  push_from b stamp offset (sample ∷ samples) = elim (push_sample b sample (stamp offset)) [
    | none ↦ none
    | some (b', n) ↦ add_overwritten n (push_from b' stamp (suc offset) samples)
  ]

  unfoldable pub push_block :
      TimedRingBuffer F → List F → AudioChunkMetadata → ℕ → ℕ → Option (TimedRingBuffer F × ℕ)
  unfolding push_from
  push_block b samples source first_output_sample_index target_rate =
      push_from b (sample_metadata source first_output_sample_index target_rate) 0 samples

  -- `TimedUtteranceBuffer::push`.
  unfoldable pub push :
      TimedUtteranceBuffer F → F → ProcessedSampleMetadata → TimedUtteranceBuffer F × Bool
  push u sample metadata = if u.len == length u.samples then (u, false) else (
    record u {
      samples = set u.samples u.len sample;
      metadata = set u.metadata u.len metadata;
      len = u.len + 1;
    },
    true,
  )

  -- The loop of `append_block`, from `offset` on.
  unfoldable pub append_from :
      TimedUtteranceBuffer F → (ℕ → ProcessedSampleMetadata) → ℕ → List F → TimedUtteranceBuffer F
  unfolding push
  append_from u stamp offset [] = u
  append_from u stamp offset (sample ∷ samples) =
      append_from (push u sample (stamp offset)).0 stamp (suc offset) samples

  -- `append_block`, with the numbers of samples accepted and rejected.
  unfoldable pub append_block :
      TimedUtteranceBuffer F → List F → AudioChunkMetadata → ℕ → ℕ → TimedUtteranceBuffer F × ℕ × ℕ
  unfolding append_from
  append_block u samples source first_output_sample_index target_rate =
      let accepted = min (length u.samples - u.len) (length samples) in
      (
        append_from u (sample_metadata source first_output_sample_index target_rate) 0
            (take accepted samples),
        accepted,
        length samples - accepted,
      )

  abbrev push_held :
      TimedUtteranceBuffer F
      → Option F
      → Option ProcessedSampleMetadata
      → Option (TimedUtteranceBuffer F)
  push_held u (some sample) (some metadata) = some (push u sample metadata).0
  push_held u _ _ = none

  -- The loop of `copy_into`, of `n` more samples from the place `at` on; `none` is a panic.
  unfoldable pub copy_from :
      TimedRingBuffer F → TimedUtteranceBuffer F → ℕ → ℕ → Option (TimedUtteranceBuffer F)
  unfolding push
  copy_from b u at zero = some u
  copy_from b u at (suc n) =
      elim (push_held u (get_elem? b.samples (at % length b.samples))
        (get_elem? b.metadata (at % length b.samples))) [
          | none ↦ none
          | some u' ↦ copy_from b u' (suc at) n
        ]

  unfoldable pub copy_into :
      TimedRingBuffer F → TimedUtteranceBuffer F → Option (TimedUtteranceBuffer F × ℕ)
  unfolding copy_from
  copy_into b u = elim (copy_from b u b.start b.len) [ none ↦ none | some u' ↦ some (u', b.len) ]

  -- `clear`.
  unfoldable pub clear_buffer : F → TimedUtteranceBuffer F → TimedUtteranceBuffer F
  clear_buffer silence u = record {
    samples = replicate u.len silence ++ drop u.len u.samples;
    metadata = replicate u.len empty_sample_metadata ++ drop u.len u.metadata;
    len = 0;
  }

  -- `samples` and `metadata`.
  abbrev pub utterance_samples : TimedUtteranceBuffer F → List F
  utterance_samples u = take u.len u.samples

  abbrev pub utterance_metadata : TimedUtteranceBuffer F → List ProcessedSampleMetadata
  utterance_metadata u = take u.len u.metadata
