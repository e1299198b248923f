-- ===== src/Audio/Processing/Resampler.antt =====
-- The streaming linear resampler.
use speakeasy_granite_rust_m.Base.{
  ℕ, zero, suc, ◌+◌, ◌-◌, ◌*◌, min, Option, none, some, List, [], ◌∷◌, ◌++◌, ltb, leb, ◌==◌,
  if◌then◌else◌, length, u64_max,
}
use speakeasy_granite_rust_m.Audio.Processing.{Floats}

pub record StreamingLinearResampler (F : Type 0) : Type 0 where
  pub source_rate : ℕ
  pub target_rate : ℕ
  pub total_input_frames : ℕ
  pub next_output_numerator : ℕ
  pub previous : Option F

module _ {F : Type 0} where
  abbrev pub new_resampler : ℕ → ℕ → StreamingLinearResampler F
  new_resampler source_rate target_rate = record {
    source_rate = source_rate;
    target_rate = target_rate;
    total_input_frames = 0;
    next_output_numerator = 0;
    previous = none;
  }

  -- `reset`.
  abbrev pub reset_resampler : StreamingLinearResampler F → StreamingLinearResampler F
  reset_resampler r = record r {
    total_input_frames = 0;
    next_output_numerator = 0;
    previous = none;
  }

  abbrev pub cons_output : F → Option (List F × ℕ) → Option (List F × ℕ)
  cons_output y none = none
  cons_output y (some (ys, next)) = some (y ∷ ys, next)

  abbrev pub after_emit :
      StreamingLinearResampler F
      → F
      → List F
      → Option (List F × ℕ)
      → Option (List F × StreamingLinearResampler F)
  after_emit r current out none = none
  after_emit r current out (some (ys, next)) = some (
    out ++ ys,
    record r {
      next_output_numerator = next;
      previous = some current;
      total_input_frames = min (r.total_input_frames + 1) u64_max;
    },
  )

module _ {F : Type 0} (floats : Floats F) where
  -- The inner loop, from the numerator `next`, with `room` places left in the output: what it stores,
  -- and the numerator after it. `none` is the error, or the panic of a subtraction below 0.
  unfoldable pub emit : StreamingLinearResampler F → F → F → ℕ → ℕ → ℕ → ℕ → Option (List F × ℕ)
  emit r previous current segment_start segment_end zero next =
      if leb next segment_end then none else some ([], next)
  emit r previous current segment_start segment_end (suc room) next =
      let more =
        cons_output (floats.between previous current (next - segment_start) r.target_rate)
          (emit r previous current segment_start segment_end room (next + r.source_rate)) in
      if leb next segment_end
      then (if ltb next segment_start then none else more)
      else some ([], next)

  -- What the loop does to a sample, after `out` is stored of `capacity` places.
  abbrev pub sample_with :
      StreamingLinearResampler F
      → ℕ
      → List F
      → F
      → Option F
      → Option (List F × StreamingLinearResampler F)
  sample_with r capacity out current (some previous) = after_emit r current out (
      emit r previous current ((r.total_input_frames - 1) * r.target_rate)
        (r.total_input_frames * r.target_rate) (capacity - length out) r.next_output_numerator)
  sample_with r capacity out current none =
      if r.next_output_numerator == 0
      then (if capacity == 0
          then none
          else after_emit r current [] (some (current ∷ [], r.source_rate)))
      else after_emit r current out (some ([], r.next_output_numerator))

  -- `process_into`, with the samples stored so far.
  unfoldable pub process_into :
      StreamingLinearResampler F
      → ℕ
      → List F
      → List F
      → Option (List F × StreamingLinearResampler F)
  unfolding emit
  process_into r capacity out [] = some (out, r)
  process_into r capacity out (current ∷ input) =
      elim (sample_with r capacity out current r.previous) [
        | none ↦ none
        | some (out', r') ↦ process_into r' capacity out' input
      ]
