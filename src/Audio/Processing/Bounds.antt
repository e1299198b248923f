-- ===== src/Audio/Processing/Bounds.antt =====
-- The resampler stores no more than the output has places for.
use mathlib.Core.Path.{subst}
use native.Mathlib.Nat.{add-mul, mod-add-div', mod-lt, mul-le-mul_right}
use speakeasy_granite_rust_m.Base.{
  ℕ, zero, suc, ◌+◌, ◌-◌, ◌*◌, ◌/◌, ◌≤◌, ◌<◌, ◌≡◌, min, true, false, Option, none, some, List, [],
  ◌∷◌, ◌++◌, ltb, leb, ◌==◌, length, u64_max, arith, refl, sym, ap, ◌∙◌, Bool-cases, inl, inr,
  length-append,
}
use speakeasy_granite_rust_m.Audio.Processing.{Floats}
use speakeasy_granite_rust_m.Audio.Processing.Resampler.{
  StreamingLinearResampler, emit, after_emit, sample_with, process_into,
}

-- Before any sample, or between two: the next output lies after the last input.
abbrev pub IsPlaced : {F : Type 0} → StreamingLinearResampler F → Option F → Type 0
IsPlaced r none = (r.total_input_frames ≡ 0) × (r.next_output_numerator ≡ 0)
IsPlaced r (some p) =
    (0 < r.total_input_frames)
    × ((r.total_input_frames - 1) * r.target_rate < r.next_output_numerator)

pub record IsValid {F : Type 0} (r : StreamingLinearResampler F) : Type 0 where
  pub has_source : 0 < r.source_rate
  pub has_target : 0 < r.target_rate
  pub placed : IsPlaced r r.previous

module _ {F : Type 0} (floats : Floats F) where
  -- Enough room for the outputs up to the end of the segment.
  emit_lem :
      (r : StreamingLinearResampler F) (p c : F) (segment_start segment_end room next : ℕ)
      → segment_start ≤ next
      → segment_end < next + room * r.source_rate
      → (ys : List F) × (emit floats r p c segment_start segment_end room next
          ≡ some (ys, next + length ys * r.source_rate))
        × (segment_end < next + length ys * r.source_rate)
        × (length ys ≤ room)
  unfolding emit
  emit_lem r p c start end zero next h k =
      let z : leb next end ≡ false = ground arith in
      ([], rw z (ap (λ n. some ([], n)) (omega arith)), omega arith, omega arith)
  emit_lem r p c start end (suc room) next h k = elim (Bool-cases (leb next end)) [
    | inr z ↦ ([], rw z (ap (λ n. some ([], n)) (omega arith)), ground arith, omega arith)
    | inl z ↦
        let y : ltb next start ≡ false = ground arith in
        let m = add-mul 1 room r.source_rate in
        let (ys, q, a, b) =
          emit_lem r p c start end room (next + r.source_rate) (omega arith) (omega arith) in
        let l = add-mul 1 (length ys) r.source_rate in
        let o = floats.between p c (next - start) r.target_rate in
        (o ∷ ys, rw (z, y, q) (ap (λ n. some (o ∷ ys, n)) (omega arith)), omega arith, omega arith)
  ]

  -- The outputs of `n` more samples fit behind `out`.
  abbrev Fits : StreamingLinearResampler F → Option F → ℕ → ℕ → List F → Type 0
  Fits r none n capacity out = (0 < capacity) × (n * r.target_rate ≤ capacity * r.source_rate)
  Fits r (some p) n capacity out =
      (r.total_input_frames - 1 + n) * r.target_rate
      < r.next_output_numerator + (capacity - length out) * r.source_rate

  abbrev SampleOk :
      StreamingLinearResampler F → ℕ → ℕ → Option (List F × StreamingLinearResampler F) → Type 0
  SampleOk r n capacity none = ⊥
  SampleOk r n capacity (some (out, q)) =
      IsValid q
      × (length out ≤ capacity)
      × (q.total_input_frames ≡ r.total_input_frames + 1)
      × (q.source_rate ≡ r.source_rate)
      × (q.target_rate ≡ r.target_rate)
      × Fits q q.previous n capacity out

  after_some :
      (r : StreamingLinearResampler F) (n capacity : ℕ) (out : List F) (c p : F)
      → IsValid r
      → IsPlaced r (some p)
      → r.total_input_frames < u64_max
      → length out ≤ capacity
      → Fits r (some p) (suc n) capacity out
      → SampleOk r n capacity (sample_with floats r capacity out c (some p))
  after_some r n capacity out c p v (t0, g) b l f =
      let t = r.target_rate in
      let s = r.source_rate in
      let k = r.total_input_frames in
      let room = capacity - length out in
      let e1 : (k - 1 + suc n) * t ≡ (k + n) * t = ap (λ x. x * t) (omega arith) in
      let e2 = add-mul k n t in
      let (ys, q, a, h) =
        emit_lem r p c ((k - 1) * t) (k * t) room r.next_output_numerator (omega arith)
          (omega arith) in
      let e3 : min (k + 1) u64_max - 1 ≡ k = omega arith in
      let e4 = length-append out ys in
      let e5 : (capacity - length (out ++ ys)) + length ys ≡ room = omega arith in
      let e6 = add-mul (capacity - length (out ++ ys)) (length ys) s in
      let e7 : room * s ≡ (capacity - length (out ++ ys)) * s + length ys * s =
        ap (λ x. x * s) (sym e5) ∙ e6 in
      let e8 : (min (k + 1) u64_max - 1 + n) * t ≡ (k + n) * t = ap (λ x. (x + n) * t) e3 in
      let e9 : (min (k + 1) u64_max - 1) * t ≡ k * t = ap (λ x. x * t) e3 in
      subst (λ o. SampleOk r n capacity (after_emit r c out o)) (sym q)
        (
          record {
            has_source = v.has_source;
            has_target = v.has_target;
            placed = (omega arith, omega arith);
          },
          omega arith,
          omega arith,
          refl,
          refl,
          omega arith,
        )

  after_none :
      (r : StreamingLinearResampler F) (n capacity : ℕ) (out : List F) (c : F)
      → IsValid r
      → IsPlaced r none
      → Fits r none (suc n) capacity out
      → SampleOk r n capacity (sample_with floats r capacity out c none)
  after_none r n capacity out c v (t0, g) (f, h) =
      let a : (r.next_output_numerator == 0) ≡ true = ground arith in
      let b : (capacity == 0) ≡ false = ground arith in
      let e3 : min (r.total_input_frames + 1) u64_max - 1 ≡ 0 = omega arith in
      let e1 : capacity ≡ (capacity - 1) + 1 = omega arith in
      let e2 = ap (λ x. x * r.source_rate) e1 ∙ add-mul (capacity - 1) 1 r.source_rate in
      let e4 = add-mul 1 n r.target_rate in
      let e5 : (min (r.total_input_frames + 1) u64_max - 1 + n) * r.target_rate
          ≡ n * r.target_rate =
        ap (λ x. x * r.target_rate) (omega arith) in
      let e6 : (min (r.total_input_frames + 1) u64_max - 1) * r.target_rate ≡ 0 * r.target_rate =
        ap (λ x. x * r.target_rate) e3 in
      let run : sample_with floats r capacity out c none
          ≡ after_emit r c [] (some (c ∷ [], r.source_rate)) =
        rw (a, b) refl in
      subst (SampleOk r n capacity) (sym run) (
        record {
          has_source = v.has_source;
          has_target = v.has_target;
          placed = (omega arith, omega (arith, v.has_source));
        },
        omega arith,
        omega arith,
        refl,
        refl,
        omega (arith, v.has_target),
      )

  sample_lem :
      (r : StreamingLinearResampler F) (n capacity : ℕ) (out : List F) (c : F) (o : Option F)
      → IsValid r
      → IsPlaced r o
      → r.total_input_frames < u64_max
      → length out ≤ capacity
      → Fits r o (suc n) capacity out
      → SampleOk r n capacity (sample_with floats r capacity out c o)
  sample_lem r n capacity out c none v g b l f = after_none r n capacity out c v g f
  sample_lem r n capacity out c (some p) v g b l f = after_some r n capacity out c p v g b l f

  -- The result of a run over `n` samples.
  abbrev pub ProcessOk :
      StreamingLinearResampler F → ℕ → ℕ → Option (List F × StreamingLinearResampler F) → Type 0
  ProcessOk r n capacity none = ⊥
  ProcessOk r n capacity (some (out, q)) =
      IsValid q
      × (length out ≤ capacity)
      × (q.total_input_frames ≡ r.total_input_frames + n)
      × (q.source_rate ≡ r.source_rate)
      × (q.target_rate ≡ r.target_rate)

  ProcessOk-after :
      (r q : StreamingLinearResampler F) (n capacity : ℕ)
      (o : Option (List F × StreamingLinearResampler F))
      → q.total_input_frames ≡ r.total_input_frames + 1
      → q.source_rate ≡ r.source_rate
      → q.target_rate ≡ r.target_rate
      → ProcessOk q n capacity o
      → ProcessOk r (suc n) capacity o
  ProcessOk-after r q n capacity none e f g h = h
  ProcessOk-after r q n capacity (some (out, z)) e f g (a, b, c, d, h) =
      (a, b, omega arith, d ∙ f, h ∙ g)

  process_into_lem :
      (r : StreamingLinearResampler F) (capacity : ℕ) (out input : List F)
      → IsValid r
      → r.total_input_frames + length input ≤ u64_max
      → length out ≤ capacity
      → Fits r r.previous (length input) capacity out
      → ProcessOk r (length input) capacity (process_into floats r capacity out input)
  unfolding process_into
  process_into_lem r capacity out [] v b l f = (v, l, omega arith, refl, refl)
  process_into_lem r capacity out (c ∷ input) v b l f =
      go (sample_with floats r capacity out c r.previous)
        (sample_lem r (length input) capacity out c r.previous v v.placed (omega arith) l f)
        (λ out' q. process_into_lem q capacity out' input)
    where
      go :
          (o : Option (List F × StreamingLinearResampler F))
          → SampleOk r (length input) capacity o
          → ((out' : List F) (q : StreamingLinearResampler F)
              → IsValid q
              → q.total_input_frames + length input ≤ u64_max
              → length out' ≤ capacity
              → Fits q q.previous (length input) capacity out'
              → ProcessOk q (length input) capacity (process_into floats q capacity out' input))
          → ProcessOk r
              (suc (length input))
              capacity
              (elim o as (λ _. Option (List F × StreamingLinearResampler F)) [
                | none ↦ none
                | some (out', q) ↦ process_into floats q capacity out' input
              ])
      go none h more = h
      go (some (out', q)) (w, m, e, f', g, h) more =
          ProcessOk-after r q (length input) capacity (process_into floats q capacity out' input) e
            f' g (more out' q w (omega arith) m h)

-- `div_ceil`.
abbrev pub div_ceil : ℕ → ℕ → ℕ
div_ceil a b = (a + (b - 1)) / b

pub div_ceil-le : (a b : ℕ) → 0 < b → a ≤ div_ceil a b * b
div_ceil-le a b h = omega (arith, mod-add-div' (a + (b - 1)) b, mod-lt (a + (b - 1)) {m = b} h)

-- The places that `max_resampled_frames` asks for.
abbrev pub resampled_bound : ℕ → ℕ → ℕ → ℕ
resampled_bound frames source_rate target_rate = div_ceil (frames * target_rate) source_rate + 2

module _ {F : Type 0} (floats : Floats F) where
  starts_fit :
      (r : StreamingLinearResampler F) (n frames : ℕ) (o : Option F)
      → IsValid r
      → IsPlaced r o
      → n ≤ frames
      → Fits floats r o n (resampled_bound frames r.source_rate r.target_rate) []
  starts_fit r n frames none v g h =
      let a = div_ceil-le (frames * r.target_rate) r.source_rate v.has_source in
      let b = mul-le-mul_right {m = n} {n = frames} r.target_rate h in
      let c = add-mul (div_ceil (frames * r.target_rate) r.source_rate) 2 r.source_rate in
      (omega arith, omega arith)
  starts_fit r n frames (some p) v g h =
      let a = div_ceil-le (frames * r.target_rate) r.source_rate v.has_source in
      let b = mul-le-mul_right {m = n} {n = frames} r.target_rate h in
      let c = add-mul (div_ceil (frames * r.target_rate) r.source_rate) 2 r.source_rate in
      let d = add-mul (r.total_input_frames - 1) n r.target_rate in
      let e : resampled_bound frames r.source_rate r.target_rate - length {A = F} []
          ≡ resampled_bound frames r.source_rate r.target_rate =
        omega arith in
      let f = ap (λ x. x * r.source_rate) e in omega (arith, g.1)

  -- A block of at most `frames` samples fits into the output that is allocated for it, no subtraction
  -- goes below 0, and the resampler is ready for the next block. At most `u64::MAX` samples are read.
  pub process_into-IsValid :
      (r : StreamingLinearResampler F) (frames : ℕ) (input : List F)
      → IsValid r
      → r.total_input_frames + length input ≤ u64_max
      → length input ≤ frames
      → ProcessOk floats r
          (length input)
          (resampled_bound frames r.source_rate r.target_rate)
          (process_into floats r (resampled_bound frames r.source_rate r.target_rate) [] input)
  process_into-IsValid r frames input v b h =
      process_into_lem floats r (resampled_bound frames r.source_rate r.target_rate) [] input v b
        (omega arith) (starts_fit r (length input) frames r.previous v v.placed h)
