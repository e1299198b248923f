-- ===== src/Audio/Processing/Sound.antt =====
-- What `build_audio_pipeline` gives is what the callback and the worker rely on.
use native.Mathlib.Nat.{mul-le-mul_right, mod-add-div'}
use speakeasy_granite_rust_m.Base.{
  ℕ, ◌+◌, ◌*◌, ◌≤◌, ◌<◌, ◌≡◌, true, false, ◌&&◌, Option, none, some, [], length, replicate, ltb,
  leb, Result, ok, err, arith, refl, ap, Bool-cases, inl, inr, ◌⊎◌, u64_max, length-replicate,
}
use speakeasy_granite_rust_m.Audio.Window.{window-zero}
use speakeasy_granite_rust_m.Audio.Ring.{new_ring, fresh_ring, word}
use speakeasy_granite_rust_m.Audio.Ring.System.{System}
use speakeasy_granite_rust_m.Audio.Ring.Steps.{Inv}
use speakeasy_granite_rust_m.Audio.Ring.Refine.{fresh-Inv}
use speakeasy_granite_rust_m.Audio.Format.Downmix.{FormatError, validate}
use speakeasy_granite_rust_m.Audio.Processing.Bounds.{div_ceil-le, resampled_bound}
use speakeasy_granite_rust_m.Audio.Processing.Buffers.{empty_sample_metadata}
use speakeasy_granite_rust_m.Audio.Processing.Retain.{held_samples}
use speakeasy_granite_rust_m.Audio.Processing.Working.{IsWorking}
use speakeasy_granite_rust_m.Audio.Processing.Worker.{AudioPipelineConfig, AudioWorker, has_issue}
use speakeasy_granite_rust_m.Audio.Processing.Build.{
  PipelineBuildError, invalid_channel_policy, pre_roll_outside_contract, capacity_overflow,
  utterance_cannot_hold_pre_roll, pre_roll_frames, byte_limit_frames, utterance_limit_frames,
  u128_limit, limit_issues, max_resampled_frames, new_worker, new_block, with_ring, with_limits,
  with_policy, build_audio_pipeline,
}

-- An error is for its reason.
abbrev pub ErrorFits : ℕ → AudioPipelineConfig → PipelineBuildError → Type 0
ErrorFits metadata_bytes c (invalid_channel_policy e) =
    validate c.channel_policy c.native.channels ≡ err e
ErrorFits metadata_bytes c (pre_roll_outside_contract milliseconds) =
    (milliseconds ≡ c.pre_roll_ms) × ((c.pre_roll_ms < 250) ⊎ (500 < c.pre_roll_ms))
ErrorFits metadata_bytes c capacity_overflow =
    (u64_max < c.max_native_frames_per_block * c.native.channels)
    ⊎ (u64_max < c.target_sample_rate_hz * c.pre_roll_ms)
    ⊎ (u64_max
        < resampled_bound c.max_native_frames_per_block c.native.sample_rate_hz
            c.target_sample_rate_hz)
    ⊎ (u64_max < c.target_sample_rate_hz * c.max_utterance_ms)
    ⊎ (u64_max < 4 + metadata_bytes)
    ⊎ (u128_limit ≤ c.max_native_frames_per_block * c.target_sample_rate_hz)
ErrorFits metadata_bytes c (utterance_cannot_hold_pre_roll required available) =
    (required ≡ pre_roll_frames c)
    × (available < required)
    × ((available ≡ c.utterance_capacity_frames)
        ⊎ (available ≡ utterance_limit_frames metadata_bytes c))

abbrev pub Builds :
    {T F : Type 0}
    → ℕ
    → AudioPipelineConfig
    → Option (Result PipelineBuildError (System T F × AudioWorker F))
    → Type 0
Builds metadata_bytes c none = ⊥
Builds metadata_bytes c (some (err e)) = ErrorFits metadata_bytes c e
Builds metadata_bytes c (some (ok (s, w))) =
    Inv s
    × IsWorking s.ring w
    × (w.utterance_active ≡ false)
    × (s.ring.published_blocks ≡ 0)
    × (held_samples w.pre_roll ≡ [])
    × (length w.pre_roll.samples * 1000 < c.target_sample_rate_hz * c.pre_roll_ms + 1000)
    × (c.target_sample_rate_hz * c.pre_roll_ms ≤ length w.pre_roll.samples * 1000)
    × (length w.utterance.samples ≤ c.utterance_capacity_frames)
    × (length w.utterance.samples * 1000 ≤ c.target_sample_rate_hz * c.max_utterance_ms)
    × (length w.utterance.samples * (4 + metadata_bytes) ≤ c.max_buffered_bytes)
    × (250 ≤ c.pre_roll_ms)
    × (c.pre_roll_ms ≤ 500)

limit_issues_lem : (m : ℕ) (c : AudioPipelineConfig) → has_issue (limit_issues m c) ≡ true
limit_issues_lem m c = ground arith

module _ {F : Type 0} (silence : F) (metadata_bytes : ℕ) where
  new_worker-IsWorking :
      (c : AudioPipelineConfig)
      → validate c.channel_policy c.native.channels ≡ ok tt
      → 0 < c.native.sample_rate_hz
      → 0 < c.target_sample_rate_hz
      → 250 ≤ c.pre_roll_ms
      → pre_roll_frames c ≤ utterance_limit_frames metadata_bytes c
      → IsWorking
          (fresh_ring silence c.stream_id c.native c.callback_block_count
            c.max_native_frames_per_block)
          (new_worker silence metadata_bytes c (
            resampled_bound c.max_native_frames_per_block c.native.sample_rate_hz
              c.target_sample_rate_hz))
  new_worker-IsWorking c p n t m l =
      let k = pre_roll_frames c in
      let u = utterance_limit_frames metadata_bytes c in
      let a = length-replicate k silence in
      let b = length-replicate k empty_sample_metadata in
      let d = length-replicate u silence in
      let e = length-replicate u empty_sample_metadata in
      let f = div_ceil-le (c.target_sample_rate_hz * c.pre_roll_ms) 1000 (omega arith) in
      let g = mul-le-mul_right {m = 1} {n = c.target_sample_rate_hz} c.pre_roll_ms (omega arith) in
      record {
        policy_fits = p;
        same_channels = refl;
        mono_fits = omega arith;
        resampler_valid = record { has_source = n; has_target = t; placed = (refl, refl) };
        resampled_fits = refl;
        pre_roll_round = record {
          has_places = omega arith;
          within = omega arith;
          as_many = omega arith;
        };
        utterance_sound = record { within = omega arith; as_many = omega arith };
        limit_named = limit_issues_lem metadata_bytes c;
        pre_roll_fits = omega arith;
      }

-- A ring with its worker, that pass the checks.
within_limits :
    {F : Type 0} (silence : F) (m : ℕ) (c : AudioPipelineConfig)
    → pre_roll_frames c ≤ utterance_limit_frames m c
    → let w = new_worker silence m c (
        resampled_bound c.max_native_frames_per_block c.native.sample_rate_hz
          c.target_sample_rate_hz) in
      (length w.pre_roll.samples * 1000 < c.target_sample_rate_hz * c.pre_roll_ms + 1000)
      × (c.target_sample_rate_hz * c.pre_roll_ms ≤ length w.pre_roll.samples * 1000)
      × (length w.utterance.samples ≤ c.utterance_capacity_frames)
      × (length w.utterance.samples * 1000 ≤ c.target_sample_rate_hz * c.max_utterance_ms)
      × (length w.utterance.samples * (4 + m) ≤ c.max_buffered_bytes)
within_limits silence m c l =
    let k = pre_roll_frames c in
    let u = utterance_limit_frames m c in
    let a = length-replicate k silence in
    let d = length-replicate u silence in
    let x = mod-add-div' c.max_buffered_bytes (4 + m) in
    let y = mul-le-mul_right {m = u} {n = byte_limit_frames m c} (4 + m) (omega arith) in
    let z = ap (λ j. j * (4 + m)) d in
    (omega arith, omega arith, omega arith, omega arith, omega arith)

module _ (T : Type 0) {F : Type 0} (silence : F) (metadata_bytes : ℕ) (c : AudioPipelineConfig)
    (rates : 0 < c.native.sample_rate_hz) (targets : 0 < c.target_sample_rate_hz)
    (channels : 0 < c.native.channels) (blocks : 0 < c.callback_block_count)
    (frames : 0 < c.max_native_frames_per_block) where
  ring-Builds :
      validate c.channel_policy c.native.channels ≡ ok tt
      → (250 ≤ c.pre_roll_ms) × (c.pre_roll_ms ≤ 500)
      → c.max_native_frames_per_block * c.native.channels ≤ u64_max
      → pre_roll_frames c ≤ utterance_limit_frames metadata_bytes c
      → Builds {T = T} {F = F} metadata_bytes c (
          with_ring silence metadata_bytes c
            (resampled_bound c.max_native_frames_per_block c.native.sample_rate_hz
              c.target_sample_rate_hz)
            (new_ring silence c.stream_id c.native c.callback_block_count
              c.max_native_frames_per_block))
  unfolding new_ring
  ring-Builds p m f l =
      let e : leb word (c.max_native_frames_per_block * c.native.channels) ≡ false = ground arith in
      let d = length-replicate (c.max_native_frames_per_block * c.native.channels) silence in
      let (x1, x2, x3, x4, x5) = within_limits silence metadata_bytes c l in
      rw e (
        fresh-Inv silence c.stream_id c.native c.callback_block_count c.max_native_frames_per_block
            (new_block silence (c.max_native_frames_per_block * c.native.channels)) channels blocks
            frames (omega arith),
        new_worker-IsWorking silence metadata_bytes c p rates targets m.0 l,
        refl,
        refl,
        window-zero (λ x. x) (replicate (pre_roll_frames c) silence) 0,
        x1,
        x2,
        x3,
        x4,
        x5,
        m.0,
        m.1,
      )

  limits-Builds :
      validate c.channel_policy c.native.channels ≡ ok tt
      → (250 ≤ c.pre_roll_ms) × (c.pre_roll_ms ≤ 500)
      → c.max_native_frames_per_block * c.native.channels ≤ u64_max
      → Builds {T = T} {F = F} metadata_bytes c (
          with_limits silence metadata_bytes c (
            ok (
              resampled_bound c.max_native_frames_per_block c.native.sample_rate_hz
                c.target_sample_rate_hz)))
  limits-Builds p m f =
      elim (Bool-cases (ltb u64_max (c.target_sample_rate_hz * c.max_utterance_ms))) [
        | inl a ↦ rw a (inr (inr (inr (inl (ground arith)))))
        | inr a ↦ elim (Bool-cases (ltb u64_max (4 + metadata_bytes))) [
          | inl b ↦ rw (a, b) (inr (inr (inr (inr (inl (ground arith))))))
          | inr b ↦
              elim (Bool-cases
                (ltb (utterance_limit_frames metadata_bytes c) (pre_roll_frames c))) [
                  | inl d ↦ rw (a, b, d) (refl, ground arith, inr refl)
                  | inr d ↦ rw (a, b, d) (ring-Builds p m f (ground arith))
                ]
        ]
      ]

  resampled-Builds :
      validate c.channel_policy c.native.channels ≡ ok tt
      → (250 ≤ c.pre_roll_ms) × (c.pre_roll_ms ≤ 500)
      → c.max_native_frames_per_block * c.native.channels ≤ u64_max
      → Builds {T = T} {F = F} metadata_bytes c (
          with_limits silence metadata_bytes c (
            max_resampled_frames c.max_native_frames_per_block c.native.sample_rate_hz
              c.target_sample_rate_hz))
  resampled-Builds p m f =
      elim (Bool-cases (leb u128_limit (c.max_native_frames_per_block * c.target_sample_rate_hz))) [
        | inl a ↦ rw a (inr (inr (inr (inr (inr (ground arith))))))
        | inr a ↦
            elim (Bool-cases (
              ltb u64_max (
                resampled_bound c.max_native_frames_per_block c.native.sample_rate_hz
                  c.target_sample_rate_hz))) [
                    | inl b ↦ rw (a, b) (inr (inr (inl (ground arith))))
                    | inr b ↦ rw (a, b) (limits-Builds p m f)
                  ]
      ]

  policy-Builds :
      validate c.channel_policy c.native.channels ≡ ok tt
      → Builds {T = T} {F = F} metadata_bytes c (with_policy silence metadata_bytes c (ok tt))
  policy-Builds p = elim (Bool-cases (leb 250 c.pre_roll_ms && leb c.pre_roll_ms 500)) [
    | inr a ↦ rw a (refl, ground arith)
    | inl a ↦ elim (Bool-cases (ltb u64_max (c.max_native_frames_per_block * c.native.channels))) [
      | inl b ↦ rw (a, b) (inl (ground arith))
      | inr b ↦ elim (Bool-cases (ltb u64_max (c.target_sample_rate_hz * c.pre_roll_ms))) [
        | inl d ↦ rw (a, b, d) (inr (inl (ground arith)))
        | inr d ↦ elim (Bool-cases (ltb c.utterance_capacity_frames (pre_roll_frames c))) [
          | inl e ↦ rw (a, b, d, e) (refl, ground arith, inl refl)
          | inr e ↦ rw (a, b, d, e) (resampled-Builds p (ground arith, ground arith) (ground arith))
        ]
      ]
    ]
  ]

  -- Building never panics. An error has its reason; what is built has a pre-roll of 250 to 500 ms and
  -- satisfies the invariants of the ring and of the worker, no utterance is on, the pre-roll is as many
  -- frames as its milliseconds are, rounded up, and an utterance exceeds none of the capacity, the
  -- duration and the bytes configured. The rates, the channels, the blocks and the frames of a block are
  -- not zero.
  pub build_audio_pipeline-Builds :
      Builds {T = T} {F = F} metadata_bytes c (build_audio_pipeline silence metadata_bytes c)
  unfolding build_audio_pipeline
  build_audio_pipeline-Builds = go (validate c.channel_policy c.native.channels) refl
    where
      go :
          (o : Result FormatError (Unit {0}))
          → validate c.channel_policy c.native.channels ≡ o
          → Builds {T = T} {F = F} metadata_bytes c (with_policy silence metadata_bytes c o)
      go (err e) p = p
      go (ok tt) p = policy-Builds p
