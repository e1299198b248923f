-- ===== src/Audio/Format/Downmix.antt =====
-- crates/speakeasy-audio/src/format.rs: from interleaved channels to one. The mean of a frame is float
-- arithmetic, which is a parameter.
use speakeasy_granite_rust_m.Base.{
  ℕ, zero, suc, ◌*◌, ◌/◌, ◌%◌, ◌≤◌, ◌<◌, ◌≡◌, refl, ap, ◌∙◌, true, false, not, Option, none, some,
  List, [], ◌∷◌, ltb, leb, ◌==◌, if◌then◌else◌, Result, ok, err, length, take, drop, get_elem?,
  get_elem?-some, length-take, length-drop, arith,
}
use native.Mathlib.Nat.{add-mul, mul-div_cancel, mul-mod_left}

pub data ChannelPolicy : Type 0 where
  select : ℕ → ChannelPolicy
  average_all_explicit : ChannelPolicy

pub data FormatError : Type 0 where
  channel_out_of_range interleaved_length output_too_small : ℕ → ℕ → FormatError

-- `ChannelPolicy::validate`.
unfoldable pub validate : ChannelPolicy → ℕ → Result FormatError (Unit {0})
validate (select channel_index) channels =
    if leb channels channel_index then err (channel_out_of_range channel_index channels) else ok tt
validate average_all_explicit channels = ok tt

module _ {F : Type 0} (mean : List F → F) where
  -- What a frame becomes; `none` is the panic of an index out of range.
  abbrev pub mix : ChannelPolicy → List F → Option F
  mix (select channel_index) frame = get_elem? frame channel_index
  mix average_all_explicit frame = some (mean frame)

  abbrev pub cons_some : {A : Type 0} → Option A → Option (List A) → Option (List A)
  cons_some none ys = none
  cons_some (some x) none = none
  cons_some (some x) (some ys) = some (x ∷ ys)

  -- The loop over `chunks_exact`, of which there are `frames`.
  abbrev pub mix_frames : ChannelPolicy → ℕ → ℕ → List F → Option (List F)
  mix_frames policy channels zero xs = some []
  mix_frames policy channels (suc frames) xs =
      cons_some (mix policy (take channels xs))
        (mix_frames policy channels frames (drop channels xs))

  abbrev mixed : Option (List F) → Option (Result FormatError (List F))
  mixed none = none
  mixed (some ys) = some (ok ys)

  -- What follows the check of the policy.
  abbrev checked :
      List F
      → ℕ
      → ChannelPolicy
      → ℕ
      → Result FormatError (Unit {0})
      → Option (Result FormatError (List F))
  checked xs channels policy room (err e) = some (err e)
  checked xs channels policy room (ok _) =
      if not (length xs % channels == 0)
      then some (err (interleaved_length (length xs) channels))
      else if ltb room (length xs / channels)
      then some (err (output_too_small (length xs / channels) room))
      else mixed (mix_frames policy channels (length xs / channels) xs)

  -- `downmix_into`, with what it stores in the output, which has `room` places; `none` is a panic.
  unfoldable pub downmix_into :
      List F → ℕ → ChannelPolicy → ℕ → Option (Result FormatError (List F))
  downmix_into interleaved channels policy room =
      checked interleaved channels policy room (validate policy channels)

  mix-some :
      (policy : ChannelPolicy) (channels : ℕ) (frame : List F)
      → validate policy channels ≡ ok tt
      → length frame ≡ channels
      → (y : F) × (mix policy frame ≡ some y)
  unfolding validate
  mix-some (select i) channels frame h e = get_elem?-some frame i (ground arith)
  mix-some average_all_explicit channels frame h e = (mean frame, refl)

  -- Whole frames become as many samples.
  mix_frames-some :
      (policy : ChannelPolicy) (channels frames : ℕ) (xs : List F)
      → validate policy channels ≡ ok tt
      → length xs ≡ frames * channels
      → (ys : List F) × (mix_frames policy channels frames xs ≡ some ys) × (length ys ≡ frames)
  mix_frames-some policy channels zero xs h e = ([], refl, refl)
  mix_frames-some policy channels (suc frames) xs h e =
      let m = add-mul 1 frames channels in
      let (y, q) =
        mix-some policy channels (take channels xs) h (omega (arith, length-take channels xs)) in
      let (ys, r, l) =
        mix_frames-some policy channels frames (drop channels xs) h
          (omega (arith, length-drop channels xs)) in
      (y ∷ ys, rw (q, r), omega arith)

  pub downmix_into_lem :
      (policy : ChannelPolicy) (channels frames room : ℕ) (xs : List F)
      → validate policy channels ≡ ok tt
      → 0 < channels
      → length xs ≡ frames * channels
      → frames ≤ room
      → (ys : List F) × (downmix_into xs channels policy room ≡ some (ok ys)) × (length ys ≡ frames)
  unfolding downmix_into
  downmix_into_lem policy channels frames room xs h c e r =
      let (ys, q, l) = mix_frames-some policy channels frames xs h e in
      let a : (length xs % channels == 0) ≡ true =
        let z = mul-mod_left frames channels in rw (e, z) refl in
      let b : length xs / channels ≡ frames = ap (λ k. k / channels) e ∙ mul-div_cancel frames c in
      let d : ltb room frames ≡ false = ground arith in
      (ys, ap (checked xs channels policy room) h ∙ rw (a, b, d, q), l)
