-- ===== src/Audio/Vad/Endpoint.antt =====
-- Silence after speech always reaches its end.
use speakeasy_granite_rust_m.Base.{
  suc, ◌+◌, ◌<◌, ◌≡◌, true, false, List, [], ◌∷◌, arith, length, ok,
}
use speakeasy_granite_rust_m.Audio.Vad.{
  Floats, qualified, VadCalibrationProfile, VadInference, SileroVadAdapter, accept_silence,
  accept_frame, accept_all, silero_vad_frame_samples,
}
use speakeasy_granite_rust_m.Base.{sym}
use speakeasy_granite_rust_m.Audio.Vad.Runs.{endpoint, Inv}

module _ {I F S : Type 0} (fl : Floats F) (engine : VadInference I F S) where
  -- The engine finds each of the frames below the soft threshold, from its state `i` on.
  abbrev pub AllQuiet : VadCalibrationProfile F → I → List (List S) → Type 0
  AllQuiet p i [] = Unit {0}
  AllQuiet p i (frame ∷ frames) =
      (length frame ≡ silero_vad_frame_samples)
      × ((x : F) × ((engine.infer_probability i frame).1 ≡ ok x)
          × (fl.is_finite x ≡ true)
          × (fl.leb_float fl.float_zero x ≡ true)
          × (fl.leb_float x fl.float_one ≡ true)
          × (fl.leb_float p.soft_speech_threshold x ≡ false))
      × AllQuiet p (engine.infer_probability i frame).0 frames

  AllQuiet-at :
      {p q : VadCalibrationProfile F} {i j : I} (frames : List (List S))
      → p ≡ q
      → i ≡ j
      → AllQuiet p i frames
      → AllQuiet q j frames
  AllQuiet-at frames x y c = rw (x, y) at c

  -- One such frame during speech.
  quiet_frame :
      (a : SileroVadAdapter I F) (frame : List S)
      → Inv a
      → a.qualification ≡ qualified
      → a.speech_active ≡ true
      → AllQuiet a.profile a.inference (frame ∷ [])
      → let b = (accept_frame fl engine a frame).0 in
        (b.inference ≡ (engine.infer_probability a.inference frame).0)
        × (b.profile ≡ a.profile)
        × (b.qualification ≡ qualified)
        × (suc a.silence_frames < endpoint a.profile
            → (b.speech_active ≡ true) × (b.silence_frames ≡ suc a.silence_frames) × Inv b)
        × (suc a.silence_frames ≡ endpoint a.profile → b.speech_active ≡ false)
  unfolding accept_frame accept_silence
  quiet_frame a frame v q s (l, (x, e, n, z, o, t), u) = ground arith

  -- Enough quiet frames during speech end it: an endpoint is never missed. The adapter is a
  -- qualified one with counts that fit.
  pub silence_ends :
      (a : SileroVadAdapter I F) (frames : List (List S))
      → Inv a
      → a.qualification ≡ qualified
      → a.speech_active ≡ true
      → AllQuiet a.profile a.inference frames
      → length frames + a.silence_frames ≡ endpoint a.profile
      → (accept_all fl engine a frames).0.speech_active ≡ false
  unfolding accept_all
  silence_ends a [] v q s c n = ground arith
  silence_ends a (frame ∷ []) v q s (l, x, u) n =
      let (_, _, _, _, ends) = quiet_frame a frame v q s (l, x, tt) in ends (ground arith)
  silence_ends a (frame ∷ f ∷ frames) v q s (l, x, c) n =
      let (i, p, r, g, _) = quiet_frame a frame v q s (l, x, tt) in
      let (y, z, w) = g (ground arith) in
      silence_ends (accept_frame fl engine a frame).0 (f ∷ frames) w r y
        (AllQuiet-at (f ∷ frames) (sym p) (sym i) c) (ground arith)
