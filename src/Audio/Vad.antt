-- ===== src/Audio/Vad.antt =====
-- crates/speakeasy-audio/src/vad.rs: the detector of speech over frames of samples. An f32 is of a
-- type `F` that `Floats` orders, and the inference is its state with what it answers.
use speakeasy_granite_rust_m.Base.{
  ℕ, ◌+◌, min, Bool, true, false, not, ◌&&◌, ◌||◌, List, [], ◌∷◌, ltb, leb, ◌==◌, if◌then◌else◌,
  length, Result, ok, err,
}
pub mod Runs
pub mod Endpoint

-- The comparisons of f32: `leb_float a b` is `a <= b`.
pub record Floats (F : Type 0) : Type 0 where
  pub leb_float : F → F → Bool
  pub is_finite : F → Bool
  pub float_zero : F
  pub float_one : F

-- `(low..=high).contains(&x)`.
abbrev contains : {F : Type 0} → Floats F → F → F → F → Bool
contains fl low high x = fl.leb_float low x && fl.leb_float x high

abbrev pub silero_vad_frame_samples : ℕ
silero_vad_frame_samples = 512

abbrev u16_max : ℕ
u16_max = 65535

-- `u16::saturating_add`.
abbrev pub saturating_add16 : ℕ → ℕ → ℕ
saturating_add16 a b = min (a + b) u16_max

pub data VadQualification : Type 0 where
  qualified unqualified unavailable : VadQualification

pub record VadCalibrationProfile (F : Type 0) : Type 0 where
  pub speech_threshold : F
  pub soft_speech_threshold : F
  pub minimum_speech_frames : ℕ
  pub minimum_soft_speech_frames : ℕ
  pub minimum_silence_frames : ℕ
  pub hangover_frames : ℕ

pub data VadError : Type 0 where
  invalid_profile : VadError
  -- The expected length, and the actual one.
  invalid_frame_length : ℕ → ℕ → VadError
  inference_failed invalid_probability : VadError

pub data VadFrameEvent : Type 0 where
  was_unavailable was_unqualified silence speech_candidate speech_started : VadFrameEvent
  speech hangover speech_ended false_start : VadFrameEvent

-- `VadInference`: each method on `&mut self` gives the next state.
pub record VadInference (I F S : Type 0) : Type 0 where
  pub reset_inference : I → I × Result VadError (Unit {0})
  pub infer_probability : I → List S → I × Result VadError F

pub record SileroVadAdapter (I F : Type 0) : Type 0 where
  pub inference : I
  pub qualification : VadQualification
  pub profile : VadCalibrationProfile F
  pub speech_active : Bool
  pub candidate_frames : ℕ
  pub candidate_has_strong_speech : Bool
  pub silence_frames : ℕ

-- `VadCalibrationProfile::validate`.
unfoldable pub validate_profile :
    {F : Type 0} → Floats F → VadCalibrationProfile F → Result VadError (VadCalibrationProfile F)
validate_profile fl p =
    if not (contains fl fl.float_zero fl.float_one p.speech_threshold)
      || not (contains fl fl.float_zero p.speech_threshold p.soft_speech_threshold)
      || (p.minimum_speech_frames == 0)
      || ltb p.minimum_soft_speech_frames p.minimum_speech_frames
      || (p.minimum_silence_frames == 0)
    then err invalid_profile
    else ok p

module _ {I F S : Type 0} (fl : Floats F) (engine : VadInference I F S) where
  abbrev fresh : I → VadQualification → VadCalibrationProfile F → SileroVadAdapter I F
  fresh i q p = record {
    inference = i;
    qualification = q;
    profile = p;
    speech_active = false;
    candidate_frames = 0;
    candidate_has_strong_speech = false;
    silence_frames = 0;
  }

  abbrev build :
      I
      → VadQualification
      → Result VadError (VadCalibrationProfile F)
      → Result VadError (SileroVadAdapter I F)
  build i q (err e) = err e
  build i q (ok p) = ok (fresh i q p)

  unfoldable pub new :
      I → VadQualification → VadCalibrationProfile F → Result VadError (SileroVadAdapter I F)
  unfolding validate_profile
  new i q p = build i q (validate_profile fl p)

  abbrev cleared :
      SileroVadAdapter I F
      → I × Result VadError (Unit {0})
      → SileroVadAdapter I F × Result VadError (Unit {0})
  cleared a (i, err e) = (record a { inference = i }, err e)
  cleared a (i, ok u) = (fresh i a.qualification a.profile, ok u)

  unfoldable pub reset : SileroVadAdapter I F → SileroVadAdapter I F × Result VadError (Unit {0})
  reset a = cleared a (engine.reset_inference a.inference)

  -- From `required_frames` on.
  abbrev count_candidate : SileroVadAdapter I F → ℕ → Bool → SileroVadAdapter I F × VadFrameEvent
  count_candidate a candidates strong =
      let required_frames =
        if strong then a.profile.minimum_speech_frames else a.profile.minimum_soft_speech_frames in
      if leb required_frames candidates
      then (
        record a {
          speech_active = true;
          candidate_frames = 0;
          candidate_has_strong_speech = false;
          silence_frames = 0;
        },
        speech_started,
      )
      else (
        record a {
          candidate_frames = candidates;
          candidate_has_strong_speech = strong;
          silence_frames = 0;
        },
        speech_candidate,
      )

  unfoldable pub accept_speech_probability :
      SileroVadAdapter I F → F → SileroVadAdapter I F × VadFrameEvent
  accept_speech_probability a probability =
      if a.speech_active
      then (record a { silence_frames = 0 }, speech)
      else count_candidate a (saturating_add16 a.candidate_frames 1)
          (a.candidate_has_strong_speech || fl.leb_float a.profile.speech_threshold probability)

  unfoldable pub accept_silence : SileroVadAdapter I F → SileroVadAdapter I F × VadFrameEvent
  accept_silence a =
      let silent = saturating_add16 a.silence_frames 1 in
      let endpoint_frames =
        saturating_add16 a.profile.minimum_silence_frames a.profile.hangover_frames in
      if not a.speech_active
      then if ltb 0 a.candidate_frames
        then (record a { candidate_frames = 0; candidate_has_strong_speech = false }, false_start)
        else (a, silence)
      else if leb endpoint_frames silent
      then (record a { speech_active = false; silence_frames = 0 }, speech_ended)
      else (record a { silence_frames = silent }, hangover)

  abbrev succeed :
      SileroVadAdapter I F × VadFrameEvent → SileroVadAdapter I F × Result VadError VadFrameEvent
  succeed (a, e) = (a, ok e)

  -- What follows the inference.
  abbrev judge :
      SileroVadAdapter I F
      → I × Result VadError F
      → SileroVadAdapter I F × Result VadError VadFrameEvent
  judge a (i, err e) = (record a { inference = i }, err e)
  judge a (i, ok probability) =
      let b = record a { inference = i } in
      if not (fl.is_finite probability) || not (contains fl fl.float_zero fl.float_one probability)
      then (b, err invalid_probability)
      else if fl.leb_float a.profile.soft_speech_threshold probability
      then succeed (accept_speech_probability b probability)
      else succeed (accept_silence b)

  unfoldable pub accept_frame :
      SileroVadAdapter I F → List S → SileroVadAdapter I F × Result VadError VadFrameEvent
  unfolding accept_speech_probability accept_silence
  accept_frame a samples =
      if not (length samples == silero_vad_frame_samples)
      then (a, err (invalid_frame_length silero_vad_frame_samples (length samples)))
      else elim a.qualification [
        | unavailable ↦ (a, ok was_unavailable)
        | unqualified ↦ (a, ok was_unqualified)
        | qualified ↦ judge a (engine.infer_probability a.inference samples)
      ]

  -- Frames one after the other.
  unfoldable pub accept_all :
      SileroVadAdapter I F
      → List (List S)
      → SileroVadAdapter I F × List (Result VadError VadFrameEvent)
  accept_all a [] = (a, [])
  accept_all a (frame ∷ frames) =
      let (b, e) = accept_frame a frame in let (c, es) = accept_all b frames in (c, e ∷ es)
