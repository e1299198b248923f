-- ===== src/Tests/Vad.antt =====
-- The detector of speech at concrete inputs: crates/speakeasy-audio/src/vad.rs. A float is its
-- hundredths, and the inference answers the first sample of the frame.
use speakeasy_granite_rust_m.Base.{
  ℕ, zero, suc, ◌≡◌, refl, true, false, List, [], ◌∷◌, arith, leb, Result, ok, err,
}
use speakeasy_granite_rust_m.Audio.Vad.{
  Floats, qualified, VadCalibrationProfile, VadError, speech_candidate, speech_started, hangover,
  inference_failed, VadInference, SileroVadAdapter, accept_frame, accept_speech_probability,
  accept_silence, accept_all,
}
use speakeasy_granite_rust_m.Audio.Vad.Runs.{Inv}
use speakeasy_granite_rust_m.Audio.Vad.Endpoint.{silence_ends}

abbrev hundredths : Floats ℕ
hundredths = record { leb_float = leb; is_finite = λ x. true; float_zero = 0; float_one = 100 }

abbrev answer : List ℕ → Result VadError ℕ
answer [] = err inference_failed
answer (x ∷ xs) = ok x

abbrev first_sample : VadInference ℕ ℕ ℕ
first_sample = record {
  reset_inference = λ i. (0, ok tt);
  infer_probability = λ i xs. (suc i, answer xs);
}

abbrev short_profile : VadCalibrationProfile ℕ
short_profile = record {
  speech_threshold = 50;
  soft_speech_threshold = 35;
  minimum_speech_frames = 2;
  minimum_soft_speech_frames = 3;
  minimum_silence_frames = 2;
  hangover_frames = 1;
}

abbrev constant : ℕ → ℕ → List ℕ
constant x zero = []
constant x (suc n) = x ∷ constant x n

abbrev frame_of : ℕ → List ℕ
frame_of x = constant x 512

abbrev started_with : SileroVadAdapter ℕ ℕ
started_with = record {
  inference = 0;
  qualification = qualified;
  profile = short_profile;
  speech_active = false;
  candidate_frames = 0;
  candidate_has_strong_speech = false;
  silence_frames = 0;
}

abbrev said : List (List ℕ)
said = frame_of 40 ∷ frame_of 60 ∷ frame_of 10 ∷ []

said_events :
    (accept_all hundredths first_sample started_with said).1
    ≡ ok speech_candidate ∷ ok speech_started ∷ ok hangover ∷ []
unfolding accept_all accept_frame accept_speech_probability accept_silence
said_events = refl

abbrev speaking : SileroVadAdapter ℕ ℕ
speaking = record started_with { speech_active = true; silence_frames = 1 }

speaking-Inv : Inv speaking
speaking-Inv = ground arith

silence_ends_example :
    (accept_all hundredths first_sample speaking (frame_of 10 ∷ frame_of 20 ∷ [])).0.speech_active
    ≡ false
silence_ends_example =
    silence_ends hundredths first_sample speaking (frame_of 10 ∷ frame_of 20 ∷ []) speaking-Inv refl
      refl
      (refl, (10, refl, refl, refl, refl, refl), (refl, (20, refl, refl, refl, refl, refl), tt))
      refl
