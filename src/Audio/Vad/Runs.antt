-- ===== src/Audio/Vad/Runs.antt =====
-- The events of the detector over a run of frames.
use speakeasy_granite_rust_m.Base.{
  ℕ, suc, ◌≤◌, ◌<◌, ◌≡◌, Bool, true, false, List, [], ◌∷◌, Result, ok, err,
}
use speakeasy_granite_rust_m.Audio.Vad.{
  VadCalibrationProfile, VadError, VadFrameEvent, was_unavailable, was_unqualified, silence,
  speech_candidate, speech_started, speech, hangover, speech_ended, false_start, SileroVadAdapter,
  saturating_add16,
}

-- The frames of silence that end speech.
abbrev pub endpoint : {F : Type 0} → VadCalibrationProfile F → ℕ
endpoint p = saturating_add16 p.minimum_silence_frames p.hangover_frames

-- Counts that fit: of candidates only while there is no speech, of silent frames only during it,
-- both below what ends them; and a profile that `validate` takes, its counts of type u16.
pub record Inv {I F : Type 0} (a : SileroVadAdapter I F) : Type 0 where
  pub few : a.profile.minimum_speech_frames ≤ a.profile.minimum_soft_speech_frames
  pub some_frames : 1 ≤ a.profile.minimum_speech_frames
  pub some_silence : 1 ≤ a.profile.minimum_silence_frames
  pub narrow : a.profile.minimum_soft_speech_frames ≤ 65535
  pub candidates : a.candidate_frames < a.profile.minimum_soft_speech_frames
  pub silent : a.silence_frames < endpoint a.profile
  pub active_candidates : a.speech_active ≡ true → a.candidate_frames ≡ 0
  pub idle_silent : a.speech_active ≡ false → a.silence_frames ≡ 0

-- From a state with speech on or not, `c` candidates and `h` silent frames on:
-- speech starts with a frame that has enough candidates before it, ends with exactly the last of
-- `endpoint` silent ones in a row, and no event comes in the other state. Errors change nothing.
abbrev pub Fits :
    {F : Type 0}
    → VadCalibrationProfile F
    → Bool
    → ℕ
    → ℕ
    → List (Result VadError VadFrameEvent)
    → Type 0
Fits p active c h [] = Unit {0}
Fits p active c h (ok silence ∷ es) = (active ≡ false) × (c ≡ 0) × Fits p false 0 0 es
Fits p active c h (ok speech_candidate ∷ es) =
    (active ≡ false) × (suc c < p.minimum_soft_speech_frames) × Fits p false (suc c) 0 es
Fits p active c h (ok speech_started ∷ es) =
    (active ≡ false) × (p.minimum_speech_frames ≤ suc c) × Fits p true 0 0 es
Fits p active c h (ok speech ∷ es) = (active ≡ true) × Fits p true 0 0 es
Fits p active c h (ok hangover ∷ es) =
    (active ≡ true) × (suc h < endpoint p) × Fits p true 0 (suc h) es
Fits p active c h (ok speech_ended ∷ es) =
    (active ≡ true) × (suc h ≡ endpoint p) × Fits p false 0 0 es
Fits p active c h (ok false_start ∷ es) = (active ≡ false) × (1 ≤ c) × Fits p false 0 0 es
Fits p active c h (ok was_unavailable ∷ es) = Fits p active c h es
Fits p active c h (ok was_unqualified ∷ es) = Fits p active c h es
Fits p active c h (err e ∷ es) = Fits p active c h es

-- The same for one event, which leads to `active'`, `c'` and `h'`.
abbrev Moves :
    {F : Type 0} → VadCalibrationProfile F → Bool → ℕ → ℕ → VadFrameEvent → Bool → ℕ → ℕ → Type 0
Moves p active c h silence active' c' h' =
    (active ≡ false) × (c ≡ 0) × (active' ≡ false) × (c' ≡ 0) × (h' ≡ 0)
Moves p active c h speech_candidate active' c' h' =
    (active ≡ false)
    × (suc c < p.minimum_soft_speech_frames)
    × (active' ≡ false)
    × (c' ≡ suc c)
    × (h' ≡ 0)
Moves p active c h speech_started active' c' h' =
    (active ≡ false) × (p.minimum_speech_frames ≤ suc c) × (active' ≡ true) × (c' ≡ 0) × (h' ≡ 0)
Moves p active c h speech active' c' h' = (active ≡ true) × (active' ≡ true) × (c' ≡ 0) × (h' ≡ 0)
Moves p active c h hangover active' c' h' =
    (active ≡ true) × (suc h < endpoint p) × (active' ≡ true) × (c' ≡ 0) × (h' ≡ suc h)
Moves p active c h speech_ended active' c' h' =
    (active ≡ true) × (suc h ≡ endpoint p) × (active' ≡ false) × (c' ≡ 0) × (h' ≡ 0)
Moves p active c h false_start active' c' h' =
    (active ≡ false) × (1 ≤ c) × (active' ≡ false) × (c' ≡ 0) × (h' ≡ 0)
Moves p active c h _ active' c' h' = (active' ≡ active) × (c' ≡ c) × (h' ≡ h)

abbrev Follows :
    {I F : Type 0} → SileroVadAdapter I F → VadFrameEvent → SileroVadAdapter I F → Type 0
Follows a e b =
    Inv b
    × (b.profile ≡ a.profile)
    × Moves a.profile a.speech_active a.candidate_frames a.silence_frames e b.speech_active
        b.candidate_frames b.silence_frames

abbrev FollowsOrFails :
    {I F : Type 0}
    → SileroVadAdapter I F
    → Result VadError VadFrameEvent
    → SileroVadAdapter I F
    → Type 0
FollowsOrFails a (ok e) b = Follows a e b
FollowsOrFails a (err e) b = Follows a was_unavailable b
