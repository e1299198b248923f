-- ===== src/Activation.antt =====
-- crates/speakeasy-domain/src/activation.rs: what starts and stops a dictation.
use speakeasy_granite_rust_m.Base.{
  ℕ, Bool, true, false, not, ◌&&◌, ◌||◌, Option, none, some, ◌==◌, if◌then◌else◌, is_some,
}
pub mod Laws
pub mod Gestures

-- `contracts.rs`.
pub data ActivationMode : Type 0 where
  toggle push_to_talk hands_free : ActivationMode

abbrev pub same_mode : ActivationMode → ActivationMode → Bool
same_mode toggle toggle = true
same_mode push_to_talk push_to_talk = true
same_mode hands_free hands_free = true
same_mode _ _ = false

-- Each carries its `session_id`.
pub data ActivationInput : Type 0 where
  toggle_pressed push_to_talk_pressed push_to_talk_released : ℕ → ActivationInput
  hands_free_pressed vad_endpoint manual_stop cancel : ℕ → ActivationInput

pub data ActivationStopReason : Type 0 where
  on_toggle_pressed on_push_to_talk_released on_vad_endpoint : ActivationStopReason
  manual on_cancelled : ActivationStopReason

pub data ActivationEffect : Type 0 where
  start : ℕ → ActivationMode → ActivationEffect
  stop : ℕ → ActivationStopReason → ActivationEffect
  ignored stale_session session_already_active : ActivationEffect

pub record ActiveActivation : Type 0 where
  pub session_id : ℕ
  pub mode : ActivationMode

pub record ActivationReducer : Type 0 where
  pub active : Option ActiveActivation
  pub push_to_talk_held : Bool

abbrev pub default_activation : ActivationReducer
default_activation = record { active = none; push_to_talk_held = false }

unfoldable pub active_session : ActivationReducer → Option ℕ
active_session r = elim r.active [ some a ↦ some a.session_id | none ↦ none ]

unfoldable pub active_mode : ActivationReducer → Option ActivationMode
active_mode r = elim r.active [ some a ↦ some a.mode | none ↦ none ]

-- The method `start`; the effect has its name.
start_as : ActivationReducer → ℕ → ActivationMode → ActivationReducer × ActivationEffect
start_as r session_id mode = if is_some r.active then (r, session_already_active) else (
  record {
    active = some (record { session_id = session_id; mode = mode });
    push_to_talk_held = same_mode mode push_to_talk;
  },
  start session_id mode,
)

-- The method `stop`.
stop_for : ActivationReducer → ℕ → ActivationStopReason → ActivationReducer × ActivationEffect
stop_for r session_id reason = elim r.active [
  | none ↦ (r, ignored)
  | some a ↦
      if not (a.session_id == session_id)
      then (r, stale_session)
      else (record { active = none; push_to_talk_held = false }, stop session_id reason)
]

-- `active.is_some_and(|a| a.session_id == session_id && a.mode == mode)`.
abbrev holds : Option ActiveActivation → ℕ → ActivationMode → Bool
holds none session_id mode = false
holds (some a) session_id mode = a.session_id == session_id && same_mode a.mode mode

start_or_toggle_stop : ActivationReducer → ℕ → ActivationReducer × ActivationEffect
unfolding start_as stop_for
start_or_toggle_stop r session_id =
    if holds r.active session_id toggle
    then stop_for r session_id on_toggle_pressed
    else start_as r session_id toggle

ptt_down : ActivationReducer → ℕ → ActivationReducer × ActivationEffect
unfolding start_as
ptt_down r session_id =
    if holds r.active session_id push_to_talk && r.push_to_talk_held
    then (r, ignored)
    else start_as r session_id push_to_talk

ptt_up : ActivationReducer → ℕ → ActivationReducer × ActivationEffect
unfolding stop_for
ptt_up r session_id = elim r.active [
  | none ↦ (r, ignored)
  | some a ↦
      if not (a.session_id == session_id)
      then (r, stale_session)
      else if not (same_mode a.mode push_to_talk) || not r.push_to_talk_held
      then (r, ignored)
      else stop_for r session_id on_push_to_talk_released
]

-- The method `vad_endpoint`.
vad_stop : ActivationReducer → ℕ → ActivationReducer × ActivationEffect
unfolding stop_for
vad_stop r session_id = elim r.active [
  | none ↦ (r, ignored)
  | some a ↦
      if not (a.session_id == session_id)
      then (r, stale_session)
      else if not (same_mode a.mode hands_free)
      then (r, ignored)
      else stop_for r session_id on_vad_endpoint
]

unfoldable pub apply : ActivationReducer → ActivationInput → ActivationReducer × ActivationEffect
unfolding start_or_toggle_stop ptt_down ptt_up vad_stop start_as stop_for
apply r (toggle_pressed s) = start_or_toggle_stop r s
apply r (push_to_talk_pressed s) = ptt_down r s
apply r (push_to_talk_released s) = ptt_up r s
apply r (hands_free_pressed s) = start_as r s hands_free
apply r (vad_endpoint s) = vad_stop r s
apply r (manual_stop s) = stop_for r s manual
apply r (cancel s) = stop_for r s on_cancelled
