-- ===== src/Activation/Laws.antt =====
-- The invariant of the activation reducer, and what starts and stops balance.
use speakeasy_granite_rust_m.Base.{ℕ, ◌≡◌, true, Option, none, some, arith}
use speakeasy_granite_rust_m.Activation.{
  ActivationMode, push_to_talk, hands_free, toggle, ActivationInput, ActivationEffect, start, stop,
  ActivationReducer, default_activation, apply, active_session, active_mode,
  on_push_to_talk_released, on_vad_endpoint, ActivationStopReason, on_toggle_pressed,
}

-- The held flag says exactly that a push-to-talk activation is on.
pub record HeldFits (r : ActivationReducer) : Type 0 where
  pub held : r.push_to_talk_held ≡ true → active_mode r ≡ some push_to_talk
  pub ptt : active_mode r ≡ some push_to_talk → r.push_to_talk_held ≡ true

pub default-HeldFits : HeldFits default_activation
unfolding active_mode
default-HeldFits = ground arith

pub apply-HeldFits :
    (r : ActivationReducer) (i : ActivationInput) → HeldFits r → HeldFits (apply r i).0
unfolding apply active_mode
apply-HeldFits r i v = ground arith

-- What the effect says of the sessions before and after.
abbrev pub Honest : ActivationReducer → ActivationEffect → ActivationReducer → Type 0
Honest r (start s m) q =
    (active_session r ≡ none) × (active_session q ≡ some s) × (active_mode q ≡ some m)
Honest r (stop s reason) q = (active_session r ≡ some s) × (active_session q ≡ none)
Honest r _ q = q ≡ r

-- An effect `start` is returned only when nothing was active and then names the activation now on;
-- `stop` only for the session that was active, which is now off; any other effect leaves the reducer
-- as it was.
pub apply-Honest :
    (r : ActivationReducer) (i : ActivationInput) → Honest r (apply r i).1 (apply r i).0
unfolding apply active_mode active_session
apply-Honest r i = ground arith

abbrev pub ReasonFits : ActivationStopReason → Option ActivationMode → Type 0
ReasonFits on_toggle_pressed m = m ≡ some toggle
ReasonFits on_push_to_talk_released m = m ≡ some push_to_talk
ReasonFits on_vad_endpoint m = m ≡ some hands_free
ReasonFits _ m = Unit {0}

-- A stop by toggle, key release or voice endpoint happens only in the mode that it belongs to.
pub stop-ReasonFits :
    (r : ActivationReducer) (i : ActivationInput) (s : ℕ) (reason : ActivationStopReason)
    → (apply r i).1 ≡ stop s reason
    → ReasonFits reason (active_mode r)
unfolding apply active_mode
stop-ReasonFits r i s reason h = ground arith
