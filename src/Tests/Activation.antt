-- ===== src/Tests/Activation.antt =====
-- The activation reducer at concrete inputs: crates/speakeasy-domain/src/activation.rs.
use mathlib.Core.Bool.{false}
use speakeasy_granite_rust_m.Base.{◌≡◌, refl, some, List, [], ◌∷◌}
use speakeasy_granite_rust_m.Activation.{
  ActivationInput, toggle_pressed, push_to_talk_pressed, push_to_talk_released, vad_endpoint, start,
  stop, ignored, toggle, push_to_talk, on_push_to_talk_released, ActivationReducer,
  default_activation, active_session, apply, session_already_active,
}
use speakeasy_granite_rust_m.Activation.Laws.{Honest, apply-Honest}
use speakeasy_granite_rust_m.Activation.Gestures.{run, Alternates, run-Alternates}

abbrev presses : List ActivationInput
presses =
    push_to_talk_pressed 2
    ∷ push_to_talk_pressed 2
    ∷ vad_endpoint 2
    ∷ toggle_pressed 5
    ∷ push_to_talk_released 2
    ∷ []

presses_effects :
    (run default_activation presses).1
    ≡ start 2 push_to_talk
      ∷ ignored
      ∷ ignored
      ∷ session_already_active
      ∷ stop 2 on_push_to_talk_released
      ∷ []
unfolding run apply
presses_effects = refl

abbrev toggled : ActivationReducer
toggled = record {
  active = some (record { session_id = 1; mode = toggle });
  push_to_talk_held = false;
}

run-Alternates_example : Alternates (active_session toggled) (run toggled presses).1
run-Alternates_example = run-Alternates toggled presses

apply-Honest_example :
    Honest toggled (apply toggled (toggle_pressed 1)).1 (apply toggled (toggle_pressed 1)).0
apply-Honest_example = apply-Honest toggled (toggle_pressed 1)
