-- ===== src/Session/Phase.antt =====
-- crates/speakeasy-domain/src/state.rs: the phases of a session and the transition table, and the
-- state of the application around it.
use speakeasy_granite_rust_m.Base.{Bool, true, false}

pub data AppReadiness : Type 0 where
  starting needs_model app_ready shutting_down : AppReadiness

pub data SessionPhase : Type 0 where
  idle arming capturing draining finalizing delivering delivered cancelled failed : SessionPhase

pub data VadState : Type 0 where
  silence speech hangover : VadState

pub data EngineState : Type 0 where
  unavailable loading ready running engine_failed : EngineState

pub data DeliveryCapability : Type 0 where
  verified_range_replace append_only_live commit_on_finish : DeliveryCapability
  clipboard_only result_view_only : DeliveryCapability

pub record AppState : Type 0 where
  pub readiness : AppReadiness
  pub session : SessionPhase
  pub vad : VadState
  pub engine : EngineState
  pub delivery : DeliveryCapability

abbrev pub default_app_state : AppState
default_app_state = record {
  readiness = starting;
  session = idle;
  vad = silence;
  engine = unavailable;
  delivery = result_view_only;
}

-- `matches!` over the pair: a clause for each alternative, and the rest is refused.
unfoldable pub transition_allowed : SessionPhase → SessionPhase → Bool
transition_allowed idle arming = true
transition_allowed arming capturing = true
transition_allowed arming cancelled = true
transition_allowed arming failed = true
transition_allowed capturing draining = true
transition_allowed capturing cancelled = true
transition_allowed capturing failed = true
transition_allowed draining finalizing = true
transition_allowed draining cancelled = true
transition_allowed draining failed = true
transition_allowed finalizing delivering = true
transition_allowed finalizing cancelled = true
transition_allowed finalizing failed = true
transition_allowed delivering delivered = true
transition_allowed delivering failed = true
transition_allowed delivered idle = true
transition_allowed cancelled idle = true
transition_allowed failed idle = true
transition_allowed _ _ = false
