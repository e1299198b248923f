-- ===== src/Session/Reducer.antt =====
-- crates/speakeasy-domain/src/coordinator.rs: the reducer that owns the session phase. A method on
-- `&mut self` returns the new reducer. An id of 16 bytes is the number that they spell.
use speakeasy_granite_rust_m.Base.{
  ℕ, Bool, true, false, not, ◌&&◌, ◌||◌, Option, none, some, List, [], leb, ◌==◌, if◌then◌else◌,
  is_some, saturating_add64, length, get, put,
}
use speakeasy_granite_rust_m.Session.Phase.{
  SessionPhase, arming, delivered, cancelled, failed, AppState, default_app_state,
  transition_allowed,
}

abbrev pub domain_schema_version : ℕ
domain_schema_version = 1

pub record IngressEvent {ℓ} (T : Type ℓ) : Type ℓ where
  pub schema_version : ℕ
  pub correlation_id : ℕ
  pub session_id : Option ℕ
  pub producer_id : ℕ
  pub source_sequence : ℕ
  pub producer_monotonic_ns : ℕ
  pub payload : T

pub record DomainEvent {ℓ} (T : Type ℓ) : Type ℓ where
  pub schema_version : ℕ
  pub correlation_id : ℕ
  pub session_id : Option ℕ
  pub coordinator_sequence : ℕ
  pub received_monotonic_ns : ℕ
  pub audio_sample_index : Option ℕ
  pub payload : T

pub data ReducerDisposition : Type 0 where
  applied duplicate_or_out_of_order stale_session invalid_transition : ReducerDisposition
  producer_capacity_exceeded : ReducerDisposition

abbrev pub maximum_producers : ℕ
maximum_producers = 64

pub record Reducer : Type 0 where
  pub state : AppState
  pub active_session : Option ℕ
  pub last_source_sequence : List (ℕ × ℕ)
  pub coordinator_sequence : ℕ

-- `Reducer::default()`.
abbrev pub default_reducer : Reducer
default_reducer = record {
  state = default_app_state;
  active_session = none;
  last_source_sequence = [];
  coordinator_sequence = 0;
}

abbrev set_phase : Reducer → SessionPhase → Reducer
set_phase r p = let s = r.state in record r { state = record s { session = p } }

unfoldable pub begin_session : Reducer → ℕ → Reducer × ReducerDisposition
begin_session r session_id =
    if is_some r.active_session || not (transition_allowed r.state.session arming)
    then (r, invalid_transition)
    else (set_phase (record r { active_session = some session_id }) arming, applied)

-- `left == right` on `Option<SessionId>`.
abbrev pub same_session : Option ℕ → Option ℕ → Bool
same_session none none = true
same_session (some a) (some b) = a == b
same_session _ _ = false

-- `get(producer).is_some_and(|last| source_sequence <= last)`.
abbrev pub is_replay : Option ℕ → ℕ → Bool
is_replay none sequence = false
is_replay (some last) sequence = leb sequence last

-- The `matches!` on the phase that ends a session.
abbrev pub releases_session : SessionPhase → Bool
releases_session delivered = true
releases_session cancelled = true
releases_session failed = true
releases_session _ = false

module _ {ℓ} {T : Type ℓ} where
  -- The assignments behind the four guards.
  abbrev commit : Reducer → IngressEvent T → SessionPhase → Reducer
  commit r ingress next =
      let s = r.state in
      record {
        state = record s { session = next };
        active_session = if releases_session next then none else r.active_session;
        last_source_sequence =
            put r.last_source_sequence ingress.producer_id ingress.source_sequence;
        coordinator_sequence = saturating_add64 r.coordinator_sequence 1;
      }

  abbrev emitted : Reducer → IngressEvent T → ℕ → DomainEvent T
  emitted r ingress now = record {
    schema_version = domain_schema_version;
    correlation_id = ingress.correlation_id;
    session_id = ingress.session_id;
    coordinator_sequence = saturating_add64 r.coordinator_sequence 1;
    received_monotonic_ns = now;
    audio_sample_index = none;
    payload = ingress.payload;
  }

  unfoldable pub apply :
      Reducer
      → IngressEvent T
      → SessionPhase
      → ℕ
      → Reducer × ReducerDisposition × Option (DomainEvent T)
  apply r ingress next now =
      let known = get r.last_source_sequence ingress.producer_id in
      if is_some ingress.session_id && not (same_session ingress.session_id r.active_session)
      then (r, stale_session, none)
      else if is_replay known ingress.source_sequence
      then (r, duplicate_or_out_of_order, none)
      else if not (is_some known) && length r.last_source_sequence == maximum_producers
      then (r, producer_capacity_exceeded, none)
      else if not (transition_allowed r.state.session next)
      then (r, invalid_transition, none)
      else (commit r ingress next, applied, some (emitted r ingress now))

-- `tracked_producers`.
abbrev pub tracked_producers : Reducer → ℕ
tracked_producers r = length r.last_source_sequence
