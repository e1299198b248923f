-- ===== src/Tests/Session.antt =====
-- The session reducer at concrete inputs: crates/speakeasy-domain/src/coordinator.rs.
use speakeasy_granite_rust_m.Base.{
  ℕ, ◌≡◌, ◌≢◌, refl, none, some, List, [], ◌∷◌, ◌++◌, arith, get, put,
}
use speakeasy_granite_rust_m.Session.Phase.{
  SessionPhase, idle, arming, capturing, draining, finalizing, delivering, delivered,
  transition_allowed,
}
use speakeasy_granite_rust_m.Session.Reducer.{
  IngressEvent, Reducer, default_reducer, begin_session, apply, applied, stale_session,
}
use speakeasy_granite_rust_m.Session.Run.{Call, begins, applies, step, run, phases}
use speakeasy_granite_rust_m.Session.Invariant.{Inv}
use speakeasy_granite_rust_m.Session.Ordering.{
  run-Inv, refused_unchanged, applied_once, stale_forever,
}
use speakeasy_granite_rust_m.Session.History.{current, delivery_path, delivered_in_order}

abbrev from_session : ℕ → ℕ → IngressEvent ℕ
from_session s n = record {
  schema_version = 1;
  correlation_id = 1;
  session_id = some s;
  producer_id = 2;
  source_sequence = n;
  producer_monotonic_ns = 10;
  payload = 7;
}

abbrev whole_session : List (Call ℕ)
whole_session =
    begins 3
    ∷ applies (from_session 3 1) capturing 10
    ∷ applies (from_session 3 2) draining 20
    ∷ applies (from_session 3 3) finalizing 30
    ∷ applies (from_session 3 3) delivering 35
    ∷ applies (from_session 3 4) delivering 40
    ∷ applies (from_session 3 5) delivered 50
    ∷ []

whole_session_delivers : (run default_reducer whole_session).0.state.session ≡ delivered
unfolding run step begin_session apply transition_allowed get put
whole_session_delivers = refl

delivered_in_order_example :
    (older : List SessionPhase) × (phases default_reducer [] whole_session ≡ delivery_path ++ older)
    × (current older ≡ idle)
delivered_in_order_example = delivered_in_order whole_session whole_session_delivers

run-Inv_example : Inv (run default_reducer whole_session).0
run-Inv_example = run-Inv whole_session

abbrev armed : Reducer
armed = record default_reducer {
  state = record {
    readiness = default_reducer.state.readiness;
    session = arming;
    vad = default_reducer.state.vad;
    engine = default_reducer.state.engine;
    delivery = default_reducer.state.delivery;
  };
  active_session = some 3;
}

refused_unchanged_example :
    ((step armed (applies (from_session 4 1) capturing 10)).0 ≡ armed)
    × ((step armed (applies (from_session 4 1) capturing 10)).2 ≡ none)
unfolding step apply
refused_unchanged_example =
    refused_unchanged armed (applies (from_session 4 1) capturing 10) (λ e. cc)

applied_once_example :
    (apply
      (run
        (apply armed (from_session 3 5) capturing 10).0
        (applies (from_session 3 6) draining 20 ∷ [])).0
      (from_session 3 4)
      finalizing
      30).1
    ≢ applied
unfolding apply transition_allowed get put
applied_once_example =
    applied_once armed (from_session 3 5) (from_session 3 4) capturing finalizing 10 30
      (applies (from_session 3 6) draining 20 ∷ []) refl refl (omega arith)

stale_forever_example :
    (apply
      (run default_reducer (begins 4 ∷ applies (from_session 4 1) capturing 10 ∷ [])).0
      (from_session 3 9)
      draining
      20).1
    ≡ stale_session
stale_forever_example =
    stale_forever default_reducer 3 (begins 4 ∷ applies (from_session 4 1) capturing 10 ∷ [])
      (from_session 3 9) draining 20 (λ e. cc) ((λ e. omega arith), tt) refl
