-- ===== src/Session/Invariant.antt =====
-- What one call of the reducer keeps, refuses and records.
use speakeasy_granite_rust_m.Base.{
  ℕ, ◌≤◌, ◌≡◌, ◌⊎◌, Bool, true, false, arith, is_some, length-put, u64_max,
}
use speakeasy_granite_rust_m.Session.Phase.{SessionPhase, transition_allowed}
use speakeasy_granite_rust_m.Session.Reducer.{
  IngressEvent, Reducer, default_reducer, maximum_producers, begin_session, apply,
  tracked_producers, releases_session,
}
use speakeasy_granite_rust_m.Session.Phase.{arming, capturing, draining, finalizing, delivering}

-- A session is in flight.
abbrev pub in_flight : SessionPhase → Bool
in_flight arming = true
in_flight capturing = true
in_flight draining = true
in_flight finalizing = true
in_flight delivering = true
in_flight _ = false

pub record Inv (r : Reducer) : Type 0 where
  pub bounded : tracked_producers r ≤ maximum_producers
  pub released : is_some r.active_session ≡ true → in_flight r.state.session ≡ true
  pub representable : r.coordinator_sequence ≤ u64_max

pub default-Inv : Inv default_reducer
default-Inv = ground arith

pub begin_session-Inv : (r : Reducer) (s : ℕ) → Inv r → Inv (begin_session r s).0
unfolding begin_session
begin_session-Inv r s v = ground arith

stays_in_flight :
    (p q : SessionPhase)
    → transition_allowed p q ≡ true
    → in_flight p ≡ true
    → (releases_session q ≡ true) ⊎ (in_flight q ≡ true)
unfolding transition_allowed
stays_in_flight p q = ground arith

module _ {ℓ} {T : Type ℓ} where
  pub apply-Inv :
      (r : Reducer) (e : IngressEvent T) (next : SessionPhase) (now : ℕ)
      → Inv r
      → Inv (apply r e next now).0
  unfolding apply
  apply-Inv r e next now v = ground (
    arith,
    length-put e.producer_id e.source_sequence r.last_source_sequence,
    stays_in_flight r.state.session next,
  )
