-- ===== src/Session/Run.antt =====
-- The reducer under a sequence of calls: coordinator.rs, as its owner drives it.
use speakeasy_granite_rust_m.Base.{ℕ, Option, none, some, List, [], ◌∷◌}
use speakeasy_granite_rust_m.Session.Phase.{SessionPhase}
use speakeasy_granite_rust_m.Session.Reducer.{
  IngressEvent, DomainEvent, Reducer, ReducerDisposition, applied, begin_session, apply,
}

pub data Call {ℓ} (T : Type ℓ) : Type ℓ where
  begins : ℕ → Call T
  applies : IngressEvent T → SessionPhase → ℕ → Call T

abbrev note : ReducerDisposition → SessionPhase → List SessionPhase → List SessionPhase
note applied p history = p ∷ history
note _ p history = history

module _ {ℓ} {T : Type ℓ} where
  unfoldable pub step : Reducer → Call T → Reducer × ReducerDisposition × Option (DomainEvent T)
  step r (begins s) = let (q, d) = begin_session r s in (q, d, none)
  step r (applies e next now) = apply r e next now

  abbrev pub attach : Option (DomainEvent T) → List (DomainEvent T) → List (DomainEvent T)
  attach none es = es
  attach (some e) es = e ∷ es

  -- The last reducer, and the events emitted on the way, oldest first.
  unfoldable pub run : Reducer → List (Call T) → Reducer × List (DomainEvent T)
  run r [] = (r, [])
  run r (c ∷ cs) = let (q, d, e) = step r c in let (last, es) = run q cs in (last, attach e es)

  -- The phases entered by the calls, newest first.
  unfoldable pub phases : Reducer → List SessionPhase → List (Call T) → List SessionPhase
  phases r history [] = history
  phases r history (c ∷ cs) =
      let (q, d, e) = step r c in phases q (note d q.state.session history) cs
