-- ===== src/Session/History.antt =====
-- The phases that a session goes through on the way to its delivery.
use speakeasy_granite_rust_m.Base.{◌≡◌, refl, true, List, [], ◌∷◌, ◌++◌, ◌≢◌, sym, ap, ◌∙◌, arith}
use speakeasy_granite_rust_m.Session.Phase.{
  SessionPhase, idle, arming, capturing, draining, finalizing, delivering, delivered,
  transition_allowed,
}
use speakeasy_granite_rust_m.Session.Reducer.{Reducer, default_reducer, begin_session, apply}
use speakeasy_granite_rust_m.Session.Run.{Call, begins, applies, step, run, phases}

-- Newest first, from `idle`: each phase entered is allowed after the one before it.
abbrev pub current : List SessionPhase → SessionPhase
current [] = idle
current (p ∷ history) = p

abbrev pub IsChain : List SessionPhase → Type 0
IsChain [] = Unit {0}
IsChain (p ∷ history) = (transition_allowed (current history) p ≡ true) × IsChain history

-- A phase with a single way in, and not the first one.
before :
    (h : List SessionPhase) (p q : SessionPhase)
    → IsChain h
    → current h ≡ p
    → p ≢ idle
    → ((r : SessionPhase) → transition_allowed r p ≡ true → r ≡ q)
    → (older : List SessionPhase) × (h ≡ p ∷ older) × IsChain older × (current older ≡ q)
before [] p q c e n u = absurd (n (sym e))
before (x ∷ older) p q (a, c) e n u =
    (older, ap (λ y. y ∷ older) e, c, u (current older) (rw e at a))

abbrev pub delivery_path : List SessionPhase
delivery_path = delivered ∷ delivering ∷ finalizing ∷ draining ∷ capturing ∷ arming ∷ []

to_delivered : (r : SessionPhase) → transition_allowed r delivered ≡ true → r ≡ delivering
unfolding transition_allowed
to_delivered r h = ground arith

to_delivering : (r : SessionPhase) → transition_allowed r delivering ≡ true → r ≡ finalizing
unfolding transition_allowed
to_delivering r h = ground arith

to_finalizing : (r : SessionPhase) → transition_allowed r finalizing ≡ true → r ≡ draining
unfolding transition_allowed
to_finalizing r h = ground arith

to_draining : (r : SessionPhase) → transition_allowed r draining ≡ true → r ≡ capturing
unfolding transition_allowed
to_draining r h = ground arith

to_capturing : (r : SessionPhase) → transition_allowed r capturing ≡ true → r ≡ arming
unfolding transition_allowed
to_capturing r h = ground arith

to_arming : (r : SessionPhase) → transition_allowed r arming ≡ true → r ≡ idle
unfolding transition_allowed
to_arming r h = ground arith

chain_to_delivered :
    (h : List SessionPhase)
    → IsChain h
    → current h ≡ delivered
    → (older : List SessionPhase) × (h ≡ delivery_path ++ older) × (current older ≡ idle)
chain_to_delivered h c e =
    let (h1, e1, c1, p1) = before h delivered delivering c e (λ x. cc) to_delivered in
    let (h2, e2, c2, p2) = before h1 delivering finalizing c1 p1 (λ x. cc) to_delivering in
    let (h3, e3, c3, p3) = before h2 finalizing draining c2 p2 (λ x. cc) to_finalizing in
    let (h4, e4, c4, p4) = before h3 draining capturing c3 p3 (λ x. cc) to_draining in
    let (h5, e5, c5, p5) = before h4 capturing arming c4 p4 (λ x. cc) to_capturing in
    let (h6, e6, c6, p6) = before h5 arming idle c5 p5 (λ x. cc) to_arming in (h6, cc, p6)

module _ {ℓ} {T : Type ℓ} where
  phases_chain :
      (r : Reducer) (h : List SessionPhase) (cs : List (Call T))
      → IsChain h
      → r.state.session ≡ current h
      → IsChain (phases r h cs) × ((run r cs).0.state.session ≡ current (phases r h cs))
  unfolding phases run step begin_session apply
  phases_chain r h [] c e = (c, e)
  phases_chain r h (begins s ∷ cs) c e =
      ground (arith, phases_chain r h cs c e, phases_chain (begin_session r s).0 (arming ∷ h) cs)
  phases_chain r h (applies i next now ∷ cs) c e =
      ground (arith, phases_chain r h cs c e, phases_chain (apply r i next now).0 (next ∷ h) cs)

  -- A session is delivered only after it was armed, captured, drained, finalized and handed to
  -- delivery, in this order and with nothing in between, starting from `idle`.
  pub delivered_in_order :
      (cs : List (Call T))
      → (run default_reducer cs).0.state.session ≡ delivered
      → (older : List SessionPhase) × (phases default_reducer [] cs ≡ delivery_path ++ older)
        × (current older ≡ idle)
  delivered_in_order cs e =
      let (c, k) = phases_chain default_reducer [] cs tt refl in
      chain_to_delivered (phases default_reducer [] cs) c (sym k ∙ e)
