-- ===== src/Activation/Gestures.antt =====
-- Runs of inputs: sessions never overlap.
use speakeasy_granite_rust_m.Base.{ℕ, ◌≡◌, Option, none, some, List, [], ◌∷◌, arith}
use speakeasy_granite_rust_m.Activation.{
  ActivationInput, ActivationEffect, start, stop, ActivationReducer, default_activation, apply,
  ignored, active_session, cancel, manual_stop, on_cancelled, manual,
}
use speakeasy_granite_rust_m.Activation.Laws.{
  HeldFits, default-HeldFits, apply-HeldFits, Honest, apply-Honest,
}

unfoldable pub run :
    ActivationReducer → List ActivationInput → ActivationReducer × List ActivationEffect
run r [] = (r, [])
run r (i ∷ is) = let (q, e) = apply r i in let (last, es) = run q is in (last, e ∷ es)

run_keeps : (r : ActivationReducer) (is : List ActivationInput) → HeldFits r → HeldFits (run r is).0
unfolding run
run_keeps r [] v = v
run_keeps r (i ∷ is) v = run_keeps (apply r i).0 is (apply-HeldFits r i v)

-- After any inputs, the held flag is set exactly when a push-to-talk activation is on.
pub run-HeldFits : (is : List ActivationInput) → HeldFits (run default_activation is).0
run-HeldFits is = run_keeps default_activation is default-HeldFits

-- From session `o` on: a start comes only when none is on, a stop only for the one that is on.
abbrev pub Alternates : Option ℕ → List ActivationEffect → Type 0
Alternates o [] = Unit {0}
Alternates o (start s m ∷ es) = (o ≡ none) × Alternates (some s) es
Alternates o (stop s reason ∷ es) = (o ≡ some s) × Alternates none es
Alternates o (_ ∷ es) = Alternates o es

Alternates-cons :
    (r q : ActivationReducer) (e : ActivationEffect) (es : List ActivationEffect)
    → Honest r e q
    → Alternates (active_session q) es
    → Alternates (active_session r) (e ∷ es)
Alternates-cons r q (start s m) es h a = ground arith
Alternates-cons r q _ es h a = ground arith

-- In the effects of any inputs, starts and stops alternate, and each stop names the session that
-- the start before it named.
pub run-Alternates :
    (r : ActivationReducer) (is : List ActivationInput) → Alternates (active_session r) (run r is).1
unfolding run
run-Alternates r [] = tt
run-Alternates r (i ∷ is) =
    Alternates-cons r (apply r i).0 (apply r i).1 (run (apply r i).0 is).1 (apply-Honest r i)
      (run-Alternates (apply r i).0 is)

-- Whatever the mode, a manual stop or a cancellation of the active session stops it, and a repeat
-- of either then changes nothing.
pub stop_always :
    (r : ActivationReducer) (s : ℕ)
    → active_session r ≡ some s
    → ((apply r (manual_stop s)).1 ≡ stop s manual)
      × ((apply r (cancel s)).1 ≡ stop s on_cancelled)
      × ((apply r (cancel s)).0 ≡ default_activation)
      × (apply (apply r (cancel s)).0 (cancel s) ≡ (default_activation, ignored))
      × ((apply r (manual_stop s)).0 ≡ default_activation)
unfolding apply active_session
stop_always r s h = ground arith
