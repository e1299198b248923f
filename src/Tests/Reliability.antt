-- ===== src/Tests/Reliability.antt =====
-- Recovery from failures at concrete inputs: crates/speakeasy-domain/src/reliability.rs.
use speakeasy_granite_rust_m.Base.{◌≡◌, refl, true, false, not, ◌&&◌, none, List, [], ◌∷◌}
use speakeasy_granite_rust_m.Reliability.Arbiter.{
  dictation, model_install, Request, begins, finishes, began, ended, waited, nothing,
  default_arbiter, serve_all, serve, begin, finish, IsExclusive, serve_all-IsExclusive,
}
use speakeasy_granite_rust_m.Reliability.Lifecycle.{
  LifecycleEvent, suspend, resume, lock, rdp_connected, default_controller, apply, run, asleep,
  screen_locked, connected, stopping, run_accepts,
}
use speakeasy_granite_rust_m.Reliability.Faults.{FaultScript, timeout, denied}

abbrev requests : List Request
requests =
    begins (dictation 4)
    ∷ begins model_install
    ∷ finishes model_install
    ∷ finishes (dictation 4)
    ∷ begins model_install
    ∷ []

requests_served :
    serve_all default_arbiter requests
    ≡ began (dictation 4)
      ∷ waited (dictation 4)
      ∷ nothing
      ∷ ended (dictation 4)
      ∷ began model_install
      ∷ []
unfolding serve_all serve begin finish
requests_served = refl

serve_all-IsExclusive_example : IsExclusive none (serve_all default_arbiter requests)
serve_all-IsExclusive_example = serve_all-IsExclusive default_arbiter requests

abbrev nap : List LifecycleEvent
nap = lock ∷ suspend ∷ resume ∷ rdp_connected ∷ []

nap_refuses : (run default_controller nap).accept_activations ≡ false
unfolding run apply
nap_refuses = refl

run_accepts_example : (run default_controller nap).accept_activations ≡ (
    not (asleep false nap)
    && not (screen_locked false nap)
    && connected true nap
    && not (stopping false nap))
run_accepts_example = run_accepts nap

abbrev script : FaultScript
script = record { maximum_entries = 4; entries = (31, timeout ∷ denied ∷ []) ∷ []; remaining = 2 }
