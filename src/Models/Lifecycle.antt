-- ===== src/Models/Lifecycle.antt =====
-- crates/speakeasy-models/src/lifecycle.rs: the tables of install and runtime states. `none` is the
-- error of an invalid transition.
use Prim.Native.String.{String}
use speakeasy_granite_rust_m.Base.{
  ℕ, ◌≡◌, ap, Bool, true, false, Option, none, some, List, [], ◌∷◌, arith, if◌then◌else◌,
}

pub record InstallFailure : Type 0 where
  pub reason : String
  pub recoverable : Bool

pub data InstallState : Type 0 where
  absent : InstallState
  -- `received_bytes` and `total_bytes`.
  downloading : ℕ → ℕ → InstallState
  verifying installing verified_on_disk cancelled : InstallState
  failed : InstallFailure → InstallState

-- `matches!`, a row for each alternative.
abbrev install_allowed : InstallState → InstallState → Bool
install_allowed absent (downloading _ _) = true
install_allowed (downloading _ _) (downloading _ _) = true
install_allowed (downloading _ _) verifying = true
install_allowed (downloading _ _) cancelled = true
install_allowed (downloading _ _) (failed _) = true
install_allowed verifying installing = true
install_allowed verifying cancelled = true
install_allowed verifying (failed _) = true
install_allowed installing verified_on_disk = true
install_allowed installing cancelled = true
install_allowed installing (failed _) = true
install_allowed cancelled absent = true
install_allowed cancelled (downloading _ _) = true
install_allowed (failed _) absent = true
install_allowed (failed _) (downloading _ _) = true
install_allowed verified_on_disk absent = true
install_allowed _ _ = false

-- `InstallState::transition`.
unfoldable pub install_transition : InstallState → InstallState → Option InstallState
install_transition state next = if install_allowed state next then some next else none

pub record RuntimeEvidence : Type 0 where
  pub artifact_id : String
  pub runtime_abi : String
  pub provider : String
  pub inference_sample_count : ℕ

pub data RuntimeState : Type 0 where
  on_disk runtime_smoke_testing : RuntimeState
  ready : RuntimeEvidence → RuntimeState
  runtime_failed : InstallFailure → RuntimeState

abbrev runtime_allowed : RuntimeState → RuntimeState → Bool
runtime_allowed on_disk runtime_smoke_testing = true
runtime_allowed (runtime_failed _) runtime_smoke_testing = true
runtime_allowed runtime_smoke_testing (ready _) = true
runtime_allowed runtime_smoke_testing (runtime_failed _) = true
runtime_allowed (ready _) runtime_smoke_testing = true
runtime_allowed (ready _) (runtime_failed _) = true
runtime_allowed _ _ = false

-- `RuntimeState::transition`.
unfoldable pub runtime_transition : RuntimeState → RuntimeState → Option RuntimeState
runtime_transition state next = if runtime_allowed state next then some next else none

-- The states so far, newest first, each from a transition of the one before it.
abbrev pub IsInstallHistory : List InstallState → Type 0
IsInstallHistory [] = ⊥
IsInstallHistory (s ∷ []) = s ≡ absent
IsInstallHistory (s ∷ t ∷ states) =
    (install_transition t s ≡ some s) × IsInstallHistory (t ∷ states)

abbrev pub IsRuntimeHistory : List RuntimeState → Type 0
IsRuntimeHistory [] = ⊥
IsRuntimeHistory (s ∷ []) = s ≡ on_disk
IsRuntimeHistory (s ∷ t ∷ states) =
    (runtime_transition t s ≡ some s) × IsRuntimeHistory (t ∷ states)

to_ready :
    (t : RuntimeState) (e : RuntimeEvidence)
    → runtime_transition t (ready e) ≡ some (ready e)
    → t ≡ runtime_smoke_testing
unfolding runtime_transition
to_ready t e h = ground arith

-- A runtime is ready only directly after a smoke test.
pub ready_after_test :
    (e : RuntimeEvidence) (states : List RuntimeState)
    → IsRuntimeHistory (ready e ∷ states)
    → (older : List RuntimeState) × (states ≡ runtime_smoke_testing ∷ older)
ready_after_test e [] h = ground arith
ready_after_test e (t ∷ states) (a, h) = (states, ap (λ x. x ∷ states) (to_ready t e a))
