-- ===== src/GraniteEngine/Warming.antt =====
-- `warm_granite_if_configured`, and the coordinator's calls in any order.
use Prim.Native.String.{String}
use speakeasy_granite_rust_m.Base.{
  ℕ, true, not, Option, none, some, List, [], ◌∷◌, if◌then◌else◌, ok, err,
}
use speakeasy_granite_rust_m.FinalPass.{engine_quarantined, DomainError, domain_error}
use speakeasy_granite_rust_m.GraniteEngine.Choice.{GranitePackChoice}
use speakeasy_granite_rust_m.GraniteEngine.Coordinator.{
  Situation, WarmVerification, not_attempted, GraniteEngineCoordinator, Call, reason_code,
  quarantined, cuda_worker_available, record_worker_failure, clear_quarantine, invalidate,
}
use speakeasy_granite_rust_m.GraniteEngine.Pass.{
  granite_memory_is_sufficient, admitted_granite_pack, Ready, ensure_ready, run_granite_final_pass,
}

module _ {A : Type 0} (e : Situation A) where
  -- The coordinator, the log, and the `WarmOutcome`.
  abbrev pub Warmed : Type 0
  Warmed = GraniteEngineCoordinator A × List (Call A) × WarmVerification × Option DomainError

  -- The reason of the choice made again, now that the worker has spoken.
  abbrev pub corrected :
      GraniteEngineCoordinator A → Option GranitePackChoice → GraniteEngineCoordinator A
  corrected c none = c
  corrected c (some choice) = record c { reason = reason_code choice.reason }

  abbrev pub warm_with : Ready e → Warmed
  warm_with (c, log, verification, err reason) = (c, log, verification, some reason)
  warm_with (c, log, verification, ok adapter) = (
    if cuda_worker_available c then corrected c (admitted_granite_pack e true) else c,
    log,
    verification,
    none,
  )

  abbrev pub warm_for :
      GraniteEngineCoordinator A → List (Call A) → Option GranitePackChoice → Warmed
  warm_for c log none = (record c { warm = "not_configured" }, log, not_attempted, none)
  warm_for c log (some choice) = warm_with (ensure_ready e c log choice)

  abbrev pub warm_on : Option String → GraniteEngineCoordinator A → List (Call A) → Warmed
  warm_on none c log = (record c { warm = "granite_worker_missing" }, log, not_attempted, none)
  warm_on (some exe) c log =
      if not (granite_memory_is_sufficient e.total_memory_bytes)
      then (
        record c { reason = "memory_below_granite_floor"; warm = "memory_below_granite_floor" },
        log,
        not_attempted,
        none,
      )
      else if quarantined c
      then (c, log, not_attempted, some (domain_error engine_quarantined))
      else warm_for c log (admitted_granite_pack e (cuda_worker_available c))

  unfoldable pub warm_granite_if_configured : GraniteEngineCoordinator A → List (Call A) → Warmed
  unfolding ensure_ready admitted_granite_pack
  warm_granite_if_configured c log = warm_on e.granite_worker_exe c log

-- What the app asks of the coordinator.
pub data Operation (A : Type 0) : Type 0 where
  passes warms : Situation A → Operation A
  invalidates clears_quarantine : Operation A
  fails : ℕ → Operation A

abbrev pub State : Type 0 → Type 0
State A = GraniteEngineCoordinator A × List (Call A)

module _ {A : Type 0} where
  unfoldable pub operate : GraniteEngineCoordinator A → List (Call A) → Operation A → State A
  unfolding run_granite_final_pass warm_granite_if_configured record_worker_failure
  operate c log (passes e) = let (c', log', result) = run_granite_final_pass e c log in (c', log')
  operate c log (warms e) =
      let (c', log', v, error) = warm_granite_if_configured e c log in (c', log')
  operate c log invalidates = (invalidate c, log)
  operate c log clears_quarantine = (clear_quarantine c, log)
  operate c log (fails elapsed) = (record_worker_failure c elapsed, log)

  unfoldable pub operate_all :
      GraniteEngineCoordinator A → List (Call A) → List (Operation A) → State A
  unfolding operate
  operate_all c log [] = (c, log)
  operate_all c log (a ∷ acts) = let (c', log') = operate c log a in operate_all c' log' acts
