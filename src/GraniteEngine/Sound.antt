-- ===== src/GraniteEngine/Sound.antt =====
-- What holds of the coordinator's calls in any order: what is transcribed, and what a quarantine stops.
use speakeasy_granite_rust_m.Base.{
  true, false, not, none, some, List, [], ◌∷◌, ◌≡◌, if◌then◌else◌, Bool-cases, inl, inr, refl, ap,
  ◌∙◌,
}
use speakeasy_granite_rust_m.FinalPass.{domain_error, engine_quarantined}
use speakeasy_granite_rust_m.GraniteEngine.Coordinator.{
  Situation, GraniteEngineCoordinator, Call, record_worker_failure, default_coordinator,
  quarantined, cuda_worker_available, not_attempted,
}
use speakeasy_granite_rust_m.GraniteEngine.Pass.{
  granite_memory_is_sufficient, admitted_granite_pack, ensure_ready, pass_on,
  run_granite_final_pass,
}
use speakeasy_granite_rust_m.GraniteEngine.Warming.{
  warm_for, warm_on, warm_granite_if_configured, Operation, passes, warms, invalidates,
  clears_quarantine, fails, operate, operate_all,
}
use speakeasy_granite_rust_m.Base.{All}
use speakeasy_granite_rust_m.GraniteEngine.Throttle.{is_quarantined}
use speakeasy_granite_rust_m.GraniteEngine.Trusted.{
  Trusted, Sound, WarmFits, pass-Sound, warm_with_lem, ensure_ready-Fits,
}

module _ {A : Type 0} (e : Situation A) where
  warm-Sound :
      (c : GraniteEngineCoordinator A) (log : List (Call A))
      → Sound c log
      → WarmFits e (warm_granite_if_configured e c log)
  unfolding warm_granite_if_configured
  warm-Sound c log s = elim e.granite_worker_exe as (λ o. WarmFits e (warm_on e o c log)) [
    | none ↦ s
    | some exe ↦
        elim (granite_memory_is_sufficient e.total_memory_bytes)
          as (λ b. WarmFits e (
            if not b
            then (
              record c {
                reason = "memory_below_granite_floor";
                warm = "memory_below_granite_floor";
              },
              log,
              not_attempted,
              none,
            )
            else if quarantined c
            then (c, log, not_attempted, some (domain_error engine_quarantined))
            else warm_for e c log (admitted_granite_pack e (cuda_worker_available c)))) [
              | false ↦ s
              | true ↦
                  elim (quarantined c)
                    as (λ b. WarmFits e (
                      if b
                      then (c, log, not_attempted, some (domain_error engine_quarantined))
                      else warm_for e c log (admitted_granite_pack e (cuda_worker_available c)))) [
                        | true ↦ s
                        | false ↦
                            elim (admitted_granite_pack e (cuda_worker_available c))
                              as (λ o. WarmFits e (warm_for e c log o)) [
                                | none ↦ s
                                | some choice ↦
                                    warm_with_lem e choice.pack (ensure_ready e c log choice)
                                      (ensure_ready-Fits e c log choice s)
                              ]
                      ]
            ]
  ]

  -- With a quarantine on, nothing is called.
  quarantined_pass :
      (c : GraniteEngineCoordinator A) (log : List (Call A))
      → quarantined c ≡ true
      → ((run_granite_final_pass e c log).1 ≡ log)
        × ((run_granite_final_pass e c log).0.crashes ≡ c.crashes)
  unfolding run_granite_final_pass
  quarantined_pass c log q =
      elim e.granite_worker_exe
        as (λ o. ((pass_on e o c log).1 ≡ log) × ((pass_on e o c log).0.crashes ≡ c.crashes)) [
          | none ↦ (refl, refl)
          | some exe ↦ elim (Bool-cases (granite_memory_is_sufficient e.total_memory_bytes)) [
            | inl m ↦ rw (m, q) (refl, refl)
            | inr m ↦ rw m (refl, refl)
          ]
        ]

  quarantined_warm :
      (c : GraniteEngineCoordinator A) (log : List (Call A))
      → quarantined c ≡ true
      → ((warm_granite_if_configured e c log).1 ≡ log)
        × ((warm_granite_if_configured e c log).0.crashes ≡ c.crashes)
  unfolding warm_granite_if_configured
  quarantined_warm c log q =
      elim e.granite_worker_exe
        as (λ o. ((warm_on e o c log).1 ≡ log) × ((warm_on e o c log).0.crashes ≡ c.crashes)) [
          | none ↦ (refl, refl)
          | some exe ↦ elim (Bool-cases (granite_memory_is_sufficient e.total_memory_bytes)) [
            | inl m ↦ rw (m, q) (refl, refl)
            | inr m ↦ rw m (refl, refl)
          ]
        ]

module _ {A : Type 0} where
  operate-Sound :
      (c : GraniteEngineCoordinator A) (log : List (Call A)) (a : Operation A)
      → Sound c log
      → Sound (operate c log a).0 (operate c log a).1
  unfolding operate record_worker_failure
  operate-Sound c log (passes e) s = pass-Sound e c log s
  operate-Sound c log (warms e) s = warm-Sound e c log s
  operate-Sound c log invalidates (h, t) = (tt, t)
  operate-Sound c log clears_quarantine s = s
  operate-Sound c log (fails elapsed) s = s

  all-Sound :
      (c : GraniteEngineCoordinator A) (log : List (Call A)) (acts : List (Operation A))
      → Sound c log
      → Sound (operate_all c log acts).0 (operate_all c log acts).1
  unfolding operate_all
  all-Sound c log [] s = s
  all-Sound c log (a ∷ acts) s =
      all-Sound (operate c log a).0 (operate c log a).1 acts (operate-Sound c log a s)

  -- Whatever the app asks of the coordinator and the outside answers, a worker is started only for a
  -- pack whose digests were compared just before, in the same call, and matched; and what is asked to
  -- transcribe is always the worker that was started last, for a pack of the id and the revision that
  -- are wanted.
  pub operate_all-Trusted :
      (acts : List (Operation A)) → Trusted (operate_all default_coordinator [] acts).1
  operate_all-Trusted acts = (all-Sound default_coordinator [] acts (tt, tt)).1

  -- What neither clears a quarantine nor reports a failure from elsewhere.
  abbrev pub LeavesQuarantine : Operation A → Type 0
  LeavesQuarantine clears_quarantine = ⊥
  LeavesQuarantine (fails elapsed) = ⊥
  LeavesQuarantine _ = Unit

  operate-quarantined :
      (c : GraniteEngineCoordinator A) (log : List (Call A)) (a : Operation A)
      → quarantined c ≡ true
      → LeavesQuarantine a
      → ((operate c log a).1 ≡ log) × ((operate c log a).0.crashes ≡ c.crashes)
  unfolding operate
  operate-quarantined c log (passes e) q l = quarantined_pass e c log q
  operate-quarantined c log (warms e) q l = quarantined_warm e c log q
  operate-quarantined c log invalidates q l = (refl, refl)
  operate-quarantined c log clears_quarantine q l = elim l [ ]
  operate-quarantined c log (fails elapsed) q l = elim l [ ]

  -- Once there is a quarantine, no bytes are compared, no worker is started and none is asked to
  -- transcribe, and the quarantine stays, until it is cleared or a failure is reported from elsewhere.
  pub operate_all-Quarantined :
      (c : GraniteEngineCoordinator A) (log : List (Call A)) (acts : List (Operation A))
      → quarantined c ≡ true
      → All LeavesQuarantine acts
      → ((operate_all c log acts).1 ≡ log) × ((operate_all c log acts).0.crashes ≡ c.crashes)
  unfolding operate_all
  operate_all-Quarantined c log [] q l = (refl, refl)
  operate_all-Quarantined c log (a ∷ acts) q (l, ls) =
      let (x, y) = operate-quarantined c log a q l in
      let (z, w) =
        operate_all-Quarantined (operate c log a).0 (operate c log a).1 acts
          (ap is_quarantined y ∙ q) ls in
      (z ∙ x, w ∙ y)
