-- ===== src/GraniteEngine/Trusted.antt =====
-- No transcript from a worker that was not started for the pack asked for, after its bytes matched.
use Prim.Native.String.{String}
use text.Mathlib.Text.{◌==◌ as str_eq}
use text.Mathlib.TextEquality.{eq_iff}
use mathlib.Core.Path.{subst}
use speakeasy_granite_rust_m.Base.{
  ℕ, Bool, true, false, not, Option, none, some, List, [], ◌∷◌, ◌≡◌, if◌then◌else◌, Result, ok, err,
  Bool-cases, inl, inr, refl, sym,
}
use speakeasy_granite_rust_m.FinalPass.{
  DomainError, FinalTranscript, domain_error, engine_quarantined,
}
use speakeasy_granite_rust_m.GraniteEngine.Provider.{WorkerProvider}
use speakeasy_granite_rust_m.GraniteEngine.Choice.{Pack, GranitePackChoice}
use speakeasy_granite_rust_m.GraniteEngine.Coordinator.{
  Situation, ResidentPack, GraniteEngineCoordinator, Call, verifies, starts, transcribes,
  record_worker_failure, record_worker_provider, resident_answer, quarantined,
  cuda_worker_available, invalidate,
}
use speakeasy_granite_rust_m.GraniteEngine.Pass.{
  granite_memory_is_sufficient, granite_worker_is_unusable, is_silence, warm, admitted_granite_pack,
  warmed, start_cold, answer_with, ensure_ready, settled, pass_with, pass_for, pass_on,
  run_granite_final_pass, Ready, Passed,
}
use speakeasy_granite_rust_m.GraniteEngine.Warming.{Warmed, corrected, warm_with}

module _ {A : Type 0} where
  -- The last worker started is this one, and it was started for a pack of this id and revision.
  abbrev pub Loaded : String → String → A → List (Call A) → Type 0
  Loaded id revision a [] = ⊥
  Loaded id revision a (starts e p ∷ log) =
      (p.id ≡ id)
      × (p.revision ≡ revision)
      × ((worker : WorkerProvider) × (warm e ≡ ok (a, worker)))
  Loaded id revision a (verifies e p ∷ log) = Loaded id revision a log
  Loaded id revision a (transcribes e p b ∷ log) = Loaded id revision a log

  -- The digests of the pack were compared just before, and matched.
  abbrev pub Verified : Situation A → Pack → List (Call A) → Type 0
  Verified e p (verifies d q ∷ log) = (d ≡ e) × (q ≡ p) × (d.bytes_match q ≡ true)
  Verified e p _ = ⊥

  abbrev pub Trusted : List (Call A) → Type 0
  Trusted [] = Unit
  Trusted (verifies e p ∷ log) = Trusted log
  Trusted (starts e p ∷ log) = Verified e p log × Trusted log
  Trusted (transcribes e p a ∷ log) = Loaded p.id p.revision a log × Trusted log

  abbrev Holds : Option (ResidentPack A) → List (Call A) → Type 0
  Holds none log = Unit
  Holds (some r) log = Loaded r.pack_id r.revision r.adapter log

  abbrev pub Sound : GraniteEngineCoordinator A → List (Call A) → Type 0
  Sound c log = Holds c.adapter log × Trusted log

  -- The worker given is one for the pack.
  abbrev Gives : Pack → List (Call A) → Result DomainError A → Type 0
  Gives pack log (err reason) = Unit
  Gives pack log (ok a) = Loaded pack.id pack.revision a log

  invalidate_lem :
      (c : GraniteEngineCoordinator A) (log : List (Call A)) (b : Bool)
      → Sound c log
      → Sound (if b then invalidate c else c) log
  invalidate_lem c log true (h, t) = (tt, t)
  invalidate_lem c log false s = s

  noted_lem :
      (c : GraniteEngineCoordinator A) (log : List (Call A)) (elapsed : ℕ) (b : Bool)
      → Sound c log
      → Sound (if b then c else record_worker_failure c elapsed) log
  unfolding record_worker_failure
  noted_lem c log elapsed true s = s
  noted_lem c log elapsed false s = s

  held_lem :
      (e : Situation A) (o : Option (ResidentPack A)) (log : List (Call A)) (pack : Pack) (a : A)
      → Holds o log
      → Holds o (transcribes e pack a ∷ log)
  held_lem e none log pack a h = tt
  held_lem e (some r) log pack a h = h

  corrected_lem :
      (e : Situation A) (c : GraniteEngineCoordinator A) (log : List (Call A)) (b : Bool)
      (o : Option GranitePackChoice)
      → Sound c log
      → Sound (if b then corrected e c o else c) log
  corrected_lem e c log false o s = s
  corrected_lem e c log true none s = s
  corrected_lem e c log true (some choice) s = s

module _ {A : Type 0} (e : Situation A) where
  abbrev ReadyFits : Pack → Ready e → Type 0
  ReadyFits pack (c, log, v, r) = Sound c log × Gives pack log r

  warm_lem :
      (c : GraniteEngineCoordinator A) (log : List (Call A)) (pack : Pack)
      (o : Result DomainError (A × WorkerProvider))
      → warm e ≡ o
      → c.adapter ≡ none
      → Verified e pack log
      → Trusted log
      → ReadyFits pack (warmed e c pack (o, starts e pack ∷ log))
  unfolding record_worker_failure record_worker_provider
  warm_lem c log pack (err reason) q n m t =
      ((subst (λ o. Holds o (starts e pack ∷ log)) (sym n) tt, (m, t)), tt)
  warm_lem c log pack (ok (adapter, worker)) q n m t =
      (((refl, refl, (worker, q)), (m, t)), (refl, refl, (worker, q)))

  start_lem :
      (c : GraniteEngineCoordinator A) (log : List (Call A)) (choice : GranitePackChoice) (b : Bool)
      → e.bytes_match choice.pack ≡ b
      → c.adapter ≡ none
      → Trusted log
      → ReadyFits choice.pack (start_cold e c choice (b, verifies e choice.pack ∷ log))
  start_lem c log choice false m n t =
      ((subst (λ o. Holds o (verifies e choice.pack ∷ log)) (sym n) tt, t), tt)
  start_lem c log choice true m n t =
      warm_lem (record c { reason = _; warm = _ }) (verifies e choice.pack ∷ log) choice.pack
        (warm e) refl n (refl, refl, m) t

  answer_lem :
      (c : GraniteEngineCoordinator A) (log : List (Call A)) (choice : GranitePackChoice)
      (o : Option (ResidentPack A))
      → c.adapter ≡ o
      → Sound c log
      → ReadyFits choice.pack (answer_with e c log choice (resident_answer o choice.pack))
  answer_lem c log choice none n (h, t) =
      start_lem c log choice (e.bytes_match choice.pack) refl n t
  answer_lem c log choice (some r) n (h, t) = elim (Bool-cases (str_eq r.pack_id choice.pack.id)) [
    | inl a ↦ elim (Bool-cases (str_eq r.revision choice.pack.revision)) [
      | inl b ↦
          let p = (eq_iff r.pack_id choice.pack.id).0 a in
          let q = (eq_iff r.revision choice.pack.revision).0 b in
          let l : Loaded r.pack_id r.revision r.adapter log = subst (λ o. Holds o log) n h in
          rw (a, b)
            (
              (h, t),
              subst (λ i. Loaded i choice.pack.revision r.adapter log) p
                  (subst (λ v. Loaded r.pack_id v r.adapter log) q l),
            )
      | inr b ↦ rw (a, b) ((tt, t), tt)
    ]
    | inr a ↦ rw a ((tt, t), tt)
  ]

  pub ensure_ready-Fits :
      (c : GraniteEngineCoordinator A) (log : List (Call A)) (choice : GranitePackChoice)
      → Sound c log
      → ReadyFits choice.pack (ensure_ready e c log choice)
  unfolding ensure_ready
  ensure_ready-Fits c log choice s = answer_lem c log choice c.adapter refl s

  abbrev pub PassFits : Passed e → Type 0
  PassFits (c, log, r) = Sound c log

  settle_lem :
      (c : GraniteEngineCoordinator A) (log : List (Call A))
      (o : Result DomainError FinalTranscript)
      → Sound c log
      → PassFits (settled e c (o, log))
  settle_lem c log (ok transcript) s = s
  settle_lem c log (err reason) s =
      let noted = if is_silence reason.code then c else record_worker_failure c e.elapsed in
      invalidate_lem noted log (granite_worker_is_unusable reason.code)
        (noted_lem c log e.elapsed (is_silence reason.code) s)

  pass_lem : (pack : Pack) (x : Ready e) → ReadyFits pack x → PassFits (pass_with e pack x)
  pass_lem pack (c, log, v, err reason) (s, g) = s
  pass_lem pack (c, log, v, ok a) ((h, t), g) =
      settle_lem c (transcribes e pack a ∷ log) (e.transcribe a)
        (held_lem e c.adapter log pack a h, (g, t))

  abbrev pub WarmFits : Warmed e → Type 0
  WarmFits (c, log, v, r) = Sound c log

  pub warm_with_lem : (pack : Pack) (x : Ready e) → ReadyFits pack x → WarmFits (warm_with e x)
  warm_with_lem pack (c, log, v, err reason) (s, g) = s
  warm_with_lem pack (c, log, v, ok a) (s, g) =
      corrected_lem e c log (cuda_worker_available c) (admitted_granite_pack e true) s

  pub pass-Sound :
      (c : GraniteEngineCoordinator A) (log : List (Call A))
      → Sound c log
      → PassFits (run_granite_final_pass e c log)
  unfolding run_granite_final_pass
  pass-Sound c log s = elim e.granite_worker_exe as (λ o. PassFits (pass_on e o c log)) [
    | none ↦ s
    | some exe ↦
        elim (granite_memory_is_sufficient e.total_memory_bytes)
          as (λ b. PassFits (
            if not b
            then (record c { reason = "memory_below_granite_floor" }, log, ok none)
            else if quarantined c
            then (c, log, err (domain_error engine_quarantined))
            else pass_for e c log (admitted_granite_pack e (cuda_worker_available c)))) [
              | false ↦ s
              | true ↦
                  elim (quarantined c)
                    as (λ b. PassFits (
                      if b
                      then (c, log, err (domain_error engine_quarantined))
                      else pass_for e c log (admitted_granite_pack e (cuda_worker_available c)))) [
                        | true ↦ s
                        | false ↦
                            elim (admitted_granite_pack e (cuda_worker_available c))
                              as (λ o. PassFits (pass_for e c log o)) [
                                | none ↦ s
                                | some choice ↦
                                    pass_lem choice.pack (ensure_ready e c log choice)
                                      (ensure_ready-Fits c log choice s)
                              ]
                      ]
            ]
  ]
