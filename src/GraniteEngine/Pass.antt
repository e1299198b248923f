-- ===== src/GraniteEngine/Pass.antt =====
-- `warm`, `ensure_ready`, `warm_granite_if_configured` and `run_granite_final_pass`.
use Prim.Native.String.{String}
use text.Mathlib.Text.{◌==◌ as str_eq}
use speakeasy_granite_rust_m.Base.{
  ℕ, Bool, true, false, not, ◌&&◌, ◌||◌, Option, none, some, List, [], ◌∷◌, if◌then◌else◌, leb,
  Result, ok, err,
}
use speakeasy_granite_rust_m.Protocol.{WorkerEvent, ready}
use speakeasy_granite_rust_m.FinalPass.{
  ErrorCode, adapter_failed, deadline_exceeded, no_speech_detected, engine_quarantined, DomainError,
  domain_error, FinalTranscript,
}
use speakeasy_granite_rust_m.GraniteEngine.Provider.{WorkerProvider}
use speakeasy_granite_rust_m.GraniteEngine.Choice.{
  Pack, ExecutionProvider, EngineChoiceReason, GranitePackChoice, capabilities_for,
  choose_granite_pack, EngineCapabilities,
}
use speakeasy_granite_rust_m.GraniteEngine.Coordinator.{
  Situation, WarmVerification, verified, failed, GraniteEngineCoordinator, Call, verifies, starts,
  transcribes, reason_code, domain_error_code, quarantined, cuda_worker_available,
  record_worker_failure, invalidate, record_worker_provider, ResidentAnswer, cold, reuse, refuse,
  resident_answer,
}

-- Whether a worker says that it was built for the card.
abbrev names_cuda : List String → Bool
names_cuda [] = false
names_cuda (name ∷ names) = str_eq name "cuda" || names_cuda names

abbrev find_ready : List WorkerEvent → Option Bool
find_ready [] = none
find_ready (ready version accelerators ∷ events) = some (names_cuda accelerators)
find_ready (_ ∷ events) = find_ready events

abbrev compiled_for_cuda : Result DomainError (List WorkerEvent) → Option Bool
compiled_for_cuda (err e) = none
compiled_for_cuda (ok events) = find_ready events

abbrev pub granite_memory_is_sufficient : Option ℕ → Bool
granite_memory_is_sufficient none = false
granite_memory_is_sufficient (some bytes) = leb 8589934592 bytes

abbrev pub granite_worker_is_unusable : ErrorCode → Bool
granite_worker_is_unusable adapter_failed = true
granite_worker_is_unusable deadline_exceeded = true
granite_worker_is_unusable _ = false

abbrev pub is_silence : ErrorCode → Bool
is_silence no_speech_detected = true
is_silence _ = false

abbrev all_present : (String → Bool) → List String → Bool
all_present is_file [] = true
all_present is_file (file ∷ files) = is_file file && all_present is_file files

module _ {A : Type 0} (e : Situation A) where
  abbrev loaded_client :
      A → Result DomainError (List WorkerEvent) → Result DomainError (A × WorkerProvider)
  loaded_client client (err reason) = err reason
  loaded_client client (ok events) =
      let compiled = compiled_for_cuda e.hello in
      ok (
        client,
        record {
          compiled_cuda = compiled;
          context = elim compiled [ some true ↦ some e.prove_cuda_context | _ ↦ none ];
        },
      )

  abbrev spawned : Result DomainError A → Result DomainError (A × WorkerProvider)
  spawned (err reason) = err reason
  spawned (ok client) = loaded_client client e.load_model

  -- `warm`: a worker is spawned, greeted, and told to load the model.
  unfoldable pub warm : Result DomainError (A × WorkerProvider)
  warm = spawned e.spawn

  abbrev pub with_capabilities :
      EngineChoiceReason → Pack → Option EngineCapabilities → Option GranitePackChoice
  with_capabilities reason pack none = none
  with_capabilities reason pack (some capabilities) =
      some (record { pack = pack; capabilities = capabilities; reason = reason })

  abbrev to_choice :
      Option (Pack × ExecutionProvider × EngineChoiceReason) → Option GranitePackChoice
  to_choice none = none
  to_choice (some (pack, provider, reason)) =
      with_capabilities reason pack (capabilities_for provider)

  -- `admitted_granite_pack`, with the manifest.
  abbrev admitted_in : Option (List Pack) → Bool → Option GranitePackChoice
  admitted_in none cuda_worker = none
  admitted_in (some packs) cuda_worker = to_choice (
      choose_granite_pack packs (λ p. all_present (e.is_file p) p.required_files)
        e.preferred_provider cuda_worker)

  unfoldable pub admitted_granite_pack : Bool → Option GranitePackChoice
  unfolding choose_granite_pack
  admitted_granite_pack cuda_worker = admitted_in e.bundled_manifest cuda_worker

  -- What is left after `ensure_ready`: the coordinator, the log, and the worker.
  abbrev pub Ready : Type 0
  Ready = GraniteEngineCoordinator A × List (Call A) × WarmVerification × Result DomainError A

  -- The calls, with their answers and the log after them. The log is written nowhere else.
  abbrev pub ask_bytes_match : Pack → List (Call A) → Bool × List (Call A)
  ask_bytes_match pack log = (e.bytes_match pack, verifies e pack ∷ log)

  abbrev pub ask_warm :
      Pack → List (Call A) → Result DomainError (A × WorkerProvider) × List (Call A)
  ask_warm pack log = (warm, starts e pack ∷ log)

  abbrev pub ask_transcribe :
      Pack → A → List (Call A) → Result DomainError FinalTranscript × List (Call A)
  ask_transcribe pack adapter log = (e.transcribe adapter, transcribes e pack adapter ∷ log)

  abbrev pub warmed :
      GraniteEngineCoordinator A
      → Pack
      → Result DomainError (A × WorkerProvider) × List (Call A)
      → Ready
  warmed c pack (err reason, log) = (
    record (record_worker_failure c e.elapsed) { warm = domain_error_code reason.code },
    log,
    verified pack.id pack.revision,
    err reason,
  )
  warmed c pack (ok (adapter, worker), log) = (
    record (record_worker_provider c worker e.recorded_provider) {
      adapter = some (record { adapter = adapter; pack_id = pack.id; revision = pack.revision });
      warm = "ready";
    },
    log,
    verified pack.id pack.revision,
    ok adapter,
  )

  abbrev pub start_cold :
      GraniteEngineCoordinator A → GranitePackChoice → Bool × List (Call A) → Ready
  start_cold c choice (false, log) = (
    record c { reason = reason_code choice.reason; warm = "granite_model_files_unverified" },
    log,
    failed choice.pack.id choice.pack.revision,
    err (domain_error adapter_failed),
  )
  start_cold c choice (true, log) =
      warmed (record c { reason = reason_code choice.reason; warm = "warming" }) choice.pack
        (ask_warm choice.pack log)

  abbrev pub answer_with :
      GraniteEngineCoordinator A → List (Call A) → GranitePackChoice → ResidentAnswer A → Ready
  answer_with c log choice cold = start_cold c choice (ask_bytes_match choice.pack log)
  answer_with c log choice (reuse adapter verification) = (c, log, verification, ok adapter)
  answer_with c log choice (refuse verification) = (
    record c { adapter = none; warm = "granite_resident_pack_mismatch" },
    log,
    verification,
    err (domain_error adapter_failed),
  )

  unfoldable pub ensure_ready :
      GraniteEngineCoordinator A → List (Call A) → GranitePackChoice → Ready
  unfolding warm record_worker_failure record_worker_provider
  ensure_ready c log choice = answer_with c log choice (resident_answer c.adapter choice.pack)

  -- `run_granite_final_pass`, from its end.
  abbrev pub Passed : Type 0
  Passed = GraniteEngineCoordinator A × List (Call A) × Result DomainError (Option FinalTranscript)

  abbrev pub settled :
      GraniteEngineCoordinator A → Result DomainError FinalTranscript × List (Call A) → Passed
  settled c (ok transcript, log) = (c, log, ok (some transcript))
  settled c (err reason, log) =
      let noted = if is_silence reason.code then c else record_worker_failure c e.elapsed in
      (if granite_worker_is_unusable reason.code then invalidate noted else noted, log, err reason)

  abbrev pub pass_with : Pack → Ready → Passed
  pass_with pack (c, log, verification, err reason) = (c, log, err reason)
  pass_with pack (c, log, verification, ok adapter) = settled c (ask_transcribe pack adapter log)

  abbrev pub pass_for :
      GraniteEngineCoordinator A → List (Call A) → Option GranitePackChoice → Passed
  pass_for c log none = (c, log, ok none)
  pass_for c log (some choice) = pass_with choice.pack (ensure_ready c log choice)

  abbrev pub pass_on : Option String → GraniteEngineCoordinator A → List (Call A) → Passed
  pass_on none c log = (c, log, ok none)
  pass_on (some exe) c log =
      if not (granite_memory_is_sufficient e.total_memory_bytes)
      then (record c { reason = "memory_below_granite_floor" }, log, ok none)
      else if quarantined c
      then (c, log, err (domain_error engine_quarantined))
      else pass_for c log (admitted_granite_pack (cuda_worker_available c))

  unfoldable pub run_granite_final_pass : GraniteEngineCoordinator A → List (Call A) → Passed
  unfolding ensure_ready admitted_granite_pack
  run_granite_final_pass c log = pass_on e.granite_worker_exe c log
