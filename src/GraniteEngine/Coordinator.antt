-- ===== src/GraniteEngine/Coordinator.antt =====
-- The coordinator: the resident worker, the crashes, and `ensure_ready`. Its locks are not poisoned.
-- What the outside answers during a call is a `Situation`, and the calls that matter go into a log, the
-- newest first.
use Prim.Native.String.{String}
use text.Mathlib.Text.{◌==◌ as str_eq}
use speakeasy_granite_rust_m.Base.{
  ℕ, Bool, false, ◌&&◌, Option, none, some, List, [], if◌then◌else◌, Result,
}
use speakeasy_granite_rust_m.Protocol.{WorkerEvent}
use speakeasy_granite_rust_m.FinalPass.{ErrorCode, DomainError, FinalTranscript}
use speakeasy_granite_rust_m.GraniteEngine.Throttle.{
  CrashThrottle, record_crash, is_quarantined, reset,
}
use speakeasy_granite_rust_m.GraniteEngine.Provider.{
  CudaContextProof, WorkerProvider, Device, granite_not_configured, device, ProviderIntegrity,
  unrecorded, assess_provider_integrity,
}
use speakeasy_granite_rust_m.GraniteEngine.Choice.{
  Pack, ExecutionProvider, EngineChoiceReason, probe_preferred, cpu_gpu_pack_not_installed,
  cpu_gpu_runtime_missing,
}

pub record Situation (A : Type 0) : Type 0 where
  pub granite_worker_exe : Option String
  pub total_memory_bytes : Option ℕ
  pub recorded_provider : String
  pub bundled_manifest : Option (List Pack)
  -- Whether a file of a pack is there, below the root of the installation.
  pub is_file : Pack → String → Bool
  pub preferred_provider : ExecutionProvider
  pub bytes_match : Pack → Bool
  -- The new worker process, and what it answers to `Hello` and `LoadModel`.
  pub spawn : Result DomainError A
  pub hello : Result DomainError (List WorkerEvent)
  pub load_model : Result DomainError (List WorkerEvent)
  pub prove_cuda_context : CudaContextProof
  pub transcribe : A → Result DomainError FinalTranscript
  -- The nanoseconds since the coordinator was made, at a failure.
  pub elapsed : ℕ

pub data WarmVerification : Type 0 where
  not_attempted : WarmVerification
  verified already_loaded failed : (pack_id revision : String) → WarmVerification
  resident_mismatch :
      (resident_pack_id resident_revision requested_pack_id requested_revision : String)
      → WarmVerification

pub record ResidentPack (A : Type 0) : Type 0 where
  pub adapter : A
  pub pack_id : String
  pub revision : String

pub record GraniteEngineCoordinator (A : Type 0) : Type 0 where
  pub crashes : CrashThrottle
  pub adapter : Option (ResidentPack A)
  pub reason : String
  pub device : Device
  pub cuda_worker : Option Bool
  pub integrity : ProviderIntegrity
  pub warm : String

-- The digests of a pack are compared, a worker is started for one, and it transcribes for one. Each
-- call has the situation that answers it.
pub data Call (A : Type 0) : Type 0 where
  verifies starts : Situation A → Pack → Call A
  transcribes : Situation A → Pack → A → Call A

abbrev pub default_coordinator : {A : Type 0} → GraniteEngineCoordinator A
default_coordinator = record {
  crashes = record { maximum_crashes = 3; window = 60000000000; crashes = [] };
  adapter = none;
  reason = "not_configured";
  device = granite_not_configured;
  cuda_worker = none;
  integrity = unrecorded;
  warm = "cold";
}

-- `EngineChoiceReason::code`.
abbrev pub reason_code : EngineChoiceReason → String
reason_code probe_preferred = "probe_preferred"
reason_code cpu_gpu_pack_not_installed = "cpu_gpu_pack_not_installed"
reason_code cpu_gpu_runtime_missing = "cpu_gpu_runtime_missing"

-- apps/desktop/src-tauri/src/commands/dictation.rs.
abbrev pub domain_error_code : ErrorCode → String
domain_error_code ErrorCode.cancelled = "runtime_cancelled"
domain_error_code ErrorCode.deadline_exceeded = "runtime_deadline_exceeded"
domain_error_code ErrorCode.stale_event = "runtime_stale_response"
domain_error_code ErrorCode.invalid_data = "runtime_invalid_data"
domain_error_code ErrorCode.invalid_transition = "runtime_invalid_transition"
domain_error_code ErrorCode.queue_full = "runtime_queue_full"
domain_error_code ErrorCode.unauthorized = "runtime_unauthorized"
domain_error_code ErrorCode.too_new = "runtime_too_new"
domain_error_code ErrorCode.app_not_ready = "runtime_not_ready"
domain_error_code ErrorCode.session_already_active = "runtime_busy"
domain_error_code ErrorCode.adapter_failed = "runtime_adapter_failed"
domain_error_code ErrorCode.no_speech_detected = "runtime_no_speech_detected"
domain_error_code ErrorCode.engine_quarantined = "runtime_engine_quarantined"

module _ {A : Type 0} where
  abbrev pub quarantined : GraniteEngineCoordinator A → Bool
  quarantined c = is_quarantined c.crashes

  abbrev pub cuda_worker_available : GraniteEngineCoordinator A → Bool
  cuda_worker_available c = elim c.cuda_worker [ none ↦ false | some b ↦ b ]

  unfoldable pub record_worker_failure : GraniteEngineCoordinator A → ℕ → GraniteEngineCoordinator A
  unfolding record_crash
  record_worker_failure c elapsed = record c { crashes = (record_crash c.crashes elapsed).0 }

  abbrev pub clear_quarantine : GraniteEngineCoordinator A → GraniteEngineCoordinator A
  clear_quarantine c = record c { crashes = reset c.crashes }

  -- `shutdown` and `invalidate`.
  abbrev pub shutdown : GraniteEngineCoordinator A → GraniteEngineCoordinator A
  shutdown c = record c { adapter = none; warm = "cold" }

  abbrev pub invalidate : GraniteEngineCoordinator A → GraniteEngineCoordinator A
  invalidate c = shutdown c

  unfoldable pub record_worker_provider :
      GraniteEngineCoordinator A → WorkerProvider → String → GraniteEngineCoordinator A
  unfolding assess_provider_integrity
  record_worker_provider c worker recorded = record c {
    device = device worker;
    cuda_worker = elim worker.compiled_cuda [ none ↦ c.cuda_worker | some b ↦ some b ];
    integrity = assess_provider_integrity recorded worker;
  }

pub data ResidentAnswer (A : Type 0) : Type 0 where
  cold : ResidentAnswer A
  reuse : A → WarmVerification → ResidentAnswer A
  refuse : WarmVerification → ResidentAnswer A

abbrev pub resident_answer : {A : Type 0} → Option (ResidentPack A) → Pack → ResidentAnswer A
resident_answer none requested = cold
resident_answer (some held) requested =
    if str_eq held.pack_id requested.id && str_eq held.revision requested.revision
    then reuse held.adapter (already_loaded held.pack_id held.revision)
    else refuse (resident_mismatch held.pack_id held.revision requested.id requested.revision)
