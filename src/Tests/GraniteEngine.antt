-- ===== src/Tests/GraniteEngine.antt =====
-- The coordinator of the engine at concrete inputs: apps/desktop/src-tauri/src/granite_engine.rs.
use Prim.Native.String.{String}
use speakeasy_granite_rust_m.Base.{
  ℕ, ◌≡◌, ◌↔◌, refl, true, false, some, List, [], ◌∷◌, arith, ok, err, leb, length,
}
use speakeasy_granite_rust_m.Protocol.{ready}
use speakeasy_granite_rust_m.FinalPass.{domain_error, deadline_exceeded, no_speech_detected}
use speakeasy_granite_rust_m.GraniteEngine.Throttle.{
  CrashThrottle, new, record_crash, drop_expired, record_all, recent, last_time, is_quarantined,
  record_all-Quarantined,
}
use speakeasy_granite_rust_m.GraniteEngine.Provider.{
  WorkerProvider, not_holding, holding, device, cpu as runs_on_cpu, is_fault,
  assess_provider_integrity, Tells, assess_provider_integrity-Tells,
}
use speakeasy_granite_rust_m.GraniteEngine.Choice.{
  Pack, final_asr, cpu, cuda, select_sole_install_eligible, choose_granite_pack, Chooses,
  choose_granite_pack-Chooses,
}
use speakeasy_granite_rust_m.GraniteEngine.Coordinator.{
  Situation, GraniteEngineCoordinator, verifies, starts, transcribes, default_coordinator,
  record_worker_failure, record_worker_provider,
}
use speakeasy_granite_rust_m.GraniteEngine.Pass.{
  warm, admitted_granite_pack, ensure_ready, run_granite_final_pass,
}
use speakeasy_granite_rust_m.GraniteEngine.Warming.{
  warm_granite_if_configured, Operation, passes, warms, invalidates, operate, operate_all,
}
use speakeasy_granite_rust_m.GraniteEngine.Trusted.{Trusted}
use speakeasy_granite_rust_m.GraniteEngine.Sound.{operate_all-Trusted, operate_all-Quarantined}

-- Of four crashes the last three are within the window.
record_all-Quarantined_example :
    let t : CrashThrottle = record { maximum_crashes = 3; window = 60; crashes = [] } in
    let times : List ℕ = 5 ∷ 70 ∷ 90 ∷ 100 ∷ [] in
    ((record_all t times).crashes ≡ recent 60 (last_time 0 times) times)
    × (is_quarantined (record_all t times) ≡ leb 3 (length (recent 60 (last_time 0 times) times)))
unfolding new
record_all-Quarantined_example =
    record_all-Quarantined 3 60 (record { maximum_crashes = 3; window = 60; crashes = [] })
      (5 ∷ 70 ∷ 90 ∷ 100 ∷ []) refl (omega arith, (omega arith, (omega arith, (omega arith, tt))))

three_are_recent : recent 60 100 (5 ∷ 70 ∷ 90 ∷ 100 ∷ []) ≡ 70 ∷ 90 ∷ 100 ∷ []
unfolding recent
three_are_recent = refl

abbrev recorded_card : String
recorded_card = "cuda"

abbrev processor : WorkerProvider
processor = record { compiled_cuda = some true; context = some not_holding }

assess_provider_integrity-Tells_example :
    Tells recorded_card processor (assess_provider_integrity recorded_card processor)
    × ((is_fault (assess_provider_integrity "cuda" processor) ≡ true)
        ↔ ((recorded_card ≡ "cuda") × (device processor ≡ runs_on_cpu)))
assess_provider_integrity-Tells_example = assess_provider_integrity-Tells recorded_card processor

abbrev small_pack : Pack
small_pack = record {
  id = "granite";
  revision = "1";
  role = final_asr;
  provider = cpu;
  install_eligible = true;
  required_files = "model.gguf" ∷ [];
}

abbrev packs : List Pack
packs = small_pack ∷ record small_pack { id = "other"; install_eligible = false } ∷ []

choose_granite_pack-Chooses_example :
    Chooses packs (λ p. true) cuda false (choose_granite_pack packs (λ p. true) cuda false)
choose_granite_pack-Chooses_example = choose_granite_pack-Chooses packs (λ p. true) cuda false

-- All is installed, and the worker is number 7.
abbrev installed_app : Situation ℕ
installed_app = record {
  granite_worker_exe = some "granite-worker.exe";
  total_memory_bytes = some 17179869184;
  recorded_provider = "cpu";
  bundled_manifest = some packs;
  is_file = λ p file. true;
  preferred_provider = cuda;
  bytes_match = λ p. true;
  spawn = ok 7;
  hello = ok (ready "1" [] ∷ []);
  load_model = ok [];
  prove_cuda_context = holding;
  transcribe = λ a. err (domain_error deadline_exceeded);
  elapsed = 100;
}

abbrev quiet : Situation ℕ
quiet = record installed_app { transcribe = λ a. err (domain_error no_speech_detected) }

abbrev script : List (Operation ℕ)
script = warms quiet ∷ passes quiet ∷ passes installed_app ∷ passes installed_app ∷ invalidates ∷ []

operate_all-Trusted_example : Trusted (operate_all default_coordinator [] script).1
operate_all-Trusted_example = operate_all-Trusted script

-- The worker is used twice, and after it was out of time a new one is started.
script_calls :
    (operate_all default_coordinator [] script).1
    ≡ transcribes installed_app small_pack 7
      ∷ starts installed_app small_pack
      ∷ verifies installed_app small_pack
      ∷ transcribes installed_app small_pack 7
      ∷ transcribes quiet small_pack 7
      ∷ starts quiet small_pack
      ∷ verifies quiet small_pack
      ∷ []
unfolding operate_all operate run_granite_final_pass warm_granite_if_configured ensure_ready
    admitted_granite_pack choose_granite_pack select_sole_install_eligible warm
    record_worker_failure record_crash drop_expired record_worker_provider assess_provider_integrity
script_calls = refl

abbrev stopped : GraniteEngineCoordinator ℕ
stopped = record default_coordinator {
  crashes = record { maximum_crashes = 3; window = 60; crashes = 5 ∷ 6 ∷ 7 ∷ [] };
}

operate_all-Quarantined_example :
    ((operate_all stopped [] script).1 ≡ [])
    × ((operate_all stopped [] script).0.crashes ≡ stopped.crashes)
operate_all-Quarantined_example =
    operate_all-Quarantined stopped [] script refl (tt, (tt, (tt, (tt, (tt, tt)))))
