-- ===== src/Reliability/Degradation.antt =====
-- crates/speakeasy-domain/src/reliability.rs: what the app does about each kind of failure.
use Prim.Native.String.{String}
use speakeasy_granite_rust_m.Base.{◌≡◌, Bool, true, false, Option, none, some, arith}
use speakeasy_granite_rust_m.Session.Phase.{
  EngineState, unavailable, loading, ready, engine_failed, DeliveryCapability, result_view_only,
}

pub data DegradationReason : Type 0 where
  microphone_denied microphone_missing microphone_disconnected audio_overflow : DegradationReason
  streaming_unavailable final_engine_timeout final_engine_crashed : DegradationReason
  worker_out_of_memory worker_quarantined provider_lost model_missing : DegradationReason
  model_corrupt model_tampered model_update_interrupted target_changed : DegradationReason
  user_input_changed sensitive_target elevated_target clipboard_busy : DegradationReason
  clipboard_changed remote_unavailable optional_storage_unavailable : DegradationReason
  sleep_interrupted shutdown_interrupted settings_too_new database_too_new : DegradationReason
  protocol_too_new disk_full operation_conflict : DegradationReason

pub data DegradationAction : Type 0 where
  retry_microphone choose_microphone finish_manually continue_final_only : DegradationAction
  use_recoverable_draft retry_on_cpu verify_or_reinstall_model open_result_view : DegradationAction
  copy_explicitly continue_local_raw continue_without_history resume_and_retry : DegradationAction
  restart_after_dictation manual_worker_recovery free_disk_space : DegradationAction
  update_optional_surface wait_for_dictation : DegradationAction

pub record DegradationDecision : Type 0 where
  pub reason : DegradationReason
  pub reason_code : String
  pub action : DegradationAction
  pub action_code : String
  pub engine : Option EngineState
  pub delivery : Option DeliveryCapability
  pub preserve_audio : Bool
  pub preserve_transcript : Bool
  pub automatic_retry : Bool

-- `matches!(reason, Reason::ProviderLost)`.
abbrev is_provider_lost : DegradationReason → Bool
is_provider_lost provider_lost = true
is_provider_lost _ = false

-- The fields in their order, behind the reason.
abbrev decide :
    DegradationReason
    → String
    → DegradationAction
    → String
    → Option EngineState
    → Option DeliveryCapability
    → Bool
    → Bool
    → DegradationDecision
decide reason code action action_code engine delivery audio transcript = record {
  reason = reason;
  reason_code = code;
  action = action;
  action_code = action_code;
  engine = engine;
  delivery = delivery;
  preserve_audio = audio;
  preserve_transcript = transcript;
  automatic_retry = is_provider_lost reason;
}

-- An arm of the `match` with several reasons is a clause for each.
settle : DegradationReason → DegradationDecision
settle microphone_denied =
    decide microphone_denied "degradation.microphone_denied" retry_microphone
      "action.review_microphone_permission" none none true true
settle microphone_missing =
    decide microphone_missing "degradation.microphone_unavailable" choose_microphone
      "action.choose_microphone" none none true true
settle microphone_disconnected =
    decide microphone_disconnected "degradation.microphone_unavailable" choose_microphone
      "action.choose_microphone" none none true true
settle audio_overflow =
    decide audio_overflow "degradation.audio_overflow" finish_manually "action.finish_and_review"
      none none true true
settle streaming_unavailable =
    decide streaming_unavailable "degradation.streaming_unavailable" continue_final_only
      "action.continue_final_only" (some ready) none true true
settle final_engine_timeout =
    decide final_engine_timeout "degradation.final_engine_failed" use_recoverable_draft
      "action.review_recoverable_result" (some engine_failed) (some result_view_only) true true
settle final_engine_crashed =
    decide final_engine_crashed "degradation.final_engine_failed" use_recoverable_draft
      "action.review_recoverable_result" (some engine_failed) (some result_view_only) true true
settle worker_out_of_memory =
    decide worker_out_of_memory "degradation.final_engine_failed" use_recoverable_draft
      "action.review_recoverable_result" (some engine_failed) (some result_view_only) true true
settle worker_quarantined =
    decide worker_quarantined "degradation.worker_quarantined" manual_worker_recovery
      "action.recover_worker" (some engine_failed) (some result_view_only) true true
settle provider_lost =
    decide provider_lost "degradation.accelerator_lost" retry_on_cpu "action.retry_on_cpu"
      (some loading) none true true
settle model_missing =
    decide model_missing "degradation.model_unavailable" verify_or_reinstall_model
      "action.verify_model" (some unavailable) (some result_view_only) true true
settle model_corrupt =
    decide model_corrupt "degradation.model_unavailable" verify_or_reinstall_model
      "action.verify_model" (some unavailable) (some result_view_only) true true
settle model_tampered =
    decide model_tampered "degradation.model_unavailable" verify_or_reinstall_model
      "action.verify_model" (some unavailable) (some result_view_only) true true
settle model_update_interrupted =
    decide model_update_interrupted "degradation.model_unavailable" verify_or_reinstall_model
      "action.verify_model" (some unavailable) (some result_view_only) true true
settle target_changed =
    decide target_changed "degradation.target_changed" open_result_view "action.open_result_view"
      none (some result_view_only) true true
settle user_input_changed =
    decide user_input_changed "degradation.target_changed" open_result_view
      "action.open_result_view" none (some result_view_only) true true
settle sensitive_target =
    decide sensitive_target "degradation.target_refused" open_result_view
      "action.open_private_result" none (some result_view_only) true true
settle elevated_target =
    decide elevated_target "degradation.target_refused" open_result_view
      "action.open_private_result" none (some result_view_only) true true
settle clipboard_busy =
    decide clipboard_busy "degradation.clipboard_unavailable" copy_explicitly "action.retry_copy"
      none (some result_view_only) true true
settle clipboard_changed =
    decide clipboard_changed "degradation.clipboard_unavailable" copy_explicitly "action.retry_copy"
      none (some result_view_only) true true
settle remote_unavailable =
    decide remote_unavailable "degradation.optional_network_unavailable" continue_local_raw
      "action.use_local_result" none none true true
settle optional_storage_unavailable =
    decide optional_storage_unavailable "degradation.optional_storage_unavailable"
      continue_without_history "action.continue_without_history" none none true true
settle database_too_new =
    decide database_too_new "degradation.optional_storage_unavailable" continue_without_history
      "action.continue_without_history" none none true true
settle settings_too_new =
    decide settings_too_new "degradation.optional_storage_unavailable" continue_without_history
      "action.continue_without_history" none none true true
settle sleep_interrupted =
    decide sleep_interrupted "degradation.lifecycle_interrupted" resume_and_retry
      "action.retry_after_resume" none (some result_view_only) true true
settle shutdown_interrupted =
    decide shutdown_interrupted "degradation.shutdown_in_progress" restart_after_dictation
      "action.restart_later" none (some result_view_only) true true
settle protocol_too_new =
    decide protocol_too_new "degradation.protocol_too_new" update_optional_surface
      "action.update_optional_component" none none true true
settle disk_full =
    decide disk_full "degradation.disk_full" free_disk_space "action.free_disk_space" none none true
      true
settle operation_conflict =
    decide operation_conflict "degradation.dictation_busy" wait_for_dictation
      "action.retry_after_dictation" none none true true

unfoldable pub degradation_decision : DegradationReason → DegradationDecision
unfolding settle
degradation_decision reason = settle reason

-- The engine cannot take the next dictation.
abbrev pub is_lost : Option EngineState → Bool
is_lost (some unavailable) = true
is_lost (some engine_failed) = true
is_lost _ = false

-- Whatever fails, the recording and the transcript are kept; an engine that is lost leaves only the
-- result view for delivery; and the one failure retried without asking is a lost accelerator, which
-- is exactly the one answered by a retry on the processor, with the engine loading again.
pub degradation_safe :
    (reason : DegradationReason)
    → let d = degradation_decision reason in
      (d.reason ≡ reason)
      × (d.preserve_audio ≡ true)
      × (d.preserve_transcript ≡ true)
      × (is_lost d.engine ≡ true → d.delivery ≡ some result_view_only)
      × (d.automatic_retry ≡ true → (d.action ≡ retry_on_cpu) × (d.engine ≡ some loading))
      × (d.action ≡ retry_on_cpu → d.automatic_retry ≡ true)
unfolding degradation_decision
degradation_safe microphone_denied = ground arith
degradation_safe _ = ground arith
