-- ===== src/Tests/Models.antt =====
-- The tables of states and the resuming of downloads at concrete inputs: crates/speakeasy-models.
use Prim.Native.String.{String}
use text.Mathlib.Text.{◌==◌ as str_eq}
use speakeasy_granite_rust_m.Base.{◌≡◌, refl, Bool, true, false, some, List, [], ◌∷◌, err}
use speakeasy_granite_rust_m.Models.Lifecycle.{
  InstallState, absent, downloading, verifying, installing, failed, on_disk, runtime_smoke_testing,
  ready, runtime_transition, RuntimeEvidence, IsRuntimeHistory,
}
use speakeasy_granite_rust_m.Models.Resume.{
  DownloadPolicy, too_many_retries, validate_policy, ResumeMetadata, ResumeResponse, append,
  validate_resume_response,
}

abbrev states : List InstallState
states =
    installing
    ∷ verifying
    ∷ downloading 9 9
    ∷ failed (record { reason = "lost"; recoverable = true })
    ∷ downloading 3 9
    ∷ absent
    ∷ []

abbrev evidence : RuntimeEvidence
evidence = record {
  artifact_id = "granite";
  runtime_abi = "1";
  provider = "cpu";
  inference_sample_count = 16000;
}

tested_good : IsRuntimeHistory (ready evidence ∷ runtime_smoke_testing ∷ on_disk ∷ [])
unfolding runtime_transition
tested_good = (refl, (refl, refl))

abbrev policy : DownloadPolicy
policy = record {
  redirect_hosts = [];
  connect_deadline_ms = 10;
  read_deadline_ms = 20;
  overall_deadline_ms = 20;
  maximum_retries = 6;
  proxy_aware = false;
}

policy_refused : validate_policy policy ≡ err too_many_retries
unfolding validate_policy
policy_refused = refl

abbrev partial : ResumeMetadata
partial = record { trusted_total_bytes = 100; received_bytes = 40; etag = "immutable" }

abbrev rest_of_it : ResumeResponse
rest_of_it = record {
  status = 206;
  content_range_start = some 40;
  complete_length = some 100;
  response_etag = some "immutable";
}

abbrev is_blank_string : String → Bool
is_blank_string s = str_eq s ""

resumed : validate_resume_response is_blank_string partial rest_of_it ≡ append
unfolding validate_resume_response
resumed = refl
