-- ===== src/Models/Resume.antt =====
-- crates/speakeasy-models/src/resume.rs: the bounds of a download, and when it is resumed.
use Prim.Native.String.{String}
use text.Mathlib.Text.{◌==◌ as str_eq}
use speakeasy_granite_rust_m.Base.{
  ℕ, Bool, false, not, ◌&&◌, ◌||◌, Option, none, some, List, ltb, ◌==◌, if◌then◌else◌, Result, ok,
  err,
}

pub record DownloadPolicy : Type 0 where
  pub redirect_hosts : List String
  pub connect_deadline_ms : ℕ
  pub read_deadline_ms : ℕ
  pub overall_deadline_ms : ℕ
  pub maximum_retries : ℕ
  pub proxy_aware : Bool

-- Its two errors.
pub data PolicyError : Type 0 where
  unbounded_deadlines too_many_retries : PolicyError

-- `DownloadPolicy::validate`.
unfoldable pub validate_policy : DownloadPolicy → Result PolicyError (Unit {0})
validate_policy p =
    if p.connect_deadline_ms == 0
      || p.read_deadline_ms == 0
      || p.overall_deadline_ms == 0
      || ltb p.overall_deadline_ms p.connect_deadline_ms
      || ltb p.overall_deadline_ms p.read_deadline_ms
    then err unbounded_deadlines
    else if ltb 5 p.maximum_retries
    then err too_many_retries
    else ok tt

pub record ResumeMetadata : Type 0 where
  pub trusted_total_bytes : ℕ
  pub received_bytes : ℕ
  pub etag : String

pub record ResumeResponse : Type 0 where
  pub status : ℕ
  pub content_range_start : Option ℕ
  pub complete_length : Option ℕ
  pub response_etag : Option String

pub data ResumeDecision : Type 0 where
  append restart : ResumeDecision

abbrev is_number : Option ℕ → ℕ → Bool
is_number none n = false
is_number (some m) n = m == n

abbrev is_string : Option String → String → Bool
is_string none s = false
is_string (some t) s = str_eq t s

-- `blank` is `trim().is_empty()` on the standard library's strings.
unfoldable pub validate_resume_response :
    (String → Bool) → ResumeMetadata → ResumeResponse → ResumeDecision
validate_resume_response blank metadata response =
    if metadata.received_bytes == 0
    then restart
    else if response.status == 206
        && is_number response.content_range_start metadata.received_bytes
        && is_number response.complete_length metadata.trusted_total_bytes
        && is_string response.response_etag metadata.etag
        && not (blank metadata.etag)
        && ltb metadata.received_bytes metadata.trusted_total_bytes
    then append
    else restart
