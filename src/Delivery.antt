-- ===== src/Delivery.antt =====
-- crates/speakeasy-delivery/src/lib.rs: where a transcript may go, decided before anything is
-- written. The data of targets is that of crates/speakeasy-domain/src/ports.rs; of a field that the
-- code only tests for presence the content is a number.
use Prim.Native.String.{String}
use speakeasy_granite_rust_m.Base.{
  ℕ, ◌≡◌, Bool, true, false, not, ◌&&◌, ◌||◌, Option, none, some, leb, ◌==◌, if◌then◌else◌, Result,
  ok, err, ◌>>=◌,
}
use speakeasy_granite_rust_m.Session.Phase.{
  DeliveryCapability, verified_range_replace, append_only_live, commit_on_finish, clipboard_only,
  result_view_only,
}
pub mod Guard
pub mod Commit
pub mod Modifiers

pub record DeliverySettings : Type 0 where
  pub auto_copy : Bool
  pub auto_paste : Bool
  pub restore_clipboard : Bool
  pub feedback_enabled : Bool

pub record ClipboardPolicy : Type 0 where
  pub maximum_snapshot_bytes : ℕ
  pub maximum_snapshot_formats : ℕ
  pub maximum_open_attempts : ℕ

pub record ClipboardSnapshotMetadata : Type 0 where
  pub bytes : ℕ
  pub formats : ℕ
  pub complete : Bool

unfoldable pub accepts_snapshot : ClipboardPolicy → ClipboardSnapshotMetadata → Bool
accepts_snapshot p s =
    s.complete && leb s.bytes p.maximum_snapshot_bytes && leb s.formats p.maximum_snapshot_formats

pub data IntegrityRelationship : Type 0 where
  target_lower equal target_higher unknown : IntegrityRelationship

pub data TargetKind : Type 0 where
  standard terminal unknown_sensitive : TargetKind

pub record ExecutableIdentity : Type 0 where
  pub path : String
  pub process_start_time : ℕ

pub record SelectionSnapshot : Type 0 where
  pub start : Option ℕ
  pub end : Option ℕ
  pub caret : Option ℕ
  pub is_empty : Bool
  pub range_fingerprint : Option ℕ

pub record KeyboardContext : Type 0 where
  pub layout : Option ℕ
  pub ime_open : Option Bool
  pub ime_composing : Option Bool

pub record TargetSnapshot : Type 0 where
  pub session_id : ℕ
  pub window_handle : ℕ
  pub process_id : ℕ
  pub thread_id : ℕ
  pub executable : ExecutableIdentity
  pub integrity : IntegrityRelationship
  pub target_kind : TargetKind
  pub is_password : Bool
  pub is_read_only : Bool
  pub is_secure_desktop : Option Bool
  pub selection : Option SelectionSnapshot
  pub content_fingerprint : Option ℕ
  pub input_epoch : Option ℕ
  pub hook_epoch : Option ℕ
  pub keyboard : KeyboardContext
  pub capability : DeliveryCapability

pub record ForegroundIdentity : Type 0 where
  pub session_id : ℕ
  pub foreground : Bool
  pub window_handle : ℕ
  pub process_id : ℕ
  pub process_start_time : ℕ

pub data DeliveryStrategy : Type 0 where
  result_view clipboard unicode_input clipboard_paste value_pattern : DeliveryStrategy

pub data DeliveryRefusal : Type 0 where
  refused_cancelled deadline_exceeded session_mismatch focus_changed process_changed :
      DeliveryRefusal
  element_changed selection_changed caret_changed content_changed : DeliveryRefusal
  integrity_changed user_input hook_unavailable app_closed window_reused : DeliveryRefusal
  password read_only secure_desktop elevated_target target_inaccessible : DeliveryRefusal
  refused_unknown_sensitive modifier_held clipboard_busy clipboard_changed : DeliveryRefusal
  clipboard_snapshot_incomplete ambiguous_input unsupported : DeliveryRefusal

pub record TargetObservation : Type 0 where
  pub session_id : ℕ
  pub window_handle : ℕ
  pub process_id : ℕ
  pub process_start_time : ℕ
  pub thread_id : ℕ
  pub element_matches : Bool
  pub selection_matches : Bool
  pub caret_matches : Bool
  pub content_matches : Bool
  pub integrity_matches : Bool
  pub keyboard_matches : Bool
  pub foreground : Bool
  pub user_input_seen : Bool
  pub hook_healthy : Bool
  pub own_input_distinguished : Bool
  pub hook_epoch : Option ℕ
  pub modifiers_released : Bool

-- `if wrong { return Err(refusal) }`.
abbrev pub refuse_if : Bool → DeliveryRefusal → Result DeliveryRefusal (Unit {0})
refuse_if true refusal = err refusal
refuse_if false refusal = ok tt

-- `ok_or(refusal)?`.
abbrev pub ok_or : {A : Type 0} → Option A → DeliveryRefusal → Result DeliveryRefusal A
ok_or none refusal = err refusal
ok_or (some a) refusal = ok a

infixl 5 ◌>>◌
abbrev pub ◌>>◌ :
    {A : Type 0}
    → Result DeliveryRefusal (Unit {0})
    → Result DeliveryRefusal A
    → Result DeliveryRefusal A
m >> k = m >>= λ _. k

unfoldable pub validate_foreground_identity :
    TargetSnapshot → ForegroundIdentity → Result DeliveryRefusal (Unit {0})
validate_foreground_identity s i = do
  refuse_if (not (i.session_id == s.session_id)) session_mismatch
  refuse_if (not i.foreground) focus_changed
  refuse_if (not (i.window_handle == s.window_handle)) focus_changed
  refuse_if (not (i.process_id == s.process_id)) process_changed
  refuse_if (not (i.process_start_time == s.executable.process_start_time)) window_reused

abbrev pub identity_of : TargetObservation → ForegroundIdentity
identity_of o = record {
  session_id = o.session_id;
  foreground = o.foreground;
  window_handle = o.window_handle;
  process_id = o.process_id;
  process_start_time = o.process_start_time;
}

unfoldable pub validate_target :
    TargetSnapshot → TargetObservation → Result DeliveryRefusal (Unit {0})
unfolding validate_foreground_identity
validate_target s o = do
  validate_foreground_identity s (identity_of o)
  refuse_if (not (o.thread_id == s.thread_id) || not o.element_matches) element_changed
  refuse_if (not o.selection_matches) selection_changed
  refuse_if (not o.caret_matches) caret_changed
  refuse_if (not o.content_matches) content_changed
  refuse_if (not o.integrity_matches) integrity_changed
  refuse_if (not o.keyboard_matches) content_changed
  refuse_if o.user_input_seen user_input
  refuse_if (not o.hook_healthy) hook_unavailable
  refuse_if (not o.own_input_distinguished) hook_unavailable
  captured ← ok_or s.hook_epoch hook_unavailable
  observed ← ok_or o.hook_epoch hook_unavailable
  refuse_if (not (observed == captured)) user_input
  refuse_if (not o.modifiers_released) modifier_held

abbrev guard_desktop : Option Bool → Result DeliveryRefusal (Unit {0})
guard_desktop (some false) = ok tt
guard_desktop (some true) = err secure_desktop
guard_desktop none = err unsupported

abbrev above_or_unknown : IntegrityRelationship → Bool
above_or_unknown target_higher = true
above_or_unknown unknown = true
above_or_unknown _ = false

abbrev is_unknown_sensitive : TargetKind → Bool
is_unknown_sensitive unknown_sensitive = true
is_unknown_sensitive _ = false

abbrev is_terminal : TargetKind → Bool
is_terminal terminal = true
is_terminal _ = false

unfoldable pub classify_guard : TargetSnapshot → Result DeliveryRefusal (Unit {0})
classify_guard s = do
  guard_desktop s.is_secure_desktop
  refuse_if s.is_password password
  refuse_if s.is_read_only read_only
  refuse_if (above_or_unknown s.integrity) elevated_target
  refuse_if (is_unknown_sensitive s.target_kind) refused_unknown_sensitive

abbrev by_capability :
    DeliveryCapability → DeliverySettings → Result DeliveryRefusal DeliveryStrategy
by_capability result_view_only settings = ok result_view
by_capability clipboard_only settings = if settings.auto_copy then ok clipboard else ok result_view
by_capability commit_on_finish settings =
    if settings.auto_paste
    then ok clipboard_paste
    else if settings.auto_copy
    then ok clipboard
    else ok result_view
by_capability append_only_live settings = err unsupported
by_capability verified_range_replace settings = err unsupported

unfoldable pub select_strategy :
    TargetSnapshot → DeliverySettings → Result DeliveryRefusal DeliveryStrategy
unfolding classify_guard
select_strategy s settings = do
  classify_guard s
  (if is_terminal s.target_kind
      then ok (if settings.auto_copy then clipboard else result_view)
      else by_capability s.capability settings)

pub record ClipboardTransaction : Type 0 where
  pub original_sequence : ℕ
  pub write_sequence : Option ℕ
  pub snapshot : Option ClipboardSnapshotMetadata
  pub restore_enabled : Bool

-- `ClipboardTransaction::begin`.
abbrev pub begin_transaction : ℕ → Option ClipboardSnapshotMetadata → Bool → ClipboardTransaction
begin_transaction sequence snapshot enabled = record {
  original_sequence = sequence;
  write_sequence = none;
  snapshot = snapshot;
  restore_enabled = enabled;
}

unfoldable pub record_write : ClipboardTransaction → ℕ → ClipboardTransaction
record_write t sequence = record t { write_sequence = some sequence }

restore_from :
    ClipboardTransaction → ClipboardPolicy → ℕ → Option ℕ → Option ClipboardSnapshotMetadata → Bool
restore_from t policy current none snapshot = false
restore_from t policy current (some written) none = false
restore_from t policy current (some written) (some snapshot) =
    current == written && not (written == t.original_sequence) && accepts_snapshot policy snapshot

unfoldable pub should_restore : ClipboardTransaction → ClipboardPolicy → ℕ → Bool → Bool
unfolding restore_from accepts_snapshot
should_restore t policy current verified =
    if not t.restore_enabled || not verified
    then false
    else restore_from t policy current t.write_sequence t.snapshot

pub record DeliveryPlan : Type 0 where
  pub session_id : ℕ
  pub capability : DeliveryCapability
  pub strategy : DeliveryStrategy

pub record DeliveryJob : Type 0 where
  pub snapshot : TargetSnapshot
  pub observation : TargetObservation
  pub settings : DeliverySettings

-- The answer of `run_actor` to a job.
unfoldable pub plan_job : DeliveryJob → Result DeliveryRefusal DeliveryPlan
unfolding validate_target select_strategy
plan_job job = do
  validate_target job.snapshot job.observation
  strategy ← select_strategy job.snapshot job.settings
  ok (record {
    session_id = job.snapshot.session_id;
    capability = job.snapshot.capability;
    strategy = strategy;
  })
