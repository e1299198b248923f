-- ===== src/Tests/Delivery.antt =====
-- Delivery at concrete inputs: crates/speakeasy-delivery/src/lib.rs and
-- crates/speakeasy-windows/src/commit.rs.
use speakeasy_granite_rust_m.Base.{
  ℕ, ◌*◌, ltb, arith, ◌≡◌, ◌≤◌, refl, Bool, true, false, none, some, [], ◌∷◌, if◌then◌else◌, ok,
  err,
}
use speakeasy_granite_rust_m.Session.Phase.{commit_on_finish}
use speakeasy_granite_rust_m.Delivery.{
  DeliverySettings, ClipboardPolicy, equal, standard, TargetSnapshot, TargetObservation,
  ForegroundIdentity, clipboard_paste, focus_changed, DeliveryJob, DeliveryPlan, plan_job,
  modifier_held, validate_foreground_identity, validate_target, classify_guard, select_strategy,
  ClipboardTransaction, should_restore, begin_transaction, record_write,
}
use speakeasy_granite_rust_m.Delivery.Guard.{IsSame, IsOpen, Permits, plan_job-Permits}
use speakeasy_granite_rust_m.Delivery.Commit.{
  asked_identity, waited_for_modifiers, wrote_clipboard, sent_paste, Log, Desktop, focused_now,
  CommitRequest, execute_commit, validate_focused_preflight,
}
use speakeasy_granite_rust_m.Delivery.Modifiers.{
  EndsAfter, wait_for_modifiers_with, wait_for_modifiers_with-EndsAfter,
}
use speakeasy_granite_rust_m.Delivery.Commit.Safe.{IsGuarded, execute_commit-IsGuarded}

abbrev notepad : TargetSnapshot
notepad = record {
  session_id = 1;
  window_handle = 100;
  process_id = 200;
  thread_id = 300;
  executable = record { path = "notepad.exe"; process_start_time = 400 };
  integrity = equal;
  target_kind = standard;
  is_password = false;
  is_read_only = false;
  is_secure_desktop = some false;
  selection = none;
  content_fingerprint = none;
  input_epoch = some 500;
  hook_epoch = some 600;
  keyboard = record { layout = some 1; ime_open = some false; ime_composing = some false };
  capability = commit_on_finish;
}

abbrev observed : TargetObservation
observed = record {
  session_id = 1;
  window_handle = 100;
  process_id = 200;
  process_start_time = 400;
  thread_id = 300;
  element_matches = true;
  selection_matches = true;
  caret_matches = true;
  content_matches = true;
  integrity_matches = true;
  keyboard_matches = true;
  foreground = true;
  user_input_seen = false;
  hook_healthy = true;
  own_input_distinguished = true;
  hook_epoch = some 600;
  modifiers_released = true;
}

abbrev pasting : DeliverySettings
pasting = record {
  auto_copy = false;
  auto_paste = true;
  restore_clipboard = true;
  feedback_enabled = true;
}

abbrev job : DeliveryJob
job = record { snapshot = notepad; observation = observed; settings = pasting }

abbrev plan : DeliveryPlan
plan = record { session_id = 1; capability = commit_on_finish; strategy = clipboard_paste }

plan_job-Permits_example :
    IsSame notepad observed
    × IsOpen notepad
    × Permits notepad pasting clipboard_paste
    × (plan.session_id ≡ notepad.session_id)
unfolding plan_job validate_target validate_foreground_identity select_strategy classify_guard
plan_job-Permits_example = plan_job-Permits job plan refl

abbrev policy : ClipboardPolicy
policy = record {
  maximum_snapshot_bytes = 4194304;
  maximum_snapshot_formats = 32;
  maximum_open_attempts = 5;
}

abbrev taken : ClipboardTransaction
taken =
    record_write
      (begin_transaction 7 (some (record { bytes = 10; formats = 2; complete = true })) true) 8

taken_is_given_back : should_restore taken policy 8 true ≡ true
unfolding should_restore record_write
taken_is_given_back = refl

abbrev here : ForegroundIdentity
here = record {
  session_id = 1;
  foreground = true;
  window_handle = 100;
  process_id = 200;
  process_start_time = 400;
}

abbrev clipboard_was_written : Log → Bool
clipboard_was_written (wrote_clipboard t a ∷ log) = true
clipboard_was_written _ = false

-- Another window takes the foreground while the clipboard is written, if `steals`.
abbrev desktop : Bool → Desktop
desktop steals = record {
  foreground_identity = λ log. ok (
      if clipboard_was_written log
      then (if steals then record here { window_handle = 101 } else here)
      else here);
  input_tick = λ log. ok 500;
  modifiers_released = λ log. ok tt;
  write_clipboard = λ log text. ok (some 9);
  send_input = λ log. ok 4;
}

abbrev request : CommitRequest
request = record { mode = focused_now; snapshot = notepad; text = 0x68 ∷ 0x69 ∷ [] }

stolen_focus : (execute_commit (desktop true) request []).1 ≡ err focus_changed
unfolding execute_commit validate_focused_preflight classify_guard validate_foreground_identity
stolen_focus = refl

pasted_log :
    (execute_commit (desktop false) request []).0
    ≡ sent_paste (ok 4)
      ∷ asked_identity (ok here)
      ∷ wrote_clipboard (0x68 ∷ 0x69 ∷ []) (ok (some 9))
      ∷ asked_identity (ok here)
      ∷ waited_for_modifiers (ok tt)
      ∷ asked_identity (ok here)
      ∷ []
unfolding execute_commit validate_focused_preflight classify_guard validate_foreground_identity
pasted_log = refl

execute_commit-IsGuarded_example : IsGuarded request (execute_commit (desktop false) request []).0
execute_commit-IsGuarded_example = execute_commit-IsGuarded (desktop false) request

-- Polls five milliseconds apart, with a modifier held at the first two.
abbrev held_at : ℕ → Bool
held_at i = ltb i 2

abbrev time_at : ℕ → ℕ
time_at i = i * 5

released_in_time : wait_for_modifiers_with held_at time_at 20 5 0 ≡ some (ok tt)
unfolding wait_for_modifiers_with
released_in_time = refl

not_in_time : wait_for_modifiers_with held_at time_at 5 5 0 ≡ some (err modifier_held)
unfolding wait_for_modifiers_with
not_in_time = refl

wait_for_modifiers_with-EndsAfter_example :
    (k : ℕ) × (k ≤ 4)
    × EndsAfter held_at time_at 20 0 k (wait_for_modifiers_with held_at time_at 20 5 0)
wait_for_modifiers_with-EndsAfter_example =
    wait_for_modifiers_with-EndsAfter held_at time_at 20 4 4 (λ j. omega arith) (omega arith)
