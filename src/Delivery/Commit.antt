-- ===== src/Delivery/Commit.antt =====
-- crates/speakeasy-windows/src/commit.rs: `execute_commit`, which pastes a transcript. What it asks
-- of Windows, of the clipboard writer and of the wait for modifiers (input.rs, clipboard.rs) is a
-- `Desktop`, whose answers may depend on all that was asked before; the log is newest first.
use speakeasy_granite_rust_m.Base.{
  ℕ, ◌≡◌, Bool, true, false, not, ◌&&◌, ◌||◌, Option, none, some, List, [], ◌∷◌, ◌==◌,
  if◌then◌else◌, is_some, Result, ok, err, ◌>>=◌,
}
use speakeasy_granite_rust_m.Text.{Text}
use speakeasy_granite_rust_m.Session.Phase.{
  DeliveryCapability, verified_range_replace, append_only_live, commit_on_finish, clipboard_only,
  result_view_only,
}
use speakeasy_granite_rust_m.Delivery.{
  SelectionSnapshot, TargetSnapshot, ForegroundIdentity, DeliveryStrategy, clipboard_paste,
  DeliveryRefusal, hook_unavailable, user_input, ambiguous_input, unsupported, TargetObservation,
  refuse_if, ok_or, ◌>>◌, validate_foreground_identity, validate_target, classify_guard,
  DeliveryPlan,
}
pub mod Safe

abbrev pub Answer : Type 0 → Type 0
Answer = Result DeliveryRefusal

-- What was asked of the desktop, with its answer: `current_foreground_identity`,
-- `capture_input_activity`, `wait_for_activation_modifiers`, `write_until` and `SendInput`.
pub data Effect : Type 0 where
  asked_identity : Answer ForegroundIdentity → Effect
  asked_tick : Answer ℕ → Effect
  waited_for_modifiers : Answer (Unit {0}) → Effect
  wrote_clipboard : Text → Answer (Option ℕ) → Effect
  sent_paste : Answer ℕ → Effect

abbrev pub Log : Type 0
Log = List Effect

pub record Desktop : Type 0 where
  pub foreground_identity : Log → Answer ForegroundIdentity
  pub input_tick : Log → Answer ℕ
  pub modifiers_released : Log → Answer (Unit {0})
  pub write_clipboard : Log → Text → Answer (Option ℕ)
  -- The number of events that were accepted.
  pub send_input : Log → Answer ℕ

abbrev pub paste_event_count : ℕ
paste_event_count = 4

pub data CommitMode : Type 0 where
  validated : DeliveryPlan → TargetObservation → CommitMode
  focused_now : CommitMode

pub record CommitRequest : Type 0 where
  pub mode : CommitMode
  pub snapshot : TargetSnapshot
  pub text : Text

-- `consumption_verified` is false and `outcome` is `InputQueued` in every receipt made here.
pub record DeliveryReceipt : Type 0 where
  pub session_id : ℕ
  pub capability : DeliveryCapability
  pub strategy : DeliveryStrategy
  pub clipboard_sequence : Option ℕ
  pub input_events_accepted : ℕ

abbrev same_capability : DeliveryCapability → DeliveryCapability → Bool
same_capability verified_range_replace verified_range_replace = true
same_capability append_only_live append_only_live = true
same_capability commit_on_finish commit_on_finish = true
same_capability clipboard_only clipboard_only = true
same_capability result_view_only result_view_only = true
same_capability _ _ = false

abbrev is_paste : DeliveryStrategy → Bool
is_paste clipboard_paste = true
is_paste _ = false

unfoldable pub validate_focused_preflight : TargetSnapshot → Answer (Unit {0})
validate_focused_preflight s = do
  classify_guard s
  refuse_if
      (same_capability s.capability result_view_only
        || same_capability s.capability append_only_live)
      unsupported

abbrev is_some_false : Option Bool → Bool
is_some_false (some false) = true
is_some_false _ = false

unfoldable pub validate_commit_preflight :
    TargetSnapshot → DeliveryPlan → TargetObservation → Answer (Unit {0})
validate_commit_preflight s plan o = do
  refuse_if
      (not (plan.session_id == s.session_id)
        || not (same_capability plan.capability s.capability)
        || not (is_paste plan.strategy)
        || not (same_capability s.capability commit_on_finish))
      unsupported
  validate_target s o
  classify_guard s
  refuse_if
      (not (is_some s.keyboard.layout)
        || not (is_some s.keyboard.ime_open)
        || not (is_some_false s.keyboard.ime_composing))
      unsupported
  selection ← ok_or s.selection unsupported
  refuse_if
      (not (is_some selection.start)
        || not (is_some selection.end)
        || not (is_some selection.caret)
        || not (is_some selection.range_fingerprint)
        || not (is_some s.content_fingerprint))
      unsupported
  refuse_if (not (is_some s.input_epoch)) hook_unavailable
  refuse_if (not (is_some s.hook_epoch)) hook_unavailable

-- A chain of steps, each with the log so far: an error ends it.
abbrev pub Act : Type 0 → Type 0
Act A = Log → Log × Answer A

abbrev follow : {A B : Type 0} → (A → Act B) → Log × Answer A → Log × Answer B
follow next (log, err refusal) = (log, err refusal)
follow next (log, ok a) = next a log

infixl 5 ◌then_do◌ ◌then_run◌
abbrev pub ◌then_do◌ : {A B : Type 0} → Act A → (A → Act B) → Act B
◌then_do◌ m next log = follow next (m log)

abbrev pub ◌then_run◌ : {B : Type 0} → Act (Unit {0}) → Act B → Act B
◌then_run◌ m next log = follow (λ _. next) (m log)

abbrev pub plainly : {A : Type 0} → Answer A → Act A
plainly answer log = (log, answer)

module _ (desktop : Desktop) where
  foreground_identity_unchanged : TargetSnapshot → Act (Unit {0})
  foreground_identity_unchanged s log =
      let answer = desktop.foreground_identity log in
      (asked_identity answer ∷ log, answer >>= λ i. validate_foreground_identity s i)

  tick_fits : ℕ → ℕ → Answer (Unit {0})
  tick_fits captured current = refuse_if (not (current == captured)) user_input

  input_epoch_unchanged : TargetSnapshot → Act (Unit {0})
  unfolding tick_fits
  input_epoch_unchanged s log = elim s.input_epoch [
    | none ↦ (log, err hook_unavailable)
    | some captured ↦
        let answer = desktop.input_tick log in
        (asked_tick answer ∷ log, answer >>= tick_fits captured)
  ]

  wait_for_modifiers : Act (Unit {0})
  wait_for_modifiers log =
      let answer = desktop.modifiers_released log in (waited_for_modifiers answer ∷ log, answer)

  write_until : Text → Act (Option ℕ)
  write_until text log =
      let answer = desktop.write_clipboard log text in (wrote_clipboard text answer ∷ log, answer)

  accepted_or_ambiguous : Answer ℕ → Answer ℕ
  accepted_or_ambiguous (err refusal) = err ambiguous_input
  accepted_or_ambiguous (ok n) = ok n

  send_paste_shortcut : Act ℕ
  unfolding accepted_or_ambiguous
  send_paste_shortcut log =
      let answer = desktop.send_input log in (sent_paste answer ∷ log, accepted_or_ambiguous answer)

  -- The checks before the clipboard is written.
  pub prepare : TargetSnapshot → CommitMode → Act (Unit {0})
  unfolding input_epoch_unchanged foreground_identity_unchanged wait_for_modifiers
  prepare s (validated plan o) =
      plainly (validate_commit_preflight s plan o)
      then_run input_epoch_unchanged s
      then_run wait_for_modifiers
      then_run input_epoch_unchanged s
  prepare s focused_now =
      plainly (validate_focused_preflight s)
      then_run foreground_identity_unchanged s
      then_run wait_for_modifiers
      then_run foreground_identity_unchanged s

  -- The check between the clipboard and the keys.
  pub check_again : TargetSnapshot → CommitMode → Act (Unit {0})
  unfolding input_epoch_unchanged foreground_identity_unchanged
  check_again s (validated plan o) = input_epoch_unchanged s
  check_again s focused_now = foreground_identity_unchanged s

  abbrev strategy_of : CommitMode → DeliveryStrategy
  strategy_of (validated plan o) = plan.strategy
  strategy_of focused_now = clipboard_paste

  pub paste : CommitRequest → Option ℕ → Act DeliveryReceipt
  unfolding send_paste_shortcut
  paste r sequence = send_paste_shortcut then_do λ accepted. plainly (
      if accepted == paste_event_count
      then ok (record {
        session_id = r.snapshot.session_id;
        capability = r.snapshot.capability;
        strategy = strategy_of r.mode;
        clipboard_sequence = sequence;
        input_events_accepted = accepted;
      })
      else err ambiguous_input)

  unfoldable pub execute_commit : CommitRequest → Act DeliveryReceipt
  unfolding prepare check_again paste write_until
  execute_commit r =
      prepare r.snapshot r.mode
      then_run (write_until r.text then_do λ sequence.
          (check_again r.snapshot r.mode then_run paste r sequence))
