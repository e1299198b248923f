-- ===== src/Delivery/Commit/Safe.antt =====
-- What stands behind every paste.
use mathlib.Core.Path.{subst}
use speakeasy_granite_rust_m.Base.{
  ℕ, ◌≡◌, refl, ap, sym, Option, none, some, [], ◌∷◌, arith, ok, err,
}
use speakeasy_granite_rust_m.Text.{Text}
use speakeasy_granite_rust_m.Delivery.{
  TargetSnapshot, ForegroundIdentity, TargetObservation, validate_foreground_identity,
  validate_target, classify_guard, DeliveryPlan,
}
use speakeasy_granite_rust_m.Delivery.Guard.{
  IsForeground, IsSame, IsOpen, validate_foreground_identity_iff, validate_target_iff,
  classify_guard_iff,
}
use speakeasy_granite_rust_m.Delivery.Commit.{
  Answer, Effect, asked_identity, asked_tick, waited_for_modifiers, wrote_clipboard, sent_paste,
  Log, Desktop, CommitMode, validated, focused_now, CommitRequest, validate_focused_preflight,
  validate_commit_preflight, Act, follow, ◌then_do◌, ◌then_run◌, plainly, prepare, check_again,
  paste, execute_commit, foreground_identity_unchanged, input_epoch_unchanged, wait_for_modifiers,
  write_until,
}

abbrev pub NoPaste : Log → Type 0
NoPaste [] = Unit {0}
NoPaste (sent_paste answer ∷ log) = ⊥
NoPaste (_ ∷ log) = NoPaste log

-- The target as it was captured may be written to, and if there is evidence from before the
-- dictation, it is whole and unchanged.
abbrev pub Allowed : TargetSnapshot → CommitMode → Type 0
Allowed s (validated plan o) = IsOpen s × IsSame s o
Allowed s focused_now = IsOpen s

-- The newest entry says that the target is still the one captured.
abbrev pub StillThere : TargetSnapshot → CommitMode → Effect → Type 0
StillThere s focused_now (asked_identity (ok i)) = IsForeground s i
StillThere s (validated plan o) (asked_tick (ok n)) = s.input_epoch ≡ some n
StillThere s mode _ = ⊥

-- What was written to the clipboard just before.
abbrev pub HasText : Text → Effect → Type 0
HasText text (wrote_clipboard t (ok sequence)) = t ≡ text
HasText text _ = ⊥

abbrev pub IsGuarded : CommitRequest → Log → Type 0
IsGuarded r (sent_paste answer ∷ check ∷ write ∷ log) =
    StillThere r.snapshot r.mode check
    × HasText r.text write
    × NoPaste log
    × Allowed r.snapshot r.mode
IsGuarded r log = NoPaste log

abbrev Quiet : {A : Type 0} → Act A → Type 0
Quiet m = (log : Log) → NoPaste log → NoPaste (m log).0

module _ {B : Type 0} (m : Act (Unit {0})) (n : Act B) where
  then_run-Quiet : Quiet m → Quiet n → Quiet (m then_run n)
  then_run-Quiet p q log h = go (m log) refl
    where
      go : (x : Log × Answer (Unit {0})) → m log ≡ x → NoPaste ((m then_run n) log).0
      go (l, err r) e = rw e (rw e at (p log h))
      go (l, ok u) e = rw e (q l (rw e at (p log h)))

  -- A chain ends well only if its first part does.
  then_run-first : (log : Log) (b : B) → ((m then_run n) log).1 ≡ ok b → (m log).1 ≡ ok tt
  then_run-first log b h = go (m log) refl
    where
      go : (x : Log × Answer (Unit {0})) → m log ≡ x → (m log).1 ≡ ok tt
      go (l, err r) e = ground arith
      go (l, ok u) e = ground arith

plainly-Quiet : {A : Type 0} (answer : Answer A) → Quiet (plainly answer)
plainly-Quiet answer log h = h

-- A test, and three steps behind it.
module _ (answer : Answer (Unit {0})) (x y z : Act (Unit {0})) where
  abbrev chain : Act (Unit {0})
  chain = plainly answer then_run x then_run y then_run z

  chain-Quiet : Quiet x → Quiet y → Quiet z → Quiet chain
  chain-Quiet p q r =
      then_run-Quiet (plainly answer then_run x then_run y) z
        (then_run-Quiet (plainly answer then_run x) y
          (then_run-Quiet (plainly answer) x (plainly-Quiet answer) p) q)
        r

  chain-first : (log : Log) → (chain log).1 ≡ ok tt → answer ≡ ok tt
  chain-first log e = then_run-first (plainly answer) x log tt (
      then_run-first (plainly answer then_run x) y log tt
        (then_run-first (plainly answer then_run x then_run y) z log tt e))

focused-guard :
    (s : TargetSnapshot) → validate_focused_preflight s ≡ ok tt → classify_guard s ≡ ok tt
unfolding validate_focused_preflight
focused-guard s e = go (classify_guard s) refl
  where
    go : (g : Answer (Unit {0})) → classify_guard s ≡ g → classify_guard s ≡ ok tt
    go (err r) h = ground arith
    go (ok u) h = ground arith

preflight-guard :
    (s : TargetSnapshot) (plan : DeliveryPlan) (o : TargetObservation)
    → validate_commit_preflight s plan o ≡ ok tt
    → (classify_guard s ≡ ok tt) × (validate_target s o ≡ ok tt)
unfolding validate_commit_preflight
preflight-guard s plan o e = go (validate_target s o) refl (classify_guard s) refl
  where
    go :
        (t : Answer (Unit {0}))
        → validate_target s o ≡ t
        → (g : Answer (Unit {0})) → classify_guard s ≡ g
        → (classify_guard s ≡ ok tt) × (validate_target s o ≡ ok tt)
    go (err r) h g k = ground arith
    go (ok u) h (err r) k = ground arith
    go (ok u) h (ok w) k = ground arith

module _ (d : Desktop) where
  identity-Quiet : (s : TargetSnapshot) → Quiet (foreground_identity_unchanged d s)
  unfolding foreground_identity_unchanged
  identity-Quiet s log h = h

  epoch-Quiet : (s : TargetSnapshot) → Quiet (input_epoch_unchanged d s)
  unfolding input_epoch_unchanged
  epoch-Quiet s log h = go s.input_epoch refl
    where
      go : (o : Option ℕ) → s.input_epoch ≡ o → NoPaste (input_epoch_unchanged d s log).0
      go none e = rw e h
      go (some n) e = rw e h

  wait-Quiet : Quiet (wait_for_modifiers d)
  unfolding wait_for_modifiers
  wait-Quiet log h = h

  prepare-Quiet : (s : TargetSnapshot) (mode : CommitMode) → Quiet (prepare d s mode)
  unfolding prepare
  prepare-Quiet s (validated plan o) =
      chain-Quiet (validate_commit_preflight s plan o) (input_epoch_unchanged d s)
        (wait_for_modifiers d) (input_epoch_unchanged d s) (epoch-Quiet s) wait-Quiet
        (epoch-Quiet s)
  prepare-Quiet s focused_now =
      chain-Quiet (validate_focused_preflight s) (foreground_identity_unchanged d s)
        (wait_for_modifiers d) (foreground_identity_unchanged d s) (identity-Quiet s) wait-Quiet
        (identity-Quiet s)

  prepare-Allowed :
      (s : TargetSnapshot) (mode : CommitMode) (log : Log)
      → (prepare d s mode log).1 ≡ ok tt
      → Allowed s mode
  unfolding prepare
  prepare-Allowed s (validated plan o) log e =
      let (g, t) = preflight-guard s plan o (
        chain-first (validate_commit_preflight s plan o) (input_epoch_unchanged d s)
          (wait_for_modifiers d) (input_epoch_unchanged d s) log e) in
      ((classify_guard_iff s).0 g, (validate_target_iff s o).0 t)
  prepare-Allowed s focused_now log e = (classify_guard_iff s).0 (
      focused-guard s (
        chain-first (validate_focused_preflight s) (foreground_identity_unchanged d s)
          (wait_for_modifiers d) (foreground_identity_unchanged d s) log e))

  identity-there :
      (s : TargetSnapshot) (log : Log)
      → (foreground_identity_unchanged d s log).1 ≡ ok tt
      → (i : ForegroundIdentity) × ((foreground_identity_unchanged d s log).0
          ≡ asked_identity (ok i) ∷ log)
        × IsForeground s i
  unfolding foreground_identity_unchanged
  identity-there s log e = go (d.foreground_identity log) refl
    where
      go :
          (a : Answer ForegroundIdentity)
          → d.foreground_identity log ≡ a
          → (i : ForegroundIdentity) × ((foreground_identity_unchanged d s log).0
              ≡ asked_identity (ok i) ∷ log)
            × IsForeground s i
      go (err r) h = ground arith
      go (ok i) h =
          let f : validate_foreground_identity s i ≡ ok tt = ground arith in
          (i, ap (λ a. asked_identity a ∷ log) h, (validate_foreground_identity_iff s i).0 f)

  epoch-there :
      (s : TargetSnapshot) (log : Log)
      → (input_epoch_unchanged d s log).1 ≡ ok tt
      → (n : ℕ) × ((input_epoch_unchanged d s log).0 ≡ asked_tick (ok n) ∷ log)
        × (s.input_epoch ≡ some n)
  unfolding input_epoch_unchanged
  epoch-there s log e = go s.input_epoch refl (d.input_tick log) refl
    where
      go :
          (o : Option ℕ)
          → s.input_epoch ≡ o
          → (a : Answer ℕ) → d.input_tick log ≡ a
          → (n : ℕ) × ((input_epoch_unchanged d s log).0 ≡ asked_tick (ok n) ∷ log)
            × (s.input_epoch ≡ some n)
      go none h a k = ground arith
      go (some m) h (err r) k = ground arith
      go (some m) h (ok n) k = (n, ground arith, ground arith)

  -- The last check adds one entry at most, and if it ends well that entry says so.
  check_again-StillThere :
      (s : TargetSnapshot) (mode : CommitMode) (log : Log)
      → (check_again d s mode log).1 ≡ ok tt
      → (check : Effect) × ((check_again d s mode log).0 ≡ check ∷ log) × StillThere s mode check
  unfolding check_again
  check_again-StillThere s (validated plan o) log e =
      let (n, p, q) = epoch-there s log e in (asked_tick (ok n), p, q)
  check_again-StillThere s focused_now log e =
      let (i, p, q) = identity-there s log e in (asked_identity (ok i), p, q)

  check_again-Quiet : (s : TargetSnapshot) (mode : CommitMode) → Quiet (check_again d s mode)
  unfolding check_again
  check_again-Quiet s (validated plan o) = epoch-Quiet s
  check_again-Quiet s focused_now = identity-Quiet s

  NoPaste-IsGuarded : (r : CommitRequest) (log : Log) → NoPaste log → IsGuarded r log
  NoPaste-IsGuarded r [] h = h
  NoPaste-IsGuarded r (sent_paste a ∷ log) h = absurd h
  NoPaste-IsGuarded r (asked_identity a ∷ log) h = h
  NoPaste-IsGuarded r (asked_tick a ∷ log) h = h
  NoPaste-IsGuarded r (waited_for_modifiers a ∷ log) h = h
  NoPaste-IsGuarded r (wrote_clipboard t a ∷ log) h = h

  paste-log :
      (r : CommitRequest) (sequence : Option ℕ) (log : Log)
      → (paste d r sequence log).0 ≡ sent_paste (d.send_input log) ∷ log
  unfolding paste
  paste-log r sequence log = go (d.send_input log) refl
    where
      go :
          (a : Answer ℕ)
          → d.send_input log ≡ a
          → (paste d r sequence log).0 ≡ sent_paste (d.send_input log) ∷ log
      go (err x) e = ground arith
      go (ok n) e = ground arith

  -- From the written clipboard on.
  ending-IsGuarded :
      (r : CommitRequest) (sequence : Option ℕ) (log : Log)
      → NoPaste log
      → Allowed r.snapshot r.mode
      → IsGuarded r
          ((check_again d r.snapshot r.mode then_run paste d r sequence)
            (wrote_clipboard r.text (ok sequence) ∷ log)).0
  ending-IsGuarded r sequence log h a = go (check_again d r.snapshot r.mode written) refl
    where
      written : Log
      written = wrote_clipboard r.text (ok sequence) ∷ log

      go :
          (x : Log × Answer (Unit {0}))
          → check_again d r.snapshot r.mode written ≡ x
          → IsGuarded r ((check_again d r.snapshot r.mode then_run paste d r sequence) written).0
      go (l, err y) e =
          rw e (NoPaste-IsGuarded r l (rw e at (check_again-Quiet r.snapshot r.mode written h)))
      go (l, ok u) e =
          let (check, p, q) = check_again-StillThere r.snapshot r.mode written (rw e) in
          let f : l ≡ check ∷ written = rw e at p in
          rw (e, paste-log r sequence l, f) (q, refl, h, a)

  -- Whatever the desktop answers, keys are sent only if the target may be written to, right after a
  -- check that it is still the one captured, which comes right after the clipboard took exactly the
  -- request's text; and no keys were sent before.
  pub execute_commit-IsGuarded : (r : CommitRequest) → IsGuarded r (execute_commit d r []).0
  unfolding execute_commit write_until
  execute_commit-IsGuarded r = go (prepare d r.snapshot r.mode []) refl
    where
      after : Log → Answer (Option ℕ) → Type 0
      after l a =
          IsGuarded r
            (follow (λ sequence. (check_again d r.snapshot r.mode then_run paste d r sequence))
              (wrote_clipboard r.text a ∷ l, a)).0

      write :
          (l : Log)
          → NoPaste l
          → Allowed r.snapshot r.mode
          → (a : Answer (Option ℕ)) → d.write_clipboard l r.text ≡ a
          → IsGuarded r
              ((write_until d r.text then_do λ sequence.
                  (check_again d r.snapshot r.mode then_run paste d r sequence))
                l).0
      write l h g (err x) k = subst (after l) (sym k) h
      write l h g (ok sequence) k = subst (after l) (sym k) (ending-IsGuarded r sequence l h g)

      go :
          (x : Log × Answer (Unit {0}))
          → prepare d r.snapshot r.mode [] ≡ x
          → IsGuarded r (execute_commit d r []).0
      go (l, err x) e =
          rw e (NoPaste-IsGuarded r l (rw e at (prepare-Quiet r.snapshot r.mode [] tt)))
      go (l, ok u) e =
          let h : NoPaste l = rw e at (prepare-Quiet r.snapshot r.mode [] tt) in
          let g = prepare-Allowed r.snapshot r.mode [] (rw e) in
          rw e (write l h g (d.write_clipboard l r.text) refl)
