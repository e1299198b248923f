-- ===== src/Delivery/Guard.antt =====
-- Exactly when a delivery is planned.
use speakeasy_granite_rust_m.Base.{
  ℕ, ◌≡◌, ◌⊎◌, ◌↔◌, refl, true, false, Option, none, some, arith, Result, ok, err,
}
use speakeasy_granite_rust_m.Session.Phase.{commit_on_finish}
use speakeasy_granite_rust_m.Delivery.{
  DeliverySettings, target_lower, equal, standard, terminal, TargetSnapshot, TargetObservation,
  ForegroundIdentity, DeliveryStrategy, result_view, clipboard, clipboard_paste, DeliveryRefusal,
  validate_foreground_identity, validate_target, classify_guard, identity_of, select_strategy,
  DeliveryPlan, DeliveryJob, plan_job,
}

-- The foreground is the window of the snapshot.
abbrev pub IsForeground : TargetSnapshot → ForegroundIdentity → Type 0
IsForeground s i =
    (i.session_id ≡ s.session_id)
    × (i.foreground ≡ true)
    × (i.window_handle ≡ s.window_handle)
    × (i.process_id ≡ s.process_id)
    × (i.process_start_time ≡ s.executable.process_start_time)

-- Nothing that was captured has changed, and the evidence for that is complete.
abbrev pub IsSame : TargetSnapshot → TargetObservation → Type 0
IsSame s o =
    IsForeground s (identity_of o)
    × (o.thread_id ≡ s.thread_id)
    × (o.element_matches ≡ true)
    × (o.selection_matches ≡ true)
    × (o.caret_matches ≡ true)
    × (o.content_matches ≡ true)
    × (o.integrity_matches ≡ true)
    × (o.keyboard_matches ≡ true)
    × (o.user_input_seen ≡ false)
    × (o.hook_healthy ≡ true)
    × (o.own_input_distinguished ≡ true)
    × ((epoch : ℕ) × (s.hook_epoch ≡ some epoch) × (o.hook_epoch ≡ some epoch))
    × (o.modifiers_released ≡ true)

-- A target that may be written to at all.
abbrev pub IsOpen : TargetSnapshot → Type 0
IsOpen s =
    (s.is_secure_desktop ≡ some false)
    × (s.is_password ≡ false)
    × (s.is_read_only ≡ false)
    × (s.integrity ≡ target_lower ⊎ s.integrity ≡ equal)
    × (s.target_kind ≡ standard ⊎ s.target_kind ≡ terminal)

-- What the user and the target allow.
abbrev pub Permits : TargetSnapshot → DeliverySettings → DeliveryStrategy → Type 0
Permits s settings result_view = Unit {0}
Permits s settings clipboard = settings.auto_copy ≡ true
Permits s settings clipboard_paste =
    (settings.auto_paste ≡ true) × (s.capability ≡ commit_on_finish) × (s.target_kind ≡ standard)
Permits s settings _ = ⊥

pub validate_foreground_identity_iff :
    (s : TargetSnapshot) (i : ForegroundIdentity)
    → validate_foreground_identity s i ≡ ok tt ↔ IsForeground s i
unfolding validate_foreground_identity
validate_foreground_identity_iff s i = ground arith

pub classify_guard_iff : (s : TargetSnapshot) → classify_guard s ≡ ok tt ↔ IsOpen s
unfolding classify_guard
classify_guard_iff s = ground arith

pub validate_target_iff :
    (s : TargetSnapshot) (o : TargetObservation) → validate_target s o ≡ ok tt ↔ IsSame s o
unfolding validate_target
validate_target_iff s o = go s.hook_epoch refl o.hook_epoch refl
  where
    go :
        (x : Option ℕ)
        → s.hook_epoch ≡ x
        → (y : Option ℕ) → o.hook_epoch ≡ y
        → validate_target s o ≡ ok tt ↔ IsSame s o
    go none e y f = ((λ h. ground arith), (λ h. ground arith))
    go (some n) e none f = ((λ h. ground arith), (λ h. ground arith))
    go (some n) e (some m) f = (
      (λ h. (
        ground arith,
        ground arith,
        ground arith,
        ground arith,
        ground arith,
        ground arith,
        ground arith,
        ground arith,
        ground arith,
        ground arith,
        ground arith,
        (n, e, ground arith),
        ground arith,
      )),
      (λ h. ground arith),
    )

-- A plan is made only if nothing about the target has changed and it may be written to, and
-- then only by a strategy that it and the user allow; in a terminal, or for a target that takes
-- text as it is spoken, nothing is pasted.
pub plan_job-Permits :
    (job : DeliveryJob) (plan : DeliveryPlan)
    → plan_job job ≡ ok plan
    → IsSame job.snapshot job.observation
      × IsOpen job.snapshot
      × Permits job.snapshot job.settings plan.strategy
      × (plan.session_id ≡ job.snapshot.session_id)
unfolding plan_job select_strategy
plan_job-Permits job plan e = go (validate_target s o) refl (classify_guard s) refl
  where
    s : TargetSnapshot
    s = job.snapshot

    o : TargetObservation
    o = job.observation

    strategy :
        classify_guard s ≡ ok tt
        → validate_target s o ≡ ok tt
        → Permits s job.settings plan.strategy × (plan.session_id ≡ s.session_id)
    strategy x y = ground arith

    go :
        (x : Result DeliveryRefusal (Unit {0}))
        → validate_target s o ≡ x
        → (y : Result DeliveryRefusal (Unit {0})) → classify_guard s ≡ y
        → IsSame s o
          × IsOpen s
          × Permits s job.settings plan.strategy
          × (plan.session_id ≡ s.session_id)
    go (err r) f y g = ground arith
    go (ok u) f (err r) g = ground arith
    go (ok u) f (ok w) g =
        let (p, i) = strategy g f in
        ((validate_target_iff s o).0 f, (classify_guard_iff s).0 g, p, i)
