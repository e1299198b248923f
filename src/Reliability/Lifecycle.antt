-- ===== src/Reliability/Lifecycle.antt =====
-- crates/speakeasy-domain/src/reliability.rs: sleep, lock, remote sessions and shutdown.
use speakeasy_granite_rust_m.Base.{◌≡◌, refl, Bool, true, false, not, ◌&&◌, List, [], ◌∷◌, arith}

pub data LifecycleEvent : Type 0 where
  suspend resume lock unlock rdp_disconnected rdp_connected shutdown : LifecycleEvent

pub record LifecycleEffects : Type 0 where
  pub accept_activations : Bool
  pub cancel_capture : Bool
  pub invalidate_target : Bool
  pub reregister_hotkey : Bool
  pub retry_selected_microphone_only : Bool

pub record LifecycleController : Type 0 where
  pub accept_activations : Bool
  pub suspended : Bool
  pub locked : Bool
  pub rdp_is_connected : Bool
  pub shutting_down : Bool

abbrev pub default_controller : LifecycleController
default_controller = record {
  accept_activations = true;
  suspended = false;
  locked = false;
  rdp_is_connected = true;
  shutting_down = false;
}

-- The first `match`.
abbrev note : LifecycleController → LifecycleEvent → LifecycleController
note c suspend = record c { suspended = true }
note c resume = record c { suspended = false }
note c lock = record c { locked = true }
note c unlock = record c { locked = false }
note c rdp_disconnected = record c { rdp_is_connected = false }
note c rdp_connected = record c { rdp_is_connected = true }
note c shutdown = record c { shutting_down = true }

abbrev interrupts : LifecycleEvent → Bool
interrupts suspend = true
interrupts lock = true
interrupts rdp_disconnected = true
interrupts shutdown = true
interrupts _ = false

abbrev returns : LifecycleEvent → Bool
returns resume = true
returns unlock = true
returns rdp_connected = true
returns _ = false

unfoldable pub apply : LifecycleController → LifecycleEvent → LifecycleController × LifecycleEffects
apply c event =
    let n = note c event in
    let accept = not n.suspended && not n.locked && n.rdp_is_connected && not n.shutting_down in
    (
      record n { accept_activations = accept },
      record {
        accept_activations = accept;
        cancel_capture = interrupts event;
        invalidate_target = not (returns event);
        reregister_hotkey = returns event && accept;
        retry_selected_microphone_only = returns event && accept;
      },
    )

unfoldable pub run : LifecycleController → List LifecycleEvent → LifecycleController
run c [] = c
run c (e ∷ es) = run (apply c e).0 es

-- What the events say, oldest first, given what held before: whether the last word on one matter
-- is that it is away, or that the app is shutting down.
abbrev pub asleep : Bool → List LifecycleEvent → Bool
asleep b [] = b
asleep b (suspend ∷ es) = asleep true es
asleep b (resume ∷ es) = asleep false es
asleep b (_ ∷ es) = asleep b es

abbrev pub screen_locked : Bool → List LifecycleEvent → Bool
screen_locked b [] = b
screen_locked b (lock ∷ es) = screen_locked true es
screen_locked b (unlock ∷ es) = screen_locked false es
screen_locked b (_ ∷ es) = screen_locked b es

abbrev pub connected : Bool → List LifecycleEvent → Bool
connected b [] = b
connected b (rdp_disconnected ∷ es) = connected false es
connected b (rdp_connected ∷ es) = connected true es
connected b (_ ∷ es) = connected b es

abbrev pub stopping : Bool → List LifecycleEvent → Bool
stopping b [] = b
stopping b (shutdown ∷ es) = true
stopping b (_ ∷ es) = stopping b es

abbrev pub Tells : LifecycleController → LifecycleController → List LifecycleEvent → Type 0
Tells c d es =
    (d.suspended ≡ asleep c.suspended es)
    × (d.locked ≡ screen_locked c.locked es)
    × (d.rdp_is_connected ≡ connected c.rdp_is_connected es)
    × (d.shutting_down ≡ stopping c.shutting_down es)

stopping_stays : (es : List LifecycleEvent) → stopping true es ≡ true
stopping_stays [] = refl
stopping_stays (shutdown ∷ es) = refl
stopping_stays (_ ∷ es) = stopping_stays es

Tells-cons :
    (c d : LifecycleController) (e : LifecycleEvent) (es : List LifecycleEvent)
    → Tells (apply c e).0 d es
    → Tells c d (e ∷ es)
unfolding apply
Tells-cons c d shutdown es h = ground (arith, stopping_stays es)
Tells-cons c d _ es h = ground arith

run-Tells : (c : LifecycleController) (es : List LifecycleEvent) → Tells c (run c es) es
unfolding run
run-Tells c [] = (refl, refl, refl, refl)
run-Tells c (e ∷ es) = Tells-cons c (run (apply c e).0 es) e es (run-Tells (apply c e).0 es)

-- The stored answer is the one that the flags give.
abbrev IsConsistent : LifecycleController → Type 0
IsConsistent c =
    c.accept_activations
    ≡ (not c.suspended && not c.locked && c.rdp_is_connected && not c.shutting_down)

run-IsConsistent :
    (c : LifecycleController) (es : List LifecycleEvent) → IsConsistent c → IsConsistent (run c es)
unfolding run
run-IsConsistent c [] h = h
run-IsConsistent c (e ∷ es) h = run-IsConsistent (apply c e).0 es (unfold apply in refl)

-- After any events the app takes activations exactly when, by the last word on each matter, the
-- machine is awake, unlocked and connected, and no shutdown was ever announced.
pub run_accepts :
    (es : List LifecycleEvent)
    → (run default_controller es).accept_activations ≡ (
        not (asleep false es)
        && not (screen_locked false es)
        && connected true es
        && not (stopping false es))
run_accepts es =
    let h = run-Tells default_controller es in
    let k = run-IsConsistent default_controller es refl in ground arith

-- An event that cancels the capture is one after which no activation is taken and no hotkey is
-- registered; a hotkey is registered again, and the microphone tried again, only when activations
-- are taken; and the target is left valid only by an event of return.
pub apply_effects :
    (c : LifecycleController) (e : LifecycleEvent)
    → let f = (apply c e).1 in
      (f.cancel_capture ≡ true → (f.accept_activations ≡ false) × (f.reregister_hotkey ≡ false))
      × (f.reregister_hotkey ≡ true → f.accept_activations ≡ true)
      × (f.retry_selected_microphone_only ≡ f.reregister_hotkey)
      × (f.invalidate_target ≡ f.cancel_capture)
      × ((apply c e).0.accept_activations ≡ f.accept_activations)
unfolding apply
apply_effects c e = ground arith
