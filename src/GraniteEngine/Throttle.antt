-- ===== src/GraniteEngine/Throttle.antt =====
-- crates/speakeasy-windows/src/lib.rs: `CrashThrottle`, which counts the crashes of a window of time.
use mathlib.Core.Path.{subst}
use speakeasy_granite_rust_m.Base.{
  ℕ, ◌-◌, ◌≤◌, ◌<◌, ◌≡◌, Bool, true, false, Option, none, some, List, [], ◌∷◌, ◌++◌, leb, ltb, ◌==◌,
  ◌||◌, if◌then◌else◌, length, arith, refl, sym, ap, ◌∙◌, Bool-cases, inl, inr, All, append-nil,
  append_assoc,
}

pub record CrashThrottle : Type 0 where
  pub maximum_crashes : ℕ
  pub window : ℕ
  pub crashes : List ℕ

-- `CrashThrottle::new`; `none` is its error.
unfoldable pub new : ℕ → ℕ → Option CrashThrottle
new maximum_crashes window =
    if maximum_crashes == 0 || window == 0
    then none
    else some (record { maximum_crashes = maximum_crashes; window = window; crashes = [] })

-- The loop of `record_crash`.
unfoldable pub drop_expired : ℕ → ℕ → List ℕ → List ℕ
drop_expired window elapsed [] = []
drop_expired window elapsed (oldest ∷ crashes) =
    let rest = drop_expired window elapsed crashes in
    if leb window (elapsed - oldest) then rest else oldest ∷ crashes

abbrev pub is_quarantined : CrashThrottle → Bool
is_quarantined t = leb t.maximum_crashes (length t.crashes)

-- `record_crash`, and whether a restart is permitted.
unfoldable pub record_crash : CrashThrottle → ℕ → CrashThrottle × Bool
unfolding drop_expired
record_crash t elapsed =
    let crashes = drop_expired t.window elapsed t.crashes ++ elapsed ∷ [] in
    (record t { crashes = crashes }, ltb (length crashes) t.maximum_crashes)

abbrev pub reset : CrashThrottle → CrashThrottle
reset t = record t { crashes = [] }

-- The crashes of the window that ends now, wherever they stand.
unfoldable pub recent : ℕ → ℕ → List ℕ → List ℕ
recent window elapsed [] = []
recent window elapsed (t ∷ ts) =
    let rest = recent window elapsed ts in if ltb (elapsed - t) window then t ∷ rest else rest

-- Crashes one after another, none after `elapsed`.
abbrev pub IsOrdered : List ℕ → ℕ → Type 0
IsOrdered [] elapsed = Unit
IsOrdered (t ∷ ts) elapsed = (t ≤ elapsed) × All (λ u. t ≤ u) ts × IsOrdered ts elapsed

recent_whole :
    (window elapsed t : ℕ) (ts : List ℕ)
    → elapsed - t < window
    → All (λ u. t ≤ u) ts
    → recent window elapsed ts ≡ ts
unfolding recent
recent_whole window elapsed t [] h a = refl
recent_whole window elapsed t (u ∷ ts) h (l, a) =
    let e = recent_whole window elapsed t ts h a in
    let q : ltb (elapsed - u) window ≡ true = ground arith in rw (q, e) refl

drop_expired-recent :
    (window elapsed : ℕ) (ts : List ℕ)
    → IsOrdered ts elapsed
    → drop_expired window elapsed ts ≡ recent window elapsed ts
unfolding drop_expired recent
drop_expired-recent window elapsed [] h = refl
drop_expired-recent window elapsed (t ∷ ts) (l, a, h) =
    let e = drop_expired-recent window elapsed ts h in
    elim (Bool-cases (leb window (elapsed - t))) [
      | inl b ↦ let q : ltb (elapsed - t) window ≡ false = ground arith in rw (b, q) e
      | inr b ↦
          let q : ltb (elapsed - t) window ≡ true = ground arith in
          rw (b, q) (ap (λ xs. t ∷ xs) (sym (recent_whole window elapsed t ts (ground arith) a)))
    ]

-- A crash at each of the times, in order.
unfoldable pub record_all : CrashThrottle → List ℕ → CrashThrottle
unfolding record_crash
record_all t [] = t
record_all t (elapsed ∷ times) = record_all (record_crash t elapsed).0 times

recent-All :
    (window elapsed t : ℕ) (ts : List ℕ)
    → All (λ u. t ≤ u) ts
    → All (λ u. t ≤ u) (recent window elapsed ts)
unfolding recent
recent-All window elapsed t [] a = tt
recent-All window elapsed t (u ∷ ts) (l, a) =
    let e = recent-All window elapsed t ts a in
    elim (Bool-cases (ltb (elapsed - u) window)) [ inl b ↦ rw b (l, e) | inr b ↦ rw b e ]

recent-IsOrdered :
    (window elapsed later : ℕ) (ts : List ℕ)
    → elapsed ≤ later
    → IsOrdered ts elapsed
    → IsOrdered (recent window elapsed ts) later
unfolding recent
recent-IsOrdered window elapsed later [] g h = tt
recent-IsOrdered window elapsed later (t ∷ ts) g (l, a, h) =
    let e = recent-IsOrdered window elapsed later ts g h in
    elim (Bool-cases (ltb (elapsed - t) window)) [
      | inl b ↦ rw b (omega arith, recent-All window elapsed t ts a, e)
      | inr b ↦ rw b e
    ]

recent-recent :
    (window elapsed later : ℕ) (ts : List ℕ)
    → elapsed ≤ later
    → recent window later (recent window elapsed ts) ≡ recent window later ts
unfolding recent
recent-recent window elapsed later [] g = refl
recent-recent window elapsed later (t ∷ ts) g =
    let e = recent-recent window elapsed later ts g in
    elim (Bool-cases (ltb (elapsed - t) window)) [
      | inl b ↦ elim (Bool-cases (ltb (later - t) window)) [
        | inl d ↦ rw (b, d) (ap (λ xs. t ∷ xs) e)
        | inr d ↦ rw (b, d) e
      ]
      | inr b ↦ let d : ltb (later - t) window ≡ false = ground arith in rw (b, d) e
    ]

recent-snoc :
    (window elapsed : ℕ) (ts : List ℕ)
    → 0 < window
    → recent window elapsed (ts ++ elapsed ∷ []) ≡ recent window elapsed ts ++ elapsed ∷ []
unfolding recent
recent-snoc window elapsed [] g =
    let b : ltb (elapsed - elapsed) window ≡ true = ground arith in rw b refl
recent-snoc window elapsed (t ∷ ts) g =
    let e = recent-snoc window elapsed ts g in
    elim (Bool-cases (ltb (elapsed - t) window)) [
      | inl b ↦ rw b (ap (λ xs. t ∷ xs) e)
      | inr b ↦ rw b e
    ]

All-snoc : (P : ℕ → Type 0) (ts : List ℕ) (t : ℕ) → All P ts → P t → All P (ts ++ t ∷ [])
All-snoc P [] t a p = (p, tt)
All-snoc P (u ∷ ts) t (l, a) p = (l, All-snoc P ts t a p)

IsOrdered-snoc :
    (ts : List ℕ) (elapsed later : ℕ)
    → elapsed ≤ later
    → IsOrdered ts elapsed
    → IsOrdered (ts ++ later ∷ []) later
IsOrdered-snoc [] elapsed later g h = (omega arith, tt, tt)
IsOrdered-snoc (t ∷ ts) elapsed later g (l, a, h) = (
  omega arith,
  All-snoc (λ u. t ≤ u) ts later a (omega arith),
  IsOrdered-snoc ts elapsed later g h,
)

-- Times none of which is before the one ahead of it, or before `at`.
abbrev pub Rises : ℕ → List ℕ → Type 0
Rises at [] = Unit
Rises at (t ∷ ts) = (at ≤ t) × Rises t ts

abbrev pub last_time : ℕ → List ℕ → ℕ
last_time at [] = at
last_time at (t ∷ ts) = last_time t ts

recorded_lem :
    (t : CrashThrottle) (at : ℕ) (earlier times : List ℕ)
    → 0 < t.window
    → IsOrdered earlier at
    → t.crashes ≡ recent t.window at earlier
    → Rises at times
    → (record_all t times).crashes ≡ recent t.window (last_time at times) (earlier ++ times)
unfolding record_all record_crash
recorded_lem t at earlier [] w o e r = e ∙ ap (recent t.window at) (sym (append-nil earlier))
recorded_lem t at earlier (elapsed ∷ times) w o e (l, r) =
    recorded_lem (record_crash t elapsed).0 elapsed (earlier ++ elapsed ∷ []) times w
      (IsOrdered-snoc earlier at elapsed l o)
      (ap (λ xs. drop_expired t.window elapsed xs ++ elapsed ∷ []) e
        ∙ ap (λ xs. xs ++ elapsed ∷ [])
            (drop_expired-recent t.window elapsed (recent t.window at earlier)
                (recent-IsOrdered t.window at elapsed earlier l o)
              ∙ recent-recent t.window at elapsed earlier l)
        ∙ sym (recent-snoc t.window elapsed earlier w))
      r
    ∙ ap (recent t.window (last_time elapsed times)) (append_assoc earlier (elapsed ∷ []) times)

record_all_maximum :
    (t : CrashThrottle) (times : List ℕ) → (record_all t times).maximum_crashes ≡ t.maximum_crashes
unfolding record_all record_crash
record_all_maximum t [] = refl
record_all_maximum t (elapsed ∷ times) = record_all_maximum (record_crash t elapsed).0 times

-- After crashes in the order of time, a new throttle holds exactly those of the window that ends with
-- the last one, and so it is quarantined exactly when they are as many as its limit.
pub record_all-Quarantined :
    (maximum window : ℕ) (t : CrashThrottle) (times : List ℕ)
    → new maximum window ≡ some t
    → Rises 0 times
    → ((record_all t times).crashes ≡ recent window (last_time 0 times) times)
      × (is_quarantined (record_all t times)
          ≡ leb maximum (length (recent window (last_time 0 times) times)))
unfolding new recent
record_all-Quarantined maximum window t times e r =
    let w : 0 < window = ground arith in
    let fresh : CrashThrottle = record {
      maximum_crashes = maximum;
      window = window;
      crashes = [];
    } in
    let f : fresh ≡ t = ground arith in
    let c = recorded_lem fresh 0 [] times w tt refl r in
    subst
      (λ u.
        ((record_all u times).crashes ≡ recent window (last_time 0 times) times)
        × (is_quarantined (record_all u times)
            ≡ leb maximum (length (recent window (last_time 0 times) times))))
      f
      (
        c,
        ap (λ m. leb m (length (record_all fresh times).crashes)) (record_all_maximum fresh times)
            ∙ ap (λ xs. leb maximum (length xs)) c,
      )
