-- ===== src/Delivery/Modifiers.antt =====
-- crates/speakeasy-windows/src/input.rs: the wait until the keys of the activation are released.
use mathlib.Core.Path.{subst}
use native.Mathlib.Nat.{add-mul}
use speakeasy_granite_rust_m.Base.{
  ℕ, zero, suc, ◌+◌, ◌*◌, ◌≤◌, ◌<◌, ◌≡◌, ◌⊎◌, inl, inr, sym, Bool, true, false, not, Option, none,
  some, leb, if◌then◌else◌, Result, ok, err, arith, Bool-cases,
}
use speakeasy_granite_rust_m.Delivery.{DeliveryRefusal, modifier_held}

-- At the poll with number `i`, `held i` is whether a modifier is held, and `now i` the time after it.
-- Without fuel there is no result.
unfoldable pub wait_for_modifiers_with :
    (ℕ → Bool) → (ℕ → ℕ) → ℕ → ℕ → ℕ → Option (Result DeliveryRefusal (Unit {0}))
wait_for_modifiers_with held now deadline zero i = none
wait_for_modifiers_with held now deadline (suc fuel) i =
    let more = wait_for_modifiers_with held now deadline fuel (suc i) in
    if not (held i)
    then some (ok tt)
    else if leb deadline (now i)
    then some (err modifier_held)
    else more

-- The wait from the poll `i` on ends with the `k`th poll after it: all before it were held and in
-- time, and it is the first that is released, or else the first that is at the deadline.
abbrev pub EndsAfter :
    (ℕ → Bool) → (ℕ → ℕ) → ℕ → ℕ → ℕ → Option (Result DeliveryRefusal (Unit {0})) → Type 0
EndsAfter held now deadline i k r =
    ((j : ℕ) → j < k → (held (i + j) ≡ true) × (now (i + j) < deadline))
    × (((held (i + k) ≡ false) × (r ≡ some (ok tt)))
        ⊎ ((held (i + k) ≡ true) × (deadline ≤ now (i + k)) × (r ≡ some (err modifier_held))))

no_poll : (j : ℕ) → ¬ (j < 0)
no_poll j l = omega arith

module _ (held : ℕ → Bool) (now : ℕ → ℕ) (deadline interval : ℕ) where
  ends_later :
      (i k : ℕ) (r : Option (Result DeliveryRefusal (Unit {0})))
      → held i ≡ true
      → now i < deadline
      → EndsAfter held now deadline (suc i) k r
      → EndsAfter held now deadline i (suc k) r
  ends_later i k r h n (before, last) = (earlier, moved last)
    where
      earlier : (j : ℕ) → j < suc k → (held (i + j) ≡ true) × (now (i + j) < deadline)
      earlier zero l =
          let e : i ≡ i + 0 = omega arith in
          subst (λ x. (held x ≡ true) × (now x < deadline)) e (h, n)
      earlier (suc j) l =
          let e : suc i + j ≡ i + suc j = omega arith in
          subst (λ x. (held x ≡ true) × (now x < deadline)) e (before j (omega arith))

      moved :
          (((held (suc i + k) ≡ false) × (r ≡ some (ok tt)))
            ⊎ ((held (suc i + k) ≡ true)
                × (deadline ≤ now (suc i + k))
                × (r ≡ some (err modifier_held))))
          → (((held (i + suc k) ≡ false) × (r ≡ some (ok tt)))
              ⊎ ((held (i + suc k) ≡ true)
                  × (deadline ≤ now (i + suc k))
                  × (r ≡ some (err modifier_held))))
      moved o =
          let e : suc i + k ≡ i + suc k = omega arith in
          subst
            (λ x.
              ((held x ≡ false) × (r ≡ some (ok tt)))
              ⊎ ((held x ≡ true) × (deadline ≤ now x) × (r ≡ some (err modifier_held))))
            e o

  abbrev wait : ℕ → ℕ → Option (Result DeliveryRefusal (Unit {0}))
  wait fuel i = wait_for_modifiers_with held now deadline fuel i

  -- What the first poll does: it ends the wait, or leaves the rest of it.
  first_poll :
      (fuel i : ℕ)
      → EndsAfter held now deadline i 0 (wait (suc fuel) i)
        ⊎ ((held i ≡ true) × (now i < deadline) × (wait (suc fuel) i ≡ wait fuel (suc i)))
  unfolding wait_for_modifiers_with
  first_poll fuel i =
      let e : i ≡ i + 0 = omega arith in
      elim (Bool-cases (held i)) [
        | inr a ↦
            let q : wait (suc fuel) i ≡ some (ok tt) = rw a in
            inl ((λ j l. elim (no_poll j l) [ ]), inl (subst (λ x. held x ≡ false) e a, q))
        | inl a ↦ elim (Bool-cases (leb deadline (now i))) [
          | inl b ↦
              let q : wait (suc fuel) i ≡ some (err modifier_held) = rw (a, b) in
              let late : deadline ≤ now i = ground arith in
              inl (
                (λ j l. elim (no_poll j l) [ ]),
                inr (subst (λ x. held x ≡ true) e a, subst (λ x. deadline ≤ now x) e late, q),
              )
          | inr b ↦
              let q : wait (suc fuel) i ≡ wait fuel (suc i) = rw (a, b) in inr (a, ground arith, q)
        ]
      ]

  wait_from :
      (fuel i : ℕ)
      → ((j : ℕ) → now j + suc interval ≤ now (suc j))
      → deadline ≤ now i + fuel * suc interval
      → (k : ℕ) × (k ≤ fuel) × EndsAfter held now deadline i k (wait (suc fuel) i)
  wait_from zero i sleeps h = elim (first_poll zero i) [
    | inl d ↦ (0, omega arith, d)
    | inr (a, b, q) ↦ let z : now i < now i = omega arith in elim (no_poll 0 (omega arith)) [ ]
  ]
  wait_from (suc fuel) i sleeps h = elim (first_poll (suc fuel) i) [
    | inl d ↦ (0, omega arith, d)
    | inr (a, b, q) ↦
        let m = add-mul 1 fuel (suc interval) in
        let s = sleeps i in
        let (k, l, d) = wait_from fuel (suc i) sleeps (omega arith) in
        (
          suc k,
          omega arith,
          subst (EndsAfter held now deadline i (suc k)) (sym q)
              (ends_later i k (wait (suc fuel) (suc i)) a b d),
        )
  ]

  -- With a pause of more than `interval` after each poll, the wait ends, and after no more polls than
  -- fit before the deadline: with the first poll at which no modifier is held, or else with a refusal
  -- at the first one that is at the deadline.
  pub wait_for_modifiers_with-EndsAfter :
      (fuel : ℕ)
      → ((j : ℕ) → now j + suc interval ≤ now (suc j))
      → deadline ≤ now 0 + fuel * suc interval
      → (k : ℕ) × (k ≤ fuel)
        × EndsAfter held now deadline 0 k (wait_for_modifiers_with held now deadline (suc fuel) 0)
  wait_for_modifiers_with-EndsAfter fuel sleeps h = wait_from fuel 0 sleeps h
