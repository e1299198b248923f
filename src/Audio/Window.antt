-- ===== src/Audio/Window.antt =====
-- The elements of a list from a place on, going round at its end, and what storing does to them.
use native.Mathlib.Nat.{
  add-zero, mod-add-div', mod-lt, mod-add-mod, mod-mod, mod-eq_of_lt, mod-eq-sub-mod,
}
use speakeasy_granite_rust_m.Base.{
  ℕ, ◌+◌, ◌-◌, ◌%◌, true, false, Option, none, some, List, [], ◌∷◌, ◌++◌, ◌==◌, length, drop,
  get_elem?, set, zero, suc, ◌≤◌, ◌<◌, ◌≡◌, ◌≢◌, refl, sym, ap, ◌∙◌, arith, length-set,
  get_elem?-set, get_elem?-some, append_assoc, append-nil, All,
}

-- Fewer than `n` steps round the ring do not come back to the start.
mod_ne : (a b n : ℕ) → a < b → b < a + n → a % n ≢ b % n
mod_ne a b n h k e = grind (arith, mod-add-div')

suc_mod : (h n : ℕ) → suc (h % n) % n ≡ suc h % n
suc_mod h n =
    let a : suc (h % n) ≡ h % n + 1 = omega arith in
    let b : h + 1 ≡ suc h = omega arith in ap (λ k. k % n) a ∙ mod-add-mod h n 1 ∙ ap (λ k. k % n) b

-- Elements are seen through `v`.
module _ {A B : Type 0} (v : A → B) where
  abbrev pub views : Option A → List B
  views none = []
  views (some slot) = v slot ∷ []

  -- The `k` blocks from the cursor `h` on.
  pub window : List A → ℕ → ℕ → List B
  window slots h zero = []
  window slots h (suc k) = views (get_elem? slots (h % length slots)) ++ window slots (suc h) k

  pub window-zero : (slots : List A) (h : ℕ) → window slots h 0 ≡ []
  unfolding window
  window-zero slots h = refl

  -- A block between 1 and `length slots - 1` places before the one stored.
  get-set_other :
      (slots : List A) (slot : A) (h c : ℕ)
      → h < c
      → c < h + length slots
      → get_elem?
          (set slots (c % length slots) slot)
          (h % length (set slots (c % length slots) slot))
        ≡ get_elem? slots (h % length slots)
  get-set_other slots slot h c l m =
      let ne = mod_ne h c (length slots) l m in
      let f : (c % length slots == h % length slots) ≡ false = ground arith in
      rw (
        length-set slots (c % length slots) slot,
        get_elem?-set slots (c % length slots) (h % length slots) slot
            (mod-lt c {m = length slots} (omega arith)),
        f,
      )

  get-set_self :
      (slots : List A) (slot : A) (c : ℕ)
      → 0 < length slots
      → get_elem?
          (set slots (c % length slots) slot)
          (c % length (set slots (c % length slots) slot))
        ≡ some slot
  get-set_self slots slot c l =
      let f : (c % length slots == c % length slots) ≡ true = ground arith in
      rw (
        length-set slots (c % length slots) slot,
        get_elem?-set slots (c % length slots) (c % length slots) slot
            (mod-lt c {m = length slots} l),
        f,
      )

  -- Storing past the window does not change it.
  window-set :
      (slots : List A) (slot : A) (c h k : ℕ)
      → h + k ≤ c
      → c < h + length slots
      → window (set slots (c % length slots) slot) h k ≡ window slots h k
  unfolding window
  window-set slots slot c h zero l m = refl
  window-set slots slot c h (suc k) l m =
      let e = get-set_other slots slot h c (omega arith) m in
      ap (λ o. views o ++ window (set slots (c % length slots) slot) (suc h) k) e
      ∙ ap (λ w. views (get_elem? slots (h % length slots)) ++ w)
          (window-set slots slot c (suc h) k (omega arith) (omega arith))

  window-append :
      (slots : List A) (h k : ℕ)
      → window slots h (suc k)
        ≡ window slots h k ++ views (get_elem? slots ((h + k) % length slots))
  unfolding window
  window-append slots h zero = rw (add-zero h, append-nil)
  window-append slots h (suc k) =
      ap (λ w. views (get_elem? slots (h % length slots)) ++ w)
        (window-append slots (suc h) k
          ∙ ap (λ j. window slots (suc h) k ++ views (get_elem? slots (j % length slots)))
              (omega arith))
      ∙ sym (
          append_assoc (views (get_elem? slots (h % length slots))) (window slots (suc h) k)
            (views (get_elem? slots ((h + suc k) % length slots))))

  pub window-first :
      (slots : List A) (slot : A) (h k : ℕ)
      → get_elem? slots (h % length slots) ≡ some slot
      → window slots h (suc k) ≡ v slot ∷ window slots (suc h) k
  unfolding window
  window-first slots slot h k e = rw e

  -- Storing just past it makes it longer by that block.
  pub window-store :
      (slots : List A) (slot : A) (h k : ℕ)
      → k < length slots
      → window (set slots ((h + k) % length slots) slot) h (suc k) ≡ window slots h k ++ v slot ∷ []
  window-store slots slot h k l =
      window-append (set slots ((h + k) % length slots) slot) h k
      ∙ ap
          (λ w.
            w
            ++ views (
                get_elem? (set slots ((h + k) % length slots) slot)
                  ((h + k) % length (set slots ((h + k) % length slots) slot))))
          (window-set slots slot (h + k) h k (omega arith) (omega arith))
      ∙ ap (λ o. window slots h k ++ views o) (get-set_self slots slot (h + k) (omega arith))

  -- Every slot in the window counts once.
  pub length-window : (slots : List A) (h k : ℕ) → 0 < length slots → length (window slots h k) ≡ k
  unfolding window
  length-window slots h zero l = refl
  length-window slots h (suc k) l =
      let (slot, e) = get_elem?-some slots (h % length slots) (mod-lt h {m = length slots} l) in
      rw e (ap suc (length-window slots (suc h) k l))

  -- Going round the whole list leads back.
  pub window-mod : (slots : List A) (h k : ℕ) → window slots (h % length slots) k ≡ window slots h k
  unfolding window
  window-mod slots h zero = refl
  window-mod slots h (suc k) =
      let n = length slots in
      ap (λ j. views (get_elem? slots j) ++ window slots (suc (h % n)) k) (mod-mod h n)
      ∙ ap (λ w. views (get_elem? slots (h % n)) ++ w)
          (sym (window-mod slots (suc (h % n)) k)
            ∙ ap (λ j. window slots j k) (suc_mod h n)
            ∙ window-mod slots (suc h) k)

  -- Storing over the oldest element of a full list.
  pub window-over :
      (slots : List A) (slot : A) (h : ℕ)
      → h < length slots
      → window (set slots h slot) ((h + 1) % length slots) (length slots)
        ≡ drop 1 (window slots h (length slots)) ++ v slot ∷ []
  unfolding window
  window-over slots slot h l =
      let n = length slots in
      let k = n - 1 in
      let e : n ≡ suc k = omega arith in
      let (x, q) = get_elem?-some slots (h % n) (mod-lt h {m = n} (omega arith)) in
      let f : (suc h + k) % n ≡ h =
        ap (λ j. j % n) (let d : suc h + k ≡ h + n = omega arith in d)
        ∙ mod-eq-sub-mod {n = h + n} {m = n} (omega arith)
        ∙ ap (λ j. j % n) (let d : h + n - n ≡ h = omega arith in d)
        ∙ mod-eq_of_lt l in
      let g : (h + 1) % n ≡ suc h % length (set slots h slot) =
        ap (λ j. j % n) (let d : h + 1 ≡ suc h = omega arith in d)
        ∙ ap (λ j. suc h % j) (sym (length-set slots h slot)) in
      ap (λ j. window (set slots h slot) j n) g
      ∙ window-mod (set slots h slot) (suc h) n
      ∙ ap (λ j. window (set slots h slot) (suc h) j) e
      ∙ ap (λ j. window (set slots j slot) (suc h) (suc k)) (sym f)
      ∙ window-store slots slot (suc h) k (omega arith)
      ∙ ap (λ w. drop 1 w ++ v slot ∷ [])
          (sym (window-first slots x h k q) ∙ ap (λ j. window slots h j) (sym e))

abbrev Found : {A : Type 0} → (A → Type 0) → Option A → Type 0
Found P none = Unit {0}
Found P (some x) = P x

All-Found :
    {A : Type 0} (P : A → Type 0) (xs : List A) (i : ℕ) → All P xs → Found P (get_elem? xs i)
All-Found P [] i h = tt
All-Found P (x ∷ xs) zero (p, h) = p
All-Found P (x ∷ xs) (suc i) (p, h) = All-Found P xs i h

-- What holds for each element holds for those seen.
pub window-All :
    {A B : Type 0} (v : A → B) (P : A → Type 0) (Q : B → Type 0) (slots : List A) (h k : ℕ)
    → ((slot : A) → P slot → Q (v slot))
    → All P slots
    → All Q (window v slots h k)
unfolding window
window-All {A = A} v P Q slots h zero f p = tt
window-All {A = A} v P Q slots h (suc k) f p =
    seen (get_elem? slots (h % length slots)) (All-Found P slots (h % length slots) p)
      (window-All v P Q slots (suc h) k f p)
  where
    seen :
        (o : Option A)
        → Found P o
        → All Q (window v slots (suc h) k)
        → All Q (views v o ++ window v slots (suc h) k)
    seen none q r = r
    seen (some slot) q r = (f slot q, r)
