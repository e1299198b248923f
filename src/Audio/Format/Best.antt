-- ===== src/Audio/Format/Best.antt =====
-- The chosen format is the first of those of the least rank.
use mathlib.Core.Path.{subst}
use speakeasy_granite_rust_m.Base.{
  ℕ, true, false, List, [], ◌∷◌, ◌++◌, ◌≡◌, ◌⊎◌, inl, inr, refl, sym, ap, if◌then◌else◌, Result, ok,
  err, arith, All, Bool-cases,
}
use speakeasy_granite_rust_m.Audio.Ring.{NativeStreamConfig}
use speakeasy_granite_rust_m.Audio.Format.{
  NativeStreamCandidate, NegotiationPreference, NegotiationError, candidate_rank, less,
  ranks_before, min_from, negotiate_native_format,
}

less-less : (xs ys zs : List ℕ) → less xs ys ≡ true → less ys zs ≡ true → less xs zs ≡ true
unfolding less
less-less [] [] zs h k = cc
less-less [] (y ∷ ys) [] h k = cc
less-less [] (y ∷ ys) (z ∷ zs) h k = refl
less-less (x ∷ xs) [] zs h k = cc
less-less (x ∷ xs) (y ∷ ys) [] h k = cc
less-less (x ∷ xs) (y ∷ ys) (z ∷ zs) h k = ground (arith, less-less xs ys zs)

-- What is less than a list is less than one that is not less than that.
less_below : (xs ys zs : List ℕ) → less xs ys ≡ true → less zs ys ≡ false → less xs zs ≡ true
unfolding less
less_below [] [] zs h k = cc
less_below [] (y ∷ ys) [] h k = cc
less_below [] (y ∷ ys) (z ∷ zs) h k = refl
less_below (x ∷ xs) [] zs h k = cc
less_below (x ∷ xs) (y ∷ ys) [] h k = cc
less_below (x ∷ xs) (y ∷ ys) (z ∷ zs) h k = ground (arith, less_below xs ys zs)

-- The candidate stands in the list, is preferred to each before it, and no later one to it.
abbrev pub IsFirstBest :
    NegotiationPreference → List NativeStreamCandidate → NativeStreamCandidate → Type 0
IsFirstBest p cs c =
    (before : List NativeStreamCandidate) × (after : List NativeStreamCandidate) × (cs
      ≡ before ++ c ∷ after)
    × All (λ d. ranks_before p c d ≡ true) before
    × All (λ d. ranks_before p d c ≡ false) after

module _ (p : NegotiationPreference) where
  before_trans :
      (a b c : NativeStreamCandidate)
      → ranks_before p a b ≡ true
      → ranks_before p b c ≡ true
      → ranks_before p a c ≡ true
  unfolding ranks_before
  before_trans a b c = less-less (candidate_rank p a) (candidate_rank p b) (candidate_rank p c)

  before_below :
      (a c d : NativeStreamCandidate)
      → ranks_before p a c ≡ true
      → ranks_before p d c ≡ false
      → ranks_before p a d ≡ true
  unfolding ranks_before
  before_below a c d = less_below (candidate_rank p a) (candidate_rank p c) (candidate_rank p d)

  min_from-other :
      (c d : NativeStreamCandidate) (rest : List NativeStreamCandidate)
      → ranks_before p d c ≡ true
      → min_from p c (d ∷ rest) ≡ min_from p d rest
  unfolding min_from
  min_from-other c d rest h = ap (λ b. if b then min_from p d rest else min_from p c rest) h

  min_from-same :
      (c d : NativeStreamCandidate) (rest : List NativeStreamCandidate)
      → ranks_before p d c ≡ false
      → min_from p c (d ∷ rest) ≡ min_from p c rest
  unfolding min_from
  min_from-same c d rest h = ap (λ b. if b then min_from p d rest else min_from p c rest) h

  min_from-nil : (c : NativeStreamCandidate) → min_from p c [] ≡ c
  unfolding min_from
  min_from-nil c = refl

  -- The element that the loop ends with is the first one, or a better one.
  abbrev Ends : NativeStreamCandidate → List NativeStreamCandidate → NativeStreamCandidate → Type 0
  Ends c cs b =
      ((b ≡ c) × All (λ d. ranks_before p d c ≡ false) cs)
      ⊎ ((ranks_before p b c ≡ true) × IsFirstBest p cs b)

  min_from-Ends :
      (c : NativeStreamCandidate) (cs : List NativeStreamCandidate) → Ends c cs (min_from p c cs)
  min_from-Ends c [] = inl (min_from-nil c, tt)
  min_from-Ends c (d ∷ rest) = elim (Bool-cases (ranks_before p d c)) [
    | inl a ↦
        subst (Ends c (d ∷ rest)) (sym (min_from-other c d rest a))
          (taken (min_from p d rest) a (min_from-Ends d rest))
    | inr a ↦
        subst (Ends c (d ∷ rest)) (sym (min_from-same c d rest a))
          (kept (min_from p c rest) a (min_from-Ends c rest))
  ]
    where
      taken :
          (b : NativeStreamCandidate)
          → ranks_before p d c ≡ true
          → Ends d rest b
          → Ends c (d ∷ rest) b
      taken b a (inl (e, h)) = inr (
        subst (λ x. ranks_before p x c ≡ true) (sym e) a,
        (
          [],
          rest,
          ap (λ x. x ∷ rest) (sym e),
          tt,
          subst (λ x. All (λ y. ranks_before p y x ≡ false) rest) (sym e) h,
        ),
      )
      taken b a (inr (l, (before, after, e, x, y))) =
          inr (before_trans b d c l a, (d ∷ before, after, ap (λ z. d ∷ z) e, (l, x), y))

      kept :
          (b : NativeStreamCandidate)
          → ranks_before p d c ≡ false
          → Ends c rest b
          → Ends c (d ∷ rest) b
      kept b a (inl (e, h)) = inl (e, (a, h))
      kept b a (inr (l, (before, after, e, x, y))) =
          inr (l, (d ∷ before, after, ap (λ z. d ∷ z) e, (before_below b c d l a, x), y))

abbrev pub IsFirstOf :
    NegotiationPreference
    → List NativeStreamCandidate
    → Result NegotiationError NativeStreamConfig
    → Type 0
IsFirstOf p cs (err e) = cs ≡ []
IsFirstOf p cs (ok config) = (c : NativeStreamCandidate) × (c.config ≡ config) × IsFirstBest p cs c

-- No format is chosen only when there is no candidate; otherwise the chosen one is that of a candidate
-- that is preferred to each before it, and to which none after it is preferred.
pub negotiate-IsFirst :
    (p : NegotiationPreference) (cs : List NativeStreamCandidate)
    → IsFirstOf p cs (negotiate_native_format cs p)
unfolding negotiate_native_format
negotiate-IsFirst p [] = refl
negotiate-IsFirst p (c ∷ rest) =
    (min_from p c rest, refl, first (min_from p c rest) (min_from-Ends p c rest))
  where
    first : (b : NativeStreamCandidate) → Ends p c rest b → IsFirstBest p (c ∷ rest) b
    first b (inl (e, h)) = (
      [],
      rest,
      ap (λ x. x ∷ rest) (sym e),
      tt,
      subst (λ x. All (λ y. ranks_before p y x ≡ false) rest) (sym e) h,
    )
    first b (inr (l, (before, after, e, x, y))) = (c ∷ before, after, ap (λ z. c ∷ z) e, (l, x), y)
