-- ===== src/Text/Equal.antt =====
-- Equality of texts, and membership in a set of them.
use speakeasy_granite_rust_m.Base.{
  true, false, List, [], ◌∷◌, ◌≡◌, ◌≢◌, refl, sym, ap, ◌∙◌, arith, All, Bool-cases, inl, inr,
}
use speakeasy_granite_rust_m.Text.{Text, text_eq, contains_text}

pub text_eq-true : (s t : Text) → text_eq s t ≡ true → s ≡ t
unfolding text_eq
text_eq-true [] [] h = refl
text_eq-true [] (d ∷ t) h = cc
text_eq-true (c ∷ s) [] h = cc
text_eq-true (c ∷ s) (d ∷ t) h =
    let a : c ≡ d = ground arith in
    let b : text_eq s t ≡ true = ground arith in let e = text_eq-true s t b in rw (a, e)

pub text_eq_refl : (s : Text) → text_eq s s ≡ true
unfolding text_eq
text_eq_refl [] = refl
text_eq_refl (c ∷ s) = ground (arith, text_eq_refl s)

pub text_eq-false : (s t : Text) → text_eq s t ≡ false → s ≢ t
text_eq-false s t h e =
    let a : text_eq s t ≡ true = ap (λ x. text_eq s x) (sym e) ∙ text_eq_refl s in cc

abbrev pub Fresh : List Text → Text → Type 0
Fresh seen t = All (λ s. s ≢ t) seen

pub contains_text-true :
    (seen : List Text) (t : Text) → contains_text seen t ≡ true → ¬ (Fresh seen t)
unfolding contains_text
contains_text-true [] t h = cc
contains_text-true (s ∷ seen) t h = λ (p, q). elim (Bool-cases (text_eq s t)) [
  | inl a ↦ p (text_eq-true s t a)
  | inr a ↦ let b : contains_text seen t ≡ true = ground arith in contains_text-true seen t b q
]

pub contains_text-false :
    (seen : List Text) (t : Text) → contains_text seen t ≡ false → Fresh seen t
unfolding contains_text
contains_text-false [] t h = tt
contains_text-false (s ∷ seen) t h =
    let a : text_eq s t ≡ false = ground arith in
    let b : contains_text seen t ≡ false = ground arith in
    (text_eq-false s t a, contains_text-false seen t b)
