-- ===== src/Transforms/Snippets/Matching.antt =====
-- What matches a name, and that sorting keeps it.
use speakeasy_granite_rust_m.Base.{
  true, false, List, [], ◌∷◌, ◌≡◌, refl, sym, ap, ◌∙◌, Bool-cases, inl, inr,
}
use speakeasy_granite_rust_m.Text.{Text}
use speakeasy_granite_rust_m.Transforms.Snippets.{
  Snippet, insert_by_name, sort_by_name, text_leb, matches, matching,
}

pub matching-meets :
    (n : Text) (x : Snippet) (xs : List Snippet)
    → matches n x ≡ true
    → matching n (x ∷ xs) ≡ x ∷ matching n xs
matching-meets n x xs h = rw h

pub matching-misses :
    (n : Text) (x : Snippet) (xs : List Snippet)
    → matches n x ≡ false
    → matching n (x ∷ xs) ≡ matching n xs
matching-misses n x xs h = rw h

module _ (n : Text) where
  insert-misses :
      (s : Snippet) (xs : List Snippet)
      → matches n s ≡ false
      → matching n (insert_by_name s xs) ≡ matching n xs
  insert-misses s [] h = rw h
  insert-misses s (x ∷ xs) h = elim (Bool-cases (text_leb s.name x.name)) [
    | inl a ↦ rw (a, h)
    | inr a ↦ let b = insert-misses s xs h in rw (a, b)
  ]

  insert-meets :
      (s : Snippet) (xs : List Snippet)
      → matches n s ≡ true
      → matching n xs ≡ []
      → matching n (insert_by_name s xs) ≡ s ∷ []
  insert-meets s [] h e = rw h
  insert-meets s (x ∷ xs) h e = elim (Bool-cases (matches n x)) [
    | inl c ↦ let d = matching-meets n x xs c in cc
    | inr c ↦
        let f : matching n xs ≡ [] = sym (matching-misses n x xs c) ∙ e in
        elim (Bool-cases (text_leb s.name x.name)) [
          | inl a ↦ rw (a, h, c, f)
          | inr a ↦ let b = insert-meets s xs h f in rw (a, c, b)
        ]
  ]

  sort-none : (xs : List Snippet) → matching n xs ≡ [] → matching n (sort_by_name xs) ≡ []
  sort-none [] e = refl
  sort-none (x ∷ xs) e = elim (Bool-cases (matches n x)) [
    | inl c ↦ let d = matching-meets n x xs c in cc
    | inr c ↦
        insert-misses x (sort_by_name xs) c ∙ sort-none xs (sym (matching-misses n x xs c) ∙ e)
  ]

  -- Sorting keeps the one match.
  pub sort-one :
      (s : Snippet) (xs : List Snippet)
      → matching n xs ≡ s ∷ []
      → matching n (sort_by_name xs) ≡ s ∷ []
  sort-one s [] e = cc
  sort-one s (x ∷ xs) e = elim (Bool-cases (matches n x)) [
    | inl c ↦
        let d = sym (matching-meets n x xs c) ∙ e in
        let f : matching n xs ≡ [] = cc in
        let g : x ≡ s = cc in
        insert-meets x (sort_by_name xs) c (sort-none xs f) ∙ ap (λ y. y ∷ []) g
    | inr c ↦
        insert-misses x (sort_by_name xs) c ∙ sort-one s xs (sym (matching-misses n x xs c) ∙ e)
  ]
