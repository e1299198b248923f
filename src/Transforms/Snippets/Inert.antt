-- ===== src/Transforms/Snippets/Inert.antt =====
-- What is put in place of an utterance is inert text.
use mathlib.Core.Path.{subst}
use speakeasy_granite_rust_m.Base.{
  Bool, true, false, Option, none, some, List, [], ◌∷◌, ◌≡◌, refl, sym, ◌∙◌, Result, ok, err, ◌>>=◌,
  Bool-cases, inl, inr, ltb, length, All,
}
use speakeasy_granite_rust_m.Text.{Text, strip_prefix}
use speakeasy_granite_rust_m.Transforms.Snippets.{
  Snippet, SnippetError, SnippetSet, SnippetResolution, expanded, too_many, Normalizer, valid_name,
  check_all, insert_by_name, sort_by_name, text_leb, matches, matching, new, trim, resolve_matches,
  resolve_name, resolve_trigger, resolve_final, resolve, eq_ignore_ascii_case, max_snippets,
  cancel_name, literal_prefix, snippet_prefix,
}
use speakeasy_granite_rust_m.Transforms.Snippets.Body.{
  IsInert, IsInertSnippet, AreInert, check_all-AreInert,
}

module _ (u : Normalizer) where
  insert-All :
      (s : Snippet) (xs : List Snippet)
      → IsInertSnippet u s
      → All (IsInertSnippet u) xs
      → All (IsInertSnippet u) (insert_by_name s xs)
  insert-All s [] i h = (i, tt)
  insert-All s (x ∷ xs) i (p, h) = elim (Bool-cases (text_leb s.name x.name)) [
    | inl a ↦ rw a (i, (p, h))
    | inr a ↦ rw a (p, insert-All s xs i h)
  ]

  sort-All :
      (xs : List Snippet) → All (IsInertSnippet u) xs → All (IsInertSnippet u) (sort_by_name xs)
  sort-All [] h = tt
  sort-All (x ∷ xs) (p, h) = insert-All x (sort_by_name xs) p (sort-All xs h)

  matching-All :
      (n : Text) (xs : List Snippet)
      → All (IsInertSnippet u) xs
      → All (IsInertSnippet u) (matching n xs)
  matching-All n [] h = tt
  matching-All n (x ∷ xs) (p, h) = elim (Bool-cases (matches n x)) [
    | inl a ↦ rw a (p, matching-All n xs h)
    | inr a ↦ rw a (matching-All n xs h)
  ]

  new-All :
      (snippets : List Snippet) (set : SnippetSet)
      → new u snippets ≡ ok set
      → All (IsInertSnippet u) set.snippets
  unfolding new
  new-All snippets set h = elim (Bool-cases (ltb max_snippets (length snippets))) [
    | inl a ↦ let z : new u snippets ≡ err too_many = rw a in cc
    | inr a ↦
        let z : new u snippets ≡ (
            check_all u [] [] snippets >>= λ checked.
            ok (record { snippets = sort_by_name checked })) =
          rw a in
        made (check_all u [] [] snippets) (check_all-AreInert u [] [] snippets) (sym z ∙ h)
  ]
    where
      made :
          (r : Result SnippetError (List Snippet))
          → AreInert u r
          → (r >>= λ checked. ok (record { snippets = sort_by_name checked })) ≡ ok set
          → All (IsInertSnippet u) set.snippets
      made (err e) d q = cc
      made (ok ys) d q =
          let z : record { snippets = sort_by_name ys } ≡ set = cc in
          subst (λ k. All (IsInertSnippet u) k.snippets) z (sort-All ys d)

  -- If a resolution expanded a snippet, its text is inert.
  abbrev IsInertResult : SnippetResolution → Type 0
  IsInertResult r = r.disposition ≡ expanded → IsInert u r.text

  one_match :
      (text : Text) (xs : List Snippet)
      → All (IsInertSnippet u) xs
      → IsInertResult (resolve_matches text xs)
  one_match text [] h = λ e. cc
  one_match text (x ∷ []) (p, h) = λ e. p
  one_match text (x ∷ y ∷ xs) h = λ e. cc

  named :
      (set : SnippetSet) (text name : Text)
      → All (IsInertSnippet u) set.snippets
      → IsInertResult (resolve_name set text name)
  named set text name h = elim (Bool-cases (eq_ignore_ascii_case name cancel_name)) [
    | inl a ↦ rw a (λ e. cc)
    | inr a ↦ elim (Bool-cases (valid_name name)) [
      | inr b ↦ rw (a, b) (λ e. cc)
      | inl b ↦
          rw (a, b) (one_match text (matching name set.snippets) (matching-All name set.snippets h))
    ]
  ]

  -- A resolution that is not of the finished utterance, or in the literal mode, expands nothing.
  abbrev IsAllowed : Bool → Bool → SnippetResolution → Type 0
  IsAllowed final literal r =
      r.disposition ≡ expanded → (final ≡ true) × (literal ≡ false) × IsInert u r.text

  triggered :
      (set : SnippetSet) (text : Text) (literal : Bool) (o : Option Text)
      → All (IsInertSnippet u) set.snippets
      → IsAllowed true literal (resolve_trigger set text literal o)
  triggered set text literal none h = λ e. cc
  triggered set text true (some name) h = λ e. cc
  triggered set text false (some name) h = λ e. (refl, refl, named set text (trim name) h e)

  finished :
      (set : SnippetSet) (text trimmed : Text) (literal : Bool) (o : Option Text)
      → All (IsInertSnippet u) set.snippets
      → IsAllowed true literal (resolve_final set text trimmed literal o)
  finished set text trimmed literal (some name) h = λ e. cc
  finished set text trimmed literal none h =
      triggered set text literal (strip_prefix snippet_prefix trimmed) h

-- Whatever the snippets that were accepted and the input, only a finished utterance outside the
-- literal mode expands a snippet, and what it is replaced with is not empty, has at most 64 KiB, no
-- control characters but line breaks and tabs, and no marker of an action, in upper or lower case.
pub resolve-IsInert :
    (u : Normalizer) (snippets : List Snippet) (set : SnippetSet) (input : Text)
    (final literal : Bool)
    → new u snippets ≡ ok set
    → (resolve u set input final literal).disposition ≡ expanded
    → (final ≡ true) × (literal ≡ false) × IsInert u (resolve u set input final literal).text
unfolding resolve
resolve-IsInert u snippets set input false literal h = λ e. cc
resolve-IsInert u snippets set input true literal h =
    let t = trim (u.nfc input) in
    finished u set (u.nfc input) t literal (strip_prefix literal_prefix t)
      (new-All u snippets set h)
