-- ===== src/Transforms/Snippets/Reachable.antt =====
-- Every enabled snippet of a set is expanded when it is called by its name.
use mathlib.Core.Path.{subst}
use speakeasy_granite_rust_m.Base.{
  true, false, some, List, [], ◌∷◌, ◌++◌, ◌≡◌, sym, ap, ◌∙◌, Result, ok, err, ◌>>=◌, Bool-cases,
  inl, inr, ltb, length,
}
use speakeasy_granite_rust_m.Text.{Text, strip_prefix}
use speakeasy_granite_rust_m.Transforms.Snippets.{
  Snippet, SnippetError, SnippetSet, expanded, too_many, Normalizer, valid_name, normalized,
  check_all, sort_by_name, matching, new, trim, snippet_prefix, literal_prefix, resolution,
  resolve_name, resolve_final, resolve, eq_ignore_ascii_case, max_snippets, cancel_name,
}
use speakeasy_granite_rust_m.Transforms.Snippets.Names.{
  is_ascii, is_ascii-call, trim-name, trim-call,
}
use speakeasy_granite_rust_m.Transforms.Snippets.Matching.{sort-one}
use speakeasy_granite_rust_m.Transforms.Snippets.Unique.{
  IsChecked, check_all-IsChecked, only_match, name_valid,
}

module _ (u : Normalizer) (before : List Snippet) (s : Snippet) (after : List Snippet) where
  -- What a set that was made from the snippets has.
  abbrev HasIt : SnippetSet → Type 0
  HasIt set =
      (valid_name (u.nfc s.name) ≡ true)
      × (matching (u.nfc s.name) set.snippets ≡ normalized u s ∷ [])

  made :
      (set : SnippetSet) (r : Result SnippetError (List Snippet))
      → s.enabled ≡ true
      → IsChecked u [] (before ++ s ∷ after) r
      → (r >>= λ checked. ok (record { snippets = sort_by_name checked })) ≡ ok set
      → HasIt set
  made set (err x) e d h = cc
  made set (ok ys) e (q, g) h =
      let m = ap (matching (u.nfc s.name)) q ∙ only_match u [] before s after e g in
      let z : record { snippets = sort_by_name ys } ≡ set = cc in
      subst HasIt z
        (name_valid u [] before s after e g, sort-one (u.nfc s.name) (normalized u s) ys m)

  new-HasIt :
      (set : SnippetSet) → s.enabled ≡ true → new u (before ++ s ∷ after) ≡ ok set → HasIt set
  unfolding new
  new-HasIt set e h = elim (Bool-cases (ltb max_snippets (length (before ++ s ∷ after)))) [
    | inl a ↦ let z : new u (before ++ s ∷ after) ≡ err too_many = rw a in cc
    | inr a ↦
        let z : new u (before ++ s ∷ after) ≡ (
            check_all u [] [] (before ++ s ∷ after) >>= λ checked.
            ok (record { snippets = sort_by_name checked })) =
          rw a in
        made set (check_all u [] [] (before ++ s ∷ after)) e
          (check_all-IsChecked u [] [] (before ++ s ∷ after)) (sym z ∙ h)
  ]

  -- An enabled snippet of a list that is accepted, unless it is named `cancel`, is what the finished
  -- utterance of the word `snippet` and its name is replaced with, outside the literal mode. NFC
  -- changes no ASCII text.
  pub new-resolve :
      (set : SnippetSet)
      → ((t : Text) → is_ascii t ≡ true → u.nfc t ≡ t)
      → s.enabled ≡ true
      → eq_ignore_ascii_case (u.nfc s.name) cancel_name ≡ false
      → new u (before ++ s ∷ after) ≡ ok set
      → resolve u set (snippet_prefix ++ u.nfc s.name) true false
        ≡ resolution (u.nfc s.body) expanded (some (u.nfc s.id))
  unfolding resolve
  new-resolve set stable e c h =
      let (v, m) = new-HasIt set e h in
      let call = snippet_prefix ++ u.nfc s.name in
      let a = stable call (is_ascii-call (u.nfc s.name) v) in
      ap (λ t. resolve_final set t (trim t) false (strip_prefix literal_prefix (trim t))) a
      ∙ ap (λ t. resolve_final set call t false (strip_prefix literal_prefix t))
          (trim-call (u.nfc s.name) v)
      ∙ ap (resolve_name set call) (trim-name (u.nfc s.name) v)
      ∙ rw (c, v, m)
