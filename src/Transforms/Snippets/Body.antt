-- ===== src/Transforms/Snippets/Body.antt =====
-- The bodies that a set accepts are inert text.
use speakeasy_granite_rust_m.Base.{
  ◌≤◌, Bool, true, false, ◌&&◌, ◌||◌, List, [], ◌∷◌, ◌≡◌, refl, sym, ◌∙◌, arith, if◌then◌else◌,
  Result, ok, err, ◌>>=◌, Bool-cases, inl, inr, ltb, All,
}
use speakeasy_granite_rust_m.Text.{Text, is_blank, contains_text, is_empty_text}
use speakeasy_granite_rust_m.Transforms.Snippets.{
  Snippet, SnippetError, invalid_body, collision, forbidden_placeholder, Normalizer, valid_name,
  validate_body, normalized, check_all, has_text, forbidden, find_marker, refuse_marker,
  has_bad_character, max_body_bytes, byte_length,
}

-- A text that is not empty, of at most 64 KiB, and has no marker of an action, in any case.
abbrev pub IsInert : Normalizer → Text → Type 0
IsInert u body =
    (is_empty_text body ≡ false)
    × (byte_length body ≤ 65536)
    × (has_bad_character body ≡ false)
    × All (λ marker. has_text marker (u.to_lowercase body) ≡ false) forbidden

no_marker :
    (lower : Text) (markers : List Text)
    → refuse_marker (find_marker lower markers) ≡ ok tt
    → All (λ marker. has_text marker lower ≡ false) markers
no_marker lower [] h = tt
no_marker lower (m ∷ rest) h = elim (Bool-cases (has_text m lower)) [
  | inl a ↦
      let z : refuse_marker (find_marker lower (m ∷ rest)) ≡ err (forbidden_placeholder m) = rw a in
      cc
  | inr a ↦
      let z : refuse_marker (find_marker lower (m ∷ rest))
          ≡ refuse_marker (find_marker lower rest) =
        rw a in
      (a, no_marker lower rest (sym z ∙ h))
]

validate_body-IsInert :
    (u : Normalizer) (body : Text) → validate_body u body ≡ ok tt → IsInert u body
unfolding validate_body
validate_body-IsInert u body h =
    elim (Bool-cases
      (is_empty_text body || ltb max_body_bytes (byte_length body) || has_bad_character body)) [
        | inl a ↦ let z : validate_body u body ≡ err invalid_body = rw a in cc
        | inr a ↦
            let z : validate_body u body
                ≡ refuse_marker (find_marker (u.to_lowercase body) forbidden) =
              rw a in
            (
              ground arith,
              ground arith,
              ground arith,
              no_marker (u.to_lowercase body) forbidden (sym z ∙ h),
            )
      ]

abbrev pub IsInertSnippet : Normalizer → Snippet → Type 0
IsInertSnippet u s = IsInert u s.body

abbrev pub AreInert : Normalizer → Result SnippetError (List Snippet) → Type 0
AreInert u (err e) = Unit
AreInert u (ok ys) = All (IsInertSnippet u) ys

pub check_all-AreInert :
    (u : Normalizer) (ids names : List Text) (xs : List Snippet)
    → AreInert u (check_all u ids names xs)
unfolding check_all
check_all-AreInert u ids names [] = tt
check_all-AreInert u ids names (s ∷ rest) =
    elim (Bool-cases (
      is_blank (u.nfc s.id)
      || ltb 128 (byte_length (u.nfc s.id))
      || contains_text ids (u.nfc s.id))) [
        | inl a ↦ rw a tt
        | inr a ↦ elim (Bool-cases (valid_name (u.nfc s.name))) [
          | inr b ↦ rw (a, b) tt
          | inl b ↦
              rw (a, b)
                (body (λ t. check_all-AreInert u (u.nfc s.id ∷ ids) t rest)
                  (validate_body u (u.nfc s.body)) refl)
        ]
      ]
  where
    key : Text
    key = u.to_lowercase (u.nfc s.name)

    push :
        (r : Result SnippetError (List Snippet))
        → IsInert u (u.nfc s.body)
        → AreInert u r
        → AreInert u (r >>= λ checked. ok (normalized u s ∷ checked))
    push (err e) i d = tt
    push (ok ys) i d = (i, d)

    chosen :
        (b c : Bool)
        → ((t : List Text) → AreInert u (check_all u (u.nfc s.id ∷ ids) t rest))
        → AreInert u (
            if b && c
            then err (collision key)
            else if b
            then check_all u (u.nfc s.id ∷ ids) (key ∷ names) rest
            else check_all u (u.nfc s.id ∷ ids) names rest)
    chosen true true below = tt
    chosen true false below = below (key ∷ names)
    chosen false c below = below names

    body :
        ((t : List Text) → AreInert u (check_all u (u.nfc s.id ∷ ids) t rest))
        → (r : Result SnippetError (Unit {0})) → validate_body u (u.nfc s.body) ≡ r
        → AreInert u (
            r >>= λ _.
            (if s.enabled && contains_text names key
              then err (collision key)
              else if s.enabled
              then check_all u (u.nfc s.id ∷ ids) (key ∷ names) rest
              else check_all u (u.nfc s.id ∷ ids) names rest)
            >>= λ checked. ok (normalized u s ∷ checked))
    body below (err e) q = tt
    body below (ok _) q =
        push
          (if s.enabled && contains_text names key
            then err (collision key)
            else if s.enabled
            then check_all u (u.nfc s.id ∷ ids) (key ∷ names) rest
            else check_all u (u.nfc s.id ∷ ids) names rest)
          (validate_body-IsInert u (u.nfc s.body) q)
          (chosen s.enabled (contains_text names key) below)
