-- ===== src/Transforms/Snippets/Unique.antt =====
-- A set has one enabled snippet for each name.
use mathlib.Core.Path.{subst}
use speakeasy_granite_rust_m.Base.{
  Bool, true, false, ◌&&◌, ◌||◌, List, [], ◌∷◌, ◌++◌, map, ◌≡◌, ◌≢◌, refl, sym, ap, ◌∙◌, arith,
  if◌then◌else◌, Result, ok, err, ◌>>=◌, Bool-cases, inl, inr, ltb,
}
use speakeasy_granite_rust_m.Text.{Text, is_blank, contains_text}
use speakeasy_granite_rust_m.Text.Equal.{Fresh, contains_text-false}
use speakeasy_granite_rust_m.Transforms.Snippets.{
  Snippet, SnippetError, Normalizer, valid_name, validate_body, normalized, collision, check_all,
  matches, matching, byte_length, eq_ignore_ascii_case,
}
use speakeasy_granite_rust_m.Transforms.Snippets.Names.{same_name, eq_ignore_ascii_case_refl}
use speakeasy_granite_rust_m.Transforms.Snippets.Matching.{matching-meets, matching-misses}

abbrev key_of : Normalizer → Snippet → Text
key_of u s = u.to_lowercase (u.nfc s.name)

-- The names taken, after `s`.
abbrev taken : Normalizer → List Text → Snippet → List Text
taken u names s = if s.enabled then key_of u s ∷ names else names

taken_split :
    (b : Bool) (k t : Text) (names : List Text)
    → Fresh (if b then k ∷ names else names) t
    → Fresh names t × (b ≡ true → k ≢ t)
taken_split true k t names (p, q) = (q, λ _. p)
taken_split false k t names h = (h, λ e. cc)

-- All names are valid, and no enabled one is taken.
abbrev pub IsGood : Normalizer → List Text → List Snippet → Type 0
IsGood u names [] = Unit
IsGood u names (s ∷ rest) =
    (valid_name (u.nfc s.name) ≡ true)
    × (s.enabled ≡ true → Fresh names (key_of u s))
    × IsGood u (taken u names s) rest

abbrev pub IsChecked :
    Normalizer → List Text → List Snippet → Result SnippetError (List Snippet) → Type 0
IsChecked u names xs (err e) = Unit
IsChecked u names xs (ok ys) = (ys ≡ map (normalized u) xs) × IsGood u names xs

module _ (u : Normalizer) where
  IsChecked-rest :
      (names : List Text) (s : Snippet) (rest : List Snippet)
      → valid_name (u.nfc s.name) ≡ true
      → (s.enabled ≡ true → Fresh names (key_of u s))
      → (r : Result SnippetError (List Snippet)) → IsChecked u (taken u names s) rest r
      → IsChecked u names (s ∷ rest) (r >>= λ checked. ok (normalized u s ∷ checked))
  IsChecked-rest names s rest v f (err e) d = tt
  IsChecked-rest names s rest v f (ok ys) (e, g) = (ap (λ z. normalized u s ∷ z) e, (v, f, g))

  pub check_all-IsChecked :
      (ids names : List Text) (xs : List Snippet) → IsChecked u names xs (check_all u ids names xs)
  unfolding check_all
  check_all-IsChecked ids names [] = (refl, tt)
  check_all-IsChecked ids names (s ∷ rest) =
      elim (Bool-cases (
        is_blank (u.nfc s.id)
        || ltb 128 (byte_length (u.nfc s.id))
        || contains_text ids (u.nfc s.id))) [
          | inl a ↦ rw a tt
          | inr a ↦ elim (Bool-cases (valid_name (u.nfc s.name))) [
            | inr b ↦ rw (a, b) tt
            | inl b ↦
                rw (a, b)
                  (body (λ t. check_all-IsChecked (u.nfc s.id ∷ ids) t rest) b
                    (validate_body u (u.nfc s.body)))
          ]
        ]
    where
      taken-on : s.enabled ≡ true → taken u names s ≡ key_of u s ∷ names
      taken-on c = rw c

      taken-off : s.enabled ≡ false → taken u names s ≡ names
      taken-off c = rw c

      step :
          {x : Result SnippetError (List Snippet)}
          → valid_name (u.nfc s.name) ≡ true
          → (s.enabled ≡ true → Fresh names (key_of u s))
          → (r : Result SnippetError (List Snippet)) → x ≡ r
          → IsChecked u (taken u names s) rest r
          → IsChecked u names (s ∷ rest) (x >>= λ checked. ok (normalized u s ∷ checked))
      step v f r q d =
          subst (λ y. IsChecked u names (s ∷ rest) (y >>= λ checked. ok (normalized u s ∷ checked)))
            (sym q) (IsChecked-rest names s rest v f r d)

      body :
          ((t : List Text) → IsChecked u t rest (check_all u (u.nfc s.id ∷ ids) t rest))
          → valid_name (u.nfc s.name) ≡ true
          → (r : Result SnippetError (Unit {0}))
          → IsChecked u names (s ∷ rest) (
              r >>= λ _.
              (if s.enabled && contains_text names (key_of u s)
                then err (collision (key_of u s))
                else if s.enabled
                then check_all u (u.nfc s.id ∷ ids) (key_of u s ∷ names) rest
                else check_all u (u.nfc s.id ∷ ids) names rest)
              >>= λ checked. ok (normalized u s ∷ checked))
      body below v (err e) = tt
      body below v (ok _) = elim (Bool-cases s.enabled) [
        | inr c ↦
            step v (λ e. cc) (check_all u (u.nfc s.id ∷ ids) names rest) (rw c)
              (subst (λ t. IsChecked u t rest (check_all u (u.nfc s.id ∷ ids) names rest))
                (sym (taken-off c)) (below names))
        | inl c ↦ elim (Bool-cases (contains_text names (key_of u s))) [
          | inl d ↦ rw (c, d) tt
          | inr d ↦
              step v (λ e. contains_text-false names (key_of u s) d)
                (check_all u (u.nfc s.id ∷ ids) (key_of u s ∷ names) rest) (rw (c, d))
                (subst
                  (λ t.
                    IsChecked u t rest (check_all u (u.nfc s.id ∷ ids) (key_of u s ∷ names) rest))
                  (sym (taken-on c)) (below (key_of u s ∷ names)))
        ]
      ]

  stays_good :
      (names : List Text) (xs : List Snippet) (s : Snippet) (after : List Snippet)
      → s.enabled ≡ true
      → IsGood u names (xs ++ s ∷ after)
      → (valid_name (u.nfc s.name) ≡ true) × Fresh names (key_of u s)
  stays_good names [] s after e (v, f, g) = (v, f e)
  stays_good names (x ∷ xs) s after e (v, f, g) =
      let (w, h) = stays_good (taken u names x) xs s after e g in
      (w, (taken_split x.enabled (key_of u x) (key_of u s) names h).0)

  -- A match is enabled, and has the name.
  match_lem :
      (n : Text) (x : Snippet)
      → valid_name n ≡ true
      → valid_name (u.nfc x.name) ≡ true
      → matches n (normalized u x) ≡ true
      → (x.enabled ≡ true) × (key_of u x ≡ u.to_lowercase n)
  match_lem n x v w h =
      let a : eq_ignore_ascii_case (u.nfc x.name) n ≡ true = ground arith in
      (ground arith, ap u.to_lowercase (same_name (u.nfc x.name) n w v a))

  after_none :
      (names : List Text) (n : Text) (xs : List Snippet)
      → valid_name n ≡ true
      → ¬ (Fresh names (u.to_lowercase n))
      → IsGood u names xs
      → matching n (map (normalized u) xs) ≡ []
  after_none names n [] v t g = refl
  after_none names n (x ∷ xs) v t (w, f, g) = elim (Bool-cases (matches n (normalized u x))) [
    | inl c ↦ let (e, k) = match_lem n x v w c in elim (t (subst (Fresh names) k (f e))) [ ]
    | inr c ↦
        matching-misses n (normalized u x) (map (normalized u) xs) c
        ∙ after_none (taken u names x) n xs v
            (λ h. t (taken_split x.enabled (key_of u x) (u.to_lowercase n) names h).0) g
  ]

  -- Only the snippet itself has its name.
  pub only_match :
      (names : List Text) (xs : List Snippet) (s : Snippet) (after : List Snippet)
      → s.enabled ≡ true
      → IsGood u names (xs ++ s ∷ after)
      → matching (u.nfc s.name) (map (normalized u) (xs ++ s ∷ after)) ≡ normalized u s ∷ []
  only_match names [] s after e (v, f, g) =
      let m : matches (u.nfc s.name) (normalized u s) ≡ true =
        ground (arith, eq_ignore_ascii_case_refl (u.nfc s.name)) in
      matching-meets (u.nfc s.name) (normalized u s) (map (normalized u) after) m
      ∙ ap (λ z. normalized u s ∷ z)
          (after_none (taken u names s) (u.nfc s.name) after v
            (λ h. (taken_split s.enabled (key_of u s) (key_of u s) names h).1 e refl) g)
  only_match names (x ∷ xs) s after e (w, f, g) =
      let (v, h) = stays_good (taken u names x) xs s after e g in
      elim (Bool-cases (matches (u.nfc s.name) (normalized u x))) [
        | inl c ↦
            let (y, k) = match_lem (u.nfc s.name) x v w c in
            elim ((taken_split x.enabled (key_of u x) (key_of u s) names h).1 y k) [ ]
        | inr c ↦
            matching-misses (u.nfc s.name) (normalized u x) (map (normalized u) (xs ++ s ∷ after)) c
            ∙ only_match (taken u names x) xs s after e g
      ]

  -- The name that `s` is called by is a valid one.
  pub name_valid :
      (names : List Text) (xs : List Snippet) (s : Snippet) (after : List Snippet)
      → s.enabled ≡ true
      → IsGood u names (xs ++ s ∷ after)
      → valid_name (u.nfc s.name) ≡ true
  name_valid names xs s after e g = (stays_good names xs s after e g).0
