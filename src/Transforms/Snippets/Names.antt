-- ===== src/Transforms/Snippets/Names.antt =====
-- Valid names: they are in lower case, and nothing is trimmed off them.
use speakeasy_granite_rust_m.Base.{
  ℕ, Bool, true, false, ◌&&◌, ◌||◌, [], ◌∷◌, ◌++◌, map, ◌≡◌, refl, sym, ◌∙◌, arith, ltb, ◌==◌,
}
use speakeasy_granite_rust_m.Text.{Text, is_blank, is_whitespace, ascii_lower}
use speakeasy_granite_rust_m.Text.Equal.{text_eq-true, text_eq_refl}
use speakeasy_granite_rust_m.Transforms.Snippets.{
  is_lowercase_or_digit, all_name_characters, valid_name, trim_end, trim, eq_ignore_ascii_case,
  snippet_prefix,
}

-- Characters of names.
abbrev IsNameCharacter : ℕ → Type 0
IsNameCharacter c = (is_lowercase_or_digit c || c == 0x2d || c == 0x5f) ≡ true

abbrev pub is_ascii : Text → Bool
is_ascii [] = true
is_ascii (c ∷ s) = ltb c 0x80 && is_ascii s

ascii_lower-name : (c : ℕ) → IsNameCharacter c → ascii_lower c ≡ c
ascii_lower-name c h = ground arith

is_whitespace-name : (c : ℕ) → IsNameCharacter c → is_whitespace c ≡ false
unfolding is_whitespace
is_whitespace-name c h = ground arith

all_lower : (s : Text) → all_name_characters s ≡ true → map ascii_lower s ≡ s
all_lower [] h = refl
all_lower (c ∷ s) h =
    let a = ascii_lower-name c (ground arith) in let b = all_lower s (ground arith) in rw (a, b)

all_ascii : (s : Text) → all_name_characters s ≡ true → is_ascii s ≡ true
all_ascii [] h = refl
all_ascii (c ∷ s) h =
    let b = all_ascii s (ground arith) in let a : ltb c 0x80 ≡ true = ground arith in rw (a, b)

trim_end-all : (s : Text) → all_name_characters s ≡ true → trim_end s ≡ s
unfolding is_blank
trim_end-all [] h = refl
trim_end-all (c ∷ s) h =
    let a = is_whitespace-name c (ground arith) in
    let b = trim_end-all s (ground arith) in rw (a, b)

-- All characters of a valid name are characters of names.
valid_name-all : (s : Text) → valid_name s ≡ true → all_name_characters s ≡ true
unfolding valid_name
valid_name-all [] h = refl
valid_name-all (c ∷ s) h = ground arith

-- Names that match are equal.
pub same_name :
    (s t : Text)
    → valid_name s ≡ true
    → valid_name t ≡ true
    → eq_ignore_ascii_case s t ≡ true
    → s ≡ t
unfolding eq_ignore_ascii_case
same_name s t h k e =
    sym (all_lower s (valid_name-all s h))
    ∙ text_eq-true (map ascii_lower s) (map ascii_lower t) e
    ∙ all_lower t (valid_name-all t k)

pub eq_ignore_ascii_case_refl : (s : Text) → eq_ignore_ascii_case s s ≡ true
unfolding eq_ignore_ascii_case
eq_ignore_ascii_case_refl s = text_eq_refl (map ascii_lower s)

-- A name is not trimmed, alone or behind the word.
pub trim-name : (s : Text) → valid_name s ≡ true → trim s ≡ s
unfolding trim valid_name
trim-name [] h = refl
trim-name (c ∷ s) h =
    let a = is_whitespace-name c (ground arith) in
    let b = trim_end-all (c ∷ s) (ground arith) in rw a b

pub trim-call : (s : Text) → valid_name s ≡ true → trim (snippet_prefix ++ s) ≡ snippet_prefix ++ s
unfolding trim valid_name is_blank is_whitespace
trim-call [] h = cc
trim-call (c ∷ s) h =
    let a = is_whitespace-name c (ground arith) in
    let b = trim_end-all s (ground arith) in rw (a, b)

pub is_ascii-call : (s : Text) → valid_name s ≡ true → is_ascii (snippet_prefix ++ s) ≡ true
is_ascii-call s h = all_ascii s (valid_name-all s h)
