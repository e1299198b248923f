-- ===== src/Text.antt =====
-- Text as the list of its characters' code points, with what the program asks of `str`.
use speakeasy_granite_rust_m.Base.{
  ℕ, ◌+◌, ◌-◌, Bool, true, false, ◌&&◌, ◌||◌, Option, none, some, List, [], ◌∷◌, ◌++◌, leb, ◌==◌,
  if◌then◌else◌,
}
pub mod Words
pub mod Equal

abbrev pub Text : Type 0
Text = List ℕ

-- `char::is_whitespace`: the code points with the property White_Space.
unfoldable pub is_whitespace : ℕ → Bool
is_whitespace c =
    (leb 0x9 c && leb c 0xd)
    || c == 0x20
    || c == 0x85
    || c == 0xa0
    || c == 0x1680
    || (leb 0x2000 c && leb c 0x200a)
    || c == 0x2028
    || c == 0x2029
    || c == 0x202f
    || c == 0x205f
    || c == 0x3000

-- `trim().is_empty()`.
unfoldable pub is_blank : Text → Bool
is_blank [] = true
is_blank (c ∷ s) = is_whitespace c && is_blank s

-- The word read so far goes out, if there is one.
abbrev pub flush : Text → List Text → List Text
flush [] words = words
flush (c ∷ cur) words = (c ∷ cur) ∷ words

-- The words of the text, with `cur` read of the first one.
unfoldable pub words_from : Text → Text → List Text
words_from cur [] = flush cur []
words_from cur (c ∷ s) =
    let stop = words_from [] s in
    let more = words_from (cur ++ c ∷ []) s in if is_whitespace c then flush cur stop else more

-- `split_whitespace`.
unfoldable pub split_whitespace : Text → List Text
unfolding words_from
split_whitespace s = words_from [] s

-- `join(" ")`.
unfoldable pub join_words : List Text → Text
join_words [] = []
join_words (w ∷ []) = w
join_words (w ∷ v ∷ ws) = w ++ 0x20 ∷ join_words (v ∷ ws)

-- `==` on texts.
unfoldable pub text_eq : Text → Text → Bool
text_eq [] [] = true
text_eq [] (d ∷ t) = false
text_eq (c ∷ s) [] = false
text_eq (c ∷ s) (d ∷ t) = c == d && text_eq s t

-- `contains` of a character.
unfoldable pub has_char : ℕ → Text → Bool
has_char c [] = false
has_char c (d ∷ s) = d == c || has_char c s

-- `contains` of a set of texts.
unfoldable pub contains_text : List Text → Text → Bool
unfolding text_eq
contains_text [] t = false
contains_text (s ∷ ss) t = text_eq s t || contains_text ss t

-- `strip_prefix`.
unfoldable pub strip_prefix : Text → Text → Option Text
strip_prefix [] s = some s
strip_prefix (c ∷ p) [] = none
strip_prefix (c ∷ p) (d ∷ s) = let rest = strip_prefix p s in if c == d then rest else none

-- `is_empty`.
abbrev pub is_empty_text : Text → Bool
is_empty_text [] = true
is_empty_text (c ∷ s) = false

-- The ASCII letters of the other case.
abbrev pub ascii_upper : ℕ → ℕ
ascii_upper c = if leb 0x61 c && leb c 0x7a then c - 32 else c

abbrev pub ascii_lower : ℕ → ℕ
ascii_lower c = if leb 0x41 c && leb c 0x5a then c + 32 else c
