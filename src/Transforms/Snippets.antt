-- ===== src/Transforms/Snippets.antt =====
-- crates/speakeasy-transforms/src/snippets.rs: snippets of text that are called by name. Texts are code
-- points. `nfc` of the package unicode-normalization and the tables of `to_lowercase` are parameters;
-- the other functions on `str` and `char` are written out.
use speakeasy_granite_rust_m.Base.{
  ℕ, ◌+◌, ◌*◌, Bool, true, false, not, ◌&&◌, ◌||◌, Option, none, some, List, [], ◌∷◌, ◌++◌, map,
  ltb, leb, ◌==◌, if◌then◌else◌, Result, ok, err, ◌>>=◌, length, is_some,
}
use speakeasy_granite_rust_m.Text.{
  Text, is_blank, is_whitespace, text_eq, contains_text, strip_prefix, is_empty_text, ascii_lower,
}
pub mod Names
pub mod Matching
pub mod Unique
pub mod Reachable
pub mod Body
pub mod Inert

pub record Snippet : Type 0 where
  pub id : Text
  pub name : Text
  pub body : Text
  pub enabled : Bool

pub data SnippetError : Type 0 where
  too_many invalid_id invalid_name invalid_body : SnippetError
  collision forbidden_placeholder : Text → SnippetError

pub data TriggerDisposition : Type 0 where
  not_triggered expanded escaped_literal cancelled ambiguous missing : TriggerDisposition
  deferred_partial disabled_in_literal_mode : TriggerDisposition

pub record SnippetResolution : Type 0 where
  pub text : Text
  pub disposition : TriggerDisposition
  pub snippet_id : Option Text

pub record SnippetSet : Type 0 where
  pub snippets : List Snippet

pub record Normalizer : Type 0 where
  pub nfc : Text → Text
  pub to_lowercase : Text → Text

-- `len`: the bytes of the text in UTF-8.
abbrev pub byte_length : Text → ℕ
byte_length [] = 0
byte_length (c ∷ s) =
    (if ltb c 0x80 then 1 else if ltb c 0x800 then 2 else if ltb c 0x10000 then 3 else 4)
    + byte_length s

-- `trim_end` and `trim`.
abbrev pub trim_end : Text → Text
trim_end [] = []
trim_end (c ∷ s) = let rest = c ∷ trim_end s in if is_blank (c ∷ s) then [] else rest

abbrev trim_start : Text → Text
trim_start [] = []
trim_start (c ∷ s) = let rest = trim_start s in if is_whitespace c then rest else c ∷ s

unfoldable pub trim : Text → Text
unfolding is_blank is_whitespace
trim s = trim_end (trim_start s)

-- `contains` of a text.
abbrev pub has_text : Text → Text → Bool
has_text part [] = is_empty_text part
has_text part (c ∷ s) = is_some (strip_prefix part (c ∷ s)) || has_text part s

-- `eq_ignore_ascii_case`.
unfoldable pub eq_ignore_ascii_case : Text → Text → Bool
unfolding text_eq
eq_ignore_ascii_case s t = text_eq (map ascii_lower s) (map ascii_lower t)

abbrev pub is_lowercase_or_digit : ℕ → Bool
is_lowercase_or_digit c = (leb 0x61 c && leb c 0x7a) || (leb 0x30 c && leb c 0x39)

abbrev pub all_name_characters : Text → Bool
all_name_characters [] = true
all_name_characters (c ∷ s) =
    (is_lowercase_or_digit c || c == 0x2d || c == 0x5f) && all_name_characters s

unfoldable pub valid_name : Text → Bool
valid_name [] = false
valid_name (c ∷ s) =
    is_lowercase_or_digit c && leb (byte_length (c ∷ s)) 64 && all_name_characters s

-- `is_control`: the characters of the category Cc.
abbrev is_control : ℕ → Bool
is_control c = leb c 0x1f || (leb 0x7f c && leb c 0x9f)

abbrev pub has_bad_character : Text → Bool
has_bad_character [] = false
has_bad_character (c ∷ s) =
    (c == 0 || (is_control c && not (c == 0x0a || c == 0x0d || c == 0x09))) || has_bad_character s

abbrev pub max_body_bytes : ℕ
max_body_bytes = 65536

abbrev pub max_snippets : ℕ
max_snippets = 256

-- The markers `${`, `{{`, `<cursor` and so on, in the order of the source.
abbrev pub forbidden : List Text
forbidden =
    (0x24 ∷ 0x7b ∷ [])
    ∷ (0x7b ∷ 0x7b ∷ [])
    ∷ (0x3c ∷ 0x63 ∷ 0x75 ∷ 0x72 ∷ 0x73 ∷ 0x6f ∷ 0x72 ∷ [])
    ∷ (0x3c ∷ 0x63 ∷ 0x61 ∷ 0x72 ∷ 0x65 ∷ 0x74 ∷ [])
    ∷ (0x3c ∷ 0x65 ∷ 0x6e ∷ 0x74 ∷ 0x65 ∷ 0x72 ∷ [])
    ∷ (0x3c ∷ 0x63 ∷ 0x6f ∷ 0x6d ∷ 0x6d ∷ 0x61 ∷ 0x6e ∷ 0x64 ∷ [])
    ∷ (0x3c ∷ 0x61 ∷ 0x63 ∷ 0x74 ∷ 0x69 ∷ 0x6f ∷ 0x6e ∷ [])
    ∷ (0x3c ∷ 0x6f ∷ 0x70 ∷ 0x65 ∷ 0x6e ∷ 0x5f ∷ 0x75 ∷ 0x72 ∷ 0x6c ∷ [])
    ∷ (0x3c ∷ 0x6c ∷ 0x61 ∷ 0x75 ∷ 0x6e ∷ 0x63 ∷ 0x68 ∷ [])
    ∷ (0x3c ∷ 0x6f ∷ 0x70 ∷ 0x65 ∷ 0x6e ∷ 0x5f ∷ 0x66 ∷ 0x69 ∷ 0x6c ∷ 0x65 ∷ [])
    ∷ (0x5b ∷ 0x5b ∷ 0x63 ∷ 0x75 ∷ 0x72 ∷ 0x73 ∷ 0x6f ∷ 0x72 ∷ [])
    ∷ (0x5b ∷ 0x5b ∷ 0x63 ∷ 0x61 ∷ 0x72 ∷ 0x65 ∷ 0x74 ∷ [])
    ∷ (0x5b ∷ 0x5b ∷ 0x65 ∷ 0x6e ∷ 0x74 ∷ 0x65 ∷ 0x72 ∷ [])
    ∷ (0x5b ∷ 0x5b ∷ 0x63 ∷ 0x6f ∷ 0x6d ∷ 0x6d ∷ 0x61 ∷ 0x6e ∷ 0x64 ∷ [])
    ∷ (0x5b ∷ 0x5b ∷ 0x61 ∷ 0x63 ∷ 0x74 ∷ 0x69 ∷ 0x6f ∷ 0x6e ∷ [])
    ∷ (0x5b ∷ 0x5b ∷ 0x6f ∷ 0x70 ∷ 0x65 ∷ 0x6e ∷ 0x5f ∷ 0x75 ∷ 0x72 ∷ 0x6c ∷ [])
    ∷ (0x5b ∷ 0x5b ∷ 0x6c ∷ 0x61 ∷ 0x75 ∷ 0x6e ∷ 0x63 ∷ 0x68 ∷ [])
    ∷ (0x5b ∷ 0x5b ∷ 0x6f ∷ 0x70 ∷ 0x65 ∷ 0x6e ∷ 0x5f ∷ 0x66 ∷ 0x69 ∷ 0x6c ∷ 0x65 ∷ [])
    ∷ []

abbrev pub find_marker : Text → List Text → Option Text
find_marker lower [] = none
find_marker lower (marker ∷ rest) =
    if has_text marker lower then some marker else find_marker lower rest

abbrev pub refuse_marker : Option Text → Result SnippetError (Unit {0})
refuse_marker none = ok tt
refuse_marker (some marker) = err (forbidden_placeholder marker)

unfoldable pub validate_body : Normalizer → Text → Result SnippetError (Unit {0})
unfolding strip_prefix
validate_body u body =
    if is_empty_text body || ltb max_body_bytes (byte_length body) || has_bad_character body
    then err invalid_body
    else refuse_marker (find_marker (u.to_lowercase body) forbidden)

abbrev pub normalized : Normalizer → Snippet → Snippet
normalized u s = record {
  id = u.nfc s.id;
  name = u.nfc s.name;
  body = u.nfc s.body;
  enabled = s.enabled;
}

-- The loop of `SnippetSet::new`, with the ids and the names of enabled snippets so far.
unfoldable pub check_all :
    Normalizer → List Text → List Text → List Snippet → Result SnippetError (List Snippet)
unfolding is_blank is_whitespace contains_text valid_name validate_body
check_all u ids names [] = ok []
check_all u ids names (s ∷ rest) = do
  let key = u.to_lowercase (u.nfc s.name)
  let below_enabled = check_all u (u.nfc s.id ∷ ids) (key ∷ names) rest
  let below_disabled = check_all u (u.nfc s.id ∷ ids) names rest
  (if is_blank (u.nfc s.id) || ltb 128 (byte_length (u.nfc s.id)) || contains_text ids (u.nfc s.id)
      then err invalid_id
      else if not (valid_name (u.nfc s.name))
      then err invalid_name
      else do
        _ ← validate_body u (u.nfc s.body)
        checked ←
            (if s.enabled && contains_text names key
              then err (collision key)
              else if s.enabled
              then below_enabled
              else below_disabled)
        ok (normalized u s ∷ checked))

-- `<=` on texts, by bytes, which in UTF-8 is by code points.
abbrev text_leb : Text → Text → Bool
text_leb [] t = true
text_leb (c ∷ s) [] = false
text_leb (c ∷ s) (d ∷ t) = ltb c d || (c == d && text_leb s t)

-- `sort_by` by name, which is stable.
abbrev pub insert_by_name : Snippet → List Snippet → List Snippet
insert_by_name s [] = s ∷ []
insert_by_name s (r ∷ rest) =
    let below = r ∷ insert_by_name s rest in if text_leb s.name r.name then s ∷ r ∷ rest else below

abbrev pub sort_by_name : List Snippet → List Snippet
sort_by_name [] = []
sort_by_name (s ∷ rest) = insert_by_name s (sort_by_name rest)

-- `SnippetSet::new`.
unfoldable pub new : Normalizer → List Snippet → Result SnippetError SnippetSet
unfolding check_all
new u snippets =
    if ltb max_snippets (length snippets)
    then err too_many
    else check_all u [] [] snippets >>= λ checked. ok (record { snippets = sort_by_name checked })

abbrev pub matches : Text → Snippet → Bool
matches name s = s.enabled && eq_ignore_ascii_case s.name name

abbrev pub matching : Text → List Snippet → List Snippet
matching name [] = []
matching name (s ∷ rest) = if matches name s then s ∷ matching name rest else matching name rest

abbrev pub resolution : Text → TriggerDisposition → Option Text → SnippetResolution
resolution text disposition snippet_id = record {
  text = text;
  disposition = disposition;
  snippet_id = snippet_id;
}

-- The last step: what the matching snippets are.
abbrev pub resolve_matches : Text → List Snippet → SnippetResolution
resolve_matches text (s ∷ []) = resolution s.body expanded (some s.id)
resolve_matches text [] = resolution text missing none
resolve_matches text _ = resolution text ambiguous none

abbrev pub cancel_name : Text
cancel_name = 0x63 ∷ 0x61 ∷ 0x6e ∷ 0x63 ∷ 0x65 ∷ 0x6c ∷ []

-- After the word `snippet`: `cancel`, or a name.
abbrev pub resolve_name : SnippetSet → Text → Text → SnippetResolution
resolve_name set text name =
    if eq_ignore_ascii_case name cancel_name
    then resolution [] cancelled none
    else if not (valid_name name)
    then resolution text ambiguous none
    else resolve_matches text (matching name set.snippets)

abbrev pub literal_prefix : Text
literal_prefix =
    0x6c ∷ 0x69 ∷ 0x74 ∷ 0x65 ∷ 0x72 ∷ 0x61 ∷ 0x6c ∷ 0x20 ∷ 0x73 ∷ 0x6e ∷ 0x69 ∷ 0x70 ∷ 0x70 ∷ 0x65
    ∷ 0x74 ∷ 0x20 ∷ []

abbrev pub snippet_prefix : Text
snippet_prefix = 0x73 ∷ 0x6e ∷ 0x69 ∷ 0x70 ∷ 0x70 ∷ 0x65 ∷ 0x74 ∷ 0x20 ∷ []

abbrev pub resolve_trigger : SnippetSet → Text → Bool → Option Text → SnippetResolution
resolve_trigger set text literal_mode none = resolution text not_triggered none
resolve_trigger set text literal_mode (some name) =
    if literal_mode
    then resolution text disabled_in_literal_mode none
    else resolve_name set text (trim name)

abbrev pub resolve_final : SnippetSet → Text → Text → Bool → Option Text → SnippetResolution
resolve_final set text trimmed literal_mode (some name) =
    resolution (snippet_prefix ++ trim name) escaped_literal none
resolve_final set text trimmed literal_mode none =
    resolve_trigger set text literal_mode (strip_prefix snippet_prefix trimmed)

-- `SnippetSet::resolve`.
unfoldable pub resolve : Normalizer → SnippetSet → Text → Bool → Bool → SnippetResolution
unfolding trim strip_prefix eq_ignore_ascii_case valid_name
resolve u set input utterance_final literal_mode =
    let text = u.nfc input in
    let trimmed = trim text in
    if not utterance_final
    then resolution text deferred_partial none
    else resolve_final set text trimmed literal_mode (strip_prefix literal_prefix trimmed)
