-- ===== src/Tests/Snippets.antt =====
-- Snippets at concrete inputs: crates/speakeasy-transforms/src/snippets.rs.
use speakeasy_granite_rust_m.Base.{◌≡◌, refl, true, false, none, some, [], ◌∷◌, ◌++◌, map, ok, err}
use speakeasy_granite_rust_m.Text.{Text, ascii_lower}
use speakeasy_granite_rust_m.Transforms.Snippets.{
  Snippet, SnippetSet, Normalizer, new, resolve, resolution, expanded, escaped_literal, cancelled,
  missing, deferred_partial, disabled_in_literal_mode, invalid_name, invalid_id, collision,
  forbidden_placeholder, snippet_prefix, literal_prefix, cancel_name, eq_ignore_ascii_case,
}
use speakeasy_granite_rust_m.Transforms.Snippets.Body.{IsInert}
use speakeasy_granite_rust_m.Transforms.Snippets.Reachable.{new-resolve}
use speakeasy_granite_rust_m.Transforms.Snippets.Inert.{resolve-IsInert}

-- On ASCII, NFC changes nothing.
abbrev ascii : Normalizer
ascii = record { nfc = λ t. t; to_lowercase = map ascii_lower }

-- `sig` and `bye`.
abbrev sig_name : Text
sig_name = 0x73 ∷ 0x69 ∷ 0x67 ∷ []

abbrev bye_name : Text
bye_name = 0x62 ∷ 0x79 ∷ 0x65 ∷ []

abbrev sig : Snippet
sig = record { id = 0x31 ∷ []; name = sig_name; body = 0x41 ∷ 0x64 ∷ 0x61 ∷ []; enabled = true }

abbrev bye : Snippet
bye = record { id = 0x32 ∷ []; name = bye_name; body = 0x42 ∷ 0x79 ∷ 0x65 ∷ []; enabled = true }

abbrev both : SnippetSet
both = record { snippets = bye ∷ sig ∷ [] }

sorted_by_name : new ascii (sig ∷ bye ∷ []) ≡ ok both
unfolding new
sorted_by_name = refl

one_name : new ascii (sig ∷ record bye { name = sig_name } ∷ []) ≡ err (collision sig_name)
unfolding new
one_name = refl

one_id : new ascii (sig ∷ record bye { id = sig.id } ∷ []) ≡ err invalid_id
unfolding new
one_id = refl

-- The body `A${`.
marked :
    new ascii (record sig { body = 0x41 ∷ 0x24 ∷ 0x7b ∷ [] } ∷ [])
    ≡ err (forbidden_placeholder (0x24 ∷ 0x7b ∷ []))
unfolding new
marked = refl

in_upper_case : new ascii (record sig { name = 0x53 ∷ [] } ∷ []) ≡ err invalid_name
unfolding new
in_upper_case = refl

partial :
    resolve ascii both (snippet_prefix ++ sig_name) false false
    ≡ resolution (snippet_prefix ++ sig_name) deferred_partial none
unfolding resolve
partial = refl

escaped :
    resolve ascii both (literal_prefix ++ sig_name) true false
    ≡ resolution (snippet_prefix ++ sig_name) escaped_literal none
unfolding resolve
escaped = refl

in_literal_mode :
    resolve ascii both (snippet_prefix ++ sig_name) true true
    ≡ resolution (snippet_prefix ++ sig_name) disabled_in_literal_mode none
unfolding resolve
in_literal_mode = refl

is_cancelled :
    resolve ascii both (snippet_prefix ++ cancel_name) true false ≡ resolution [] cancelled none
unfolding resolve
is_cancelled = refl

is_missing :
    resolve ascii both (snippet_prefix ++ 0x78 ∷ []) true false
    ≡ resolution (snippet_prefix ++ 0x78 ∷ []) missing none
unfolding resolve
is_missing = refl

by_name :
    resolve ascii both (snippet_prefix ++ sig_name) true false
    ≡ resolution sig.body expanded (some sig.id)
unfolding resolve
by_name = refl

not_cancel : eq_ignore_ascii_case sig_name cancel_name ≡ false
unfolding eq_ignore_ascii_case
not_cancel = refl

new-resolve_example :
    resolve ascii both (snippet_prefix ++ sig_name) true false
    ≡ resolution sig.body expanded (some sig.id)
new-resolve_example =
    new-resolve ascii [] sig (bye ∷ []) both (λ t h. refl) refl not_cancel sorted_by_name

is_expanded : (resolve ascii both (snippet_prefix ++ sig_name) true false).disposition ≡ expanded
unfolding resolve
is_expanded = refl

resolve-IsInert_example :
    (true ≡ true)
    × (false ≡ false)
    × IsInert ascii (resolve ascii both (snippet_prefix ++ sig_name) true false).text
resolve-IsInert_example =
    resolve-IsInert ascii (sig ∷ bye ∷ []) both (snippet_prefix ++ sig_name) true false
      sorted_by_name is_expanded
