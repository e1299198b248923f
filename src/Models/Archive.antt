-- ===== src/Models/Archive.antt =====
-- crates/speakeasy-models/src/lifecycle.rs: the check of an archive's whole directory, before any of
-- it is extracted. A path is the list of its components, as `Path` compares it; a component's text is
-- its code points, lone surrogates included. The set of allowed files is its membership test.
-- `nfkc` of the package unicode-normalization and the tables of `to_lowercase` are parameters.
use Prim.Native.String.{String}
use speakeasy_granite_rust_m.Base.{
  ℕ, ◌+◌, ◌/◌, min, Bool, true, false, not, ◌&&◌, ◌||◌, Option, none, some, List, [], ◌∷◌, ◌++◌,
  map, ltb, leb, ◌==◌, if◌then◌else◌, Result, ok, err, ◌>>=◌, u64_max,
}
use speakeasy_granite_rust_m.Text.{
  Text, text_eq, has_char, contains_text, strip_prefix, is_empty_text, ascii_upper, ascii_lower,
}
pub mod Safe
pub mod Entries
pub mod Exact

-- `std::path::Component`, and a path as its components.
pub data Component : Type 0 where
  prefix : Text → Component
  root_dir cur_dir parent_dir : Component
  normal : Text → Component

abbrev pub PathBuf : Type 0
PathBuf = List Component

-- `is_absolute`, on Windows: a prefix and a root.
abbrev pub is_absolute : PathBuf → Bool
is_absolute (prefix p ∷ root_dir ∷ rest) = true
is_absolute _ = false

abbrev pub is_empty_path : PathBuf → Bool
is_empty_path [] = true
is_empty_path (c ∷ rest) = false

-- `to_str`: whether the text has no lone surrogate.
unfoldable pub is_unicode : Text → Bool
is_unicode [] = true
is_unicode (c ∷ s) = not (leb 0xd800 c && leb c 0xdfff) && is_unicode s

pub data ArchiveEntryKind : Type 0 where
  file directory symlink hard_link reparse_point : ArchiveEntryKind

pub record ArchiveEntry : Type 0 where
  pub path : PathBuf
  pub kind : ArchiveEntryKind
  pub compressed_bytes : ℕ
  pub extracted_bytes : ℕ

pub record ArchiveLimits : Type 0 where
  pub maximum_files : ℕ
  pub maximum_extracted_bytes : ℕ
  pub maximum_compression_ratio : ℕ

pub record ValidatedArchivePlan : Type 0 where
  pub entries : List ArchiveEntry
  pub extracted_bytes : ℕ

pub data ArchiveValidationError : Type 0 where
  invalid_path : PathBuf → String → ArchiveValidationError
  unsupported_entry : PathBuf → ArchiveEntryKind → ArchiveValidationError
  unexpected_executable destination_collision : PathBuf → ArchiveValidationError
  too_many_files extracted_size_exceeded : ℕ → ℕ → ArchiveValidationError
  compression_ratio_exceeded : PathBuf → ℕ → ℕ → ArchiveValidationError
  size_overflow : ArchiveValidationError

-- `ends_with(['.', ' '])`.
unfoldable pub ends_in_dot_or_space : Text → Bool
ends_in_dot_or_space [] = false
ends_in_dot_or_space (c ∷ []) = c == 0x2e || c == 0x20
ends_in_dot_or_space (c ∷ d ∷ s) = ends_in_dot_or_space (d ∷ s)

-- `split('.').next()`.
unfoldable pub stem_of : Text → Text
stem_of [] = []
stem_of (c ∷ s) = let rest = c ∷ stem_of s in if c == 0x2e then [] else rest

abbrev is_reserved_device_number : Text → Bool
is_reserved_device_number (c ∷ []) = leb 0x31 c && leb c 0x39
is_reserved_device_number _ = false

-- `is_some_and(is_reserved_device_number)`.
abbrev numbered : Option Text → Bool
numbered none = false
numbered (some suffix) = is_reserved_device_number suffix

-- CON, PRN, AUX, NUL and CLOCK$, and COM and LPT with a digit from 1 on.
unfoldable pub is_reserved_windows_name : Text → Bool
unfolding text_eq strip_prefix
is_reserved_windows_name stem =
    let upper = map ascii_upper stem in
    text_eq upper (0x43 ∷ 0x4f ∷ 0x4e ∷ [])
    || text_eq upper (0x50 ∷ 0x52 ∷ 0x4e ∷ [])
    || text_eq upper (0x41 ∷ 0x55 ∷ 0x58 ∷ [])
    || text_eq upper (0x4e ∷ 0x55 ∷ 0x4c ∷ [])
    || text_eq upper (0x43 ∷ 0x4c ∷ 0x4f ∷ 0x43 ∷ 0x4b ∷ 0x24 ∷ [])
    || numbered (strip_prefix (0x43 ∷ 0x4f ∷ 0x4d ∷ []) upper)
    || numbered (strip_prefix (0x4c ∷ 0x50 ∷ 0x54 ∷ []) upper)

pub record Normalizer : Type 0 where
  pub nfkc : Text → Text
  pub to_lowercase : Text → Text

-- The key so far with the text of a component pushed on it.
abbrev pub push_component : Normalizer → Text → Text → Text
push_component n key raw =
    (if is_empty_text key then key else key ++ 0x2f ∷ []) ++ n.to_lowercase (n.nfkc raw)

-- The loop over the components, with the key so far.
unfoldable pub key_from : Normalizer → PathBuf → Text → PathBuf → Result ArchiveValidationError Text
unfolding is_unicode ends_in_dot_or_space has_char stem_of is_reserved_windows_name
key_from n path key [] = ok key
key_from n path key (normal raw ∷ rest) =
    let more = key_from n path (push_component n key raw) rest in
    if not (is_unicode raw)
    then err (invalid_path path "path must be valid Unicode")
    else if ends_in_dot_or_space raw
    then err (invalid_path path "trailing dot or space is forbidden")
    else if has_char 0x3a raw
    then err (invalid_path path "alternate data streams are forbidden")
    else if is_reserved_windows_name (stem_of raw)
    then err (invalid_path path "reserved Windows device name is forbidden")
    else more
key_from n path key (_ ∷ rest) = err (invalid_path path "path traversal or prefix is forbidden")

unfoldable pub windows_destination_key : Normalizer → PathBuf → Result ArchiveValidationError Text
unfolding key_from
windows_destination_key n path =
    if is_empty_path path || is_absolute path
    then err (invalid_path path "path must be non-empty and relative")
    else key_from n path [] path

-- `extension` of a file name: what is after the last dot, if a dot is not its first character.
-- `o` is the extension so far.
abbrev extension_from : Option Text → Text → Option Text
extension_from o [] = o
extension_from none (c ∷ s) = extension_from (if c == 0x2e then some [] else none) s
extension_from (some e) (c ∷ s) = extension_from (some (if c == 0x2e then [] else e ++ c ∷ [])) s

-- The extension of the last component, if it is a name.
abbrev extension : PathBuf → Option Text
extension [] = none
extension (normal [] ∷ []) = none
extension (normal (c ∷ s) ∷ []) = extension_from none s
extension (_ ∷ []) = none
extension (c ∷ d ∷ rest) = extension (d ∷ rest)

-- exe, dll, com, bat, cmd, ps1, msi and scr.
abbrev executable_extensions : List Text
executable_extensions =
    (0x65 ∷ 0x78 ∷ 0x65 ∷ [])
    ∷ (0x64 ∷ 0x6c ∷ 0x6c ∷ [])
    ∷ (0x63 ∷ 0x6f ∷ 0x6d ∷ [])
    ∷ (0x62 ∷ 0x61 ∷ 0x74 ∷ [])
    ∷ (0x63 ∷ 0x6d ∷ 0x64 ∷ [])
    ∷ (0x70 ∷ 0x73 ∷ 0x31 ∷ [])
    ∷ (0x6d ∷ 0x73 ∷ 0x69 ∷ [])
    ∷ (0x73 ∷ 0x63 ∷ 0x72 ∷ [])
    ∷ []

abbrev is_executable : Option Text → Bool
is_executable none = false
is_executable (some e) = is_unicode e && contains_text executable_extensions (map ascii_lower e)

unfoldable pub is_executable_path : PathBuf → Bool
unfolding is_unicode contains_text
is_executable_path path = is_executable (extension path)

-- What the loop over the entries keeps.
pub record Progress : Type 0 where
  pub validated : List ArchiveEntry
  pub destination_keys : List Text
  pub extracted : ℕ
  pub file_count : ℕ

-- `usize::saturating_add(1)`.
abbrev count_file : ℕ → ℕ
count_file n = min (n + 1) u64_max

-- The loop's body for a file: the count and the bytes with the file's.
unfoldable pub admit_file :
    (PathBuf → Bool) → ArchiveLimits → ArchiveEntry → ℕ → ℕ → Result ArchiveValidationError (ℕ × ℕ)
unfolding is_executable_path
admit_file allowed limits entry count bytes =
    let file_count = count_file count in
    let ratio =
      entry.extracted_bytes / (if entry.compressed_bytes == 0 then 1 else entry.compressed_bytes) in
    if ltb limits.maximum_files file_count
    then err (too_many_files file_count limits.maximum_files)
    else if not (allowed entry.path) && is_executable_path entry.path
    then err (unexpected_executable entry.path)
    else if entry.compressed_bytes == 0 && ltb 0 entry.extracted_bytes
    then err (compression_ratio_exceeded entry.path u64_max limits.maximum_compression_ratio)
    else if ltb limits.maximum_compression_ratio ratio
    then err (compression_ratio_exceeded entry.path ratio limits.maximum_compression_ratio)
    else if ltb u64_max (bytes + entry.extracted_bytes)
    then err size_overflow
    else if ltb limits.maximum_extracted_bytes (bytes + entry.extracted_bytes)
    then err
        (extracted_size_exceeded (bytes + entry.extracted_bytes) limits.maximum_extracted_bytes)
    else ok (file_count, bytes + entry.extracted_bytes)

unfoldable pub admit_kind :
    (PathBuf → Bool)
    → ArchiveLimits
    → ArchiveEntry
    → ArchiveEntryKind
    → ℕ
    → ℕ
    → Result ArchiveValidationError (ℕ × ℕ)
unfolding admit_file
admit_kind allowed limits entry file count bytes = admit_file allowed limits entry count bytes
admit_kind allowed limits entry directory count bytes = ok (count, bytes)
admit_kind allowed limits entry other count bytes = err (unsupported_entry entry.path other)

-- The loop's body.
unfoldable pub admit :
    Normalizer
    → (PathBuf → Bool)
    → ArchiveLimits
    → Progress
    → ArchiveEntry
    → Result ArchiveValidationError Progress
unfolding windows_destination_key contains_text admit_kind
admit n allowed limits st entry = do
  key ← windows_destination_key n entry.path
  (if contains_text st.destination_keys key then err (destination_collision entry.path) else do
    counted ← admit_kind allowed limits entry entry.kind st.file_count st.extracted
    ok (record {
      validated = st.validated ++ entry ∷ [];
      destination_keys = key ∷ st.destination_keys;
      extracted = counted.1;
      file_count = counted.0;
    }))

unfoldable pub admit_all :
    Normalizer
    → (PathBuf → Bool)
    → ArchiveLimits
    → Progress
    → List ArchiveEntry
    → Result ArchiveValidationError Progress
unfolding admit
admit_all n allowed limits st [] = ok st
admit_all n allowed limits st (entry ∷ rest) = do
  next ← admit n allowed limits st entry
  admit_all n allowed limits next rest

abbrev start : Progress
start = record { validated = []; destination_keys = []; extracted = 0; file_count = 0 }

unfoldable pub validate_archive_plan :
    Normalizer
    → (PathBuf → Bool)
    → ArchiveLimits
    → List ArchiveEntry
    → Result ArchiveValidationError ValidatedArchivePlan
unfolding admit_all
validate_archive_plan n allowed limits entries = do
  done ← admit_all n allowed limits start entries
  ok (record { entries = done.validated; extracted_bytes = done.extracted })
