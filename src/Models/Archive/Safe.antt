-- ===== src/Models/Archive/Safe.antt =====
-- What an archive must be to be extracted, said of its entries and not of the loop over them.
use speakeasy_granite_rust_m.Base.{
  ℕ, ◌+◌, ◌/◌, ◌≤◌, ◌≡◌, ◌≢◌, ◌⊎◌, Bool, true, false, List, [], ◌∷◌, ◌==◌, if◌then◌else◌, All, map,
}
use speakeasy_granite_rust_m.Text.{Text, has_char}
use speakeasy_granite_rust_m.Models.Archive.{
  Component, normal, PathBuf, is_unicode, ArchiveEntryKind, file, directory, ArchiveEntry,
  ArchiveLimits, ends_in_dot_or_space, stem_of, is_reserved_windows_name, Normalizer,
  push_component, is_executable_path,
}

-- A component that is a name Windows takes as it is written.
abbrev pub IsPlainName : Component → Type 0
IsPlainName (normal raw) =
    (is_unicode raw ≡ true)
    × (ends_in_dot_or_space raw ≡ false)
    × (has_char 0x3a raw ≡ false)
    × (is_reserved_windows_name (stem_of raw) ≡ false)
IsPlainName _ = ⊥

-- A path that stays below the directory it is joined to.
abbrev pub IsContained : PathBuf → Type 0
IsContained path = (path ≢ []) × All IsPlainName path

-- The names of a path, normalized, between slashes.
abbrev pub key_onto : Normalizer → Text → PathBuf → Text
key_onto n key [] = key
key_onto n key (normal raw ∷ rest) = key_onto n (push_component n key raw) rest
key_onto n key (_ ∷ rest) = key

abbrev pub key_of : Normalizer → ArchiveEntry → Text
key_of n entry = key_onto n [] entry.path

-- A file that is allowed or no program, and that does not unpack to more than the ratio.
abbrev pub IsSafeFile : (PathBuf → Bool) → ArchiveLimits → ArchiveEntry → Type 0
IsSafeFile allowed limits entry =
    ((allowed entry.path ≡ true) ⊎ (is_executable_path entry.path ≡ false))
    × (entry.compressed_bytes ≡ 0 → entry.extracted_bytes ≡ 0)
    × (entry.extracted_bytes / (if entry.compressed_bytes == 0 then 1 else entry.compressed_bytes)
        ≤ limits.maximum_compression_ratio)

abbrev pub IsSafeKind : (PathBuf → Bool) → ArchiveLimits → ArchiveEntry → ArchiveEntryKind → Type 0
IsSafeKind allowed limits entry file = IsSafeFile allowed limits entry
IsSafeKind allowed limits entry directory = Unit
IsSafeKind allowed limits entry _ = ⊥

abbrev pub IsSafeEntry : (PathBuf → Bool) → ArchiveLimits → ArchiveEntry → Type 0
IsSafeEntry allowed limits entry =
    IsContained entry.path × IsSafeKind allowed limits entry entry.kind

-- An entry's share of the files and of the bytes.
abbrev pub files_in : ArchiveEntryKind → ℕ
files_in file = 1
files_in _ = 0

abbrev pub bytes_in : ArchiveEntryKind → ArchiveEntry → ℕ
bytes_in file entry = entry.extracted_bytes
bytes_in _ entry = 0

abbrev pub files_of : List ArchiveEntry → ℕ
files_of [] = 0
files_of (entry ∷ rest) = files_in entry.kind + files_of rest

abbrev pub bytes_of : List ArchiveEntry → ℕ
bytes_of [] = 0
bytes_of (entry ∷ rest) = bytes_in entry.kind entry + bytes_of rest

-- No text twice.
abbrev pub Distinct : List Text → Type 0
Distinct [] = Unit
Distinct (t ∷ ts) = All (λ s. t ≢ s) ts × Distinct ts

-- Every entry is safe, no two of them go to the same place, and the whole is within its limits.
abbrev pub IsSafeArchive :
    Normalizer → (PathBuf → Bool) → ArchiveLimits → List ArchiveEntry → Type 0
IsSafeArchive n allowed limits entries =
    All (IsSafeEntry allowed limits) entries
    × Distinct (map (key_of n) entries)
    × (files_of entries ≤ limits.maximum_files)
    × (bytes_of entries ≤ limits.maximum_extracted_bytes)
