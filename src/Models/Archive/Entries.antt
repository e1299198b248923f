-- ===== src/Models/Archive/Entries.antt =====
-- What the check of an archive decides of one entry: its path, its kind and its bytes.
use speakeasy_granite_rust_m.Base.{
  ◌⊎◌, ◌/◌, ◌==◌, if◌then◌else◌, ℕ, min, ltb, not, ◌&&◌, ◌+◌, ◌≤◌, ◌<◌, ◌≡◌, inl, inr, refl, Bool,
  true, false, List, [], ◌∷◌, All, Result, ok, err, arith, Bool-cases, u64_max,
}
use speakeasy_granite_rust_m.Text.{Text, has_char}
use speakeasy_granite_rust_m.Text.Equal.{Fresh}
use speakeasy_granite_rust_m.Models.Archive.{
  prefix, root_dir, cur_dir, parent_dir, normal, PathBuf, is_absolute, is_unicode, ArchiveEntryKind,
  file, directory, symlink, hard_link, reparse_point, ArchiveEntry, ArchiveLimits,
  ArchiveValidationError, is_executable_path, too_many_files, unexpected_executable,
  compression_ratio_exceeded, size_overflow, extracted_size_exceeded, ends_in_dot_or_space, stem_of,
  is_reserved_windows_name, Normalizer, push_component, key_from, windows_destination_key,
  admit_file, admit_kind,
}
use speakeasy_granite_rust_m.Models.Archive.Safe.{
  IsPlainName, IsContained, key_onto, IsSafeFile, IsSafeKind, files_in, bytes_in,
}

-- The result is an error where `P` fails, and the given value where it holds.
abbrev pub Decides : {A : Type 0} → Type 0 → A → Result ArchiveValidationError A → Type 0
Decides P a (err e) = ¬ P
Decides P a (ok b) = P × (b ≡ a)

pub Decides-iff :
    {A : Type 0} {P Q : Type 0} (a : A) (r : Result ArchiveValidationError A)
    → (P → Q)
    → (Q → P)
    → Decides P a r
    → Decides Q a r
Decides-iff a (err e) f g d = λ q. d (g q)
Decides-iff a (ok b) f g (p, e) = (f p, e)

Bool-true_false : {P : Type 0} {b : Bool} → b ≡ true → b ≡ false → P
Bool-true_false x y = cc

pub none_seen : (ks : List Text) → All (Fresh []) ks
none_seen [] = tt
none_seen (k ∷ ks) = (tt, none_seen ks)

key_from_lem :
    (n : Normalizer) (path : PathBuf) (key : Text) (rest : PathBuf)
    → Decides (All IsPlainName rest) (key_onto n key rest) (key_from n path key rest)
unfolding key_from
key_from_lem n path key [] = (tt, refl)
key_from_lem n path key (prefix p ∷ rest) = λ (x, y). x
key_from_lem n path key (root_dir ∷ rest) = λ (x, y). x
key_from_lem n path key (cur_dir ∷ rest) = λ (x, y). x
key_from_lem n path key (parent_dir ∷ rest) = λ (x, y). x
key_from_lem n path key (normal raw ∷ rest) = elim (Bool-cases (is_unicode raw)) [
  | inr a ↦ rw a (λ h. Bool-true_false h.0.0 refl)
  | inl a ↦ elim (Bool-cases (ends_in_dot_or_space raw)) [
    | inl b ↦ rw (a, b) (λ h. Bool-true_false refl h.0.1)
    | inr b ↦ elim (Bool-cases (has_char 0x3a raw)) [
      | inl c ↦ rw (a, b, c) (λ h. Bool-true_false refl h.0.2)
      | inr c ↦ elim (Bool-cases (is_reserved_windows_name (stem_of raw))) [
        | inl d ↦ rw (a, b, c, d) (λ h. Bool-true_false refl h.0.3)
        | inr d ↦
            rw (a, b, c, d)
              (Decides-iff (key_onto n (push_component n key raw) rest)
                (key_from n path (push_component n key raw) rest)
                (λ p. ((refl, refl, refl, refl), p)) (λ p. p.1)
                (key_from_lem n path (push_component n key raw) rest))
      ]
    ]
  ]
]

absolute_lem : (path : PathBuf) → is_absolute path ≡ true → ¬ (All IsPlainName path)
absolute_lem [] h = cc
absolute_lem (prefix p ∷ rest) h = λ x. x.0
absolute_lem (root_dir ∷ rest) h = λ x. x.0
absolute_lem (cur_dir ∷ rest) h = λ x. x.0
absolute_lem (parent_dir ∷ rest) h = λ x. x.0
absolute_lem (normal raw ∷ rest) h = cc

pub windows_destination_key_lem :
    (n : Normalizer) (path : PathBuf)
    → Decides (IsContained path) (key_onto n [] path) (windows_destination_key n path)
unfolding windows_destination_key
windows_destination_key_lem n [] = λ x. x.0 refl
windows_destination_key_lem n (c ∷ rest) = elim (Bool-cases (is_absolute (c ∷ rest))) [
  | inl a ↦ rw a (λ x. absolute_lem (c ∷ rest) a x.1)
  | inr a ↦ rw a (
      Decides-iff (key_onto n [] (c ∷ rest)) (key_from n (c ∷ rest) [] (c ∷ rest))
        (λ p. ((λ e. cc), p)) (λ p. p.1) (key_from_lem n (c ∷ rest) [] (c ∷ rest)))
]

-- The tests of a file, whatever the errors are.
file_tests :
    (a b : Bool) (count files bytes size packed ratio limit most : ℕ)
    (e1 e2 e3 e4 e5 e6 : ArchiveValidationError)
    → count < u64_max
    → limit ≤ u64_max
    → Decides {A = ℕ × ℕ}
        (((a ≡ true) ⊎ (b ≡ false))
          × (packed ≡ 0 → size ≡ 0)
          × (ratio ≤ most)
          × (count + 1 ≤ files)
          × (bytes + size ≤ limit))
        (count + 1, bytes + size)
        (if ltb files (min (count + 1) u64_max)
          then err e1
          else if not a && b
          then err e2
          else if packed == 0 && ltb 0 size
          then err e3
          else if ltb most ratio
          then err e4
          else if ltb u64_max (bytes + size)
          then err e5
          else if ltb limit (bytes + size)
          then err e6
          else ok (min (count + 1) u64_max, bytes + size))
file_tests a b count files bytes size packed ratio limit most e1 e2 e3 e4 e5 e6 h k = ground arith

module _ (allowed : PathBuf → Bool) (limits : ArchiveLimits) (entry : ArchiveEntry)
    (count bytes : ℕ) where
  admit_file_lem :
      count < u64_max
      → limits.maximum_extracted_bytes ≤ u64_max
      → Decides
          (IsSafeFile allowed limits entry
            × (count + 1 ≤ limits.maximum_files)
            × (bytes + entry.extracted_bytes ≤ limits.maximum_extracted_bytes))
          (count + 1, bytes + entry.extracted_bytes)
          (admit_file allowed limits entry count bytes)
  unfolding admit_file
  admit_file_lem h k =
      let size = entry.extracted_bytes in
      let packed = entry.compressed_bytes in
      let ratio = size / (if packed == 0 then 1 else packed) in
      let most = limits.maximum_compression_ratio in
      let limit = limits.maximum_extracted_bytes in
      Decides-iff (count + 1, bytes + size) (admit_file allowed limits entry count bytes)
        (λ (x, y, z, w, v). ((x, y, z), w, v)) (λ ((x, y, z), w, v). (x, y, z, w, v))
        (file_tests (allowed entry.path) (is_executable_path entry.path) count limits.maximum_files
          bytes size packed ratio limit most
          (too_many_files (min (count + 1) u64_max) limits.maximum_files)
          (unexpected_executable entry.path) (compression_ratio_exceeded entry.path u64_max most)
          (compression_ratio_exceeded entry.path ratio most) size_overflow
          (extracted_size_exceeded (bytes + size) limit) h k)

  pub admit_kind_lem :
      (kind : ArchiveEntryKind)
      → count + files_in kind ≤ u64_max
      → limits.maximum_extracted_bytes ≤ u64_max
      → count ≤ limits.maximum_files
      → bytes ≤ limits.maximum_extracted_bytes
      → Decides
          (IsSafeKind allowed limits entry kind
            × (count + files_in kind ≤ limits.maximum_files)
            × (bytes + bytes_in kind entry ≤ limits.maximum_extracted_bytes))
          (count + files_in kind, bytes + bytes_in kind entry)
          (admit_kind allowed limits entry kind count bytes)
  unfolding admit_kind
  admit_kind_lem file h k x y = admit_file_lem (omega arith) k
  admit_kind_lem directory h k x y = ground arith
  admit_kind_lem symlink h k x y = λ z. z.0
  admit_kind_lem hard_link h k x y = λ z. z.0
  admit_kind_lem reparse_point h k x y = λ z. z.0
