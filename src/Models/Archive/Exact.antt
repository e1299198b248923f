-- ===== src/Models/Archive/Exact.antt =====
-- The check of an archive accepts exactly the safe ones.
use speakeasy_granite_rust_m.Base.{
  ℕ, ◌+◌, ◌≤◌, ◌≡◌, ◌≢◌, inl, inr, refl, sym, ◌∙◌, Bool, false, List, [], ◌∷◌, ◌++◌, All, map,
  Result, ok, err, ◌>>=◌, arith, Bool-cases, u64_max, append_assoc, append-nil,
}
use mathlib.Core.Path.{subst}
use speakeasy_granite_rust_m.Text.{Text, contains_text}
use speakeasy_granite_rust_m.Text.Equal.{Fresh, contains_text-true, contains_text-false}
use speakeasy_granite_rust_m.Models.Archive.{
  PathBuf, ArchiveEntry, ArchiveLimits, ArchiveValidationError, ValidatedArchivePlan, Normalizer,
  windows_destination_key, Progress, admit_kind, admit, admit_all, start, validate_archive_plan,
}
use speakeasy_granite_rust_m.Models.Archive.Safe.{
  IsContained, key_of, IsSafeKind, IsSafeEntry, files_in, bytes_in, files_of, bytes_of, Distinct,
  IsSafeArchive,
}
use speakeasy_granite_rust_m.Models.Archive.Entries.{
  Decides, Decides-iff, none_seen, windows_destination_key_lem, admit_kind_lem,
}

module _ (n : Normalizer) (allowed : PathBuf → Bool) (limits : ArchiveLimits) where
  -- The loop's state after an entry that is admitted.
  abbrev next : Progress → ArchiveEntry → Progress
  next st entry = record {
    validated = st.validated ++ entry ∷ [];
    destination_keys = key_of n entry ∷ st.destination_keys;
    extracted = st.extracted + bytes_in entry.kind entry;
    file_count = st.file_count + files_in entry.kind;
  }

  abbrev IsWithin : Progress → Type 0
  IsWithin st =
      (st.file_count ≤ limits.maximum_files) × (st.extracted ≤ limits.maximum_extracted_bytes)

  abbrev Admits : Progress → ArchiveEntry → Type 0
  Admits st entry =
      IsSafeEntry allowed limits entry
      × Fresh st.destination_keys (key_of n entry)
      × (st.file_count + files_in entry.kind ≤ limits.maximum_files)
      × (st.extracted + bytes_in entry.kind entry ≤ limits.maximum_extracted_bytes)

  admit_lem :
      (st : Progress) (entry : ArchiveEntry)
      → st.file_count + files_in entry.kind ≤ u64_max
      → limits.maximum_extracted_bytes ≤ u64_max
      → IsWithin st
      → Decides (Admits st entry) (next st entry) (admit n allowed limits st entry)
  unfolding admit
  admit_lem st entry h k (x, y) =
      go (windows_destination_key n entry.path) refl (windows_destination_key_lem n entry.path)
    where
      count :
          {key : Text} (r : Result ArchiveValidationError (ℕ × ℕ))
          → Decides
              (IsSafeKind allowed limits entry entry.kind
                × (st.file_count + files_in entry.kind ≤ limits.maximum_files)
                × (st.extracted + bytes_in entry.kind entry ≤ limits.maximum_extracted_bytes))
              (st.file_count + files_in entry.kind, st.extracted + bytes_in entry.kind entry)
              r
          → IsContained entry.path
          → key ≡ key_of n entry
          → contains_text st.destination_keys key ≡ false
          → Decides (Admits st entry) (next st entry) (
              r >>= λ c. ok (record {
                validated = st.validated ++ entry ∷ [];
                destination_keys = key ∷ st.destination_keys;
                extracted = c.1;
                file_count = c.0;
              }))
      count (err u) d p e a = λ z. d (z.0.1, z.2, z.3)
      count {key} (ok c) (d, u) p e a = (
        (
          (p, d.0),
          subst (Fresh st.destination_keys) e (contains_text-false st.destination_keys key a),
          d.1,
          d.2,
        ),
        rw (u, e),
      )

      go :
          (r : Result ArchiveValidationError Text)
          → windows_destination_key n entry.path ≡ r
          → Decides (IsContained entry.path) (key_of n entry) r
          → Decides (Admits st entry) (next st entry) (admit n allowed limits st entry)
      go (err e) q d = rw q (λ z. d z.0.0)
      go (ok key) q (d, e) = elim (Bool-cases (contains_text st.destination_keys key)) [
        | inl a ↦
            rw (q, a)
              (λ z.
                contains_text-true st.destination_keys key a
                  (subst (Fresh st.destination_keys) (sym e) z.1))
        | inr a ↦
            rw (q, a)
              (count (admit_kind allowed limits entry entry.kind st.file_count st.extracted)
                (admit_kind_lem allowed limits entry st.file_count st.extracted entry.kind h k x y)
                d e a)
      ]

  abbrev keys : List ArchiveEntry → List Text
  keys es = map (key_of n) es

  -- What the rest of the archive must be, after what the loop has seen.
  abbrev IsSafeFrom : Progress → List ArchiveEntry → Type 0
  IsSafeFrom st es =
      All (IsSafeEntry allowed limits) es
      × (Distinct (keys es) × All (Fresh st.destination_keys) (keys es))
      × (st.file_count + files_of es ≤ limits.maximum_files)
      × (st.extracted + bytes_of es ≤ limits.maximum_extracted_bytes)

  abbrev progress_after : Progress → List ArchiveEntry → Progress
  progress_after st [] = st
  progress_after st (entry ∷ rest) = progress_after (next st entry) rest

  progress_after-validated :
      (st : Progress) (es : List ArchiveEntry)
      → (progress_after st es).validated ≡ st.validated ++ es
  progress_after-validated st [] = sym (append-nil st.validated)
  progress_after-validated st (entry ∷ rest) =
      progress_after-validated (next st entry) rest ∙ append_assoc st.validated (entry ∷ []) rest

  progress_after-extracted :
      (st : Progress) (es : List ArchiveEntry)
      → (progress_after st es).extracted ≡ st.extracted + bytes_of es
  progress_after-extracted st [] = omega arith
  progress_after-extracted st (entry ∷ rest) =
      omega (arith, progress_after-extracted (next st entry) rest)

  pair-Fresh :
      (k : Text) (seen ks : List Text)
      → All (λ t. k ≢ t) ks
      → All (Fresh seen) ks
      → All (Fresh (k ∷ seen)) ks
  pair-Fresh k seen [] a b = tt
  pair-Fresh k seen (t ∷ ks) (a, x) (b, y) = ((a, b), pair-Fresh k seen ks x y)

  split-Fresh :
      (k : Text) (seen ks : List Text)
      → All (Fresh (k ∷ seen)) ks
      → All (λ t. k ≢ t) ks × All (Fresh seen) ks
  split-Fresh k seen [] a = (tt, tt)
  split-Fresh k seen (t ∷ ks) ((a, b), x) = let (y, z) = split-Fresh k seen ks x in ((a, y), (b, z))

  from_first :
      (st : Progress) (entry : ArchiveEntry) (rest : List ArchiveEntry)
      → IsSafeFrom st (entry ∷ rest)
      → Admits st entry × IsSafeFrom (next st entry) rest
  from_first st entry rest ((a, b), ((c, d), (f, g)), x, y) = (
    (a, f, omega arith, omega arith),
    (
      b,
      (d, pair-Fresh (key_of n entry) st.destination_keys (keys rest) c g),
      omega arith,
      omega arith,
    ),
  )

  to_first :
      (st : Progress) (entry : ArchiveEntry) (rest : List ArchiveEntry)
      → Admits st entry
      → IsSafeFrom (next st entry) rest
      → IsSafeFrom st (entry ∷ rest)
  to_first st entry rest (a, f, u, v) (b, (d, h), x, y) =
      let (c, g) = split-Fresh (key_of n entry) st.destination_keys (keys rest) h in
      ((a, b), ((c, d), (f, g)), omega arith, omega arith)

  admit_all_lem :
      (st : Progress) (es : List ArchiveEntry)
      → st.file_count + files_of es ≤ u64_max
      → limits.maximum_extracted_bytes ≤ u64_max
      → IsWithin st
      → Decides (IsSafeFrom st es) (progress_after st es) (admit_all n allowed limits st es)
  unfolding admit_all
  admit_all_lem st [] h k (x, y) = ((tt, (tt, tt), omega arith, omega arith), refl)
  admit_all_lem st (entry ∷ rest) h k w =
      go (admit n allowed limits st entry) (admit_lem st entry (omega arith) k w)
        (λ z. admit_all_lem (next st entry) rest (omega arith) k z)
    where
      go :
          (r : Result ArchiveValidationError Progress)
          → Decides (Admits st entry) (next st entry) r
          → (IsWithin (next st entry)
              → Decides
                  (IsSafeFrom (next st entry) rest)
                  (progress_after (next st entry) rest)
                  (admit_all n allowed limits (next st entry) rest))
          → Decides
              (IsSafeFrom st (entry ∷ rest))
              (progress_after st (entry ∷ rest))
              (r >>= λ q. admit_all n allowed limits q rest)
      go (err e) d more = λ z. d (from_first st entry rest z).0
      go (ok q) (p, e) more = rw e (
          Decides-iff (progress_after (next st entry) rest)
            (admit_all n allowed limits (next st entry) rest) (to_first st entry rest p)
            (λ z. (from_first st entry rest z).1) (more (p.2, p.3)))

-- An archive passes exactly when every entry is safe, no two entries have the same destination, and
-- the files and their bytes are within the limits; the plan then has the entries in their order, and
-- the sum of the files' bytes. The files are at most `usize::MAX`, and the limit on bytes is a `u64`.
pub validate_archive_plan-Decides :
    (n : Normalizer) (allowed : PathBuf → Bool) (limits : ArchiveLimits)
    (entries : List ArchiveEntry)
    → files_of entries ≤ u64_max
    → limits.maximum_extracted_bytes ≤ u64_max
    → Decides {A = ValidatedArchivePlan}
        (IsSafeArchive n allowed limits entries)
        (record { entries = entries; extracted_bytes = bytes_of entries })
        (validate_archive_plan n allowed limits entries)
unfolding validate_archive_plan
validate_archive_plan-Decides n allowed limits entries h k =
    go (admit_all n allowed limits start entries)
      (admit_all_lem n allowed limits start entries (omega arith) k (omega arith, omega arith))
  where
    go :
        (r : Result ArchiveValidationError Progress)
        → Decides
            (IsSafeFrom n allowed limits start entries)
            (progress_after n allowed limits start entries)
            r
        → Decides {A = ValidatedArchivePlan}
            (IsSafeArchive n allowed limits entries)
            (record { entries = entries; extracted_bytes = bytes_of entries })
            (r >>= λ done.
              ok (record { entries = done.validated; extracted_bytes = done.extracted }))
    go (err e) d =
        λ (a, b, c, f). d (a, (b, none_seen (map (key_of n) entries)), omega arith, omega arith)
    go (ok q) ((a, (b, u), c, f), e) = (
      (a, b, omega arith, omega arith),
      let z : start.extracted + bytes_of entries ≡ bytes_of entries = omega arith in
          rw (
            e,
            progress_after-validated n allowed limits start entries,
            progress_after-extracted n allowed limits start entries,
            z,
          ),
    )
