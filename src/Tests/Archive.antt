-- ===== src/Tests/Archive.antt =====
-- The check of an archive at concrete inputs: crates/speakeasy-models/src/lifecycle.rs.
use speakeasy_granite_rust_m.Base.{◌≡◌, refl, Bool, false, List, [], ◌∷◌, map, ok, err, arith}
use speakeasy_granite_rust_m.Text.{ascii_lower}
use speakeasy_granite_rust_m.Models.Archive.{
  normal, parent_dir, PathBuf, file, directory, ArchiveEntry, ArchiveLimits, Normalizer,
  validate_archive_plan, invalid_path, destination_collision, unexpected_executable,
  extracted_size_exceeded,
}
use speakeasy_granite_rust_m.Models.Archive.Safe.{IsSafeArchive}
use speakeasy_granite_rust_m.Models.Archive.Entries.{Decides}
use speakeasy_granite_rust_m.Models.Archive.Exact.{validate_archive_plan-Decides}

-- On ASCII, NFKC changes nothing.
abbrev ascii : Normalizer
ascii = record { nfkc = λ t. t; to_lowercase = map ascii_lower }

abbrev limits : ArchiveLimits
limits = record { maximum_files = 2; maximum_extracted_bytes = 100; maximum_compression_ratio = 10 }

-- The paths `m`, `m/a`, `M/A` and `m/a.exe`.
abbrev folder : PathBuf
folder = normal (0x6d ∷ []) ∷ []

abbrev small : PathBuf
small = normal (0x6d ∷ []) ∷ normal (0x61 ∷ []) ∷ []

abbrev large : PathBuf
large = normal (0x4d ∷ []) ∷ normal (0x41 ∷ []) ∷ []

abbrev program : PathBuf
program = normal (0x6d ∷ []) ∷ normal (0x61 ∷ 0x2e ∷ 0x65 ∷ 0x78 ∷ 0x65 ∷ []) ∷ []

-- `nul.txt`.
abbrev device : PathBuf
device = normal (0x6e ∷ 0x75 ∷ 0x6c ∷ 0x2e ∷ 0x74 ∷ 0x78 ∷ 0x74 ∷ []) ∷ []

abbrev nothing : PathBuf → Bool
nothing _ = false

abbrev file_at : PathBuf → ArchiveEntry
file_at path = record { path = path; kind = file; compressed_bytes = 10; extracted_bytes = 60 }

abbrev folder_entry : ArchiveEntry
folder_entry = record { path = folder; kind = directory; compressed_bytes = 0; extracted_bytes = 0 }

abbrev archive : List ArchiveEntry
archive = folder_entry ∷ file_at small ∷ []

accepted :
    validate_archive_plan ascii nothing limits archive
    ≡ ok (record { entries = archive; extracted_bytes = 60 })
unfolding validate_archive_plan
accepted = refl

collides :
    validate_archive_plan ascii nothing limits (file_at small ∷ file_at large ∷ [])
    ≡ err (destination_collision large)
unfolding validate_archive_plan
collides = refl

runs :
    validate_archive_plan ascii nothing limits (file_at program ∷ [])
    ≡ err (unexpected_executable program)
unfolding validate_archive_plan
runs = refl

reserved :
    validate_archive_plan ascii nothing limits (file_at device ∷ [])
    ≡ err (invalid_path device "reserved Windows device name is forbidden")
unfolding validate_archive_plan
reserved = refl

too_large :
    validate_archive_plan ascii nothing limits (file_at small ∷ file_at folder ∷ [])
    ≡ err (extracted_size_exceeded 120 100)
unfolding validate_archive_plan
too_large = refl

climbs :
    validate_archive_plan ascii nothing limits (file_at (parent_dir ∷ small) ∷ [])
    ≡ err (invalid_path (parent_dir ∷ small) "path traversal or prefix is forbidden")
unfolding validate_archive_plan
climbs = refl

validate_archive_plan-Decides_example :
    Decides
      (IsSafeArchive ascii nothing limits archive)
      (record { entries = archive; extracted_bytes = 60 })
      (validate_archive_plan ascii nothing limits archive)
validate_archive_plan-Decides_example =
    validate_archive_plan-Decides ascii nothing limits archive (omega arith) (omega arith)
