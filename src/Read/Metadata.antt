-- ===== src/Read/Metadata.antt =====
-- src/read.rs: `get_metadata`, the choice among the end records of a file, and the errors that it
-- reports when none is good.
pub mod Safe
pub mod First
pub mod Candidates
pub mod Last
use zip.Prelude.{
  ℕ, ◌+◌, ◌-◌, Bool, true, false, not, ◌&&◌, ◌||◌, ltb, ◌==◌, if◌then◌else◌, Option, none, some,
  List, [], ◌∷◌, ◌++◌, length,
}
use zip.Result.{ZipError, ZipResult, ok, err, invalid_archive, unsupported_archive, ◌>>=◌}
use zip.Cursor.{run_at}
use zip.Spec.Records.{zip64_entry_thr}
use zip.Spec.Zip32End.{Zip32CentralDirectoryEnd}
use zip.Spec.Find.{Finder}
use zip.Spec.Find.Zip32
use zip.Types.File.{ZipFileData}
use zip.Read.Config.{Config}
use zip.Read.Directory.{CentralDirectoryInfo, get_directory_info_zip32, get_directory_info_zip64}
use zip.Read.Header.{read_files}

-- Without the configuration, which is kept as it is.
pub record SharedBuilder : Type 0 where
  pub files : List ZipFileData
  pub offset : ℕ
  pub dir_start : ℕ

-- The lists of errors, and the results that are left.
pub record Errors : Type 0 where
  pub invalid_errors : List ZipError
  pub unsupported_errors : List ZipError

abbrev pub no_errors : Errors
no_errors = record { invalid_errors = []; unsupported_errors = [] }

unfoldable pub push_error : ZipError → Errors → Errors
push_error (unsupported_archive e) es = record es {
  unsupported_errors = es.unsupported_errors ++ unsupported_archive e ∷ [];
}
push_error e es = record es { invalid_errors = es.invalid_errors ++ e ∷ [] }

unfoldable pub sort_result :
    {T U : Type 0} → ZipResult T → Errors → List (U × T) → U → Errors × List (U × T)
unfolding push_error
sort_result (ok o) es ok_results footer = (es, ok_results ++ (footer, o) ∷ [])
sort_result (err e) es ok_results footer = (push_error e es, ok_results)

abbrev pub Candidate : Type 0
Candidate = Zip32CentralDirectoryEnd × CentralDirectoryInfo

-- What is gathered: the errors of either format, and the candidates.
pub record Gathered : Type 0 where
  pub errors_32 : Errors
  pub errors_64 : Errors
  pub ok_results : List Candidate

abbrev pub gather_32 :
    Gathered → ZipResult CentralDirectoryInfo → Zip32CentralDirectoryEnd → Gathered
gather_32 g result footer =
    let (errors, ok_results) = sort_result result g.errors_32 g.ok_results footer in
    record g { errors_32 = errors; ok_results = ok_results }

abbrev pub gather_64 :
    Gathered → List (ZipResult CentralDirectoryInfo) → Zip32CentralDirectoryEnd → Gathered
gather_64 g [] footer = g
gather_64 g (result ∷ results) footer =
    let (errors, ok_results) = sort_result result g.errors_64 g.ok_results footer in
    gather_64 (record g { errors_64 = errors; ok_results = ok_results }) results footer

abbrev gather_results :
    Gathered
    → ZipResult (List (ZipResult CentralDirectoryInfo))
    → Zip32CentralDirectoryEnd
    → Gathered
gather_results g (ok results) footer = gather_64 g results footer
gather_results g (err e) footer = record g { errors_64 = push_error e g.errors_64 }

-- `sort_by_key` is stable: the last end record first, and ZIP64 first among its candidates.
abbrev pub comes_before : CentralDirectoryInfo → CentralDirectoryInfo → Bool
comes_before a b =
    ltb b.cde_position a.cde_position
    || (a.cde_position == b.cde_position && a.is_zip64 && not b.is_zip64)

unfoldable pub insert_by_key : Candidate → List Candidate → List Candidate
insert_by_key x [] = x ∷ []
insert_by_key x (y ∷ ys) =
    let rest = insert_by_key x ys in if comes_before y.1 x.1 then y ∷ rest else x ∷ y ∷ ys

unfoldable pub sort_by_key : List Candidate → List Candidate
unfolding insert_by_key
sort_by_key [] = []
sort_by_key (x ∷ xs) = insert_by_key x (sort_by_key xs)

abbrev pub head : List ZipError → Option ZipError
head [] = none
head (e ∷ es) = some e

-- The first error, those that name what is not supported before the others.
abbrev pub first_error : Errors → Errors → Option ZipError
first_error errors_32 errors_64 = head (
    errors_32.unsupported_errors
    ++ (errors_64.unsupported_errors ++ (errors_32.invalid_errors ++ errors_64.invalid_errors)))

-- The number of entries that was read is the one of the end record, or that one says ZIP64.
abbrev pub right_number : Candidate → SharedBuilder → Bool
right_number (footer, info) shared =
    length shared.files == footer.number_of_files
    || (info.is_zip64 && footer.number_of_files == zip64_entry_thr)

abbrev add_error : CentralDirectoryInfo → ZipError → Errors × Errors → Errors × Errors
add_error info e (errors_32, errors_64) =
    if info.is_zip64
    then (errors_32, push_error e errors_64)
    else (push_error e errors_32, errors_64)

abbrev pub Best : Type 0
Best = Option (Zip32CentralDirectoryEnd × SharedBuilder) × (Errors × Errors)

-- What becomes of a candidate whose directory was read, or not; the next ones are tried if it is no good.
unfoldable pub after_candidate :
    Candidate → (Errors × Errors → Best) → Errors × Errors → ZipResult SharedBuilder → Best
unfolding push_error
after_candidate candidate next_candidates errors (err e) =
    next_candidates (add_error candidate.1 e errors)
after_candidate candidate next_candidates errors (ok shared) =
    if right_number candidate shared
    then (some (candidate.0, shared), errors)
    else next_candidates (add_error candidate.1 (invalid_archive "wrong number of files") errors)

abbrev pub report : Option ZipError → Option (ZipResult (Zip32CentralDirectoryEnd × SharedBuilder))
report none = none
report (some e) = some (err e)

abbrev pub or_error : Best → Option (ZipResult (Zip32CentralDirectoryEnd × SharedBuilder))
or_error (some best, errors) = some (ok best)
or_error (none, (errors_32, errors_64)) = report (first_error errors_32 errors_64)

module _ (crc32 : List ℕ → ℕ) (rfind_iter : Finder) where
  unfoldable pub read_central_header : CentralDirectoryInfo → List ℕ → ZipResult SharedBuilder
  unfolding read_files
  read_central_header dir_info file =
      if not (dir_info.disk_number == dir_info.disk_with_central_directory)
      then err (unsupported_archive "Support for multi-disk files is not implemented")
      else do
        files ←
            run_at file dir_info.directory_start
              (read_files crc32 dir_info.number_of_files dir_info.archive_offset)
        ok (record {
          files = files;
          offset = dir_info.archive_offset;
          dir_start = dir_info.directory_start;
        })

  -- The candidates of every end record.
  unfoldable pub gather :
      Config → List ℕ → List (Zip32CentralDirectoryEnd × ℕ) → Gathered → Gathered
  unfolding sort_result get_directory_info_zip32 get_directory_info_zip64
  gather config file [] g = g
  gather config file ((footer, cde_start_pos) ∷ locations) g =
      let g' = gather_32 g (get_directory_info_zip32 config file footer cde_start_pos) footer in
      gather config file locations (
        gather_results g' (get_directory_info_zip64 rfind_iter config file footer cde_start_pos)
          footer)

  -- The first candidate whose directory is read with the right number of entries.
  unfoldable pub best_result : List ℕ → List Candidate → Errors × Errors → Best
  unfolding read_central_header after_candidate
  best_result file [] errors = (none, errors)
  best_result file (candidate ∷ candidates) errors =
      after_candidate candidate (λ es. best_result file candidates es) errors
        (read_central_header candidate.1 file)

  -- The outer `none` is the panic where there is no error to report.
  unfoldable pub get_metadata :
      Config → List ℕ → Option (ZipResult (Zip32CentralDirectoryEnd × SharedBuilder))
  unfolding gather sort_by_key best_result
  get_metadata config file = elim (Zip32.find_and_parse rfind_iter file) [
    | err e ↦ some (err e)
    | ok locations ↦
        let g =
          gather config file locations
            (record { errors_32 = no_errors; errors_64 = no_errors; ok_results = [] }) in
        or_error (best_result file (sort_by_key g.ok_results) (g.errors_32, g.errors_64))
  ]
