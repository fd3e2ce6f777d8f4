-- ===== src/Read/Directory.antt =====
-- src/read.rs: where the central directory is, by an end record and by the ZIP64 records before it.
-- Each read seeks first, so the file is a list of bytes. A `u64` sum that is not checked wraps as in
-- a release build.
pub mod Prefix
use zip.Prelude.{
  ℕ, ◌+◌, ◌-◌, ◌%◌, ◌^◌, Bool, true, false, ltb, ◌==◌, if◌then◌else◌, Option, none, some, List, [],
  ◌∷◌, length, map,
}
use zip.Result.{ZipResult, ok, err, io, invalid_input, invalid_archive, ◌>>=◌, ok_or}
use zip.LittleEndian.{from_le_bytes}
use zip.Cursor.{read_exact, run_at}
use zip.Spec.Block.{size_of}
use zip.Spec.Records.{central_directory_header_signature, zip64_cde_block, zip64_cde_locator_block}
use zip.Spec.Zip32End.{Zip32CentralDirectoryEnd}
use zip.Spec.Zip64End.{Zip64CentralDirectoryEnd, Zip64CentralDirectoryEndLocator, parse_locator}
use zip.Spec.Find.{Finder}
use zip.Spec.Find.Zip64.{find_and_parse}
use zip.Read.Config.{ArchiveOffset, detect, from_central_directory, known, Config}

pub record CentralDirectoryInfo : Type 0 where
  pub archive_offset : ℕ
  pub directory_start : ℕ
  pub cde_position : ℕ
  pub number_of_files : ℕ
  pub disk_number : ℕ
  pub disk_with_central_directory : ℕ
  pub is_zip64 : Bool

-- `checked_sub`, and `checked_add` on a `u64`.
abbrev pub checked_sub : ℕ → ℕ → Option ℕ
checked_sub a b = if ltb a b then none else some (a - b)

abbrev pub checked_add : ℕ → ℕ → Option ℕ
checked_add a b = if ltb (a + b) (2 ^ 64) then some (a + b) else none

abbrev pub and_then : Option ℕ → (ℕ → Option ℕ) → Option ℕ
and_then none f = none
and_then (some a) f = f a

-- Four bytes read at a place, and whether they are the signature of a central header.
abbrev pub peek : List ℕ → ℕ → ZipResult Bool
peek file start = do
  buf ← run_at file start (read_exact 4)
  ok (from_le_bytes buf == central_directory_header_signature)

-- How far the end record is from where its numbers place it.
abbrev pub measured_offset : Zip32CentralDirectoryEnd → ℕ → ZipResult ℕ
measured_offset footer cde_start_pos =
    ok_or
      (and_then (checked_sub cde_start_pos footer.central_directory_size)
        (λ x. checked_sub x footer.central_directory_offset))
      (invalid_archive "Invalid central directory size or offset")

abbrev pub archive_offset_32 : ArchiveOffset → List ℕ → Zip32CentralDirectoryEnd → ℕ → ZipResult ℕ
archive_offset_32 (known n) file footer cde_start_pos = ok n
archive_offset_32 from_central_directory file footer cde_start_pos =
    measured_offset footer cde_start_pos
archive_offset_32 detect file footer cde_start_pos = do
  offset ← measured_offset footer cde_start_pos
  signed ← peek file ((offset + footer.central_directory_offset) % 2 ^ 64)
  ok (if signed then offset else 0)

unfoldable pub get_directory_info_zip32 :
    Config → List ℕ → Zip32CentralDirectoryEnd → ℕ → ZipResult CentralDirectoryInfo
get_directory_info_zip32 config file footer cde_start_pos = do
  archive_offset ← archive_offset_32 config.archive_offset file footer cde_start_pos
  ok (record {
    archive_offset = archive_offset;
    directory_start = (footer.central_directory_offset + archive_offset) % 2 ^ 64;
    cde_position = cde_start_pos;
    number_of_files = footer.number_of_files_on_this_disk;
    disk_number = footer.disk_number;
    disk_with_central_directory = footer.disk_with_central_directory;
    is_zip64 = false;
  })

-- `mem::size_of` of the structs `Zip64CentralDirectoryEnd` and `Zip64CentralDirectoryEndLocator` in
-- memory, not of the blocks they are written as: 44 and 16 bytes of fields, each a multiple of the
-- 8 bytes that a `u64` is aligned to.
abbrev pub zip64_cde_len : ℕ
zip64_cde_len = 48 + 16

abbrev pub order_lower_upper_bounds : ℕ → ℕ → ℕ × ℕ
order_lower_upper_bounds a b = if ltb b a then (b, a) else (a, b)

-- Any error, or no signature, and there is no offset.
abbrev or_zero : ℕ → ZipResult Bool → ℕ
or_zero archive_offset (ok true) = archive_offset
or_zero archive_offset (ok false) = 0
or_zero archive_offset (err e) = 0

abbrev detected : ℕ → List ℕ → Option ℕ → ℕ
detected archive_offset file none = 0
detected archive_offset file (some start) = or_zero archive_offset (peek file start)

abbrev pub archive_offset_64 : ArchiveOffset → List ℕ → Zip64CentralDirectoryEnd → ℕ → ℕ
archive_offset_64 (known n) file footer64 archive_offset = n
archive_offset_64 from_central_directory file footer64 archive_offset = archive_offset
archive_offset_64 detect file footer64 archive_offset =
    detected archive_offset file (checked_add archive_offset footer64.central_directory_offset)

-- One record of the search: its numbers must agree.
unfoldable pub directory_info_of :
    Config
    → List ℕ
    → (cde_start_pos search_upper_bound : ℕ) → Zip64CentralDirectoryEnd × ℕ
    → ZipResult CentralDirectoryInfo
directory_info_of config file cde_start_pos search_upper_bound (footer64, archive_offset) = do
  let archive_offset = archive_offset_64 config.archive_offset file footer64 archive_offset
  directory_start ←
      ok_or (checked_add footer64.central_directory_offset archive_offset)
        (invalid_archive "Invalid central directory size or offset")
  if ltb search_upper_bound directory_start
      then err (invalid_archive "Invalid central directory size or offset")
      else if ltb footer64.number_of_files footer64.number_of_files_on_this_disk
      then err (
          invalid_archive
            "ZIP64 footer indicates more files on this disk than in the whole archive")
      else if ltb footer64.version_made_by footer64.version_needed_to_extract
      then err (
          invalid_archive
            "ZIP64 footer indicates a new version is needed to extract this archive than the version that wrote it")
      else ok (record {
        archive_offset = archive_offset;
        directory_start = directory_start;
        cde_position = cde_start_pos;
        number_of_files = footer64.number_of_files;
        disk_number = footer64.disk_number;
        disk_with_central_directory = footer64.disk_with_central_directory;
        is_zip64 = true;
      })

-- The locator, 20 bytes before the end record; a seek to before the start fails.
abbrev pub locator_at :
    List ℕ → Zip32CentralDirectoryEnd → ZipResult Zip64CentralDirectoryEndLocator
locator_at file footer =
    if ltb (length file) (20 + 22 + length footer.zip_file_comment)
    then err (io invalid_input)
    else run_at file (length file - (20 + 22 + length footer.zip_file_comment)) parse_locator

module _ (rfind_iter : Finder) where
  unfoldable pub get_directory_info_zip64 :
      Config
      → List ℕ
      → Zip32CentralDirectoryEnd
      → ℕ
      → ZipResult (List (ZipResult CentralDirectoryInfo))
  unfolding directory_info_of find_and_parse
  get_directory_info_zip64 config file footer cde_start_pos = do
    locator64 ← locator_at file footer
    search_upper_bound ←
        ok_or (checked_sub cde_start_pos zip64_cde_len)
          (invalid_archive "File cannot contain ZIP64 central directory end")
    let bounds =
        order_lower_upper_bounds locator64.end_of_central_directory_offset search_upper_bound
    search_results ← find_and_parse rfind_iter file bounds.0 bounds.1
    ok (map (directory_info_of config file cde_start_pos search_upper_bound) search_results)
