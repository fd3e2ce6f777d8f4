-- ===== src/Tests/Metadata.antt =====
-- src/read.rs: the end records of small files, the extra field of an entry, and names in code page 437.
use zip.Prelude.{
  replicate, ℕ, ◌≡◌, ◌≢◌, refl, arith, true, none, some, List, [], ◌∷◌, ◌++◌, All, sym, ap, ◌∙◌,
}
use zip.Result.{ZipResult, ok, to_option}
use zip.LittleEndian.{IsByte}
use zip.Spec.Block.{size_of}
use zip.Spec.Find.Zip32.Window.{ParsesAt, ParsesAt-room}
use zip.Spec.Zip32End.{Zip32CentralDirectoryEnd}
use zip.Spec.Find.{Finder}
use zip.Spec.Find.Zip32
use zip.Types.File.{ZipFileData}
use zip.Read.Config.{Config, detect, from_central_directory}
use zip.Read.Directory.{
  CentralDirectoryInfo, get_directory_info_zip32, get_directory_info_zip64, peek,
}
use zip.Read.Directory.Prefix.{info_at, get_directory_info_zip32_prefix}
use zip.Read.Metadata.{get_metadata, read_central_header, SharedBuilder}
use zip.Read.Metadata.Safe.{get_metadata_safe}
use zip.Read.Metadata.First.{get_metadata-IsFirst, IsFirst, IsSorted, candidates_of}
use zip.Read.ExtraField.{parse_extra_field, parse_fields, stripped}
use zip.Read.ExtraField.Progress.{parse_fields-parse_extra_field}
use zip.Read.Metadata.Last.{get_metadata-last}
use zip.Tests.File.{small}
use zip.Tests.Spec.Finder.{every_offset, every_offset-IsFinder}

abbrev no_checksum : List ℕ → ℕ
no_checksum bs = 0

abbrev no_files : Zip32CentralDirectoryEnd
no_files = record {
  disk_number = 0;
  disk_with_central_directory = 0;
  number_of_files_on_this_disk = 0;
  number_of_files = 0;
  central_directory_size = 0;
  central_directory_offset = 0;
  zip_file_comment = [];
}

-- An archive without entries.
abbrev empty_archive : List ℕ
empty_archive =
    0x50 ∷ 0x4b ∷ 5 ∷ 6 ∷ 0 ∷ 0 ∷ 0 ∷ 0 ∷ 0 ∷ 0 ∷ 0 ∷ 0 ∷ 0 ∷ 0 ∷ 0 ∷ 0 ∷ 0 ∷ 0 ∷ 0 ∷ 0 ∷ 0 ∷ 0 ∷ []

-- In this file the signature stands at the start, and nowhere else.
abbrev at_start : Finder
at_start needle hay = 0 ∷ []

abbrev default_config : Config
default_config = record { archive_offset = detect }

get_metadata_safe_example : get_metadata no_checksum at_start default_config empty_archive ≢ none
get_metadata_safe_example = get_metadata_safe no_checksum at_start default_config empty_archive

abbrev no_shared : SharedBuilder
no_shared = record { files = []; offset = 0; dir_start = 0 }

finds_empty : Zip32.find_and_parse at_start empty_archive ≡ ok ((no_files, 0) ∷ [])
unfolding Zip32.find_and_parse zip.Cursor.run_at zip.Cursor.read_exact zip.Spec.Zip32End.parse
    zip.Spec.Block.parse zip.Spec.Block.size_of zip.Spec.Block.interpret
    zip.Spec.Block.decode_fields zip.LittleEndian.from_le_bytes
finds_empty = refl

opens_empty :
    get_metadata no_checksum at_start default_config empty_archive ≡ some (ok (no_files, no_shared))
unfolding get_metadata Zip32.find_and_parse zip.Cursor.run_at zip.Cursor.read_exact
    zip.Spec.Zip32End.parse zip.Spec.Block.parse zip.Spec.Block.size_of zip.Spec.Block.interpret
    zip.Spec.Block.decode_fields zip.LittleEndian.from_le_bytes
opens_empty = refl

get_metadata-IsFirst_example :
    IsSorted (candidates_of no_checksum at_start default_config empty_archive ((no_files, 0) ∷ []))
    × IsFirst no_checksum at_start empty_archive no_files no_shared
        (candidates_of no_checksum at_start default_config empty_archive ((no_files, 0) ∷ []))
get_metadata-IsFirst_example =
    get_metadata-IsFirst no_checksum at_start default_config empty_archive ((no_files, 0) ∷ [])
      no_files no_shared finds_empty opens_empty

-- An archive without entries that has ZIP64 records: the end record, its locator, and the old end
-- record, which leaves its numbers to them.
abbrev zip64_record : List ℕ
zip64_record =
    0x50 ∷ 0x4b ∷ 6 ∷ 6 ∷ 44 ∷ 0 ∷ 0 ∷ 0 ∷ 0 ∷ 0 ∷ 0 ∷ 0 ∷ 45 ∷ 0 ∷ 45 ∷ 0 ∷ replicate 40 0

abbrev zip64_locator : List ℕ
zip64_locator = 0x50 ∷ 0x4b ∷ 6 ∷ 7 ∷ replicate 12 0 ++ (1 ∷ 0 ∷ 0 ∷ 0 ∷ [])

abbrev zip64_archive : List ℕ
zip64_archive =
    zip64_record
    ++ (zip64_locator ++ (0x50 ∷ 0x4b ∷ 5 ∷ 6 ∷ 0 ∷ 0 ∷ 0 ∷ 0 ∷ replicate 12 0xff ++ (0 ∷ 0 ∷ [])))

abbrev no_numbers : Zip32CentralDirectoryEnd
no_numbers = record no_files {
  number_of_files_on_this_disk = 0xffff;
  number_of_files = 0xffff;
  central_directory_size = 0xffff_ffff;
  central_directory_offset = 0xffff_ffff;
}

-- The ZIP64 record is found right before its locator.
finds_zip64 :
    get_directory_info_zip64 every_offset default_config zip64_archive no_numbers 76
    ≡ ok (ok (record (info_at no_files 76 0) { is_zip64 = true }) ∷ [])
unfolding get_directory_info_zip64 zip.Cursor.run_at zip.Cursor.read_exact every_offset
    zip.Spec.Zip64End.parse_locator zip.Spec.Zip64End.parse zip.Spec.Block.parse
    zip.Spec.Block.size_of zip.Spec.Block.interpret zip.Spec.Block.decode_fields
    zip.LittleEndian.from_le_bytes zip.LittleEndian.to_le_bytes
finds_zip64 = refl

-- Two archives without entries, one behind the other.
abbrev two_archives : List ℕ
two_archives = empty_archive ++ empty_archive

two_archives-IsByte : All IsByte two_archives
two_archives-IsByte = ground arith

second_parses : ParsesAt two_archives (no_files, 22)
unfolding zip.Cursor.run_at zip.Cursor.read_exact zip.Spec.Zip32End.parse zip.Spec.Block.parse
    zip.Spec.Block.size_of zip.Spec.Block.interpret zip.Spec.Block.decode_fields
    zip.LittleEndian.from_le_bytes
second_parses = refl

second_directory :
    get_directory_info_zip32 default_config two_archives no_files 22 ≡ ok (info_at no_files 22 0)
unfolding get_directory_info_zip32 zip.Cursor.run_at zip.Cursor.read_exact
    zip.LittleEndian.from_le_bytes
second_directory = refl

some-none : (rs : List (ZipResult CentralDirectoryInfo)) → ¬ (some rs ≡ none)
some-none rs e = absurd (cc)

no_zip64_records :
    to_option (get_directory_info_zip64 every_offset default_config two_archives no_files 22) ≡ none
unfolding get_directory_info_zip64 zip.Cursor.run_at zip.Cursor.read_exact
    zip.Spec.Zip64End.parse_locator zip.Spec.Block.parse zip.Spec.Block.size_of
    zip.Spec.Block.interpret zip.Spec.Block.decode_fields zip.LittleEndian.from_le_bytes
no_zip64_records = refl

nothing_read :
    read_central_header no_checksum every_offset (info_at no_files 22 0) two_archives ≡ ok no_shared
unfolding read_central_header zip.Cursor.run_at zip.Read.Header.read_files
nothing_read = refl

get_metadata-last_example :
    get_metadata no_checksum every_offset default_config two_archives
    ≡ some (ok (no_files, no_shared))
unfolding size_of
get_metadata-last_example =
    get_metadata-last no_checksum every_offset default_config two_archives no_files
      (info_at no_files 22 0) second_directory
      (λ rs h. some-none rs (sym (ap to_option h) ∙ no_zip64_records)) no_shared
      every_offset-IsFinder two_archives-IsByte (omega arith) second_parses
      (λ (cde, p) h. omega (arith, ParsesAt-room two_archives cde p two_archives-IsByte h))
      nothing_read refl

-- Three bytes, and the signature of a central header.
abbrev prefixed : List ℕ
prefixed = 9 ∷ 9 ∷ 9 ∷ 0x50 ∷ 0x4b ∷ 1 ∷ 2 ∷ []

abbrev four_bytes : Zip32CentralDirectoryEnd
four_bytes = record no_files { central_directory_size = 4 }

peeked : peek prefixed 3 ≡ ok true
unfolding zip.Cursor.run_at zip.Cursor.read_exact zip.LittleEndian.from_le_bytes
peeked = refl

get_directory_info_zip32_prefix_example :
    (get_directory_info_zip32
        (record { archive_offset = from_central_directory })
        prefixed
        four_bytes
        7
      ≡ ok (info_at four_bytes 7 3))
    × (get_directory_info_zip32 (record { archive_offset = detect }) prefixed four_bytes 7
        ≡ ok (info_at four_bytes 7 3))
get_directory_info_zip32_prefix_example =
    get_directory_info_zip32_prefix prefixed four_bytes 3 7 true refl (omega arith) peeked

-- A field of an unknown kind with one byte.
abbrev with_field : ZipFileData
with_field = record small { extra_field = some (7 ∷ 0 ∷ 1 ∷ 0 ∷ 42 ∷ []) }

parse_fields-parse_extra_field_example :
    parse_extra_field no_checksum with_field
    ≡ stripped (
        parse_fields no_checksum 9
          (7 ∷ 0 ∷ 1 ∷ 0 ∷ 42 ∷ [])
          (7 ∷ 0 ∷ 1 ∷ 0 ∷ 42 ∷ [])
          with_field
          (record { bytes = 7 ∷ 0 ∷ 1 ∷ 0 ∷ 42 ∷ []; pos = 0 }))
parse_fields-parse_extra_field_example =
    parse_fields-parse_extra_field no_checksum with_field 9 (7 ∷ 0 ∷ 1 ∷ 0 ∷ 42 ∷ []) refl
      (omega arith)

-- The entry is as it was, and its field is kept.
unknown_kept : parse_extra_field no_checksum with_field ≡ (ok with_field.extra_field, with_field)
unfolding parse_extra_field zip.Cursor.read_le zip.Cursor.read_exact zip.LittleEndian.from_le_bytes
    zip.Read.ExtraField.◌>>=◌ zip.Read.ExtraField.reading zip.Read.ExtraField.pure
unknown_kept = refl
