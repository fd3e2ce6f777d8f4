-- ===== src/Tests/Spec.antt =====
-- src/spec.rs: runs of the end records and of the search for them.
pub mod Finder
use zip.Prelude.{
  ℕ, ◌≡◌, ◌↔◌, ◌⊎◌, refl, arith, List, [], ◌∷◌, ◌++◌, ◌^◌, replicate, length, length-replicate, All,
  In,
}
use zip.Result.{ZipResult, ok, err, invalid_archive}
use zip.LittleEndian.{IsByte, to_le_bytes}
use zip.Cursor.{Cursor, run_at}
use zip.Spec.Block.{interpret, encode, encode_fields, size_of}
use zip.Spec.Block.Laws.{IsBlock, interpret_iff, encode-IsByte}
use zip.Spec.Records.{Zip32CdeBlock, zip32_cde_block, central_directory_end_signature}
use zip.Spec.Zip32End
use zip.Spec.Zip32End.{Zip32CentralDirectoryEnd, to_block}
use zip.Spec.Zip32End.RoundTrip.{IsEnd, parse-write, write_long_comment}
use zip.Spec.Zip64End
use zip.Spec.Zip64End.{
  Zip64CentralDirectoryEnd, Zip64CentralDirectoryEndLocator, write_locator, parse_locator,
}
use zip.Spec.Zip64End.RoundTrip.{parse-write_zip64}
use zip.Spec.Find.Zip32.{find_and_parse}
use zip.Spec.Find.Zip32.Window.{ParsesAt}
use zip.Spec.Find.Zip32.Complete.{find_and_parse_all}
use zip.Tests.Spec.Finder.{every_offset, every_offset-IsFinder}

abbrev one_file : Zip32CentralDirectoryEnd
one_file = record {
  disk_number = 0;
  disk_with_central_directory = 0;
  number_of_files_on_this_disk = 1;
  number_of_files = 1;
  central_directory_size = 0x1234;
  central_directory_offset = 7;
  zip_file_comment = 104 ∷ 105 ∷ [];
}

-- Two bytes before the record.
abbrev archive : List ℕ
archive =
    1 ∷ 2 ∷ 0x50 ∷ 0x4b ∷ 5 ∷ 6 ∷ 0 ∷ 0 ∷ 0 ∷ 0 ∷ 1 ∷ 0 ∷ 1 ∷ 0 ∷ 0x34 ∷ 0x12 ∷ 0 ∷ 0 ∷ 7 ∷ 0 ∷ 0
    ∷ 0 ∷ 2 ∷ 0 ∷ 104 ∷ 105 ∷ []

archive-IsByte : All IsByte archive
archive-IsByte = ground arith

parses_one_file : ParsesAt archive (one_file, 2)
unfolding Zip32End.parse run_at zip.Spec.Block.parse zip.Cursor.read_exact size_of interpret
    zip.Spec.Block.decode_fields zip.LittleEndian.from_le_bytes
parses_one_file = refl

find_and_parse_all_example :
    ((out : List (Zip32CentralDirectoryEnd × ℕ)) × (find_and_parse every_offset archive ≡ ok out)
      × ((r : Zip32CentralDirectoryEnd × ℕ) → In r out ↔ ParsesAt archive r))
    ⊎ ((find_and_parse every_offset archive
          ≡ err (invalid_archive "Could not find central directory end"))
        × ((r : Zip32CentralDirectoryEnd × ℕ) → ¬ ParsesAt archive r))
unfolding size_of
find_and_parse_all_example =
    find_and_parse_all every_offset every_offset-IsFinder archive archive-IsByte (omega arith)

abbrev end_block : Zip32CdeBlock
end_block = to_block one_file

one_file-IsEnd : IsEnd one_file
one_file-IsEnd = ground arith

interpret_iff_example :
    (interpret zip32_cde_block (encode zip32_cde_block end_block) ≡ ok end_block) ↔ (
      (encode zip32_cde_block end_block ≡ encode zip32_cde_block end_block)
      × IsBlock zip32_cde_block end_block
      × (end_block.magic ≡ central_directory_end_signature))
interpret_iff_example =
    interpret_iff zip32_cde_block (encode zip32_cde_block end_block) end_block
      (encode-IsByte zip32_cde_block end_block)

abbrev middle : Cursor
middle = record { bytes = 1 ∷ 2 ∷ 3 ∷ []; pos = 1 }

parse-write_example :
    (c' : Cursor) × (Zip32End.write one_file middle ≡ ok (tt, c'))
    × (Zip32End.parse (record c' { pos = 1 }) ≡ ok (one_file, c'))
parse-write_example = parse-write one_file middle one_file-IsEnd

abbrev big_end : Zip64CentralDirectoryEnd
big_end = record {
  version_made_by = 45;
  version_needed_to_extract = 45;
  disk_number = 0;
  disk_with_central_directory = 0;
  number_of_files_on_this_disk = 70000;
  number_of_files = 70000;
  central_directory_size = 0x1_0000_0000;
  central_directory_offset = 0x2_0000_0000;
}

abbrev big_locator : Zip64CentralDirectoryEndLocator
big_locator = record {
  disk_with_central_directory = 0;
  end_of_central_directory_offset = 0x3_0000_0000;
  number_of_disks = 1;
}

parse-write_zip64_example :
    ((c' : Cursor) × (Zip64End.write big_end middle ≡ ok (tt, c'))
      × (Zip64End.parse (record c' { pos = 1 }) ≡ ok (big_end, c')))
    × ((c' : Cursor) × (write_locator big_locator middle ≡ ok (tt, c'))
        × (parse_locator (record c' { pos = 1 }) ≡ ok (big_locator, c')))
unfolding Zip64End.block Zip64End.locator_block
parse-write_zip64_example =
    parse-write_zip64 big_end big_locator middle (ground arith) (ground arith)
