-- ===== src/Tests/File.antt =====
-- src/types.rs: headers of two entries, one of them large.
use zip.Prelude.{◌⊎◌, ◌+◌, ◌/◌, ◌^◌, ◌≡◌, ◌≤◌, ◌<◌, refl, arith, true, false, none, some, [], ◌∷◌}
use zip.Result.{ok, err, invalid_archive}
use zip.Compression.{stored, deflated, lzma, bzip2}
use zip.Spec.Block.{interpret, encode}
use zip.Spec.Records.{zip64_bytes_thr}
use zip.Types.DateTime.{default}
use zip.Types.Headers.{ZipLocalEntryBlock, ZipCentralEntryBlock, zip_central_entry_block}
use zip.Types.File.{
  ZipFileData, unix, dos, system_from, version_needed, compression_version, unix_mode, s_ifdir,
  is_some,
}
use zip.Types.File.Zip64.{Zip64ExtraFieldBlock, zip64_extra_field_block}
use zip.Types.File.Blocks.{block}
use zip.Types.File.Blocks.Readable.{InRange, interpret-block}
use zip.Cursor.{Cursor}
use zip.Write.Headers.{write_central_directory_header}
use zip.Write.Headers.Total.{
  IsWritten, zip64_length, extra_length, write_central_directory_header_total,
}

-- A file named `a`.
abbrev pub small : ZipFileData
small = record {
  system = unix;
  version_made_by = 45;
  encrypted = false;
  is_utf8 = false;
  using_data_descriptor = false;
  compression_method = deflated;
  compression_level = none;
  last_modified_time = some default;
  crc32 = 0x1234;
  compressed_size = 10;
  uncompressed_size = 20;
  file_name = 97 ∷ [];
  file_name_raw = 97 ∷ [];
  extra_field = none;
  central_extra_field = none;
  file_comment = [];
  header_start = 0;
  extra_data_start = none;
  central_header_start = 0;
  data_start = none;
  external_attributes = 0x81a4_0000;
  large_file = false;
  aes_mode = none;
  aes_extra_data_start = 0;
  extra_fields = [];
}

abbrev large : ZipFileData
large = record small { large_file = true; uncompressed_size = 0x1_0000_0000 }

pub small-InRange : InRange default small
unfolding zip.Compression.serialize_to_u16 zip.Types.DateTime.is_valid
    zip.Types.DateTime.from_date_and_time zip.Types.DateTime.max_day
small-InRange = record {
  crc32 = omega arith;
  method = omega arith;
  moment = refl;
  attributes = omega arith;
  made_by = omega arith;
}

abbrev pub small_local : ZipLocalEntryBlock
small_local = record {
  magic = 0x04034b50;
  version_made_by = 20;
  flags = 0;
  compression_method = 8;
  last_mod_time = 0;
  last_mod_date = 33;
  crc32 = 0x1234;
  compressed_size = 10;
  uncompressed_size = 20;
  file_name_length = 1;
  extra_field_length = 0;
}

abbrev pub small_central : ZipCentralEntryBlock
small_central = record {
  magic = 0x02014b50;
  version_made_by = 0x032d;
  version_to_extract = 20;
  flags = 0;
  compression_method = 8;
  last_mod_time = 0;
  last_mod_date = 33;
  crc32 = 0x1234;
  compressed_size = 10;
  uncompressed_size = 20;
  file_name_length = 1;
  extra_field_length = 0;
  file_comment_length = 0;
  disk_number = 0;
  internal_file_attributes = 0;
  external_file_attributes = 0x81a4_0000;
  offset = 0;
}

central_small : block default small 0 ≡ some (ok small_central)
unfolding block zip.Types.Utf8.is_valid_utf8 zip.Compression.serialize_to_u16
    zip.Types.DateTime.timepart zip.Types.DateTime.datepart zip.Types.Utf8.all_ascii
    zip.Types.File.u8_from
central_small = refl

abbrev large_field : Zip64ExtraFieldBlock
large_field = record {
  magic = 1;
  size = 16;
  uncompressed_size = some zip64_bytes_thr;
  compressed_size = some zip64_bytes_thr;
  header_start = none;
}

-- The sizes in the field are not the sizes of the entry.
zip64_of_large : zip64_extra_field_block large ≡ some large_field
unfolding zip64_extra_field_block
zip64_of_large = refl

interpret-block_example :
    (interpret zip_central_entry_block (encode zip_central_entry_block small_central)
      ≡ ok small_central)
    × (system_from (0x032d / 2 ^ 8) ≡ unix)
interpret-block_example = interpret-block default small small-InRange 0 central_small

abbrev nowhere : Cursor
nowhere = record { bytes = []; pos = 0 }

write_central_directory_header_total_example :
    ((zip64_length default small + extra_length default small < 2 ^ 16)
      × IsWritten default small nowhere)
    ⊎ ((2 ^ 16 ≤ zip64_length default small + extra_length default small)
        × (write_central_directory_header default small nowhere
            ≡ some (
              err (invalid_archive "Extra field length in central directory exceeds 64KiB"),
              nowhere,
            )))
write_central_directory_header_total_example =
    write_central_directory_header_total default small nowhere small-InRange (omega arith)
      (omega arith) (omega arith)
