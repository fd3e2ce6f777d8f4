-- ===== src/Write/Headers.antt =====
-- src/write.rs: the central header, the ZIP64 extra fields and the updates of a local header.
pub mod Written
pub mod Total
pub mod Updated
use zip.Prelude.{
  ℕ, ◌+◌, ◌^◌, ◌%◌, Bool, true, false, not, ltb, leb, if◌then◌else◌, Option, none, some, List, [],
  ◌∷◌, ◌++◌, length, take, drop, replicate,
}
use zip.Result.{ZipResult, ok, err, io, other, invalid_archive}
use zip.LittleEndian.{to_le_bytes}
use zip.Cursor.{Cursor}
use zip.Compression.{serialize_to_u16}
use zip.Spec.Block
use zip.Spec.Records.{zip64_bytes_thr}
use zip.Types.DateTime.{DateTime}
use zip.Types.Headers.{zip_central_entry_block, zip_local_entry_block}
use zip.Types.File.{ZipFileData, AesMode, aes128, aes192, aes256, AesVendorVersion, ae1, ae2}
use zip.Types.File.Zip64.{Zip64ExtraFieldBlock, zip64_extra_field_block, serialize}
use zip.Types.File.Blocks.{block}
use zip.Write.Monad.{Writer, ◌>>=◌, ◌>>◌, pure, throw, unwrap, attempt, write_bytes, seek_start}

abbrev pub write_zip64 : Option Zip64ExtraFieldBlock → Writer ℕ
write_zip64 none = pure 0
write_zip64 (some b) = do write_bytes (serialize b); pure (length (serialize b))

unfoldable pub write_central_zip64_extra_field : ZipFileData → Writer ℕ
unfolding zip64_extra_field_block serialize
write_central_zip64_extra_field f = write_zip64 (zip64_extra_field_block f)

-- The buffer `[0; 28]` and what the field fills of it.
abbrev pub zip64_buffer : Cursor
zip64_buffer = record { bytes = replicate 28 0; pos = 0 }

abbrev pub buffered : Option (ZipResult ℕ × Cursor) → Writer (List ℕ)
buffered none c = none
buffered (some (err e, b)) c = some (err e, c)
buffered (some (ok len, b)) c = some (ok (take len b.bytes), c)

abbrev pub write_optional : Option (List ℕ) → Writer (Unit {0})
write_optional none = pure tt
write_optional (some xs) = write_bytes xs

unfoldable pub write_central_directory_header : DateTime → ZipFileData → Writer (Unit {0})
unfolding write_central_zip64_extra_field block
write_central_directory_header default_for_write f = do
  zip64_extra_field ← buffered (write_central_zip64_extra_field f zip64_buffer)
  b ← attempt (block default_for_write f (length zip64_extra_field))
  write_bytes (Block.encode zip_central_entry_block b)
  write_bytes f.file_name_raw
  write_bytes zip64_extra_field
  write_optional f.extra_field
  write_optional f.central_extra_field
  write_bytes f.file_comment

abbrev local_zip64 : Option Zip64ExtraFieldBlock → Writer (Unit {0})
local_zip64 none =
    throw (
      invalid_archive
        "Attempted to write a ZIP64 extra field for a file that's within zip32 limits")
local_zip64 (some b) = write_bytes (serialize b)

unfoldable pub write_local_zip64_extra_field : ZipFileData → Writer (Unit {0})
unfolding zip64_extra_field_block
write_local_zip64_extra_field f = local_zip64 (zip64_extra_field_block f)

unfoldable pub update_local_zip64_extra_field : ZipFileData → Writer (Unit {0})
unfolding zip64_extra_field_block serialize
update_local_zip64_extra_field f =
    if not f.large_file
    then throw (invalid_archive "Attempted to update a nonexistent ZIP64 extra field")
    else do
      let zip64_extra_field =
          (f.header_start + Block.size_of zip_local_entry_block + length f.file_name_raw) % 2 ^ 64
      seek_start zip64_extra_field
      b ← unwrap (zip64_extra_field_block f)
      write_bytes (serialize b)

-- A number that is cast to a `u32`.
abbrev write_u32 : ℕ → Writer (Unit {0})
write_u32 n = write_bytes (to_le_bytes 4 n)

unfoldable pub update_local_file_header : ZipFileData → Writer (Unit {0})
unfolding update_local_zip64_extra_field
update_local_file_header f = do
  seek_start ((f.header_start + 14) % 2 ^ 64)
  write_u32 f.crc32
  if f.large_file
      then update_local_zip64_extra_field f
      else if ltb zip64_bytes_thr f.compressed_size
      then throw (io (other "Large file option has not been set"))
      else do write_u32 f.compressed_size; write_u32 f.uncompressed_size

-- `version as u16` and `aes_mode as u8`.
abbrev vendor_number : AesVendorVersion → ℕ
vendor_number ae1 = 0x0001
vendor_number ae2 = 0x0002

abbrev strength : AesMode → ℕ
strength aes128 = 0x01
strength aes192 = 0x02
strength aes256 = 0x03

-- `splice` of the extra field; it panics where the range is not inside.
abbrev pub splice : ℕ → List ℕ → Option (List ℕ) → Option (List ℕ)
splice start buf none = none
splice start buf (some extra_field) =
    if leb (start + length buf) (length extra_field)
    then some (take start extra_field ++ (buf ++ drop (start + length buf) extra_field))
    else none

-- The field as it is written.
abbrev pub aes_field : AesMode × AesVendorVersion × zip.Compression.CompressionMethod → List ℕ
aes_field (aes_mode, version, compression_method) =
    to_le_bytes 2 0x9901
    ++ (to_le_bytes 2 7
        ++ (to_le_bytes 2 (vendor_number version)
            ++ (0x41
                ∷ 0x45
                ∷ strength aes_mode
                ∷ to_le_bytes 2 (serialize_to_u16 compression_method))))

abbrev pub update_aes :
    Option (AesMode × AesVendorVersion × zip.Compression.CompressionMethod)
    → ZipFileData
    → Writer ZipFileData
update_aes none f = pure f
update_aes (some mode) f = do
  extra_data_start ← unwrap f.extra_data_start
  seek_start ((extra_data_start + f.aes_extra_data_start) % 2 ^ 64)
  write_bytes (aes_field mode)
  extra_field ← unwrap (splice f.aes_extra_data_start (aes_field mode) f.extra_field)
  pure (record f { extra_field = some extra_field })

-- The entry with the field in its extra field; nothing else holds that `Arc`.
unfoldable pub update_aes_extra_data : ZipFileData → Writer ZipFileData
update_aes_extra_data f = update_aes f.aes_mode f
