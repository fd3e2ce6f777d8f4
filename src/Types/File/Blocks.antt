-- ===== src/Types/File/Blocks.antt =====
-- src/types.rs: the local and the central header of an entry. The outer `none` is a panic, where an
-- `unwrap` of a conversion fails. The sum of the two extra fields' lengths is taken in a `u16`, and
-- wraps as it does in a release build.
pub mod Readable
use zip.Prelude.{
  ℕ, ◌+◌, ◌*◌, ◌/◌, ◌^◌, ◌%◌, min, max, bit_or, Bool, not, ◌&&◌, ltb, if◌then◌else◌, Option, none,
  some, List, length,
}
use zip.Result.{ZipResult, ok, err, invalid_archive}
use zip.Compression.{serialize_to_u16}
use zip.Spec.Records.{
  zip64_bytes_thr, local_file_header_signature, central_directory_header_signature,
}
use zip.Types.DateTime.{DateTime, timepart, datepart}
use zip.Types.Headers.{ZipCentralEntryBlock, ZipLocalEntryBlock}
use zip.Types.Utf8.{is_valid_utf8, all_ascii}
use zip.Types.File.{ZipFileData, u8_from, version_needed, len_or_default}
use zip.Types.File.Zip64.{Zip64ExtraFieldBlock, zip64_extra_field_block, full_size}

unfoldable pub flags : ZipFileData → ℕ
flags f =
    let utf8_bit =
      if is_valid_utf8 f.file_name_raw && not (all_ascii f.file_name_raw) then 2 ^ 11 else 0 in
    let encrypted_bit = if f.encrypted then 2 ^ 0 else 0 in bit_or utf8_bit encrypted_bit

unfoldable pub clamp_size_field : ZipFileData → ℕ → ℕ
clamp_size_field f field = if f.large_file then zip64_bytes_thr else min field zip64_bytes_thr

infixl 5 ◌>>=◌
abbrev pub ◌>>=◌ {ℓ κ} : {A : Type ℓ} {B : Type κ} → Option A → (A → Option B) → Option B
none >>= f = none
some a >>= f = f a

-- `try_into` a `u16`, for an `unwrap`.
abbrev pub try_into_u16 : ℕ → Option ℕ
try_into_u16 n = if ltb n (2 ^ 16) then some n else none

abbrev pub unwrap_or : DateTime → Option DateTime → DateTime
unwrap_or d none = d
unwrap_or d (some t) = t

abbrev pub full_size_or_zero : Option Zip64ExtraFieldBlock → ℕ
full_size_or_zero none = 0
full_size_or_zero (some b) = full_size b

-- `default_for_write` reads the clock.
module _ (default_for_write : DateTime) where
  unfoldable pub local_block : ZipFileData → Option (ZipResult ZipLocalEntryBlock)
  unfolding flags clamp_size_field zip64_extra_field_block version_needed
  local_block f =
      let compressed_size = clamp_size_field f f.compressed_size in
      let uncompressed_size = clamp_size_field f f.uncompressed_size in
      let extra_block_len = full_size_or_zero (zip64_extra_field_block f) in
      let extra_field_length = len_or_default f.extra_field + extra_block_len in
      let last_modified_time = unwrap_or default_for_write f.last_modified_time in
      if not (ltb extra_field_length (2 ^ 16))
      then some (err (invalid_archive "Extra data field is too large"))
      else do
        file_name_length ← try_into_u16 (length f.file_name_raw)
        some (
            ok (record {
              magic = local_file_header_signature;
              version_made_by = version_needed f;
              flags = flags f;
              compression_method = serialize_to_u16 f.compression_method;
              last_mod_time = timepart last_modified_time;
              last_mod_date = datepart last_modified_time;
              crc32 = f.crc32;
              compressed_size = compressed_size;
              uncompressed_size = uncompressed_size;
              file_name_length = file_name_length;
              extra_field_length = extra_field_length;
            }))

  unfoldable pub block : ZipFileData → ℕ → Option (ZipResult ZipCentralEntryBlock)
  unfolding flags version_needed
  block f zip64_extra_field_length = do
    extra_field_len ← try_into_u16 (len_or_default f.extra_field)
    central_extra_field_len ← try_into_u16 (len_or_default f.central_extra_field)
    let last_modified_time = unwrap_or default_for_write f.last_modified_time
    file_name_length ← try_into_u16 (length f.file_name_raw)
    let extra_field_length =
        zip64_extra_field_length + (extra_field_len + central_extra_field_len) % 2 ^ 16
    if not (ltb extra_field_length (2 ^ 16))
        then some (err (invalid_archive "Extra field length in central directory exceeds 64KiB"))
        else do
          file_comment_length ← try_into_u16 (length f.file_comment)
          some (
              ok (record {
                magic = central_directory_header_signature;
                version_made_by =
                    bit_or (u8_from f.system * 2 ^ 8 % 2 ^ 16)
                      (max f.version_made_by (version_needed f));
                version_to_extract = version_needed f;
                flags = flags f;
                compression_method = serialize_to_u16 f.compression_method;
                last_mod_time = timepart last_modified_time;
                last_mod_date = datepart last_modified_time;
                crc32 = f.crc32;
                compressed_size = min f.compressed_size zip64_bytes_thr;
                uncompressed_size = min f.uncompressed_size zip64_bytes_thr;
                file_name_length = file_name_length;
                extra_field_length = extra_field_length;
                file_comment_length = file_comment_length;
                disk_number = 0;
                internal_file_attributes = 0;
                external_file_attributes = f.external_attributes;
                offset = min f.header_start zip64_bytes_thr;
              }))
