-- ===== src/Read/Stream.antt =====
-- src/read.rs, `read_zipfile_from_stream`, and src/types.rs, `from_local_block`: an entry is read from
-- its local header, without a seek. Of the reader that is made, the model has the bytes that it is
-- limited to; they are still to be read where the cursor is. No password is given here.
pub mod Local
pub mod Visit
use zip.Prelude.{
  ℕ, ◌/◌, ◌%◌, ◌^◌, bit_and, not, ◌==◌, if◌then◌else◌, Option, none, some, true, false, List, [],
  take,
}
use zip.Result.{ZipResult, ok, err, io, unsupported_archive}
use zip.LittleEndian.{from_le_bytes}
use zip.Cursor.{Cursor, Io, ◌>>=◌, ◌>>◌, pure, throw, lift, read_exact, remaining}
use zip.Compression.{CompressionMethod, aes, unsupported, parse_from_u16}
use zip.Cp437.{from_cp437}
use zip.Spec.Block.{size_of, interpret}
use zip.Spec.Records.{central_directory_header_signature, local_file_header_signature}
use zip.Types.DateTime.{try_from_msdos}
use zip.Types.Utf8.Lossy.{from_utf8_lossy}
use zip.Types.Headers.{ZipLocalEntryBlock, zip_local_entry_block}
use zip.Types.File.{ZipFileData, system_from}
use zip.Read.ExtraField.{parse_extra_field}
use zip.Read.Header.{decode_text}

-- What is known of an entry from its local header.
unfoldable pub local_entry_of :
    ZipLocalEntryBlock → (file_name_raw extra_field : List ℕ) → ZipFileData
unfolding from_utf8_lossy from_cp437
local_entry_of b file_name_raw extra_field =
    let is_utf8 = not (bit_and b.flags (2 ^ 11) == 0) in
    record {
      system = system_from (b.version_made_by / 2 ^ 8);
      version_made_by = b.version_made_by % 2 ^ 8;
      encrypted = bit_and b.flags 1 == 1;
      is_utf8 = is_utf8;
      using_data_descriptor = bit_and b.flags (2 ^ 3) == 2 ^ 3;
      compression_method = parse_from_u16 b.compression_method;
      compression_level = none;
      last_modified_time = try_from_msdos b.last_mod_date b.last_mod_time;
      crc32 = b.crc32;
      compressed_size = b.compressed_size;
      uncompressed_size = b.uncompressed_size;
      file_name = decode_text is_utf8 file_name_raw;
      file_name_raw = file_name_raw;
      extra_field = some extra_field;
      central_extra_field = none;
      file_comment = [];
      header_start = 0;
      extra_data_start = none;
      central_header_start = 0;
      data_start = none;
      external_attributes = 0;
      large_file = false;
      aes_mode = none;
      aes_extra_data_start = 0;
      extra_fields = [];
    }

unfoldable pub from_local_block : ZipLocalEntryBlock → Io ZipFileData
unfolding local_entry_of
from_local_block b =
    if bit_and b.flags 1 == 1
    then throw (unsupported_archive "Encrypted files are not supported")
    else if bit_and b.flags (2 ^ 3) == 2 ^ 3
    then throw (unsupported_archive "The file length is not available in the local header")
    else do
      file_name_raw ← read_exact b.file_name_length
      extra_field ← read_exact b.extra_field_length
      pure (local_entry_of b file_name_raw extra_field)

-- An input/output error in the extra field is passed over. The extra field stays as it was read.
abbrev pub keep_entry : ZipResult (Option (List ℕ)) × ZipFileData → ZipResult ZipFileData
keep_entry (ok stripped_extra_field, f) = ok f
keep_entry (err (io e), f) = ok f
keep_entry (err e, f) = err e

-- The methods that `make_crypto_reader` and `make_reader` refuse where every decoder is built in.
abbrev pub check_method : CompressionMethod → ZipResult (Unit {0})
check_method aes = err (unsupported_archive "Compression method not supported")
check_method (unsupported v) = err (unsupported_archive "Compression method not supported")
check_method m = ok tt

-- The entry, and the bytes that its reader is limited to.
abbrev pub limited : ZipFileData → Io (Option (ZipFileData × List ℕ))
limited f c = ok (some (f, take f.compressed_size (remaining c)), c)

module _ (crc32 : List ℕ → ℕ) where
  unfoldable pub read_zipfile_from_stream : Io (Option (ZipFileData × List ℕ))
  unfolding size_of interpret from_local_block parse_extra_field
  read_zipfile_from_stream = do
    block ← read_exact (size_of zip_local_entry_block)
    let signature = from_le_bytes (take 4 block)
    if signature == local_file_header_signature
        then (do
          b ← lift (interpret zip_local_entry_block block)
          entry ← from_local_block b
          result ← lift (keep_entry (parse_extra_field crc32 entry))
          lift (check_method result.compression_method)
          limited result)
        else if signature == central_directory_header_signature
        then pure none
        else throw (zip_local_entry_block.wrong_magic_error)
