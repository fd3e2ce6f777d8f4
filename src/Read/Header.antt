-- ===== src/Read/Header.antt =====
-- src/read.rs: an entry is read from its central header, and its content is found behind its local
-- header. A `u64` sum wraps as it does in a release build.
pub mod Entry
pub mod Central
pub mod Located
pub mod Directory
use zip.Prelude.{
  ℕ, zero, suc, ◌+◌, ◌/◌, ◌%◌, ◌^◌, bit_and, Bool, true, false, ◌&&◌, not, ltb, ◌==◌, if◌then◌else◌,
  Option, none, some, List, [], ◌∷◌, length, take, drop,
}
use zip.Result.{ZipError, ZipResult, ok, err, io, invalid_archive, unsupported_archive}
use zip.Cursor.{
  Cursor, Io, ◌>>=◌, ◌>>◌, pure, throw, lift, read_exact, remaining, seek_start, stream_position,
}
use zip.Compression.{CompressionMethod, aes, parse_from_u16}
use zip.Cp437.{from_cp437}
use zip.Spec.Block.{parse, size_of}
use zip.Types.DateTime.{try_from_msdos}
use zip.Types.Utf8.Lossy.{from_utf8_lossy}
use zip.Types.Headers.{ZipCentralEntryBlock, zip_central_entry_block, zip_local_entry_block}
use zip.Types.File.{ZipFileData, system_from, is_some}
use zip.Read.ExtraField.{parse_extra_field}

-- Sets the `OnceLock`, unless it is set.
abbrev pub set_data_start : Option ℕ → ℕ → Option ℕ
set_data_start none data_start = some data_start
set_data_start (some set) data_start = some set

-- The place of the content, and the entry that keeps it.
unfoldable pub find_data_start : ZipFileData → Io (ℕ × ZipFileData)
find_data_start f = do
  seek_start f.header_start
  block ← parse zip_local_entry_block
  let variable_fields_len = block.file_name_length + block.extra_field_length
  let data_start = (f.header_start + size_of zip_local_entry_block + variable_fields_len) % 2 ^ 64
  pure (data_start, record f { data_start = set_data_start f.data_start data_start })

abbrev known_data_start : ZipFileData → Option ℕ → Io (ℕ × ZipFileData)
known_data_start f none = find_data_start f
known_data_start f (some data_start) = pure (data_start, f)

-- The bytes that the limited reader yields, and the entry.
unfoldable pub find_content : ZipFileData → Io (List ℕ × ZipFileData)
unfolding find_data_start
find_content f = do
  found ← known_data_start f f.data_start
  seek_start found.0
  λ c. ok ((take f.compressed_size (remaining c), found.1), c)

-- `read_variable_length_byte_field` is `read_exact` into a buffer of that length.
abbrev pub decode_text : Bool → List ℕ → List ℕ
decode_text true raw = from_utf8_lossy raw
decode_text false raw = from_cp437 raw

-- What is known of an entry from its central header, before its extra field is read.
unfoldable pub entry_of :
    ZipCentralEntryBlock
    → (central_header_start : ℕ) → (file_name_raw extra_field file_comment_raw : List ℕ)
    → ZipFileData
unfolding from_utf8_lossy from_cp437
entry_of b central_header_start file_name_raw extra_field file_comment_raw =
    let is_utf8 = not (bit_and b.flags (2 ^ 11) == 0) in
    record {
      system = system_from (b.version_made_by / 2 ^ 8 % 2 ^ 8);
      version_made_by = b.version_made_by % 2 ^ 8;
      encrypted = bit_and b.flags 1 == 1;
      is_utf8 = is_utf8;
      using_data_descriptor = not (bit_and b.flags (2 ^ 3) == 0);
      compression_method = parse_from_u16 b.compression_method;
      compression_level = none;
      last_modified_time = try_from_msdos b.last_mod_date b.last_mod_time;
      crc32 = b.crc32;
      compressed_size = b.compressed_size;
      uncompressed_size = b.uncompressed_size;
      file_name = decode_text is_utf8 file_name_raw;
      file_name_raw = file_name_raw;
      extra_field = some extra_field;
      central_extra_field = none;
      file_comment = decode_text is_utf8 file_comment_raw;
      header_start = b.offset;
      extra_data_start = none;
      central_header_start = central_header_start;
      data_start = none;
      external_attributes = b.external_file_attributes;
      large_file = false;
      aes_mode = none;
      aes_extra_data_start = 0;
      extra_fields = [];
    }

-- An input/output error in the extra field is passed over; what was read before it stays.
unfoldable pub keep_extra_field : ZipResult (Option (List ℕ)) × ZipFileData → ZipResult ZipFileData
keep_extra_field (ok stripped_extra_field, f) = ok (record f { extra_field = stripped_extra_field })
keep_extra_field (err (io e), f) = ok f
keep_extra_field (err e, f) = err e

abbrev pub is_aes : CompressionMethod → Bool
is_aes aes = true
is_aes m = false

abbrev pub check_aes : ZipFileData → ZipResult (Unit {0})
check_aes f =
    if is_aes f.compression_method && not (is_some f.aes_mode)
    then err (invalid_archive "AES encryption without AES extra data field")
    else ok tt

-- `checked_add` on a `u64`.
unfoldable pub shift_header_start : ℕ → ZipFileData → ZipResult ZipFileData
shift_header_start archive_offset f =
    if ltb (f.header_start + archive_offset) (2 ^ 64)
    then ok (record f { header_start = f.header_start + archive_offset })
    else err (invalid_archive "Archive header is too large")

module _ (crc32 : List ℕ → ℕ) where
  unfoldable pub central_header_to_zip_file_inner :
      (archive_offset central_header_start : ℕ) → ZipCentralEntryBlock → Io ZipFileData
  unfolding parse_extra_field
  central_header_to_zip_file_inner archive_offset central_header_start b = do
    file_name_raw ← read_exact b.file_name_length
    extra_field ← read_exact b.extra_field_length
    file_comment_raw ← read_exact b.file_comment_length
    let entry = entry_of b central_header_start file_name_raw extra_field file_comment_raw
    result ← lift (keep_extra_field (parse_extra_field crc32 entry))
    lift (check_aes result)
    lift (shift_header_start archive_offset result)

  unfoldable pub central_header_to_zip_file : ℕ → Io ZipFileData
  unfolding central_header_to_zip_file_inner find_data_start
  central_header_to_zip_file archive_offset = do
    central_header_start ← stream_position
    block ← parse zip_central_entry_block
    file ← central_header_to_zip_file_inner archive_offset central_header_start block
    central_header_end ← stream_position
    found ← find_data_start file
    if ltb central_header_start found.0
        then throw (invalid_archive "A file can't start after its central-directory header")
        else do seek_start central_header_end; pure found.1

  -- As many entries as the end record says, one behind the other.
  unfoldable pub read_files : ℕ → ℕ → Io (List ZipFileData)
  unfolding central_header_to_zip_file
  read_files zero archive_offset = pure []
  read_files (suc number_of_files) archive_offset = do
    file ← central_header_to_zip_file archive_offset
    files ← read_files number_of_files archive_offset
    pure (file ∷ files)
