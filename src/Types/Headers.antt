-- ===== src/Types/Headers.antt =====
-- src/types.rs: the headers of an entry, as they lie in the file.
use zip.Prelude.{ℕ, refl, [], ◌∷◌, get_or}
use zip.Result.{invalid_archive}
use zip.Spec.Block.{FixedSizeBlock, tabulate-get_or}
use zip.Spec.Records.{central_directory_header_signature, local_file_header_signature}

-- `ZipCentralEntryBlock`, and its implementation of `FixedSizeBlock`.
pub record ZipCentralEntryBlock : Type 0 where
  pub magic : ℕ
  pub version_made_by : ℕ
  pub version_to_extract : ℕ
  pub flags : ℕ
  pub compression_method : ℕ
  pub last_mod_time : ℕ
  pub last_mod_date : ℕ
  pub crc32 : ℕ
  pub compressed_size : ℕ
  pub uncompressed_size : ℕ
  pub file_name_length : ℕ
  pub extra_field_length : ℕ
  pub file_comment_length : ℕ
  pub disk_number : ℕ
  pub internal_file_attributes : ℕ
  pub external_file_attributes : ℕ
  pub offset : ℕ

abbrev pub zip_central_entry_block : FixedSizeBlock
zip_central_entry_block = record {
  Block = ZipCentralEntryBlock;
  widths = 4 ∷ 2 ∷ 2 ∷ 2 ∷ 2 ∷ 2 ∷ 2 ∷ 4 ∷ 4 ∷ 4 ∷ 2 ∷ 2 ∷ 2 ∷ 2 ∷ 2 ∷ 4 ∷ 4 ∷ [];
  magic_literal = central_directory_header_signature;
  wrong_magic_error = invalid_archive "Invalid Central Directory header";
  magic = λ b. b.magic;
  fields = λ b.
      b.magic ∷ b.version_made_by ∷ b.version_to_extract ∷ b.flags ∷ b.compression_method
      ∷ b.last_mod_time ∷ b.last_mod_date ∷ b.crc32 ∷ b.compressed_size ∷ b.uncompressed_size
      ∷ b.file_name_length ∷ b.extra_field_length ∷ b.file_comment_length ∷ b.disk_number
      ∷ b.internal_file_attributes ∷ b.external_file_attributes ∷ b.offset ∷ [];
  of_fields = λ vs. record {
    magic = get_or vs 0 0;
    version_made_by = get_or vs 1 0;
    version_to_extract = get_or vs 2 0;
    flags = get_or vs 3 0;
    compression_method = get_or vs 4 0;
    last_mod_time = get_or vs 5 0;
    last_mod_date = get_or vs 6 0;
    crc32 = get_or vs 7 0;
    compressed_size = get_or vs 8 0;
    uncompressed_size = get_or vs 9 0;
    file_name_length = get_or vs 10 0;
    extra_field_length = get_or vs 11 0;
    file_comment_length = get_or vs 12 0;
    disk_number = get_or vs 13 0;
    internal_file_attributes = get_or vs 14 0;
    external_file_attributes = get_or vs 15 0;
    offset = get_or vs 16 0;
  };
  of_fields-fields = λ b. refl;
  fields-of_fields = λ vs h. tabulate-get_or vs h;
}

-- `ZipLocalEntryBlock`, and its implementation of `FixedSizeBlock`.
pub record ZipLocalEntryBlock : Type 0 where
  pub magic : ℕ
  pub version_made_by : ℕ
  pub flags : ℕ
  pub compression_method : ℕ
  pub last_mod_time : ℕ
  pub last_mod_date : ℕ
  pub crc32 : ℕ
  pub compressed_size : ℕ
  pub uncompressed_size : ℕ
  pub file_name_length : ℕ
  pub extra_field_length : ℕ

abbrev pub zip_local_entry_block : FixedSizeBlock
zip_local_entry_block = record {
  Block = ZipLocalEntryBlock;
  widths = 4 ∷ 2 ∷ 2 ∷ 2 ∷ 2 ∷ 2 ∷ 4 ∷ 4 ∷ 4 ∷ 2 ∷ 2 ∷ [];
  magic_literal = local_file_header_signature;
  wrong_magic_error = invalid_archive "Invalid local file header";
  magic = λ b. b.magic;
  fields = λ b.
      b.magic ∷ b.version_made_by ∷ b.flags ∷ b.compression_method ∷ b.last_mod_time
      ∷ b.last_mod_date ∷ b.crc32 ∷ b.compressed_size ∷ b.uncompressed_size ∷ b.file_name_length
      ∷ b.extra_field_length ∷ [];
  of_fields = λ vs. record {
    magic = get_or vs 0 0;
    version_made_by = get_or vs 1 0;
    flags = get_or vs 2 0;
    compression_method = get_or vs 3 0;
    last_mod_time = get_or vs 4 0;
    last_mod_date = get_or vs 5 0;
    crc32 = get_or vs 6 0;
    compressed_size = get_or vs 7 0;
    uncompressed_size = get_or vs 8 0;
    file_name_length = get_or vs 9 0;
    extra_field_length = get_or vs 10 0;
  };
  of_fields-fields = λ b. refl;
  fields-of_fields = λ vs h. tabulate-get_or vs h;
}
