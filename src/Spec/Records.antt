-- ===== src/Spec/Records.antt =====
-- src/spec.rs: the magic values and the three end records of an archive, as they lie in the file.
use zip.Prelude.{ℕ, refl, [], ◌∷◌, get_or}
use zip.Result.{invalid_archive}
use zip.Spec.Block.{FixedSizeBlock, tabulate-get_or}

-- `Magic`.
abbrev pub local_file_header_signature : ℕ
local_file_header_signature = 0x04034b50

abbrev pub central_directory_header_signature : ℕ
central_directory_header_signature = 0x02014b50

abbrev pub central_directory_end_signature : ℕ
central_directory_end_signature = 0x06054b50

abbrev pub zip64_central_directory_end_signature : ℕ
zip64_central_directory_end_signature = 0x06064b50

abbrev pub zip64_central_directory_end_locator_signature : ℕ
zip64_central_directory_end_locator_signature = 0x07064b50

-- `ZIP64_BYTES_THR` and `ZIP64_ENTRY_THR`.
abbrev pub zip64_bytes_thr : ℕ
zip64_bytes_thr = 0xffff_ffff

abbrev pub zip64_entry_thr : ℕ
zip64_entry_thr = 0xffff

-- `Zip32CDEBlock`, and its implementation of `FixedSizeBlock`.
pub record Zip32CdeBlock : Type 0 where
  pub magic : ℕ
  pub disk_number : ℕ
  pub disk_with_central_directory : ℕ
  pub number_of_files_on_this_disk : ℕ
  pub number_of_files : ℕ
  pub central_directory_size : ℕ
  pub central_directory_offset : ℕ
  pub zip_file_comment_length : ℕ

abbrev pub zip32_cde_block : FixedSizeBlock
zip32_cde_block = record {
  Block = Zip32CdeBlock;
  widths = 4 ∷ 2 ∷ 2 ∷ 2 ∷ 2 ∷ 4 ∷ 4 ∷ 2 ∷ [];
  magic_literal = central_directory_end_signature;
  wrong_magic_error = invalid_archive "Invalid digital signature header";
  magic = λ b. b.magic;
  fields = λ b.
      b.magic ∷ b.disk_number ∷ b.disk_with_central_directory ∷ b.number_of_files_on_this_disk
      ∷ b.number_of_files ∷ b.central_directory_size ∷ b.central_directory_offset
      ∷ b.zip_file_comment_length ∷ [];
  of_fields = λ vs. record {
    magic = get_or vs 0 0;
    disk_number = get_or vs 1 0;
    disk_with_central_directory = get_or vs 2 0;
    number_of_files_on_this_disk = get_or vs 3 0;
    number_of_files = get_or vs 4 0;
    central_directory_size = get_or vs 5 0;
    central_directory_offset = get_or vs 6 0;
    zip_file_comment_length = get_or vs 7 0;
  };
  of_fields-fields = λ b. refl;
  fields-of_fields = λ vs h. tabulate-get_or vs h;
}

-- `Zip64CDELocatorBlock`, and its implementation of `FixedSizeBlock`.
pub record Zip64CdeLocatorBlock : Type 0 where
  pub magic : ℕ
  pub disk_with_central_directory : ℕ
  pub end_of_central_directory_offset : ℕ
  pub number_of_disks : ℕ

abbrev pub zip64_cde_locator_block : FixedSizeBlock
zip64_cde_locator_block = record {
  Block = Zip64CdeLocatorBlock;
  widths = 4 ∷ 4 ∷ 8 ∷ 4 ∷ [];
  magic_literal = zip64_central_directory_end_locator_signature;
  wrong_magic_error = invalid_archive "Invalid zip64 locator digital signature header";
  magic = λ b. b.magic;
  fields = λ b.
      b.magic ∷ b.disk_with_central_directory ∷ b.end_of_central_directory_offset
      ∷ b.number_of_disks ∷ [];
  of_fields = λ vs. record {
    magic = get_or vs 0 0;
    disk_with_central_directory = get_or vs 1 0;
    end_of_central_directory_offset = get_or vs 2 0;
    number_of_disks = get_or vs 3 0;
  };
  of_fields-fields = λ b. refl;
  fields-of_fields = λ vs h. tabulate-get_or vs h;
}

-- `Zip64CDEBlock`, and its implementation of `FixedSizeBlock`.
pub record Zip64CdeBlock : Type 0 where
  pub magic : ℕ
  pub record_size : ℕ
  pub version_made_by : ℕ
  pub version_needed_to_extract : ℕ
  pub disk_number : ℕ
  pub disk_with_central_directory : ℕ
  pub number_of_files_on_this_disk : ℕ
  pub number_of_files : ℕ
  pub central_directory_size : ℕ
  pub central_directory_offset : ℕ

abbrev pub zip64_cde_block : FixedSizeBlock
zip64_cde_block = record {
  Block = Zip64CdeBlock;
  widths = 4 ∷ 8 ∷ 2 ∷ 2 ∷ 4 ∷ 4 ∷ 8 ∷ 8 ∷ 8 ∷ 8 ∷ [];
  magic_literal = zip64_central_directory_end_signature;
  wrong_magic_error = invalid_archive "Invalid digital signature header";
  magic = λ b. b.magic;
  fields = λ b.
      b.magic ∷ b.record_size ∷ b.version_made_by ∷ b.version_needed_to_extract ∷ b.disk_number
      ∷ b.disk_with_central_directory ∷ b.number_of_files_on_this_disk ∷ b.number_of_files
      ∷ b.central_directory_size ∷ b.central_directory_offset ∷ [];
  of_fields = λ vs. record {
    magic = get_or vs 0 0;
    record_size = get_or vs 1 0;
    version_made_by = get_or vs 2 0;
    version_needed_to_extract = get_or vs 3 0;
    disk_number = get_or vs 4 0;
    disk_with_central_directory = get_or vs 5 0;
    number_of_files_on_this_disk = get_or vs 6 0;
    number_of_files = get_or vs 7 0;
    central_directory_size = get_or vs 8 0;
    central_directory_offset = get_or vs 9 0;
  };
  of_fields-fields = λ b. refl;
  fields-of_fields = λ vs h. tabulate-get_or vs h;
}
