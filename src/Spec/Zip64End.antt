-- ===== src/Spec/Zip64End.antt =====
-- src/spec.rs: `Zip64CentralDirectoryEnd`, and `Zip64CentralDirectoryEndLocator`, which points to it.
pub mod RoundTrip
use zip.Prelude.{ℕ}
use zip.Cursor.{Io, ◌>>=◌, pure}
use zip.Spec.Block
use zip.Spec.Records.{
  Zip64CdeLocatorBlock, zip64_cde_locator_block, Zip64CdeBlock, zip64_cde_block,
  zip64_central_directory_end_signature, zip64_central_directory_end_locator_signature,
}

pub record Zip64CentralDirectoryEndLocator : Type 0 where
  pub disk_with_central_directory : ℕ
  pub end_of_central_directory_offset : ℕ
  pub number_of_disks : ℕ

unfoldable pub locator_block : Zip64CentralDirectoryEndLocator → Zip64CdeLocatorBlock
locator_block l = record {
  magic = zip64_central_directory_end_locator_signature;
  disk_with_central_directory = l.disk_with_central_directory;
  end_of_central_directory_offset = l.end_of_central_directory_offset;
  number_of_disks = l.number_of_disks;
}

unfoldable pub parse_locator : Io Zip64CentralDirectoryEndLocator
parse_locator = do
  b ← Block.parse zip64_cde_locator_block
  pure (record {
    disk_with_central_directory = b.disk_with_central_directory;
    end_of_central_directory_offset = b.end_of_central_directory_offset;
    number_of_disks = b.number_of_disks;
  })

unfoldable pub write_locator : Zip64CentralDirectoryEndLocator → Io (Unit {0})
write_locator l = Block.write zip64_cde_locator_block (locator_block l)

pub record Zip64CentralDirectoryEnd : Type 0 where
  pub version_made_by : ℕ
  pub version_needed_to_extract : ℕ
  pub disk_number : ℕ
  pub disk_with_central_directory : ℕ
  pub number_of_files_on_this_disk : ℕ
  pub number_of_files : ℕ
  pub central_directory_size : ℕ
  pub central_directory_offset : ℕ

unfoldable pub block : Zip64CentralDirectoryEnd → Zip64CdeBlock
block e = record {
  magic = zip64_central_directory_end_signature;
  record_size = 44;
  version_made_by = e.version_made_by;
  version_needed_to_extract = e.version_needed_to_extract;
  disk_number = e.disk_number;
  disk_with_central_directory = e.disk_with_central_directory;
  number_of_files_on_this_disk = e.number_of_files_on_this_disk;
  number_of_files = e.number_of_files;
  central_directory_size = e.central_directory_size;
  central_directory_offset = e.central_directory_offset;
}

-- The record that a block stands for; `record_size` is not looked at.
abbrev pub of_block : Zip64CdeBlock → Zip64CentralDirectoryEnd
of_block b = record {
  version_made_by = b.version_made_by;
  version_needed_to_extract = b.version_needed_to_extract;
  disk_number = b.disk_number;
  disk_with_central_directory = b.disk_with_central_directory;
  number_of_files_on_this_disk = b.number_of_files_on_this_disk;
  number_of_files = b.number_of_files;
  central_directory_size = b.central_directory_size;
  central_directory_offset = b.central_directory_offset;
}

unfoldable pub parse : Io Zip64CentralDirectoryEnd
parse = do b ← Block.parse zip64_cde_block; pure (of_block b)

unfoldable pub write : Zip64CentralDirectoryEnd → Io (Unit {0})
write e = Block.write zip64_cde_block (block e)
