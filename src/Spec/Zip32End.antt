-- ===== src/Spec/Zip32End.antt =====
-- src/spec.rs: `Zip32CentralDirectoryEnd`, the record that ends an archive, with its comment.
pub mod RoundTrip
use zip.Prelude.{ℕ, ◌^◌, List, length, ltb, if◌then◌else◌}
use zip.Result.{ZipResult, ok, err, invalid_archive}
use zip.Cursor.{Io, ◌>>=◌, ◌>>◌, pure, lift, read_exact, write_all}
use zip.Spec.Block
use zip.Spec.Records.{Zip32CdeBlock, zip32_cde_block, central_directory_end_signature}

pub record Zip32CentralDirectoryEnd : Type 0 where
  pub disk_number : ℕ
  pub disk_with_central_directory : ℕ
  pub number_of_files_on_this_disk : ℕ
  pub number_of_files : ℕ
  pub central_directory_size : ℕ
  pub central_directory_offset : ℕ
  pub zip_file_comment : List ℕ

-- The block that `block_and_comment` makes; the length is a `u16`.
abbrev pub to_block : Zip32CentralDirectoryEnd → Zip32CdeBlock
to_block e = record {
  magic = central_directory_end_signature;
  disk_number = e.disk_number;
  disk_with_central_directory = e.disk_with_central_directory;
  number_of_files_on_this_disk = e.number_of_files_on_this_disk;
  number_of_files = e.number_of_files;
  central_directory_size = e.central_directory_size;
  central_directory_offset = e.central_directory_offset;
  zip_file_comment_length = length e.zip_file_comment;
}

unfoldable pub block_and_comment : Zip32CentralDirectoryEnd → ZipResult (Zip32CdeBlock × List ℕ)
block_and_comment e =
    if ltb (length e.zip_file_comment) (2 ^ 16)
    then ok (to_block e, e.zip_file_comment)
    else err (invalid_archive "File comment must be less than 64 KiB")

-- The record of a block and the comment behind it.
abbrev pub of_block : Zip32CdeBlock → List ℕ → Zip32CentralDirectoryEnd
of_block b zip_file_comment = record {
  disk_number = b.disk_number;
  disk_with_central_directory = b.disk_with_central_directory;
  number_of_files_on_this_disk = b.number_of_files_on_this_disk;
  number_of_files = b.number_of_files;
  central_directory_size = b.central_directory_size;
  central_directory_offset = b.central_directory_offset;
  zip_file_comment = zip_file_comment;
}

unfoldable pub parse : Io Zip32CentralDirectoryEnd
parse = do
  b ← Block.parse zip32_cde_block
  zip_file_comment ← read_exact b.zip_file_comment_length
  pure (of_block b zip_file_comment)

unfoldable pub write : Zip32CentralDirectoryEnd → Io (Unit {0})
write e = do
  (b, comment) ← lift (block_and_comment e)
  Block.write zip32_cde_block b
  write_all comment
