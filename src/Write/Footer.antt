-- ===== src/Write/Footer.antt =====
-- src/write.rs: `write_central_and_footer`, and what `finalize` does behind `finish_file`.
pub mod Written
use zip.Prelude.{
  ℕ, ◌+◌, ◌-◌, max, min, Bool, true, false, ◌||◌, ltb, if◌then◌else◌, List, [], ◌∷◌, length, some,
}
use zip.Result.{ZipResult, ok, err}
use zip.LittleEndian.{to_le_bytes}
use zip.Cursor.{Io}
use zip.Spec.Records.{zip64_bytes_thr, zip64_entry_thr, zip32_cde_block}
use zip.Spec.Block.{size_of}
use zip.Spec.Zip32End
use zip.Spec.Zip64End
use zip.Types.DateTime.{DateTime}
use zip.Types.File.{ZipFileData, version_needed, min_version}
use zip.Write.Monad.{
  Writer, ◌>>=◌, ◌>>◌, pure, throw, write_bytes, seek_start, stream_position, seek_end,
}
use zip.Write.Headers.{write_central_directory_header}

-- A write of src/spec.rs; where it fails, the file is as it was.
abbrev pub writing : Io (Unit {0}) → Writer (Unit {0})
writing m c = elim (m c) [ ok (_, c') ↦ some (ok tt, c') | err e ↦ some (err e, c) ]

-- `SeekFrom::End(-n)` for an `n` that is not beyond the start.
abbrev seek_from_end : ℕ → Writer (Unit {0})
seek_from_end n c = some (ok tt, record c { pos = length c.bytes - n })

module _ (default_for_write : DateTime) where
  -- The loop over the entries, and the version that it gathers.
  unfoldable pub write_central_headers : List ZipFileData → ℕ → Writer ℕ
  unfolding write_central_directory_header
  write_central_headers [] version = pure version
  write_central_headers (f ∷ files) version = do
    write_central_directory_header default_for_write f
    write_central_headers files (max version (version_needed f))

  -- The footer of ZIP64, if a number does not fit the other one.
  unfoldable pub write_zip64_footer : ℕ → ℕ → ℕ → ℕ → Writer (Unit {0})
  write_zip64_footer number_of_files version central_start central_size =
      if ltb zip64_entry_thr number_of_files || ltb zip64_bytes_thr (max central_size central_start)
      then (do
        writing (
            Zip64End.write (record {
              version_made_by = version;
              version_needed_to_extract = version;
              disk_number = 0;
              disk_with_central_directory = 0;
              number_of_files_on_this_disk = number_of_files;
              number_of_files = number_of_files;
              central_directory_size = central_size;
              central_directory_offset = central_start;
            }))
        writing (
            Zip64End.write_locator (record {
              disk_with_central_directory = 0;
              end_of_central_directory_offset = central_start + central_size;
              number_of_disks = 1;
            })))
      else pure tt

  unfoldable pub write_central_and_footer : List ZipFileData → List ℕ → Writer ℕ
  unfolding write_central_headers write_zip64_footer
  write_central_and_footer files comment = do
    central_start ← stream_position
    version ← write_central_headers files min_version
    central_end ← stream_position
    let central_size = central_end - central_start
    write_zip64_footer (length files) version central_start central_size
    let number_of_files = min (length files) zip64_entry_thr
    writing (
        Zip32End.write (record {
          disk_number = 0;
          disk_with_central_directory = 0;
          number_of_files_on_this_disk = number_of_files;
          number_of_files = number_of_files;
          central_directory_size = min central_size zip64_bytes_thr;
          central_directory_offset = min central_start zip64_bytes_thr;
          zip_file_comment = comment;
        }))
    pure central_start

  -- Data of an aborted file may lie behind the footer: then the footer is spoilt, and one is
  -- written at the actual end.
  unfoldable pub finalize_footer : List ZipFileData → List ℕ → Writer ℕ
  unfolding write_central_and_footer
  finalize_footer files comment = do
    central_start ← write_central_and_footer files comment
    footer_end ← stream_position
    file_end ← seek_end
    let again : Writer ℕ = do
      seek_start central_start
      write_bytes (to_le_bytes 4 0)
      seek_start (footer_end - size_of zip32_cde_block - length comment)
      write_bytes (to_le_bytes 4 0)
      seek_from_end (footer_end - central_start)
      write_central_and_footer files comment
    if ltb footer_end file_end then again else pure central_start
