-- ===== src/Read/Directory/Prefix.antt =====
-- src/read.rs: the place of the directory in an archive that has other data before it.
use zip.Prelude.{ℕ, ◌+◌, ◌%◌, ◌^◌, ◌≤◌, ◌<◌, ◌≡◌, ap, arith, Bool, false, List, if◌then◌else◌}
use zip.Result.{ok}
use zip.Spec.Zip32End.{Zip32CentralDirectoryEnd}
use zip.Read.Config.{detect, from_central_directory}
use zip.Read.Directory.{CentralDirectoryInfo, measured_offset, peek, get_directory_info_zip32}

-- What is known of the directory of an archive that starts `n` bytes into the file.
abbrev pub info_at : Zip32CentralDirectoryEnd → ℕ → ℕ → CentralDirectoryInfo
info_at footer cde_start_pos n = record {
  archive_offset = n;
  directory_start = footer.central_directory_offset + n;
  cde_position = cde_start_pos;
  number_of_files = footer.number_of_files_on_this_disk;
  disk_number = footer.disk_number;
  disk_with_central_directory = footer.disk_with_central_directory;
  is_zip64 = false;
}

-- The end record stands behind the directory, in an archive with `n` bytes before it.
measured_offset_prefix :
    (footer : Zip32CentralDirectoryEnd) (n cde_start_pos : ℕ)
    → cde_start_pos ≡ n + footer.central_directory_offset + footer.central_directory_size
    → measured_offset footer cde_start_pos ≡ ok n
measured_offset_prefix footer n cde_start_pos h = ground arith

-- In an archive with `n` bytes before it, whose end record stands right behind the directory, the
-- configuration `FromCentralDirectory` finds these `n` bytes, and so does `Detect` if a central
-- header's signature stands where the directory then is; without one `Detect` takes the offset 0.
-- The directory then starts within a `u64`.
pub get_directory_info_zip32_prefix :
    (file : List ℕ) (footer : Zip32CentralDirectoryEnd) (n cde_start_pos : ℕ) (signed : Bool)
    → cde_start_pos ≡ n + footer.central_directory_offset + footer.central_directory_size
    → n + footer.central_directory_offset < 2 ^ 64
    → peek file (n + footer.central_directory_offset) ≡ ok signed
    → (get_directory_info_zip32
          (record { archive_offset = from_central_directory })
          file
          footer
          cde_start_pos
        ≡ ok (info_at footer cde_start_pos n))
      × (get_directory_info_zip32 (record { archive_offset = detect }) file footer cde_start_pos
          ≡ ok (info_at footer cde_start_pos (if signed then n else 0)))
unfolding get_directory_info_zip32
get_directory_info_zip32_prefix file footer n cde_start_pos signed h small peeked = (
  rw (measured_offset_prefix footer n cde_start_pos h) (
      ap (λ d. ok (record (info_at footer cde_start_pos n) { directory_start = d }))
        (within n (omega arith))),
  rw (measured_offset_prefix footer n cde_start_pos h, wraps, peeked)
      (ap
        (λ d.
          ok (record (info_at footer cde_start_pos (if signed then n else 0)) {
            directory_start = d;
          }))
        (within (if signed then n else 0) (ground arith))),
)
  where
    within :
        (k : ℕ)
        → k ≤ n
        → (footer.central_directory_offset + k) % 2 ^ 64 ≡ footer.central_directory_offset + k
    within k le = omega arith

    wraps : (n + footer.central_directory_offset) % 2 ^ 64 ≡ n + footer.central_directory_offset
    wraps = omega arith
