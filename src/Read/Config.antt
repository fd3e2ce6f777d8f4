-- ===== src/Read/Config.antt =====
-- src/read/config.rs: where the archive starts in the reader.
use zip.Prelude.{ℕ}

pub data ArchiveOffset : Type 0 where
  detect : ArchiveOffset
  from_central_directory : ArchiveOffset
  known : ℕ → ArchiveOffset

-- The default of `Config` detects the offset.
pub record Config : Type 0 where
  pub archive_offset : ArchiveOffset
