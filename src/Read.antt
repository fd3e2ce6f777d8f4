-- ===== src/Read.antt =====
-- src/read.rs: the reader of an archive.
pub mod ExtraField
pub mod Header
pub mod Config
pub mod Directory
pub mod Metadata
pub mod Stream
pub mod Content
pub mod Lzma
pub mod Archive
