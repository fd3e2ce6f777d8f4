-- ===== src/Tests.antt =====
-- Concrete runs of the models, and the theorems at concrete inputs.
pub mod Spec
pub mod Types
pub mod Zipcrypto
pub mod Compression
pub mod File
pub mod AesCtr
pub mod Crc32
pub mod ExtraFields
pub mod Archive
pub mod Metadata
pub mod Aes
pub mod Writer
pub mod Reader
pub mod Session
pub mod Lzma
