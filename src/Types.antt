-- ===== src/Types.antt =====
-- src/types.rs: what an archive says of its entries.
pub mod Headers
pub mod DateTime
pub mod Utf8
pub mod File
pub mod ExtraFields
