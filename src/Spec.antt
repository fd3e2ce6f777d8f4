-- ===== src/Spec.antt =====
-- src/spec.rs: the fixed-size records of a ZIP file and the searches for its end records.
pub mod Block
pub mod Records
pub mod Zip32End
pub mod Zip64End
pub mod Find
