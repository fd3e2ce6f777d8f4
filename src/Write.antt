-- ===== src/Write.antt =====
-- src/write.rs: the archive writer, its options and states, and the headers and end records that it
-- leaves in its file.
pub mod Monad
pub mod Headers
pub mod Footer
pub mod ReadBack
pub mod Options
pub mod Generic
pub mod State
pub mod Writer
