-- ===== src/Tests/Compression.antt =====
-- src/compression.rs: runs of the compression methods.
use zip.Prelude.{◌≡◌, refl}
use zip.Compression.{lzma, unsupported, parse_from_u16}

parses_methods : (parse_from_u16 14 ≡ lzma) × (parse_from_u16 20 ≡ unsupported 20)
unfolding parse_from_u16
parses_methods = (refl, refl)
