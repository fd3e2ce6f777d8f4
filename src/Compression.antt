-- ===== src/Compression.antt =====
-- src/compression.rs: `CompressionMethod` with the features of the default build, where every method
-- that the source names is compiled in.
pub mod RoundTrip
use zip.Prelude.{ℕ, List, [], ◌∷◌, ◌==◌, if◌then◌else◌}

pub data CompressionMethod : Type 0 where
  stored : CompressionMethod
  deflated : CompressionMethod
  deflate64 : CompressionMethod
  bzip2 : CompressionMethod
  aes : CompressionMethod
  zstd : CompressionMethod
  lzma : CompressionMethod
  unsupported : ℕ → CompressionMethod

unfoldable pub parse_from_u16 : ℕ → CompressionMethod
parse_from_u16 val =
    if val == 0
    then stored
    else if val == 8
    then deflated
    else if val == 9
    then deflate64
    else if val == 12
    then bzip2
    else if val == 14
    then lzma
    else if val == 93
    then zstd
    else if val == 99
    then aes
    else unsupported val

unfoldable pub serialize_to_u16 : CompressionMethod → ℕ
serialize_to_u16 stored = 0
serialize_to_u16 deflated = 8
serialize_to_u16 deflate64 = 9
serialize_to_u16 bzip2 = 12
serialize_to_u16 aes = 99
serialize_to_u16 zstd = 93
serialize_to_u16 lzma = 14
serialize_to_u16 (unsupported v) = v

-- `SUPPORTED_COMPRESSION_METHODS`.
abbrev pub supported_compression_methods : List CompressionMethod
supported_compression_methods = stored ∷ deflated ∷ deflate64 ∷ bzip2 ∷ zstd ∷ []
