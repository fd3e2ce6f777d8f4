-- ===== src/Write/Generic.antt =====
-- src/write.rs: `MaybeEncrypted` and `GenericZipWriter`, through which the content of an entry goes.
-- The compressors are other crates: an encoder is a state that takes bytes and hands on what it has
-- made of them. The writer below is a file in memory, whose own operations do not fail; a panic is
-- `none`.
use zip.Prelude.{
  ℕ, ◌+◌, ◌-◌, Bool, true, false, ◌&&◌, ltb, leb, if◌then◌else◌, Option, none, some, List, length,
}
use zip.Result.{ZipResult, ok, err, io, broken_pipe, unsupported_archive, ok_or, ◌>>=◌}
use zip.Cursor.{Cursor, wrote}
use zip.Compression.{
  CompressionMethod, stored, deflated, deflate64, bzip2, aes, zstd, lzma, unsupported,
}
use zip.Types.File.{ℤ, pos, negsuc}
use zip.Aes
use zip.Aes.{Crypto, AesWriter}
use zip.Zipcrypto
use zip.Zipcrypto.{ZipCryptoWriter}

-- What the code uses of the crates flate2, zopfli, bzip2 and zstd: an encoder of each kind at a level,
-- a write that says how many bytes it took, the end of the stream, and the levels that they name.
pub record Encoders : Type 1 where
  pub Encoder : Type 0
  pub flate2_encoder : ℕ → Encoder
  pub zopfli_encoder : ℕ → Encoder
  pub buffered_zopfli_encoder : ℕ → ℕ → Encoder
  pub bzip2_encoder : ℕ → Encoder
  pub zstd_encoder : ℤ → Encoder
  pub write : Encoder → List ℕ → ZipResult ℕ × List ℕ × Encoder
  pub finish : Encoder → ZipResult (List ℕ)
  pub deflate_fast : ℕ
  pub deflate_best : ℕ
  pub deflate_default : ℕ
  pub bzip2_fast : ℕ
  pub bzip2_best : ℕ
  pub bzip2_default : ℕ
  pub zstd_min : ℤ
  pub zstd_max : ℤ
  pub zstd_default : ℤ

abbrev pub leb_ℤ : ℤ → ℤ → Bool
leb_ℤ (pos a) (pos b) = leb a b
leb_ℤ (pos a) (negsuc b) = false
leb_ℤ (negsuc a) (pos b) = true
leb_ℤ (negsuc a) (negsuc b) = leb b a

-- `clamp_opt`, for a range within the type that its bounds have.
unfoldable pub clamp_opt : ℤ → ℤ → ℤ → Option ℤ
clamp_opt value min max = if leb_ℤ min value && leb_ℤ value max then some value else none

-- `as u32` of a level that is not negative.
abbrev pub as_u32 : ℤ → ℕ
as_u32 (pos n) = n
as_u32 (negsuc n) = 0

abbrev pub level_or : Option ℤ → ℤ → ℤ
level_or none default = default
level_or (some level) default = level

module _ (C : Crypto) (E : Encoders) where
  open E use {Encoder}

  pub data MaybeEncrypted : Type 0 where
    unencrypted : Cursor → MaybeEncrypted
    aes_encrypted : AesWriter C → MaybeEncrypted
    zip_crypto_encrypted : ZipCryptoWriter → Cursor → MaybeEncrypted

  pub data GenericZipWriter : Type 0 where
    closed : GenericZipWriter
    storer : MaybeEncrypted → GenericZipWriter
    deflater : Encoder → MaybeEncrypted → GenericZipWriter
    zopfli_deflater : Encoder → MaybeEncrypted → GenericZipWriter
    buffered_zopfli_deflater : Encoder → MaybeEncrypted → GenericZipWriter
    bzip2_writer : Encoder → MaybeEncrypted → GenericZipWriter
    zstd_writer : Encoder → MaybeEncrypted → GenericZipWriter

  -- `MaybeEncrypted::write`; all of them take the whole buffer.
  unfoldable pub write_encrypted : MaybeEncrypted → List ℕ → MaybeEncrypted
  write_encrypted (unencrypted w) buf = unencrypted (wrote buf w)
  write_encrypted (aes_encrypted w) buf = aes_encrypted (Aes.write C buf w)
  write_encrypted (zip_crypto_encrypted w file) buf =
      zip_crypto_encrypted (Zipcrypto.write w buf).0 file

  -- A write through an encoder, which goes on to the writer below.
  abbrev through :
      (Encoder → MaybeEncrypted → GenericZipWriter)
      → MaybeEncrypted
      → ZipResult ℕ × List ℕ × Encoder
      → ZipResult ℕ × GenericZipWriter
  through kind m (count, made, e) = (count, kind e (write_encrypted m made))

  -- A write to what `ref_mut` gives, or `none` where it gives nothing.
  unfoldable pub write_inner : GenericZipWriter → List ℕ → Option (ZipResult ℕ × GenericZipWriter)
  unfolding write_encrypted
  write_inner closed buf = none
  write_inner (storer m) buf = some (ok (length buf), storer (write_encrypted m buf))
  write_inner (deflater e m) buf = some (through deflater m (E.write e buf))
  write_inner (zopfli_deflater e m) buf = some (through zopfli_deflater m (E.write e buf))
  write_inner (buffered_zopfli_deflater e m) buf =
      some (through buffered_zopfli_deflater m (E.write e buf))
  write_inner (bzip2_writer e m) buf = some (through bzip2_writer m (E.write e buf))
  write_inner (zstd_writer e m) buf = some (through zstd_writer m (E.write e buf))

  abbrev pub is_closed : GenericZipWriter → Bool
  is_closed closed = true
  is_closed w = false

  -- `get_plain` and `unwrap`; `none` is their panic.
  unfoldable pub get_plain : GenericZipWriter → Option Cursor
  get_plain (storer (unencrypted w)) = some w
  get_plain w = none

  abbrev pub SwitchWriterFunction : Type 0
  SwitchWriterFunction = MaybeEncrypted → GenericZipWriter

  -- The ranges of levels, with the features deflate-flate2 and deflate-zopfli.
  abbrev pub deflate_level : Option ℤ → Option ℤ
  deflate_level level =
      clamp_opt (level_or level (pos E.deflate_default)) (pos E.deflate_fast)
        (pos (E.deflate_best + 255))

  abbrev pub bzip2_level : Option ℤ → Option ℤ
  bzip2_level level =
      clamp_opt (level_or level (pos E.bzip2_default)) (pos E.bzip2_fast) (pos E.bzip2_best)

  abbrev pub zstd_level : Option ℤ → Option ℤ
  zstd_level level = clamp_opt (level_or level E.zstd_default) E.zstd_min E.zstd_max

  abbrev zopfli_writer : ℕ → Option ℕ → SwitchWriterFunction
  zopfli_writer iterations none bare = zopfli_deflater (E.zopfli_encoder iterations) bare
  zopfli_writer iterations (some size) bare =
      buffered_zopfli_deflater (E.buffered_zopfli_encoder iterations size) bare

  -- The switch for a level that is in the range.
  abbrev deflate_writer : ℕ → Option ℕ → SwitchWriterFunction
  deflate_writer level zopfli_buffer_size =
      if ltb E.deflate_best level
      then zopfli_writer (level - E.deflate_best) zopfli_buffer_size
      else deflater (E.flate2_encoder level)

  unfoldable pub writer_for :
      CompressionMethod → Option ℤ → Option ℕ → ZipResult SwitchWriterFunction
  unfolding clamp_opt
  writer_for stored none zopfli_buffer_size = ok storer
  writer_for stored (some level) zopfli_buffer_size =
      err (unsupported_archive "Unsupported compression level")
  writer_for deflated level zopfli_buffer_size = do
    level ← ok_or (deflate_level level) (unsupported_archive "Unsupported compression level")
    ok (deflate_writer (as_u32 level) zopfli_buffer_size)
  writer_for deflate64 level zopfli_buffer_size =
      err (unsupported_archive "Compressing Deflate64 is not supported")
  writer_for bzip2 level zopfli_buffer_size = do
    level ← ok_or (bzip2_level level) (unsupported_archive "Unsupported compression level")
    ok (bzip2_writer (E.bzip2_encoder (as_u32 level)))
  writer_for aes level zopfli_buffer_size =
      err (unsupported_archive "AES encryption is enabled through FileOptions::with_aes_encryption")
  writer_for zstd level zopfli_buffer_size = do
    level ← ok_or (zstd_level level) (unsupported_archive "Unsupported compression level")
    ok (zstd_writer (E.zstd_encoder level))
  writer_for lzma level zopfli_buffer_size =
      err (unsupported_archive "LZMA isn't supported for compression")
  writer_for (unsupported v) level zopfli_buffer_size =
      err (unsupported_archive "Unsupported compression")

  unfoldable pub prepare_next_writer :
      GenericZipWriter → CompressionMethod → Option ℤ → Option ℕ → ZipResult SwitchWriterFunction
  unfolding writer_for
  prepare_next_writer w compression compression_level zopfli_buffer_size =
      if is_closed w
      then err (io (broken_pipe "ZipWriter was already closed"))
      else writer_for compression compression_level zopfli_buffer_size

  -- The end of an encoder: what it hands on last goes to the writer below.
  abbrev finished : MaybeEncrypted → ZipResult (List ℕ) → ZipResult MaybeEncrypted
  finished m (ok made) = ok (write_encrypted m made)
  finished m (err e) = err e

  abbrev pub bare_writer : GenericZipWriter → ZipResult MaybeEncrypted
  bare_writer closed = err (io (broken_pipe "ZipWriter was already closed"))
  bare_writer (storer m) = ok m
  bare_writer (deflater e m) = finished m (E.finish e)
  bare_writer (zopfli_deflater e m) = finished m (E.finish e)
  bare_writer (buffered_zopfli_deflater e m) = finished m (E.finish e)
  bare_writer (bzip2_writer e m) = finished m (E.finish e)
  bare_writer (zstd_writer e m) = finished m (E.finish e)

  -- After an error it is closed, and the writer below is gone.
  unfoldable pub switch_to :
      SwitchWriterFunction → GenericZipWriter → ZipResult (Unit {0}) × GenericZipWriter
  unfolding write_encrypted
  switch_to make_new_self w = elim (bare_writer w) [
    | ok bare ↦ (ok tt, make_new_self bare)
    | err e ↦ (err e, closed)
  ]

  -- `ZipWriter::switch_to_non_encrypting_writer`, with the checksum of the content; `none` is its
  -- `unreachable!`.
  abbrev non_encrypting : ℕ → MaybeEncrypted → ZipResult Cursor
  non_encrypting crc32 (unencrypted w) = ok w
  non_encrypting crc32 (aes_encrypted w) = ok (Aes.finish C w)
  non_encrypting crc32 (zip_crypto_encrypted w file) = elim (Zipcrypto.finish w crc32 file) [
    | ok (_, file') ↦ ok file'
    | err e ↦ err e
  ]

  unfoldable pub switch_to_non_encrypting :
      ℕ → GenericZipWriter → Option (ZipResult (Unit {0}) × GenericZipWriter)
  switch_to_non_encrypting crc32 (storer m) = elim (non_encrypting crc32 m) [
    | ok w ↦ some (ok tt, storer (unencrypted w))
    | err e ↦ some (err e, closed)
  ]
  switch_to_non_encrypting crc32 w = none
