-- ===== src/Read/Content.antt =====
-- src/read.rs: the readers of an entry's content, `CryptoReader` and `ZipFileReader`, and `ZipFile`.
-- The reader that is limited to the content (`io::Take`) is a cursor on the bytes that it is limited
-- to. The decoders are other crates: a decoder is a state that is read from. A panic is `none`.
pub mod Whole
pub mod Forms
pub mod Opened
pub mod Unpacked
pub mod Panics
pub mod Safe
use zip.Prelude.{ℕ, Bool, true, false, Option, none, some, List}
use zip.Result.{
  ZipError, ZipResult, ok, err, io, other, IoError, invalid_password, unsupported_archive,
}
use zip.Cursor.{Cursor, Io, ◌>>=◌, throw, read}
use zip.Compression.{CompressionMethod}
use zip.Types.DateTime.{DateTime, timepart}
use zip.Types.File.{AesMode, AesVendorVersion, ZipFileData}
use zip.Aes
use zip.Aes.{Crypto, AesReaderValid}
use zip.Zipcrypto
use zip.Zipcrypto.{ZipCryptoKeys, ZipCryptoValidator, pkzip_crc32, info_zip_msdos_time, derive}
use zip.Crc32
use zip.Crc32.{Hashing, IoResult, done, failed, panicked, Crc32Reader}

abbrev pub not_supported : ZipError
not_supported = unsupported_archive "Compression method not supported"

module _ (C : Crypto) where
  pub data CryptoReader : Type 0 where
    plaintext : Cursor → CryptoReader
    zip_crypto : ZipCryptoKeys → Cursor → CryptoReader
    aes : AesReaderValid C → AesVendorVersion → Cursor → CryptoReader

  -- The `io::Error` inside; the readers below give no other.
  abbrev io_error : ZipError → IoError
  io_error (io e) = e
  io_error e = other "not an input/output error"

  abbrev pub read_plaintext :
      ZipResult (List ℕ × Cursor) → Cursor → IoResult (List ℕ) × CryptoReader
  read_plaintext (ok (bytes, c')) c = (done bytes, plaintext c')
  read_plaintext (err e) c = (failed (io_error e), plaintext c)

  abbrev pub read_zip_crypto :
      ZipResult ((List ℕ × ZipCryptoKeys) × Cursor)
      → ZipCryptoKeys
      → Cursor
      → IoResult (List ℕ) × CryptoReader
  read_zip_crypto (ok ((bytes, keys'), c')) keys c = (done bytes, zip_crypto keys' c')
  read_zip_crypto (err e) keys c = (failed (io_error e), zip_crypto keys c)

  -- After an error no data remain, and nothing below is read again.
  abbrev pub read_aes :
      ZipResult ((List ℕ × AesReaderValid C) × Cursor)
      → AesReaderValid C
      → AesVendorVersion
      → Cursor
      → IoResult (List ℕ) × CryptoReader
  read_aes (ok ((bytes, r'), c')) r vendor_version c = (done bytes, aes r' vendor_version c')
  read_aes (err e) r vendor_version c = (
    failed (io_error e),
    aes (record r { data_remaining = 0; finalized = true }) vendor_version c,
  )

  unfoldable pub read_crypto : CryptoReader → ℕ → IoResult (List ℕ) × CryptoReader
  unfolding Zipcrypto.read_valid Aes.read_valid
  read_crypto (plaintext c) buf_len = read_plaintext (read buf_len c) c
  read_crypto (zip_crypto keys c) buf_len =
      read_zip_crypto (Zipcrypto.read_valid keys buf_len c) keys c
  read_crypto (aes r vendor_version c) buf_len =
      read_aes (Aes.read_valid C buf_len r c) r vendor_version c

  -- `CryptoReader::into_inner`.
  abbrev pub into_inner : CryptoReader → Cursor
  into_inner (plaintext c) = c
  into_inner (zip_crypto keys c) = c
  into_inner (aes r vendor_version c) = c

  unfoldable pub is_ae2_encrypted : CryptoReader → Bool
  is_ae2_encrypted (plaintext c) = false
  is_ae2_encrypted (zip_crypto keys c) = false
  is_ae2_encrypted (aes r AesVendorVersion.ae1 c) = false
  is_ae2_encrypted (aes r AesVendorVersion.ae2 c) = true

  -- Where the sizes stand behind the content, the time is what the check byte is taken from.
  unfoldable pub validator_of : ℕ → Option DateTime → Bool → ZipCryptoValidator
  unfolding timepart
  validator_of crc32 (some last_modified_time) true =
      info_zip_msdos_time (timepart last_modified_time)
  validator_of crc32 last_modified_time using_data_descriptor = pkzip_crc32 crc32

  -- The reader that gives itself, with where it stands.
  abbrev keep : (Cursor → CryptoReader) → Io CryptoReader
  keep make c = ok (make c, c)

  abbrev pub open_reader :
      Option (List ℕ)
      → Option (AesMode × AesVendorVersion × CompressionMethod)
      → ZipCryptoValidator
      → (compressed_size : ℕ) → Io CryptoReader
  open_reader (some password) (some (aes_mode, vendor_version, _)) validator compressed_size = do
    r ← Aes.validate C aes_mode compressed_size password
    keep (aes r vendor_version)
  open_reader (some password) none validator compressed_size = do
    keys ← Zipcrypto.validate (derive password) validator
    keep (zip_crypto keys)
  open_reader none (some aes_info) validator compressed_size = throw invalid_password
  open_reader none none validator compressed_size = keep plaintext

  abbrev pub unless_unsupported : CompressionMethod → Io CryptoReader → Io CryptoReader
  unless_unsupported (CompressionMethod.unsupported v) m = throw not_supported
  unless_unsupported method m = m

  -- `make_crypto_reader`, with what it takes of the entry.
  unfoldable pub make_crypto_reader : ZipFileData → Option (List ℕ) → Io CryptoReader
  unfolding Zipcrypto.validate Aes.validate validator_of
  make_crypto_reader f password = unless_unsupported f.compression_method (
      open_reader password f.aes_mode
        (validator_of f.crc32 f.last_modified_time f.using_data_descriptor) f.compressed_size)

-- What is used of the other crates: the ciphers and the hasher, and the decoders of flate2, deflate64,
-- bzip2, zstd and lzma-rs over the reader of the bytes, the last in `LzmaDecoder` (Read.Lzma). A decoder
-- of zstd is made or not; the others are always made. Their reads may fail and may panic.
pub record Crates : Type 1 where
  pub crypto : Crypto
  pub hashing : Hashing
  pub Decoder : Type 0
  pub new_decoder : CompressionMethod → CryptoReader crypto → Decoder
  pub new_zstd_decoder : CryptoReader crypto → Option Decoder
  pub decode : Decoder → ℕ → IoResult (List ℕ) × Decoder

module _ (K : Crates) where
  open K use {crypto, hashing, Decoder, new_decoder, new_zstd_decoder, decode}

  abbrev pub StoredReader : Type 0
  StoredReader = Crc32Reader hashing (CryptoReader crypto) (read_crypto crypto)

  abbrev pub DecodedReader : Type 0
  DecodedReader = Crc32Reader hashing Decoder decode

  pub data ZipFileReader : Type 0 where
    no_reader : ZipFileReader
    raw : Cursor → ZipFileReader
    stored : StoredReader → ZipFileReader
    deflated : DecodedReader → ZipFileReader
    deflate64 : DecodedReader → ZipFileReader
    bzip2 : DecodedReader → ZipFileReader
    zstd : DecodedReader → ZipFileReader
    lzma : DecodedReader → ZipFileReader

  -- A decoder behind the test of the checksum, and the panic where there is none.
  abbrev pub decoding :
      (DecodedReader → ZipFileReader)
      → Option Decoder
      → ℕ
      → CryptoReader crypto
      → Option (ZipResult ZipFileReader)
  decoding kind none crc32 reader = none
  decoding kind (some decoder) crc32 reader =
      some (
        ok (kind (Crc32.new hashing Decoder decode decoder crc32 (is_ae2_encrypted crypto reader))))

  unfoldable pub make_reader :
      CompressionMethod → ℕ → CryptoReader crypto → Option (ZipResult ZipFileReader)
  unfolding is_ae2_encrypted
  make_reader CompressionMethod.stored crc32 reader = some (
      ok (
        stored (
          Crc32.new hashing (CryptoReader crypto) (read_crypto crypto) reader crc32
            (is_ae2_encrypted crypto reader))))
  make_reader CompressionMethod.deflated crc32 reader =
      decoding deflated (some (new_decoder CompressionMethod.deflated reader)) crc32 reader
  make_reader CompressionMethod.deflate64 crc32 reader =
      decoding deflate64 (some (new_decoder CompressionMethod.deflate64 reader)) crc32 reader
  make_reader CompressionMethod.bzip2 crc32 reader =
      decoding bzip2 (some (new_decoder CompressionMethod.bzip2 reader)) crc32 reader
  make_reader CompressionMethod.zstd crc32 reader =
      decoding zstd (new_zstd_decoder reader) crc32 reader
  make_reader CompressionMethod.lzma crc32 reader =
      decoding lzma (some (new_decoder CompressionMethod.lzma reader)) crc32 reader
  make_reader CompressionMethod.aes crc32 reader = some (err not_supported)
  make_reader (CompressionMethod.unsupported v) crc32 reader = some (err not_supported)

  abbrev pub and_kind :
      {R : Type 0} → (R → ZipFileReader) → IoResult (List ℕ) × R → IoResult (List ℕ) × ZipFileReader
  and_kind kind (result, r) = (result, kind r)

  -- `read` of a `ZipFileReader` into a buffer of some length.
  unfoldable pub read_from : ZipFileReader → ℕ → Option (IoResult (List ℕ) × ZipFileReader)
  unfolding Crc32.read read_crypto read
  read_from no_reader buf_len = none
  read_from (raw c) buf_len =
      some (and_kind (λ r. raw (into_inner crypto r)) (read_crypto crypto (plaintext c) buf_len))
  read_from (stored r) buf_len =
      some
        (and_kind stored (Crc32.read hashing (CryptoReader crypto) (read_crypto crypto) r buf_len))
  read_from (deflated r) buf_len =
      some (and_kind deflated (Crc32.read hashing Decoder decode r buf_len))
  read_from (deflate64 r) buf_len =
      some (and_kind deflate64 (Crc32.read hashing Decoder decode r buf_len))
  read_from (bzip2 r) buf_len = some (and_kind bzip2 (Crc32.read hashing Decoder decode r buf_len))
  read_from (zstd r) buf_len = some (and_kind zstd (Crc32.read hashing Decoder decode r buf_len))
  read_from (lzma r) buf_len = some (and_kind lzma (Crc32.read hashing Decoder decode r buf_len))

  pub record ZipFile : Type 0 where
    pub entry : ZipFileData
    pub crypto_reader : Option (CryptoReader crypto)
    pub reader : ZipFileReader

  -- The reader is taken out before the other is made, and is gone where that fails.
  abbrev pub made :
      ZipFile → Option (ZipResult ZipFileReader) → Option (ZipResult (Unit {0}) × ZipFile)
  made f none = none
  made f (some (ok reader)) = some (ok tt, record f { crypto_reader = none; reader = reader })
  made f (some (err e)) = some (err e, record f { crypto_reader = none })

  abbrev take_reader :
      Option (CryptoReader crypto) → ZipFile → Option (ZipResult (Unit {0}) × ZipFile)
  take_reader none f = none
  take_reader (some crypto_reader) f =
      made f (make_reader f.entry.compression_method f.entry.crc32 crypto_reader)

  unfoldable pub get_reader : ZipFile → Option (ZipResult (Unit {0}) × ZipFile)
  unfolding make_reader
  get_reader f = elim f.reader [ no_reader ↦ take_reader f.crypto_reader f | _ ↦ some (ok tt, f) ]

  abbrev take_raw : Option (CryptoReader crypto) → ZipFile → Option ZipFile
  take_raw none f = none
  take_raw (some crypto_reader) f =
      some (record f { crypto_reader = none; reader = raw (into_inner crypto crypto_reader) })

  unfoldable pub get_raw_reader : ZipFile → Option ZipFile
  get_raw_reader f = elim f.reader [ no_reader ↦ take_raw f.crypto_reader f | _ ↦ some f ]

  -- The result of a read, with the reader after it.
  abbrev pub with_reader :
      Option (IoResult (List ℕ) × ZipFileReader) → ZipFile → Option (ZipResult (List ℕ) × ZipFile)
  with_reader none f = none
  with_reader (some (done bytes, reader)) f = some (ok bytes, record f { reader = reader })
  with_reader (some (failed e, reader)) f = some (err (io e), record f { reader = reader })
  with_reader (some (panicked, _)) f = none

  abbrev pub read_ready :
      Option (ZipResult (Unit {0}) × ZipFile) → ℕ → Option (ZipResult (List ℕ) × ZipFile)
  read_ready none buf_len = none
  read_ready (some (ok u, f)) buf_len = with_reader (read_from f.reader buf_len) f
  read_ready (some (err e, f)) buf_len = some (err e, f)

  -- `read` of a `ZipFile`. An error of `get_reader` stands for the `io::Error` that is made of it.
  unfoldable pub read_file : ZipFile → ℕ → Option (ZipResult (List ℕ) × ZipFile)
  unfolding get_reader read_from
  read_file f buf_len = read_ready (get_reader f) buf_len
