-- ===== src/Lib.antt =====
-- The crate zip reads and writes ZIP archives (src/lib.rs). This library models its core: the records
-- that end an archive and the search for them, the choice of the central directory and the reading
-- of its entries and their contents, the headers of the entries, their moments, texts and
-- compression methods, the writer with its options and the archive that it leaves, the ZipCrypto
-- cipher, the frame and the key stream of AES and the checksum reader.
--
-- How the parts meet. A reader of an archive starts at the end of the file: it searches backwards
-- for the end records (src/spec.rs), each of which says where the central directory lies, and takes
-- the first that is good (`get_metadata` in src/read.rs). The directory is a row of headers
-- (src/types.rs), one for each entry, with its method (src/compression.rs), its moment, its texts in
-- UTF-8 or a code page (src/cp437.rs) and its extra field (src/extra_fields). The local header that
-- stands before the content says where the content begins. The data of an encrypted entry goes
-- through ZipCrypto (src/zipcrypto.rs) or AES (src/aes.rs, src/aes_ctr.rs), and at its end the
-- checksum is tested (src/crc32.rs). A writer (`ZipWriter` in src/write.rs) puts a local header before
-- each content, passes the content through a compressor and a cipher, goes back to put the checksum
-- and the sizes into the header, and puts the directory and its footer behind the entries.
--
-- The files:
--   Result      src/result.rs: `ZipError` and `ZipResult`, and the kinds of `io::Error` that occur.
--   LittleEndian, Cursor   src/unstable.rs and what the code uses of `Read`, `Write` and `Seek`. A
--               reader or writer is a list of bytes and a position (`Cursor`), an operation is a
--               function of it that gives a result and the cursor after it, or an error.
--   Spec.Block  src/spec.rs, `FixedSizeBlock`: a packed struct is its list of fields and their
--               widths in bytes; `interpret`, `parse`, `encode` and `write` are the trait's.
--   Spec.Records, Spec.Zip32End, Spec.Zip64End   src/spec.rs: the three end records, with `parse`,
--               `write`, `block` and `block_and_comment`.
--   Spec.Find   src/spec.rs, `find_and_parse` of `Zip32CentralDirectoryEnd` and of
--               `Zip64CentralDirectoryEnd`: the loops over the windows.
--   Types.Headers, Types.DateTime   src/types.rs: `ZipCentralEntryBlock`, `ZipLocalEntryBlock` and
--               `DateTime`.
--   Types.File  src/types.rs: `System`, `AesMode` and `ZipFileData` with `unix_mode` and
--               `version_needed`; Types.File.Zip64 is `Zip64ExtraFieldBlock`, Types.File.Blocks is
--               `flags`, `clamp_size_field`, `local_block` and `block`, Types.Utf8 what they use of
--               strings. A panic of theirs is `none`.
--   Types.ExtraFields   src/extra_fields: `ExtendedTimestamp` and `UnicodeExtraField`.
--   Cp437       src/cp437.rs: `from_cp437` and `to_char`. Types.Utf8.Lossy is `from_utf8_lossy`.
--   Read.ExtraField   src/read.rs: `parse_extra_field` and `parse_single_extra_field`, in a monad that
--               keeps the entry after an error.
--   Read.Header src/read.rs: `central_header_to_zip_file`, `central_header_to_zip_file_inner`,
--               `find_data_start`, `find_content`, and the loop of `read_central_header`.
--   Read.Content   src/read.rs: `CryptoReader` with `make_crypto_reader`, `ZipFileReader` with
--               `make_reader`, and the reads of a `ZipFile`. Read.Content.Forms and the modules
--               beside it follow a content through its decryption, decoder and checksum.
--   Read.Lzma   src/read/lzma.rs: `LzmaDecoder`, one of the decoders of Read.Content.
--   Read.Archive   src/read.rs: `ZipArchive` with `build`, `with_config`, `from_finalized_writer` and the
--               methods that find and open an entry; `is_dir` of src/spec.rs.
--   Read.Config, Read.Directory, Read.Metadata   src/read/config.rs and src/read.rs:
--               `get_directory_info_zip32` and `get_directory_info_zip64`, then `get_metadata`,
--               `sort_result` and `read_central_header`. A panic of `get_metadata` is `none`.
--   Write       src/write.rs: Write.Headers is `write_central_directory_header`, the ZIP64 fields,
--               `update_local_file_header` and `update_aes_extra_data`, Write.Footer is
--               `write_central_and_footer` and the end of `finalize`; Write.Monad has a panic as
--               `none` and the file as it is after an error. Write.ReadBack puts writing and reading
--               together.
--   Write.Options, Write.Generic   src/write.rs: `FileOptions`, `ExtendedFileOptions` with
--               `validate_extra_data` and `normalize_options`; `MaybeEncrypted` and
--               `GenericZipWriter` with `prepare_next_writer` and `switch_to`.
--   Write.State src/write.rs: `ZipWriter`, and a method as a function of it that gives its result
--               and the state after it, also after an error, or `none` for a panic.
--   Write.Writer   src/write.rs: `finish_file`, `abort_file` and `write`; Write.Writer.Entry is
--               `start_entry`, `start_file`, `add_directory` and `add_symlink`, with
--               `initialize_local_block` of src/types.rs; Write.Writer.Copy is `shallow_copy_file`,
--               `deep_copy_file`, `raw_copy_file_rename` and `merge_archive`, with `merge_contents` of
--               src/read.rs; Write.Writer.Close is `new`, `new_append_with_config`, `finalize`,
--               `finish`, `finish_into_readable` and `drop`. Write.Writer.Stored and
--               Write.Writer.Session follow entries that are stored, to the archive that is opened on
--               their file; Write.Writer.Names follows the names.
--   Read.Stream src/read.rs and src/read/stream.rs: `read_zipfile_from_stream` with `from_local_block`
--               of src/types.rs; Read.Stream.Visit is `ZipStreamReader::visit`.
--   Aes         src/aes.rs: `AesReader`, `AesReaderValid`, `AesWriter` and `Cipher`.
--   AesCtr      src/aes_ctr.rs: `AesCtrZipKeyStream`. Its specification is one stream of key bytes.
--   Crc32       src/crc32.rs: `Crc32Reader`.
--   Compression src/compression.rs: `CompressionMethod`.
--   Zipcrypto   src/zipcrypto.rs: `ZipCryptoKeys`, the reader, the validator and the writer.
--   Prelude, Bits   shared names and lemmas on lists, numbers and bits.
--   Tests       runs at concrete inputs.
--
-- Numbers of w bits are natural numbers with their wrap-around written out. A lemma that needs a
-- number to have its width says so (`IsBlock`, `IsByte`, `InRange`). The search recurs on the start
-- of its window, which falls, and most loops on a list. The others have fuel: the one of
-- `AesCtr.crypt_loop` is the length of its target, and each round takes a byte at least; the one of
-- `Read.ExtraField.parse_fields` is the length of the extra field, and each field takes four bytes.
-- The loops of `Read.Stream.Visit` have one more round than there are bytes, and each round takes 30
-- bytes at least. The fuel of `Write.Options.validate_fields` is the length of the extra data, and
-- each field takes four bytes; that of `Write.Writer.write_rounds` is the length of the buffer, and
-- each round takes a byte; the padding of `Write.Writer.Entry.at_least_six` grows by two at least, so
-- six rounds are enough. The fuel of `Read.Lzma.fill` is above the number of the compressed bytes that
-- are left, and each round takes one at least. How much of an LZMA entry is taken when it is dropped
-- is given with the visitor of `Read.Stream.Visit`.
--
-- Parameters: `FinderRev::rfind_iter` of the crate memchr, with `Spec.Find.IsFinder` for its
-- documentation; the block cipher of the crate aes, which gives 16 bytes for 16; with it the crates
-- hmac, pbkdf2 and constant_time_eq, `Aes.Crypto`, with `Aes.IsCrypto`; the salt, which is random;
-- `Hasher` of the crate crc32fast, with `Crc32.Checked.IsHashing`, and its checksum of some bytes as
-- a function; the reader inside a `Crc32Reader`; the encoders of the crates flate2, zopfli, bzip2 and
-- zstd, `Write.Generic.Encoders`; the decoders of these and of deflate64, in `Read.Content.Crates`, with
-- `Read.Content.Panics.NeverPanics`; the stream of lzma-rs, `Read.Lzma.LzmaRs`; the clock. An `IndexMap` is the list of its entries in order. A file is a
-- list of bytes in the model, so an I/O error other than the end of the file does not occur. What an
-- `io::Take` limits is a cursor on the bytes that it is limited to.
--
-- Not modelled: of src/read.rs the extraction to a file system, and the names as paths of the
-- platform; of src/write.rs the
-- methods that take a path of the platform, and the flush of the writer below; the accessors and the
-- extraction of src/read/stream.rs, and the compressors and decoders, which are other crates.
pub mod Prelude
pub mod Bits
pub mod LittleEndian
pub mod Result
pub mod Cursor
pub mod Spec
pub mod Types
pub mod Compression
pub mod Zipcrypto
pub mod Tests
pub mod AesCtr
pub mod Aes
pub mod Crc32
pub mod Cp437
pub mod Read
pub mod Write
