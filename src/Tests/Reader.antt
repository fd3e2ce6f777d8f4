-- ===== src/Tests/Reader.antt =====
-- src/read.rs: archives with stand-ins for the crates, whose entries are opened and read.
use native.Mathlib.Nat.{mod-lt}
use zip.Prelude.{
  ℕ, ◌≡◌, ◌≢◌, refl, sym, arith, true, false, none, some, List, [], ◌∷◌, ◌++◌, length, append-nil,
  inr, All,
}
use zip.Result.{ok, err}
use zip.Compression.{CompressionMethod}
use zip.Types.File.{ZipFileData}
use zip.Zipcrypto.{encrypt_all, derive, check_byte}
use zip.Zipcrypto.RoundTrip.{header}
use zip.Read.Config.{ArchiveOffset}
use zip.Read.Metadata.{SharedBuilder}
use zip.Read.Content.{
  Crates, CryptoReader, plaintext, read_crypto, ZipFile, no_reader, validator_of, not_supported,
  read_file,
}
use zip.Read.Content.Whole.{reads}
use zip.Read.Content.Forms.{Holds, Holds-Yields}
use zip.Read.Content.Opened.{zip_crypto_form}
use zip.Read.Archive.{
  ZipArchive, build, by_name, by_index_with_optional_password, index_for_name, needed_password,
}
use zip.Read.Archive.Opened.{by_index_with_optional_password-reads}
use zip.Read.Archive.Named.{entry_at, last_named, build-last_named}
use zip.Read.Content.Panics.{NeverPanics, read_crypto-safe}
use zip.Read.Content.Safe.{all_reads}
use zip.Read.Archive.Safe.{opened-safe, opened-panics}
use zip.Write.State.{ZipWriter}
use zip.Write.Writer.Close.{new}
use zip.Write.Writer.Names.{NamesDistinct}
use zip.Write.Writer.Session.Readable.{reading, write_readable, write_readable-by_name}
use zip.Tests.Aes.{crypto, crypto-IsCrypto}
use zip.Tests.File.{small}
use zip.Tests.Writer.{
  K, summing-IsHashing, empty, items, items-IsDistinct, items-IsItem, more-IsItem, content_size,
  default-is_valid, items-IsSmall,
}

-- A decoder that hands on what it reads.
abbrev pub crates : Crates
crates = reading K (CryptoReader crypto) (λ method r. r) some (read_crypto crypto)

pub one_byte : All (λ (n : ℕ). n ≢ 0) (1 ∷ 1 ∷ 1 ∷ [])
one_byte = (λ e. omega arith, (λ e. omega arith, (λ e. omega arith, tt)))

write_readable-by_name_example :
    (a : ZipArchive) × (s : ZipWriter K) × (file : ZipFile crates) × (read : ZipFile crates)
    × (write_readable K items (104 ∷ []) (new K empty) ≡ some (ok a, s))
    × (by_name crates a (97 ∷ []) ≡ (ok file, a))
    × (reads crates (1 ∷ 1 ∷ 1 ∷ []) file ≡ some (ok (120 ∷ 121 ∷ []), read))
write_readable-by_name_example =
    write_readable-by_name K (CryptoReader crypto) (λ method r. r) some (read_crypto crypto) items
      (104 ∷ []) empty
      (record {
        name = 97 ∷ [];
        time = zip.Types.DateTime.default;
        permissions = none;
        content = 120 ∷ 121 ∷ [];
      })
      0 (1 ∷ 1 ∷ 1 ∷ []) crypto-IsCrypto summing-IsHashing (λ h. mod-lt (length h) (omega arith))
      default-is_valid items-IsDistinct (items-IsItem, (more-IsItem, tt)) refl
      (omega (arith, content_size)) items-IsSmall refl one_byte (omega arith)

-- An archive of bytes that one entry points to.
abbrev archive_of : List ℕ → ZipFileData → ZipArchive
archive_of bytes f = record {
  reader = record { bytes = bytes; pos = 0 };
  files = f ∷ [];
  offset = 0;
  dir_start = 0;
  config = record { archive_offset = ArchiveOffset.detect };
  comment = [];
}

-- Two bytes under ZipCrypto.
abbrev sealed : List ℕ
sealed =
    (encrypt_all (derive (5 ∷ [])) (
      header
        (check_byte (validator_of crypto 2 small.last_modified_time small.using_data_descriptor))
      ++ (120 ∷ 121 ∷ []))).0

abbrev sealed_file : ZipFileData
sealed_file = record small {
  encrypted = true;
  compression_method = CompressionMethod.deflated;
  aes_mode = none;
  crc32 = 2;
  compressed_size = length sealed;
  data_start = some 0;
}

needed : needed_password (some (5 ∷ [])) true ≡ ok (some (5 ∷ []))
unfolding needed_password
needed = refl

by_index_with_optional_password-reads_example :
    (file : ZipFile crates) × (read : ZipFile crates) × (by_index_with_optional_password crates
        (archive_of sealed sealed_file)
        0
        (some (5 ∷ []))
      ≡ (ok file, archive_of sealed sealed_file))
    × (reads crates (1 ∷ 1 ∷ 1 ∷ []) file ≡ some (ok (120 ∷ 121 ∷ []), read))
by_index_with_optional_password-reads_example =
    by_index_with_optional_password-reads crates crypto-IsCrypto summing-IsHashing
      (Holds crypto crypto-IsCrypto) (Holds-Yields crypto crypto-IsCrypto)
      (archive_of sealed sealed_file) 0 sealed_file (some (5 ∷ [])) (some (5 ∷ [])) (120 ∷ 121 ∷ [])
      (120 ∷ 121 ∷ []) sealed [] 0 (1 ∷ 1 ∷ 1 ∷ []) refl needed (λ r h. h) refl
      (sym (append-nil sealed)) refl (zip_crypto_form refl refl) (inr refl) one_byte (omega arith)

-- Two bytes as they are.
abbrev plain_file : CompressionMethod → ZipFileData
plain_file method = record small {
  encrypted = false;
  compression_method = method;
  aes_mode = none;
  crc32 = 2;
  compressed_size = 2;
  data_start = some 0;
}

abbrev plain_archive : CompressionMethod → ZipArchive
plain_archive method = archive_of (120 ∷ 121 ∷ []) (plain_file method)

abbrev opened_file : CompressionMethod → ZipFile crates
opened_file method = record {
  entry = plain_file method;
  crypto_reader = some (plaintext (record { bytes = 120 ∷ 121 ∷ []; pos = 0 }));
  reader = no_reader;
}

opens_stored :
    by_index_with_optional_password crates (plain_archive CompressionMethod.stored) 0 none
    ≡ (ok (opened_file CompressionMethod.stored), plain_archive CompressionMethod.stored)
unfolding by_index_with_optional_password
opens_stored = refl

opens_aes :
    by_index_with_optional_password crates (plain_archive CompressionMethod.aes) 0 none
    ≡ (ok (opened_file CompressionMethod.aes), plain_archive CompressionMethod.aes)
unfolding by_index_with_optional_password
opens_aes = refl

sound : NeverPanics crates (λ _. Unit)
sound = record {
  new_decoder = λ m r other. tt;
  new_zstd_decoder = λ r. (r, refl, tt);
  decode = λ d n _. (read_crypto-safe crypto d n, tt);
}

opened-safe_example :
    all_reads crates (1 ∷ 0 ∷ 5 ∷ 1 ∷ []) (opened_file CompressionMethod.stored) ≢ none
opened-safe_example =
    opened-safe crates (λ _. Unit) sound (plain_archive CompressionMethod.stored)
      (plain_archive CompressionMethod.stored) 0 none (opened_file CompressionMethod.stored)
      (1 ∷ 0 ∷ 5 ∷ 1 ∷ []) opens_stored refl (λ e. not_lzma e)
  where
    not_lzma : ¬ (CompressionMethod.stored ≡ CompressionMethod.lzma)
    not_lzma e = absurd (cc)

opened-panics_example :
    (f : ZipFile crates) × (read_file crates (opened_file CompressionMethod.aes) 1
      ≡ some (err not_supported, f))
    × ((k : ℕ) → read_file crates f k ≡ none)
opened-panics_example =
    opened-panics crates (plain_archive CompressionMethod.aes) (plain_archive CompressionMethod.aes)
      0 none (opened_file CompressionMethod.aes) 1 opens_aes refl

-- Two entries of the same name.
abbrev twice : SharedBuilder
twice = record {
  files = plain_file CompressionMethod.stored ∷ plain_file CompressionMethod.deflated ∷ [];
  offset = 0;
  dir_start = 0;
}

build-last_named_example :
    NamesDistinct (build twice)
    × (entry_at (build twice) (
          index_for_name
            (record (plain_archive CompressionMethod.stored) { files = build twice })
            (97 ∷ []))
        ≡ last_named (97 ∷ []) twice.files)
build-last_named_example =
    build-last_named twice (record (plain_archive CompressionMethod.stored) { files = build twice })
      (97 ∷ []) refl

last_one : last_named (97 ∷ []) twice.files ≡ some (plain_file CompressionMethod.deflated)
unfolding last_named
last_one = refl
