-- ===== src/Read/Archive.antt =====
-- src/read.rs: `ZipArchive`, with the methods that find an entry and open it, and `ZipFile` as what is
-- known of it. The entries are what an `IndexMap` documents, by name and in order. Each method that
-- reads seeks first, and the position of the reader is not kept in the archive.
pub mod Opened
pub mod Named
pub mod Safe
use mathlib.Core.Option
use zip.Prelude.{
  ℕ, ◌+◌, ◌/◌, ◌%◌, ◌^◌, bit_and, suc, Bool, true, false, not, ◌&&◌, ◌||◌, ◌==◌, ltb, if◌then◌else◌,
  Option, none, some, List, [], ◌∷◌, map, length, get_elem?, set,
}
use zip.Result.{ZipResult, ok, err, invalid_archive, file_not_found, unsupported_archive}
use zip.Cursor.{Cursor, Io, ◌>>=◌, pure, run_at}
use zip.Compression.{CompressionMethod}
use zip.Spec.Find.{Finder}
use zip.Types.File.{ZipFileData, AesMode, AesVendorVersion, unix_mode}
use zip.Aes.{get_verification_value_and_salt}
use zip.Read.Config.{Config, ArchiveOffset}
use zip.Read.Header.{find_content}
use zip.Read.Metadata.{SharedBuilder, get_metadata}
use zip.Read.Content.{Crates, CryptoReader, make_crypto_reader, ZipFile, no_reader, raw}
use zip.Write.Writer.Entry.{same_name, s_iflnk}
use zip.Write.Writer.Copy.{extend}

pub record ZipArchive : Type 0 where
  pub reader : Cursor
  pub files : List ZipFileData
  pub offset : ℕ
  pub dir_start : ℕ
  pub config : Config
  pub comment : List ℕ

-- `SharedBuilder::build`: an entry of a name that is there takes its place.
unfoldable pub build : SharedBuilder → List ZipFileData
build shared = extend [] shared.files

-- `with_config`, and `new` with the default configuration. The reader stands at the directory.
unfoldable pub with_config : (List ℕ → ℕ) → Finder → Config → List ℕ → Option (ZipResult ZipArchive)
unfolding get_metadata build
with_config crc32 rfind_iter config file = elim (get_metadata crc32 rfind_iter config file) [
  | none ↦ none
  | some (ok (footer, shared)) ↦ some (
      ok (record {
        reader = record { bytes = file; pos = shared.dir_start };
        files = build shared;
        offset = shared.offset;
        dir_start = shared.dir_start;
        config = config;
        comment = footer.zip_file_comment;
      }))
  | some (err e) ↦ some (err (invalid_archive "No valid central directory found"))
]

unfoldable pub new_archive : (List ℕ → ℕ) → Finder → List ℕ → Option (ZipResult ZipArchive)
unfolding with_config
new_archive crc32 rfind_iter file =
    with_config crc32 rfind_iter (record { archive_offset = ArchiveOffset.detect }) file

abbrev initial_offset : List ZipFileData → ℕ → ℕ
initial_offset [] central_start = central_start
initial_offset (f ∷ files) central_start = f.header_start

-- `from_finalized_writer`: the configuration knows the offset.
unfoldable pub from_finalized_writer : List ZipFileData → List ℕ → Cursor → ℕ → ZipArchive
from_finalized_writer files comment reader central_start = record {
  reader = reader;
  files = files;
  offset = initial_offset files central_start;
  dir_start = central_start;
  config = record { archive_offset = ArchiveOffset.known (initial_offset files central_start) };
  comment = comment;
}

abbrev pub len : ZipArchive → ℕ
len a = length a.files

unfoldable pub is_empty : ZipArchive → Bool
is_empty a = len a == 0

unfoldable pub file_names : ZipArchive → List (List ℕ)
file_names a = map (λ f. f.file_name) a.files

-- The sum, as a `u128` holds it, of the sizes that are known.
abbrev add_size : Bool → ℕ → Option ℕ
add_size true total = some total
add_size false total = none

unfoldable pub size_from : ℕ → List ZipFileData → Option ℕ
size_from total [] = some total
size_from total (f ∷ files) =
    let rest = size_from (total + f.uncompressed_size) files in
    if f.using_data_descriptor
    then none
    else if ltb (total + f.uncompressed_size) (2 ^ 128)
    then rest
    else none

unfoldable pub decompressed_size : ZipArchive → Option ℕ
unfolding size_from
decompressed_size a = size_from 0 a.files

-- `get_index_of`.
unfoldable pub get_index_of : List ℕ → List ZipFileData → Option ℕ
get_index_of name [] = none
get_index_of name (f ∷ files) =
    if same_name name f.file_name then some 0 else Option.map suc (get_index_of name files)

unfoldable pub index_for_name : ZipArchive → List ℕ → Option ℕ
unfolding get_index_of
index_for_name a name = get_index_of name a.files

unfoldable pub name_for_index : ZipArchive → ℕ → Option (List ℕ)
name_for_index a index = Option.map (λ f. f.file_name) (get_elem? a.files index)

-- The password that is used: none where none is needed, and an error where it is missing.
unfoldable pub needed_password : Option (List ℕ) → Bool → ZipResult (Option (List ℕ))
needed_password none true = err (unsupported_archive "Password required to decrypt file")
needed_password none false = ok none
needed_password (some password) true = ok (some password)
needed_password (some password) false = ok none

-- The content of the entry at an index, and the archive with what was found out of its place.
abbrev pub with_content :
    {A : Type 0}
    → ZipArchive
    → ℕ
    → (List ℕ → ZipFileData → ZipResult A)
    → ZipResult (List ℕ × ZipFileData)
    → ZipResult A × ZipArchive
with_content a file_number use_content (ok (content, f)) =
    (use_content content f, record a { files = set a.files file_number f })
with_content a file_number use_content (err e) = (err e, a)

abbrev pub locate : ZipArchive → ZipFileData → ZipResult (List ℕ × ZipFileData)
locate a f = run_at a.reader.bytes a.reader.pos (find_content f)

module _ (K : Crates) where
  open K use {crypto}

  abbrev pub file_with : ZipFileData → CryptoReader crypto → Io (ZipFile K)
  file_with f crypto_reader =
      pure (record { entry = f; crypto_reader = some crypto_reader; reader = no_reader })

  -- The entry with the reader of its content.
  unfoldable pub open_file : Option (List ℕ) → List ℕ → ZipFileData → ZipResult (ZipFile K)
  unfolding make_crypto_reader run_at
  open_file password content f =
      run_at content 0 (make_crypto_reader crypto f password >>= file_with f)

  abbrev pub opened_with :
      ZipArchive
      → ℕ
      → ZipFileData
      → ZipResult (Option (List ℕ))
      → ZipResult (ZipFile K) × ZipArchive
  opened_with a file_number f (ok password) =
      with_content a file_number (open_file password) (locate a f)
  opened_with a file_number f (err e) = (err e, a)

  abbrev pub opened :
      ZipArchive → ℕ → Option (List ℕ) → Option ZipFileData → ZipResult (ZipFile K) × ZipArchive
  opened a file_number password none = (err file_not_found, a)
  opened a file_number password (some f) =
      opened_with a file_number f (needed_password password f.encrypted)

  unfoldable pub by_index_with_optional_password :
      ZipArchive → ℕ → Option (List ℕ) → ZipResult (ZipFile K) × ZipArchive
  unfolding needed_password open_file run_at find_content
  by_index_with_optional_password a file_number password =
      opened a file_number password (get_elem? a.files file_number)

  unfoldable pub by_index : ZipArchive → ℕ → ZipResult (ZipFile K) × ZipArchive
  unfolding by_index_with_optional_password
  by_index a file_number = by_index_with_optional_password a file_number none

  unfoldable pub by_index_decrypt : ZipArchive → ℕ → List ℕ → ZipResult (ZipFile K) × ZipArchive
  unfolding by_index_with_optional_password
  by_index_decrypt a file_number password =
      by_index_with_optional_password a file_number (some password)

  abbrev pub at_index : ZipArchive → Option (List ℕ) → Option ℕ → ZipResult (ZipFile K) × ZipArchive
  at_index a password none = (err file_not_found, a)
  at_index a password (some index) = by_index_with_optional_password a index password

  unfoldable pub by_name_with_optional_password :
      ZipArchive → List ℕ → Option (List ℕ) → ZipResult (ZipFile K) × ZipArchive
  unfolding by_index_with_optional_password get_index_of
  by_name_with_optional_password a name password = at_index a password (get_index_of name a.files)

  unfoldable pub by_name : ZipArchive → List ℕ → ZipResult (ZipFile K) × ZipArchive
  unfolding by_name_with_optional_password
  by_name a name = by_name_with_optional_password a name none

  unfoldable pub by_name_decrypt : ZipArchive → List ℕ → List ℕ → ZipResult (ZipFile K) × ZipArchive
  unfolding by_name_with_optional_password
  by_name_decrypt a name password = by_name_with_optional_password a name (some password)

  abbrev raw_file : List ℕ → ZipFileData → ZipResult (ZipFile K)
  raw_file content f = ok (record {
    entry = f;
    crypto_reader = none;
    reader = raw (record { bytes = content; pos = 0 });
  })

  unfoldable pub by_index_raw : ZipArchive → ℕ → ZipResult (ZipFile K) × ZipArchive
  unfolding run_at find_content
  by_index_raw a file_number = elim (get_elem? a.files file_number) [
    | none ↦ (err file_not_found, a)
    | some f ↦ with_content a file_number raw_file (locate a f)
  ]

  -- `AesInfo`: the mode, the value that verifies the password, and the salt.
  abbrev pub AesInfo : Type 0
  AesInfo = AesMode × List ℕ × List ℕ

  abbrev aes_info :
      Option (AesMode × AesVendorVersion × CompressionMethod) → List ℕ → ZipResult (Option AesInfo)
  aes_info none content = ok none
  aes_info (some (aes_mode, vendor_version, method)) content = run_at content 0 (do
    (verification_value, salt) ← get_verification_value_and_salt crypto aes_mode
    pure (some (aes_mode, verification_value, salt)))

  unfoldable pub get_aes_verification_key_and_salt :
      ZipArchive → ℕ → ZipResult (Option AesInfo) × ZipArchive
  unfolding run_at find_content get_verification_value_and_salt
  get_aes_verification_key_and_salt a file_number = elim (get_elem? a.files file_number) [
    | none ↦ (err file_not_found, a)
    | some f ↦
        with_content a file_number (λ content found. aes_info found.aes_mode content) (locate a f)
  ]

-- `spec::is_dir`: the last character is a slash of either kind, which is one byte.
unfoldable pub is_dir : List ℕ → Bool
is_dir [] = false
is_dir (b ∷ []) = b == b'/' || b == 92
is_dir (b ∷ d ∷ name) = is_dir (d ∷ name)

abbrev is_link_mode : Option ℕ → Bool
is_link_mode none = false
is_link_mode (some mode) = bit_and mode s_iflnk == s_iflnk

-- `is_symlink`, `is_file` and `version_made_by` of a `ZipFile`.
unfoldable pub is_symlink : ZipFileData → Bool
unfolding unix_mode
is_symlink f = is_link_mode (unix_mode f)

unfoldable pub is_file : ZipFileData → Bool
unfolding is_dir is_symlink
is_file f = not (is_dir f.file_name) && not (is_symlink f)

unfoldable pub version_made_by : ZipFileData → ℕ × ℕ
version_made_by f = (f.version_made_by / 10, f.version_made_by % 10)
