-- ===== src/Types/File.antt =====
-- src/types.rs: `ZipFileData`, what is known of an entry, and the headers that are made of it.
pub mod Zip64
pub mod Version
pub mod Blocks
use zip.Prelude.{
  ℕ, ◌+◌, ◌*◌, ◌/◌, ◌^◌, ◌%◌, min, max, bit_and, bit_or, Bool, true, false, not, ◌&&◌, ◌||◌, leb,
  ltb, ◌==◌, if◌then◌else◌, Option, none, some, List, length,
}
use zip.Compression.{
  CompressionMethod, stored, deflated, deflate64, bzip2, aes, zstd, lzma, unsupported,
}
use zip.Types.DateTime.{DateTime}

pub data System : Type 0 where
  dos : System
  unix : System
  unknown : System

-- `impl From<u8> for System`, and the other way round.
unfoldable pub system_from : ℕ → System
system_from system = if system == 0 then dos else if system == 3 then unix else unknown

unfoldable pub u8_from : System → ℕ
u8_from dos = 0
u8_from unix = 3
u8_from unknown = 4

pub data AesVendorVersion : Type 0 where
  ae1 : AesVendorVersion
  ae2 : AesVendorVersion

pub data AesMode : Type 0 where
  aes128 : AesMode
  aes192 : AesMode
  aes256 : AesMode

unfoldable pub key_length : AesMode → ℕ
key_length aes128 = 16
key_length aes192 = 24
key_length aes256 = 32

unfoldable pub salt_length : AesMode → ℕ
unfolding key_length
salt_length m = key_length m / 2

-- A number with a sign, for `i64`.
pub data ℤ : Type 0 where
  pos : ℕ → ℤ
  negsuc : ℕ → ℤ

-- src/extra_fields: an extra field that is kept.
pub record ExtendedTimestamp : Type 0 where
  pub mod_time : Option ℕ
  pub ac_time : Option ℕ
  pub cr_time : Option ℕ

pub data ExtraField : Type 0 where
  extended_timestamp : ExtendedTimestamp → ExtraField

-- A string is the list of its bytes in UTF-8, and a `OnceLock` is `none` until it is set.
pub record ZipFileData : Type 0 where
  pub system : System
  pub version_made_by : ℕ
  pub encrypted : Bool
  pub is_utf8 : Bool
  pub using_data_descriptor : Bool
  pub compression_method : CompressionMethod
  pub compression_level : Option ℤ
  pub last_modified_time : Option DateTime
  pub crc32 : ℕ
  pub compressed_size : ℕ
  pub uncompressed_size : ℕ
  pub file_name : List ℕ
  pub file_name_raw : List ℕ
  pub extra_field : Option (List ℕ)
  pub central_extra_field : Option (List ℕ)
  pub file_comment : List ℕ
  pub header_start : ℕ
  pub extra_data_start : Option ℕ
  pub central_header_start : ℕ
  pub data_start : Option ℕ
  pub external_attributes : ℕ
  pub large_file : Bool
  pub aes_mode : Option (AesMode × AesVendorVersion × CompressionMethod)
  pub aes_extra_data_start : ℕ
  pub extra_fields : List ExtraField

-- The module `ffi`, and the versions.
abbrev pub s_ifdir : ℕ
s_ifdir = 0x4000

abbrev pub s_ifreg : ℕ
s_ifreg = 0x8000

abbrev pub min_version : ℕ
min_version = 10

abbrev pub default_version : ℕ
default_version = 45

-- The mode that the attributes of MS-DOS stand for: 0o775, 0o664 and the mask 0o555.
abbrev pub dos_mode : ℕ → ℕ
dos_mode attributes =
    let mode =
      if 0x10 == bit_and attributes 0x10 then bit_or s_ifdir 0x1fd else bit_or s_ifreg 0x1b4 in
    if 0x01 == bit_and attributes 0x01 then bit_and mode 0x16d else mode

abbrev mode_on : System → ℕ → Option ℕ
mode_on unix attributes = some (attributes / 2 ^ 16)
mode_on dos attributes = some (dos_mode attributes)
mode_on unknown attributes = none

unfoldable pub unix_mode : ZipFileData → Option ℕ
unix_mode f = if f.external_attributes == 0 then none else mode_on f.system f.external_attributes

abbrev pub compression_version : CompressionMethod → ℕ
compression_version stored = min_version
compression_version deflated = 20
compression_version bzip2 = 46
compression_version deflate64 = 21
compression_version lzma = 63
compression_version aes = default_version
compression_version zstd = default_version
compression_version (unsupported v) = default_version

abbrev pub is_some {ℓ} : {A : Type ℓ} → Option A → Bool
is_some none = false
is_some (some a) = true

abbrev is_directory_mode : Option ℕ → Bool
is_directory_mode none = false
is_directory_mode (some mode) = bit_and mode s_ifdir == s_ifdir

unfoldable pub version_needed : ZipFileData → ℕ
unfolding unix_mode
version_needed f =
    let crypto_version = if is_some f.aes_mode then 51 else if f.encrypted then 20 else 10 in
    let misc_feature_version =
      if f.large_file then 45 else if is_directory_mode (unix_mode f) then 20 else 10 in
    max (max (compression_version f.compression_method) crypto_version) misc_feature_version

-- `extra_field_len` and `central_extra_field_len`.
abbrev pub len_or_default : Option (List ℕ) → ℕ
len_or_default none = 0
len_or_default (some v) = length v
