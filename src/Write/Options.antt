-- ===== src/Write/Options.antt =====
-- src/write.rs: the options of an entry, `FileOptions` and `ExtendedFileOptions`, and the test of the
-- extra data. The default features are on, so `unreserved` is off. The checksum of the crate
-- crc32fast is a parameter of the test, and the clock one of the defaults.
pub mod Validated
use zip.Prelude.{
  String, ℕ, zero, suc, ◌+◌, ◌-◌, ◌%◌, ◌^◌, bit_and, bit_or, Bool, true, false, not, ◌||◌, ltb,
  ◌==◌, if◌then◌else◌, Option, none, some, List, [], ◌∷◌, ◌++◌, length,
}
use zip.Result.{ZipResult, ok, err, io, other, invalid_archive}
use zip.LittleEndian.{to_le_bytes}
use zip.Cursor.{Cursor, read_le}
use zip.Compression.{CompressionMethod, deflated}
use zip.Zipcrypto.{ZipCryptoKeys, derive}
use zip.Types.DateTime.{DateTime, is_valid}
use zip.Types.File.{ZipFileData, AesMode, ℤ, s_ifreg, unknown}
use zip.Read.ExtraField.{parse_single_extra_field}

-- The salt of AES is drawn when the entry starts; here it comes with the password.
pub data EncryptWith : Type 0 where
  aes : (mode : AesMode) (password salt : List ℕ) → EncryptWith
  zip_crypto : ZipCryptoKeys → EncryptWith

pub record ExtendedFileOptions : Type 0 where
  pub extra_data : List ℕ
  pub central_extra_data : List ℕ

-- `extended_options` is `none` for the extension `()`, which has no extra data.
pub record FileOptions : Type 0 where
  pub compression_method : CompressionMethod
  pub compression_level : Option ℤ
  pub last_modified_time : DateTime
  pub permissions : Option ℕ
  pub large_file : Bool
  pub encrypt_with : Option EncryptWith
  pub extended_options : Option ExtendedFileOptions
  pub alignment : ℕ
  pub zopfli_buffer_size : Option ℕ

-- `FileOptionExtension::extra_data` and `central_extra_data`.
abbrev pub extra_data : Option ExtendedFileOptions → Option (List ℕ)
extra_data none = none
extra_data (some e) = some e.extra_data

abbrev pub central_extra_data : Option ExtendedFileOptions → Option (List ℕ)
central_extra_data none = none
central_extra_data (some e) = some e.central_extra_data

-- The methods that set an option, and the default.
abbrev pub unix_permissions : FileOptions → ℕ → FileOptions
unix_permissions o mode = record o { permissions = some (bit_and mode 0x1ff) }

abbrev pub with_deprecated_encryption : FileOptions → List ℕ → FileOptions
with_deprecated_encryption o password = record o {
  encrypt_with = some (zip_crypto (derive password));
}

abbrev pub with_aes_encryption : FileOptions → AesMode → List ℕ → List ℕ → FileOptions
with_aes_encryption o mode password salt = record o { encrypt_with = some (aes mode password salt) }

abbrev pub default_options : DateTime → Option ExtendedFileOptions → FileOptions
default_options default_for_write extended_options = record {
  compression_method = deflated;
  compression_level = none;
  last_modified_time = default_for_write;
  permissions = none;
  large_file = false;
  encrypt_with = none;
  extended_options = extended_options;
  alignment = 1;
  zopfli_buffer_size = some (2 ^ 15);
}

abbrev pub no_extra_data : ExtendedFileOptions
no_extra_data = record { extra_data = []; central_extra_data = [] }

-- `clear_extra_data`; the tests of the lengths only save an allocation.
unfoldable pub clear_extra_data : ExtendedFileOptions → ExtendedFileOptions
clear_extra_data e = record {
  extra_data = if ltb 0 (length e.extra_data) then [] else e.extra_data;
  central_extra_data = if ltb 0 (length e.central_extra_data) then [] else e.central_extra_data;
}

-- What an option without a value becomes in `normalize_options`, `add_directory` and `add_symlink`.
abbrev pub permissions_or : Option ℕ → ℕ → ℕ
permissions_or none mode = mode
permissions_or (some p) mode = p

unfoldable pub normalize_options : DateTime → FileOptions → FileOptions
normalize_options default_for_write o = record o {
  permissions = some (bit_or (permissions_or o.permissions 0x1a4) s_ifreg);
  last_modified_time =
      if not (is_valid o.last_modified_time) then default_for_write else o.last_modified_time;
}

-- `EXTRA_FIELD_MAPPING`.
abbrev pub extra_field_mapping : List ℕ
extra_field_mapping =
    0x0007 ∷ 0x0008 ∷ 0x0009 ∷ 0x000a ∷ 0x000c ∷ 0x000d ∷ 0x000e ∷ 0x000f ∷ 0x0014 ∷ 0x0015 ∷ 0x0016
    ∷ 0x0017 ∷ 0x0018 ∷ 0x0019 ∷ 0x0020 ∷ 0x0021 ∷ 0x0022 ∷ 0x0023 ∷ 0x0065 ∷ 0x0066 ∷ 0x4690
    ∷ 0x07c8 ∷ 0x2605 ∷ 0x2705 ∷ 0x2805 ∷ 0x334d ∷ 0x4341 ∷ 0x4453 ∷ 0x4704 ∷ 0x470f ∷ 0x4b46
    ∷ 0x4c41 ∷ 0x4d49 ∷ 0x4f4c ∷ 0x5356 ∷ 0x554e ∷ 0x5855 ∷ 0x6542 ∷ 0x756e ∷ 0x7855 ∷ 0xa220
    ∷ 0xfd4a ∷ 0x9902 ∷ []

abbrev pub any_equal : List ℕ → ℕ → Bool
any_equal [] header_id = false
any_equal (mapped ∷ more) header_id = mapped == header_id || any_equal more header_id

unfoldable pub is_reserved : ℕ → Bool
is_reserved header_id = any_equal extra_field_mapping header_id

-- `ZipFileData::default()`.
abbrev pub default_file : ZipFileData
default_file = record {
  system = unknown;
  version_made_by = 0;
  encrypted = false;
  is_utf8 = false;
  using_data_descriptor = false;
  compression_method = deflated;
  compression_level = none;
  last_modified_time = none;
  crc32 = 0;
  compressed_size = 0;
  uncompressed_size = 0;
  file_name = [];
  file_name_raw = [];
  extra_field = none;
  central_extra_field = none;
  file_comment = [];
  header_start = 0;
  extra_data_start = none;
  central_header_start = 0;
  data_start = none;
  external_attributes = 0;
  large_file = false;
  aes_mode = none;
  aes_extra_data_start = 0;
  extra_fields = [];
}

-- The length is cast to a `u16`.
unfoldable pub add_extra_data_unchecked : List ℕ → ℕ → List ℕ → List ℕ
add_extra_data_unchecked vec header_id body =
    vec ++ (to_le_bytes 2 header_id ++ (to_le_bytes 2 (length body % 2 ^ 16) ++ body))

-- An error of `validate_extra_data`; the one that names a header leaves its number out.
abbrev invalid_extra {ℓ} : {A : Type ℓ} → String → ZipResult A
invalid_extra text = err (io (other text))

-- The rest of the loop behind a round.
abbrev pub after_round : (Cursor → ZipResult (Unit {0})) → ZipResult Cursor → ZipResult (Unit {0})
after_round next (ok rest) = next rest
after_round next (err e) = err e

-- Where a field ends that was parsed.
abbrev pub field_end : ZipResult (Bool × Cursor) → ZipResult Cursor
field_end (ok (_, rest)) = ok rest
field_end (err e) = err e

module _ (crc32 : List ℕ → ℕ) where
  abbrev pub unless_reserved : Bool → Cursor → ZipResult Cursor
  unless_reserved true c = invalid_extra "Extra data header ID requires crate feature unreserved"
  unless_reserved false c = field_end (parse_single_extra_field crc32 c.pos true default_file c).0

  unfoldable pub with_header : ZipResult (ℕ × Cursor) → Cursor → ZipResult Cursor
  unfolding is_reserved
  with_header (err e) c = err e
  with_header (ok (header_id, _)) c = unless_reserved (is_reserved header_id) c

  abbrev pub with_room : (too_short : Bool) → Cursor → ZipResult Cursor
  with_room true c = invalid_extra "Extra-data field doesn't have room for ID and length"
  with_room false c = with_header (read_le 2 c) c

  -- One round of the loop over data of a length: where it goes on.
  unfoldable pub validate_field : ℕ → Cursor → ZipResult Cursor
  unfolding with_header
  validate_field len c = with_room (ltb (len - c.pos) 4) c

  -- The loop, for at most as many fields as the fuel; with none left its error is never met.
  unfoldable pub validate_fields : (fuel len : ℕ) → Cursor → ZipResult (Unit {0})
  unfolding validate_field
  validate_fields zero len c = if ltb c.pos len then invalid_extra "out of fuel" else ok tt
  validate_fields (suc fuel) len c =
      if ltb c.pos len then after_round (validate_fields fuel len) (validate_field len c) else ok tt

  unfoldable pub validate_extra_data : List ℕ → ℕ → ZipResult (Unit {0})
  unfolding validate_fields
  validate_extra_data extra reserved =
      if length extra == 0
      then ok tt
      else if ltb (2 ^ 16 - 1) (length extra + reserved)
      then invalid_extra "Extra-data field can't exceed u16::MAX bytes"
      else validate_fields (length extra) (length extra) (record { bytes = extra; pos = 0 })

  -- The options are changed before the field is tested, and stay so when the test fails.
  unfoldable pub add_extra_data :
      ExtendedFileOptions → ℕ → List ℕ → Bool → ZipResult (Unit {0}) × ExtendedFileOptions
  unfolding add_extra_data_unchecked validate_extra_data
  add_extra_data e header_id body central_only =
      if ltb (2 ^ 16 - 1) (length e.extra_data + length e.central_extra_data + (length body + 4))
      then (err (invalid_archive "Extra data field would be longer than allowed"), e)
      else let field = if central_only then e.central_extra_data else e.extra_data in
        let vec = add_extra_data_unchecked field header_id body in
        (
          validate_extra_data vec 0,
          if central_only
              then record e { central_extra_data = vec }
              else record e { extra_data = vec },
        )
