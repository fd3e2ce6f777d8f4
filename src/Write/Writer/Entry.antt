-- ===== src/Write/Writer/Entry.antt =====
-- src/types.rs: `ZipFileData::initialize_local_block`; src/write.rs: `start_entry`, `start_file`,
-- `add_directory` and `add_symlink`. Names are the bytes of their UTF-8.
pub mod Aligned
use zip.Prelude.{
  ℕ, zero, suc, ◌+◌, ◌-◌, ◌*◌, ◌%◌, ◌^◌, max, bit_or, Bool, true, false, not, ◌||◌, ltb, ◌==◌,
  if◌then◌else◌, Option, none, some, List, [], ◌∷◌, ◌++◌, length, replicate,
}
use zip.Result.{ZipResult, ok, err, invalid_archive}
use zip.LittleEndian.{to_le_bytes}
use zip.Compression.{CompressionMethod, stored}
use zip.Compression
use zip.Spec.Block.{encode}
use zip.Types.Headers.{ZipLocalEntryBlock, zip_local_entry_block}
use zip.Types.Utf8.{all_ascii}
use zip.Types.File.{
  ZipFileData, AesMode, aes128, aes192, aes256, AesVendorVersion, ae2, unix, default_version,
  s_ifdir, version_needed, is_some,
}
use zip.Types.File.Blocks.{local_block}
use zip.Aes
use zip.Zipcrypto
use zip.Write.Monad as File
use zip.Write.Headers.{write_local_zip64_extra_field}
use zip.Write.Options.{
  FileOptions, EncryptWith, aes, zip_crypto, extra_data, central_extra_data, permissions_or,
  add_extra_data_unchecked, validate_extra_data, normalize_options,
}
use zip.Write.Generic.{storer, aes_encrypted, zip_crypto_encrypted, get_plain, MaybeEncrypted}
use zip.Write.State.{
  Environment, Action, ◌>>=◌, ◌>>◌, pure, throw, lift, modify, on_plain, try, ignore_error, prepare,
  switch, switch_to_non_encrypting_writer, map_last,
}
use zip.Write.Writer.{finish_file, abort_file, ok_or_abort_file, write_all}

pub record ZipRawValues : Type 0 where
  pub crc32 : ℕ
  pub compressed_size : ℕ
  pub uncompressed_size : ℕ

abbrev pub raw_or_zero : Option ZipRawValues → ZipRawValues
raw_or_zero none = record { crc32 = 0; compressed_size = 0; uncompressed_size = 0 }
raw_or_zero (some raw_values) = raw_values

abbrev pub s_iflnk : ℕ
s_iflnk = 0xa000

abbrev aes_mode_number : AesMode → ℕ
aes_mode_number aes128 = 0x01
aes_mode_number aes192 = 0x02
aes_mode_number aes256 = 0x03

-- The extra data and where the field of AES starts in it.
unfoldable pub with_aes_extra_data : Option EncryptWith → List ℕ → List ℕ × ℕ
unfolding add_extra_data_unchecked
with_aes_extra_data (some (aes mode password salt)) extra = (
  add_extra_data_unchecked extra 0x9901
      (0x02 ∷ 0x00 ∷ 0x41 ∷ 0x45 ∷ aes_mode_number mode ∷ 0x00 ∷ 0x00 ∷ []),
  length extra,
)
with_aes_extra_data (some (zip_crypto keys)) extra = (extra, 0)
with_aes_extra_data none extra = (extra, 0)

abbrev pub method_of : Option EncryptWith → CompressionMethod → CompressionMethod
method_of (some (aes mode password salt)) method = Compression.aes
method_of (some (zip_crypto keys)) method = method
method_of none method = method

abbrev pub aes_mode_for :
    Option EncryptWith → CompressionMethod → Option (AesMode × AesVendorVersion × CompressionMethod)
aes_mode_for (some (aes mode password salt)) method = some (mode, ae2, method)
aes_mode_for (some (zip_crypto keys)) method = none
aes_mode_for none method = none

-- `initialize_local_block` with the arguments that `start_entry` gives, and the version that is set
-- twice: to the one needed, cast to a `u8`.
unfoldable pub initialize_local_block :
    (name : List ℕ)
    → FileOptions
    → ZipRawValues
    → (header_start aes_extra_data_start : ℕ) → (extra_field : List ℕ) → ZipFileData
unfolding version_needed
initialize_local_block name options raw_values header_start aes_extra_data_start extra_field =
    let local_block : ZipFileData = record {
      system = unix;
      version_made_by = default_version;
      encrypted = is_some options.encrypt_with;
      is_utf8 = not (all_ascii name);
      using_data_descriptor = false;
      compression_method = method_of options.encrypt_with options.compression_method;
      compression_level = options.compression_level;
      last_modified_time = some options.last_modified_time;
      crc32 = raw_values.crc32;
      compressed_size = raw_values.compressed_size;
      uncompressed_size = raw_values.uncompressed_size;
      file_name = name;
      file_name_raw = name;
      extra_field = some extra_field;
      central_extra_field = central_extra_data options.extended_options;
      file_comment = [];
      header_start = header_start;
      extra_data_start = none;
      central_header_start = 0;
      data_start = none;
      external_attributes = permissions_or options.permissions 0x81a4 * 2 ^ 16 % 2 ^ 32;
      large_file = options.large_file;
      aes_mode = aes_mode_for options.encrypt_with options.compression_method;
      aes_extra_data_start = aes_extra_data_start;
      extra_fields = [];
    } in
    record local_block { version_made_by = version_needed local_block % 2 ^ 8 }

abbrev pub same_name : List ℕ → List ℕ → Bool
same_name a b = Aes.same_bytes a b

abbrev pub contains_key : List ℕ → List ZipFileData → Bool
contains_key name [] = false
contains_key name (f ∷ files) = same_name name f.file_name || contains_key name files

-- The length of the padding field: enough for its own header and the alignment.
abbrev pub at_least_six : ℕ → ℕ → ℕ → ℕ
at_least_six zero align pad_length = pad_length
at_least_six (suc rounds) align pad_length =
    at_least_six rounds align (if ltb pad_length 6 then pad_length + align else pad_length)

-- The extra data, padded so that the content starts at a multiple of the alignment. The loop adds two
-- bytes at least, so six rounds are enough.
unfoldable pub with_padding : (alignment extra_data_end : ℕ) → List ℕ → List ℕ
unfolding add_extra_data_unchecked
with_padding alignment extra_data_end extra =
    if ltb 1 alignment
    then (if not (extra_data_end % alignment == 0)
        then add_extra_data_unchecked extra 0xa11e (
            to_le_bytes 2 alignment
            ++ replicate (at_least_six 6 alignment (alignment - extra_data_end % alignment) - 6) 0)
        else extra)
    else extra

-- The name of a directory ends with a slash.
abbrev pub ends_with_slash : List ℕ → Bool
ends_with_slash [] = false
ends_with_slash (b ∷ []) = b == 0x2f || b == 0x5c
ends_with_slash (a ∷ b ∷ name) = ends_with_slash (b ∷ name)

abbrev pub name_with_slash : List ℕ → List ℕ
name_with_slash name = if ends_with_slash name then name else name ++ 0x2f ∷ []

abbrev pub or_empty : Option (List ℕ) → List ℕ
or_empty none = []
or_empty (some extra) = extra

-- The entry as `start_entry` inserts it.
unfoldable pub new_file :
    (name : List ℕ)
    → FileOptions
    → Option ZipRawValues
    → (header_start : ℕ) → List ℕ × ℕ
    → ZipFileData
unfolding initialize_local_block version_needed
new_file name options raw_values header_start (extra, aes_extra_data_start) =
    let file =
      initialize_local_block name options (raw_or_zero raw_values) header_start aes_extra_data_start
        extra in
    record file { version_made_by = max file.version_made_by (version_needed file % 2 ^ 8) }

-- `OnceLock::get_or_init`.
abbrev pub set_data_start : Option ℕ → ℕ → Option ℕ
set_data_start none start = some start
set_data_start (some there) start = some there

module _ {K : Environment} where
  open K use {crypto, encoders, hashing, default_for_write, crc32_of}

  abbrev pub write_bytes : List ℕ → Action K (Unit {0})
  write_bytes xs = on_plain (File.write_bytes xs)

  -- A change of the entry that was inserted last.
  abbrev pub change_last : (ZipFileData → ZipFileData) → Action K (Unit {0})
  change_last f = modify (λ s. record s { files = map_last f s.files })

  abbrev pub set_start : ℕ → Action K (Unit {0})
  set_start start = modify (λ s. record s { stats = record (s.stats) { start = start } })

  -- The early return of an error behind `abort_file`.
  abbrev pub or_abort : ZipResult (Unit {0}) → Action K (Unit {0})
  or_abort (ok _) = pure tt
  or_abort (err e) = do ignore_error abort_file; throw e

  -- A name is there once.
  unfoldable pub insert_file_data : ZipFileData → Action K (Unit {0})
  insert_file_data file s =
      if contains_key file.file_name s.files
      then some (err (invalid_archive "Duplicate filename"), s)
      else some (ok tt, record s { files = s.files ++ file ∷ [] })

  -- The local header with the name and the ZIP64 field: where the field starts and ends.
  unfoldable pub write_local_header : ZipFileData → ZipResult ZipLocalEntryBlock → Action K (ℕ × ℕ)
  unfolding on_plain ok_or_abort_file write_local_zip64_extra_field
  write_local_header file block = do
    b ← lift block
    write_bytes (encode zip_local_entry_block b)
    write_bytes file.file_name_raw
    zip64_start ← on_plain File.stream_position
    elim file.large_file [ true ↦ on_plain (write_local_zip64_extra_field file) | false ↦ pure tt ]
    header_end ← on_plain File.stream_position
    change_last (λ f. record f { extra_data_start = some header_end })
    pure (zip64_start, header_end)

  -- The extra data behind the header: where they end.
  unfoldable pub write_extra_data : FileOptions → (zip64_start header_end : ℕ) → List ℕ → Action K ℕ
  unfolding on_plain abort_file validate_extra_data with_padding
  write_extra_data options zip64_start header_end extra =
      let padded = with_padding options.alignment (header_end + length extra) extra in
      elim padded [
        | [] ↦ do set_start (header_end + length extra); pure (header_end + length extra)
        | b ∷ bs ↦ do
          or_abort (validate_extra_data crc32_of (b ∷ bs) (header_end - zip64_start))
          write_bytes (b ∷ bs)
          extra_data_end ← on_plain File.stream_position
          set_start extra_data_end
          change_last (λ f. record f { extra_field = some (b ∷ bs) })
          pure extra_data_end
      ]

  unfoldable pub keep_central_extra_data : Option (List ℕ) → (reserved : ℕ) → Action K (Unit {0})
  unfolding abort_file validate_extra_data
  keep_central_extra_data none reserved = pure tt
  keep_central_extra_data (some extra) reserved = do
    or_abort (validate_extra_data crc32_of extra reserved)
    change_last (λ f. record f { central_extra_field = some extra })

  abbrev pub unwrap_inner : Action K zip.Cursor.Cursor
  unwrap_inner s = elim (get_plain crypto encoders s.inner) [
    | none ↦ none
    | some c ↦ some (ok c, s)
  ]

  abbrev pub encrypt : MaybeEncrypted crypto encoders → Action K (Unit {0})
  encrypt m = modify (λ s. record s { inner = storer m })

  unfoldable pub start_encryption : Option EncryptWith → Action K (Unit {0})
  start_encryption none = pure tt
  start_encryption (some (aes mode password salt)) = do
    c ← unwrap_inner
    encrypt (aes_encrypted (Aes.new_writer crypto c mode password salt))
  start_encryption (some (zip_crypto keys)) = do
    c ← unwrap_inner
    set_start c.pos
    encrypt (zip_crypto_encrypted (Zipcrypto.start_writer keys) c)

  -- The end of `start_entry`: the place of the content is known, and nothing is written of it.
  unfoldable pub open_entry : Action K (Unit {0})
  open_entry = modify (λ s. record s {
    files =
        map_last (λ f. record f { data_start = set_data_start f.data_start s.stats.start }) s.files;
    writing_to_file = true;
    stats = record (s.stats) { bytes_written = 0; hasher = hashing.new_hasher };
  })

  -- The entry goes into the archive with its header, which is made before: a panic there is `none`,
  -- and an error is returned when the entry is inserted.
  unfoldable pub add_entry :
      FileOptions
      → ZipFileData
      → (extra : List ℕ) → Option (ZipResult ZipLocalEntryBlock)
      → Action K (Unit {0})
  unfolding insert_file_data write_local_header write_extra_data keep_central_extra_data
      start_encryption open_entry
  add_entry options file extra none s = none
  add_entry options file extra (some block) s =
      (do
        insert_file_data file
        (zip64_start, header_end) ← write_local_header file block
        extra_data_end ← write_extra_data options zip64_start header_end extra
        keep_central_extra_data (central_extra_data options.extended_options)
            (extra_data_end - zip64_start)
        start_encryption options.encrypt_with
        open_entry)
        s

  unfoldable pub start_entry : List ℕ → FileOptions → Option ZipRawValues → Action K (Unit {0})
  unfolding finish_file on_plain with_aes_extra_data add_entry
  start_entry name options raw_values = do
    finish_file
    let extra =
        with_aes_extra_data options.encrypt_with (or_empty (extra_data options.extended_options))
    header_start ← on_plain File.stream_position
    let file = new_file name options raw_values header_start extra
    add_entry options file extra.0 (local_block default_for_write file)

  unfoldable pub start_file : List ℕ → FileOptions → Action K (Unit {0})
  unfolding normalize_options prepare start_entry switch ok_or_abort_file
  start_file name options = do
    let options = normalize_options default_for_write options
    make_new_self ←
        prepare options.compression_method options.compression_level options.zopfli_buffer_size
    start_entry name options none
    result ← try (switch make_new_self)
    ok_or_abort_file result
    modify (λ s. record s { writing_raw = false })

  unfoldable pub add_directory : List ℕ → FileOptions → Action K (Unit {0})
  unfolding start_entry switch_to_non_encrypting_writer
  add_directory name options = do
    let options = record options {
      permissions = some (bit_or (permissions_or options.permissions 0x1ed) s_ifdir);
      compression_method = stored;
      encrypt_with = none;
    }
    start_entry (name_with_slash name) options none
    modify (λ s. record s { writing_to_file = false })
    switch_to_non_encrypting_writer

  unfoldable pub add_symlink : List ℕ → List ℕ → FileOptions → Action K (Unit {0})
  unfolding start_entry write_all ok_or_abort_file finish_file
  add_symlink name target options = do
    let options = record options {
      permissions = some (bit_or (permissions_or options.permissions 0x1ff) s_iflnk);
      compression_method = stored;
    }
    start_entry name options none
    modify (λ s. record s { writing_to_file = true })
    result ← try (write_all target)
    ok_or_abort_file result
    modify (λ s. record s { writing_raw = false })
    finish_file
