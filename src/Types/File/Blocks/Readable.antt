-- ===== src/Types/File/Blocks/Readable.antt =====
-- src/types.rs: the headers that `local_block` and `block` make can be read back.
use zip.Prelude.{
  dec_lt, ◌⊎◌, inl, inr, ◌≤◌, ℕ, ◌+◌, ◌*◌, ◌/◌, ◌^◌, ◌%◌, ◌≤◌, ◌<◌, ◌≡◌, refl, sym, ap, ◌∙◌, subst,
  arith, min, max, bit_or, true, some, length,
}
use zip.Bits.{bit_or-shifted}
use zip.Result.{ok, err, invalid_archive}
use zip.Compression.{serialize_to_u16}
use zip.Spec.Block.{interpret, encode}
use zip.Spec.Block.Laws.{IsBlock, interpret-encode}
use zip.Spec.Records.{
  zip64_bytes_thr, local_file_header_signature, central_directory_header_signature,
}
use zip.Types.DateTime.{DateTime, timepart, datepart, is_valid}
use zip.Types.DateTime.Calendar.{IsAccepted-is_valid}
use zip.Types.DateTime.Msdos.{timepart_sum, datepart_sum}
use zip.Types.Headers.{
  ZipCentralEntryBlock, ZipLocalEntryBlock, zip_central_entry_block, zip_local_entry_block,
}
use zip.Types.File.{
  ZipFileData, u8_from, system_from, version_needed, len_or_default, System, dos, unix, unknown,
}
use zip.Types.File.Zip64.{zip64_extra_field_block}
use zip.Types.File.Blocks.{
  flags, clamp_size_field, local_block, block, unwrap_or, full_size_or_zero,
}

-- The fields have the widths of their types, and the moment is a valid one.
pub record InRange (default_for_write : DateTime) (f : ZipFileData) : Type 0 where
  pub crc32 : f.crc32 < 2 ^ 32
  pub method : serialize_to_u16 f.compression_method < 2 ^ 16
  pub moment : is_valid (unwrap_or default_for_write f.last_modified_time) ≡ true
  pub attributes : f.external_attributes < 2 ^ 32
  pub made_by : f.version_made_by < 2 ^ 8

flags-lt : (f : ZipFileData) → flags f < 2 ^ 16
unfolding flags
flags-lt f = ground arith

pub version_needed_bounds : (f : ZipFileData) → (10 ≤ version_needed f) × (version_needed f ≤ 63)
unfolding version_needed
version_needed_bounds f = ground arith

words-lt : (d : DateTime) → is_valid d ≡ true → (timepart d < 2 ^ 16) × (datepart d < 2 ^ 16)
words-lt d h =
    let a = IsAccepted-is_valid {d = d} h in
    (
      omega (arith, timepart_sum d (omega arith) (omega arith) (omega arith)),
      omega (arith, datepart_sum d (omega arith) (omega arith) (omega arith)),
    )

clamp_size_field-lt : (f : ZipFileData) (n : ℕ) → clamp_size_field f n < 2 ^ 32
unfolding clamp_size_field
clamp_size_field-lt f n = ground arith

module _ (default_for_write : DateTime) (f : ZipFileData) where
  unfoldable pub moment : DateTime
  moment = unwrap_or default_for_write f.last_modified_time

  -- What `local_block` gives when it gives a header.
  unfoldable pub local_header : ZipLocalEntryBlock
  unfolding moment
  local_header = record {
    magic = local_file_header_signature;
    version_made_by = version_needed f;
    flags = flags f;
    compression_method = serialize_to_u16 f.compression_method;
    last_mod_time = timepart moment;
    last_mod_date = datepart moment;
    crc32 = f.crc32;
    compressed_size = clamp_size_field f f.compressed_size;
    uncompressed_size = clamp_size_field f f.uncompressed_size;
    file_name_length = length f.file_name_raw;
    extra_field_length =
        len_or_default f.extra_field + full_size_or_zero (zip64_extra_field_block f);
  }

  pub local_block_inv :
      {b : ZipLocalEntryBlock}
      → local_block default_for_write f ≡ some (ok b)
      → (b ≡ local_header)
        × (length f.file_name_raw < 2 ^ 16)
        × (len_or_default f.extra_field + full_size_or_zero (zip64_extra_field_block f) < 2 ^ 16)
  unfolding local_block local_header moment
  local_block_inv e = (ground arith, ground arith, ground arith)

  pub local_header-IsBlock :
      InRange default_for_write f
      → length f.file_name_raw < 2 ^ 16
      → len_or_default f.extra_field + full_size_or_zero (zip64_extra_field_block f) < 2 ^ 16
      → IsBlock zip_local_entry_block local_header
  unfolding local_header moment
  local_header-IsBlock h name extra = ground (
    arith,
    version_needed_bounds f,
    flags-lt f,
    words-lt (unwrap_or default_for_write f.last_modified_time) h.moment,
    h.method,
    h.crc32,
    clamp_size_field-lt f f.compressed_size,
    clamp_size_field-lt f f.uncompressed_size,
  )

  -- A local header of an entry whose fields are in range is read back as it was written.
  pub interpret-local_block :
      InRange default_for_write f
      → {b : ZipLocalEntryBlock} → local_block default_for_write f ≡ some (ok b)
      → interpret zip_local_entry_block (encode zip_local_entry_block b) ≡ ok b
  unfolding local_header
  interpret-local_block h e =
      let (b, name, extra) = local_block_inv e in
      subst (λ t. interpret zip_local_entry_block (encode zip_local_entry_block t) ≡ ok t) (sym b)
        (interpret-encode zip_local_entry_block local_header (local_header-IsBlock h name extra)
          refl)

  -- What `block` gives when it gives a header.
  unfoldable pub central_header : ℕ → ZipCentralEntryBlock
  unfolding moment
  central_header zip64_extra_field_length = record {
    magic = central_directory_header_signature;
    version_made_by =
        bit_or (u8_from f.system * 2 ^ 8 % 2 ^ 16) (max f.version_made_by (version_needed f));
    version_to_extract = version_needed f;
    flags = flags f;
    compression_method = serialize_to_u16 f.compression_method;
    last_mod_time = timepart moment;
    last_mod_date = datepart moment;
    crc32 = f.crc32;
    compressed_size = min f.compressed_size zip64_bytes_thr;
    uncompressed_size = min f.uncompressed_size zip64_bytes_thr;
    file_name_length = length f.file_name_raw;
    extra_field_length =
        zip64_extra_field_length
        + (len_or_default f.extra_field + len_or_default f.central_extra_field) % 2 ^ 16;
    file_comment_length = length f.file_comment;
    disk_number = 0;
    internal_file_attributes = 0;
    external_file_attributes = f.external_attributes;
    offset = min f.header_start zip64_bytes_thr;
  }

  -- The lengths that `block` accepts.
  pub record IsShort (zip64_extra_field_length : ℕ) : Type 0 where
    pub name : length f.file_name_raw < 2 ^ 16
    pub comment : length f.file_comment < 2 ^ 16
    pub extra :
        zip64_extra_field_length
          + (len_or_default f.extra_field + len_or_default f.central_extra_field) % 2 ^ 16
        < 2 ^ 16

  pub block_inv :
      (n : ℕ) {b : ZipCentralEntryBlock}
      → block default_for_write f n ≡ some (ok b)
      → (b ≡ central_header n) × IsShort n
  unfolding block central_header moment
  block_inv n e =
      (ground arith, record { name = ground arith; comment = ground arith; extra = ground arith })

  pub made_by_sum :
      InRange default_for_write f
      → bit_or (u8_from f.system * 2 ^ 8 % 2 ^ 16) (max f.version_made_by (version_needed f))
        ≡ u8_from f.system * 2 ^ 8 + max f.version_made_by (version_needed f)
  unfolding u8_from
  made_by_sum h =
      ap (λ (t : ℕ). bit_or t (max f.version_made_by (version_needed f))) in_word
      ∙ bit_or-shifted 8 (u8_from f.system) (max f.version_made_by (version_needed f))
          (omega (arith, version_needed_bounds f, h.made_by))
    where
      in_word : u8_from f.system * 2 ^ 8 % 2 ^ 16 ≡ u8_from f.system * 2 ^ 8
      in_word = ground arith

  pub u8_from-lt : (s : System) → u8_from s < 5
  unfolding u8_from
  u8_from-lt s = ground arith

  pub central_header-IsBlock :
      InRange default_for_write f
      → (n : ℕ) → IsShort n
      → IsBlock zip_central_entry_block (central_header n)
  unfolding central_header moment
  central_header-IsBlock h n short = ground (
    arith,
    made_by_sum h,
    u8_from-lt f.system,
    version_needed_bounds f,
    h.made_by,
    flags-lt f,
    words-lt (unwrap_or default_for_write f.last_modified_time) h.moment,
    h.method,
    h.crc32,
    h.attributes,
    short.name,
    short.comment,
    short.extra,
  )

  pub recovers_system : (s : System) → system_from (u8_from s) ≡ s
  unfolding system_from u8_from
  recovers_system dos = refl
  recovers_system unix = refl
  recovers_system unknown = refl

  -- A central header of an entry whose fields are in range is read back as it was written, and the
  -- high byte of its version stands for the system of the entry.
  pub interpret-block :
      InRange default_for_write f
      → (n : ℕ) {b : ZipCentralEntryBlock} → block default_for_write f n ≡ some (ok b)
      → (interpret zip_central_entry_block (encode zip_central_entry_block b) ≡ ok b)
        × (system_from (b.version_made_by / 2 ^ 8) ≡ f.system)
  unfolding central_header
  interpret-block h n e =
      let (b, short) = block_inv n e in
      subst
        (λ t.
          (interpret zip_central_entry_block (encode zip_central_entry_block t) ≡ ok t)
          × (system_from (t.version_made_by / 2 ^ 8) ≡ f.system))
        (sym b)
        (
          interpret-encode zip_central_entry_block (central_header n)
              (central_header-IsBlock h n short) refl,
          ap system_from high_byte ∙ recovers_system f.system,
        )
    where
      high_byte :
          bit_or (u8_from f.system * 2 ^ 8 % 2 ^ 16) (max f.version_made_by (version_needed f))
            / 2 ^ 8
          ≡ u8_from f.system
      high_byte = omega (arith, made_by_sum h, h.made_by, version_needed_bounds f)

  -- For an entry whose name and comment are shorter than 64 KiB, and so are its extra fields
  -- together, `block` does not panic: it gives a header, or the extra fields and the length of the
  -- ZIP64 field exceed 64 KiB together and it gives the error.
  pub block_total :
      (n : ℕ)
      → length f.file_name_raw < 2 ^ 16
      → length f.file_comment < 2 ^ 16
      → len_or_default f.extra_field + len_or_default f.central_extra_field < 2 ^ 16
      → ((b : ZipCentralEntryBlock) × (block default_for_write f n ≡ some (ok b)))
        ⊎ ((2 ^ 16 ≤ n + (len_or_default f.extra_field + len_or_default f.central_extra_field))
            × (block default_for_write f n
                ≡ some (
                    err (invalid_archive "Extra field length in central directory exceeds 64KiB"))))
  unfolding block central_header moment
  block_total n name comment extra =
      elim (dec_lt (n + (len_or_default f.extra_field + len_or_default f.central_extra_field))
        (2 ^ 16)) [
          | yes short ↦ inl (central_header n, ground arith)
          | no long ↦ inr (omega arith, ground arith)
        ]

  -- For an entry whose name is shorter than 64 KiB, `local_block` does not panic: it gives a header,
  -- or its extra fields exceed 64 KiB together and it gives the error.
  pub local_block_total :
      length f.file_name_raw < 2 ^ 16
      → ((b : ZipLocalEntryBlock) × (local_block default_for_write f ≡ some (ok b)))
        ⊎ ((2 ^ 16 ≤ len_or_default f.extra_field + full_size_or_zero (zip64_extra_field_block f))
            × (local_block default_for_write f
                ≡ some (err (invalid_archive "Extra data field is too large"))))
  unfolding local_block local_header moment
  local_block_total name =
      elim (dec_lt (len_or_default f.extra_field + full_size_or_zero (zip64_extra_field_block f))
        (2 ^ 16)) [
          | yes short ↦ inl (local_header, ground arith)
          | no long ↦ inr (omega arith, ground arith)
        ]
