-- ===== src/Read/Header/Entry.antt =====
-- src/read.rs: what is known of an entry from the central header that src/types.rs makes of it.
use zip.Prelude.{
  ℕ, ◌*◌, ◌/◌, ◌%◌, ◌^◌, ◌<◌, ◌≡◌, ◌⊎◌, inl, inr, refl, ap, ◌∙◌, arith, max, min, bit_and, bit_or,
  Bool, true, false, not, ◌==◌, if◌then◌else◌, Bool-cases, none, some, List, [],
}
use zip.Compression.{parse_from_u16, serialize_to_u16}
use zip.Cp437.{from_cp437}
use zip.Cp437.Valid.{all_ascii_valid}
use zip.Spec.Records.{zip64_bytes_thr}
use zip.Types.DateTime.{DateTime}
use zip.Types.DateTime.Msdos.{try_from_msdos-parts}
use zip.Types.Utf8.{is_valid_utf8, all_ascii}
use zip.Types.Utf8.Lossy.{from_utf8_lossy_valid}
use zip.Types.File.{ZipFileData, system_from, version_needed}
use zip.Types.File.Blocks.{flags, unwrap_or}
use zip.Types.File.Blocks.Readable.{
  InRange, central_header, moment, made_by_sum, recovers_system, u8_from-lt, version_needed_bounds,
}
use zip.Read.Header.{entry_of, decode_text}

-- A moment as the two words of MS-DOS keep it.
abbrev pub rounded : DateTime → DateTime
rounded d = record d { second = min (d.second / 2 * 2) 58 }

-- The entry that is read where `f` was written, before the archive's offset is added.
abbrev pub as_read : DateTime → ZipFileData → ℕ → ZipFileData
as_read default_for_write f central_header_start = record f {
  version_made_by = max f.version_made_by (version_needed f);
  is_utf8 = not (all_ascii f.file_name_raw);
  using_data_descriptor = false;
  compression_level = none;
  last_modified_time = some (rounded (unwrap_or default_for_write f.last_modified_time));
  file_name = f.file_name_raw;
  extra_field = some [];
  central_extra_field = none;
  extra_data_start = none;
  central_header_start = central_header_start;
  data_start = none;
  large_file = false;
  aes_mode = none;
  aes_extra_data_start = 0;
  extra_fields = [];
}

-- The texts of an entry: the writer marks them as UTF-8 by the name alone.
pub record IsText (f : ZipFileData) : Type 0 where
  pub name : is_valid_utf8 f.file_name_raw ≡ true
  pub comment : is_valid_utf8 f.file_comment ≡ true
  pub marked : (all_ascii f.file_comment ≡ true) ⊎ (all_ascii f.file_name_raw ≡ false)

decode_text_ascii : (b : Bool) (bs : List ℕ) → all_ascii bs ≡ true → decode_text b bs ≡ bs
unfolding from_cp437
decode_text_ascii true bs h = from_utf8_lossy_valid bs (all_ascii_valid bs h)
decode_text_ascii false bs h = rw h refl

pub decode_name : (bs : List ℕ) → is_valid_utf8 bs ≡ true → decode_text (not (all_ascii bs)) bs ≡ bs
decode_name bs h = elim (Bool-cases (all_ascii bs)) [
  | inl e ↦ decode_text_ascii (not (all_ascii bs)) bs e
  | inr e ↦ rw e (from_utf8_lossy_valid bs h)
]

decode_comment :
    (f : ZipFileData)
    → IsText f
    → decode_text (not (all_ascii f.file_name_raw)) f.file_comment ≡ f.file_comment
decode_comment f t = elim t.marked [
  | inl e ↦ decode_text_ascii (not (all_ascii f.file_name_raw)) f.file_comment e
  | inr e ↦ rw e (from_utf8_lossy_valid f.file_comment t.comment)
]

abbrev pub flag_word : Bool → Bool → ℕ
flag_word ascii encrypted =
    bit_or (if not ascii then 2 ^ 11 else 0) (if encrypted then 2 ^ 0 else 0)

pub flag_word_bits :
    (ascii encrypted : Bool)
    → (not (bit_and (flag_word ascii encrypted) (2 ^ 11) == 0) ≡ not ascii)
      × ((bit_and (flag_word ascii encrypted) 1 == 1) ≡ encrypted)
      × (not (bit_and (flag_word ascii encrypted) (2 ^ 3) == 0) ≡ false)
flag_word_bits true true = (refl, refl, refl)
flag_word_bits true false = (refl, refl, refl)
flag_word_bits false true = (refl, refl, refl)
flag_word_bits false false = (refl, refl, refl)

pub flags_lem :
    (f : ZipFileData)
    → is_valid_utf8 f.file_name_raw ≡ true
    → flags f ≡ flag_word (all_ascii f.file_name_raw) f.encrypted
unfolding flags
flags_lem f h = rw (h) refl

-- What the header says of the entry, but for the numbers that a ZIP64 field would hold.
module _ (default_for_write : DateTime) (f : ZipFileData) (n : ℕ) where
  made_by : ℕ
  made_by = (central_header default_for_write f n).version_made_by

  read_versions :
      InRange default_for_write f
      → (system_from (made_by / 2 ^ 8 % 2 ^ 8) ≡ f.system)
        × (made_by % 2 ^ 8 ≡ max f.version_made_by (version_needed f))
  unfolding made_by central_header
  read_versions h = (
    ap system_from (
          omega (
            arith,
            made_by_sum default_for_write f h,
            h.made_by,
            version_needed_bounds f,
            u8_from-lt default_for_write f f.system,
          ))
        ∙ recovers_system default_for_write f f.system,
    omega (arith, made_by_sum default_for_write f h, h.made_by, version_needed_bounds f),
  )

  pub entry_of-central_header :
      (central_header_start : ℕ)
      → InRange default_for_write f
      → IsText f
      → parse_from_u16 (serialize_to_u16 f.compression_method) ≡ f.compression_method
      → f.compressed_size < zip64_bytes_thr
      → f.uncompressed_size < zip64_bytes_thr
      → f.header_start < zip64_bytes_thr
      → entry_of
          (central_header default_for_write f n)
          central_header_start
          f.file_name_raw
          []
          f.file_comment
        ≡ as_read default_for_write f central_header_start
  unfolding entry_of central_header moment made_by
  entry_of-central_header start h t method c u o =
      let (system, version) = read_versions h in
      let (utf8, encrypted, no_descriptor) =
        flag_word_bits (all_ascii f.file_name_raw) f.encrypted in
      let word = flags_lem f t.name in
      let is_utf8 : not (bit_and (flags f) (2 ^ 11) == 0) ≡ not (all_ascii f.file_name_raw) =
        ap (λ (w : ℕ). not (bit_and w (2 ^ 11) == 0)) word ∙ utf8 in
      let time = try_from_msdos-parts (unwrap_or default_for_write f.last_modified_time) h.moment in
      let compressed : min f.compressed_size zip64_bytes_thr ≡ f.compressed_size = omega arith in
      let uncompressed : min f.uncompressed_size zip64_bytes_thr ≡ f.uncompressed_size =
        omega arith in
      let start' : min f.header_start zip64_bytes_thr ≡ f.header_start = omega arith in
      let file_name =
        ap (λ b. decode_text b f.file_name_raw) is_utf8 ∙ decode_name f.file_name_raw t.name in
      let comment = ap (λ b. decode_text b f.file_comment) is_utf8 ∙ decode_comment f t in
      let is_encrypted = ap (λ (w : ℕ). bit_and w 1 == 1) word ∙ encrypted in
      let descriptor = ap (λ (w : ℕ). not (bit_and w (2 ^ 3) == 0)) word ∙ no_descriptor in
      λ i. record (as_read default_for_write f start) {
        system = system i;
        version_made_by = version i;
        encrypted = is_encrypted i;
        is_utf8 = is_utf8 i;
        using_data_descriptor = descriptor i;
        compression_method = method i;
        last_modified_time = time i;
        compressed_size = compressed i;
        uncompressed_size = uncompressed i;
        file_name = file_name i;
        file_comment = comment i;
        header_start = start' i;
      }
