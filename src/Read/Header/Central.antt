-- ===== src/Read/Header/Central.antt =====
-- src/read.rs: the central header of src/types.rs, with the name and the comment behind it, is read
-- back as the entry.
use zip.Prelude.{
  ℕ, ◌+◌, ◌%◌, ◌^◌, ◌<◌, ◌≡◌, refl, ap, ◌∙◌, arith, false, none, List, [], ◌++◌, length, lt→ltb,
}
use zip.Result.{ok}
use zip.Compression.{
  CompressionMethod, stored, deflated, deflate64, bzip2, aes, zstd, lzma, unsupported,
  parse_from_u16, serialize_to_u16,
}
use zip.Cursor.{Cursor, Io, ◌>>=◌, ◌>>◌, lift, read_exact}
use zip.Cursor.Codec.{Reads, Reads->>=, Reads-read_exact, Reads-then}
use zip.Types.DateTime.{DateTime}
use zip.Types.File.{ZipFileData, len_or_default}
use zip.Types.File.Zip64.{zip64_extra_field_block}
use zip.Types.File.Zip64.Laws.{zip64_extra_field_block-none}
use zip.Types.File.Blocks.Readable.{InRange, central_header}
use zip.Read.ExtraField.{parse_extra_field}
use zip.Read.Header.{
  is_aes, entry_of, keep_extra_field, check_aes, shift_header_start,
  central_header_to_zip_file_inner,
}
use zip.Read.Header.Entry.{as_read, IsText, entry_of-central_header}

-- An entry that its central header holds in full: its texts are valid, its method is one that a
-- number stands for and not the mark of AES, and it has no ZIP64 field and no extra field.
pub record IsPlain (default_for_write : DateTime) (f : ZipFileData) : Type 0 where
  pub in_range : InRange default_for_write f
  pub text : IsText f
  pub method : parse_from_u16 (serialize_to_u16 f.compression_method) ≡ f.compression_method
  pub not_aes : ¬ (f.compression_method ≡ aes)
  pub no_zip64 : zip64_extra_field_block f ≡ none
  pub no_extra : len_or_default f.extra_field ≡ 0
  pub no_central_extra : len_or_default f.central_extra_field ≡ 0

is_aes-false : (m : CompressionMethod) → ¬ (m ≡ aes) → is_aes m ≡ false
is_aes-false stored h = refl
is_aes-false deflated h = refl
is_aes-false deflate64 h = refl
is_aes-false bzip2 h = refl
is_aes-false aes h = absurd (h refl)
is_aes-false zstd h = refl
is_aes-false lzma h = refl
is_aes-false (unsupported v) h = refl

-- The entry that is read, with the archive's offset.
abbrev pub as_found : DateTime → ZipFileData → ℕ → ℕ → ZipFileData
as_found default_for_write f archive_offset central_header_start =
    record (as_read default_for_write f central_header_start) {
      header_start = f.header_start + archive_offset;
    }

module _ (crc32 : List ℕ → ℕ) (default_for_write : DateTime) (f : ZipFileData) (off start : ℕ) where
  -- What the code does with the entry, behind its reads.
  finish : ZipFileData → Io ZipFileData
  finish entry = do
    result ← lift (keep_extra_field (parse_extra_field crc32 entry))
    lift (check_aes result)
    lift (shift_header_start off result)

  finish_ok :
      ¬ (f.compression_method ≡ aes)
      → f.header_start + off < 2 ^ 64
      → (entry : ZipFileData) → entry ≡ as_read default_for_write f start
      → (c : Cursor) → finish entry c ≡ ok (as_found default_for_write f off start, c)
  unfolding finish keep_extra_field parse_extra_field shift_header_start
  finish_ok method small entry e c =
      ap (λ e. finish e c) e
      ∙ rw (is_aes-false f.compression_method method, lt→ltb (f.header_start + off) (2 ^ 64) small)
          refl

  pub Reads-inner :
      IsPlain default_for_write f
      → f.header_start + off < 2 ^ 64
      → Reads
          (central_header_to_zip_file_inner crc32 off start (central_header default_for_write f 0))
          (f.file_name_raw ++ ([] ++ f.file_comment))
          (as_found default_for_write f off start)
  unfolding central_header_to_zip_file_inner finish central_header
  Reads-inner p small =
      Reads->>= (read_exact (length f.file_name_raw)) _ f.file_name_raw _
        (Reads-read_exact f.file_name_raw (length f.file_name_raw) refl)
        (Reads->>= (read_exact extra_len) _ [] f.file_comment
          (Reads-read_exact [] extra_len (omega (arith, p.no_extra, p.no_central_extra)))
          (Reads-then (read_exact (length f.file_comment)) _ f.file_comment
            (Reads-read_exact f.file_comment (length f.file_comment) refl)
            (finish_ok p.not_aes small _ is_entry)))
    where
      extra_len : ℕ
      extra_len = 0 + (len_or_default f.extra_field + len_or_default f.central_extra_field) % 2 ^ 16

      is_entry :
          entry_of (central_header default_for_write f 0) start f.file_name_raw [] f.file_comment
          ≡ as_read default_for_write f start
      is_entry =
          let (l, u, c, o) = (zip64_extra_field_block-none f).0 p.no_zip64 in
          entry_of-central_header default_for_write f 0 start p.in_range p.text p.method c u o
