-- ===== src/Read/Stream/Local.antt =====
-- src/read.rs: the local header that src/types.rs makes of an entry, with the name behind it, is read
-- back from a stream.
use zip.Prelude.{
  ℕ, ◌+◌, ◌/◌, ◌%◌, ◌^◌, ◌<◌, ◌≡◌, refl, ap, subst, ◌∙◌, sym, arith, bit_and, Bool, true, false,
  not, ◌==◌, if◌then◌else◌, Option, none, some, List, [], ◌++◌, length, take, append-nil,
}
use zip.Result.{ok}
use zip.Compression.{parse_from_u16, serialize_to_u16}
use zip.Cursor.{
  Cursor, Io, ◌>>=◌, ◌>>◌, lift, remaining-advance, bind_ok, read_exact-append, pure, read_exact,
  advance, remaining,
}
use zip.Cursor.Codec.{Reads, Reads->>=, Reads-read_exact, Reads-last}
use zip.Spec.Block.{encode, encode_fields}
use zip.Spec.Block.Laws.{IsBlock, length-encode, interpret-encode}
use zip.Spec.Records.{zip64_bytes_thr, local_file_header_signature}
use zip.Types.DateTime.{DateTime}
use zip.Types.DateTime.Msdos.{try_from_msdos-parts}
use zip.Types.Utf8.{is_valid_utf8, all_ascii}
use zip.Types.Headers.{ZipLocalEntryBlock, zip_local_entry_block}
use zip.Types.File.{ZipFileData, system_from, dos, version_needed, len_or_default}
use zip.Types.File.Zip64.{zip64_extra_field_block}
use zip.Types.File.Zip64.Laws.{zip64_extra_field_block-none}
use zip.Types.File.Blocks.{flags, unwrap_or, clamp_size_field, full_size_or_zero}
use zip.Types.File.Blocks.Readable.{
  InRange, local_header, local_header-IsBlock, moment, version_needed_bounds,
}
use zip.Read.Header.{decode_text}
use zip.Read.Header.Entry.{rounded, decode_name, flag_word, flag_word_bits, flags_lem}
use zip.Read.Stream.{
  local_entry_of, from_local_block, read_zipfile_from_stream, check_method, keep_entry, limited,
}
use zip.Read.ExtraField.{parse_extra_field}
use zip.LittleEndian.{from_le_bytes, to_le_bytes}

-- The entry that is read from a stream where `f` was written: what only the central header has is
-- missing, and the version is the one that is needed, which stands for MS-DOS.
abbrev pub as_streamed : DateTime → ZipFileData → ZipFileData
as_streamed default_for_write f = record f {
  system = dos;
  version_made_by = version_needed f;
  is_utf8 = not (all_ascii f.file_name_raw);
  using_data_descriptor = false;
  compression_level = none;
  last_modified_time = some (rounded (unwrap_or default_for_write f.last_modified_time));
  file_name = f.file_name_raw;
  extra_field = some [];
  central_extra_field = none;
  file_comment = [];
  header_start = 0;
  extra_data_start = none;
  central_header_start = 0;
  data_start = none;
  external_attributes = 0;
  large_file = false;
  aes_mode = none;
  aes_extra_data_start = 0;
  extra_fields = [];
}

-- An entry that its local header holds in full: it is not encrypted, its name is valid, its method
-- is one that can be read, and it has no ZIP64 field and no extra field.
pub record IsStreamable (default_for_write : DateTime) (f : ZipFileData) : Type 0 where
  pub in_range : InRange default_for_write f
  pub name : is_valid_utf8 f.file_name_raw ≡ true
  pub short : length f.file_name_raw < 2 ^ 16
  pub not_encrypted : f.encrypted ≡ false
  pub method : parse_from_u16 (serialize_to_u16 f.compression_method) ≡ f.compression_method
  pub readable : check_method f.compression_method ≡ ok tt
  pub no_zip64 : zip64_extra_field_block f ≡ none
  pub no_extra : len_or_default f.extra_field ≡ 0

past_guards :
    {A : Type 0} (p q : Bool) (x y z : Io A)
    → p ≡ false
    → q ≡ false
    → (if p then x else if q then y else z) ≡ z
past_guards p q x y z e e' = rw (e, e') refl

module _ (default_for_write : DateTime) (f : ZipFileData)
    (s : IsStreamable default_for_write f) where
  word : flags f ≡ flag_word (all_ascii f.file_name_raw) false
  word = flags_lem f s.name ∙ ap (flag_word (all_ascii f.file_name_raw)) s.not_encrypted

  is_not_encrypted : (bit_and (flags f) 1 == 1) ≡ false
  is_not_encrypted =
      ap (λ (w : ℕ). bit_and w 1 == 1) word ∙ (flag_word_bits (all_ascii f.file_name_raw) false).1

  descriptor : (a : Bool) → (bit_and (flag_word a false) (2 ^ 3) == 2 ^ 3) ≡ false
  descriptor true = refl
  descriptor false = refl

  has_no_descriptor : (bit_and (flags f) (2 ^ 3) == 2 ^ 3) ≡ false
  has_no_descriptor =
      ap (λ (w : ℕ). bit_and w (2 ^ 3) == 2 ^ 3) word ∙ descriptor (all_ascii f.file_name_raw)

  clamped : (n : ℕ) → n < zip64_bytes_thr → clamp_size_field f n ≡ n
  unfolding clamp_size_field
  clamped n h = let (l, u, c, o) = (zip64_extra_field_block-none f).0 s.no_zip64 in ground arith

  local_entry_of-local_header :
      local_entry_of (local_header default_for_write f) f.file_name_raw []
      ≡ as_streamed default_for_write f
  unfolding local_entry_of local_header moment system_from
  local_entry_of-local_header =
      let (l, u, c, o) = (zip64_extra_field_block-none f).0 s.no_zip64 in
      let bits = flag_word_bits (all_ascii f.file_name_raw) false in
      let is_utf8 : not (bit_and (flags f) (2 ^ 11) == 0) ≡ not (all_ascii f.file_name_raw) =
        ap (λ (w : ℕ). not (bit_and w (2 ^ 11) == 0)) word ∙ bits.0 in
      let time =
        try_from_msdos-parts (unwrap_or default_for_write f.last_modified_time) s.in_range.moment in
      let version : version_needed f % 2 ^ 8 ≡ version_needed f =
        omega (arith, version_needed_bounds f) in
      let high_byte : version_needed f / 2 ^ 8 ≡ 0 = omega (arith, version_needed_bounds f) in
      let file_name =
        ap (λ b. decode_text b f.file_name_raw) is_utf8 ∙ decode_name f.file_name_raw s.name in
      λ i. record (as_streamed default_for_write f) {
        system = (ap system_from high_byte) i;
        version_made_by = version i;
        encrypted = (is_not_encrypted ∙ sym s.not_encrypted) i;
        is_utf8 = is_utf8 i;
        using_data_descriptor = has_no_descriptor i;
        compression_method = s.method i;
        last_modified_time = time i;
        compressed_size = clamped f.compressed_size c i;
        uncompressed_size = clamped f.uncompressed_size u i;
        file_name = file_name i;
      }

  Reads-from_local_block :
      Reads
        (from_local_block (local_header default_for_write f))
        (f.file_name_raw ++ [])
        (as_streamed default_for_write f)
  unfolding from_local_block local_header
  Reads-from_local_block c rest h =
      ap (λ m. m c) (past_guards _ _ _ _ named is_not_encrypted has_no_descriptor)
      ∙ subst (λ e. Reads named (f.file_name_raw ++ []) e) local_entry_of-local_header
          (Reads->>= (read_exact (length f.file_name_raw)) _ f.file_name_raw []
            (Reads-read_exact f.file_name_raw (length f.file_name_raw) refl)
            (Reads-last (read_exact extra_len) _ [] (Reads-read_exact [] extra_len none_left)))
          c rest h
    where
      extra_len : ℕ
      extra_len = len_or_default f.extra_field + full_size_or_zero (zip64_extra_field_block f)

      none_left : 0 ≡ extra_len
      none_left = rw (s.no_extra, s.no_zip64) refl

      named : Io ZipFileData
      named = do
        file_name_raw ← read_exact (length f.file_name_raw)
        extra_field ← read_exact extra_len
        pure (local_entry_of (local_header default_for_write f) file_name_raw extra_field)

  signature :
      from_le_bytes (take 4 (encode zip_local_entry_block (local_header default_for_write f)))
      ≡ local_file_header_signature
  unfolding encode encode_fields to_le_bytes from_le_bytes local_header
  signature = refl

  -- What the code does with the entry, behind its reads.
  finish : (List ℕ → ℕ) → ZipFileData → Io (Option (ZipFileData × List ℕ))
  finish crc32 entry = do
    result ← lift (keep_entry (parse_extra_field crc32 entry))
    lift (check_method result.compression_method)
    limited result

  finish_ok :
      (crc32 : List ℕ → ℕ) (c : Cursor) (rest : List ℕ)
      → remaining c ≡ rest
      → finish crc32 (as_streamed default_for_write f) c
        ≡ ok (some (as_streamed default_for_write f, take f.compressed_size rest), c)
  unfolding finish parse_extra_field
  finish_ok crc32 c rest stands = rw (s.readable, stands) refl

  pub local_header-valid : IsBlock zip_local_entry_block (local_header default_for_write f)
  local_header-valid =
      local_header-IsBlock default_for_write f s.in_range s.short
        (rw (s.no_extra, s.no_zip64) (omega arith))

  -- Where the local header of an entry stands that this header holds in full, and behind it the
  -- entry's name, `read_zipfile_from_stream` gives the entry, goes behind the name, and limits its
  -- reader to the compressed size of what is there.
  pub read_zipfile_from_stream_lem :
      (crc32 : List ℕ → ℕ) (c : Cursor) (rest : List ℕ)
      → remaining c
        ≡ encode zip_local_entry_block (local_header default_for_write f)
          ++ (f.file_name_raw ++ rest)
      → read_zipfile_from_stream crc32 c
        ≡ ok (
          some (as_streamed default_for_write f, take f.compressed_size rest),
          advance (30 + length f.file_name_raw) c,
        )
  unfolding read_zipfile_from_stream finish
  read_zipfile_from_stream_lem crc32 c rest stands =
      bind_ok (read_exact 30) _ c (
        read_exact-append c header (f.file_name_raw ++ rest) 30
          (sym (length-encode zip_local_entry_block b local_header-valid)) stands)
      ∙ rw (signature, interpret-encode zip_local_entry_block b local_header-valid signed)
          (bind_ok (from_local_block b) (finish crc32) (advance 30 c)
              (Reads-from_local_block (advance 30 c) rest at_name)
            ∙ finish_ok crc32 _ rest
                (remaining-advance (advance 30 c) (f.file_name_raw ++ []) rest _ refl at_name)
            ∙ ap
                (λ n. ok (
                  some (as_streamed default_for_write f, take f.compressed_size rest),
                  record c { pos = n },
                ))
                behind)
    where
      b : ZipLocalEntryBlock
      b = local_header default_for_write f

      header : List ℕ
      header = encode zip_local_entry_block b

      signed : b.magic ≡ local_file_header_signature
      signed = unfold local_header in refl

      at_name : remaining (advance 30 c) ≡ (f.file_name_raw ++ []) ++ rest
      at_name =
          remaining-advance c header (f.file_name_raw ++ rest) 30
            (sym (length-encode zip_local_entry_block b local_header-valid)) stands
          ∙ ap (λ l. l ++ rest) (sym (append-nil f.file_name_raw))

      behind : c.pos + 30 + length (f.file_name_raw ++ []) ≡ c.pos + (30 + length f.file_name_raw)
      behind = rw (append-nil f.file_name_raw) (omega arith)
