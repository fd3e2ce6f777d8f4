-- ===== src/Write/Headers/Total.antt =====
-- src/write.rs and src/types.rs: `write_central_directory_header` in full, and the header read back.
use zip.Prelude.{
  ℕ, ◌+◌, ◌^◌, ◌≤◌, ◌<◌, ◌≡◌, ◌⊎◌, inl, inr, refl, ap, ◌∙◌, arith, drop, Option, none, some, List,
  ◌++◌, length, append_assoc, length-append,
}
use zip.Result.{ok, err, invalid_archive}
use zip.Cursor.{Cursor, wrote}
use zip.Cursor.Write.{drop-overwrite}
use zip.Spec.Block.{encode, parse, size_of}
use zip.Spec.Block.Laws.{parse-encode, length-encode, IsBlock}
use zip.Types.DateTime.{DateTime}
use zip.Types.Headers.{ZipCentralEntryBlock, zip_central_entry_block}
use zip.Types.File.{ZipFileData, len_or_default}
use zip.Types.File.Zip64.{zip64_extra_field_block}
use zip.Types.File.Blocks.{block}
use zip.Types.File.Blocks.Readable.{
  InRange, block_total, block_inv, central_header, central_header-IsBlock, IsShort,
}
use zip.Write.Headers.{write_central_directory_header}
use zip.Write.Headers.Written.{
  zip64_bytes, optional_bytes, entry_bytes, write_central_directory_header_lem,
  write_central_directory_header_refused,
}

length-optional : (o : Option (List ℕ)) → length (optional_bytes o) ≡ len_or_default o
length-optional none = refl
length-optional (some xs) = refl

module _ (default_for_write : DateTime) (f : ZipFileData) where
  abbrev pub zip64_length : ℕ
  zip64_length = length (zip64_bytes (zip64_extra_field_block f))

  abbrev pub extra_length : ℕ
  extra_length = len_or_default f.extra_field + len_or_default f.central_extra_field

  -- The header that stands at a place, with what it says of the bytes behind it.
  pub record IsWritten (c : Cursor) : Type 0 where
    pub after : Cursor
    pub header : ZipCentralEntryBlock
    pub writes : write_central_directory_header default_for_write f c ≡ some (ok tt, after)
    pub reads :
        parse zip_central_entry_block (record after { pos = c.pos })
        ≡ ok (header, record after { pos = c.pos + 46 })
    pub name : header.file_name_length ≡ length f.file_name_raw
    pub extra : header.extra_field_length ≡ zip64_length + extra_length
    pub comment : header.file_comment_length ≡ length f.file_comment
    pub ends :
        after.pos
        ≡ c.pos + 46 + header.file_name_length + header.extra_field_length
          + header.file_comment_length

  length-entry_bytes :
      (b : ZipCentralEntryBlock)
      → IsBlock zip_central_entry_block b
      → length (entry_bytes f b)
        ≡ 46 + length f.file_name_raw + (zip64_length + extra_length) + length f.file_comment
  unfolding size_of
  length-entry_bytes b h =
      let head = encode zip_central_entry_block b in
      let name = head ++ f.file_name_raw in
      let zip64 = name ++ zip64_bytes (zip64_extra_field_block f) in
      let extra = zip64 ++ optional_bytes f.extra_field in
      let central = extra ++ optional_bytes f.central_extra_field in
      omega (
        arith,
        length-append central f.file_comment,
        length-append extra (optional_bytes f.central_extra_field),
        length-append zip64 (optional_bytes f.extra_field),
        length-append name (zip64_bytes (zip64_extra_field_block f)),
        length-append head f.file_name_raw,
        length-encode zip_central_entry_block b h,
        length-optional f.extra_field,
        length-optional f.central_extra_field,
      )

  written :
      (c : Cursor)
      → InRange default_for_write f
      → IsShort default_for_write f zip64_length
      → extra_length < 2 ^ 16
      → block default_for_write f zip64_length
        ≡ some (ok (central_header default_for_write f zip64_length))
      → IsWritten c
  unfolding central_header size_of
  written c in_range short extra made =
      let b = central_header default_for_write f zip64_length in
      let valid = central_header-IsBlock default_for_write f in_range zip64_length short in
      record {
        after = wrote (entry_bytes f b) c;
        header = b;
        writes = write_central_directory_header_lem default_for_write f b c made;
        reads =
            parse-encode zip_central_entry_block b
              (record (wrote (entry_bytes f b) c) { pos = c.pos })
              (behind (drop (length (entry_bytes f b)) (drop c.pos c.bytes))) valid refl
              (drop-overwrite c.pos (entry_bytes f b) c.bytes ∙ regrouped b _);
        name = refl;
        extra = omega (arith, extra);
        comment = refl;
        ends = omega (arith, length-entry_bytes b valid, extra);
      }
    where
      behind : List ℕ → List ℕ
      behind rest =
          f.file_name_raw
          ++ (zip64_bytes (zip64_extra_field_block f)
              ++ (optional_bytes f.extra_field
                  ++ (optional_bytes f.central_extra_field ++ (f.file_comment ++ rest))))

      regrouped :
          (b : ZipCentralEntryBlock) (rest : List ℕ)
          → entry_bytes f b ++ rest ≡ encode zip_central_entry_block b ++ behind rest
      regrouped b rest = simp (append_assoc)

  -- For an entry whose fields are in range, whose name and comment are shorter than 64 KiB, and so are
  -- its extra fields together, `write_central_directory_header` does not panic. Either the ZIP64
  -- field and the extra fields are shorter than 64 KiB together and it succeeds: the header that a
  -- reader parses where it began says how long the name, all extra fields with the ZIP64 field, and
  -- the comment are, and so where the next header begins, which is where the writer stands. Or they
  -- are not, and it gives the error and writes nothing.
  pub write_central_directory_header_total :
      (c : Cursor)
      → InRange default_for_write f
      → length f.file_name_raw < 2 ^ 16
      → length f.file_comment < 2 ^ 16
      → extra_length < 2 ^ 16
      → ((zip64_length + extra_length < 2 ^ 16) × IsWritten c)
        ⊎ ((2 ^ 16 ≤ zip64_length + extra_length)
            × (write_central_directory_header default_for_write f c
                ≡ some (
                  err (invalid_archive "Extra field length in central directory exceeds 64KiB"),
                  c,
                )))
  write_central_directory_header_total c in_range name comment extra =
      elim (block_total default_for_write f zip64_length name comment extra) [
        | inl (b, made) ↦
            let (same, short) = block_inv default_for_write f zip64_length made in
            inl (
              omega (arith, short.extra),
              written c in_range short extra (made ∙ ap (λ b. some (ok b)) same),
            )
        | inr (long, refused) ↦
            inr (long, write_central_directory_header_refused default_for_write f _ c refused)
      ]
