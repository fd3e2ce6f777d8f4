-- ===== src/Write/ReadBack.antt =====
-- src/write.rs and src/read.rs: reading the central directory that the writer leaves behind its entries.
use zip.Prelude.{
  ℕ, ◌+◌, ◌-◌, ◌≤◌, ◌≡◌, refl, ap, ◌∙◌, arith, map, some, List, [], ◌∷◌, ◌++◌, length, drop, All,
  append_assoc, length-append,
}
use zip.Result.{ok}
use zip.Cursor.{Cursor, remaining, remaining-advance, wrote, overwrite}
use zip.Cursor.Write.{drop-overwrite, drop-overwrite_before}
use zip.Spec.Block.{encode, size_of}
use zip.Spec.Block.Laws.{length-encode}
use zip.Spec.Zip32End
use zip.Spec.Zip32End.RoundTrip.{serialized, Reads-serialized}
use zip.Types.DateTime.{DateTime}
use zip.Types.Headers.{ZipLocalEntryBlock, zip_local_entry_block}
use zip.Read.Header.{read_files}
use zip.Read.Header.Located.{HasLocal}
use zip.Read.Header.Directory.{Placed, directory_bytes, as_listed, IsListable, read_files_lem}
use zip.Write.Footer.{write_central_and_footer}
use zip.Write.Footer.Written.{
  end_of, IsSmall, IsSmall-IsEnd, IsWritable, write_central_and_footer_lem,
}

-- What is written behind a local header leaves it.
HasLocal-overwrite :
    {start limit : ℕ} {file : List ℕ} (xs : List ℕ) {b : ZipLocalEntryBlock}
    → HasLocal start limit file b
    → HasLocal start limit (overwrite limit xs file) b
HasLocal-overwrite {start} {limit} {file} xs {b} h = record {
  behind = overwrite (limit - (start + length (encode zip_local_entry_block b))) xs h.behind;
  valid = h.valid;
  signed = h.signed;
  stands =
      drop-overwrite_before start limit xs (encode zip_local_entry_block b) h.behind file
        (omega (arith, h.content, thirty)) h.stands;
  content = h.content;
  in_u64 = h.in_u64;
}
  where
    thirty : length (encode zip_local_entry_block b) ≡ 30
    thirty = unfold size_of in length-encode zip_local_entry_block b h.valid

module _ (default_for_write : DateTime) (limit : ℕ) (file xs : List ℕ) where
  IsListable-overwrite :
      (es : List Placed)
      → All (IsListable default_for_write 0 limit file) es
      → All (IsListable default_for_write 0 limit (overwrite limit xs file)) es
  IsListable-overwrite [] h = tt
  IsListable-overwrite (e ∷ es) (h, hs) = (
    record { plain = h.plain; short = h.short; local = HasLocal-overwrite xs h.local },
    IsListable-overwrite es hs,
  )

  writable :
      (es : List Placed)
      → All (IsListable default_for_write 0 limit file) es
      → All (IsWritable default_for_write) es
  writable [] h = tt
  writable (e ∷ es) (h, hs) = ((h.plain, h.short), writable es hs)

module _ (default_for_write : DateTime) (es : List Placed) (comment : List ℕ) (c : Cursor) where
  abbrev directory : List ℕ
  directory = directory_bytes default_for_write es

  abbrev footer : List ℕ
  footer = serialized (end_of default_for_write es comment c.pos)

  -- The file with the directory and the end record.
  abbrev pub closed_file : Cursor
  closed_file = wrote (directory ++ footer) c

  abbrev at_directory : Cursor
  at_directory = record closed_file { pos = c.pos }

  abbrev pub behind_directory : Cursor
  behind_directory = record closed_file { pos = c.pos + length directory }

  abbrev behind : List ℕ
  behind = footer ++ drop (length (directory ++ footer)) (remaining c)

  stands : remaining at_directory ≡ directory ++ behind
  stands = drop-overwrite c.pos (directory ++ footer) c.bytes ∙ append_assoc directory footer _

  end : c.pos + length directory + length footer ≡ c.pos + length (directory ++ footer)
  end = omega (arith, length-append directory footer)

  pub write_closed_file :
      c.pos ≤ length c.bytes
      → IsSmall default_for_write es comment c.pos
      → All (IsListable default_for_write 0 c.pos c.bytes) es
      → write_central_and_footer default_for_write (map (λ e. e.0) es) comment c
        ≡ some (ok c.pos, closed_file)
  write_closed_file inside small h =
      write_central_and_footer_lem default_for_write es comment c inside small
        (writable default_for_write c.pos c.bytes (directory ++ footer) es h)

  pub read_closed_file :
      (crc32 : List ℕ → ℕ)
      → All (IsListable default_for_write 0 c.pos c.bytes) es
      → read_files crc32 (length es) 0 (record closed_file { pos = c.pos })
        ≡ ok (as_listed default_for_write 0 c.pos es, behind_directory)
  read_closed_file crc32 h =
      read_files_lem crc32 default_for_write 0 c.pos es at_directory behind (omega arith)
        (IsListable-overwrite default_for_write c.pos c.bytes (directory ++ footer) es h) stands

  pub parse-closed_file :
      IsSmall default_for_write es comment c.pos
      → Zip32End.parse behind_directory
        ≡ ok (end_of default_for_write es comment c.pos, closed_file)
  parse-closed_file small =
      Reads-serialized (end_of default_for_write es comment c.pos)
        (IsSmall-IsEnd default_for_write es comment c.pos small) behind_directory
        (drop (length (directory ++ footer)) (remaining c))
        (remaining-advance at_directory directory behind (length directory) refl stands)
      ∙ ap (λ n. ok (end_of default_for_write es comment c.pos, record closed_file { pos = n })) end

-- The central directory that the writer leaves is read back: for entries that a central header holds
-- in full, whose local headers stand before a place in the file, `write_central_and_footer` at that
-- place succeeds, `read_files` from there gives these entries in order, each with its content behind
-- its local header, and the end record of the archive is read behind them, with their number and
-- the directory's place and size. The numbers of the archive must fit that record.
pub read_files-write_central_and_footer :
    (crc32 : List ℕ → ℕ) (default_for_write : DateTime) (es : List Placed) (comment : List ℕ)
    (c : Cursor)
    → c.pos ≤ length c.bytes
    → IsSmall default_for_write es comment c.pos
    → All (IsListable default_for_write 0 c.pos c.bytes) es
    → (c' : Cursor) × (write_central_and_footer default_for_write (map (λ e. e.0) es) comment c
        ≡ some (ok c.pos, c'))
      × (read_files crc32 (length es) 0 (record c' { pos = c.pos })
          ≡ ok (
            as_listed default_for_write 0 c.pos es,
            record c' { pos = c.pos + length (directory_bytes default_for_write es) },
          ))
      × (Zip32End.parse (record c' { pos = c.pos + length (directory_bytes default_for_write es) })
          ≡ ok (end_of default_for_write es comment c.pos, c'))
read_files-write_central_and_footer crc32 default_for_write es comment c inside small h = (
  closed_file default_for_write es comment c,
  write_closed_file default_for_write es comment c inside small h,
  read_closed_file default_for_write es comment c crc32 h,
  parse-closed_file default_for_write es comment c small,
)
