-- ===== src/Read/Header/Located.antt =====
-- src/read.rs: an entry whose local header stands in the file is read from its central header.
use zip.Prelude.{
  ℕ, ◌+◌, ◌%◌, ◌^◌, ◌<◌, ◌≤◌, ◌≡◌, refl, sym, ap, ◌∙◌, subst, arith, some, List, [], ◌++◌, length,
  drop, append_assoc, length-append, ge→ltb, ltb, if◌then◌else◌,
}
use zip.Result.{ok, invalid_archive}
use zip.Cursor.{
  Cursor, Io, ◌>>=◌, ◌>>◌, pure, throw, remaining, remaining-advance, advance, seek_start, bind_ok,
}
use zip.Spec.Block.{encode, size_of, parse}
use zip.Spec.Block.Laws.{parse-encode, Reads-parse, IsBlock}
use zip.Types.DateTime.{DateTime}
use zip.Types.Headers.{
  ZipLocalEntryBlock, ZipCentralEntryBlock, zip_central_entry_block, zip_local_entry_block,
}
use zip.Types.File.{ZipFileData}
use zip.Types.File.Blocks.Readable.{central_header, IsShort, central_header-IsBlock}
use zip.Read.Header.{
  find_data_start, set_data_start, central_header_to_zip_file_inner, central_header_to_zip_file,
}
use zip.Read.Header.Central.{IsPlain, as_found, Reads-inner}

-- Where the content is, behind a local header.
abbrev pub content_start : ℕ → ZipLocalEntryBlock → ℕ
content_start header_start b = header_start + 30 + (b.file_name_length + b.extra_field_length)

-- A local header stands where the entry says, and the content begins before `limit`.
pub record HasLocal (header_start limit : ℕ) (file : List ℕ) (b : ZipLocalEntryBlock) : Type 0 where
  pub behind : List ℕ
  pub valid : IsBlock zip_local_entry_block b
  pub signed : b.magic ≡ 0x04034b50
  pub stands : drop header_start file ≡ encode zip_local_entry_block b ++ behind
  pub content : content_start header_start b ≤ limit
  pub in_u64 : content_start header_start b < 2 ^ 64

-- The content of an entry begins behind the local header that stands where the entry says, with its
-- name and extra field.
find_data_start_local :
    (f : ZipFileData) (b : ZipLocalEntryBlock) (limit : ℕ) (c : Cursor)
    → HasLocal f.header_start limit c.bytes b
    → find_data_start f c
      ≡ ok (
        (
          content_start f.header_start b,
          record f { data_start = set_data_start f.data_start (content_start f.header_start b) },
        ),
        record c { pos = f.header_start + 30 },
      )
unfolding find_data_start size_of
find_data_start_local f b limit c h =
    bind_ok (parse zip_local_entry_block) _ (record c { pos = f.header_start })
      (parse-encode zip_local_entry_block b (record c { pos = f.header_start }) h.behind h.valid
        h.signed h.stands)
    ∙ ap
        (λ n. ok (
          (n, record f { data_start = set_data_start f.data_start n }),
          record c { pos = f.header_start + 30 },
        ))
        wraps
  where
    wraps :
        (f.header_start
            + size_of zip_local_entry_block
            + (b.file_name_length + b.extra_field_length))
          % 2 ^ 64
        ≡ content_start f.header_start b
    wraps = omega (arith, h.in_u64)

-- An entry in the central directory: its header, its name and its comment.
abbrev pub central_bytes : DateTime → ZipFileData → List ℕ
central_bytes default_for_write f =
    encode zip_central_entry_block (central_header default_for_write f 0)
    ++ (f.file_name_raw ++ ([] ++ f.file_comment))

-- The entry that is read, its content found.
abbrev pub as_located : DateTime → ZipFileData → ℕ → ℕ → ZipLocalEntryBlock → ZipFileData
as_located default_for_write f off central_header_start b =
    record (as_found default_for_write f off central_header_start) {
      data_start = some (content_start (f.header_start + off) b);
    }

module _ (crc32 : List ℕ → ℕ) (default_for_write : DateTime) (f : ZipFileData) (off : ℕ) where
  located : Cursor → ℕ → ZipFileData → Io ZipFileData
  located c central_header_end file = do
    found ← find_data_start file
    if ltb c.pos found.0
        then throw (invalid_archive "A file can't start after its central-directory header")
        else do seek_start central_header_end; pure found.1

  located_ok :
      (c c' : Cursor) (b : ZipLocalEntryBlock)
      → HasLocal (f.header_start + off) c.pos c.bytes b
      → c'.bytes ≡ c.bytes
      → located c c'.pos (as_found default_for_write f off c.pos) c'
        ≡ ok (as_located default_for_write f off c.pos b, c')
  unfolding located
  located_ok c c' b h same =
      bind_ok (find_data_start entry) _ c' (
        find_data_start_local entry b c.pos c'
          (subst (λ file. HasLocal (f.header_start + off) c.pos file b) (sym same) h))
      ∙ rw (ge→ltb c.pos (content_start (f.header_start + off) b) (λ l. omega (arith, h.content)))
          refl
    where
      entry : ZipFileData
      entry = as_found default_for_write f off c.pos

  -- Where an entry's central header, name and comment stand, of an entry that these hold in full,
  -- and its local header stands where it says, moved by the archive's offset, with the content
  -- before this place: `central_header_to_zip_file` gives the entry and goes behind the comment. The
  -- entry is the one that was written, its version, moment and texts as the header keeps them, its
  -- header moved by the offset and its content behind the local header.
  pub central_header_to_zip_file_lem :
      (c : Cursor) (rest : List ℕ) (b : ZipLocalEntryBlock)
      → IsPlain default_for_write f
      → IsShort default_for_write f 0
      → remaining c ≡ central_bytes default_for_write f ++ rest
      → HasLocal (f.header_start + off) c.pos c.bytes b
      → central_header_to_zip_file crc32 off c
        ≡ ok (
          as_located default_for_write f off c.pos b,
          advance (length (central_bytes default_for_write f)) c,
        )
  unfolding central_header_to_zip_file located central_header
  central_header_to_zip_file_lem c rest b p short stands h =
      bind_ok (parse zip_central_entry_block) _ c (
        Reads-parse zip_central_entry_block header
          (central_header-IsBlock default_for_write f p.in_range 0 short) signed c (texts ++ rest)
          first)
      ∙ bind_ok (central_header_to_zip_file_inner crc32 off c.pos header) _ c₁ (
          Reads-inner crc32 default_for_write f off c.pos p (omega (arith, h.in_u64)) c₁ rest
            second)
      ∙ located_ok c (advance (length texts) c₁) b h refl
      ∙ ap (λ n. ok (as_located default_for_write f off c.pos b, record c { pos = n })) end
    where
      header : ZipCentralEntryBlock
      header = central_header default_for_write f 0

      signed : header.magic ≡ 0x02014b50
      signed = refl

      texts : List ℕ
      texts = f.file_name_raw ++ ([] ++ f.file_comment)

      c₁ : Cursor
      c₁ = advance (length (encode zip_central_entry_block header)) c

      first : remaining c ≡ encode zip_central_entry_block header ++ (texts ++ rest)
      first = stands ∙ append_assoc (encode zip_central_entry_block header) texts rest

      second : remaining c₁ ≡ texts ++ rest
      second =
          remaining-advance c (encode zip_central_entry_block header) (texts ++ rest) _ refl first

      end :
          c.pos + length (encode zip_central_entry_block header) + length texts
          ≡ c.pos + length (central_bytes default_for_write f)
      end = omega (arith, length-append (encode zip_central_entry_block header) texts)
