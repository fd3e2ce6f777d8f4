-- ===== src/Read/Header/Directory.antt =====
-- src/read.rs: the central directory, read entry by entry.
use zip.Prelude.{
  ℕ, ◌+◌, ◌≤◌, ◌≡◌, refl, ap, ◌∙◌, arith, List, [], ◌∷◌, ◌++◌, length, All, append_assoc,
  length-append,
}
use zip.Result.{ok}
use zip.Cursor.{Cursor, remaining, remaining-advance, advance, bind_ok}
use zip.Types.DateTime.{DateTime}
use zip.Types.Headers.{ZipLocalEntryBlock}
use zip.Types.File.{ZipFileData}
use zip.Types.File.Blocks.Readable.{IsShort}
use zip.Read.Header.{central_header_to_zip_file, read_files}
use zip.Read.Header.Central.{IsPlain}
use zip.Read.Header.Located.{HasLocal, central_bytes, as_located, central_header_to_zip_file_lem}

-- An entry with its local header.
abbrev pub Placed : Type 0
Placed = ZipFileData × ZipLocalEntryBlock

-- The central directory of some entries.
unfoldable pub directory_bytes : DateTime → List Placed → List ℕ
directory_bytes default_for_write [] = []
directory_bytes default_for_write (e ∷ es) =
    central_bytes default_for_write e.0 ++ directory_bytes default_for_write es

-- The entries that are read from the directory that begins at a place.
unfoldable pub as_listed : DateTime → ℕ → ℕ → List Placed → List ZipFileData
as_listed default_for_write off start [] = []
as_listed default_for_write off start (e ∷ es) =
    as_located default_for_write e.0 off start e.1
    ∷ as_listed default_for_write off (start + length (central_bytes default_for_write e.0)) es

-- What the directory needs of an entry, and of the file before it.
pub record IsListable (default_for_write : DateTime) (off limit : ℕ) (file : List ℕ) (e : Placed)
    : Type 0 where
  pub plain : IsPlain default_for_write e.0
  pub short : IsShort default_for_write e.0 0
  pub local : HasLocal (e.0.header_start + off) limit file e.1

up_to :
    {header_start limit limit' : ℕ} {file : List ℕ} {b : ZipLocalEntryBlock}
    → limit ≤ limit'
    → HasLocal header_start limit file b
    → HasLocal header_start limit' file b
up_to le h = record {
  behind = h.behind;
  valid = h.valid;
  signed = h.signed;
  stands = h.stands;
  content = omega (arith, h.content);
  in_u64 = h.in_u64;
}

module _ (crc32 : List ℕ → ℕ) (default_for_write : DateTime) (off limit : ℕ) where
  pub read_files_lem :
      (es : List Placed) (c : Cursor) (rest : List ℕ)
      → limit ≤ c.pos
      → All (IsListable default_for_write off limit c.bytes) es
      → remaining c ≡ directory_bytes default_for_write es ++ rest
      → read_files crc32 (length es) off c
        ≡ ok (
          as_listed default_for_write off c.pos es,
          advance (length (directory_bytes default_for_write es)) c,
        )
  unfolding read_files directory_bytes as_listed
  read_files_lem [] c rest le all stands = ap (λ n. ok ([], record c { pos = n })) (omega arith)
  read_files_lem (e ∷ es) c rest le (h, hs) stands =
      bind_ok (central_header_to_zip_file crc32 off) _ c (
        central_header_to_zip_file_lem crc32 default_for_write e.0 off c
          (directory_bytes default_for_write es ++ rest) e.1 h.plain h.short first
          (up_to le h.local))
      ∙ bind_ok (read_files crc32 (length es) off) _ c₁ (
          read_files_lem es c₁ rest (omega arith) hs
            (remaining-advance c (central_bytes default_for_write e.0) _ _ refl first))
      ∙ ap (λ n. ok (as_listed default_for_write off c.pos (e ∷ es), record c { pos = n })) end
    where
      c₁ : Cursor
      c₁ = advance (length (central_bytes default_for_write e.0)) c

      first :
          remaining c
          ≡ central_bytes default_for_write e.0 ++ (directory_bytes default_for_write es ++ rest)
      first =
          stands
          ∙ append_assoc (central_bytes default_for_write e.0)
              (directory_bytes default_for_write es) rest

      end :
          c.pos
            + length (central_bytes default_for_write e.0)
            + length (directory_bytes default_for_write es)
          ≡ c.pos + length (directory_bytes default_for_write (e ∷ es))
      end = omega (
        arith,
        length-append (central_bytes default_for_write e.0) (directory_bytes default_for_write es),
      )
