-- ===== src/Read/Stream/Visit.antt =====
-- src/read/stream.rs: `ZipStreamReader::visit`. A visitor is a state and what its two methods make of
-- it. When an entry is dropped, `drain` of its reader (src/read.rs) reads the rest of the bytes that
-- this is limited to. Of an LZMA entry it decodes them, and stops where that fails: how far it gets is
-- a matter of the crate lzma-rs and of what the visitor has read, and is given with the visitor.
pub mod Files
use zip.Prelude.{ℕ, zero, suc, ◌+◌, Option, none, some, List, length}
use zip.Result.{ZipResult, ok, err}
use zip.Cursor.{Cursor, Io, ◌>>=◌, advance}
use zip.Spec.Block.{parse}
use zip.Types.Headers.{zip_central_entry_block}
use zip.Types.File.{ZipFileData}
use zip.Compression.{CompressionMethod}
use zip.Read.Header.{central_header_to_zip_file_inner}
use zip.Read.Stream.{read_zipfile_from_stream}

-- `lzma_taken` is the number of bytes of an LZMA entry's content that are taken when it is dropped.
pub record ZipStreamVisitor (S : Type 0) : Type 0 where
  pub visit_file : S → ZipFileData × List ℕ → ZipResult S
  pub visit_additional_metadata : S → ZipFileData → ZipResult S
  pub lzma_taken : S → ZipFileData × List ℕ → ℕ

-- What is taken of an entry's content when the entry is dropped: all of it, but of an LZMA entry.
abbrev pub drain : CompressionMethod → (lzma_taken whole : ℕ) → ℕ
drain CompressionMethod.lzma lzma_taken whole = lzma_taken
drain method lzma_taken whole = whole

-- One round of the first loop, with the next ones.
abbrev pub after_file :
    {S : Type 0}
    → (S → Cursor → ZipResult (S × Cursor))
    → ℕ
    → Cursor
    → ZipResult S
    → ZipResult (S × Cursor)
after_file next_rounds taken c (err e) = err e
after_file next_rounds taken c (ok s) = next_rounds s (advance taken c)

abbrev pub visited :
    {S : Type 0}
    → ZipStreamVisitor S
    → (S → Cursor → ZipResult (S × Cursor))
    → S
    → ZipResult (Option (ZipFileData × List ℕ) × Cursor)
    → ZipResult (S × Cursor)
visited v next_rounds s (err e) = err e
visited v next_rounds s (ok (none, c)) = ok (s, c)
visited v next_rounds s (ok (some file, c)) =
    after_file next_rounds (drain file.0.compression_method (v.lzma_taken s file) (length file.1)) c
      (v.visit_file s file)

-- One round of the second loop.
abbrev next_metadata :
    {S : Type 0} → (S → Cursor → ZipResult S) → Cursor → ZipResult S → ZipResult S
next_metadata next_rounds c (err e) = err e
next_metadata next_rounds c (ok s) = next_rounds s c

abbrev described :
    {S : Type 0}
    → ZipStreamVisitor S
    → (S → Cursor → ZipResult S)
    → S
    → ZipResult (ZipFileData × Cursor)
    → ZipResult S
described v next_rounds s (err e) = ok s
described v next_rounds s (ok (metadata, c)) =
    next_metadata next_rounds c (v.visit_additional_metadata s metadata)

module _ (crc32 : List ℕ → ℕ) where
  unfoldable pub parse_central_directory : Io ZipFileData
  unfolding central_header_to_zip_file_inner
  parse_central_directory = do
    block ← parse zip_central_entry_block
    central_header_to_zip_file_inner crc32 0 0 block

  module _ {S : Type 0} (v : ZipStreamVisitor S) where
    -- The two loops, for at most as many rounds as the fuel.
    unfoldable pub visit_files : ℕ → S → Cursor → ZipResult (S × Cursor)
    unfolding read_zipfile_from_stream
    visit_files zero s c = ok (s, c)
    visit_files (suc fuel) s c =
        visited v (λ s c. visit_files fuel s c) s (read_zipfile_from_stream crc32 c)

    unfoldable pub visit_metadata : ℕ → S → Cursor → ZipResult S
    unfolding parse_central_directory
    visit_metadata zero s c = ok s
    visit_metadata (suc fuel) s c =
        described v (λ s c. visit_metadata fuel s c) s (parse_central_directory c)

    abbrev metadata_after : ℕ → ZipResult (S × Cursor) → ZipResult S
    metadata_after fuel (err e) = err e
    metadata_after fuel (ok (s, c)) = visit_metadata fuel s c

    -- Each round of a loop takes 30 bytes at least, so the fuel is enough.
    unfoldable pub visit : S → List ℕ → ZipResult S
    unfolding visit_files visit_metadata
    visit s stream =
        let fuel = suc (length stream) in
        metadata_after fuel (visit_files fuel s (record { bytes = stream; pos = 0 }))
