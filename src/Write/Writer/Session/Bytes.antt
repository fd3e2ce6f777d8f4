-- ===== src/Write/Writer/Session/Bytes.antt =====
-- src/write.rs: the file of a session holds bytes, and where its end record stands.
use zip.Prelude.{ℕ, zero, suc, ◌+◌, arith, List, [], ◌∷◌, length, All, All-append}
use zip.LittleEndian.{IsByte}
use zip.Cursor.{Cursor, overwrite}
use zip.Spec.Block.{encode}
use zip.Spec.Block.Laws.{encode-IsByte}
use zip.Spec.Records.{zip32_cde_block}
use zip.Types.Headers.{zip_local_entry_block, zip_central_entry_block}
use zip.Types.File.Blocks.Readable.{central_header}
use zip.Spec.Zip32End.{Zip32CentralDirectoryEnd, to_block}
use zip.Read.Header.Located.{central_bytes}
use zip.Read.Header.Directory.{directory_bytes}
use zip.Write.Footer.Written.{end_of}
use zip.Write.State.{Environment}
use zip.Write.Writer.Entry.{new_file}
use zip.Write.Writer.Session.{Item, item_bytes, content_bytes, placed}
use zip.Write.Writer.Session.Headers.{file_of, header_of}
use zip.Write.Writer.Session.Archive.{behind_content, archive_file}

-- An item whose name and content are bytes.
abbrev pub AreBytes : Item → Type 0
AreBytes x = All IsByte x.name × All IsByte x.content

overwrite-IsByte :
    (p : ℕ) (xs bytes : List ℕ)
    → All IsByte xs
    → All IsByte bytes
    → All IsByte (overwrite p xs bytes)
unfolding overwrite
overwrite-IsByte zero [] bytes h k = k
overwrite-IsByte zero (x ∷ xs) [] (h, hs) k = (h, overwrite-IsByte zero xs [] hs tt)
overwrite-IsByte zero (x ∷ xs) (b ∷ bs) (h, hs) (k, ks) = (h, overwrite-IsByte zero xs bs hs ks)
overwrite-IsByte (suc p) xs [] h k = (omega arith, overwrite-IsByte p xs [] h tt)
overwrite-IsByte (suc p) xs (b ∷ bs) h (k, ks) = (k, overwrite-IsByte p xs bs h ks)

module _ (K : Environment) where
  open K use {default_for_write}

  content_bytes-IsByte :
      (xs : List Item) (start : ℕ) → All AreBytes xs → All IsByte (content_bytes K xs start)
  unfolding content_bytes
  content_bytes-IsByte [] start h = tt
  content_bytes-IsByte (x ∷ xs) start ((name, content), h) =
      All-append IsByte (item_bytes K x start) _
        (All-append IsByte (encode zip_local_entry_block (header_of K x start)) _
          (encode-IsByte zip_local_entry_block (header_of K x start))
          (All-append IsByte x.name x.content name content))
        (content_bytes-IsByte xs (start + length (item_bytes K x start)) h)

  directory_bytes-IsByte :
      (xs : List Item) (start : ℕ)
      → All AreBytes xs
      → All IsByte (directory_bytes default_for_write (placed K xs start))
  unfolding directory_bytes placed new_file
  directory_bytes-IsByte [] start h = tt
  directory_bytes-IsByte (x ∷ xs) start ((name, _), h) =
      All-append IsByte (central_bytes default_for_write (file_of K x start)) _
        (All-append IsByte (encode zip_central_entry_block _) _
          (encode-IsByte zip_central_entry_block
            (central_header default_for_write (file_of K x start) 0))
          (All-append IsByte x.name [] name tt))
        (directory_bytes-IsByte xs (start + length (item_bytes K x start)) h)

  module _ (xs : List Item) (comment : List ℕ) (c : Cursor) where
    abbrev pub end_record : Zip32CentralDirectoryEnd
    end_record =
        end_of default_for_write (placed K xs c.pos) comment (behind_content K xs comment c).pos

    -- Where the end record stands.
    abbrev pub end_position : ℕ
    end_position =
        (behind_content K xs comment c).pos
        + length (directory_bytes default_for_write (placed K xs c.pos))

    abbrev pub file_bytes : List ℕ
    file_bytes = (archive_file K xs comment c).bytes

    pub file_bytes-IsByte :
        All IsByte c.bytes → All IsByte comment → All AreBytes xs → All IsByte file_bytes
    file_bytes-IsByte before text h =
        overwrite-IsByte (behind_content K xs comment c).pos _ (behind_content K xs comment c).bytes
          (All-append IsByte (directory_bytes default_for_write (placed K xs c.pos)) _
            (directory_bytes-IsByte xs c.pos h)
            (All-append IsByte (encode zip32_cde_block (to_block end_record)) comment
              (encode-IsByte zip32_cde_block (to_block end_record)) text))
          (overwrite-IsByte c.pos (content_bytes K xs c.pos) c.bytes
            (content_bytes-IsByte xs c.pos h) before)
