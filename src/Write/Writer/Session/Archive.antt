-- ===== src/Write/Writer/Session/Archive.antt =====
-- src/write.rs and src/read.rs: an archive of stored entries, from `ZipWriter::new` to `finish`.
use zip.Prelude.{
  ℕ, suc, ◌+◌, ◌^◌, ◌≤◌, ◌<◌, ◌≡◌, refl, sym, ap, ◌∙◌, arith, Bool, true, false, some, ge→ltb, List,
  [], ◌∷◌, ◌++◌, length, map, drop, All, append_assoc, length-append,
}
use zip.Result.{ok}
use zip.Cursor.{Cursor, wrote, overwrite}
use zip.Cursor.Write.{drop-overwrite, overwrite_end, overwrite_reaches, wrote-append}
use zip.Spec.Records.{zip64_bytes_thr}
use zip.Spec.Zip32End
use zip.Spec.Zip32End.RoundTrip.{serialized}
use zip.Types.DateTime.{DateTime, is_valid}
use zip.Types.File.{ZipFileData}
use zip.Crc32.Checked.{IsHashing}
use zip.Read.Header.{read_files}
use zip.Read.Header.Directory.{IsListable, as_listed, directory_bytes}
use zip.Write.Footer.{write_central_and_footer, finalize_footer}
use zip.Write.Footer.Written.{end_of, IsSmall}
use zip.Write.Monad
use zip.Write.ReadBack.{
  closed_file, behind_directory, write_closed_file, read_closed_file, parse-closed_file,
}
use zip.Write.Generic.{closed}
use zip.Write.State.{Environment, ZipWriter, ZipWriterStats, Action, ◌>>◌, bind_ok}
use zip.Write.Writer.{finish_file}
use zip.Write.Writer.Entry.{contains_key}
use zip.Write.Writer.Close.{new, no_stats, set_raw_comment, finalize, finish}
use zip.Write.Writer.Stored.{idle}
use zip.Write.Writer.Stored.Finished.{on_plain_ok}
use zip.Write.Writer.Session.{
  Item, item_bytes, IsDistinct, save, save_lem, content_bytes, placed, files_of, stats_behind,
  raw_behind,
}
use zip.Write.Writer.Session.Headers.{IsItem}
use zip.Write.Writer.Session.ReadBack.{stored_content, All-IsListable, contents, names}

-- At the end of the file.
abbrev AtEnd : Cursor → Type 0
AtEnd c = c.pos ≡ length c.bytes

wrote-AtEnd : (xs : List ℕ) (c : Cursor) → AtEnd c → AtEnd (wrote xs c)
wrote-AtEnd xs c e = omega (
  arith,
  length-append c.bytes xs,
  ap (λ n. length (overwrite n xs c.bytes)) e ∙ ap length (overwrite_end c.bytes xs),
)

-- At the end of the file, the footer is written once.
footer_once :
    (default_for_write : DateTime) (files : List ZipFileData) (comment : List ℕ) (c c' : Cursor)
    (start : ℕ)
    → write_central_and_footer default_for_write files comment c ≡ some (ok start, c')
    → AtEnd c'
    → finalize_footer default_for_write files comment c ≡ some (ok start, c')
unfolding finalize_footer
footer_once default_for_write files comment c c' start h e =
    Monad.bind_ok (write_central_and_footer default_for_write files comment) _ c h
    ∙ rw (ge→ltb c'.pos (length c'.bytes) (λ l. omega arith))
        (ap (λ n. some (ok start, record c' { pos = n })) (sym e))

pub All-new : (xs : List Item) → All (λ x. contains_key x.name [] ≡ false) xs
All-new [] = tt
All-new (x ∷ xs) = (refl, All-new xs)

pub short : (xs : List Item) → All IsItem xs → All (λ x. length x.name < 2 ^ 16) xs
short [] v = tt
short (x ∷ xs) (v, vs) = (v.short, short xs vs)

module _ (K : Environment) where
  open K use {hashing, default_for_write}

  -- A whole archive.
  unfoldable pub write_archive : List Item → List ℕ → Action K Cursor
  unfolding save finish
  write_archive items comment = do save K items; set_raw_comment comment; finish

  finished :
      (files : List ZipFileData) (comment : List ℕ) (c c' : Cursor) (start : ℕ)
      (stats : ZipWriterStats K) (raw flush : Bool)
      → finalize_footer default_for_write files comment c ≡ some (ok start, c')
      → finish (idle K c files stats raw comment flush)
        ≡ some (ok c', record (idle K c' files stats raw comment flush) { inner = closed })
  unfolding finish finalize finish_file
  finished files comment c c' start stats raw flush h =
      bind_ok finalize _ (idle K c files stats raw comment flush) (
        on_plain_ok K (finalize_footer default_for_write files comment)
          (idle K c files stats raw comment flush) c refl h)

  -- The loop to the last entry, and the end of the archive.
  pub saved :
      (xs : List Item) (comment : List ℕ) (c c' : Cursor) (start : ℕ)
      → IsHashing hashing
      → IsDistinct xs
      → All IsItem xs
      → c.pos ≤ length c.bytes
      → c.pos + length (content_bytes K xs c.pos) < zip64_bytes_thr
      → finalize_footer default_for_write
          (files_of K xs c.pos)
          comment
          (wrote (content_bytes K xs c.pos) c)
        ≡ some (ok start, c')
      → (s : ZipWriter K) × (write_archive xs comment (new K c) ≡ some (ok c', s))
  unfolding write_archive new
  saved xs comment c c' start H distinct v inside fits h = (
    record (idle K c' (files_of K xs c.pos) (stats_behind K xs c.pos (no_stats K))
        (raw_behind K xs false) comment false) { inner = closed },
    bind_ok (save K xs) _ (idle K c [] (no_stats K) false [] false) (
          save_lem K H xs c [] (no_stats K) false false [] (All-new xs) distinct (short xs v) inside
            fits)
        ∙ finished (files_of K xs c.pos) comment (wrote (content_bytes K xs c.pos) c) c' start
            (stats_behind K xs c.pos (no_stats K)) (raw_behind K xs false) false h,
  )

  pub length-placed : (xs : List Item) (start : ℕ) → length (placed K xs start) ≡ length xs
  unfolding placed
  length-placed [] start = refl
  length-placed (x ∷ xs) start = ap suc (length-placed xs (start + length (item_bytes K x start)))

  -- The file that is left, by its parts.
  module _ (xs : List Item) (comment : List ℕ) (c : Cursor) where
    abbrev pub behind_content : Cursor
    behind_content = wrote (content_bytes K xs c.pos) c

    abbrev pub archive_file : Cursor
    archive_file = closed_file default_for_write (placed K xs c.pos) comment behind_content

    abbrev directory : List ℕ
    directory =
        directory_bytes default_for_write (placed K xs c.pos)
        ++ serialized (end_of default_for_write (placed K xs c.pos) comment behind_content.pos)

    abbrev pub behind_directory_bytes : List ℕ
    behind_directory_bytes =
        directory ++ drop (length (content_bytes K xs c.pos ++ directory)) (drop c.pos c.bytes)

    pub contents_stand :
        drop c.pos archive_file.bytes ≡ content_bytes K xs c.pos ++ behind_directory_bytes
    contents_stand =
        ap (λ d. drop c.pos d.bytes) (wrote-append (content_bytes K xs c.pos) directory c)
        ∙ drop-overwrite c.pos (content_bytes K xs c.pos ++ directory) c.bytes
        ∙ append_assoc (content_bytes K xs c.pos) directory _

    module _ (word : (h : hashing.Hasher) → hashing.finalize h < 2 ^ 32)
        (valid : is_valid default_for_write ≡ true) (v : All IsItem xs)
        (at_end : c.pos ≡ length c.bytes)
        (fits : c.pos + length (content_bytes K xs c.pos) < zip64_bytes_thr) where
      pub listable :
          All
            (IsListable default_for_write 0 behind_content.pos behind_content.bytes)
            (placed K xs c.pos)
      listable =
          All-IsListable K valid word behind_content.pos behind_content.bytes
            (drop (length (content_bytes K xs c.pos)) (drop c.pos c.bytes)) fits xs c.pos v
            (drop-overwrite c.pos (content_bytes K xs c.pos) c.bytes) (omega arith)

      pub footer_written :
          IsSmall default_for_write
            (placed K xs c.pos)
            comment
            (c.pos + length (content_bytes K xs c.pos))
          → finalize_footer default_for_write (files_of K xs c.pos) comment behind_content
            ≡ some (ok behind_content.pos, archive_file)
      footer_written small =
          footer_once default_for_write (files_of K xs c.pos) comment behind_content archive_file
            behind_content.pos
            (write_closed_file default_for_write (placed K xs c.pos) comment behind_content
              (overwrite_reaches _ _ _) small listable)
            (wrote-AtEnd directory behind_content (wrote-AtEnd (content_bytes K xs c.pos) c at_end))

  -- An archive of entries that are stored, neither compressed nor encrypted, is read back: from a
  -- new writer at the end of a file, `start_file`, `write_all` and `finish_file` for each entry,
  -- then the comment and `finish`, succeed and give the file. `read_files` from behind the
  -- contents then lists the entries with their names in order, the content that stands where each
  -- is found is the one that was written, and the end record is read behind the directory, with
  -- the number of entries, the directory's place and size and the comment. The hasher is as it is
  -- documented and gives 32 bits, the writer's default moment is valid, the names are UTF-8,
  -- shorter than 64 KiB and distinct, and the numbers of the archive fit the end record without
  -- ZIP64.
  pub write_archive-read_files :
      (crc32 : List ℕ → ℕ) (xs : List Item) (comment : List ℕ) (c : Cursor)
      → IsHashing hashing
      → ((h : hashing.Hasher) → hashing.finalize h < 2 ^ 32)
      → is_valid default_for_write ≡ true
      → IsDistinct xs
      → All IsItem xs
      → c.pos ≡ length c.bytes
      → c.pos + length (content_bytes K xs c.pos) < zip64_bytes_thr
      → IsSmall default_for_write
          (placed K xs c.pos)
          comment
          (c.pos + length (content_bytes K xs c.pos))
      → (c' : Cursor) × (s : ZipWriter K) × (listed : List ZipFileData) × (end : Cursor)
        × (write_archive xs comment (new K c) ≡ some (ok c', s))
        × (read_files crc32
              (length xs)
              0
              (record c' { pos = c.pos + length (content_bytes K xs c.pos) })
            ≡ ok (listed, end))
        × (map (λ f. f.file_name) listed ≡ map (λ x. x.name) xs)
        × (map (stored_content c'.bytes) listed ≡ map (λ x. x.content) xs)
        × (Zip32End.parse end
            ≡ ok (
              end_of default_for_write
                  (placed K xs c.pos)
                  comment
                  (c.pos + length (content_bytes K xs c.pos)),
              c',
            ))
  write_archive-read_files crc32 xs comment c H word valid distinct v at_end fits small =
      let (s, written) =
        saved xs comment c c₂ c₁.pos H distinct v (omega arith) fits
          (footer_written xs comment c word valid v at_end fits small) in
      (
        c₂,
        s,
        as_listed default_for_write 0 c₁.pos (placed K xs c.pos),
        behind_directory default_for_write (placed K xs c.pos) comment c₁,
        written,
        ap (λ n. read_files crc32 n 0 (record c₂ { pos = c₁.pos })) (sym (length-placed xs c.pos))
            ∙ read_closed_file default_for_write (placed K xs c.pos) comment c₁ crc32
                (listable xs comment c word valid v at_end fits),
        names K xs c.pos c₁.pos,
        contents K valid word c₁.pos c₂.bytes (behind_directory_bytes xs comment c) fits xs c.pos
            c₁.pos v (contents_stand xs comment c) (omega arith),
        parse-closed_file default_for_write (placed K xs c.pos) comment c₁ small,
      )
    where
      c₁ : Cursor
      c₁ = behind_content xs comment c

      c₂ : Cursor
      c₂ = archive_file xs comment c
