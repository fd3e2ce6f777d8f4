-- ===== src/Write/Writer/Session/Opened.antt =====
-- src/write.rs and src/read.rs: from `ZipWriter::new` over `finish` and `ZipArchive::new` to the content
-- of an entry that is read by its name.
use zip.Prelude.{
  ℕ, ◌+◌, ◌^◌, ◌≤◌, ◌<◌, ◌≡◌, ◌≢◌, refl, sym, ap, ◌∙◌, subst, arith, true, inr, Option, none, some,
  List, length, All, get_elem?,
}
use zip.Result.{ok}
use zip.LittleEndian.{IsByte}
use zip.Cursor.{Cursor}
use zip.Spec.Records.{zip64_bytes_thr}
use zip.Spec.Zip32End.{Zip32CentralDirectoryEnd}
use zip.Spec.Zip64End.{Zip64CentralDirectoryEndLocator}
use zip.Spec.Find.{Finder, IsFinder}
use zip.Spec.Find.Zip32.Window.{ParsesAt}
use zip.Types.DateTime.{is_valid}
use zip.Types.File.{ZipFileData}
use zip.Compression.{CompressionMethod}
use zip.Aes.{IsCrypto}
use zip.Crc32.{IoResult}
use zip.Crc32.Checked.{IsHashing}
use zip.Read.Config.{detect}
use zip.Read.Directory.{locator_at}
use zip.Read.Metadata.{SharedBuilder}
use zip.Read.Content.{Crates, CryptoReader, ZipFile}
use zip.Read.Content.Whole.{reads}
use zip.Read.Content.Opened.{as_it_is}
use zip.Read.Content.Unpacked.{Unpacks}
use zip.Read.Archive.{
  ZipArchive, build, with_config, new_archive, index_for_name, get_index_of, by_name, at_index,
  needed_password,
}
use zip.Read.Archive.Named.{entry_at, build-last_named}
use zip.Read.Archive.Opened.{by_index_with_optional_password-reads}
use zip.Write.Footer.Written.{IsSmall}
use zip.Write.State.{Environment, ZipWriter}
use zip.Write.Writer.Close.{new}
use zip.Write.Writer.Session.{Item, IsDistinct, content_bytes, placed}
use zip.Write.Writer.Session.Headers.{IsItem}
use zip.Write.Writer.Session.Archive.{
  write_archive, saved, footer_written, behind_content, archive_file, contents_stand,
  behind_directory_bytes,
}
use zip.Write.Writer.Session.Bytes.{
  AreBytes, end_record, end_position, file_bytes, file_bytes-IsByte,
}
use zip.Write.Writer.Session.Listed.{IsListed, entry-IsListed}
use zip.Write.Writer.Session.Readable.{reading}
use zip.Write.Writer.Session.Reopened.{directory_start, shared_of, get_metadata-session}

-- The index where an entry was found.
entry_at-inv :
    (files : List ZipFileData) (o : Option ℕ) {f : ZipFileData}
    → entry_at files o ≡ some f
    → (i : ℕ) × (o ≡ some i) × (get_elem? files i ≡ some f)
entry_at-inv files none h = absurd (cc)
entry_at-inv files (some i) h = (i, refl, h)

module _ (K : Environment) where
  open K use {hashing, default_for_write}

  -- The archive that is opened.
  abbrev opened_archive : List Item → List ℕ → Cursor → ZipArchive
  opened_archive xs comment c = record {
    reader = record { bytes = file_bytes K xs comment c; pos = directory_start K xs comment c + 0 };
    files = build (shared_of K xs comment c);
    offset = 0;
    dir_start = directory_start K xs comment c + 0;
    config = record { archive_offset = detect };
    comment = comment;
  }

  module _ (Decoder : Type 0) (new_decoder : CompressionMethod → CryptoReader K.crypto → Decoder)
      (new_zstd_decoder : CryptoReader K.crypto → Option Decoder)
      (decode : Decoder → ℕ → IoResult (List ℕ) × Decoder) where
    abbrev R : Crates
    R = reading K Decoder new_decoder new_zstd_decoder decode

    -- An entry of the directory, by its name.
    listed-by_name :
        (a : ZipArchive) (shared : SharedBuilder) (x : Item) (ns : List ℕ)
        → IsCrypto K.crypto
        → IsHashing hashing
        → a.files ≡ build shared
        → IsListed K a.reader.bytes shared.files x
        → All (λ n. n ≢ 0) ns
        → length x.content ≤ length ns
        → (file : ZipFile R) × (read : ZipFile R) × (by_name R a x.name ≡ (ok file, a))
          × (reads R ns file ≡ some (ok x.content, read))
    unfolding by_name index_for_name needed_password
    listed-by_name a shared x ns L H built l nonzero enough =
        let (_, last) = build-last_named shared a x.name built in
        let (i, at, there) = entry_at-inv a.files (get_index_of x.name a.files) (last ∙ l.named) in
        let (file, read, opens, all) =
          by_index_with_optional_password-reads R L H (λ d text. ⊥) (λ d text n h. absurd h) a i
            l.entry none none x.content x.content x.content l.rest l.start ns there
            (ap (needed_password none) l.plain)
            (subst (λ m. Unpacks R L H (λ d text. ⊥) m x.content x.content) (sym l.method) refl)
            l.located l.content l.size (as_it_is l.not_aes) (inr l.checksum) nonzero enough in
        (file, read, ap (at_index R a none) at ∙ opens, all)

    -- What is written is read: from a new writer at the end of a file, `start_file`, `write_all` and
    -- `finish_file` for each of a list of entries, neither compressed nor encrypted, then the comment
    -- and `finish`, succeed and give a file. `ZipArchive::new` on this file, whatever stood before the
    -- archive and whatever the contents are, end records of other archives included, gives an
    -- archive, and `by_name` on it with the name of any of the entries opens the entry, of which
    -- reads into buffers that are not empty, as many as the content has bytes at least, give the
    -- content. The crates are as they are documented, a checksum has 32 bits, the writer's default
    -- moment is valid, what is written and what stood before are bytes, the names are UTF-8, shorter
    -- than 64 KiB and distinct, the numbers of the archive fit the end record without ZIP64, no end
    -- record parses behind the one that is written, and no ZIP64 locator parses right before it.
    pub write_archive-by_name :
        (crc32 : List ℕ → ℕ) (rfind_iter : Finder) (xs : List Item) (comment : List ℕ) (c : Cursor)
        (x : Item) (i : ℕ) (ns : List ℕ)
        → IsFinder rfind_iter
        → IsCrypto K.crypto
        → IsHashing hashing
        → ((h : hashing.Hasher) → hashing.finalize h < 2 ^ 32)
        → is_valid default_for_write ≡ true
        → IsDistinct xs
        → All IsItem xs
        → All AreBytes xs
        → All IsByte comment
        → All IsByte c.bytes
        → c.pos ≡ length c.bytes
        → c.pos + length (content_bytes K xs c.pos) < zip64_bytes_thr
        → IsSmall default_for_write
            (placed K xs c.pos)
            comment
            (c.pos + length (content_bytes K xs c.pos))
        → ((r : Zip32CentralDirectoryEnd × ℕ)
            → ParsesAt (file_bytes K xs comment c) r
            → r.1 ≤ end_position K xs comment c)
        → ((l : Zip64CentralDirectoryEndLocator)
            → ¬ (locator_at (file_bytes K xs comment c) (end_record K xs comment c) ≡ ok l))
        → get_elem? xs i ≡ some x
        → All (λ n. n ≢ 0) ns
        → length x.content ≤ length ns
        → (c' : Cursor) × (s : ZipWriter K) × (a : ZipArchive) × (file : ZipFile R)
          × (read : ZipFile R) × (write_archive K xs comment (new K c) ≡ some (ok c', s))
          × (new_archive crc32 rfind_iter c'.bytes ≡ some (ok a))
          × (by_name R a x.name ≡ (ok file, a))
          × (reads R ns file ≡ some (ok x.content, read))
    unfolding new_archive with_config
    write_archive-by_name crc32 rfind_iter xs comment c x i ns law L H word valid distinct v texts
          comment_bytes before at_end fits small last no_zip64 there nonzero enough =
        let bytes = file_bytes-IsByte K xs comment c before comment_bytes texts in
        let (s, written) =
          saved K xs comment c (archive_file K xs comment c) (behind_content K xs comment c).pos H
            distinct v (omega arith) fits
            (footer_written K xs comment c word valid v at_end fits small) in
        let metadata =
          get_metadata-session K xs comment c small bytes crc32 rfind_iter word valid v at_end fits
            law last no_zip64 in
        let listed =
          entry-IsListed K xs c.pos (directory_start K xs comment c) (file_bytes K xs comment c)
            (behind_directory_bytes K xs comment c) x i distinct (contents_stand K xs comment c)
            fits there in
        let (file, read, opens, all) =
          listed-by_name (opened_archive xs comment c) (shared_of K xs comment c) x ns L H refl
            listed nonzero enough in
        (
          archive_file K xs comment c,
          s,
          opened_archive xs comment c,
          file,
          read,
          written,
          rw (metadata, new_archive, with_config) refl,
          opens,
          all,
        )
