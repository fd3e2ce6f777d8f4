-- ===== src/Write/Writer/Session/Readable.antt =====
-- src/write.rs and src/read.rs: from `ZipWriter::new` over `finish_into_readable` to the content of an
-- entry that is read by its name.
use zip.Prelude.{
  Option, ℕ, ◌+◌, ◌^◌, ◌≤◌, ◌<◌, ◌≡◌, ◌≢◌, refl, ap, ◌∙◌, arith, true, false, inr, none, some, List,
  [], length, All, get_elem?,
}
use zip.Result.{ok}
use zip.Cursor.{Cursor}
use zip.Spec.Records.{zip64_bytes_thr}
use zip.Types.DateTime.{is_valid}
use zip.Compression.{CompressionMethod}
use zip.Aes.{IsCrypto}
use zip.Crc32.{IoResult}
use zip.Crc32.Checked.{IsHashing}
use zip.Read.Content.{Crates, CryptoReader, ZipFile}
use zip.Read.Content.Whole.{reads}
use zip.Read.Content.Opened.{as_it_is}
use zip.Read.Archive.{ZipArchive, from_finalized_writer, by_name, at_index, needed_password}
use zip.Read.Archive.Opened.{by_index_with_optional_password-reads}
use zip.Write.Footer.{finalize_footer}
use zip.Write.Footer.Written.{IsSmall}
use zip.Write.Generic.{closed}
use zip.Write.Options.{normalize_options}
use zip.Write.State.{Environment, ZipWriter, Action, ◌>>◌, bind_ok}
use zip.Write.Writer.{finish_file}
use zip.Write.Writer.Entry.{new_file}
use zip.Write.Writer.Close.{new, no_stats, set_raw_comment, finalize, finish_into_readable}
use zip.Write.Writer.Stored.{idle, stored_file}
use zip.Write.Writer.Stored.Finished.{on_plain_ok}
use zip.Write.Writer.Session.{
  Item, IsDistinct, save, save_lem, content_bytes, placed, files_of, stats_behind, raw_behind,
}
use zip.Write.Writer.Session.Headers.{IsItem}
use zip.Write.Writer.Session.Places.{entry-Stands, index_of_item}
use zip.Write.Writer.Session.Archive.{
  All-new, short, behind_content, archive_file, behind_directory_bytes, contents_stand,
  footer_written,
}

module _ (K : Environment) where
  open K use {hashing, default_for_write}

  -- A whole archive, as it can be read.
  unfoldable pub write_readable : List Item → List ℕ → Action K ZipArchive
  unfolding save finish_into_readable
  write_readable items comment = do save K items; set_raw_comment comment; finish_into_readable

  module _ (xs : List Item) (comment : List ℕ) (c : Cursor) where
    abbrev archive_of : ZipArchive
    archive_of =
        from_finalized_writer (files_of K xs c.pos) comment (archive_file K xs comment c)
          (behind_content K xs comment c).pos

    abbrev saved_state : List ℕ → ZipWriter K
    saved_state comment =
        idle K (behind_content K xs comment c) (files_of K xs c.pos)
          (stats_behind K xs c.pos (no_stats K)) (raw_behind K xs false) comment false

    made_readable :
        finalize_footer default_for_write
            (files_of K xs c.pos)
            comment
            (behind_content K xs comment c)
          ≡ some (ok (behind_content K xs comment c).pos, archive_file K xs comment c)
        → (s : ZipWriter K) × (finish_into_readable (saved_state comment) ≡ some (ok archive_of, s))
    unfolding finish_into_readable finalize finish_file
    made_readable h = (
      record (saved_state comment) { inner = closed; files = []; comment = [] },
      bind_ok finalize _ (saved_state comment) (
          on_plain_ok K (finalize_footer default_for_write (files_of K xs c.pos) comment)
            (saved_state comment) (behind_content K xs comment c) refl h),
    )

    saved_readable :
        IsHashing hashing
        → IsDistinct xs
        → All IsItem xs
        → c.pos ≤ length c.bytes
        → c.pos + length (content_bytes K xs c.pos) < zip64_bytes_thr
        → finalize_footer default_for_write
            (files_of K xs c.pos)
            comment
            (behind_content K xs comment c)
          ≡ some (ok (behind_content K xs comment c).pos, archive_file K xs comment c)
        → (s : ZipWriter K) × (write_readable xs comment (new K c) ≡ some (ok archive_of, s))
    unfolding write_readable new
    saved_readable H distinct v inside fits h =
        let (s, done) = made_readable h in
        (
          s,
          bind_ok (save K xs) _ (idle K c [] (no_stats K) false [] false) (
                save_lem K H xs c [] (no_stats K) false false [] (All-new xs) distinct (short xs v)
                  inside fits)
              ∙ done,
        )

  module _ (Decoder : Type 0) (new_decoder : CompressionMethod → CryptoReader K.crypto → Decoder)
      (new_zstd_decoder : CryptoReader K.crypto → Option Decoder)
      (decode : Decoder → ℕ → IoResult (List ℕ) × Decoder) where
    -- The crates that the writer uses, and decoders.
    abbrev pub reading : Crates
    reading = record {
      crypto = K.crypto;
      hashing = hashing;
      Decoder = Decoder;
      new_decoder = new_decoder;
      new_zstd_decoder = new_zstd_decoder;
      decode = decode;
    }

    -- What is written is read: from a new writer at the end of a file, `start_file`, `write_all` and
    -- `finish_file` for each of a list of entries, neither compressed nor encrypted, then the comment and
    -- `finish_into_readable`, succeed and give an archive. `by_name` on it with the name of any of
    -- them opens the entry, and reads into buffers that are not empty, as many as the content has
    -- bytes at least, give the content. The crates are as they are documented, a checksum has 32
    -- bits, the writer's default moment is valid, the names are UTF-8, shorter than 64 KiB and
    -- distinct, and the numbers of the archive fit the end record without ZIP64.
    pub write_readable-by_name :
        (xs : List Item) (comment : List ℕ) (c : Cursor) (x : Item) (i : ℕ) (ns : List ℕ)
        → IsCrypto K.crypto
        → IsHashing hashing
        → ((h : hashing.Hasher) → hashing.finalize h < 2 ^ 32)
        → is_valid default_for_write ≡ true
        → IsDistinct xs
        → All IsItem xs
        → c.pos ≡ length c.bytes
        → c.pos + length (content_bytes K xs c.pos) < zip64_bytes_thr
        → IsSmall default_for_write
            (placed K xs c.pos)
            comment
            (c.pos + length (content_bytes K xs c.pos))
        → get_elem? xs i ≡ some x
        → All (λ n. n ≢ 0) ns
        → length x.content ≤ length ns
        → (a : ZipArchive) × (s : ZipWriter K) × (file : ZipFile reading) × (read : ZipFile reading)
          × (write_readable xs comment (new K c) ≡ some (ok a, s))
          × (by_name reading a x.name ≡ (ok file, a))
          × (reads reading ns file ≡ some (ok x.content, read))
    unfolding by_name new_file normalize_options from_finalized_writer needed_password
    write_readable-by_name xs comment c x i ns L H word valid distinct v at_end fits small there
          nonzero enough =
        let a = archive_of xs comment c in
        let (s, written) =
          saved_readable xs comment c H distinct v (omega arith) fits
            (footer_written K xs comment c word valid v at_end fits small) in
        let e =
          entry-Stands K xs c.pos a.reader.bytes (behind_directory_bytes K xs comment c) x i
            (contents_stand K xs comment c) there in
        let f = stored_file K x.name x.time x.permissions x.content e.start in
        let (file, read, opens, all) =
          by_index_with_optional_password-reads reading L H (λ d text. ⊥) (λ d text n h. absurd h) a
            i f none none x.content x.content x.content e.rest (e.start + 30 + length x.name) ns
            e.there refl refl refl e.content refl (as_it_is refl) (inr refl) nonzero enough in
        (
          a,
          s,
          file,
          read,
          written,
          ap (at_index reading a none) (index_of_item K xs c.pos x i distinct there) ∙ opens,
          all,
        )
