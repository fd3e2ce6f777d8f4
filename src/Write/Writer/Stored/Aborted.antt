-- ===== src/Write/Writer/Stored/Aborted.antt =====
-- src/write.rs: `abort_file`, asked for or behind a write beyond the limit, for an entry that is stored.
use zip.Prelude.{
  ℕ, ◌+◌, ◌^◌, ◌≤◌, ◌<◌, ◌≡◌, refl, ap, ◌∙◌, Bool, true, false, Option, none, some, List, [], ◌∷◌,
  ◌++◌, length, lt→ltb, suc,
}
use zip.Result.{ZipResult, ok, err, io, other}
use zip.Cursor.{Cursor, wrote}
use zip.Cursor.Write.{overwrite_reaches}
use zip.Spec.Records.{zip64_bytes_thr}
use zip.Types.DateTime.{DateTime}
use zip.Types.File.{ZipFileData}
use zip.Crc32.Checked.{IsHashing}
use zip.Write.Generic.{storer, unencrypted}
use zip.Write.State.{
  Environment, ZipWriter, ZipWriterStats, Action, ◌>>◌, bind_ok, ignore_error, get_last?,
  get_last?-append, drop_last-append,
}
use zip.Write.Writer.{
  update_stats, is_large, unless_large, all_start_before, rewind_safe, abort_file, abort_last,
  write, write_all, check_limit, slice_to, beyond_limit,
}
use zip.Write.Writer.Entry.{contains_key, start_file, new_file}
use zip.Write.Writer.Stored.{stored_options, idle, filled, headed, open_file}
use zip.Write.Writer.Stored.Started.{started}
use zip.Write.Writer.Stored.Written.{written, sliced, suc-ne-zero}

module _ (K : Environment) where
  open K use {hashing, default_for_write}

  -- A writer in the middle of an entry.
  abbrev busy : Cursor → List ZipFileData → ZipWriterStats K → List ℕ → Bool → ZipWriter K
  busy c files stats comment flush = record (idle K c files stats false comment flush) {
    writing_to_file = true;
  }

  pub aborted :
      (f : ZipFileData) (c : Cursor) (files : List ZipFileData) (stats : ZipWriterStats K)
      (comment : List ℕ) (flush : Bool) (start : ℕ)
      → f.data_start ≡ some start
      → all_start_before start files ≡ true
      → abort_file (busy c (files ++ f ∷ []) stats comment flush)
        ≡ some (ok tt, idle K (record c { pos = f.header_start }) files stats false comment flush)
  unfolding abort_file rewind_safe
  aborted f c files stats comment flush start at before =
      ap (λ o. abort_last o (busy c (files ++ f ∷ []) stats comment flush))
        (get_last?-append files f)
      ∙ rw (drop_last-append files f, at, before) refl

  module _ (name : List ℕ) (time : DateTime) (permissions : Option ℕ) (content : List ℕ)
      (c : Cursor) where
    -- An entry that is begun and given up.
    abbrev pub begin_and_abort : Action K (Unit {0})
    begin_and_abort = do
      start_file name (stored_options time permissions)
      write_all content
      abort_file

    -- Between two entries, `start_file` of a new name, `write_all` and then `abort_file`, for an
    -- entry that is neither compressed nor encrypted, succeed; the entries are those from before,
    -- no entry is being written, and the writer stands where it stood, ready to write over what
    -- it left there. The hasher is as it is documented, the content of each earlier entry starts
    -- before that of the aborted one, the name is shorter than 64 KiB, and the place and the
    -- content are within the ZIP64 threshold.
    pub begin_and_abort_lem :
        IsHashing hashing
        → (files : List ZipFileData) (stats : ZipWriterStats K) (raw flush : Bool)
        → (comment : List ℕ) → contains_key name files ≡ false
        → length name < 2 ^ 16
        → c.pos < zip64_bytes_thr
        → length content ≤ zip64_bytes_thr
        → all_start_before (headed K name time permissions c).pos files ≡ true
        → (s : ZipWriter K) × (begin_and_abort (idle K c files stats raw comment flush)
            ≡ some (ok tt, s))
          × (s.files ≡ files)
          × (s.writing_to_file ≡ false)
          × (s.inner
              ≡ storer (
                  unencrypted
                    (record (wrote content (headed K name time permissions c)) { pos = c.pos })))
    unfolding new_file
    begin_and_abort_lem H files stats raw flush comment new short low small before = (
      _,
      bind_ok (start_file name (stored_options time permissions)) _
            (idle K c files stats raw comment flush)
            (started K name time permissions c files stats raw flush comment new short low)
          ∙ bind_ok (write_all content) _ _ (
              written K H opening (files ++ open_file K name time permissions c ∷ []) opening.pos
                comment flush content (overwrite_reaches _ _ _) small)
          ∙ aborted (open_file K name time permissions c) (wrote content opening) files
              (filled K opening [] opening.pos comment flush content).stats comment flush
              opening.pos refl before,
      refl,
      refl,
      refl,
    )
      where
        opening : Cursor
        opening = headed K name time permissions c

  module _ (f : ZipFileData) (files : List ZipFileData) (comment : List ℕ) (flush : Bool)
      (start : ℕ) where
    -- Behind a write beyond the limit.
    given_up :
        (count : ℕ) (c : Cursor) (stats : ZipWriterStats K)
        → f.data_start ≡ some start
        → all_start_before start files ≡ true
        → f.large_file ≡ false
        → zip64_bytes_thr < stats.bytes_written
        → check_limit count (busy c (files ++ f ∷ []) stats comment flush)
          ≡ some (
            err (io (other "Large file option has not been set")),
            idle K (record c { pos = f.header_start }) files stats false comment flush,
          )
    unfolding check_limit
    given_up count c stats at before large beyond =
        ap (λ b. beyond_limit b count s) (lt→ltb zip64_bytes_thr stats.bytes_written beyond)
        ∙ bind_ok (is_large (get_last? (files ++ f ∷ []))) (λ l. unless_large l count) s
            (ap (λ o. is_large o s) (get_last?-append files f))
        ∙ ap (λ l. unless_large l count s) large
        ∙ bind_ok (ignore_error abort_file) _ s
            (ap (λ r. ignored r) (aborted f c files stats comment flush start at before))
      where
        s : ZipWriter K
        s = busy c (files ++ f ∷ []) stats comment flush

        ignored :
            Option (ZipResult (Unit {0}) × ZipWriter K)
            → Option (ZipResult (Unit {0}) × ZipWriter K)
        ignored none = none
        ignored (some (r, s')) = some (ok tt, s')

    -- A `write` of a stored entry that is not marked as large, which takes its content beyond the
    -- ZIP64 threshold, gives the error and aborts the entry: it is no longer among the entries,
    -- no entry is being written, and the writer stands at the entry's header. The content of each
    -- earlier entry starts before that of this one.
    pub write-beyond :
        (b : ℕ) (bs : List ℕ) (c : Cursor) (stats : ZipWriterStats K)
        → f.data_start ≡ some start
        → all_start_before start files ≡ true
        → f.large_file ≡ false
        → zip64_bytes_thr < stats.bytes_written + length (b ∷ bs)
        → write (b ∷ bs) (busy c (files ++ f ∷ []) stats comment flush)
          ≡ some (
            err (io (other "Large file option has not been set")),
            idle K
                (record (wrote (b ∷ bs) c) { pos = f.header_start })
                files
                (update_stats (b ∷ bs) stats)
                false
                comment
                flush,
          )
    unfolding write update_stats
    write-beyond b bs c stats at before large beyond = rw (suc-ne-zero K (length bs)) (
        bind_ok (slice_to (suc (length bs)) (b ∷ bs)) _
          (busy (wrote (b ∷ bs) c) (files ++ f ∷ []) stats comment flush) (sliced K (b ∷ bs) _)
        ∙ given_up (suc (length bs)) (wrote (b ∷ bs) c) (update_stats (b ∷ bs) stats) at before
            large beyond)
