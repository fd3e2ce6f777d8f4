-- ===== src/Write/Writer/Close.antt =====
-- src/write.rs: a `ZipWriter` at its start and at its end: `new`, `new_append_with_config`, the comment,
-- `finalize`, `finish`, `finish_into_readable` and `drop`; with `SharedBuilder::build` and
-- `from_finalized_writer` of src/read.rs.
use zip.Prelude.{ℕ, Bool, true, false, not, ◌&&◌, Option, none, some, List, []}
use zip.Result.{ZipResult, ok, err, invalid_archive}
use zip.Cursor.{Cursor}
use zip.Spec.Find.{Finder}
use zip.Spec.Zip32End.{Zip32CentralDirectoryEnd}
use zip.Read.Config.{Config}
use zip.Read.Metadata.{SharedBuilder, get_metadata}
use zip.Read.Archive.{ZipArchive, build, from_finalized_writer}
use zip.Write.Footer.{finalize_footer}
use zip.Write.Generic.{storer, unencrypted, closed, get_plain, is_closed}
use zip.Write.State.{
  Environment, ZipWriter, ZipWriterStats, Action, ◌>>=◌, ◌>>◌, gets, modify, on_plain,
}
use zip.Write.Writer.{finish_file}

module _ (K : Environment) where
  open K use {hashing}

  abbrev pub no_stats : ZipWriterStats K
  no_stats = record { hasher = hashing.new_hasher; start = 0; bytes_written = 0 }

  unfoldable pub new : Cursor → ZipWriter K
  new inner = record {
    inner = storer (unencrypted inner);
    files = [];
    stats = no_stats;
    writing_to_file = false;
    writing_raw = false;
    comment = [];
    flush_on_finish_file = false;
  }

  -- The writer of an archive that is read; the reader stands at its directory.
  unfoldable pub appending : List ℕ → Zip32CentralDirectoryEnd × SharedBuilder → ZipWriter K
  unfolding build
  appending file (footer, shared) = record {
    inner = storer (unencrypted (record { bytes = file; pos = shared.dir_start }));
    files = build shared;
    stats = no_stats;
    writing_to_file = false;
    writing_raw = true;
    comment = footer.zip_file_comment;
    flush_on_finish_file = false;
  }

  unfoldable pub new_append_with_config :
      Finder → Config → List ℕ → Option (ZipResult (ZipWriter K))
  unfolding get_metadata appending
  new_append_with_config rfind_iter config file =
      elim (get_metadata K.crc32_of rfind_iter config file) [
        | none ↦ none
        | some r ↦ elim r [
          | ok found ↦ some (ok (appending file found))
          | err e ↦ some (err (invalid_archive "No central-directory end header found"))
        ]
      ]

module _ {K : Environment} where
  open K use {crypto, encoders, default_for_write}

  unfoldable pub is_writing_file : ZipWriter K → Bool
  is_writing_file s = s.writing_to_file && not (is_closed crypto encoders s.inner)

  abbrev pub set_raw_comment : List ℕ → Action K (Unit {0})
  set_raw_comment comment = modify (λ s. record s { comment = comment })

  unfoldable pub finalize : Action K ℕ
  unfolding finish_file on_plain finalize_footer
  finalize = do
    finish_file
    files ← gets (λ s. s.files)
    comment ← gets (λ s. s.comment)
    on_plain (finalize_footer default_for_write files comment)

  -- `mem::replace` and `unwrap`.
  abbrev take_inner : Action K Cursor
  take_inner s = elim (get_plain crypto encoders s.inner) [
    | none ↦ none
    | some c ↦ some (ok c, record s { inner = closed })
  ]

  unfoldable pub finish : Action K Cursor
  unfolding finalize
  finish = do finalize; take_inner

  unfoldable pub finish_into_readable : Action K ZipArchive
  unfolding finalize from_finalized_writer
  finish_into_readable = do
    central_start ← finalize
    inner ← take_inner
    comment ← gets (λ s. s.comment)
    files ← gets (λ s. s.files)
    modify (λ s. record s { comment = []; files = [] })
    λ s. some (ok (from_finalized_writer files comment inner central_start), s)

  -- `Drop`: an error is only printed. What is left is the writer before its fields are dropped.
  unfoldable pub drop_writer : ZipWriter K → Option (ZipWriter K)
  unfolding finalize
  drop_writer s = elim (is_closed crypto encoders s.inner) [
    | true ↦ some s
    | false ↦ elim (finalize s) [ none ↦ none | some (r, s') ↦ some s' ]
  ]
