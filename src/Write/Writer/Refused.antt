-- ===== src/Write/Writer/Refused.antt =====
-- src/write.rs: `start_file` on a name that is in the archive.
use zip.Prelude.{
  ℕ, ◌^◌, ◌<◌, ◌≡◌, refl, ap, ◌∙◌, Bool, true, false, none, some, List, length, inl, inr,
}
use zip.Result.{ok, err, ZipResult, invalid_archive}
use zip.Cursor.{Cursor}
use zip.Types.File.{ZipFileData}
use zip.Types.Headers.{ZipLocalEntryBlock}
use zip.Types.File.Blocks.Readable.{local_block_total}
use zip.Write.Options.{FileOptions, extra_data, normalize_options}
use zip.Write.Generic.{SwitchWriterFunction, writer_for, prepare_next_writer}
use zip.Write.State.{
  Environment, ZipWriter, ZipWriterStats, Action, ◌>>=◌, ◌>>◌, bind_ok, bind_err, prepare, try,
  switch, modify,
}
use zip.Write.Writer.{finish_file, ok_or_abort_file}
use zip.Write.Writer.Entry.{
  contains_key, new_file, add_entry, start_entry, start_file, insert_file_data, with_aes_extra_data,
  or_empty,
}
use zip.Write.Writer.Stored.{idle}

module _ (K : Environment) where
  open K use {crypto, encoders, hashing, default_for_write}

  module _ (c : Cursor) (files : List ZipFileData) (stats : ZipWriterStats K) (raw flush : Bool)
      (comment : List ℕ) (name : List ℕ) (there : contains_key name files ≡ true)
      (short : length name < 2 ^ 16) where
    abbrev s : ZipWriter K
    s = idle K c files stats raw comment flush

    not_added :
        (options : FileOptions) (f : ZipFileData) (extra : List ℕ)
        (b : ZipResult ZipLocalEntryBlock)
        → contains_key f.file_name files ≡ true
        → add_entry options f extra (some b) s
          ≡ some (err (invalid_archive "Duplicate filename"), s)
    unfolding add_entry insert_file_data
    not_added options f extra b h = rw h refl

    not_started :
        (options : FileOptions)
        → start_entry name options none s ≡ some (err (invalid_archive "Duplicate filename"), s)
    unfolding start_entry finish_file new_file
    not_started options = elim (local_block_total default_for_write f short) [
      | inl (b, e) ↦
          ap (λ o. add_entry options f extra.0 o s) e ∙ not_added options f extra.0 (ok b) there
      | inr (long, e) ↦
          ap (λ o. add_entry options f extra.0 o s) e ∙ not_added options f extra.0 (err _) there
    ]
      where
        extra : List ℕ × ℕ
        extra =
            with_aes_extra_data options.encrypt_with
              (or_empty (extra_data options.extended_options))

        f : ZipFileData
        f = new_file name options none c.pos extra

    -- Between two entries, `start_file` of a name that is in the archive gives the error
    -- `Duplicate filename` and leaves the writer and the file as they were, for any options whose
    -- method and level there is a writer for, and a name shorter than 64 KiB.
    pub start_file-duplicate :
        (options : FileOptions) (make_new_self : SwitchWriterFunction crypto encoders)
        → writer_for crypto encoders options.compression_method options.compression_level
            options.zopfli_buffer_size
          ≡ ok make_new_self
        → start_file name options s ≡ some (err (invalid_archive "Duplicate filename"), s)
    unfolding start_file prepare prepare_next_writer
    start_file-duplicate options make_new_self h =
        bind_ok
          (prepare options.compression_method options.compression_level options.zopfli_buffer_size)
          (λ make. start_entry name normal none >> opened make) s (ap (λ r. some (r, s)) h)
        ∙ bind_err (start_entry name normal none) (λ _. opened make_new_self) s (not_started normal)
      where
        normal : FileOptions
        normal = normalize_options default_for_write options

        opened : SwitchWriterFunction crypto encoders → Action K (Unit {0})
        opened make = do
          result ← try (switch make)
          ok_or_abort_file result
          modify (λ s. record s { writing_raw = false })
