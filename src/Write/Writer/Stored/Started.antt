-- ===== src/Write/Writer/Stored/Started.antt =====
-- src/write.rs: `start_file` for an entry that is stored.
use native.Mathlib.Nat.{add-zero}
use zip.Prelude.{
  ℕ, ◌^◌, ◌<◌, ◌≡◌, ap, ◌∙◌, arith, Bool, false, Option, none, some, List, [], ◌∷◌, ◌++◌, length,
}
use zip.Result.{ok}
use zip.Cursor.{Cursor}
use zip.Spec.Records.{zip64_bytes_thr}
use zip.Types.DateTime.{DateTime}
use zip.Types.File.{ZipFileData, s_ifreg}
use zip.Types.File.Blocks.{local_block}
use zip.Types.File.Blocks.Readable.{local_header}
use zip.Write.Options.{FileOptions, normalize_options}
use zip.Write.State.{Environment, ZipWriterStats, map_last-append, bind_ok}
use zip.Write.Writer.Entry.{contains_key, new_file, add_entry, start_entry, start_file}
use zip.Write.Writer.Stored.{stored_options, inserted, idle, opened, first_file, headed, open_file}

local_block-inserted :
    (default_for_write : DateTime) (name : List ℕ) (time : DateTime) (permissions : Option ℕ)
    (header_start : ℕ)
    → length name < 2 ^ 16
    → header_start < zip64_bytes_thr
    → local_block default_for_write (inserted default_for_write name time permissions header_start)
      ≡ some (
          ok (
            local_header default_for_write
              (inserted default_for_write name time permissions header_start)))
unfolding local_block local_header new_file normalize_options zip.Types.File.Blocks.Readable.moment
local_block-inserted default_for_write name time permissions header_start short low = ground arith

module _ (K : Environment) where
  open K use {hashing, default_for_write}

  module _ (name : List ℕ) (time : DateTime) (permissions : Option ℕ) (c : Cursor) where
    added :
        (files : List ZipFileData) (stats : ZipWriterStats K) (raw flush : Bool) (comment : List ℕ)
        → contains_key name files ≡ false
        → add_entry
            (normalize_options default_for_write (stored_options time permissions))
            (first_file K name time permissions c)
            []
            (some (ok (local_header default_for_write (first_file K name time permissions c))))
            (idle K c files stats raw comment flush)
          ≡ some (
            ok tt,
            record (opened K
                (headed K name time permissions c)
                (files ++ (open_file K name time permissions c) ∷ [])
                (headed K name time permissions c).pos
                comment
                flush) { writing_raw = raw },
          )
    unfolding add_entry new_file normalize_options
    added files stats raw flush comment new = rw new (simp (map_last-append, add-zero))

    pub started :
        (files : List ZipFileData) (stats : ZipWriterStats K) (raw flush : Bool) (comment : List ℕ)
        → contains_key name files ≡ false
        → length name < 2 ^ 16
        → c.pos < zip64_bytes_thr
        → start_file name (stored_options time permissions) (idle K c files stats raw comment flush)
          ≡ some (
            ok tt,
            opened K
                (headed K name time permissions c)
                (files ++ (open_file K name time permissions c) ∷ [])
                (headed K name time permissions c).pos
                comment
                flush,
          )
    unfolding start_file
    started files stats raw flush comment new short low =
        bind_ok (start_entry name normal none) _ (idle K c files stats raw comment flush) first
      where
        normal : FileOptions
        normal = normalize_options default_for_write (stored_options time permissions)

        first :
            start_entry name normal none (idle K c files stats raw comment flush)
            ≡ some (
              ok tt,
              record (opened K
                  (headed K name time permissions c)
                  (files ++ (open_file K name time permissions c) ∷ [])
                  (headed K name time permissions c).pos
                  comment
                  flush) { writing_raw = raw },
            )
        first =
            ap
              (λ o.
                add_entry normal (first_file K name time permissions c) [] o
                  (idle K c files stats raw comment flush))
              (local_block-inserted default_for_write name time permissions c.pos short low)
            ∙ added files stats raw flush comment new
