-- ===== src/Write/Writer/Names/Reached.antt =====
-- src/write.rs: the states that a `ZipWriter` reaches by calls of its methods, in any order and whatever
-- they return.
use zip.Prelude.{ℕ, ◌≡◌, refl, subst, Option, none, some, List, []}
use zip.Result.{ZipResult, ok, err}
use zip.Cursor.{Cursor}
use zip.Spec.Zip32End.{Zip32CentralDirectoryEnd}
use zip.Read.Metadata.{SharedBuilder}
use zip.Types.File.{ZipFileData}
use zip.Write.Footer.{finalize_footer}
use zip.Write.Options.{FileOptions}
use zip.Write.State.{Environment, ZipWriter, Action, gets}
use zip.Write.State.Keeps.{Any, Holds, Keeps->>=, Keeps->>, Keeps-gets, Keeps-on_plain}
use zip.Write.Writer.{write, abort_file, finish_file}
use zip.Write.Writer.Entry.{start_file, add_directory, add_symlink}
use zip.Write.Writer.Copy.{
  ZipArchive, shallow_copy_file, deep_copy_file, raw_copy_file_rename, merge_archive,
}
use zip.Write.Writer.Close.{new, appending, set_raw_comment, finalize}
use zip.Write.Writer.Names.{NamesDistinct, NamesDistinct-extend}
use zip.Write.Writer.Names.Kept.{finish_file-Keeps, abort_file-Keeps, Keeps-beside}
use zip.Write.Writer.Names.Write.{Kept, write-Kept}
use zip.Write.Writer.Names.Entry.{start_file-Kept, add_directory-Kept, add_symlink-Kept}
use zip.Write.Writer.Names.Copies.{
  shallow_copy_file-Kept, deep_copy_file-Kept, raw_copy_file_rename-Kept, merge_archive-Kept,
}

-- A call of a method with its arguments.
pub data Call : Type 0 where
  starts_file : (name : List ℕ) → FileOptions → Call
  adds_directory : (name : List ℕ) → FileOptions → Call
  adds_symlink : (name target : List ℕ) → FileOptions → Call
  writes : (buf : List ℕ) → Call
  aborts_file : Call
  shallow_copies : (src_name dest_name : List ℕ) → Call
  deep_copies : (src_name dest_name : List ℕ) → Call
  raw_copies : ZipFileData → (raw : List (List ℕ)) → (name : List ℕ) → Call
  merges : ZipArchive → Call
  sets_comment : (comment : List ℕ) → Call
  finalizes : Call

module _ {K : Environment} where
  open K use {default_for_write}

  -- The state behind a call, which may have returned an error; `none` is a panic.
  abbrev pub state_of : {A : Type 0} → Option (ZipResult A × ZipWriter K) → Option (ZipWriter K)
  state_of none = none
  state_of (some (r, s)) = some s

  unfoldable pub run : Call → ZipWriter K → Option (ZipWriter K)
  unfolding start_file add_directory add_symlink write abort_file shallow_copy_file deep_copy_file
      raw_copy_file_rename merge_archive finalize
  run (starts_file name options) s = state_of (start_file name options s)
  run (adds_directory name options) s = state_of (add_directory name options s)
  run (adds_symlink name target options) s = state_of (add_symlink name target options s)
  run (writes buf) s = state_of (write buf s)
  run aborts_file s = state_of (abort_file s)
  run (shallow_copies src_name dest_name) s = state_of (shallow_copy_file src_name dest_name s)
  run (deep_copies src_name dest_name) s = state_of (deep_copy_file src_name dest_name s)
  run (raw_copies file raw name) s = state_of (raw_copy_file_rename file raw name s)
  run (merges source) s = state_of (merge_archive source s)
  run (sets_comment comment) s = state_of (set_raw_comment comment s)
  run finalizes s = state_of (finalize s)

  -- A writer of a new archive, or of one that was read.
  pub data Begins : ZipWriter K → Type 0 where
    fresh : (c : Cursor) → Begins (new K c)
    opened :
        (file : List ℕ) (found : Zip32CentralDirectoryEnd × SharedBuilder)
        → Begins (appending K file found)

  pub data Reached (s : ZipWriter K) : ZipWriter K → Type 0 where
    begin : Reached s s
    then_call : {t u : ZipWriter K} (c : Call) → Reached s t → run c t ≡ some u → Reached s u

  carried :
      {A : Type 0} (m : Action K A)
      → Kept m
      → (s u : ZipWriter K) → NamesDistinct s.files
      → state_of (m s) ≡ some u
      → NamesDistinct u.files
  carried {A} m h s u d e = go (m s) (h.holds s d) e
    where
      go :
          (o : Option (ZipResult A × ZipWriter K))
          → Holds NamesDistinct Any o
          → state_of o ≡ some u
          → NamesDistinct u.files
      go none p e = absurd cc
      go (some (ok a, t)) (p, r) e =
          let same : t ≡ u = cc in subst (λ t. NamesDistinct t.files) same p
      go (some (err x, t)) p e = let same : t ≡ u = cc in subst (λ t. NamesDistinct t.files) same p

  finalize-Kept : Kept {K = K} finalize
  unfolding finalize
  finalize-Kept = Keeps->> NamesDistinct finish_file _ finish_file-Keeps (
      Keeps->>= NamesDistinct (gets (λ s. s.files)) _ (Keeps-gets NamesDistinct (λ s. s.files))
        (λ files _.
          Keeps->>= NamesDistinct (gets (λ s. s.comment)) _
            (Keeps-gets NamesDistinct (λ s. s.comment))
            (λ comment _.
              Keeps-on_plain NamesDistinct (finalize_footer default_for_write files comment))))

  run-NamesDistinct :
      (c : Call) (s u : ZipWriter K)
      → NamesDistinct s.files
      → run c s ≡ some u
      → NamesDistinct u.files
  unfolding run
  run-NamesDistinct (starts_file name options) =
      carried (start_file name options) (start_file-Kept name options)
  run-NamesDistinct (adds_directory name options) =
      carried (add_directory name options) (add_directory-Kept name options)
  run-NamesDistinct (adds_symlink name target options) =
      carried (add_symlink name target options) (add_symlink-Kept name target options)
  run-NamesDistinct (writes buf) = carried (write buf) (write-Kept buf)
  run-NamesDistinct aborts_file = carried abort_file abort_file-Keeps
  run-NamesDistinct (shallow_copies src_name dest_name) =
      carried (shallow_copy_file src_name dest_name) (shallow_copy_file-Kept src_name dest_name)
  run-NamesDistinct (deep_copies src_name dest_name) =
      carried (deep_copy_file src_name dest_name) (deep_copy_file-Kept src_name dest_name)
  run-NamesDistinct (raw_copies file raw name) =
      carried (raw_copy_file_rename file raw name) (raw_copy_file_rename-Kept file raw name)
  run-NamesDistinct (merges source) = carried (merge_archive source) (merge_archive-Kept source)
  run-NamesDistinct (sets_comment comment) =
      carried (set_raw_comment comment)
        (Keeps-beside NamesDistinct (λ s. record s { comment = comment }) (λ s. refl))
  run-NamesDistinct finalizes = carried finalize finalize-Kept

  begins-NamesDistinct : (s : ZipWriter K) → Begins s → NamesDistinct s.files
  unfolding NamesDistinct new appending
  begins-NamesDistinct s (fresh c) = tt
  begins-NamesDistinct s (opened file (footer, shared)) = NamesDistinct-extend shared.files [] tt

  -- From a new writer, or one of an archive that was read, in every state that is reached by
  -- calls of `start_file`, `add_directory`, `add_symlink`, `write`, `abort_file`,
  -- `shallow_copy_file`, `deep_copy_file`, `raw_copy_file_rename`, `merge_archive`,
  -- `set_raw_comment` and `finalize`, in any order, with any arguments and whether they return an
  -- error or not, no two entries have the same name.
  pub Reached-NamesDistinct : {s t : ZipWriter K} → Begins s → Reached s t → NamesDistinct t.files
  Reached-NamesDistinct {s} b begin = begins-NamesDistinct s b
  Reached-NamesDistinct {s} b (then_call {t} {u} c r e) =
      run-NamesDistinct c t u (Reached-NamesDistinct b r) e
