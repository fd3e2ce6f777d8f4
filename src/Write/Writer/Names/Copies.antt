-- ===== src/Write/Writer/Names/Copies.antt =====
-- src/write.rs: the names of the entries under the copies and `merge_archive`.
use zip.Prelude.{
  ℕ, ◌+◌, ◌-◌, ◌≡◌, refl, sym, subst, ◌∙◌, Bool, true, false, ◌||◌, ◌%◌, ◌^◌, ltb, Bool-cases, inl,
  inr, if◌then◌else◌, Option, none, some, List, [], ◌∷◌,
}
use zip.Result.{ZipResult, ok, err, invalid_archive}
use zip.Types.File.{ZipFileData}
use zip.Write.Monad as File
use zip.Write.State.{Environment, Action, ◌>>=◌, throw, lift, gets, modify, on_plain, try}
use zip.Write.State.Keeps.{
  Keeps, Any, Keeps->>=, Keeps->>, Keeps-pure, Keeps-throw, Keeps-gets, Keeps-modify, Keeps-try,
  Keeps-on_plain,
}
use zip.Write.Writer.{finish_file, ok_or_abort_file, write_all}
use zip.Write.Writer.Entry.{insert_file_data, contains_key, start_entry}
use zip.Write.Writer.Names.{NamesDistinct}
use zip.Write.Writer.Names.Kept.{finish_file-Keeps, ok_or_abort_file-Keeps, Keeps-beside}
use zip.Write.Writer.Names.Write.{Kept, write_all-Kept}
use zip.Write.Writer.Names.Entry.{start_entry-Kept, insert_file_data-Kept}
use zip.Write.Writer.Names.{NamesDistinct-map_named, NamesDistinct-extend}
use zip.Write.Writer.Copy.{
  file_by_name, map_named, deep_copy_options, raw_copy_options, raw_values_of, reading, ZipArchive,
  merge_contents, shallow_copy_file, writing_raw_file, unwrap_start, deep_copy, deep_copy_file,
  copy_pieces, raw_copy_file_rename, merge_archive,
}
use zip.Read.Header.{find_content}
use zip.Write.Writer.Entry.{same_name}

-- The entry that is found has the name.
abbrev Named : List ℕ → ZipFileData → Type 0
Named name f = same_name name f.file_name ≡ true

abbrev AllNamed : List ℕ → ZipResult ZipFileData → Type 0
AllNamed name r = (f : ZipFileData) → r ≡ ok f → Named name f

file_by_name-Named :
    (name : List ℕ) (files : List ZipFileData) → AllNamed name (file_by_name name files)
file_by_name-Named name [] f e = absurd cc
file_by_name-Named name (g ∷ files) f e = elim (Bool-cases (same_name name g.file_name)) [
  | inl h ↦
      let first : file_by_name name (g ∷ files) ≡ ok g = rw h refl in
      let same : g ≡ f = cc (first, e) in subst (Named name) same h
  | inr h ↦
      let later : file_by_name name (g ∷ files) ≡ file_by_name name files = rw h refl in
      file_by_name-Named name files f (sym later ∙ e)
]

module _ {K : Environment} where
  open K use {default_for_write}

  find-Keeps :
      (name : List ℕ)
      → Keeps {K = K} NamesDistinct (AllNamed name) (gets (λ s. file_by_name name s.files))
  find-Keeps name = record { holds = λ s d. (d, file_by_name-Named name s.files) }

  lift-Keeps :
      (name : List ℕ) (r : ZipResult ZipFileData)
      → AllNamed name r
      → Keeps {K = K} NamesDistinct (Named name) (lift r)
  lift-Keeps name (ok f) h = record { holds = λ s d. (d, h f refl) }
  lift-Keeps name (err e) h = record { holds = λ s d. d }

  writing_raw_file-Kept : Kept {K = K} writing_raw_file
  writing_raw_file-Kept =
      Keeps-beside NamesDistinct (λ s. record s { writing_to_file = true; writing_raw = true })
        (λ s. refl)

  pub shallow_copy_file-Kept :
      (src_name dest_name : List ℕ) → Kept {K = K} (shallow_copy_file src_name dest_name)
  unfolding shallow_copy_file
  shallow_copy_file-Kept src_name dest_name =
      Keeps->>= NamesDistinct finish_file _ finish_file-Keeps
        (λ _ _. go (same_name src_name dest_name))
    where
      go :
          (b : Bool)
          → Kept {K = K} (elim b as (λ _. Action K (Unit {0})) [
            | true ↦ throw (invalid_archive "Trying to copy a file to itself")
            | false ↦ do
              found ← gets (λ s. file_by_name src_name s.files)
              f ← lift found
              insert_file_data (record f { file_name = dest_name; file_name_raw = dest_name })
          ])
      go true = Keeps-throw NamesDistinct Any (invalid_archive "Trying to copy a file to itself")
      go false =
          Keeps->>= NamesDistinct (gets (λ s. file_by_name src_name s.files)) _
            (find-Keeps src_name)
            (λ found h. Keeps->>= NamesDistinct (lift found) _ (lift-Keeps src_name found h) (λ f _.
              insert_file_data-Kept
                (record f { file_name = dest_name; file_name_raw = dest_name })))

  unwrap_start-Kept : (o : Option ℕ) → Kept {K = K} (unwrap_start o)
  unwrap_start-Kept none = record { holds = λ s d. tt }
  unwrap_start-Kept (some n) = record { holds = λ s d. (d, tt) }

  deep_copy-Kept :
      (src_name dest_name : List ℕ) (write_position : ℕ) (f : ZipFileData)
      → Named src_name f
      → Kept {K = K} (deep_copy src_name dest_name write_position f)
  unfolding deep_copy
  deep_copy-Kept src_name dest_name write_position f named =
      Keeps->>= NamesDistinct (unwrap_start f.data_start) _ (unwrap_start-Kept f.data_start)
        (λ start _.
          let available = (write_position + 2 ^ 64 - start) % 2 ^ 64 in
          let size = if ltb available f.compressed_size then available else f.compressed_size in
          let src = record f { compressed_size = size } in
          Keeps->> NamesDistinct
            (modify (λ s. record s { files = map_named src_name (λ _. src) s.files })) _
            (Keeps-modify NamesDistinct _
              (λ s d. NamesDistinct-map_named src_name src named s.files d))
            (Keeps->>= NamesDistinct (on_plain (reading (find_content src))) _
              (Keeps-on_plain NamesDistinct (reading (find_content src)))
              (λ found _.
                Keeps->> NamesDistinct (on_plain (File.seek_start write_position)) _
                  (Keeps-on_plain NamesDistinct (File.seek_start write_position))
                  (Keeps->> NamesDistinct
                    (start_entry dest_name (deep_copy_options default_for_write src)
                      (some (raw_values_of src size)))
                    _
                    (start_entry-Kept dest_name (deep_copy_options default_for_write src)
                      (some (raw_values_of src size)))
                    (Keeps->> NamesDistinct writing_raw_file _ writing_raw_file-Kept (
                      Keeps->>= NamesDistinct (try (write_all found.0)) _
                        (Keeps-try NamesDistinct (write_all found.0) (write_all-Kept found.0))
                        (λ r _.
                          Keeps->> NamesDistinct (ok_or_abort_file r) _ (ok_or_abort_file-Keeps r)
                            finish_file-Keeps)))))))

  pub deep_copy_file-Kept :
      (src_name dest_name : List ℕ) → Kept {K = K} (deep_copy_file src_name dest_name)
  unfolding deep_copy_file
  deep_copy_file-Kept src_name dest_name =
      Keeps->>= NamesDistinct finish_file _ finish_file-Keeps (λ _ _.
        Keeps->>= NamesDistinct
          (gets (λ s. same_name src_name dest_name || contains_key dest_name s.files)) _
          (Keeps-gets NamesDistinct
            (λ s. same_name src_name dest_name || contains_key dest_name s.files))
          (λ there _. go there))
    where
      go :
          (b : Bool)
          → Kept {K = K} (elim b as (λ _. Action K (Unit {0})) [
            | true ↦ throw (invalid_archive "That file already exists")
            | false ↦ do
              write_position ← on_plain File.stream_position
              found ← gets (λ s. file_by_name src_name s.files)
              f ← lift found
              deep_copy src_name dest_name write_position f
          ])
      go true = Keeps-throw NamesDistinct Any (invalid_archive "That file already exists")
      go false =
          Keeps->>= NamesDistinct (on_plain File.stream_position) _
            (Keeps-on_plain NamesDistinct File.stream_position)
            (λ at _.
              Keeps->>= NamesDistinct (gets (λ s. file_by_name src_name s.files)) _
                (find-Keeps src_name)
                (λ found h.
                  Keeps->>= NamesDistinct (lift found) _ (lift-Keeps src_name found h)
                    (λ f named. deep_copy-Kept src_name dest_name at f named)))

  copy_pieces-Kept : (pieces : List (List ℕ)) → Kept {K = K} (copy_pieces pieces)
  unfolding copy_pieces
  copy_pieces-Kept [] = Keeps-pure NamesDistinct Any tt tt
  copy_pieces-Kept (piece ∷ pieces) =
      Keeps->> NamesDistinct (write_all piece) _ (write_all-Kept piece) (copy_pieces-Kept pieces)

  pub raw_copy_file_rename-Kept :
      (file : ZipFileData) (raw : List (List ℕ)) (name : List ℕ)
      → Kept {K = K} (raw_copy_file_rename file raw name)
  unfolding raw_copy_file_rename
  raw_copy_file_rename-Kept file raw name =
      Keeps->> NamesDistinct
        (start_entry name (raw_copy_options default_for_write file)
          (some (raw_values_of file file.compressed_size)))
        _
        (start_entry-Kept name (raw_copy_options default_for_write file)
          (some (raw_values_of file file.compressed_size)))
        (Keeps->> NamesDistinct writing_raw_file _ writing_raw_file-Kept (copy_pieces-Kept raw))

  pub merge_archive-Kept : (source : ZipArchive) → Kept {K = K} (merge_archive source)
  unfolding merge_archive
  merge_archive-Kept source = Keeps->> NamesDistinct finish_file _ finish_file-Keeps (
      Keeps->> NamesDistinct writing_raw_file _ writing_raw_file-Kept (
        Keeps->>= NamesDistinct (on_plain (merge_contents source)) _
          (Keeps-on_plain NamesDistinct (merge_contents source))
          (λ new_files _.
            Keeps-modify NamesDistinct _ (λ s d. NamesDistinct-extend new_files s.files d))))
