-- ===== src/Write/Writer/Copy.antt =====
-- src/write.rs: entries made of others: `shallow_copy_file`, `deep_copy_file`,
-- `raw_copy_file_rename` and `merge_archive`, with `merge_contents` of src/read.rs.
pub mod Merged
use zip.Prelude.{
  ℕ, ◌+◌, ◌-◌, ◌%◌, ◌^◌, max, true, false, ◌||◌, ltb, if◌then◌else◌, Option, none, some, List, [],
  ◌∷◌, ◌++◌, take,
}
use zip.Result.{ZipResult, ok, err, invalid_archive, file_not_found}
use zip.Cursor.{Io}
use zip.Spec.Records.{zip64_bytes_thr}
use zip.Types.DateTime.{DateTime}
use zip.Types.File.{ZipFileData, unix_mode, is_some}
use zip.Types.File.Blocks.{unwrap_or}
use zip.Read.Header.{find_content}
use zip.Write.Monad.{Writer}
use zip.Write.Monad as File
use zip.Write.Options.{
  FileOptions, ExtendedFileOptions, default_options, unix_permissions, normalize_options,
}
use zip.Write.State.{
  Environment, Action, ◌>>=◌, ◌>>◌, pure, throw, lift, gets, modify, on_plain, try,
}
use zip.Write.Writer.{finish_file, ok_or_abort_file, write_all}
use zip.Write.Writer.Entry.{ZipRawValues, same_name, contains_key, insert_file_data, start_entry}

-- `index_by_name` and the entry there.
abbrev pub file_by_name : List ℕ → List ZipFileData → ZipResult ZipFileData
file_by_name name [] = err file_not_found
file_by_name name (f ∷ files) = if same_name name f.file_name then ok f else file_by_name name files

-- The entry of a name, as a mutable reference changes it.
abbrev pub map_named : List ℕ → (ZipFileData → ZipFileData) → List ZipFileData → List ZipFileData
map_named name change [] = []
map_named name change (f ∷ files) =
    if same_name name f.file_name then change f ∷ files else f ∷ map_named name change files

-- The permissions, if the entry has any.
abbrev with_mode : Option ℕ → FileOptions → FileOptions
with_mode none options = options
with_mode (some perms) options = unix_permissions options perms

abbrev or_empty : Option (List ℕ) → List ℕ
or_empty none = []
or_empty (some extra) = extra

-- The extra data that a copy takes over, and `none` where the options are without them.
abbrev pub copied_extra_data : ZipFileData → Option ExtendedFileOptions
copied_extra_data f =
    if is_some f.extra_field || is_some f.central_extra_field
    then some (record {
      extra_data = or_empty f.extra_field;
      central_extra_data = or_empty f.central_extra_field;
    })
    else none

unfoldable pub deep_copy_options : DateTime → ZipFileData → FileOptions
unfolding unix_mode normalize_options
deep_copy_options default_for_write f = normalize_options default_for_write (
    with_mode (unix_mode f) (record {
      compression_method = f.compression_method;
      compression_level = f.compression_level;
      last_modified_time = unwrap_or default_for_write f.last_modified_time;
      permissions = unix_mode f;
      large_file = f.large_file;
      encrypt_with = none;
      extended_options = copied_extra_data f;
      alignment = 1;
      zopfli_buffer_size = none;
    }))

unfoldable pub raw_copy_options : DateTime → ZipFileData → FileOptions
unfolding unix_mode normalize_options
raw_copy_options default_for_write f = normalize_options default_for_write (
    with_mode (unix_mode f) (record (default_options default_for_write none) {
      large_file = ltb zip64_bytes_thr (max f.compressed_size f.uncompressed_size);
      last_modified_time = unwrap_or default_for_write f.last_modified_time;
      compression_method = f.compression_method;
    }))

abbrev pub raw_values_of : ZipFileData → ℕ → ZipRawValues
raw_values_of f compressed_size = record {
  crc32 = f.crc32;
  compressed_size = compressed_size;
  uncompressed_size = f.uncompressed_size;
}

-- A read of the file below; where it fails, the file is as it was.
abbrev pub reading : {A : Type 0} → Io A → Writer A
reading m c = elim (m c) [ ok (a, c') ↦ some (ok a, c') | err e ↦ some (err e, c) ]

-- An archive that is read from: its entries, its bytes and where its directory starts.
pub record ZipArchive : Type 0 where
  pub files : List ZipFileData
  pub bytes : List ℕ
  pub dir_start : ℕ

-- `checked_add`.
abbrev pub checked_add : ℕ → ℕ → ZipResult ℕ
checked_add a b =
    if ltb (a + b) (2 ^ 64)
    then ok (a + b)
    else err (invalid_archive "new header start from merge would have been too large")

abbrev pub checked_data_start : Option ℕ → ℕ → ZipResult (Option ℕ)
checked_data_start none by = ok none
checked_data_start (some start) by =
    if ltb (start + by) (2 ^ 64)
    then ok (some (start + by))
    else err (invalid_archive "new data start from merge would have been too large")

-- The entries moved behind what is written already.
abbrev pub shift_file : ZipFileData → ZipResult ℕ → ZipResult (Option ℕ) → ZipResult ZipFileData
shift_file f (err e) data_start = err e
shift_file f (ok header_start) (err e) = err e
shift_file f (ok header_start) (ok data_start) =
    ok (record f { header_start = header_start; data_start = data_start })

abbrev pub cons_result :
    ZipResult ZipFileData → ZipResult (List ZipFileData) → ZipResult (List ZipFileData)
cons_result (err e) files = err e
cons_result (ok f) (err e) = err e
cons_result (ok f) (ok files) = ok (f ∷ files)

unfoldable pub shift_files : ℕ → List ZipFileData → ZipResult (List ZipFileData)
shift_files by [] = ok []
shift_files by (f ∷ files) =
    cons_result (shift_file f (checked_add f.header_start by) (checked_data_start f.data_start by))
      (shift_files by files)

-- The content up to the directory is copied as it is.
abbrev pub copy_contents : ZipArchive → ZipResult (List ZipFileData) → Writer (List ZipFileData)
copy_contents source (err e) c = some (err e, c)
copy_contents source (ok new_files) c =
    some (ok new_files, zip.Cursor.wrote (take source.dir_start source.bytes) c)

abbrev pub merge_files : List ZipFileData → ZipArchive → Writer (List ZipFileData)
merge_files [] source c = some (ok [], c)
merge_files (f ∷ files) source c = copy_contents source (shift_files c.pos (f ∷ files)) c

unfoldable pub merge_contents : ZipArchive → Writer (List ZipFileData)
unfolding shift_files
merge_contents source = merge_files source.files source

-- `IndexMap::extend`: an entry of a name that is there takes its place, and a new one goes to the end.
abbrev pub extend : List ZipFileData → List ZipFileData → List ZipFileData
extend files [] = files
extend files (f ∷ new_files) =
    extend
      (if contains_key f.file_name files
        then map_named f.file_name (λ _. f) files
        else files ++ f ∷ [])
      new_files

module _ {K : Environment} where
  open K use {default_for_write}

  unfoldable pub shallow_copy_file : List ℕ → List ℕ → Action K (Unit {0})
  unfolding finish_file insert_file_data
  shallow_copy_file src_name dest_name = do
    finish_file
    elim (same_name src_name dest_name) [
      | true ↦ throw (invalid_archive "Trying to copy a file to itself")
      | false ↦ do
        found ← gets (λ s. file_by_name src_name s.files)
        f ← lift found
        insert_file_data (record f { file_name = dest_name; file_name_raw = dest_name })
    ]

  abbrev pub writing_raw_file : Action K (Unit {0})
  writing_raw_file = modify (λ s. record s { writing_to_file = true; writing_raw = true })

  -- `OnceLock::get` and `unwrap`.
  abbrev pub unwrap_start : Option ℕ → Action K ℕ
  unwrap_start none s = none
  unwrap_start (some start) s = some (ok start, s)

  -- The copy of an entry whose content lies from `data_start` on. Its compressed size is cut to what is
  -- written; the difference is of `u64`s.
  unfoldable pub deep_copy :
      List ℕ → List ℕ → (write_position : ℕ) → ZipFileData → Action K (Unit {0})
  unfolding on_plain find_content deep_copy_options start_entry write_all ok_or_abort_file
      finish_file
  deep_copy src_name dest_name write_position f = do
    data_start ← unwrap_start f.data_start
    let available = (write_position + 2 ^ 64 - data_start) % 2 ^ 64
    let compressed_size = if ltb available f.compressed_size then available else f.compressed_size
    let src_data = record f { compressed_size = compressed_size }
    modify (λ s. record s { files = map_named src_name (λ _. src_data) s.files })
    found ← on_plain (reading (find_content src_data))
    on_plain (File.seek_start write_position)
    start_entry dest_name (deep_copy_options default_for_write src_data)
        (some (raw_values_of src_data compressed_size))
    writing_raw_file
    result ← try (write_all found.0)
    ok_or_abort_file result
    finish_file

  unfoldable pub deep_copy_file : List ℕ → List ℕ → Action K (Unit {0})
  unfolding finish_file on_plain deep_copy
  deep_copy_file src_name dest_name = do
    finish_file
    there ← gets (λ s. same_name src_name dest_name || contains_key dest_name s.files)
    elim there [
      | true ↦ throw (invalid_archive "That file already exists")
      | false ↦ do
        write_position ← on_plain File.stream_position
        found ← gets (λ s. file_by_name src_name s.files)
        f ← lift found
        deep_copy src_name dest_name write_position f
    ]

  -- `io::copy` of what a reader yields, piece by piece.
  unfoldable pub copy_pieces : List (List ℕ) → Action K (Unit {0})
  unfolding write_all
  copy_pieces [] = pure tt
  copy_pieces (piece ∷ pieces) = do write_all piece; copy_pieces pieces

  -- An entry of another archive under a name, with what its raw reader yields.
  unfoldable pub raw_copy_file_rename :
      ZipFileData → (raw : List (List ℕ)) → List ℕ → Action K (Unit {0})
  unfolding raw_copy_options start_entry copy_pieces
  raw_copy_file_rename file raw name = do
    start_entry name (raw_copy_options default_for_write file)
        (some (raw_values_of file file.compressed_size))
    writing_raw_file
    copy_pieces raw

  unfoldable pub merge_archive : ZipArchive → Action K (Unit {0})
  unfolding finish_file on_plain merge_contents
  merge_archive source = do
    finish_file
    writing_raw_file
    new_files ← on_plain (merge_contents source)
    modify (λ s. record s { files = extend s.files new_files })
