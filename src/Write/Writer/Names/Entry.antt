-- ===== src/Write/Writer/Names/Entry.antt =====
-- src/write.rs: the names of the entries under `start_file`, `add_directory` and `add_symlink`.
use zip.Prelude.{
  ℕ, ◌⊎◌, ◌+◌, ◌-◌, ◌≡◌, refl, Bool, true, false, Bool-cases, inl, inr, Option, none, some, List,
  [], ◌∷◌, length, bit_or,
}
use zip.Result.{ZipResult, ok, err}
use zip.Cursor.{Cursor}
use zip.Compression.{stored}
use zip.Types.File.{ZipFileData, s_ifdir}
use zip.Types.File.Blocks.{local_block}
use zip.Types.Headers.{ZipLocalEntryBlock, zip_local_entry_block}
use zip.Spec.Block.{encode}
use zip.Write.Monad as File
use zip.Write.Headers.{write_local_zip64_extra_field}
use zip.Write.Options.{
  FileOptions, EncryptWith, aes, zip_crypto, extra_data, central_extra_data, permissions_or,
  validate_extra_data, normalize_options,
}
use zip.Write.Generic.{get_plain, MaybeEncrypted}
use zip.Write.State.{
  Environment, ZipWriter, Action, ◌>>=◌, ◌>>◌, pure, lift, modify, on_plain, prepare, switch,
  ignore_error, try,
}
use zip.Write.State.Keeps.{
  Keeps, Any, Holds, Keeps->>=, Keeps->>, Keeps-pure, Keeps-throw, Keeps-lift, Keeps-modify,
  Keeps-try, Keeps-on_plain, Keeps-prepare, Keeps-switch, Keeps-switch_to_non_encrypting_writer,
  Keeps-ignore_error,
}
use zip.Write.Writer.{finish_file, abort_file, ok_or_abort_file, write_all}
use zip.Write.Writer.Entry.{
  insert_file_data, contains_key, change_last, set_start, or_abort, write_bytes, write_local_header,
  write_extra_data, with_padding, keep_central_extra_data, unwrap_inner, encrypt, start_encryption,
  open_entry, set_data_start, add_entry, start_entry, start_file, add_directory, add_symlink,
  new_file, with_aes_extra_data, or_empty, ZipRawValues, name_with_slash, s_iflnk,
}
use zip.Write.Writer.Names.{NamesDistinct, NamesDistinct-append, NamesDistinct-map_last}
use zip.Write.Writer.Names.Kept.{
  finish_file-Keeps, abort_file-Keeps, ok_or_abort_file-Keeps, Keeps-beside,
}
use zip.Write.Writer.Names.Write.{Kept, write_all-Kept}

module _ {K : Environment} where
  open K use {crypto, encoders, hashing, default_for_write, crc32_of}

  pub insert_file_data-Kept :
      (f : ZipFileData) → Keeps {K = K} NamesDistinct Any (insert_file_data f)
  unfolding insert_file_data
  insert_file_data-Kept f = record {
    holds = λ s d. go s d (Bool-cases (contains_key f.file_name s.files));
  }
    where
      go :
          (s : ZipWriter K)
          → NamesDistinct s.files
          → (contains_key f.file_name s.files ≡ true) ⊎ (contains_key f.file_name s.files ≡ false)
          → Holds NamesDistinct Any (insert_file_data f s)
      go s d (inl e) = rw e d
      go s d (inr e) = rw e (NamesDistinct-append s.files f d e, tt)

  change_last-Kept :
      (change : ZipFileData → ZipFileData)
      → ((f : ZipFileData) → (change f).file_name ≡ f.file_name)
      → Kept {K = K} (change_last change)
  change_last-Kept change h =
      Keeps-modify NamesDistinct _ (λ s d. NamesDistinct-map_last change s.files (λ f _. h f) d)

  write_bytes-Kept : (xs : List ℕ) → Kept {K = K} (write_bytes xs)
  write_bytes-Kept xs = Keeps-on_plain NamesDistinct (File.write_bytes xs)

  set_start-Kept : (start : ℕ) → Kept {K = K} (set_start start)
  set_start-Kept start = Keeps-beside NamesDistinct _ (λ s. refl)

  or_abort-Kept : (r : ZipResult (Unit {0})) → Kept {K = K} (or_abort r)
  or_abort-Kept (ok a) = Keeps-pure NamesDistinct Any tt tt
  or_abort-Kept (err e) =
      Keeps->> NamesDistinct (ignore_error abort_file) _
        (Keeps-ignore_error NamesDistinct abort_file abort_file-Keeps)
        (Keeps-throw NamesDistinct Any e)

  zip64_field-Kept :
      (b : Bool) (f : ZipFileData)
      → Kept {K = K} (elim b as (λ _. Action K (Unit {0})) [
        | true ↦ on_plain (write_local_zip64_extra_field f)
        | false ↦ pure tt
      ])
  zip64_field-Kept true f = Keeps-on_plain NamesDistinct (write_local_zip64_extra_field f)
  zip64_field-Kept false f = Keeps-pure NamesDistinct Any tt tt

  write_local_header-Kept :
      (f : ZipFileData) (b : ZipResult ZipLocalEntryBlock) → Kept {K = K} (write_local_header f b)
  unfolding write_local_header
  write_local_header-Kept f b =
      Keeps->>= NamesDistinct (lift b) _ (Keeps-lift NamesDistinct b) (λ b _.
        Keeps->> NamesDistinct (write_bytes (encode zip_local_entry_block b)) _ (write_bytes-Kept _)
          (Keeps->> NamesDistinct (write_bytes f.file_name_raw) _ (write_bytes-Kept _) (
            Keeps->>= NamesDistinct (on_plain File.stream_position) _
              (Keeps-on_plain NamesDistinct File.stream_position)
              (λ zip64_start _.
                Keeps->>= NamesDistinct _ _ (zip64_field-Kept f.large_file f) (λ _ _.
                  Keeps->>= NamesDistinct (on_plain File.stream_position) _
                    (Keeps-on_plain NamesDistinct File.stream_position)
                    (λ header_end _.
                      Keeps->> NamesDistinct
                        (change_last (λ f. record f { extra_data_start = some header_end })) _
                        (change_last-Kept _ (λ f. refl))
                        (Keeps-pure NamesDistinct Any (zip64_start, header_end) tt)))))))

  write_extra_data-Kept :
      (options : FileOptions) (zip64_start header_end : ℕ) (extra : List ℕ)
      → Kept {K = K} (write_extra_data options zip64_start header_end extra)
  unfolding write_extra_data
  write_extra_data-Kept options zip64_start header_end extra =
      go (with_padding options.alignment (header_end + length extra) extra)
    where
      go :
          (padded : List ℕ)
          → Kept {K = K} (elim padded as (λ _. Action K ℕ) [
            | [] ↦ do set_start (header_end + length extra); pure (header_end + length extra)
            | b ∷ bs ↦ do
              or_abort (validate_extra_data crc32_of (b ∷ bs) (header_end - zip64_start))
              write_bytes (b ∷ bs)
              extra_data_end ← on_plain File.stream_position
              set_start extra_data_end
              change_last (λ f. record f { extra_field = some (b ∷ bs) })
              pure extra_data_end
          ])
      go [] =
          Keeps->> NamesDistinct (set_start (header_end + length extra)) _ (set_start-Kept _)
            (Keeps-pure NamesDistinct Any (header_end + length extra) tt)
      go (b ∷ bs) =
          Keeps->> NamesDistinct
            (or_abort (validate_extra_data crc32_of (b ∷ bs) (header_end - zip64_start))) _
            (or_abort-Kept _)
            (Keeps->> NamesDistinct (write_bytes (b ∷ bs)) _ (write_bytes-Kept (b ∷ bs)) (
              Keeps->>= NamesDistinct (on_plain File.stream_position) _
                (Keeps-on_plain NamesDistinct File.stream_position)
                (λ e _. Keeps->> NamesDistinct (set_start e) _ (set_start-Kept e) (
                  Keeps->> NamesDistinct
                    (change_last (λ f. record f { extra_field = some (b ∷ bs) })) _
                    (change_last-Kept _ (λ f. refl)) (Keeps-pure NamesDistinct Any e tt)))))

  keep_central_extra_data-Kept :
      (o : Option (List ℕ)) (reserved : ℕ) → Kept {K = K} (keep_central_extra_data o reserved)
  unfolding keep_central_extra_data
  keep_central_extra_data-Kept none reserved = Keeps-pure NamesDistinct Any tt tt
  keep_central_extra_data-Kept (some extra) reserved =
      Keeps->> NamesDistinct (or_abort (validate_extra_data crc32_of extra reserved)) _
        (or_abort-Kept _)
        (change_last-Kept (λ f. record f { central_extra_field = some extra }) (λ f. refl))

  unwrap_inner-Kept : Kept {K = K} unwrap_inner
  unwrap_inner-Kept = record { holds = λ s d. go s d (get_plain crypto encoders s.inner) }
    where
      go :
          (s : ZipWriter K)
          → NamesDistinct s.files
          → (o : Option Cursor)
          → Holds {K = K} NamesDistinct
              (Any {A = Cursor})
              (elim o as (λ _. Option (ZipResult Cursor × ZipWriter K)) [
                | none ↦ none
                | some c ↦ some (ok c, s)
              ])
      go s d none = tt
      go s d (some c) = (d, tt)

  encrypt-Kept : (m : MaybeEncrypted crypto encoders) → Kept {K = K} (encrypt m)
  encrypt-Kept m = Keeps-beside NamesDistinct _ (λ s. refl)

  start_encryption-Kept : (o : Option EncryptWith) → Kept {K = K} (start_encryption o)
  unfolding start_encryption
  start_encryption-Kept none = Keeps-pure NamesDistinct Any tt tt
  start_encryption-Kept (some (aes mode password salt)) =
      Keeps->>= NamesDistinct unwrap_inner _ unwrap_inner-Kept (λ c _. encrypt-Kept _)
  start_encryption-Kept (some (zip_crypto keys)) =
      Keeps->>= NamesDistinct unwrap_inner _ unwrap_inner-Kept
        (λ c _. Keeps->> NamesDistinct (set_start c.pos) _ (set_start-Kept c.pos) (encrypt-Kept _))

  open_entry-Kept : Kept {K = K} open_entry
  unfolding open_entry
  open_entry-Kept = Keeps-modify NamesDistinct _ (λ s d.
      NamesDistinct-map_last
        (λ f. record f { data_start = set_data_start f.data_start s.stats.start }) s.files
        (λ f _. refl) d)

  add_entry-Kept :
      (options : FileOptions) (f : ZipFileData) (extra : List ℕ)
      (o : Option (ZipResult ZipLocalEntryBlock))
      → Kept {K = K} (add_entry options f extra o)
  unfolding add_entry
  add_entry-Kept options f extra none = record { holds = λ s d. tt }
  add_entry-Kept options f extra (some block) = record {
    holds = λ s d.
        (Keeps->> NamesDistinct (insert_file_data f) _ (insert_file_data-Kept f) (
            Keeps->>= NamesDistinct (write_local_header f block) _ (write_local_header-Kept f block)
              (λ p _.
                Keeps->>= NamesDistinct (write_extra_data options p.0 p.1 extra) _
                  (write_extra_data-Kept options p.0 p.1 extra)
                  (λ e _.
                    Keeps->> NamesDistinct
                      (keep_central_extra_data (central_extra_data options.extended_options)
                        (e - p.0))
                      _
                      (keep_central_extra_data-Kept (central_extra_data options.extended_options)
                        (e - p.0))
                      (Keeps->> NamesDistinct (start_encryption options.encrypt_with) _
                        (start_encryption-Kept options.encrypt_with) open_entry-Kept))))).holds
          s d;
  }

  pub start_entry-Kept :
      (name : List ℕ) (options : FileOptions) (raw : Option ZipRawValues)
      → Kept {K = K} (start_entry name options raw)
  unfolding start_entry
  start_entry-Kept name options raw = Keeps->> NamesDistinct finish_file _ finish_file-Keeps (
      Keeps->>= NamesDistinct (on_plain File.stream_position) _
        (Keeps-on_plain NamesDistinct File.stream_position)
        (λ start _.
          let extra =
            with_aes_extra_data options.encrypt_with
              (or_empty (extra_data options.extended_options)) in
          let f = new_file name options raw start extra in
          add_entry-Kept options f extra.0 (local_block default_for_write f)))

  -- `try`, and an error returned behind `abort_file`.
  pub try_or_abort-Kept :
      {A : Type 0} (m : Action K A) → Kept m → Kept (try m >>= λ r. ok_or_abort_file r)
  try_or_abort-Kept m h =
      Keeps->>= NamesDistinct (try m) _ (Keeps-try NamesDistinct m h)
        (λ r _. ok_or_abort_file-Keeps r)

  pub start_file-Kept :
      (name : List ℕ) (options : FileOptions) → Kept {K = K} (start_file name options)
  unfolding start_file
  start_file-Kept name options =
      Keeps->>= NamesDistinct
        (prepare options.compression_method options.compression_level options.zopfli_buffer_size) _
        (Keeps-prepare NamesDistinct options.compression_method options.compression_level
          options.zopfli_buffer_size)
        (λ w _.
          Keeps->> NamesDistinct
            (start_entry name (normalize_options default_for_write options) none) _
            (start_entry-Kept name (normalize_options default_for_write options) none)
            (Keeps->>= NamesDistinct (try (switch w)) _
              (Keeps-try NamesDistinct (switch w) (Keeps-switch NamesDistinct w))
              (λ r _.
                Keeps->> NamesDistinct (ok_or_abort_file r) _ (ok_or_abort_file-Keeps r) (
                  Keeps-beside NamesDistinct (λ s. record s { writing_raw = false }) (λ s. refl)))))

  pub add_directory-Kept :
      (name : List ℕ) (options : FileOptions) → Kept {K = K} (add_directory name options)
  unfolding add_directory
  add_directory-Kept name options =
      let made = record options {
        permissions = some (bit_or (permissions_or options.permissions 0x1ed) s_ifdir);
        compression_method = stored;
        encrypt_with = none;
      } in
      Keeps->>= NamesDistinct (start_entry (name_with_slash name) made none) _
        (start_entry-Kept (name_with_slash name) made none)
        (λ _ _.
          Keeps->> NamesDistinct (modify (λ s. record s { writing_to_file = false })) _
            (Keeps-beside NamesDistinct _ (λ s. refl))
            (Keeps-switch_to_non_encrypting_writer NamesDistinct))

  pub add_symlink-Kept :
      (name target : List ℕ) (options : FileOptions)
      → Kept {K = K} (add_symlink name target options)
  unfolding add_symlink
  add_symlink-Kept name target options =
      let made = record options {
        permissions = some (bit_or (permissions_or options.permissions 0x1ff) s_iflnk);
        compression_method = stored;
      } in
      Keeps->>= NamesDistinct (start_entry name made none) _ (start_entry-Kept name made none)
        (λ _ _.
          Keeps->> NamesDistinct (modify (λ s. record s { writing_to_file = true })) _
            (Keeps-beside NamesDistinct _ (λ s. refl))
            (Keeps->>= NamesDistinct (try (write_all target)) _
              (Keeps-try NamesDistinct (write_all target) (write_all-Kept target))
              (λ r _. Keeps->> NamesDistinct (ok_or_abort_file r) _ (ok_or_abort_file-Keeps r) (
                Keeps->> NamesDistinct (modify (λ s. record s { writing_raw = false })) _
                  (Keeps-beside NamesDistinct _ (λ s. refl)) finish_file-Keeps))))
