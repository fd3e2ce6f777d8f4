-- ===== src/Write/Writer/Names/Kept.antt =====
-- src/write.rs: the names of the entries under every method of `ZipWriter`.
use zip.Prelude.{
  ℕ, ◌+◌, ◌%◌, ◌^◌, ◌≡◌, refl, sym, ◌∙◌, subst, Bool, true, false, Option, none, some, List, [],
  ◌∷◌,
}
use zip.Result.{ZipResult, ok, err, file_not_found}
use zip.Compression.{CompressionMethod, stored}
use zip.Types.File.{ZipFileData, AesMode, AesVendorVersion}
use zip.Write.Monad as File
use zip.Write.Headers.{
  aes_field, splice, update_aes, update_aes_extra_data, update_local_file_header,
}
use zip.Write.State.{
  Environment, ZipWriter, ZipWriterStats, gets, modify, on_plain, prepare, switch, ignore_error,
  get_last?, map_last, drop_last,
}
use zip.Write.State.Keeps.{
  Keeps, Any, Holds, Holds-weaker, Gives, Gives->>=, Keeps->>=, Keeps->>, Keeps-pure, Keeps-throw,
  Keeps-gets, Keeps-modify, Keeps-on_plain, Keeps-on_plain-Gives, Keeps-prepare, Keeps-switch,
  Keeps-switch_to_non_encrypting_writer, Keeps-ignore_error, Keeps-at,
}
use zip.Write.Writer.{
  put_last, finished_file, update_to, update_headers_of, update_headers, update_unless, end_writing,
  make_plain, finish_if, finish_file, rewind_safe, rewind_if, abort_last, abort_file,
  ok_or_abort_file,
}
use zip.Write.Writer.Names.{NamesDistinct, NamesDistinct-map_last, NamesDistinct-drop_last}

-- The names are distinct, and the last entry has this one.
abbrev Ends : List ℕ → List ZipFileData → Type 0
Ends name files =
    NamesDistinct files × ((f : ZipFileData) → get_last? files ≡ some f → f.file_name ≡ name)

last-map_last :
    (g : ZipFileData) (files : List ZipFileData) (f : ZipFileData)
    → get_last? (map_last (λ _. g) files) ≡ some f
    → f.file_name ≡ g.file_name
last-map_last g [] f h = absurd cc
last-map_last g (x ∷ []) f h = cc
last-map_last g (x ∷ y ∷ []) f h = cc
last-map_last g (x ∷ y ∷ z ∷ files) f h = last-map_last g (y ∷ z ∷ files) f h

update_aes-Gives :
    (mode : Option (AesMode × AesVendorVersion × CompressionMethod)) (f : ZipFileData)
    → Gives (λ g. g.file_name ≡ f.file_name) (update_aes mode f)
update_aes-Gives none f = record { gives = λ c. refl }
update_aes-Gives (some mode) f = Gives->>= (File.unwrap f.extra_data_start) _ (λ start.
    Gives->>= (File.seek_start ((start + f.aes_extra_data_start) % 2 ^ 64)) _ (λ _.
      Gives->>= (File.write_bytes (aes_field mode)) _ (λ _.
        Gives->>= (File.unwrap (splice f.aes_extra_data_start (aes_field mode) f.extra_field))
          (λ extra. File.pure (record f { extra_field = some extra }))
          (λ extra. record { gives = λ c. refl }))))

update_aes_extra_data-Gives :
    (f : ZipFileData) → Gives (λ g. g.file_name ≡ f.file_name) (update_aes_extra_data f)
unfolding update_aes_extra_data
update_aes_extra_data-Gives f = update_aes-Gives f.aes_mode f

module _ {K : Environment} where
  finished_file-name :
      (stats : ZipWriterStats K) (file_end : ℕ) (f : ZipFileData)
      → (finished_file {K = K} stats file_end f).file_name ≡ f.file_name
  unfolding finished_file
  finished_file-name stats file_end f = go f.aes_mode refl
    where
      go :
          (mode : Option (AesMode × AesVendorVersion × CompressionMethod))
          → f.aes_mode ≡ mode
          → (finished_file stats file_end f).file_name ≡ f.file_name
      go none h = rw h refl
      go (some mode) h = rw h refl

  put_last-Keeps :
      (name : List ℕ) (f : ZipFileData)
      → f.file_name ≡ name
      → Keeps {K = K} (Ends name) Any (put_last f)
  put_last-Keeps name f e = Keeps-modify (Ends name) _ (λ s (d, last). (
    NamesDistinct-map_last (λ _. f) s.files (λ g h. e ∙ sym (last g h)) d,
    λ g h. last-map_last f s.files g h ∙ e,
  ))

  update_to-Keeps :
      (name : List ℕ) (file_end : ℕ) (f : ZipFileData)
      → f.file_name ≡ name
      → Keeps {K = K} (Ends name) Any (update_to file_end f)
  unfolding update_to
  update_to-Keeps name file_end f e =
      Keeps->> (Ends name) (put_last f) _ (put_last-Keeps name f e) (
        Keeps->>= (Ends name) _ _
          (Keeps-on_plain-Gives (Ends name) _ (update_aes_extra_data f)
            (update_aes_extra_data-Gives f))
          (λ g same. Keeps->> (Ends name) (put_last g) _ (put_last-Keeps name g (same ∙ e)) (
            Keeps->> (Ends name) (on_plain (update_local_file_header g)) _
              (Keeps-on_plain (Ends name) (update_local_file_header g))
              (Keeps->> (Ends name) (on_plain (File.seek_start file_end)) _
                (Keeps-on_plain (Ends name) (File.seek_start file_end))
                (Keeps-pure (Ends name) Any true tt)))))

  update_headers-Keeps : Keeps {K = K} NamesDistinct Any update_headers
  unfolding update_headers
  update_headers-Keeps = record { holds = λ s d. go s d (get_last? s.files) refl }
    where
      go :
          (s : ZipWriter K)
          → NamesDistinct s.files
          → (o : Option ZipFileData) → get_last? s.files ≡ o
          → Holds NamesDistinct Any (update_headers_of o s)
      go s d none h = (d, tt)
      go s d (some f) h =
          Holds-weaker NamesDistinct (Ends f.file_name) (λ files p. p.0) Any
            (update_headers_of (some f) s)
            ((Keeps->>= (Ends f.file_name) (on_plain File.stream_position) _
                (Keeps-on_plain (Ends f.file_name) File.stream_position)
                (λ file_end _.
                  Keeps->>= (Ends f.file_name) (gets (λ s. s.stats)) _
                    (Keeps-gets (Ends f.file_name) (λ s. s.stats))
                    (λ stats _.
                      update_to-Keeps f.file_name file_end (finished_file stats file_end f)
                        (finished_file-name stats file_end f)))).holds
              s (d, λ g e. cc (h, e)))

  make_plain-Keeps : (P : List ZipFileData → Type 0) → Keeps {K = K} P Any make_plain
  unfolding make_plain
  make_plain-Keeps P =
      Keeps->>= P (prepare stored none none) _ (Keeps-prepare P stored none none) (λ w _.
        Keeps->> P (switch w) _ (Keeps-switch P w) (Keeps-switch_to_non_encrypting_writer P))

  -- `modify` of what is beside the entries.
  pub Keeps-beside :
      (P : List ZipFileData → Type 0) (f : ZipWriter K → ZipWriter K)
      → ((s : ZipWriter K) → (f s).files ≡ s.files)
      → Keeps P Any (modify f)
  Keeps-beside P f h = Keeps-modify P f (λ s p. subst P (sym (h s)) p)

  end_writing-Keeps :
      (P : List ZipFileData → Type 0) (b : Bool) → Keeps {K = K} P Any (end_writing b)
  end_writing-Keeps P true = Keeps-beside P (λ s. record s { writing_to_file = false }) (λ s. refl)
  end_writing-Keeps P false = Keeps-pure P Any tt tt

  update_unless-Keeps : (b : Bool) → Keeps {K = K} NamesDistinct Any (update_unless b)
  update_unless-Keeps true = Keeps-pure NamesDistinct Any true tt
  update_unless-Keeps false = update_headers-Keeps

  finish_if-Keeps : (b : Bool) → Keeps {K = K} NamesDistinct Any (finish_if b)
  finish_if-Keeps false = Keeps-pure NamesDistinct Any tt tt
  finish_if-Keeps true = Keeps->> NamesDistinct make_plain _ (make_plain-Keeps NamesDistinct) (
      Keeps->> NamesDistinct (on_plain (File.pure tt)) _
        (Keeps-on_plain NamesDistinct (File.pure tt))
        (Keeps->>= NamesDistinct (gets (λ s. s.writing_raw)) _
          (Keeps-gets NamesDistinct (λ s. s.writing_raw))
          (λ raw _.
            Keeps->>= NamesDistinct (update_unless raw) _ (update_unless-Keeps raw)
              (λ b _. end_writing-Keeps NamesDistinct b))))

  pub finish_file-Keeps : Keeps {K = K} NamesDistinct Any finish_file
  unfolding finish_file
  finish_file-Keeps =
      Keeps-at NamesDistinct (λ s. finish_if s.writing_to_file)
        (λ s. finish_if-Keeps s.writing_to_file)

  rewind_if-Keeps : (b : Bool) (n : ℕ) → Keeps {K = K} NamesDistinct Any (rewind_if b n)
  rewind_if-Keeps true n = Keeps-on_plain NamesDistinct (File.seek_start n)
  rewind_if-Keeps false n = Keeps-pure NamesDistinct Any tt tt

  abort_last-Keeps : (o : Option ZipFileData) → Keeps {K = K} NamesDistinct Any (abort_last o)
  abort_last-Keeps none = Keeps-throw NamesDistinct Any file_not_found
  abort_last-Keeps (some f) =
      Keeps->> NamesDistinct (modify (λ s. record s { files = drop_last s.files })) _
        (Keeps-modify NamesDistinct _ (λ s d. NamesDistinct-drop_last s.files d))
        (Keeps->> NamesDistinct make_plain _ (make_plain-Keeps NamesDistinct) (
          Keeps->>= NamesDistinct (gets (λ s. rewind_safe f.data_start s.files)) _
            (Keeps-gets NamesDistinct (λ s. rewind_safe f.data_start s.files))
            (λ safe _.
              Keeps->> NamesDistinct (rewind_if safe f.header_start) _
                (rewind_if-Keeps safe f.header_start)
                (Keeps-beside NamesDistinct (λ s. record s { writing_to_file = false })
                  (λ s. refl)))))

  pub abort_file-Keeps : Keeps {K = K} NamesDistinct Any abort_file
  unfolding abort_file
  abort_file-Keeps =
      Keeps-at NamesDistinct (λ s. abort_last (get_last? s.files))
        (λ s. abort_last-Keeps (get_last? s.files))

  pub ok_or_abort_file-Keeps :
      {A : Type 0} (r : ZipResult A) → Keeps {K = K} NamesDistinct Any (ok_or_abort_file r)
  unfolding ok_or_abort_file
  ok_or_abort_file-Keeps (ok a) = Keeps-pure NamesDistinct Any a tt
  ok_or_abort_file-Keeps (err e) =
      Keeps->> NamesDistinct (ignore_error abort_file) _
        (Keeps-ignore_error NamesDistinct abort_file abort_file-Keeps)
        (Keeps-throw NamesDistinct Any e)
