-- ===== src/Write/Footer/Written.antt =====
-- src/write.rs: what `write_central_and_footer` leaves in the file, for entries that a central header
-- holds in full.
use zip.Prelude.{
  ℕ, ◌+◌, ◌-◌, ◌^◌, ◌≤◌, ◌<◌, ◌≡◌, refl, sym, ap, ◌∙◌, arith, max, min, map, Option, none, some,
  ge→ltb, List, [], ◌∷◌, ◌++◌, length, All, append-nil, append_assoc, length-map,
}
use zip.Result.{ok}
use zip.Cursor.{Cursor, Io, wrote}
use zip.Cursor.Write.{wrote-append, wrote-nil}
use zip.Spec.Records.{zip64_bytes_thr, zip64_entry_thr}
use zip.Spec.Zip32End
use zip.Spec.Zip32End.{Zip32CentralDirectoryEnd}
use zip.Spec.Zip32End.RoundTrip.{IsEnd, serialized, Writes-serialized}
use zip.Types.DateTime.{DateTime}
use zip.Types.File.{ZipFileData, version_needed, min_version, len_or_default}
use zip.Types.File.Blocks.{block}
use zip.Types.File.Blocks.Readable.{IsShort, central_header}
use zip.Read.Header.Central.{IsPlain}
use zip.Read.Header.Located.{central_bytes}
use zip.Read.Header.Directory.{Placed, directory_bytes}
use zip.Write.Monad.{Writer, ◌>>◌, pure, bind_ok}
use zip.Write.Headers.{write_central_directory_header}
use zip.Write.Headers.Written.{
  optional_bytes, zip64_bytes, entry_bytes, write_central_directory_header_lem,
}
use zip.Write.Footer.{writing, write_central_headers, write_zip64_footer, write_central_and_footer}

optional_bytes-nil : (o : Option (List ℕ)) → len_or_default o ≡ 0 → optional_bytes o ≡ []
optional_bytes-nil none h = refl
optional_bytes-nil (some []) h = refl
optional_bytes-nil (some (x ∷ xs)) h = absurd (omega arith)

writing_ok :
    (m : Io (Unit {0})) (c : Cursor) {c' : Cursor}
    → m c ≡ ok (tt, c')
    → writing m c ≡ some (ok tt, c')
writing_ok m c h = rw (h, writing) refl

module _ (default_for_write : DateTime) where
  module _ (f : ZipFileData) (p : IsPlain default_for_write f) where
    block_plain :
        IsShort default_for_write f 0
        → block default_for_write f 0 ≡ some (ok (central_header default_for_write f 0))
    unfolding block central_header
    block_plain short = ground (arith, p.no_extra, p.no_central_extra, short.name, short.comment)

    entry_bytes_plain :
        entry_bytes f (central_header default_for_write f 0) ≡ central_bytes default_for_write f
    entry_bytes_plain =
        rw
          (
            p.no_zip64,
            optional_bytes-nil f.extra_field p.no_extra,
            optional_bytes-nil f.central_extra_field p.no_central_extra,
          )
          (simp (append_assoc, append-nil))

    pub write_plain :
        (c : Cursor)
        → IsShort default_for_write f 0
        → write_central_directory_header default_for_write f c
          ≡ some (ok tt, wrote (central_bytes default_for_write f) c)
    write_plain c short =
        write_central_directory_header_lem default_for_write f
          (central_header default_for_write f 0) c
          (ap (λ o. block default_for_write f (length (zip64_bytes o))) p.no_zip64
            ∙ block_plain short)
        ∙ ap (λ l. some (ok tt, wrote l c)) entry_bytes_plain

  -- The version that the loop gathers.
  unfoldable pub version_of : List Placed → ℕ → ℕ
  version_of [] version = version
  version_of (e ∷ es) version = version_of es (max version (version_needed e.0))

  abbrev pub IsWritable : Placed → Type 0
  IsWritable e = IsPlain default_for_write e.0 × IsShort default_for_write e.0 0

  write_central_headers_lem :
      (es : List Placed) (version : ℕ) (acc : List ℕ) (c : Cursor)
      → All IsWritable es
      → write_central_headers default_for_write (map (λ e. e.0) es) version (wrote acc c)
        ≡ some (ok (version_of es version), wrote (acc ++ directory_bytes default_for_write es) c)
  unfolding write_central_headers version_of directory_bytes
  write_central_headers_lem [] version acc c h =
      ap (λ l. some (ok version, wrote l c)) (sym (append-nil acc))
  write_central_headers_lem (e ∷ es) version acc c ((p, short), h) =
      bind_ok (write_central_directory_header default_for_write e.0) _ (wrote acc c)
        (write_plain e.0 p (wrote acc c) short)
      ∙ ap
          (λ d.
            write_central_headers default_for_write (map (λ e. e.0) es)
              (max version (version_needed e.0)) d)
          (wrote-append acc (central_bytes default_for_write e.0) c)
      ∙ write_central_headers_lem es (max version (version_needed e.0))
          (acc ++ central_bytes default_for_write e.0) c h
      ∙ ap (λ l. some (ok (version_of (e ∷ es) version), wrote l c))
          (append_assoc acc (central_bytes default_for_write e.0)
            (directory_bytes default_for_write es))

  -- The end record of a directory at a place.
  abbrev pub end_of : List Placed → List ℕ → ℕ → Zip32CentralDirectoryEnd
  end_of es comment start = record {
    disk_number = 0;
    disk_with_central_directory = 0;
    number_of_files_on_this_disk = length es;
    number_of_files = length es;
    central_directory_size = length (directory_bytes default_for_write es);
    central_directory_offset = start;
    zip_file_comment = comment;
  }

  -- The numbers of the archive fit the end record.
  pub record IsSmall (es : List Placed) (comment : List ℕ) (start : ℕ) : Type 0 where
    pub entries : length es ≤ zip64_entry_thr
    pub directory_start : start ≤ zip64_bytes_thr
    pub directory_size : length (directory_bytes default_for_write es) ≤ zip64_bytes_thr
    pub comment_length : length comment < 2 ^ 16

  pub IsSmall-IsEnd :
      (es : List Placed) (comment : List ℕ) (start : ℕ)
      → IsSmall es comment start
      → IsEnd (end_of es comment start)
  IsSmall-IsEnd es comment start s =
      ground (arith, s.entries, s.directory_start, s.directory_size, s.comment_length)

  no_zip64_footer :
      (n version start size : ℕ) (c : Cursor)
      → n ≤ zip64_entry_thr
      → start ≤ zip64_bytes_thr
      → size ≤ zip64_bytes_thr
      → write_zip64_footer default_for_write n version start size c ≡ some (ok tt, c)
  unfolding write_zip64_footer
  no_zip64_footer n version start size c hn hs hz =
      rw
        (
          ge→ltb zip64_entry_thr n (λ l. omega arith),
          ge→ltb zip64_bytes_thr (max size start) (λ l. omega arith),
        )
        refl

  -- Behind the headers: the footer, at the end of a directory of that size.
  footer : ℕ → List ℕ → ℕ → ℕ → ℕ → Writer ℕ
  footer number_of_files comment central_start version central_size = do
    write_zip64_footer default_for_write number_of_files version central_start central_size
    writing (
        Zip32End.write (record {
          disk_number = 0;
          disk_with_central_directory = 0;
          number_of_files_on_this_disk = min number_of_files zip64_entry_thr;
          number_of_files = min number_of_files zip64_entry_thr;
          central_directory_size = min central_size zip64_bytes_thr;
          central_directory_offset = min central_start zip64_bytes_thr;
          zip_file_comment = comment;
        }))
    pure central_start

  footer_lem :
      (es : List Placed) (comment : List ℕ) (start version : ℕ) (c : Cursor)
      → IsSmall es comment start
      → footer (length es) comment start version (length (directory_bytes default_for_write es)) c
        ≡ some (ok start, wrote (serialized (end_of es comment start)) c)
  unfolding footer
  footer_lem es comment start version c s =
      bind_ok (write_zip64_footer default_for_write (length es) version start size) _ c (
        no_zip64_footer (length es) version start size c s.entries s.directory_start
          s.directory_size)
      ∙ bind_ok (writing (Zip32End.write _)) _ c (
          ap (λ e. writing (Zip32End.write e) c) same
          ∙ writing_ok (Zip32End.write (end_of es comment start)) c
              (Writes-serialized (end_of es comment start) (IsSmall-IsEnd es comment start s) c))
    where
      few : min (length es) zip64_entry_thr ≡ length es
      few = omega (arith, s.entries)

      low : min start zip64_bytes_thr ≡ start
      low = omega (arith, s.directory_start)

      little :
          min (length (directory_bytes default_for_write es)) zip64_bytes_thr
          ≡ length (directory_bytes default_for_write es)
      little = omega (arith, s.directory_size)

      same :
          record (end_of es comment start) {
            number_of_files_on_this_disk = min (length es) zip64_entry_thr;
            number_of_files = min (length es) zip64_entry_thr;
            central_directory_size =
                min (length (directory_bytes default_for_write es)) zip64_bytes_thr;
            central_directory_offset = min start zip64_bytes_thr;
          }
          ≡ end_of es comment start
      same = λ i. record (end_of es comment start) {
        number_of_files_on_this_disk = few i;
        number_of_files = few i;
        central_directory_size = little i;
        central_directory_offset = low i;
      }

      size : ℕ
      size = length (directory_bytes default_for_write es)

  pub write_central_and_footer_lem :
      (es : List Placed) (comment : List ℕ) (c : Cursor)
      → c.pos ≤ length c.bytes
      → IsSmall es comment c.pos
      → All IsWritable es
      → write_central_and_footer default_for_write (map (λ e. e.0) es) comment c
        ≡ some (
          ok c.pos,
          wrote (directory_bytes default_for_write es ++ serialized (end_of es comment c.pos)) c,
        )
  unfolding write_central_and_footer footer
  write_central_and_footer_lem es comment c inside s h =
      bind_ok (write_central_headers default_for_write (map (λ e. e.0) es) min_version) _ c (
        ap (write_central_headers default_for_write (map (λ e. e.0) es) min_version)
          (sym (wrote-nil c inside))
        ∙ write_central_headers_lem es min_version [] c h)
      ∙ ap
          (λ n.
            footer n comment c.pos (version_of es min_version) (c.pos + size - c.pos)
              (wrote directory c))
          (length-map es (λ e. e.0))
      ∙ ap (λ n. footer (length es) comment c.pos (version_of es min_version) n (wrote directory c))
          back
      ∙ footer_lem es comment c.pos (version_of es min_version) (wrote directory c) s
      ∙ ap (λ d. some (ok c.pos, d))
          (wrote-append directory (serialized (end_of es comment c.pos)) c)
    where
      directory : List ℕ
      directory = directory_bytes default_for_write es

      size : ℕ
      size = length directory

      back : c.pos + size - c.pos ≡ size
      back = omega arith
