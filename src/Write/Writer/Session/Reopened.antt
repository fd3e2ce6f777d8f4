-- ===== src/Write/Writer/Session/Reopened.antt =====
-- src/write.rs and src/read.rs: `ZipArchive::new` on the file that a session leaves.
use native.Mathlib.Nat.{add-zero}
use zip.Prelude.{
  ℕ, suc, ◌+◌, ◌^◌, ◌≤◌, ◌<◌, ◌≡◌, refl, ap, ◌∙◌, arith, true, false, inl, inr, Bool, take, drop,
  length-drop, ◌==◌, if◌then◌else◌, some, List, [], ◌∷◌, length, All,
}
use zip.Result.{ZipResult, ok, ◌>>=◌, ZipResult-cases}
use zip.LittleEndian.{IsByte, from_le_bytes}
use zip.Cursor.{Cursor, run_at, run_at-ok, read_exact}
use zip.Spec.Block.{size_of}
use zip.Spec.Records.{zip64_bytes_thr, central_directory_header_signature}
use zip.Spec.Zip32End
use zip.Spec.Zip64End.{Zip64CentralDirectoryEndLocator}
use zip.Spec.Zip32End.{Zip32CentralDirectoryEnd}
use zip.Spec.Find.{Finder, IsFinder}
use zip.Spec.Find.Zip32.Window.{ParsesAt, ParsesAt-room}
use zip.Types.DateTime.{DateTime, is_valid}
use zip.Read.Config.{Config, detect}
use zip.Read.Directory.{
  CentralDirectoryInfo, peek, locator_at, get_directory_info_zip32, get_directory_info_zip64,
}
use zip.Read.Directory.Prefix.{info_at, get_directory_info_zip32_prefix}
use zip.Read.Header.{read_files}
use zip.Read.Header.Located.{central_bytes}
use zip.Read.Header.Directory.{Placed, as_listed}
use zip.Read.Metadata.{SharedBuilder, read_central_header, get_metadata}
use zip.Read.Metadata.Last.{get_metadata-last}
use zip.Write.Footer.Written.{IsSmall}
use zip.Write.ReadBack.{read_closed_file, parse-closed_file}
use zip.Write.State.{Environment}
use zip.Write.Writer.Session.{Item, content_bytes, placed}
use zip.Write.Writer.Session.Headers.{IsItem}
use zip.Write.Writer.Session.Archive.{behind_content, listable}
use zip.Write.Writer.Session.Bytes.{end_record, end_position, file_bytes}

-- Four bytes that are there can be looked at.
peek_inside :
    (file : List ℕ) (start : ℕ)
    → start + 4 ≤ length file
    → (signed : Bool) × (peek file start ≡ ok signed)
unfolding run_at read_exact
peek_inside file start h = (
  from_le_bytes (take 4 (drop start file)) == central_directory_header_signature,
  ap (λ r. r >>= (λ buf. ok (from_le_bytes buf == central_directory_header_signature))) there,
)
  where
    there : run_at file start (read_exact 4) ≡ ok (take 4 (drop start file))
    there = ground (arith, length-drop start file)

-- Without a locator there are no ZIP64 records.
no_locator :
    (rfind_iter : Finder) (config : Config) (file : List ℕ) (footer : Zip32CentralDirectoryEnd)
    (p : ℕ)
    → ((l : Zip64CentralDirectoryEndLocator) → ¬ (locator_at file footer ≡ ok l))
    → (rs : List (ZipResult CentralDirectoryInfo))
    → ¬ (get_directory_info_zip64 rfind_iter config file footer p ≡ ok rs)
unfolding get_directory_info_zip64
no_locator rfind_iter config file footer p none_there rs h =
    elim (ZipResult-cases (locator_at file footer)) [
      | inl (l, e) ↦ none_there l e
      | inr (x, e) ↦ absurd (cc (rw e at h))
    ]

length-as_listed :
    (default_for_write : DateTime) (off : ℕ) (es : List Placed) (start : ℕ)
    → length (as_listed default_for_write off start es) ≡ length es
unfolding as_listed
length-as_listed default_for_write off [] start = refl
length-as_listed default_for_write off (e ∷ es) start = ap suc (
    length-as_listed default_for_write off es
      (start + length (central_bytes default_for_write e.0)))

same_either_way : (b : Bool) (n : ℕ) → (if b then n else n) ≡ n
same_either_way true n = refl
same_either_way false n = refl

module _ (K : Environment) (xs : List Item) (comment : List ℕ) (c : Cursor) where
  open K use {hashing, default_for_write}

  abbrev pub directory_start : ℕ
  directory_start = (behind_content K xs comment c).pos

  -- What is read of the directory.
  abbrev pub shared_of : SharedBuilder
  shared_of = record {
    files = as_listed default_for_write 0 directory_start (placed K xs c.pos);
    offset = 0;
    dir_start = directory_start + 0;
  }

  abbrev info_of : CentralDirectoryInfo
  info_of = info_at (end_record K xs comment c) (end_position K xs comment c) 0

  abbrev default_config : Config
  default_config = record { archive_offset = detect }

  module _ (small : IsSmall default_for_write (placed K xs c.pos) comment directory_start)
      (bytes : All IsByte (file_bytes K xs comment c)) where
    end_parses :
        ParsesAt
          (file_bytes K xs comment c)
          (end_record K xs comment c, end_position K xs comment c)
    end_parses =
        run_at-ok (file_bytes K xs comment c) (end_position K xs comment c) Zip32End.parse (
          parse-closed_file default_for_write (placed K xs c.pos) comment
            (behind_content K xs comment c) small)

    room : end_position K xs comment c + 22 ≤ length (file_bytes K xs comment c)
    room =
        ParsesAt-room (file_bytes K xs comment c) (end_record K xs comment c)
          (end_position K xs comment c) bytes end_parses

    directory_found :
        get_directory_info_zip32 default_config
          (file_bytes K xs comment c)
          (end_record K xs comment c)
          (end_position K xs comment c)
        ≡ ok info_of
    directory_found =
        let (signed, peeked) =
          peek_inside (file_bytes K xs comment c) (0 + directory_start) (omega (arith, room)) in
        (get_directory_info_zip32_prefix (file_bytes K xs comment c) (end_record K xs comment c) 0
          (end_position K xs comment c) signed (omega arith) (omega (arith, small.directory_start))
          peeked).1
        ∙ ap (λ n. ok (info_at (end_record K xs comment c) (end_position K xs comment c) n))
            (same_either_way signed 0)

    module _ (crc32 : List ℕ → ℕ) (rfind_iter : Finder)
        (word : (h : hashing.Hasher) → hashing.finalize h < 2 ^ 32)
        (valid : is_valid default_for_write ≡ true) (v : All IsItem xs)
        (at_end : c.pos ≡ length c.bytes)
        (fits : c.pos + length (content_bytes K xs c.pos) < zip64_bytes_thr) where
      directory_read :
          read_central_header crc32 rfind_iter info_of (file_bytes K xs comment c) ≡ ok shared_of
      unfolding read_central_header
      directory_read =
          ap
            (λ r. r >>= (λ files.
              ok (record { files = files; offset = 0; dir_start = directory_start + 0 })))
            (ap
                (λ p.
                  run_at (file_bytes K xs comment c) p
                    (read_files crc32 (length (placed K xs c.pos)) 0))
                (add-zero directory_start)
              ∙ run_at-ok (file_bytes K xs comment c) directory_start
                  (read_files crc32 (length (placed K xs c.pos)) 0)
                  (read_closed_file default_for_write (placed K xs c.pos) comment
                    (behind_content K xs comment c) crc32
                    (listable K xs comment c word valid v at_end fits)))

      -- The metadata of the file.
      pub get_metadata-session :
          IsFinder rfind_iter
          → ((r : Zip32CentralDirectoryEnd × ℕ)
              → ParsesAt (file_bytes K xs comment c) r
              → r.1 ≤ end_position K xs comment c)
          → ((l : Zip64CentralDirectoryEndLocator)
              → ¬ (locator_at (file_bytes K xs comment c) (end_record K xs comment c) ≡ ok l))
          → get_metadata crc32 rfind_iter default_config (file_bytes K xs comment c)
            ≡ some (ok (end_record K xs comment c, shared_of))
      get_metadata-session law last no_zip64 =
          get_metadata-last crc32 rfind_iter default_config (file_bytes K xs comment c)
            (end_record K xs comment c) info_of directory_found
            (no_locator rfind_iter default_config (file_bytes K xs comment c)
              (end_record K xs comment c) (end_position K xs comment c) no_zip64)
            shared_of law bytes (unfold size_of in (omega (arith, room))) end_parses last
            directory_read
            (length-as_listed default_for_write 0 (placed K xs c.pos) directory_start)
