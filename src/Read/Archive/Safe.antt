-- ===== src/Read/Archive/Safe.antt =====
-- src/read.rs: the reads of an entry that an archive opened, and their panics.
use zip.Prelude.{ℕ, ◌≡◌, ◌≢◌, sym, ap, ◌∙◌, subst, true, false, Option, none, some, List, get_elem?}
use zip.Result.{ZipResult, ok, err}
use zip.Cursor.{Cursor, ◌>>=◌, bind_inv, run_at-inv}
use zip.Types.File.{ZipFileData}
use zip.Read.Content.{
  Crates, CryptoReader, ZipFile, no_reader, make_crypto_reader, not_supported, read_file,
}
use zip.Compression.{CompressionMethod}
use zip.Read.Content.Panics.{can_decode, NeverPanics}
use zip.Read.Content.Safe.{all_reads, reads-safe, panics_after_error}
use zip.Read.Archive.{
  ZipArchive, needed_password, locate, open_file, by_index_with_optional_password, opened_with,
  opened, with_content, file_with,
}

module _ (K : Crates) where
  open K use {crypto}

  -- What an archive opens: a reader is made of the bytes, and waits for the first read.
  record Opened (file : ZipFile K) : Type 0 where
    waiting : CryptoReader crypto
    fresh : file ≡ record { entry = file.entry; crypto_reader = some waiting; reader = no_reader }

  open_file-Opened :
      (password : Option (List ℕ)) (content : List ℕ) (f : ZipFileData) {file : ZipFile K}
      → open_file K password content f ≡ ok file
      → Opened file
  unfolding open_file
  open_file-Opened password content f {file} e =
      let (c, opens) =
        run_at-inv content 0 (make_crypto_reader crypto f password >>= file_with K f) e in
      let (r, c', makes, ends) =
        bind_inv (make_crypto_reader crypto f password) (file_with K f)
          (record { bytes = content; pos = 0 }) file c opens in
      let same : record { entry = f; crypto_reader = some r; reader = no_reader } ≡ file =
        ap result_of ends in
      record {
        waiting = r;
        fresh =
            sym same
            ∙ ap (λ g. record { entry = g.entry; crypto_reader = some r; reader = no_reader }) same;
      }
    where
      result_of : ZipResult (ZipFile K × Cursor) → ZipFile K
      result_of (ok (g, c)) = g
      result_of (err x) = file

  with_content-Opened :
      (a : ZipArchive) (i : ℕ) (used : Option (List ℕ)) (r : ZipResult (List ℕ × ZipFileData))
      {file : ZipFile K} {a' : ZipArchive}
      → with_content a i (open_file K used) r ≡ (ok file, a')
      → Opened file
  with_content-Opened a i used (ok (content, f)) e =
      open_file-Opened used content f (ap (λ p. p.0) e)
  with_content-Opened a i used (err x) e = absurd (cc (ap (λ p. p.0) e))

  opened_with-Opened :
      (a : ZipArchive) (i : ℕ) (f : ZipFileData) (r : ZipResult (Option (List ℕ)))
      {file : ZipFile K} {a' : ZipArchive}
      → opened_with K a i f r ≡ (ok file, a')
      → Opened file
  opened_with-Opened a i f (ok used) e = with_content-Opened a i used (locate a f) e
  opened_with-Opened a i f (err x) e = absurd (cc (ap (λ p. p.0) e))

  opened-Opened :
      (a : ZipArchive) (i : ℕ) (password : Option (List ℕ)) (f : Option ZipFileData)
      {file : ZipFile K} {a' : ZipArchive}
      → opened K a i password f ≡ (ok file, a')
      → Opened file
  opened-Opened a i password none e = absurd (cc (ap (λ p. p.0) e))
  opened-Opened a i password (some f) e =
      opened_with-Opened a i f (needed_password password f.encrypted) e

  -- Reads of an entry that `by_index_with_optional_password` opened, however many there are and
  -- whatever each of them gives, do not panic, if there is a decoder for the entry's method and the
  -- method is not LZMA. The other decoders are as they are documented: the one of zstd is made, and
  -- their reads do not panic, also behind an error.
  pub opened-safe :
      (Sound : K.Decoder → Type 0)
      → NeverPanics K Sound
      → (a a' : ZipArchive) (i : ℕ) (password : Option (List ℕ)) (file : ZipFile K) (ns : List ℕ)
      → by_index_with_optional_password K a i password ≡ (ok file, a')
      → can_decode file.entry.compression_method ≡ true
      → ¬ (file.entry.compression_method ≡ CompressionMethod.lzma)
      → all_reads K ns file ≢ none
  unfolding by_index_with_optional_password
  opened-safe Sound never a a' i password file ns e decodes other =
      let o = opened-Opened a i password (get_elem? a.files i) e in
      subst (λ f. all_reads K ns f ≢ none) (sym o.fresh)
        (reads-safe K Sound never ns
          (record { entry = file.entry; crypto_reader = some o.waiting; reader = no_reader })
          (decodes, other))

  -- Where an entry was opened whose method has no reader, such as AES itself, the first read gives the
  -- error `Compression method not supported`, and each read behind it panics.
  pub opened-panics :
      (a a' : ZipArchive) (i : ℕ) (password : Option (List ℕ)) (file : ZipFile K) (n : ℕ)
      → by_index_with_optional_password K a i password ≡ (ok file, a')
      → can_decode file.entry.compression_method ≡ false
      → (f : ZipFile K) × (read_file K file n ≡ some (err not_supported, f))
        × ((k : ℕ) → read_file K f k ≡ none)
  unfolding by_index_with_optional_password
  opened-panics a a' i password file n e refuses =
      let o = opened-Opened a i password (get_elem? a.files i) e in
      let (f, first, later) = panics_after_error K file.entry o.waiting n refuses in
      (f, ap (λ g. read_file K g n) o.fresh ∙ first, later)
