-- ===== src/Read/Archive/Opened.antt =====
-- src/read.rs: an entry of an archive is opened and read to its end.
use zip.Prelude.{
  ℕ, zero, suc, ◌≤◌, ◌≡◌, ◌≢◌, ◌⊎◌, inl, inr, refl, ap, ◌∙◌, Bool, true, false, Option, some, List,
  [], ◌∷◌, ◌++◌, length, drop, All, get_elem?, set, take-append_length,
}
use zip.Result.{ok}
use zip.Cursor.{Cursor, Io, ◌>>=◌, bind_ok, run_at, run_at-ok}
use zip.Compression.{CompressionMethod}
use zip.Types.File.{ZipFileData}
use zip.Aes.{IsCrypto}
use zip.Crc32.Checked.{IsHashing}
use zip.Crc32.Whole.{Yields}
use zip.Read.Header.{find_content}
use zip.Read.Content.{
  Crates, CryptoReader, ZipFile, make_crypto_reader, unless_unsupported, validator_of, open_reader,
}
use zip.Read.Content.Whole.{reads}
use zip.Read.Content.Unpacked.{fresh, RightSum, Unpacks, reads_unpacked}
use zip.Read.Content.Opened.{IsForm, Made, makes_reader, is_ae2}
use zip.Read.Archive.{
  ZipArchive, needed_password, locate, open_file, by_index_with_optional_password, opened_with,
  opened, with_content, file_with,
}

set-get_elem {ℓ} :
    {A : Type ℓ} (xs : List A) (i : ℕ) (x : A) → get_elem? xs i ≡ some x → set xs i x ≡ xs
set-get_elem [] i x e = refl
set-get_elem (y ∷ ys) zero x e = cc
set-get_elem (y ∷ ys) (suc i) x e = ap (λ l. y ∷ l) (set-get_elem ys i x e)

-- The content of an entry that was found before.
locate_known :
    (a : ZipArchive) (f : ZipFileData) (start : ℕ) (form behind : List ℕ)
    → f.data_start ≡ some start
    → drop start a.reader.bytes ≡ form ++ behind
    → f.compressed_size ≡ length form
    → locate a f ≡ ok (form, f)
unfolding run_at find_content
locate_known a f start form behind known stands size =
    rw (known, stands, size, take-append_length form behind) refl

module _ (K : Crates) (L : IsCrypto K.crypto) (law : IsHashing K.hashing) where
  open K use {crypto, hashing}

  abbrev HasChecksum : ZipFileData → List ℕ → Type 0
  HasChecksum f text =
      (is_ae2 f.aes_mode ≡ true)
      ⊎ (f.crc32 ≡ hashing.finalize (hashing.update hashing.new_hasher text))

  abbrev is_supported : CompressionMethod → Bool
  is_supported (CompressionMethod.unsupported v) = false
  is_supported method = true

  -- The content of an entry is opened with the password that is used.
  open_form :
      (f : ZipFileData) (used : Option (List ℕ)) (text form : List ℕ)
      (m : Made crypto L f used text form)
      → is_supported f.compression_method ≡ true
      → open_file K used form f ≡ ok (fresh K L law f m.made_reader)
  unfolding open_file make_crypto_reader
  open_form f used text form m e =
      run_at-ok form 0 (make_crypto_reader crypto f used >>= file_with K f)
        {a = fresh K L law f m.made_reader} {c = m.at}
        (bind_ok (make_crypto_reader crypto f used) (file_with K f) start
          (supported_is_made f.compression_method e ∙ m.makes))
    where
      start : Cursor
      start = record { bytes = form; pos = 0 }

      supported : Io (CryptoReader crypto)
      supported =
          open_reader crypto used f.aes_mode
            (validator_of crypto f.crc32 f.last_modified_time f.using_data_descriptor)
            f.compressed_size

      supported_is_made :
          (method : CompressionMethod)
          → is_supported method ≡ true
          → unless_unsupported crypto method supported start ≡ supported start
      supported_is_made CompressionMethod.stored e = refl
      supported_is_made CompressionMethod.deflated e = refl
      supported_is_made CompressionMethod.deflate64 e = refl
      supported_is_made CompressionMethod.bzip2 e = refl
      supported_is_made CompressionMethod.aes e = refl
      supported_is_made CompressionMethod.zstd e = refl
      supported_is_made CompressionMethod.lzma e = refl
      supported_is_made (CompressionMethod.unsupported v) e = absurd (cc)

  module _ (P : K.Decoder → List ℕ → Type 0) (yields : Yields K.decode P) where
    supported_method :
        (m : CompressionMethod) (packed text : List ℕ)
        → Unpacks K L law P m packed text
        → is_supported m ≡ true
    supported_method CompressionMethod.stored packed text u = refl
    supported_method CompressionMethod.deflated packed text u = refl
    supported_method CompressionMethod.deflate64 packed text u = refl
    supported_method CompressionMethod.bzip2 packed text u = refl
    supported_method CompressionMethod.aes packed text u = absurd u
    supported_method CompressionMethod.zstd packed text u = refl
    supported_method CompressionMethod.lzma packed text u = refl
    supported_method (CompressionMethod.unsupported v) packed text u = absurd u

    -- Where the content of an entry stands at its place, plain, under ZipCrypto or under AES, stored or
    -- packed by a method that there is a decoder for, and the entry has the checksum of the text or
    -- is AE-2: `by_index_with_optional_password` with the password that the entry is encrypted with,
    -- or any where it is not, opens the entry and leaves the archive as it is, and reads into
    -- buffers that are not empty, as many as the text has bytes at least, give the whole text. The
    -- crates are as they are documented: a decoder on the packed bytes gives the text part by part.
    pub by_index_with_optional_password-reads :
        (a : ZipArchive) (i : ℕ) (f : ZipFileData) (password used : Option (List ℕ))
        (text packed form behind : List ℕ) (start : ℕ) (ns : List ℕ)
        → get_elem? a.files i ≡ some f
        → needed_password password f.encrypted ≡ ok used
        → Unpacks K L law P f.compression_method packed text
        → f.data_start ≡ some start
        → drop start a.reader.bytes ≡ form ++ behind
        → f.compressed_size ≡ length form
        → IsForm crypto L f used packed form
        → HasChecksum f text
        → All (λ n. n ≢ 0) ns
        → length text ≤ length ns
        → (file : ZipFile K) × (read : ZipFile K) × (by_index_with_optional_password K a i password
            ≡ (ok file, a))
          × (reads K ns file ≡ some (ok text, read))
    unfolding by_index_with_optional_password
    by_index_with_optional_password-reads a i f password used text packed form behind start ns there
          needed unpacks known stands size is_form checksum nonzero enough =
        let m = makes_reader crypto L f is_form in
        let (read, all) =
          reads_unpacked K L law P yields f m.made_reader f.compression_method packed text ns
            unpacks refl m.holds (expected m) nonzero enough in
        (
          fresh K L law f m.made_reader,
          read,
          ap (opened K a i password) there
              ∙ ap (opened_with K a i f) needed
              ∙ ap (with_content a i (open_file K used))
                  (locate_known a f start form behind known stands size)
              ∙ (λ k. (
                open_form f used packed form m
                    (supported_method f.compression_method packed text unpacks) k,
                record a { files = set-get_elem a.files i f there k },
              )),
          all,
        )
      where
        expected : (m : Made crypto L f used packed form) → RightSum K L law f m.made_reader text
        expected m = elim checksum [ inl e ↦ inl (m.same_version ∙ e) | inr e ↦ inr e ]
