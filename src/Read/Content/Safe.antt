-- ===== src/Read/Content/Safe.antt =====
-- src/read.rs: the panics of `get_reader` and of a reader in an invalid state.
use zip.Prelude.{
  ℕ, ◌≡◌, ◌≢◌, refl, sym, ap, ◌∙◌, subst, true, false, Option, none, some, List, [], ◌∷◌,
}
use zip.Result.{ZipResult, ok, err, io}
use zip.Compression.{CompressionMethod}
use zip.Crc32
use zip.Crc32.{Hashing, IoResult, done, failed, panicked, Crc32Reader, checked}
use zip.Types.File.{ZipFileData}
use zip.Read.Content.{
  Crates, CryptoReader, ZipFile, ZipFileReader, no_reader, raw, stored, deflated, deflate64, bzip2,
  zstd, lzma, get_reader, read_from, read_file, make_reader, made, read_ready, with_reader,
  not_supported, plaintext, read_crypto, into_inner, DecodedReader, and_kind, decoding,
  is_ae2_encrypted,
}
use zip.Read.Content.Panics.{can_decode, NeverPanics, read_crypto-safe, checked-safe}

module _ (K : Crates) where
  open K use {crypto, hashing}

  -- One read after another, whatever each of them gives.
  abbrev whatever :
      Option (ZipResult (List ℕ) × ZipFile K)
      → (ZipFile K → Option (ZipFile K))
      → Option (ZipFile K)
  whatever none later = none
  whatever (some (_, f)) later = later f

  unfoldable pub all_reads : List ℕ → ZipFile K → Option (ZipFile K)
  all_reads [] f = some f
  all_reads (n ∷ ns) f = whatever (read_file K f n) (λ f'. all_reads ns f')

  module _ (Sound : K.Decoder → Type 0) (never : NeverPanics K Sound) where
    -- A reader that is there, and goes on.
    abbrev IsOpen : ZipFileReader K → Type 0
    IsOpen no_reader = ⊥
    IsOpen (raw c) = Unit
    IsOpen (stored r) = Unit
    IsOpen (deflated r) = Sound r.inner
    IsOpen (deflate64 r) = Sound r.inner
    IsOpen (bzip2 r) = Sound r.inner
    IsOpen (zstd r) = Sound r.inner
    IsOpen (lzma r) = ⊥

    abbrev IsSafe : CompressionMethod → Type 0
    IsSafe m = (can_decode m ≡ true) × ¬ (m ≡ CompressionMethod.lzma)

    -- A reader that can be read, or that is still to be made and can be.
    abbrev pub IsReadable :
        ZipFileReader K → Option (CryptoReader crypto) → CompressionMethod → Type 0
    IsReadable no_reader none method = ⊥
    IsReadable no_reader (some r) method = IsSafe method
    IsReadable reader crypto_reader method = IsOpen reader

    open-IsReadable :
        (reader : ZipFileReader K) (c : Option (CryptoReader crypto)) (m : CompressionMethod)
        → IsOpen reader
        → IsReadable reader c m
    open-IsReadable no_reader c m o = absurd o
    open-IsReadable (raw r) c m o = o
    open-IsReadable (stored r) c m o = o
    open-IsReadable (deflated r) c m o = o
    open-IsReadable (deflate64 r) c m o = o
    open-IsReadable (bzip2 r) c m o = o
    open-IsReadable (zstd r) c m o = o
    open-IsReadable (lzma r) c m o = absurd o

    -- A read of a reader that is there.
    record ReadsOn (reader : ZipFileReader K) (n : ℕ) : Type 0 where
      result : IoResult (List ℕ)
      after : ZipFileReader K
      goes_on : IsOpen after
      no_panic : ¬ (result ≡ panicked)
      reads_so : read_from K reader n ≡ some (result, after)

    of_decoder :
        (kind : DecodedReader K → ZipFileReader K) (r : DecodedReader K) (n : ℕ)
        → ((s : DecodedReader K) → Sound s.inner → IsOpen (kind s))
        → read_from K (kind r) n
          ≡ some (and_kind K kind (Crc32.read hashing K.Decoder K.decode r n))
        → Sound r.inner
        → ReadsOn (kind r) n
    unfolding Crc32.read
    of_decoder kind r n opens e o =
        let (no_panic, on) = never.decode r.inner n o in
        let (fine, inside) =
          checked-safe hashing K.Decoder K.decode r _ (K.decode r.inner n) no_panic in
        record {
          result = (Crc32.read hashing K.Decoder K.decode r n).0;
          after = kind (Crc32.read hashing K.Decoder K.decode r n).1;
          goes_on = opens _ (subst Sound (sym inside) on);
          no_panic = fine;
          reads_so = e;
        }

    reads-IsOpen : (reader : ZipFileReader K) (n : ℕ) → IsOpen reader → ReadsOn reader n
    unfolding read_from Crc32.read
    reads-IsOpen no_reader n o = absurd o
    reads-IsOpen (raw c) n o = record {
      result = (read_crypto crypto (plaintext c) n).0;
      after = raw (into_inner crypto (read_crypto crypto (plaintext c) n).1);
      goes_on = tt;
      no_panic = read_crypto-safe crypto (plaintext c) n;
      reads_so = refl;
    }
    reads-IsOpen (stored r) n o = record {
      result = (Crc32.read hashing (CryptoReader crypto) (read_crypto crypto) r n).0;
      after = stored (Crc32.read hashing (CryptoReader crypto) (read_crypto crypto) r n).1;
      goes_on = tt;
      no_panic =
          (checked-safe hashing (CryptoReader crypto) (read_crypto crypto) r _
            (read_crypto crypto r.inner n) (read_crypto-safe crypto r.inner n)).0;
      reads_so = refl;
    }
    reads-IsOpen (deflated r) n o = of_decoder deflated r n (λ s h. h) refl o
    reads-IsOpen (deflate64 r) n o = of_decoder deflate64 r n (λ s h. h) refl o
    reads-IsOpen (bzip2 r) n o = of_decoder bzip2 r n (λ s h. h) refl o
    reads-IsOpen (zstd r) n o = of_decoder zstd r n (λ s h. h) refl o
    reads-IsOpen (lzma r) n o = absurd o

    makes-IsOpen :
        (m : CompressionMethod) (crc32 : ℕ) (r : CryptoReader crypto)
        → IsSafe m
        → (reader : ZipFileReader K) × IsOpen reader × (make_reader K m crc32 r ≡ some (ok reader))
    unfolding make_reader
    makes-IsOpen CompressionMethod.stored crc32 r e = (_, tt, refl)
    makes-IsOpen CompressionMethod.deflated crc32 r e =
        (_, never.new_decoder CompressionMethod.deflated r e.1, refl)
    makes-IsOpen CompressionMethod.deflate64 crc32 r e =
        (_, never.new_decoder CompressionMethod.deflate64 r e.1, refl)
    makes-IsOpen CompressionMethod.bzip2 crc32 r e =
        (_, never.new_decoder CompressionMethod.bzip2 r e.1, refl)
    makes-IsOpen CompressionMethod.zstd crc32 r e =
        let (d, makes, sound) = never.new_zstd_decoder r in
        (
          zstd (Crc32.new hashing K.Decoder K.decode d crc32 (is_ae2_encrypted crypto r)),
          sound,
          ap (λ o. decoding K zstd o crc32 r) makes,
        )
    makes-IsOpen CompressionMethod.lzma crc32 r e = absurd (e.1 refl)
    makes-IsOpen CompressionMethod.aes crc32 r (e, _) = absurd (cc)
    makes-IsOpen (CompressionMethod.unsupported v) crc32 r (e, _) = absurd (cc)

    -- What a read gives, and leaves to be read.
    record Goes (f : ZipFile K) (n : ℕ) : Type 0 where
      result : ZipResult (List ℕ)
      after : ZipFile K
      reads_so : read_file K f n ≡ some (result, after)
      goes_on : IsReadable after.reader after.crypto_reader after.entry.compression_method

    given :
        (f : ZipFile K) (result : IoResult (List ℕ)) (after : ZipFileReader K)
        → ¬ (result ≡ panicked)
        → (r : ZipResult (List ℕ)) × (with_reader K (some (result, after)) f
            ≡ some (r, record f { reader = after }))
    given f (done bytes) after h = (ok bytes, refl)
    given f (failed e) after h = (err (io e), refl)
    given f panicked after h = absurd (h refl)

    go_open :
        (f f' : ZipFile K) (n : ℕ)
        → IsOpen f'.reader
        → read_file K f n ≡ with_reader K (read_from K f'.reader n) f'
        → Goes f n
    go_open f f' n o e =
        let on = reads-IsOpen f'.reader n o in
        let (r, gives) = given f' on.result on.after on.no_panic in
        record {
          result = r;
          after = record f' { reader = on.after };
          reads_so = e ∙ ap (λ x. with_reader K x f') on.reads_so ∙ gives;
          goes_on =
              open-IsReadable on.after f'.crypto_reader f'.entry.compression_method on.goes_on;
        }

    go :
        (entry : ZipFileData) (c : Option (CryptoReader crypto)) (reader : ZipFileReader K) (n : ℕ)
        → IsReadable reader c entry.compression_method
        → Goes (record { entry = entry; crypto_reader = c; reader = reader }) n
    unfolding read_file get_reader
    go entry none no_reader n h = absurd h
    go entry (some r) no_reader n h =
        let (reader, o, makes) = makes-IsOpen entry.compression_method entry.crc32 r h in
        let f : ZipFile K = record { entry = entry; crypto_reader = some r; reader = no_reader } in
        go_open f (record f { crypto_reader = none; reader = reader }) n o
          (ap (λ m. read_ready K (made K f m) n) makes)
    go entry c (raw r) n h =
        go_open _ (record { entry = entry; crypto_reader = c; reader = raw r }) n tt refl
    go entry c (stored r) n h =
        go_open _ (record { entry = entry; crypto_reader = c; reader = stored r }) n tt refl
    go entry c (deflated r) n h =
        go_open _ (record { entry = entry; crypto_reader = c; reader = deflated r }) n h refl
    go entry c (deflate64 r) n h =
        go_open _ (record { entry = entry; crypto_reader = c; reader = deflate64 r }) n h refl
    go entry c (bzip2 r) n h =
        go_open _ (record { entry = entry; crypto_reader = c; reader = bzip2 r }) n h refl
    go entry c (zstd r) n h =
        go_open _ (record { entry = entry; crypto_reader = c; reader = zstd r }) n h refl
    go entry c (lzma r) n h = absurd h

    -- No read of a readable file panics.
    pub reads-safe :
        (ns : List ℕ) (f : ZipFile K)
        → IsReadable f.reader f.crypto_reader f.entry.compression_method
        → all_reads ns f ≢ none
    unfolding all_reads
    reads-safe [] f h e = absurd (cc)
    reads-safe (n ∷ ns) f h e =
        let g = go f.entry f.crypto_reader f.reader n h in
        reads-safe ns g.after g.goes_on
          (sym (ap (λ o. whatever o (λ f'. all_reads ns f')) g.reads_so) ∙ e)

  -- An entry of a method that there is no reader for.
  pub panics_after_error :
      (entry : ZipFileData) (r : CryptoReader crypto) (n : ℕ)
      → can_decode entry.compression_method ≡ false
      → (f : ZipFile K) × (read_file K
            (record { entry = entry; crypto_reader = some r; reader = no_reader })
            n
          ≡ some (err not_supported, f))
        × ((k : ℕ) → read_file K f k ≡ none)
  unfolding read_file get_reader make_reader
  panics_after_error entry r n e = (
    record { entry = entry; crypto_reader = none; reader = no_reader },
    ap (λ m. read_ready K (made K file m) n) (refused entry.compression_method e),
    λ k. refl,
  )
    where
      file : ZipFile K
      file = record { entry = entry; crypto_reader = some r; reader = no_reader }

      refused :
          (m : CompressionMethod)
          → can_decode m ≡ false
          → make_reader K m entry.crc32 r ≡ some (err not_supported)
      refused CompressionMethod.stored e = absurd (cc)
      refused CompressionMethod.deflated e = absurd (cc)
      refused CompressionMethod.deflate64 e = absurd (cc)
      refused CompressionMethod.bzip2 e = absurd (cc)
      refused CompressionMethod.zstd e = absurd (cc)
      refused CompressionMethod.lzma e = absurd (cc)
      refused CompressionMethod.aes e = refl
      refused (CompressionMethod.unsupported v) e = refl
