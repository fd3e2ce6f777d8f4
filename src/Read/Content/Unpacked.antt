-- ===== src/Read/Content/Unpacked.antt =====
-- src/read.rs: the content of an entry is unpacked by the decoder of its method.
use zip.Prelude.{
  ℕ, ◌≤◌, ◌≡◌, ◌≢◌, ◌⊎◌, refl, sym, ap, ◌∙◌, subst, arith, true, none, some, List, [], ◌∷◌, length,
  All,
}
use zip.Result.{ok}
use zip.Compression.{CompressionMethod}
use zip.Types.File.{ZipFileData}
use zip.Aes.{IsCrypto}
use zip.Crc32
use zip.Crc32.{IoResult, Crc32Reader}
use zip.Crc32.Checked.{IsHashing}
use zip.Crc32.Whole.{Yields}
use zip.Read.Content.{
  Crates, CryptoReader, read_crypto, ZipFile, ZipFileReader, no_reader, stored, deflated, deflate64,
  bzip2, zstd, lzma, get_reader, read_from, read_file, make_reader, is_ae2_encrypted, made,
  decoding, read_ready, and_kind,
}
use zip.Read.Content.Whole.{reads, reads_kind, and_then}
use zip.Read.Content.Forms.{Holds, Holds-Yields}

module _ (K : Crates) (L : IsCrypto K.crypto) (law : IsHashing K.hashing) where
  open K use {crypto, hashing}

  -- The reader of an entry before its first read, and a reader of some kind behind the checksum's test.
  abbrev pub fresh : ZipFileData → CryptoReader crypto → ZipFile K
  fresh f r = record { entry = f; crypto_reader = some r; reader = no_reader }

  abbrev ready : ZipFileData → ZipFileReader K → ZipFile K
  ready f reader = record { entry = f; crypto_reader = none; reader = reader }

  abbrev pub RightSum : ZipFileData → CryptoReader crypto → List ℕ → Type 0
  RightSum f r text =
      (is_ae2_encrypted crypto r ≡ true)
      ⊎ (f.crc32 ≡ hashing.finalize (hashing.update hashing.new_hasher text))

  module _ {R : Type 0} (inner_read : R → ℕ → IoResult (List ℕ) × R)
      (kind : Crc32Reader hashing R inner_read → ZipFileReader K)
      (of_kind : (r : Crc32Reader hashing R inner_read) (n : ℕ)
        → read_from K (kind r) n ≡ some (and_kind K kind (Crc32.read hashing R inner_read r n)))
      (there : (f : ZipFile K) (r : Crc32Reader hashing R inner_read)
        → get_reader K (record f { reader = kind r }) ≡ some (ok tt, record f { reader = kind r }))
      (P : R → List ℕ → Type 0) (yields : Yields inner_read P) (f : ZipFileData)
      (r : CryptoReader crypto) (m : CompressionMethod) (inner : R) where
    abbrev at_start : Crc32Reader hashing R inner_read
    at_start = Crc32.new hashing R inner_read inner f.crc32 (is_ae2_encrypted crypto r)

    first_read :
        (n : ℕ)
        → f.compression_method ≡ m
        → make_reader K m f.crc32 r ≡ some (ok (kind at_start))
        → read_file K (fresh f r) n ≡ read_file K (ready f (kind at_start)) n
    unfolding read_file get_reader
    first_read n e makes =
        ap (λ m. read_ready K (made K (fresh f r) (make_reader K m f.crc32 r)) n) e
        ∙ ap (λ reader. read_ready K (made K (fresh f r) reader) n) makes
        ∙ sym (ap (λ g. read_ready K g n) (there (ready f (kind at_start)) at_start))

    reads_fresh :
        (text ns : List ℕ)
        → f.compression_method ≡ m
        → make_reader K m f.crc32 r ≡ some (ok (kind at_start))
        → P inner text
        → RightSum f r text
        → All (λ n. n ≢ 0) ns
        → length text ≤ length ns
        → (file : ZipFile K) × (reads K ns (fresh f r) ≡ some (ok text, file))
    unfolding reads
    reads_fresh [] [] e makes h checksum nonzero enough = (fresh f r, refl)
    reads_fresh (b ∷ bs) [] e makes h checksum nonzero enough = absurd (omega arith)
    reads_fresh text (n ∷ ns) e makes h checksum nonzero enough =
        let (file, all) =
          reads_kind K inner_read kind of_kind there P law yields (n ∷ ns) (ready f (kind at_start))
            at_start text
            (record {
              seen = [];
              inner = h;
              hashed = sym (law.nothing hashing.new_hasher);
              expected = checksum;
            })
            nonzero enough in
        (file, ap (λ o. and_then K o (λ g. reads K ns g)) (first_read n e makes) ∙ all)

  -- What is packed by a method, and is unpacked: a decoder of the method on a reader of the packed
  -- bytes is to give the text. `P` says what a decoder is still to give.
  abbrev pub Unpacks :
      (P : K.Decoder → List ℕ → Type 0) → CompressionMethod → (packed text : List ℕ) → Type 0
  Unpacks P CompressionMethod.stored packed text = packed ≡ text
  Unpacks P CompressionMethod.aes packed text = ⊥
  Unpacks P (CompressionMethod.unsupported v) packed text = ⊥
  Unpacks P CompressionMethod.zstd packed text =
      (r : CryptoReader crypto)
      → Holds crypto L r packed
      → (d : K.Decoder) × (K.new_zstd_decoder r ≡ some d) × P d text
  Unpacks P method packed text =
      (r : CryptoReader crypto) → Holds crypto L r packed → P (K.new_decoder method r) text

  module _ (P : K.Decoder → List ℕ → Type 0) (yields : Yields K.decode P) where
    pub reads_unpacked :
        (f : ZipFileData) (r : CryptoReader crypto) (m : CompressionMethod)
        (packed text ns : List ℕ)
        → Unpacks P m packed text
        → f.compression_method ≡ m
        → Holds crypto L r packed
        → RightSum f r text
        → All (λ n. n ≢ 0) ns
        → length text ≤ length ns
        → (file : ZipFile K) × (reads K ns (fresh f r) ≡ some (ok text, file))
    unfolding read_from get_reader make_reader
    reads_unpacked f r CompressionMethod.stored packed text ns u e h =
        reads_fresh (read_crypto crypto) stored (λ r n. refl) (λ f r. refl) (Holds crypto L)
          (Holds-Yields crypto L) f r CompressionMethod.stored r text ns e refl
          (subst (Holds crypto L r) u h)
    reads_unpacked f r CompressionMethod.deflated packed text ns u e h =
        reads_fresh K.decode deflated (λ r n. refl) (λ f r. refl) P yields f r
          CompressionMethod.deflated (K.new_decoder CompressionMethod.deflated r) text ns e refl
          (u r h)
    reads_unpacked f r CompressionMethod.deflate64 packed text ns u e h =
        reads_fresh K.decode deflate64 (λ r n. refl) (λ f r. refl) P yields f r
          CompressionMethod.deflate64 (K.new_decoder CompressionMethod.deflate64 r) text ns e refl
          (u r h)
    reads_unpacked f r CompressionMethod.bzip2 packed text ns u e h =
        reads_fresh K.decode bzip2 (λ r n. refl) (λ f r. refl) P yields f r CompressionMethod.bzip2
          (K.new_decoder CompressionMethod.bzip2 r) text ns e refl (u r h)
    reads_unpacked f r CompressionMethod.zstd packed text ns u e h =
        let (d, makes, holds) = u r h in
        reads_fresh K.decode zstd (λ r n. refl) (λ f r. refl) P yields f r CompressionMethod.zstd d
          text ns e (ap (λ o. decoding K zstd o f.crc32 r) makes) holds
    reads_unpacked f r CompressionMethod.lzma packed text ns u e h =
        reads_fresh K.decode lzma (λ r n. refl) (λ f r. refl) P yields f r CompressionMethod.lzma
          (K.new_decoder CompressionMethod.lzma r) text ns e refl (u r h)
    reads_unpacked f r CompressionMethod.aes packed text ns u e h = absurd u
    reads_unpacked f r (CompressionMethod.unsupported v) packed text ns u e h = absurd u
