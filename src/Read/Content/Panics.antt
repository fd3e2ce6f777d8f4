-- ===== src/Read/Content/Panics.antt =====
-- src/read.rs: which readers of an entry's content do not panic by themselves.
use zip.Prelude.{ℕ, ◌≡◌, refl, Bool, true, false, some, List, [], ◌∷◌}
use zip.Result.{ZipResult, ok, err}
use zip.Compression.{CompressionMethod}
use zip.Aes
use zip.Aes.{Crypto, AesReaderValid}
use zip.Zipcrypto
use zip.Zipcrypto.{ZipCryptoKeys}
use zip.Cursor.{Cursor, read}
use zip.Crc32.{Hashing, IoResult, done, failed, panicked, Crc32Reader, checked}
use zip.Read.Content.{
  Crates, CryptoReader, plaintext, zip_crypto, aes, read_plaintext, read_zip_crypto, read_aes,
  read_crypto,
}

-- The methods that there is a reader for.
abbrev pub can_decode : CompressionMethod → Bool
can_decode CompressionMethod.aes = false
can_decode (CompressionMethod.unsupported v) = false
can_decode method = true

-- The decoders, but the one of LZMA, do not panic: the one of zstd is made, and reads go on.
pub record NeverPanics (K : Crates) (Sound : K.Decoder → Type 0) : Type 0 where
  pub new_decoder :
      (m : CompressionMethod) (r : CryptoReader K.crypto)
      → ¬ (m ≡ CompressionMethod.lzma)
      → Sound (K.new_decoder m r)
  pub new_zstd_decoder :
      (r : CryptoReader K.crypto) → (d : K.Decoder) × (K.new_zstd_decoder r ≡ some d) × Sound d
  pub decode :
      (d : K.Decoder) (n : ℕ) → Sound d → ¬ ((K.decode d n).0 ≡ panicked) × Sound (K.decode d n).1

-- The readers of the bytes do not panic.
pub read_crypto-safe :
    (C : Crypto) (r : CryptoReader C) (n : ℕ) → ¬ ((read_crypto C r n).0 ≡ panicked)
unfolding read_crypto
read_crypto-safe C (plaintext c) n e = plain (read n c) e
  where
    plain : (a : ZipResult (List ℕ × Cursor)) → ¬ ((read_plaintext C a c).0 ≡ panicked)
    plain (ok (bytes, c')) e = absurd (cc)
    plain (err x) e = absurd (cc)
read_crypto-safe C (zip_crypto keys c) n e = sealed (Zipcrypto.read_valid keys n c) e
  where
    sealed :
        (a : ZipResult ((List ℕ × ZipCryptoKeys) × Cursor))
        → ¬ ((read_zip_crypto C a keys c).0 ≡ panicked)
    sealed (ok ((bytes, keys'), c')) e = absurd (cc)
    sealed (err x) e = absurd (cc)
read_crypto-safe C (aes r vendor_version c) n e = framed (Aes.read_valid C n r c) e
  where
    framed :
        (a : ZipResult ((List ℕ × AesReaderValid C) × Cursor))
        → ¬ ((read_aes C a r vendor_version c).0 ≡ panicked)
    framed (ok ((bytes, r'), c')) e = absurd (cc)
    framed (err x) e = absurd (cc)

-- What is behind the test of the checksum panics only with the reader inside.
module _ (H : Hashing) (R : Type 0) (inner_read : R → ℕ → IoResult (List ℕ) × R) where
  pub checked-safe :
      (r : Crc32Reader H R inner_read) (bad : Bool) (a : IoResult (List ℕ) × R)
      → ¬ (a.0 ≡ panicked)
      → ¬ ((checked H R inner_read r bad a).0 ≡ panicked)
        × ((checked H R inner_read r bad a).1.inner ≡ a.1)
  checked-safe r true (done [], inner) h = (λ e. absurd (cc), refl)
  checked-safe r false (done [], inner) h = (λ e. absurd (cc), refl)
  checked-safe r bad (done (b ∷ bs), inner) h = (λ e. absurd (cc), refl)
  checked-safe r bad (failed x, inner) h = (λ e. absurd (cc), refl)
  checked-safe r bad (panicked, inner) h = absurd (h refl)
