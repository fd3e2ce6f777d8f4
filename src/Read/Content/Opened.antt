-- ===== src/Read/Content/Opened.antt =====
-- src/read.rs: `make_crypto_reader` on the content of an entry, plain or encrypted.
use zip.Prelude.{
  ℕ, ◌^◌, ◌<◌, ◌≡◌, refl, sym, ap, ◌∙◌, arith, Bool, true, false, Option, none, some, List, [], ◌∷◌,
  ◌++◌, length, append-nil,
}
use zip.Result.{ok}
use zip.Cursor.{Cursor, bind_ok, remaining, advance, remaining-advance}
use zip.Compression.{CompressionMethod}
use zip.Types.File.{AesMode, AesVendorVersion, ae1, ae2, ZipFileData, salt_length}
use zip.AesCtr
use zip.Zipcrypto.{encrypt_all, derive, check_byte}
use zip.Zipcrypto
use zip.Zipcrypto.RoundTrip as Cipher
use zip.Aes
use zip.Aes.{Crypto, IsCrypto}
use zip.Aes.Writer.{frame_bytes, header_bytes, encrypted_bytes, auth_code, IsBehind-new}
use zip.Aes.RoundTrip as Frame
use zip.Aes.Frame.{reader}
use zip.Read.Content.{
  CryptoReader, plaintext, zip_crypto, aes, validator_of, open_reader, is_ae2_encrypted,
}
use zip.Read.Content.Forms.{Holds, plain, by_zip_crypto, by_aes, finished}

-- The vendor's version 2 has no checksum.
abbrev pub is_ae2 : Option (AesMode × AesVendorVersion × CompressionMethod) → Bool
is_ae2 none = false
is_ae2 (some (mode, ae1, method)) = false
is_ae2 (some (mode, ae2, method)) = true

module _ (C : Crypto) (L : IsCrypto C) (f : ZipFileData) where
  -- The bytes that stand for a text, and the password that they are read with.
  pub data IsForm : Option (List ℕ) → List ℕ → List ℕ → Type 0 where
    as_it_is : {text : List ℕ} → f.aes_mode ≡ none → IsForm none text text
    zip_crypto_form :
        {password text form : List ℕ}
        → f.aes_mode ≡ none
        → form
          ≡ (encrypt_all (derive password) (
              Cipher.header
                (check_byte (validator_of C f.crc32 f.last_modified_time f.using_data_descriptor))
              ++ text)).0
        → IsForm (some password) text form
    aes_form :
        {password text form : List ℕ} (mode : AesMode) (v : AesVendorVersion)
        (method : CompressionMethod) (salt : List ℕ)
        → f.aes_mode ≡ some (mode, v, method)
        → length salt ≡ salt_length mode
        → form ≡ frame_bytes C L mode password salt text
        → f.compressed_size ≡ length form
        → f.compressed_size < 2 ^ 64
        → IsForm (some password) text form

  -- A reader that is made, and holds the text.
  pub record Made (password : Option (List ℕ)) (text form : List ℕ) : Type 0 where
    pub made_reader : CryptoReader C
    pub at : Cursor
    pub makes :
        open_reader C password f.aes_mode
          (validator_of C f.crc32 f.last_modified_time f.using_data_descriptor)
          f.compressed_size
          (record { bytes = form; pos = 0 })
        ≡ ok (made_reader, at)
    pub holds : Holds C L made_reader text
    pub same_version : is_ae2_encrypted C made_reader ≡ is_ae2 f.aes_mode

  Made-zip_crypto :
      (password text form : List ℕ)
      → f.aes_mode ≡ none
      → form
        ≡ (encrypt_all (derive password) (
            Cipher.header
              (check_byte (validator_of C f.crc32 f.last_modified_time f.using_data_descriptor))
            ++ text)).0
      → Made (some password) text form
  unfolding is_ae2_encrypted
  Made-zip_crypto password text form e stands =
      let start : Cursor = record { bytes = form; pos = 0 } in
      record {
        made_reader = zip_crypto keys (advance (length sealed) start);
        at = advance (length sealed) start;
        makes = rw (e) (
            bind_ok (Zipcrypto.validate (derive password) validator) _ start
              (Cipher.Reads-validate (derive password) validator start cipher split));
        holds = by_zip_crypto (remaining-advance start sealed cipher (length sealed) refl split);
        same_version = rw (e) refl;
      }
    where
      validator : Zipcrypto.ZipCryptoValidator
      validator = validator_of C f.crc32 f.last_modified_time f.using_data_descriptor

      first : List ℕ
      first = Cipher.header (check_byte validator)

      keys : Zipcrypto.ZipCryptoKeys
      keys = (encrypt_all (derive password) first).1

      sealed : List ℕ
      sealed = (encrypt_all (derive password) first).0

      cipher : List ℕ
      cipher = (encrypt_all keys text).0

      split : form ≡ sealed ++ cipher
      split = stands ∙ Cipher.encrypt_all-append (derive password) first text

  holds_frame :
      (mode : AesMode) (v : AesVendorVersion) (password salt text : List ℕ) (c : Cursor)
      → remaining c
        ≡ encrypted_bytes C L mode password salt text ++ auth_code C L mode password salt text
      → Holds C L (aes (reader C L mode password salt [] (length text) AesCtr.new) v c) text
  holds_frame mode v password salt [] c e = finished refl
  holds_frame mode v password salt (b ∷ bs) c e =
      by_aes mode password salt [] [] AesCtr.new (IsBehind-new C L mode password salt) (omega arith)
        (e
          ∙ ap (λ l. encrypted_bytes C L mode password salt (b ∷ bs) ++ l)
              (sym (append-nil (auth_code C L mode password salt (b ∷ bs)))))

  Made-aes :
      (password text form : List ℕ) (mode : AesMode) (v : AesVendorVersion)
      (method : CompressionMethod) (salt : List ℕ)
      → f.aes_mode ≡ some (mode, v, method)
      → length salt ≡ salt_length mode
      → form ≡ frame_bytes C L mode password salt text
      → f.compressed_size ≡ length form
      → f.compressed_size < 2 ^ 64
      → Made (some password) text form
  unfolding is_ae2_encrypted
  Made-aes password text form mode v method salt e length_salt stands size small =
      let start : Cursor = record { bytes = form; pos = 0 } in
      let behind : Cursor = advance (length head) start in
      record {
        made_reader = aes (reader C L mode password salt [] (length text) AesCtr.new) v behind;
        at = behind;
        makes = rw (e) (
            bind_ok (Aes.validate C mode f.compressed_size password) _ start (
              Frame.Reads-validate C L mode password salt text f.compressed_size length_salt
                (size ∙ ap length stands) small start rest stands));
        holds =
            holds_frame mode v password salt text behind
              (remaining-advance start head rest (length head) refl stands);
        same_version = rw (e) (version v behind);
      }
    where
      head : List ℕ
      head = header_bytes C L mode password salt

      rest : List ℕ
      rest = encrypted_bytes C L mode password salt text ++ auth_code C L mode password salt text

      version :
          (v : AesVendorVersion) (c : Cursor)
          → is_ae2_encrypted C (aes (reader C L mode password salt [] (length text) AesCtr.new) v c)
            ≡ is_ae2 (some (mode, v, method))
      version ae1 c = refl
      version ae2 c = refl

  -- The reader that is made of the bytes for a text holds this text.
  pub makes_reader :
      {password : Option (List ℕ)} {text form : List ℕ}
      → IsForm password text form
      → Made password text form
  unfolding is_ae2_encrypted
  makes_reader {text = text} (as_it_is e) = record {
    made_reader = plaintext (record { bytes = text; pos = 0 });
    at = record { bytes = text; pos = 0 };
    makes = rw (e) refl;
    holds = plain refl;
    same_version = rw (e) refl;
  }
  makes_reader {form = form} (zip_crypto_form {password = password} {text = text} e stands) =
      Made-zip_crypto password text form e stands
  makes_reader {form = form}
        (aes_form {password = password} {text = text} mode v method salt e length_salt stands size
          small) =
      Made-aes password text form mode v method salt e length_salt stands size small
