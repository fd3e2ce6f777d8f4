-- ===== src/Read/Content/Forms.antt =====
-- src/read.rs: a reader of bytes that hold a text, plain, under ZipCrypto or under AES, and what a read
-- of it gives.
use zip.Prelude.{
  ℕ, zero, suc, ◌≤◌, ◌<◌, ◌≡◌, ◌⊎◌, inl, inr, refl, sym, ap, ◌∙◌, arith, true, List, [], ◌∷◌, ◌++◌,
  length, take, drop, append_assoc, length-append, length-drop, take-append-drop, append-nil,
  dec_lt,
}
use zip.Cursor.{Cursor, read, remaining, advance, remaining-advance}
use zip.AesCtr.{AesCtrZipKeyStream}
use zip.AesCtr.Stream.{applied-append}
use zip.Types.File.{AesMode, AesVendorVersion}
use zip.Zipcrypto.{ZipCryptoKeys, read_valid, encrypt_all, encrypt_byte}
use zip.Zipcrypto.RoundTrip.{decrypt_all-encrypt_all}
use zip.Aes
use zip.Aes.{Crypto, IsCrypto, AesReaderValid}
use zip.Aes.Writer.{auth_code, IsBehind, encrypt}
use zip.Aes.Frame.{reader, key_stream, read_some, read_last}
use zip.Crc32.Whole.{Part, Yields}
use zip.Read.Content.{CryptoReader, plaintext, zip_crypto, aes, read_crypto, read_aes}

-- A part of the cipher is the cipher of that part.
take-encrypt_all :
    (n : ℕ) (keys : ZipCryptoKeys) (text : List ℕ)
    → take n (encrypt_all keys text).0 ≡ (encrypt_all keys (take n text)).0
unfolding encrypt_all
take-encrypt_all zero keys text = refl
take-encrypt_all (suc n) keys [] = refl
take-encrypt_all (suc n) keys (b ∷ bs) =
    ap (λ l. (encrypt_byte keys b).0 ∷ l) (take-encrypt_all n (encrypt_byte keys b).1 bs)

drop-encrypt_all :
    (n : ℕ) (keys : ZipCryptoKeys) (text : List ℕ)
    → drop n (encrypt_all keys text).0
      ≡ (encrypt_all (encrypt_all keys (take n text)).1 (drop n text)).0
unfolding encrypt_all
drop-encrypt_all zero keys text = refl
drop-encrypt_all (suc n) keys [] = refl
drop-encrypt_all (suc n) keys (b ∷ bs) = drop-encrypt_all n (encrypt_byte keys b).1 bs

take-nothing : (n : ℕ) (text : List ℕ) → take n text ≡ [] → (n ≡ 0) ⊎ (text ≡ [])
take-nothing zero text e = inl refl
take-nothing (suc n) [] e = inr refl
take-nothing (suc n) (b ∷ bs) e = absurd (cc)

-- Behind what a read of `n` bytes took.
behind_read :
    (n : ℕ) (c : Cursor) (bytes : List ℕ)
    → remaining c ≡ bytes
    → remaining (advance (length (take n (remaining c))) c) ≡ drop n bytes
behind_read n c bytes e =
    remaining-advance c (take n (remaining c)) (drop n bytes) (length (take n (remaining c))) refl
      (sym (take-append-drop n (remaining c)) ∙ ap (λ l. take n (remaining c) ++ drop n l) e)

module _ (C : Crypto) (L : IsCrypto C) where
  -- The text that a reader is still to give.
  pub data Holds : CryptoReader C → List ℕ → Type 0 where
    plain : {c : Cursor} {text : List ℕ} → remaining c ≡ text → Holds (plaintext c) text
    by_zip_crypto :
        {keys : ZipCryptoKeys} {c : Cursor} {text : List ℕ}
        → remaining c ≡ (encrypt_all keys text).0
        → Holds (zip_crypto keys c) text
    by_aes :
        {v : AesVendorVersion} {c : Cursor} {text : List ℕ} (mode : AesMode)
        (password salt seen tail : List ℕ) (s : AesCtrZipKeyStream)
        → IsBehind C L mode password salt s seen
        → 0 < length text
        → remaining c
          ≡ key_stream C L mode password salt (length seen) text
            ++ (auth_code C L mode password salt (seen ++ text) ++ tail)
        → Holds (aes (reader C L mode password salt seen (length text) s) v c) text
    finished :
        {v : AesVendorVersion} {c : Cursor} {r : AesReaderValid C}
        → r.data_remaining ≡ 0
        → Holds (aes r v c) []

  abbrev One : CryptoReader C → List ℕ → ℕ → Type 0
  One = Part (read_crypto C) Holds

  plain_part : (c : Cursor) (text : List ℕ) (n : ℕ) → remaining c ≡ text → One (plaintext c) text n
  unfolding read_crypto read
  plain_part c text n e = record {
    given = take n text;
    rest = drop n text;
    after = plaintext (advance (length (take n (remaining c))) c);
    reads = rw (e) refl;
    parts = sym (take-append-drop n text);
    goes_on = plain (behind_read n c text e);
    ends = take-nothing n text;
  }

  zip_crypto_part :
      (keys : ZipCryptoKeys) (c : Cursor) (text : List ℕ) (n : ℕ)
      → remaining c ≡ (encrypt_all keys text).0
      → One (zip_crypto keys c) text n
  unfolding read_crypto read read_valid
  zip_crypto_part keys c text n e = record {
    given = take n text;
    rest = drop n text;
    after = zip_crypto keys' c';
    reads = rw (e, take-encrypt_all n keys text, decrypt_all-encrypt_all keys (take n text)) refl;
    parts = sym (take-append-drop n text);
    goes_on =
        by_zip_crypto (behind_read n c (encrypt_all keys text).0 e ∙ drop-encrypt_all n keys text);
    ends = take-nothing n text;
  }
    where
      keys' : ZipCryptoKeys
      keys' = (encrypt_all keys (take n text)).1

      c' : Cursor
      c' = advance (length (take n (remaining c))) c

  finished_part :
      (v : AesVendorVersion) (c : Cursor) (r : AesReaderValid C) (n : ℕ)
      → r.data_remaining ≡ 0
      → One (aes r v c) [] n
  unfolding read_crypto Aes.read_valid
  finished_part v c r n e = record {
    given = [];
    rest = [];
    after = aes r v c;
    reads = rw (e, read_aes) refl;
    parts = refl;
    goes_on = finished e;
    ends = λ h. inr refl;
  }

  module _ (mode : AesMode) (password salt : List ℕ) (v : AesVendorVersion) (c : Cursor)
      (seen text tail : List ℕ) (s : AesCtrZipKeyStream)
      (behind : IsBehind C L mode password salt s seen)
      (stands : remaining c
        ≡ key_stream C L mode password salt (length seen) text
          ++ (auth_code C L mode password salt (seen ++ text) ++ tail)) where
    abbrev at_text : CryptoReader C
    at_text = aes (reader C L mode password salt seen (length text) s) v c

    -- A read that leaves some of the text.
    some_part : (n : ℕ) → n < length text → One at_text text n
    unfolding read_crypto
    some_part n lt =
        let (s', behind', one) = read_some C L mode password salt n seen text s behind lt in
        record {
          given = take n text;
          rest = drop n text;
          after =
              aes (reader C L mode password salt (seen ++ take n text) (length (drop n text)) s') v
                (advance (length part) c);
          reads = rw (one c (others ++ (code ++ tail)) in_parts, read_aes) refl;
          parts = sym (take-append-drop n text);
          goes_on =
              by_aes mode password salt (seen ++ take n text) tail s' behind'
                (omega (arith, length-drop n text))
                (remaining-advance c part (others ++ (code ++ tail)) (length part) refl in_parts
                  ∙ ap (λ l. others ++ (auth_code C L mode password salt l ++ tail)) whole);
          ends = take-nothing n text;
        }
      where
        part : List ℕ
        part = key_stream C L mode password salt (length seen) (take n text)

        others : List ℕ
        others = key_stream C L mode password salt (length (seen ++ take n text)) (drop n text)

        code : List ℕ
        code = auth_code C L mode password salt (seen ++ text)

        whole : seen ++ text ≡ (seen ++ take n text) ++ drop n text
        whole = sym (
            append_assoc seen (take n text) (drop n text)
            ∙ ap (λ l. seen ++ l) (take-append-drop n text))

        split : key_stream C L mode password salt (length seen) text ≡ part ++ others
        split =
            ap (λ l. key_stream C L mode password salt (length seen) l)
              (sym (take-append-drop n text))
            ∙ applied-append (encrypt C L mode password salt) (length seen) (take n text)
                (drop n text)
            ∙ ap (λ k. part ++ key_stream C L mode password salt k (drop n text))
                (sym (length-append seen (take n text)))

        in_parts : remaining c ≡ part ++ (others ++ (code ++ tail))
        in_parts =
            stands ∙ ap (λ l. l ++ (code ++ tail)) split ∙ append_assoc part others (code ++ tail)

    -- The read that ends it, and finds the authentication code right.
    last_part : (n : ℕ) → length text ≤ n → 0 < length text → One at_text text n
    unfolding read_crypto
    last_part n le more =
        let (s', one) = read_last C L mode password salt n seen text s behind le more in
        record {
          given = text;
          rest = [];
          after =
              aes (record (reader C L mode password salt (seen ++ text) 0 s') { finalized = true })
                v (advance (length bytes) c);
          reads = rw (one c tail (stands ∙ sym (append_assoc _ _ tail)), read_aes) refl;
          parts = sym (append-nil text);
          goes_on = finished refl;
          ends = inr;
        }
      where
        bytes : List ℕ
        bytes =
            key_stream C L mode password salt (length seen) text
            ++ auth_code C L mode password salt (seen ++ text)

  -- Each read gives a part of the text, and nothing only at its end.
  pub Holds-Yields : Yields (read_crypto C) Holds
  Holds-Yields r text n (plain {c = c} e) = plain_part c text n e
  Holds-Yields r text n (by_zip_crypto {keys = keys} {c = c} e) = zip_crypto_part keys c text n e
  Holds-Yields r text n (by_aes {v = v} {c = c} mode password salt seen tail s behind more stands) =
      elim (dec_lt n (length text)) [
        | yes lt ↦ some_part mode password salt v c seen text tail s behind stands n lt
        | no ge ↦
            last_part mode password salt v c seen text tail s behind stands n (omega arith) more
      ]
  Holds-Yields r text n (finished {v = v} {c = c} {r = r'} e) = finished_part v c r' n e
