-- ===== src/Aes/Writer.antt =====
-- src/aes.rs: what the writer leaves in the file, however its data come.
use native.Mathlib.Nat.{zero-add}
use zip.Prelude.{
  ℕ, ◌≡◌, sym, ap, ◌∙◌, subst, none, List, [], ◌∷◌, ◌++◌, length, take, append-nil, append_assoc,
  length-append,
}
use zip.Cursor.{Cursor, wrote}
use zip.Cursor.Write.{wrote-append}
use zip.AesCtr
use zip.AesCtr.{AesCtrZipKeyStream, crypt_in_place}
use zip.AesCtr.Stream.{UsedIn, new_used, applied, applied-append, crypt_in_place_lem}
use zip.Types.File.{AesMode}
use zip.Aes.{
  Crypto, IsCrypto, auth_code_length, AesWriter, Cipher, crypt, crypt_key, hmac_key, pwd_verify,
  new_writer, write, finish,
}

-- Data that come in pieces.
unfoldable pub concat : List (List ℕ) → List ℕ
concat [] = []
concat (buf ∷ bufs) = buf ++ concat bufs

module _ (C : Crypto) (L : IsCrypto C) (mode : AesMode) (password salt : List ℕ) where
  abbrev pub encrypt : List ℕ → List ℕ
  encrypt block = C.encrypt_block mode (crypt_key C mode password salt) block

  encrypt-length : (block : List ℕ) → length block ≡ 16 → length (encrypt block) ≡ 16
  encrypt-length block h = L.length-encrypt_block mode (crypt_key C mode password salt) block h

  abbrev pub header_bytes : List ℕ
  header_bytes = salt ++ pwd_verify C mode password salt

  -- The encrypted data, and what authenticates them.
  abbrev pub encrypted_bytes : List ℕ → List ℕ
  encrypted_bytes text = applied encrypt 0 text

  abbrev pub mac_of : List ℕ → C.Mac
  mac_of text = C.update (C.new_from_slice (hmac_key C mode password salt)) (encrypted_bytes text)

  abbrev pub auth_code : List ℕ → List ℕ
  auth_code text = take auth_code_length (C.finalize (mac_of text))

  -- The whole frame.
  abbrev pub frame_bytes : List ℕ → List ℕ
  frame_bytes text = header_bytes ++ (encrypted_bytes text ++ auth_code text)

  abbrev pub cipher_at : AesCtrZipKeyStream → Cipher C
  cipher_at s = record { mode = mode; key = crypt_key C mode password salt; stream = s }

  -- The stream behind a text.
  abbrev pub IsBehind : AesCtrZipKeyStream → List ℕ → Type 0
  IsBehind s text = (q : ℕ) × UsedIn encrypt s (length text) q

  pub IsBehind-new : IsBehind AesCtr.new []
  IsBehind-new = (0, new_used encrypt encrypt-length)

  pub crypt_lem :
      (s : AesCtrZipKeyStream) (text buf : List ℕ)
      → IsBehind s text
      → (s' : AesCtrZipKeyStream) × IsBehind s' (text ++ buf)
        × (crypt C (cipher_at s) buf ≡ (applied encrypt (length text) buf, cipher_at s'))
  unfolding crypt
  crypt_lem s text buf (q, u) =
      let (done, (q', u')) = crypt_in_place_lem encrypt encrypt-length s buf (length text) q u in
      let s' = (crypt_in_place encrypt s buf).1 in
      (
        s',
        (q', subst (λ n. UsedIn encrypt s' n q') (sym (length-append text buf)) u'),
        λ i. (done i, cipher_at s'),
      )

  -- A writer behind a text.
  abbrev behind : Cursor → List ℕ → AesCtrZipKeyStream → AesWriter C
  behind start text s = record {
    writer = wrote (header_bytes ++ encrypted_bytes text) start;
    cipher = cipher_at s;
    hmac = mac_of text;
    encrypted_file_header = none;
  }

  pub applied-next :
      (text buf : List ℕ)
      → encrypted_bytes text ++ applied encrypt (length text) buf ≡ encrypted_bytes (text ++ buf)
  applied-next text buf =
      ap (λ k. encrypted_bytes text ++ applied encrypt k buf) (sym (zero-add (length text)))
      ∙ sym (applied-append encrypt 0 text buf)

  pub mac-next :
      (text buf : List ℕ)
      → C.update (mac_of text) (applied encrypt (length text) buf) ≡ mac_of (text ++ buf)
  mac-next text buf =
      L.update-append (C.new_from_slice (hmac_key C mode password salt)) (encrypted_bytes text) _
      ∙ ap (C.update (C.new_from_slice (hmac_key C mode password salt))) (applied-next text buf)

  write-behind :
      (start : Cursor) (text buf : List ℕ) (s : AesCtrZipKeyStream)
      → IsBehind s text
      → (s' : AesCtrZipKeyStream) × IsBehind s' (text ++ buf)
        × (write C buf (behind start text s) ≡ behind start (text ++ buf) s')
  unfolding write
  write-behind start text buf s h =
      let (s', h', e) = crypt_lem s text buf h in
      (
        s',
        h',
        ap
              (λ p. record {
                writer = wrote p.0 (wrote (header_bytes ++ encrypted_bytes text) start);
                cipher = p.1;
                hmac = C.update (mac_of text) p.0;
                encrypted_file_header = none;
              })
              e
            ∙ λ i. record (behind start (text ++ buf) s') {
              writer = on i;
              hmac = mac-next text buf i;
            },
      )
    where
      on :
          wrote
            (applied encrypt (length text) buf)
            (wrote (header_bytes ++ encrypted_bytes text) start)
          ≡ wrote (header_bytes ++ encrypted_bytes (text ++ buf)) start
      on =
          wrote-append (header_bytes ++ encrypted_bytes text) _ start
          ∙ ap (λ l. wrote l start) (append_assoc header_bytes (encrypted_bytes text) _)
          ∙ ap (λ l. wrote (header_bytes ++ l) start) (applied-next text buf)

  -- A writer behind its header.
  begun : Cursor → AesWriter C
  begun start = record {
    writer = wrote header_bytes start;
    cipher = cipher_at AesCtr.new;
    hmac = C.new_from_slice (hmac_key C mode password salt);
    encrypted_file_header = none;
  }

  begun-behind : (start : Cursor) → begun start ≡ behind start [] AesCtr.new
  unfolding applied begun
  begun-behind start = sym (λ i. record (begun start) {
    writer = wrote (append-nil header_bytes i) start;
    hmac = L.update-nil (C.new_from_slice (hmac_key C mode password salt)) i;
  })

  -- The first piece writes the header.
  write-new :
      (start : Cursor) (buf : List ℕ)
      → write C buf (new_writer C start mode password salt)
        ≡ write C buf (behind start [] AesCtr.new)
  unfolding write new_writer begun
  write-new start buf = ap (write C buf) (begun-behind start)

  abbrev pub write_pieces : List (List ℕ) → AesWriter C → AesWriter C
  write_pieces [] w = w
  write_pieces (buf ∷ bufs) w = write_pieces bufs (write C buf w)

  finish-behind :
      (start : Cursor) (text : List ℕ) (s : AesCtrZipKeyStream)
      → finish C (behind start text s) ≡ wrote (frame_bytes text) start
  unfolding finish
  finish-behind start text s =
      wrote-append (header_bytes ++ encrypted_bytes text) (auth_code text) start
      ∙ ap (λ l. wrote l start) (append_assoc header_bytes (encrypted_bytes text) (auth_code text))

  pieces-behind :
      (start : Cursor) (bufs : List (List ℕ)) (text : List ℕ) (s : AesCtrZipKeyStream)
      → IsBehind s text
      → finish C (write_pieces bufs (behind start text s))
        ≡ wrote (frame_bytes (text ++ concat bufs)) start
  unfolding concat
  pieces-behind start [] text s h =
      finish-behind start text s ∙ ap (λ t. wrote (frame_bytes t) start) (sym (append-nil text))
  pieces-behind start (buf ∷ bufs) text s h =
      let (s', h', e) = write-behind start text buf s h in
      ap (λ w. finish C (write_pieces bufs w)) e
      ∙ pieces-behind start bufs (text ++ buf) s' h'
      ∙ ap (λ t. wrote (frame_bytes t) start) (append_assoc text buf (concat bufs))

  -- However the text comes in pieces, the writer leaves one frame: the salt and the two bytes that
  -- verify the password, the encrypted text and its authentication code.
  pub finish-write_pieces :
      (start : Cursor) (bufs : List (List ℕ))
      → finish C (write_pieces bufs (new_writer C start mode password salt))
        ≡ wrote (frame_bytes (concat bufs)) start
  unfolding concat new_writer finish begun
  finish-write_pieces start [] =
      ap (finish C) (begun-behind start) ∙ finish-behind start [] AesCtr.new
  finish-write_pieces start (buf ∷ bufs) =
      ap (λ w. finish C (write_pieces bufs w)) (write-new start buf)
      ∙ pieces-behind start (buf ∷ bufs) [] AesCtr.new IsBehind-new
