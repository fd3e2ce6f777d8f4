-- ===== src/Aes/RoundTrip.antt =====
-- src/aes.rs: what the writer encrypts, the reader decrypts and authenticates, with the same password.
use zip.Prelude.{
  ℕ, ◌+◌, ◌*◌, ◌^◌, ◌≤◌, ◌<◌, ◌≡◌, refl, sym, ap, ◌∙◌, arith, true, List, [], ◌∷◌, ◌++◌, length,
  take, drop, dec_lt, append_assoc, length-append, length-take, length-drop, take-append-drop,
  append-nil,
}
use zip.Result.{ok}
use zip.Cursor.{
  Cursor, Io, ◌>>=◌, pure, read_exact, remaining, advance, wrote, bind_ok, remaining-advance,
}
use zip.Cursor.Write.{drop-overwrite}
use zip.Cursor.Codec.{Reads, Reads->>=, Reads-then, Reads-read_exact}
use zip.AesCtr
use zip.AesCtr.{AesCtrZipKeyStream}
use zip.AesCtr.Stream.{applied, applied-append, length-applied}
use zip.Types.File.{AesMode, key_length, salt_length}
use zip.Aes.{
  Crypto, IsCrypto, auth_code_length, hmac_key, pwd_verify, pwd_verify_length, AesReaderValid,
  data_length, validate, read_valid, new_writer, finish,
}
use zip.Aes.Writer.{
  concat, encrypt, header_bytes, encrypted_bytes, mac_of, auth_code, frame_bytes, IsBehind,
  IsBehind-new, write_pieces, finish-write_pieces,
}
use zip.Aes.Frame.{same_bytes_refl, reader, key_stream, read_some, read_last}

abbrev pub total : List ℕ → ℕ
total [] = 0
total (n ∷ ns) = n + total ns

-- One read after another, into buffers of some lengths.
unfoldable pub reads : (C : Crypto) → List ℕ → AesReaderValid C → Io (List ℕ × AesReaderValid C)
unfolding read_valid
reads C [] r = pure ([], r)
reads C (n ∷ ns) r = do
  one ← read_valid C n r
  more ← reads C ns one.1
  pure (one.0 ++ more.0, more.1)

reads_done :
    (C : Crypto) (ns : List ℕ) (r : AesReaderValid C) (c : Cursor)
    → r.data_remaining ≡ 0
    → reads C ns r c ≡ ok (([], r), c)
unfolding reads read_valid
reads_done C [] r c h = refl
reads_done C (n ∷ ns) r c h =
    bind_ok (read_valid C n r) _ c {a = ([], r)} {c' = c} (rw (h) refl)
    ∙ bind_ok (reads C ns r) _ c (reads_done C ns r c h)

module _ (C : Crypto) (L : IsCrypto C) (mode : AesMode) (password salt : List ℕ) where
  -- The rest of a text comes, whatever the lengths of the buffers are.
  reads_lem :
      (ns : List ℕ) (full text rest tail : List ℕ) (s : AesCtrZipKeyStream) (c : Cursor)
      → full ≡ text ++ rest
      → IsBehind C L mode password salt s text
      → 0 < length rest
      → length rest ≤ total ns
      → remaining c
        ≡ key_stream C L mode password salt (length text) rest
          ++ (auth_code C L mode password salt full ++ tail)
      → (r : AesReaderValid C) × (c' : Cursor) × (reads C ns
            (reader C L mode password salt text (length rest) s)
            c
          ≡ ok ((rest, r), c'))
  unfolding reads
  reads_lem [] full text rest tail s c e h more enough stands = absurd (omega arith)
  reads_lem (n ∷ ns) full text rest tail s c e h more enough stands =
      elim (dec_lt n (length rest)) [
        | yes lt ↦
            let (s', h', first) = read_some C L mode password salt n text rest s h lt in
            let c₁ = advance (length part) c in
            let (r, c', later) =
              reads_lem ns full (text ++ take n rest) (drop n rest) tail s' c₁ whole h'
                (omega (arith, length-drop n rest)) (omega (arith, length-drop n rest))
                (remaining-advance c part (others ++ (code ++ tail)) (length part) refl in_parts) in
            (
              r,
              c',
              bind_ok (read_valid C n (reader C L mode password salt text (length rest) s)) _ c
                    (first c (others ++ (code ++ tail)) in_parts)
                  ∙ bind_ok
                      (reads C ns (
                        reader C L mode password salt (text ++ take n rest) (length (drop n rest))
                          s'))
                      _ c₁ later
                  ∙ ap (λ l. ok ((l, r), c')) (take-append-drop n rest),
            )
        | no ge ↦
            let (s', last) = read_last C L mode password salt n text rest s h (omega arith) more in
            let done = record (reader C L mode password salt (text ++ rest) 0 s') {
              finalized = true;
            } in
            let c₁ =
              advance (length (cipher_text ++ auth_code C L mode password salt (text ++ rest))) c in
            (
              done,
              c₁,
              bind_ok (read_valid C n (reader C L mode password salt text (length rest) s)) _ c
                    (last c tail at_end)
                  ∙ bind_ok (reads C ns done) _ c₁ (reads_done C ns done c₁ refl)
                  ∙ ap (λ l. ok ((l, done), c₁)) (append-nil rest),
            )
      ]
    where
      cipher_text : List ℕ
      cipher_text = key_stream C L mode password salt (length text) rest

      part : List ℕ
      part = key_stream C L mode password salt (length text) (take n rest)

      others : List ℕ
      others = key_stream C L mode password salt (length (text ++ take n rest)) (drop n rest)

      code : List ℕ
      code = auth_code C L mode password salt full

      whole : full ≡ (text ++ take n rest) ++ drop n rest
      whole =
          e
          ∙ sym (
              append_assoc text (take n rest) (drop n rest)
              ∙ ap (λ l. text ++ l) (take-append-drop n rest))

      split : cipher_text ≡ part ++ others
      split =
          ap (λ l. key_stream C L mode password salt (length text) l)
            (sym (take-append-drop n rest))
          ∙ applied-append (encrypt C L mode password salt) (length text) (take n rest)
              (drop n rest)
          ∙ ap (λ k. part ++ key_stream C L mode password salt k (drop n rest))
              (sym (length-append text (take n rest)))

      in_parts : remaining c ≡ part ++ (others ++ (code ++ tail))
      in_parts =
          stands ∙ ap (λ l. l ++ (code ++ tail)) split ∙ append_assoc part others (code ++ tail)

      at_end :
          remaining c ≡ (cipher_text ++ auth_code C L mode password salt (text ++ rest)) ++ tail
      at_end =
          stands
          ∙ ap (λ t. cipher_text ++ (auth_code C L mode password salt t ++ tail)) e
          ∙ sym (append_assoc cipher_text (auth_code C L mode password salt (text ++ rest)) tail)

  -- `validate` at the frame of a text.
  pub Reads-validate :
      (text : List ℕ) (size : ℕ)
      → length salt ≡ salt_length mode
      → size ≡ length (frame_bytes C L mode password salt text)
      → size < 2 ^ 64
      → Reads
          (validate C mode size password)
          (header_bytes C L mode password salt)
          (reader C L mode password salt [] (length text) AesCtr.new)
  unfolding validate applied
  Reads-validate text size length_salt h small =
      Reads->>= (read_exact (salt_length mode)) _ salt (pwd_verify C mode password salt)
        (Reads-read_exact salt (salt_length mode) length_salt)
        (Reads-then (read_exact pwd_verify_length) _ (pwd_verify C mode password salt)
          (Reads-read_exact (pwd_verify C mode password salt) pwd_verify_length two)
          (λ c. rw (same_bytes_refl (pwd_verify C mode password salt)) (λ i. ok (
            record (reader C L mode password salt [] (length text) AesCtr.new) {
              data_remaining = left i;
              hmac = sym (L.update-nil (C.new_from_slice (hmac_key C mode password salt))) i;
            },
            c,
          ))))
    where
      two : length (pwd_verify C mode password salt) ≡ pwd_verify_length
      two = omega (
        arith,
        length-drop (2 * key_length mode) (C.derive password salt (2 * key_length mode + 2)),
        L.length-derive password salt (2 * key_length mode + 2),
      )

      left : data_length C mode size ≡ length text
      left = omega (
        arith,
        two,
        length-append salt (pwd_verify C mode password salt),
        length-append (header_bytes C L mode password salt)
            (encrypted_bytes C L mode password salt text ++ auth_code C L mode password salt text),
        length-append (encrypted_bytes C L mode password salt text)
            (auth_code C L mode password salt text),
        length-applied (encrypt C L mode password salt) 0 text,
        length-take auth_code_length (C.finalize (mac_of C L mode password salt text)),
        L.length-finalize (mac_of C L mode password salt text),
      )

  all_reads :
      (text ns tail : List ℕ) (c : Cursor)
      → length text ≤ total ns
      → remaining c
        ≡ encrypted_bytes C L mode password salt text
          ++ (auth_code C L mode password salt text ++ tail)
      → (r : AesReaderValid C) × (c' : Cursor) × (reads C ns
            (reader C L mode password salt [] (length text) AesCtr.new)
            c
          ≡ ok ((text, r), c'))
  all_reads [] ns tail c enough stands = (
    reader C L mode password salt [] 0 AesCtr.new,
    c,
    reads_done C ns (reader C L mode password salt [] 0 AesCtr.new) c refl,
  )
  all_reads (b ∷ bs) ns tail c enough stands =
      reads_lem ns (b ∷ bs) [] (b ∷ bs) tail AesCtr.new c refl (IsBehind-new C L mode password salt)
        (omega arith) enough stands

-- A reader of a frame of some size, that reads into buffers of some lengths.
abbrev pub read_frame :
    (C : Crypto) → AesMode → ℕ → List ℕ → List ℕ → Io (List ℕ × AesReaderValid C)
read_frame C mode size password ns = do valid ← validate C mode size password; reads C ns valid

-- With the crates as they are documented and a salt of the mode's length: a text that is written in
-- any pieces, and finished, is read back with the same password from where it was written. The
-- password is accepted, reads into buffers of any lengths, large enough together, give the whole
-- text, and the authentication code is found right. The frame is shorter than 2^64 bytes.
pub reads-write_pieces :
    (C : Crypto) (L : IsCrypto C) (mode : AesMode) (password salt : List ℕ) (bufs : List (List ℕ))
    (ns : List ℕ) (start : Cursor)
    → length salt ≡ salt_length mode
    → length (frame_bytes C L mode password salt (concat bufs)) < 2 ^ 64
    → length (concat bufs) ≤ total ns
    → (r : AesReaderValid C) × (c : Cursor) × (read_frame C mode
          (length (frame_bytes C L mode password salt (concat bufs)))
          password
          ns
          (record (finish C
            (write_pieces C L mode password salt bufs (new_writer C start mode password salt))) {
              pos = start.pos;
            })
        ≡ ok ((concat bufs, r), c))
reads-write_pieces C L mode password salt bufs ns start length_salt small enough =
    let (r, c, done) = all_reads C L mode password salt text ns tail c₁ enough behind_header in
    (
      r,
      c,
      ap
            (λ (d : Cursor).
              read_frame C mode (length frame) password ns (record d { pos = start.pos }))
            (finish-write_pieces C L mode password salt start bufs)
          ∙ bind_ok (validate C mode (length frame) password) (reads C ns) at_start (
              Reads-validate C L mode password salt text (length frame) length_salt refl small
                at_start ((encrypted ++ code) ++ tail) stands)
          ∙ done,
    )
  where
    text : List ℕ
    text = concat bufs

    frame : List ℕ
    frame = frame_bytes C L mode password salt text

    header : List ℕ
    header = header_bytes C L mode password salt

    encrypted : List ℕ
    encrypted = encrypted_bytes C L mode password salt text

    code : List ℕ
    code = auth_code C L mode password salt text

    at_start : Cursor
    at_start = record (wrote frame start) { pos = start.pos }

    tail : List ℕ
    tail = drop (length frame) (remaining start)

    c₁ : Cursor
    c₁ = advance (length header) at_start

    stands : remaining at_start ≡ header ++ ((encrypted ++ code) ++ tail)
    stands =
        drop-overwrite start.pos frame start.bytes ∙ append_assoc header (encrypted ++ code) tail

    behind_header : remaining c₁ ≡ encrypted ++ (code ++ tail)
    behind_header =
        remaining-advance at_start header ((encrypted ++ code) ++ tail) (length header) refl stands
        ∙ append_assoc encrypted code tail
