-- ===== src/Aes/Frame.antt =====
-- src/aes.rs: the reader gets the text back from the frame that the writer leaves, and finds the
-- authentication code right.
use zip.Prelude.{
  ℕ, ◌-◌, ◌≤◌, ◌<◌, ◌≡◌, refl, sym, ap, ◌∙◌, subst, arith, min, true, false, ◌==◌, ==_refl, List,
  [], ◌∷◌, ◌++◌, length, take, drop, length-append, length-take, length-drop, if◌then◌else◌,
}
use zip.Cursor.{pure, read, read_exact}
use zip.Cursor.Codec.{Reads, Reads->>=, Reads-then, Reads-read_exact, Reads-read}
use zip.AesCtr.{AesCtrZipKeyStream}
use zip.AesCtr.Stream.{UsedIn, applied, length-applied, applied_twice}
use zip.Types.File.{AesMode}
use zip.Aes.{
  Crypto, IsCrypto, auth_code_length, same_bytes, crypt, AesReaderValid, check_auth, deliver,
  read_valid,
}
use zip.Aes.Writer.{encrypt, mac_of, auth_code, cipher_at, IsBehind, crypt_lem, mac-next}

pub same_bytes_refl : (bs : List ℕ) → same_bytes bs bs ≡ true
same_bytes_refl [] = refl
same_bytes_refl (b ∷ bs) = rw (==_refl b) (same_bytes_refl bs)

module _ (C : Crypto) (L : IsCrypto C) (mode : AesMode) (password salt : List ℕ) where
  -- A reader that has given one part of the text, and is to give the rest.
  abbrev pub reader : List ℕ → ℕ → AesCtrZipKeyStream → AesReaderValid C
  reader text left s = record {
    data_remaining = left;
    cipher = cipher_at C L mode password salt s;
    hmac = mac_of C L mode password salt text;
    finalized = false;
  }

  undo :
      (text rest : List ℕ) (s : AesCtrZipKeyStream)
      → IsBehind C L mode password salt s text
      → (s' : AesCtrZipKeyStream) × IsBehind C L mode password salt s' (text ++ rest)
        × (crypt C
              (cipher_at C L mode password salt s)
              (applied (encrypt C L mode password salt) (length text) rest)
            ≡ (rest, cipher_at C L mode password salt s'))
  undo text rest s h =
      let (s', (q, u), e) =
        crypt_lem C L mode password salt s text
          (applied (encrypt C L mode password salt) (length text) rest) h in
      (
        s',
        (
          q,
          subst (λ n. UsedIn (encrypt C L mode password salt) s' n q)
              (omega (
                arith,
                length-append text (applied (encrypt C L mode password salt) (length text) rest),
                length-append text rest,
                length-applied (encrypt C L mode password salt) (length text) rest,
              ))
              u,
        ),
        e ∙ λ i. (
          applied_twice (encrypt C L mode password salt) (length text) rest i,
          cipher_at C L mode password salt s',
        ),
      )

  -- The code is right.
  check_auth_lem :
      (text out : List ℕ) (s : AesCtrZipKeyStream)
      → Reads
          (check_auth C out (reader text 0 s))
          (auth_code C L mode password salt text)
          (out, record (reader text 0 s) { finalized = true })
  unfolding check_auth
  check_auth_lem text out s =
      Reads-then (read_exact auth_code_length) _ (auth_code C L mode password salt text)
        (Reads-read_exact (auth_code C L mode password salt text) auth_code_length ten)
        (λ c. rw (L.constant_time_eq_refl (auth_code C L mode password salt text)) refl)
    where
      ten : length (auth_code C L mode password salt text) ≡ auth_code_length
      ten = omega (
        arith,
        length-take auth_code_length (C.finalize (mac_of C L mode password salt text)),
        L.length-finalize (mac_of C L mode password salt text),
      )

  abbrev pub key_stream : ℕ → List ℕ → List ℕ
  key_stream k bs = applied (encrypt C L mode password salt) k bs

  -- A part of the data is delivered as the text that it encrypts.
  deliver_lem :
      (text part : List ℕ) (left : ℕ) (s : AesCtrZipKeyStream)
      → IsBehind C L mode password salt s text
      → (s' : AesCtrZipKeyStream) × IsBehind C L mode password salt s' (text ++ part)
        × (deliver C
              (reader text left s)
              (key_stream (length text) part)
              (crypt C (cipher_at C L mode password salt s) (key_stream (length text) part))
            ≡ (if left - length part == 0
                then check_auth C part (reader (text ++ part) (left - length part) s')
                else pure (part, reader (text ++ part) (left - length part) s')))
  deliver_lem text part left s h =
      let (s', h', e) = undo text part s h in
      (
        s',
        h',
        ap (deliver C (reader text left s) (key_stream (length text) part)) e ∙ λ i.
            if left - size i == 0
            then check_auth C part (record (reader (text ++ part) (left - size i) s') {
              hmac = mac-next C L mode password salt text part i;
            })
            else pure (
              part,
              record (reader (text ++ part) (left - size i) s') {
                hmac = mac-next C L mode password salt text part i;
              },
            ),
      )
    where
      size : length (key_stream (length text) part) ≡ length part
      size = length-applied (encrypt C L mode password salt) (length text) part

  -- A read that leaves data.
  pub read_some :
      (n : ℕ) (text rest : List ℕ) (s : AesCtrZipKeyStream)
      → IsBehind C L mode password salt s text
      → n < length rest
      → (s' : AesCtrZipKeyStream) × IsBehind C L mode password salt s' (text ++ take n rest)
        × Reads
            (read_valid C n (reader text (length rest) s))
            (key_stream (length text) (take n rest))
            (take n rest, reader (text ++ take n rest) (length (drop n rest)) s')
  unfolding read_valid
  read_some n text rest s h lt =
      let (s', h', e) = deliver_lem text (take n rest) (length rest) s h in
      let whole : deliver C (reader text (length rest) s) (key_stream (length text) (take n rest))
            (crypt C (cipher_at C L mode password salt s) (key_stream (length text) (take n rest)))
          ≡ pure (take n rest, reader (text ++ take n rest) (length (drop n rest)) s') =
        e
        ∙ ap
            (λ k.
              if k == 0
              then check_auth C (take n rest) (reader (text ++ take n rest) k s')
              else pure (take n rest, reader (text ++ take n rest) k s'))
            left
        ∙ rw (more_left) refl in
      (
        s',
        h',
        λ c tail stands. rw (nonzero) (
            Reads-then (read (min (length rest) n)) _ (key_stream (length text) (take n rest))
              (Reads-read (key_stream (length text) (take n rest)) (min (length rest) n) size)
              (λ c. ap (λ m. m c) whole) c tail stands),
      )
    where
      nonzero : (length rest == 0) ≡ false
      nonzero = ground arith

      left : length rest - length (take n rest) ≡ length (drop n rest)
      left = omega (arith, length-take n rest, length-drop n rest)

      more_left : (length (drop n rest) == 0) ≡ false
      more_left = ground (arith, length-drop n rest)

      size : length (key_stream (length text) (take n rest)) ≡ min (length rest) n
      size = omega (
        arith,
        length-take n rest,
        length-applied (encrypt C L mode password salt) (length text) (take n rest),
      )

  -- The last read.
  pub read_last :
      (n : ℕ) (text rest : List ℕ) (s : AesCtrZipKeyStream)
      → IsBehind C L mode password salt s text
      → length rest ≤ n
      → 0 < length rest
      → (s' : AesCtrZipKeyStream) × Reads
          (read_valid C n (reader text (length rest) s))
          (key_stream (length text) rest ++ auth_code C L mode password salt (text ++ rest))
          (rest, record (reader (text ++ rest) 0 s') { finalized = true })
  unfolding read_valid
  read_last n text rest s h le more =
      let (s', h', e) = deliver_lem text rest (length rest) s h in
      (
        s',
        λ c tail stands. rw (nonzero) (
            Reads->>= (read (min (length rest) n)) _ (key_stream (length text) rest) _
              (Reads-read (key_stream (length text) rest) (min (length rest) n) size)
              (subst
                (λ m.
                  Reads m (auth_code C L mode password salt (text ++ rest))
                    (rest, record (reader (text ++ rest) 0 s') { finalized = true }))
                (sym (e ∙ ended s')) (check_auth_lem (text ++ rest) rest s'))
              c tail stands),
      )
    where
      nonzero : (length rest == 0) ≡ false
      nonzero = ground arith

      size : length (key_stream (length text) rest) ≡ min (length rest) n
      size = omega (arith, length-applied (encrypt C L mode password salt) (length text) rest)

      none_left : length rest - length rest ≡ 0
      none_left = omega arith

      ended :
          (s' : AesCtrZipKeyStream)
          → (if length rest - length rest == 0
              then check_auth C rest (reader (text ++ rest) (length rest - length rest) s')
              else pure (rest, reader (text ++ rest) (length rest - length rest) s'))
            ≡ check_auth C rest (reader (text ++ rest) 0 s')
      ended s' =
          ap
            (λ k.
              if k == 0
              then check_auth C rest (reader (text ++ rest) k s')
              else pure (rest, reader (text ++ rest) k s'))
            none_left
