-- ===== src/Zipcrypto/RoundTrip.antt =====
-- src/zipcrypto.rs: what the writer encrypts, a reader with the same password accepts and decrypts.
use zip.Prelude.{
  ==_iff, ◌&&◌, ℕ, zero, suc, ◌/◌, ◌%◌, ◌<◌, ◌≡◌, ◌≢◌, ◌↔◌, refl, sym, ap, ◌∙◌, subst, arith, List,
  [], ◌∷◌, ◌++◌, length, get_or, replicate, bit_xor, ◌==◌, if◌then◌else◌, append_assoc, append-nil,
  ==_refl, true, Bool,
}
use zip.Bits.{bit_xor_self_inverse}
use zip.Result.{ok, err, invalid_password}
use zip.Cursor.{
  read_exact-append, Cursor, Io, ◌>>=◌, pure, lift, read_exact, read, remaining, advance, bind_ok,
}
use zip.Cursor.Codec.{
  Reads-lift, Reads-read, Reads, Writes, Reads->>=, Reads-last, Reads-read_exact, Writes-write_all,
  write_then_read,
}
use zip.Zipcrypto.{
  check_header, ZipCryptoKeys, ZipCryptoValidator, pkzip_crc32, ZipCryptoWriter, stream_byte,
  update, decrypt_byte, encrypt_byte, decrypt_all, encrypt_all, derive, check_byte, validate,
  read_valid, write, finish, start_writer,
}
use zip.Zipcrypto.Table.{crctable}

-- Decrypting with the keys that encrypted gives the text back, and ends with the same keys.
pub decrypt_all-encrypt_all :
    (keys : ZipCryptoKeys) (text : List ℕ)
    → decrypt_all keys (encrypt_all keys text).0 ≡ (text, (encrypt_all keys text).1)
unfolding decrypt_all encrypt_all decrypt_byte encrypt_byte
decrypt_all-encrypt_all keys [] = refl
decrypt_all-encrypt_all keys (b ∷ bs) =
    rw (bit_xor_self_inverse (stream_byte keys) b, decrypt_all-encrypt_all (update keys b) bs) refl

pub decrypt_all-append :
    (keys : ZipCryptoKeys) (xs ys : List ℕ)
    → decrypt_all keys (xs ++ ys) ≡ (
      (decrypt_all keys xs).0 ++ (decrypt_all (decrypt_all keys xs).1 ys).0,
      (decrypt_all (decrypt_all keys xs).1 ys).1,
    )
unfolding decrypt_all
decrypt_all-append keys [] ys = refl
decrypt_all-append keys (x ∷ xs) ys = rw (decrypt_all-append (decrypt_byte keys x).1 xs ys) refl

-- One step of the reflected CRC-32 polynomial on a byte's remainder, and a number of them.
abbrev crc_step : ℕ → ℕ
crc_step c = if c % 2 == 1 then bit_xor (c / 2) 0xedb88320 else c / 2

abbrev pub crc_steps : ℕ → ℕ → ℕ
crc_steps zero c = c
crc_steps (suc n) c = crc_steps n (crc_step c)

below : ℕ → (ℕ → Bool) → Bool
below zero p = true
below (suc n) p = p n && below n p

below_sound : (n : ℕ) (p : ℕ → Bool) (i : ℕ) → below n p ≡ true → i < n → p i ≡ true
unfolding below
below_sound zero p i h lt = absurd (omega arith)
below_sound (suc n) p i h lt = ground (arith, below_sound n p i)

table_checked : below 256 (λ i. get_or crctable i 0 == crc_steps 8 i) ≡ true
unfolding below crctable
table_checked = refl

-- Entry `i` of `CRCTABLE` is what eight steps of the reflected CRC-32 polynomial make of `i`.
pub crctable_steps : (i : ℕ) → i < 256 → get_or crctable i 0 ≡ crc_steps 8 i
crctable_steps i h = (==_iff _ _).0 (below_sound 256 _ i table_checked h)

pub encrypt_all-append :
    (keys : ZipCryptoKeys) (xs ys : List ℕ)
    → (encrypt_all keys (xs ++ ys)).0
      ≡ (encrypt_all keys xs).0 ++ (encrypt_all (encrypt_all keys xs).1 ys).0
unfolding encrypt_all
encrypt_all-append keys [] ys = refl
encrypt_all-append keys (x ∷ xs) ys =
    ap (λ l. (encrypt_byte keys x).0 ∷ l) (encrypt_all-append (encrypt_byte keys x).1 xs ys)

pub length-encrypt_all :
    (keys : ZipCryptoKeys) (xs : List ℕ) → length (encrypt_all keys xs).0 ≡ length xs
unfolding encrypt_all
length-encrypt_all keys [] = refl
length-encrypt_all keys (x ∷ xs) = ap suc (length-encrypt_all (encrypt_byte keys x).1 xs)

-- Writes one after the other.
pub write_chunks : ZipCryptoWriter → List (List ℕ) → ZipCryptoWriter
write_chunks w [] = w
write_chunks w (buf ∷ bufs) = write_chunks (write w buf).0 bufs

abbrev pub concat : List (List ℕ) → List ℕ
concat [] = []
concat (x ∷ xs) = x ++ concat xs

write_chunks-concat :
    (w : ZipCryptoWriter) (bufs : List (List ℕ))
    → write_chunks w bufs ≡ record w { buffer = w.buffer ++ concat bufs }
unfolding write_chunks write
write_chunks-concat w [] = ap (λ l. record w { buffer = l }) (sym (append-nil w.buffer))
write_chunks-concat w (buf ∷ bufs) =
    write_chunks-concat (record w { buffer = w.buffer ++ buf }) bufs ∙ λ i. record w {
      buffer = append_assoc w.buffer buf (concat bufs) i;
    }

-- A reader that checks the password and then reads.
pub open_and_read : List ℕ → ZipCryptoValidator → ℕ → Io (List ℕ)
open_and_read password validator n = do
  keys ← validate (derive password) validator
  (text, _) ← read_valid keys n
  pure text

-- The header that the writer encrypts.
abbrev pub header : ℕ → List ℕ
header v = replicate 11 0 ++ v ∷ []

pub Reads-validate :
    (keys : ZipCryptoKeys) (validator : ZipCryptoValidator)
    → Reads
        (validate keys validator)
        (encrypt_all keys (header (check_byte validator))).0
        (encrypt_all keys (header (check_byte validator))).1
unfolding validate
Reads-validate keys validator =
    Reads-lift (read_exact 12) (check_header keys validator) sealed
      (Reads-read_exact sealed 12 (length-encrypt_all keys (header (check_byte validator)))) passes
  where
    sealed : List ℕ
    sealed = (encrypt_all keys (header (check_byte validator))).0

    passes :
        check_header keys validator sealed ≡ ok (encrypt_all keys (header (check_byte validator))).1
    passes =
        unfold check_header in
        (rw (decrypt_all-encrypt_all keys (header (check_byte validator)), ==_refl) refl)

Reads-read_valid :
    (keys : ZipCryptoKeys) (text : List ℕ)
    → Reads
        (read_valid keys (length text))
        (encrypt_all keys text).0
        (text, (encrypt_all keys text).1)
unfolding read_valid
Reads-read_valid keys text c rest stands =
    Reads-last (read (length text)) (decrypt_all keys) cipher
      (Reads-read cipher (length text) (length-encrypt_all keys text)) c rest stands
    ∙ ap (λ r. ok (r, advance (length cipher) c)) (decrypt_all-encrypt_all keys text)
  where
    cipher : List ℕ
    cipher = (encrypt_all keys text).0

-- What is written in any number of pieces with the keys of a password, and finished with a
-- checksum, a reader with the same password and checksum accepts and reads back whole.
pub open_and_read-finish :
    (password : List ℕ) (bufs : List (List ℕ)) (crc : ℕ) (c : Cursor)
    → (c' : Cursor) × (finish (write_chunks (start_writer (derive password)) bufs) crc c
        ≡ ok (tt, c'))
      × (open_and_read password (pkzip_crc32 crc) (length (concat bufs)) (record c' { pos = c.pos })
          ≡ ok (concat bufs, c'))
open_and_read-finish password bufs crc c =
    write_then_read (finish (write_chunks (start_writer (derive password)) bufs) crc)
      (open_and_read password (pkzip_crc32 crc) (length (concat bufs))) (sealed ++ cipher) c writes
      reads
  where
    keys : ZipCryptoKeys
    keys = derive password

    first : List ℕ
    first = header (check_byte (pkzip_crc32 crc))

    sealed : List ℕ
    sealed = (encrypt_all keys first).0

    cipher : List ℕ
    cipher = (encrypt_all (encrypt_all keys first).1 (concat bufs)).0

    writes :
        Writes (finish (write_chunks (start_writer (derive password)) bufs) crc) (sealed ++ cipher)
    writes d =
        unfold finish start_writer in
        (rw (write_chunks-concat (start_writer keys) bufs) (
          rw (encrypt_all-append keys first (concat bufs)) (Writes-write_all (sealed ++ cipher) d)))

    reads :
        Reads
          (open_and_read password (pkzip_crc32 crc) (length (concat bufs)))
          (sealed ++ cipher)
          (concat bufs)
    reads =
        unfold open_and_read in
        (Reads->>= (validate keys (pkzip_crc32 crc)) _ sealed cipher
          (Reads-validate keys (pkzip_crc32 crc))
          (Reads-last (read_valid (encrypt_all keys first).1 (length (concat bufs))) (λ r. r.0)
            cipher (Reads-read_valid (encrypt_all keys first).1 (concat bufs))))

-- A header of 12 bytes is refused exactly when its last byte does not decrypt to the check byte of
-- the validator, and then with `InvalidPassword`.
pub validate_refuses_iff :
    (keys : ZipCryptoKeys) (validator : ZipCryptoValidator) (c : Cursor) (head rest : List ℕ)
    → remaining c ≡ head ++ rest
    → length head ≡ 12
    → (validate keys validator c ≡ err invalid_password)
      ↔ (get_or (decrypt_all keys head).0 11 0 ≢ check_byte validator)
unfolding validate
validate_refuses_iff keys validator c head rest stands twelve =
    subst
      (λ r.
        (r ≡ err invalid_password) ↔ (get_or (decrypt_all keys head).0 11 0 ≢ check_byte validator))
      (sym outcome) (unfold check_header in (λ e. ground arith, λ ne. ground arith))
  where
    outcome : validate keys validator c ≡ lift (check_header keys validator head) (advance 12 c)
    outcome =
        bind_ok (read_exact 12) (λ b. lift (check_header keys validator b)) c
          (read_exact-append c head rest 12 (sym twelve) stands)
