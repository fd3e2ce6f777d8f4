-- ===== src/Aes.antt =====
-- src/aes.rs: the frame of AES encryption around the content of an entry: a salt, two bytes that
-- verify the password, the encrypted data and ten bytes of authentication. The crates aes, hmac and
-- pbkdf2 are parameters; the salt, which is random, is an argument of the writer.
pub mod Writer
pub mod Frame
pub mod RoundTrip
use zip.Prelude.{
  ℕ, ◌+◌, ◌-◌, ◌*◌, ◌%◌, ◌^◌, ◌≡◌, min, Bool, true, false, not, ◌&&◌, ◌==◌, if◌then◌else◌, Option,
  none, some, List, [], ◌∷◌, ◌++◌, length, take, drop,
}
use zip.Result.{ZipResult, ok, err, io, other, invalid_password}
use zip.Cursor.{Cursor, Io, ◌>>=◌, pure, throw, read, read_exact, wrote}
use zip.AesCtr
use zip.AesCtr.{AesCtrZipKeyStream, crypt_in_place}
use zip.Types.File.{AesMode, key_length, salt_length}

-- What the code uses of the crates. `derive` is PBKDF2 with HMAC-SHA1 and 1000 rounds into a buffer
-- of some length, and a `Mac` is the state of an HMAC.
pub record Crypto : Type 1 where
  pub derive : (password salt : List ℕ) → ℕ → List ℕ
  pub encrypt_block : AesMode → (key : List ℕ) → List ℕ → List ℕ
  pub Mac : Type 0
  pub new_from_slice : List ℕ → Mac
  pub update : Mac → List ℕ → Mac
  pub finalize : Mac → List ℕ
  pub constant_time_eq : List ℕ → List ℕ → Bool

-- What their documentation says: the buffer is filled, a block has 16 bytes, an HMAC takes its message
-- in pieces and gives the 20 bytes of SHA-1.
pub record IsCrypto (C : Crypto) : Type 0 where
  pub length-derive : (password salt : List ℕ) (n : ℕ) → length (C.derive password salt n) ≡ n
  pub length-encrypt_block :
      (mode : AesMode) (key block : List ℕ)
      → length block ≡ 16
      → length (C.encrypt_block mode key block) ≡ 16
  pub update-append :
      (m : C.Mac) (xs ys : List ℕ) → C.update (C.update m xs) ys ≡ C.update m (xs ++ ys)
  pub update-nil : (m : C.Mac) → C.update m [] ≡ m
  pub length-finalize : (m : C.Mac) → length (C.finalize m) ≡ 20
  pub constant_time_eq_refl : (bs : List ℕ) → C.constant_time_eq bs bs ≡ true

abbrev pub pwd_verify_length : ℕ
pwd_verify_length = 2

abbrev pub auth_code_length : ℕ
auth_code_length = 10

abbrev pub same_bytes : List ℕ → List ℕ → Bool
same_bytes [] [] = true
same_bytes [] (y ∷ ys) = false
same_bytes (x ∷ xs) [] = false
same_bytes (x ∷ xs) (y ∷ ys) = x == y && same_bytes xs ys

module _ (C : Crypto) where
  open C use {derive, encrypt_block, Mac, new_from_slice, update, finalize, constant_time_eq}

  -- `Cipher`, one constructor for each mode, is the mode with its key and its stream.
  pub record Cipher : Type 0 where
    pub mode : AesMode
    pub key : List ℕ
    pub stream : AesCtrZipKeyStream

  abbrev pub from_mode : AesMode → List ℕ → Cipher
  from_mode aes_mode key = record { mode = aes_mode; key = key; stream = AesCtr.new }

  unfoldable pub crypt : Cipher → List ℕ → List ℕ × Cipher
  unfolding crypt_in_place
  crypt c target =
      let (done, stream) = crypt_in_place (encrypt_block c.mode c.key) c.stream target in
      (done, record c { stream = stream })

  -- The parts of the key that is derived from the password.
  abbrev pub derived_key : AesMode → List ℕ → List ℕ → List ℕ
  derived_key mode password salt = derive password salt (2 * key_length mode + pwd_verify_length)

  abbrev pub crypt_key : AesMode → List ℕ → List ℕ → List ℕ
  crypt_key mode password salt = take (key_length mode) (derived_key mode password salt)

  abbrev pub hmac_key : AesMode → List ℕ → List ℕ → List ℕ
  hmac_key mode password salt =
      take (key_length mode) (drop (key_length mode) (derived_key mode password salt))

  abbrev pub pwd_verify : AesMode → List ℕ → List ℕ → List ℕ
  pwd_verify mode password salt = drop (2 * key_length mode) (derived_key mode password salt)

  pub record AesReaderValid : Type 0 where
    pub data_remaining : ℕ
    pub cipher : Cipher
    pub hmac : Mac
    pub finalized : Bool

  -- `AesReader::new`; the difference is of `u64`s.
  abbrev pub data_length : AesMode → ℕ → ℕ
  data_length mode compressed_size =
      (compressed_size + 2 ^ 64 - (pwd_verify_length + auth_code_length + salt_length mode))
      % 2 ^ 64

  -- `AesReader::new` and `validate`.
  unfoldable pub validate : AesMode → ℕ → List ℕ → Io AesReaderValid
  validate mode compressed_size password = do
    salt ← read_exact (salt_length mode)
    pwd_verification_value ← read_exact pwd_verify_length
    if not (same_bytes pwd_verification_value (pwd_verify mode password salt))
        then throw invalid_password
        else pure (record {
          data_remaining = data_length mode compressed_size;
          cipher = from_mode mode (crypt_key mode password salt);
          hmac = new_from_slice (hmac_key mode password salt);
          finalized = false;
        })

  unfoldable pub get_verification_value_and_salt : AesMode → Io (List ℕ × List ℕ)
  get_verification_value_and_salt mode = do
    salt ← read_exact (salt_length mode)
    pwd_verification_value ← read_exact pwd_verify_length
    pure (pwd_verification_value, salt)

  -- The test of the authentication code, behind the last data.
  unfoldable pub check_auth : List ℕ → AesReaderValid → Io (List ℕ × AesReaderValid)
  check_auth text r = do
    read_auth_code ← read_exact auth_code_length
    if not (constant_time_eq (take auth_code_length (finalize r.hmac)) read_auth_code)
        then throw (
            io (
              other
                "Invalid authentication code, this could be due to an invalid password or errors in the data"))
        else pure (text, record r { finalized = true })

  -- What is known behind a read, and then the code is tested if no data remain.
  abbrev pub deliver : AesReaderValid → List ℕ → List ℕ × Cipher → Io (List ℕ × AesReaderValid)
  deliver r encrypted (text, cipher) =
      let r' = record r {
        data_remaining = r.data_remaining - length encrypted;
        cipher = cipher;
        hmac = update r.hmac encrypted;
      } in
      if r'.data_remaining == 0 then check_auth text r' else pure (text, r')

  -- A read into a buffer of some length. The assertion that it was not finalized holds, since no data
  -- remain then.
  unfoldable pub read_valid : ℕ → AesReaderValid → Io (List ℕ × AesReaderValid)
  unfolding crypt check_auth
  read_valid buf_len r = if r.data_remaining == 0 then pure ([], r) else do
    encrypted ← read (min r.data_remaining buf_len)
    deliver r encrypted (crypt r.cipher encrypted)

  -- The buffer is empty between two calls.
  pub record AesWriter : Type 0 where
    pub writer : Cursor
    pub cipher : Cipher
    pub hmac : Mac
    pub encrypted_file_header : Option (List ℕ)

  unfoldable pub new_writer : Cursor → AesMode → List ℕ → List ℕ → AesWriter
  new_writer writer mode password salt = record {
    writer = writer;
    cipher = from_mode mode (crypt_key mode password salt);
    hmac = new_from_slice (hmac_key mode password salt);
    encrypted_file_header = some (salt ++ pwd_verify mode password salt);
  }

  abbrev take_header : Option (List ℕ) → AesWriter → AesWriter
  take_header none w = w
  take_header (some header) w = record w {
    writer = wrote header w.writer;
    encrypted_file_header = none;
  }

  abbrev pub write_encrypted_file_header : AesWriter → AesWriter
  write_encrypted_file_header w = take_header w.encrypted_file_header w

  unfoldable pub write : List ℕ → AesWriter → AesWriter
  unfolding crypt
  write buf w =
      let w' = write_encrypted_file_header w in
      let (encrypted, cipher) = crypt w'.cipher buf in
      record w' {
        writer = wrote encrypted w'.writer;
        cipher = cipher;
        hmac = update w'.hmac encrypted;
      }

  unfoldable pub finish : AesWriter → Cursor
  finish w =
      let w' = write_encrypted_file_header w in
      wrote (take auth_code_length (finalize w'.hmac)) w'.writer
