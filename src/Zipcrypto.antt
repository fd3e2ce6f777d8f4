-- ===== src/Zipcrypto.antt =====
-- src/zipcrypto.rs: the ZipCrypto stream cipher, its writer and its reader. A `Wrapping<u32>` is a
-- number below 2 ^ 32, and each operation on it is taken modulo 2 ^ 32.
pub mod Table
pub mod RoundTrip
use zip.Prelude.{
  ℕ, ◌+◌, ◌*◌, ◌/◌, ◌%◌, ◌^◌, List, [], ◌∷◌, ◌++◌, get_or, set, replicate, length, bit_and, bit_or,
  bit_xor, ◌==◌, not, if◌then◌else◌, Bool,
}
use zip.Result.{ZipResult, ok, err, invalid_password}
use zip.Cursor.{Io, ◌>>=◌, pure, lift, read_exact, read, write_all}
use zip.Zipcrypto.Table.{crctable}

pub record ZipCryptoKeys : Type 0 where
  pub key_0 : ℕ
  pub key_1 : ℕ
  pub key_2 : ℕ

-- `ZipCryptoKeys::new` and `of`.
abbrev pub new_keys : ZipCryptoKeys
new_keys = record { key_0 = 0x12345678; key_1 = 0x23456789; key_2 = 0x34567890 }

unfoldable pub crc32 : ℕ → ℕ → ℕ
unfolding crctable
crc32 crc input =
    bit_xor (crc / 2 ^ 8) (get_or crctable (bit_xor (bit_and crc 0xff % 2 ^ 8) input) 0)

unfoldable pub update : ZipCryptoKeys → ℕ → ZipCryptoKeys
unfolding crc32
update keys input =
    let key_0 = crc32 keys.key_0 input in
    let key_1 = ((keys.key_1 + bit_and key_0 0xff) % 2 ^ 32 * 0x08088405 % 2 ^ 32 + 1) % 2 ^ 32 in
    record { key_0 = key_0; key_1 = key_1; key_2 = crc32 keys.key_2 (key_1 / 2 ^ 24 % 2 ^ 8) }

unfoldable pub stream_byte : ZipCryptoKeys → ℕ
stream_byte keys =
    let temp = bit_or (keys.key_2 % 2 ^ 16) 3 in temp * bit_xor temp 1 % 2 ^ 16 / 2 ^ 8 % 2 ^ 8

unfoldable pub decrypt_byte : ZipCryptoKeys → ℕ → ℕ × ZipCryptoKeys
decrypt_byte keys cipher_byte =
    let plain_byte = bit_xor (stream_byte keys) cipher_byte in (plain_byte, update keys plain_byte)

unfoldable pub encrypt_byte : ZipCryptoKeys → ℕ → ℕ × ZipCryptoKeys
encrypt_byte keys plain_byte =
    let cipher_byte = bit_xor (stream_byte keys) plain_byte in (cipher_byte, update keys plain_byte)

-- The loops `for byte in buf.iter_mut()`.
unfoldable pub decrypt_all : ZipCryptoKeys → List ℕ → List ℕ × ZipCryptoKeys
decrypt_all keys [] = ([], keys)
decrypt_all keys (b ∷ bs) =
    let (p, keys') = decrypt_byte keys b in
    let (ps, keys'') = decrypt_all keys' bs in (p ∷ ps, keys'')

unfoldable pub encrypt_all : ZipCryptoKeys → List ℕ → List ℕ × ZipCryptoKeys
encrypt_all keys [] = ([], keys)
encrypt_all keys (b ∷ bs) =
    let (c, keys') = encrypt_byte keys b in
    let (cs, keys'') = encrypt_all keys' bs in (c ∷ cs, keys'')

-- `derive`.
derive_from : ZipCryptoKeys → List ℕ → ZipCryptoKeys
derive_from keys [] = keys
derive_from keys (byte ∷ password) = derive_from (update keys byte) password

unfoldable pub derive : List ℕ → ZipCryptoKeys
unfolding derive_from
derive password = derive_from new_keys password

pub data ZipCryptoValidator : Type 0 where
  pkzip_crc32 : ℕ → ZipCryptoValidator
  info_zip_msdos_time : ℕ → ZipCryptoValidator

-- The byte that a validator wants at the end of the header.
abbrev pub check_byte : ZipCryptoValidator → ℕ
check_byte (pkzip_crc32 crc32_plaintext) = crc32_plaintext / 2 ^ 24 % 2 ^ 8
check_byte (info_zip_msdos_time last_mod_time) = last_mod_time / 2 ^ 8 % 2 ^ 8

-- The test of `ZipCryptoReader::validate` on the header's bytes, and the whole of it, over a reader
-- that is the file; it gives the keys of the valid reader.
unfoldable pub check_header : ZipCryptoKeys → ZipCryptoValidator → List ℕ → ZipResult ZipCryptoKeys
check_header keys validator header_buf =
    let (plain, keys') = decrypt_all keys header_buf in
    if not (check_byte validator == get_or plain 11 0) then err invalid_password else ok keys'

unfoldable pub validate : ZipCryptoKeys → ZipCryptoValidator → Io ZipCryptoKeys
unfolding check_header
validate keys validator = do
  header_buf ← read_exact 12
  lift (check_header keys validator header_buf)

-- `ZipCryptoReaderValid::read`: the bytes and the keys after them.
unfoldable pub read_valid : ZipCryptoKeys → ℕ → Io (List ℕ × ZipCryptoKeys)
read_valid keys n = do buf ← read n; pure (decrypt_all keys buf)

pub record ZipCryptoWriter : Type 0 where
  pub buffer : List ℕ
  pub keys : ZipCryptoKeys

-- `write` of the writer only fills its buffer.
unfoldable pub write : ZipCryptoWriter → List ℕ → ZipCryptoWriter × ℕ
write w buf = (record w { buffer = w.buffer ++ buf }, length buf)

-- `finish`, for a buffer that holds the header of 12 bytes.
unfoldable pub finish : ZipCryptoWriter → ℕ → Io (Unit {0})
finish w crc32 =
    let buffer = set w.buffer 11 (crc32 / 2 ^ 24 % 2 ^ 8) in
    let (cipher, keys) = encrypt_all w.keys buffer in write_all cipher

-- The writer that `start_entry` (src/write.rs) makes: a header of zeros stands in its buffer.
unfoldable pub start_writer : ZipCryptoKeys → ZipCryptoWriter
unfolding write
start_writer keys = (write (record { buffer = []; keys = keys }) (replicate 12 0)).0
