-- ===== src/Types/ExtraFields.antt =====
-- src/extra_fields: the extended timestamp and the Unicode field, read from the bytes of an extra field.
pub mod Readers
pub mod Forward
use zip.Prelude.{
  ℕ, zero, suc, ◌+◌, ◌-◌, ◌*◌, ◌/◌, ◌%◌, ◌≤◌, ◌<◌, ◌≡◌, Bool, true, false, not, ◌&&◌, ◌||◌, ltb,
  ◌==◌, if◌then◌else◌, Option, none, some, List, [], ◌∷◌, bit_and, get_or,
}
use zip.Result.{ZipResult, ok, err, invalid_archive, unsupported_archive}
use zip.Cursor.{Io, ◌>>=◌, pure, throw, lift, read_exact, read_le}
use zip.Types.File.{ExtendedTimestamp}

-- `count_ones` of a byte.
abbrev pub count_ones : ℕ → ℕ
count_ones n =
    n % 2 + n / 2 % 2 + n / 4 % 2 + n / 8 % 2 + n / 16 % 2 + n / 32 % 2 + n / 64 % 2 + n / 128 % 2

-- A number that is read if it is there.
abbrev pub read_if : Bool → Io (Option ℕ)
read_if true = do n ← read_le 4; pure (some n)
read_if false = pure none

abbrev pub has_bit : ℕ → ℕ → Bool
has_bit flags bit = bit_and flags bit == bit

-- The part behind the flags.
unfoldable pub timestamps : ℕ → ℕ → Io ExtendedTimestamp
timestamps flags len =
    if not (len == 5) && not (len == 1 + 4 * count_ones flags)
    then throw (unsupported_archive "flags and len don't match in extended timestamp field")
    else if not (bit_and flags 0b11111000 == 0)
    then throw (unsupported_archive "found unsupported timestamps in the extended timestamp header")
    else do
      mod_time ← read_if (has_bit flags 0b00000001 || len == 5)
      ac_time ← read_if (has_bit flags 0b00000010 && ltb 5 len)
      cr_time ← read_if (has_bit flags 0b00000100 && ltb 5 len)
      pure (record { mod_time = mod_time; ac_time = ac_time; cr_time = cr_time })

-- `ExtendedTimestamp::try_from_reader`.
unfoldable pub extended_timestamp_from : ℕ → Io ExtendedTimestamp
unfolding timestamps
extended_timestamp_from len = do flags ← read_exact 1; timestamps (get_or flags 0 0) len

pub record UnicodeExtraField : Type 0 where
  pub crc32 : ℕ
  pub content : List ℕ

-- `UnicodeExtraField::unwrap_valid`; the checksum of the crate crc32fast is a parameter.
unfoldable pub unwrap_valid : (List ℕ → ℕ) → UnicodeExtraField → List ℕ → ZipResult (List ℕ)
unwrap_valid crc32 field ascii_field =
    if not (field.crc32 == crc32 ascii_field)
    then err (invalid_archive "CRC32 checksum failed on Unicode extra field")
    else ok field.content

-- `len` without the version byte and the checksum.
abbrev pub content_len : ℕ → ZipResult ℕ
content_len len =
    if ltb len 5 then err (invalid_archive "Unicode extra field is too small") else ok (len - 5)

-- `UnicodeExtraField::try_from_reader`.
unfoldable pub unicode_extra_field_from : ℕ → Io UnicodeExtraField
unicode_extra_field_from len = do
  version ← read_exact 1
  crc32 ← read_le 4
  content_len ← lift (content_len len)
  content ← read_exact content_len
  pure (record { crc32 = crc32; content = content })
