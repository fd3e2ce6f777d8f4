-- ===== src/Read/ExtraField.antt =====
-- src/read.rs: `parse_single_extra_field` and `parse_extra_field`. The entry is mutated while its
-- extra field is read, and what was written stays written after an error, so a parser gives the
-- entry back beside its result. The checksum of the crate crc32fast is a parameter.
pub mod Progress
use zip.Prelude.{
  ℕ, zero, suc, ◌+◌, ◌-◌, Bool, true, false, ◌||◌, ◌&&◌, not, leb, ltb, ◌==◌, if◌then◌else◌, Option,
  none, some, List, [], ◌∷◌, ◌++◌, length, take, drop, get_or,
}
use zip.Result.{ZipError, ZipResult, ok, err, io, other, invalid_archive, unsupported_archive}
use zip.Cursor.{Cursor, Io, read_exact, read_le}
use zip.Compression.{parse_from_u16}
use zip.Spec.Records.{zip64_bytes_thr}
use zip.Types.Utf8.{is_valid_utf8}
use zip.Types.File.{
  ZipFileData, AesMode, aes128, aes192, aes256, AesVendorVersion, ae1, ae2, extended_timestamp,
}
use zip.Types.ExtraFields.{extended_timestamp_from, unicode_extra_field_from, unwrap_valid}

abbrev pub Parser : Type 0 → Type 0
Parser A = ZipFileData → Cursor → ZipResult (A × Cursor) × ZipFileData

infixl 5 ◌>>=◌ ◌>>◌
unfoldable pub ◌>>=◌ : {A B : Type 0} → Parser A → (A → Parser B) → Parser B
◌>>=◌ m k f c = let (r, f') = m f c in elim r [ ok (a, c') ↦ k a f' c' | err e ↦ (err e, f') ]

abbrev pub ◌>>◌ : {A B : Type 0} → Parser A → Parser B → Parser B
m >> k = m >>= λ _. k

unfoldable pub pure : {A : Type 0} → A → Parser A
pure a f c = (ok (a, c), f)

unfoldable pub fail : {A : Type 0} → ZipError → Parser A
fail e f c = (err e, f)

unfoldable pub gets : {A : Type 0} → (ZipFileData → A) → Parser A
gets g f c = (ok (g f, c), f)

unfoldable pub modify : (ZipFileData → ZipFileData) → Parser (Unit {0})
modify g f c = (ok (tt, c), g f)

unfoldable pub reading : {A : Type 0} → Io A → Parser A
reading m f c = (m c, f)

unfoldable pub from_result : {A : Type 0} → ZipResult A → Parser A
from_result r f c = (elim r [ ok a ↦ ok (a, c) | err e ↦ err e ], f)

-- One number of the ZIP64 field, if the field is long enough for all three or the header has the
-- threshold for it: how many bytes it takes.
unfoldable pub take_u64 :
    ℕ → (ZipFileData → ℕ) → (ZipFileData → ZipFileData) → (ℕ → ZipFileData → ZipFileData) → Parser ℕ
take_u64 len number before put = do
  present ← gets (λ f. leb 24 len || number f == zip64_bytes_thr)
  elim present [
    | true ↦ do modify before; v ← reading (read_le 8); modify (put v); pure 8
    | false ↦ pure 0
  ]

abbrev pub mark_large : ZipFileData → ZipFileData
mark_large f = record f { large_file = true }

-- `checked_sub`.
abbrev pub leftover : ℕ → ℕ → ZipResult ℕ
leftover len consumed_len =
    if ltb len consumed_len
    then err (invalid_archive "ZIP64 extra-data field is the wrong length")
    else ok (len - consumed_len)

unfoldable pub zip64_field : ℕ → Parser Bool
unfolding take_u64
zip64_field len = do
  a ← take_u64 len (λ f. f.uncompressed_size) mark_large (λ v f. record f { uncompressed_size = v })
  b ← take_u64 len (λ f. f.compressed_size) mark_large (λ v f. record f { compressed_size = v })
  c ← take_u64 len (λ f. f.header_start) (λ f. f) (λ v f. record f { header_start = v })
  leftover_len ← from_result (leftover len (a + b + c))
  reading (read_exact leftover_len)
  pure true

abbrev pub vendor_version_of : ℕ → ZipResult AesVendorVersion
vendor_version_of v =
    if v == 0x0001
    then ok ae1
    else if v == 0x0002
    then ok ae2
    else err (invalid_archive "Invalid AES vendor version")

abbrev pub aes_mode_of : ℕ → ZipResult AesMode
aes_mode_of m =
    if m == 0x01
    then ok aes128
    else if m == 0x02
    then ok aes192
    else if m == 0x03
    then ok aes256
    else err (invalid_archive "Invalid AES encryption strength")

unfoldable pub aes_field : ℕ → ℕ → Parser Bool
aes_field len bytes_already_read =
    if not (len == 7)
    then fail (unsupported_archive "AES extra data field has an unsupported length")
    else do
      vendor_version ← reading (read_le 2)
      vendor_id ← reading (read_le 2)
      out ← reading (read_exact 1)
      method ← reading (read_le 2)
      let compression_method = parse_from_u16 method
      from_result
          (if vendor_id == 0x4541 then ok tt else err (invalid_archive "Invalid AES vendor"))
      vendor_version ← from_result (vendor_version_of vendor_version)
      aes_mode ← from_result (aes_mode_of (get_or out 0 0))
      modify (λ f. record f {
        aes_mode = some (aes_mode, vendor_version, compression_method);
        compression_method = compression_method;
        aes_extra_data_start = bytes_already_read;
      })
      pure false

unfoldable pub timestamp_field : ℕ → Parser Bool
timestamp_field len = do
  t ← reading (extended_timestamp_from len)
  modify (λ f. record f { extra_fields = f.extra_fields ++ extended_timestamp t ∷ [] })
  pure false

unfoldable pub other_field : ℕ → Parser Bool
other_field len = do reading (read_exact len); pure false

-- `String::from_utf8`, whose error becomes a `ZipError`.
abbrev pub from_utf8 : List ℕ → ZipResult (List ℕ)
from_utf8 bs = if is_valid_utf8 bs then ok bs else err (invalid_archive "Invalid UTF-8")

-- The rest of the loop's body, behind `parse_single_extra_field`, and the next rounds.
unfoldable pub after_field :
    List ℕ
    → ℕ
    → (List ℕ → Parser (Option (List ℕ)))
    → List ℕ
    → ZipResult (Bool × Cursor) × ZipFileData
    → ZipResult (Option (List ℕ) × Cursor) × ZipFileData
after_field extra_field old_position next_rounds processed_extra_field (err e, f) = (err e, f)
after_field extra_field old_position next_rounds processed_extra_field (ok (false, c), f) =
    next_rounds processed_extra_field f c
after_field extra_field old_position next_rounds processed_extra_field (ok (true, c), f) =
    if length extra_field - (c.pos - old_position) == 0
    then (ok (none, c), f)
    else next_rounds (take old_position extra_field ++ drop c.pos extra_field) f c

-- What a parser gives, without the place where it ends.
abbrev pub stripped :
    {A : Type 0} → ZipResult (A × Cursor) × ZipFileData → ZipResult A × ZipFileData
stripped (ok (a, c), f) = (ok a, f)
stripped (err e, f) = (err e, f)

module _ (crc32 : List ℕ → ℕ) where
  unfoldable pub comment_field : ℕ → Parser Bool
  comment_field len = do
    field ← reading (unicode_extra_field_from len)
    file_comment ← gets (λ f. f.file_comment)
    content ← from_result (unwrap_valid crc32 field file_comment)
    text ← from_result (from_utf8 content)
    modify (λ f. record f { file_comment = text })
    pure false

  unfoldable pub path_field : ℕ → Parser Bool
  path_field len = do
    field ← reading (unicode_extra_field_from len)
    file_name_raw ← gets (λ f. f.file_name_raw)
    content ← from_result (unwrap_valid crc32 field file_name_raw)
    modify (λ f. record f { file_name_raw = content })
    text ← from_result (from_utf8 content)
    modify (λ f. record f { file_name = text; is_utf8 = true })
    pure false

  unfoldable pub field_of_kind : ℕ → ℕ → ℕ → Bool → Parser Bool
  unfolding zip64_field aes_field timestamp_field comment_field path_field other_field
  field_of_kind kind len bytes_already_read disallow_zip64 =
      if kind == 0x0001
      then (if disallow_zip64
          then fail (invalid_archive "Can't write a custom field using the ZIP64 ID")
          else zip64_field len)
      else if kind == 0x9901
      then aes_field len bytes_already_read
      else if kind == 0x5455
      then timestamp_field len
      else if kind == 0x6375
      then comment_field len
      else if kind == 0x7075
      then path_field len
      else other_field len

  unfoldable pub parse_single_extra_field : ℕ → Bool → Parser Bool
  unfolding field_of_kind
  parse_single_extra_field bytes_already_read disallow_zip64 = do
    kind ← reading (read_le 2)
    len ← reading (read_le 2)
    field_of_kind kind len bytes_already_read disallow_zip64

  -- The loop of `parse_extra_field`, for at most as many fields as the fuel.
  unfoldable pub parse_fields : ℕ → List ℕ → List ℕ → Parser (Option (List ℕ))
  unfolding parse_single_extra_field after_field
  parse_fields zero extra_field processed_extra_field f c = (ok (some processed_extra_field, c), f)
  parse_fields (suc fuel) extra_field processed_extra_field f c =
      if ltb c.pos (length extra_field)
      then after_field extra_field c.pos (λ p f c. parse_fields fuel extra_field p f c)
          processed_extra_field (parse_single_extra_field c.pos false f c)
      else (ok (some processed_extra_field, c), f)

  -- Each field takes four bytes at least, so the fuel is enough.
  unfoldable pub parse_extra_bytes :
      ZipFileData → Option (List ℕ) → ZipResult (Option (List ℕ)) × ZipFileData
  unfolding parse_fields
  parse_extra_bytes f none = (ok none, f)
  parse_extra_bytes f (some extra_field) = stripped (
      parse_fields (length extra_field) extra_field extra_field f
        (record { bytes = extra_field; pos = 0 }))

  unfoldable pub parse_extra_field : ZipFileData → ZipResult (Option (List ℕ)) × ZipFileData
  unfolding parse_extra_bytes
  parse_extra_field f = parse_extra_bytes f f.extra_field
