-- ===== src/Write/Headers/Written.antt =====
-- src/write.rs: what `write_central_directory_header` leaves in the file.
use zip.Prelude.{
  ℕ, zero, ◌≡◌, refl, sym, ap, ◌∙◌, Option, none, some, List, [], ◌++◌, length, take, append-nil,
  take-append_length,
}
use zip.Result.{ZipError, ok, err}
use zip.Cursor.{Cursor, wrote, overwrite}
use zip.Cursor.Write.{wrote-append, drop-overwrite}
use zip.Spec.Block.{encode}
use zip.Types.DateTime.{DateTime}
use zip.Types.Headers.{ZipCentralEntryBlock, zip_central_entry_block}
use zip.Types.File.{ZipFileData}
use zip.Types.File.Zip64.{Zip64ExtraFieldBlock, zip64_extra_field_block, serialize}
use zip.Types.File.Blocks.{block}
use zip.Write.Monad.{Writer, ◌>>=◌, bind_ok, write_bytes, attempt}
use zip.Write.Headers.{
  write_central_zip64_extra_field, zip64_buffer, buffered, write_zip64, write_optional,
  write_central_directory_header,
}

abbrev pub zip64_bytes : Option Zip64ExtraFieldBlock → List ℕ
zip64_bytes none = []
zip64_bytes (some b) = serialize b

abbrev pub optional_bytes : Option (List ℕ) → List ℕ
optional_bytes none = []
optional_bytes (some xs) = xs

take-overwrite_start : (xs bytes : List ℕ) → take (length xs) (overwrite zero xs bytes) ≡ xs
take-overwrite_start xs bytes =
    ap (take (length xs)) (drop-overwrite zero xs bytes) ∙ take-append_length xs _

-- What is written of the ZIP64 field comes back from the buffer.
buffered_zip64 :
    (o : Option Zip64ExtraFieldBlock) (c : Cursor)
    → buffered (write_zip64 o zip64_buffer) c ≡ some (ok (zip64_bytes o), c)
buffered_zip64 none c = refl
buffered_zip64 (some b) c =
    ap (λ l. some (ok l, c)) (take-overwrite_start (serialize b) zip64_buffer.bytes)

-- A step that writes, behind what was written.
module _ (c : Cursor) (acc : List ℕ) {A : Type 0} (k : Unit {0} → Writer A) where
  then_bytes : (xs : List ℕ) → (write_bytes xs >>= k) (wrote acc c) ≡ k tt (wrote (acc ++ xs) c)
  then_bytes xs = ap (k tt) (wrote-append acc xs c)

  then_optional :
      (o : Option (List ℕ))
      → (write_optional o >>= k) (wrote acc c) ≡ k tt (wrote (acc ++ optional_bytes o) c)
  then_optional none = ap (λ l. k tt (wrote l c)) (sym (append-nil acc))
  then_optional (some xs) = then_bytes xs

-- An entry of the central directory.
abbrev pub entry_bytes : ZipFileData → ZipCentralEntryBlock → List ℕ
entry_bytes f b =
    ((((encode zip_central_entry_block b ++ f.file_name_raw)
          ++ zip64_bytes (zip64_extra_field_block f))
        ++ optional_bytes f.extra_field)
      ++ optional_bytes f.central_extra_field)
    ++ f.file_comment

-- Where `block` makes a header for the length of the ZIP64 field, `write_central_directory_header`
-- writes the header, the name, the ZIP64 field, the extra fields and the comment, in this order.
pub write_central_directory_header_lem :
    (default_for_write : DateTime) (f : ZipFileData) (b : ZipCentralEntryBlock) (c : Cursor)
    → block default_for_write f (length (zip64_bytes (zip64_extra_field_block f))) ≡ some (ok b)
    → write_central_directory_header default_for_write f c ≡ some (ok tt, wrote (entry_bytes f b) c)
unfolding write_central_directory_header write_central_zip64_extra_field
write_central_directory_header_lem default_for_write f b c h =
    bind_ok (buffered (write_zip64 (zip64_extra_field_block f) zip64_buffer)) _ c
      (buffered_zip64 (zip64_extra_field_block f) c)
    ∙ bind_ok
        (attempt (block default_for_write f (length (zip64_bytes (zip64_extra_field_block f))))) _ c
        (ap (λ o. attempt o c) h)
    ∙ then_bytes c head zip64_on f.file_name_raw
    ∙ then_bytes c (head ++ f.file_name_raw) extra_on zip64
    ∙ then_optional c ((head ++ f.file_name_raw) ++ zip64) central_extra_on f.extra_field
    ∙ then_optional c (((head ++ f.file_name_raw) ++ zip64) ++ optional_bytes f.extra_field)
        comment_on f.central_extra_field
    ∙ ap (λ d. some (ok tt, d)) (wrote-append _ f.file_comment c)
  where
    head : List ℕ
    head = encode zip_central_entry_block b

    zip64 : List ℕ
    zip64 = zip64_bytes (zip64_extra_field_block f)

    comment_on : Unit {0} → Writer (Unit {0})
    comment_on _ = write_bytes f.file_comment

    central_extra_on : Unit {0} → Writer (Unit {0})
    central_extra_on _ = write_optional f.central_extra_field >>= comment_on

    extra_on : Unit {0} → Writer (Unit {0})
    extra_on _ = write_optional f.extra_field >>= central_extra_on

    zip64_on : Unit {0} → Writer (Unit {0})
    zip64_on _ = write_bytes zip64 >>= extra_on

-- Where `block` gives an error, so does `write_central_directory_header`, and nothing is written.
pub write_central_directory_header_refused :
    (default_for_write : DateTime) (f : ZipFileData) (e : ZipError) (c : Cursor)
    → block default_for_write f (length (zip64_bytes (zip64_extra_field_block f))) ≡ some (err e)
    → write_central_directory_header default_for_write f c ≡ some (err e, c)
unfolding write_central_directory_header write_central_zip64_extra_field
write_central_directory_header_refused default_for_write f e c h =
    bind_ok (buffered (write_zip64 (zip64_extra_field_block f) zip64_buffer)) _ c
      (buffered_zip64 (zip64_extra_field_block f) c)
    ∙ rw (h, ◌>>=◌) refl
