-- ===== src/Tests/Session.antt =====
-- src/write.rs and src/read.rs: an archive that is written, opened and read, with stand-ins for the crates.
use native.Mathlib.Nat.{mod-lt}
use zip.Prelude.{ℕ, ◌+◌, ◌≤◌, ◌≡◌, refl, sym, ap, ◌∙◌, arith, none, some, [], ◌∷◌, length, All}
use zip.Result.{ok, to_option}
use zip.LittleEndian.{IsByte}
use zip.Cursor.{Cursor}
use zip.Spec.Zip32End.{Zip32CentralDirectoryEnd}
use zip.Spec.Zip64End.{Zip64CentralDirectoryEndLocator}
use zip.Spec.Find.Zip32.Window.{ParsesAt, ParsesAt-room}
use zip.Types.DateTime.{default}
use zip.Read.Directory.{locator_at}
use zip.Read.Content.{CryptoReader, read_crypto, ZipFile}
use zip.Read.Content.Whole.{reads}
use zip.Read.Archive.{ZipArchive, new_archive, by_name}
use zip.Write.Footer.Written.{IsSmall}
use zip.Write.State.{ZipWriter}
use zip.Write.Writer.Close.{new}
use zip.Write.Writer.Session.{content_bytes, placed}
use zip.Write.Writer.Session.Archive.{write_archive}
use zip.Write.Writer.Session.Bytes.{
  AreBytes, end_record, end_position, file_bytes, file_bytes-IsByte,
}
use zip.Write.Writer.Session.Opened.{write_archive-by_name}
use zip.Tests.Aes.{crypto, crypto-IsCrypto}
use zip.Tests.Archive.{no_checksum}
use zip.Tests.Reader.{crates, one_byte}
use zip.Tests.Spec.Finder.{every_offset, every_offset-IsFinder}
use zip.Tests.Writer.{
  K, summing-IsHashing, empty, items, items-IsDistinct, items-IsItem, more-IsItem, content_size,
  default-is_valid,
}

no_comment-IsSmall : IsSmall default (placed K items 0) [] (0 + length (content_bytes K items 0))
unfolding content_bytes zip.Spec.Block.encode zip.Spec.Block.encode_fields
    zip.LittleEndian.to_le_bytes placed zip.Read.Header.Directory.directory_bytes
    zip.Write.Writer.Entry.new_file
no_comment-IsSmall = record {
  entries = omega arith;
  directory_start = omega arith;
  directory_size = omega arith;
  comment_length = omega arith;
}

items-AreBytes : All AreBytes items
items-AreBytes =
    (((omega arith, tt), (omega arith, (omega arith, tt))), (((omega arith, tt), tt), tt))

bytes : All IsByte (file_bytes K items [] empty)
bytes = file_bytes-IsByte K items [] empty tt tt items-AreBytes

size : length (file_bytes K items [] empty) ≡ 180
unfolding content_bytes zip.Spec.Block.encode zip.Spec.Block.encode_fields zip.Cursor.overwrite
    zip.LittleEndian.to_le_bytes placed zip.Read.Header.Directory.directory_bytes
    zip.Write.Writer.Entry.new_file
size = refl

end_at : end_position K items [] empty ≡ 158
unfolding content_bytes zip.Spec.Block.encode zip.Spec.Block.encode_fields
    zip.LittleEndian.to_le_bytes placed zip.Read.Header.Directory.directory_bytes
    zip.Write.Writer.Entry.new_file
end_at = refl

-- Behind the end record there is no room for another.
is_last :
    (r : Zip32CentralDirectoryEnd × ℕ)
    → ParsesAt (file_bytes K items [] empty) r
    → r.1 ≤ end_position K items [] empty
is_last (cde, p) h =
    omega (arith, ParsesAt-room (file_bytes K items [] empty) cde p bytes h, size, end_at)

locator_fails :
    to_option (locator_at (file_bytes K items [] empty) (end_record K items [] empty)) ≡ none
unfolding content_bytes zip.Spec.Block.encode zip.Spec.Block.encode_fields zip.Cursor.overwrite
    zip.LittleEndian.to_le_bytes placed zip.Read.Header.Directory.directory_bytes
    zip.Write.Writer.Entry.new_file zip.Cursor.run_at zip.Cursor.read_exact
    zip.Spec.Zip64End.parse_locator zip.Spec.Block.parse zip.Spec.Block.size_of
    zip.Spec.Block.interpret zip.Spec.Block.decode_fields zip.LittleEndian.from_le_bytes
    zip.Types.File.Blocks.Readable.central_header zip.Write.Options.normalize_options
locator_fails = refl

no_locator :
    (l : Zip64CentralDirectoryEndLocator)
    → ¬ (locator_at (file_bytes K items [] empty) (end_record K items [] empty) ≡ ok l)
no_locator l h = some-none (sym (ap to_option h) ∙ locator_fails)
  where
    some-none : {l : Zip64CentralDirectoryEndLocator} → ¬ (some l ≡ none)
    some-none e = absurd (cc)

write_archive-by_name_example :
    (c' : Cursor) × (s : ZipWriter K) × (a : ZipArchive) × (file : ZipFile crates) × (read : ZipFile
      crates)
    × (write_archive K items [] (new K empty) ≡ some (ok c', s))
    × (new_archive no_checksum every_offset c'.bytes ≡ some (ok a))
    × (by_name crates a (97 ∷ []) ≡ (ok file, a))
    × (reads crates (1 ∷ 1 ∷ 1 ∷ []) file ≡ some (ok (120 ∷ 121 ∷ []), read))
write_archive-by_name_example =
    write_archive-by_name K (CryptoReader crypto) (λ method r. r) some (read_crypto crypto)
      no_checksum every_offset items [] empty
      (record { name = 97 ∷ []; time = default; permissions = none; content = 120 ∷ 121 ∷ [] }) 0
      (1 ∷ 1 ∷ 1 ∷ []) every_offset-IsFinder crypto-IsCrypto summing-IsHashing
      (λ h. mod-lt (length h) (omega arith)) default-is_valid items-IsDistinct
      (items-IsItem, (more-IsItem, tt)) items-AreBytes tt tt refl (omega (arith, content_size))
      no_comment-IsSmall is_last no_locator refl one_byte (omega arith)
