-- ===== src/Spec/Zip64End/RoundTrip.antt =====
-- src/spec.rs: what the two ZIP64 end records write into a file, their `parse` reads back.
use zip.Prelude.{◌≡◌, refl}
use zip.Result.{ok}
use zip.Cursor.{Cursor}
use zip.Cursor.Codec.{Reads, Reads-last, write_then_read}
use zip.Spec.Block
use zip.Spec.Block.{encode}
use zip.Spec.Block.Laws.{IsBlock, Reads-parse, Writes-write}
use zip.Spec.Records.{zip64_cde_block, zip64_cde_locator_block}
use zip.Spec.Zip64End.{
  Zip64CentralDirectoryEnd, block, of_block, parse, write, Zip64CentralDirectoryEndLocator,
  locator_block, parse_locator, write_locator,
}

-- Values of the structs: each field has the width of its type.
abbrev pub IsEnd : Zip64CentralDirectoryEnd → Type 0
IsEnd e = IsBlock zip64_cde_block (block e)

abbrev pub IsLocator : Zip64CentralDirectoryEndLocator → Type 0
IsLocator l = IsBlock zip64_cde_locator_block (locator_block l)

pub Reads-parse_end :
    (e : Zip64CentralDirectoryEnd) → IsEnd e → Reads parse (encode zip64_cde_block (block e)) e
unfolding parse block
Reads-parse_end e h =
    Reads-last (Block.parse zip64_cde_block) of_block (encode zip64_cde_block (block e))
      (Reads-parse zip64_cde_block (block e) h refl)

pub Reads-parse_locator :
    (l : Zip64CentralDirectoryEndLocator)
    → IsLocator l
    → Reads parse_locator (encode zip64_cde_locator_block (locator_block l)) l
unfolding parse_locator locator_block
Reads-parse_locator l h =
    Reads-last (Block.parse zip64_cde_locator_block) _
      (encode zip64_cde_locator_block (locator_block l))
      (Reads-parse zip64_cde_locator_block (locator_block l) h refl)

-- A ZIP64 end record, and a locator, written anywhere in a file are read back from there, and
-- `parse` leaves the position where `write` did.
pub parse-write_zip64 :
    (e : Zip64CentralDirectoryEnd) (l : Zip64CentralDirectoryEndLocator) (c : Cursor)
    → IsEnd e
    → IsLocator l
    → ((c' : Cursor) × (write e c ≡ ok (tt, c')) × (parse (record c' { pos = c.pos }) ≡ ok (e, c')))
      × ((c' : Cursor) × (write_locator l c ≡ ok (tt, c'))
          × (parse_locator (record c' { pos = c.pos }) ≡ ok (l, c')))
unfolding write write_locator
parse-write_zip64 e l c he hl = (
  write_then_read (Block.write zip64_cde_block (block e)) parse _ c
      (Writes-write zip64_cde_block (block e)) (Reads-parse_end e he),
  write_then_read (Block.write zip64_cde_locator_block (locator_block l)) parse_locator _ c
      (Writes-write zip64_cde_locator_block (locator_block l)) (Reads-parse_locator l hl),
)
