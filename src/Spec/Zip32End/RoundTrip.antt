-- ===== src/Spec/Zip32End/RoundTrip.antt =====
-- src/spec.rs: what `Zip32CentralDirectoryEnd::write` puts into a file, `parse` reads back.
use native.Mathlib.Omega.{arith}
use zip.Prelude.{ℕ, ◌^◌, ◌≤◌, ◌≡◌, refl, ◌∙◌, List, ◌++◌, length}
use zip.Result.{ok, err, invalid_archive}
use zip.Cursor.{Cursor, ◌>>◌, lift, read_exact, write_all, bind_ok}
use zip.Cursor.Codec.{
  Reads, Writes, Reads->>=, Reads-last, Reads-read_exact, Writes-write_all, Writes->>,
  write_then_read,
}
use zip.Spec.Block
use zip.Spec.Block.{encode}
use zip.Spec.Block.Laws.{IsBlock, Reads-parse, Writes-write}
use zip.Spec.Records.{zip32_cde_block}
use zip.Spec.Zip32End.{
  Zip32CentralDirectoryEnd, to_block, of_block, block_and_comment, parse, write,
}

-- A value of the struct whose comment can be written.
abbrev pub IsEnd : Zip32CentralDirectoryEnd → Type 0
IsEnd e = IsBlock zip32_cde_block (to_block e)

-- The bytes of a record.
abbrev pub serialized : Zip32CentralDirectoryEnd → List ℕ
serialized e = encode zip32_cde_block (to_block e) ++ e.zip_file_comment

pub Writes-serialized : (e : Zip32CentralDirectoryEnd) → IsEnd e → Writes (write e) (serialized e)
unfolding write
Writes-serialized e h c =
    bind_ok (lift (block_and_comment e)) (λ r. Block.write zip32_cde_block r.0 >> write_all r.1) c
      fits
    ∙ Writes->> (Block.write zip32_cde_block (to_block e)) (write_all e.zip_file_comment)
        (encode zip32_cde_block (to_block e)) e.zip_file_comment
        (Writes-write zip32_cde_block (to_block e)) (Writes-write_all e.zip_file_comment) c
  where
    fits : lift (block_and_comment e) c ≡ ok ((to_block e, e.zip_file_comment), c)
    fits = unfold block_and_comment in ground arith

pub Reads-serialized : (e : Zip32CentralDirectoryEnd) → IsEnd e → Reads parse (serialized e) e
unfolding parse
Reads-serialized e h =
    Reads->>= (Block.parse zip32_cde_block) _ (encode zip32_cde_block (to_block e))
      e.zip_file_comment (Reads-parse zip32_cde_block (to_block e) h refl)
      (Reads-last (read_exact (length e.zip_file_comment)) (of_block (to_block e))
        e.zip_file_comment (Reads-read_exact e.zip_file_comment _ refl))

-- A record written anywhere in a file is read back from where it was written: `parse` gives the
-- record, and leaves the position where `write` did.
pub parse-write :
    (e : Zip32CentralDirectoryEnd) (c : Cursor)
    → IsEnd e
    → (c' : Cursor) × (write e c ≡ ok (tt, c')) × (parse (record c' { pos = c.pos }) ≡ ok (e, c'))
parse-write e c h =
    write_then_read (write e) parse (serialized e) c (Writes-serialized e h) (Reads-serialized e h)

-- A comment of 64 KiB or more is refused, whatever the other fields are.
pub write_long_comment :
    (e : Zip32CentralDirectoryEnd) (c : Cursor)
    → 2 ^ 16 ≤ length e.zip_file_comment
    → write e c ≡ err (invalid_archive "File comment must be less than 64 KiB")
unfolding write block_and_comment
write_long_comment e c h = ground arith
