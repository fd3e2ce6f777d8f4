-- ===== src/Write/Writer/Stored/Entry.antt =====
-- src/write.rs: `start_file`, `write_all` and `finish_file` in a row, for an entry that is stored.
use zip.Prelude.{
  ℕ, ◌+◌, ◌^◌, ◌≤◌, ◌<◌, ◌≡◌, refl, sym, ap, ◌∙◌, arith, Bool, false, Option, some, List, [], ◌∷◌,
  ◌++◌, length, append_assoc, length-append,
}
use zip.Result.{ok}
use zip.Cursor.{Cursor, wrote, overwrite}
use zip.Cursor.Write.{wrote-append, overwrite_twice, overwrite_reaches}
use zip.Spec.Block.{encode}
use zip.Spec.Records.{zip64_bytes_thr}
use zip.Types.DateTime.{DateTime}
use zip.Types.Headers.{ZipLocalEntryBlock, zip_local_entry_block}
use zip.Types.File.{ZipFileData}
use zip.Types.File.Blocks.Readable.{local_header}
use zip.Crc32.Checked.{IsHashing}
use zip.Write.Headers.Updated.{sizes, length-sizes, HeaderParts, header_parts}
use zip.Write.State.{Environment, ZipWriterStats, Action, ◌>>◌, bind_ok}
use zip.Write.Writer.{finish_file, write_all}
use zip.Write.Writer.Entry.{contains_key, new_file, start_file}
use zip.Write.Writer.Stored.{
  stored_options, inserted, idle, opened, sealed, headed, open_file, stored_file, stored_header,
  stored_bytes,
}
use zip.Write.Writer.Stored.Started.{started}
use zip.Write.Writer.Stored.Written.{written}
use zip.Write.Writer.Stored.Finished.{IsOpen, finished}

pub length-local : (b : ZipLocalEntryBlock) → length (encode zip_local_entry_block b) ≡ 30
unfolding encode zip.Spec.Block.encode_fields zip.LittleEndian.to_le_bytes
length-local b = refl

module _ (K : Environment) where
  open K use {hashing, default_for_write}

  -- An entry that is written at once.
  abbrev pub store : List ℕ → DateTime → Option ℕ → List ℕ → Action K (Unit {0})
  store name time permissions content = do
    start_file name (stored_options time permissions)
    write_all content
    finish_file

  module _ (name : List ℕ) (time : DateTime) (permissions : Option ℕ) (content : List ℕ)
      (c : Cursor) where
    abbrev header : ZipLocalEntryBlock
    header = local_header default_for_write (inserted default_for_write name time permissions c.pos)

    abbrev opening : Cursor
    opening = headed K name time permissions c

    opening-pos : opening.pos ≡ c.pos + 30 + length name
    opening-pos = ap (λ n. c.pos + n + length name) (length-local header)

    abbrev numbers : List ℕ
    numbers =
        sizes (hashing.finalize (hashing.update hashing.new_hasher content)) (length content)
          (length content)

    -- The header, the name and the content are as if they were written at once.
    sealed_block :
        sealed K (open_file K name time permissions c) opening content
        ≡ wrote (stored_bytes K name time permissions content c.pos) c
    unfolding new_file
    sealed_block = λ i. record { bytes = same_bytes i; pos = same_end i }
      where
        P : HeaderParts header
        P = header_parts header

        rest : List ℕ
        rest = name ++ content

        encoded : List ℕ
        encoded = encode zip_local_entry_block header

        at_once : wrote content opening ≡ wrote (encoded ++ rest) c
        at_once =
            ap (wrote content) (wrote-append encoded name c)
            ∙ wrote-append (encoded ++ name) content c
            ∙ ap (λ l. wrote l c) (append_assoc encoded name content)

        regroup :
            (xs : List ℕ) (ns : List ℕ)
            → xs ≡ P.ahead ++ (ns ++ P.tail)
            → xs ++ rest ≡ P.ahead ++ (ns ++ (P.tail ++ rest))
        regroup xs ns e =
            ap (λ l. l ++ rest) e
            ∙ append_assoc P.ahead (ns ++ P.tail) rest
            ∙ ap (λ l. P.ahead ++ l) (append_assoc ns P.tail rest)

        same_bytes :
            overwrite (c.pos + 14) numbers (wrote content opening).bytes
            ≡ overwrite c.pos (stored_bytes K name time permissions content c.pos) c.bytes
        same_bytes =
            ap (λ d. overwrite (c.pos + 14) numbers d.bytes) at_once
            ∙ ap (λ l. overwrite (c.pos + 14) numbers (overwrite c.pos l c.bytes))
                (regroup encoded P.old P.whole)
            ∙ ap
                (λ n.
                  overwrite (c.pos + n) numbers
                    (overwrite c.pos (P.ahead ++ (P.old ++ (P.tail ++ rest))) c.bytes))
                (sym P.length-ahead)
            ∙ overwrite_twice c.pos P.ahead numbers P.old (P.tail ++ rest) c.bytes
                (length-sizes _ _ _ ∙ sym P.length-old)
            ∙ ap (λ l. overwrite c.pos l c.bytes)
                (sym (
                  regroup
                    (encode zip_local_entry_block
                      (stored_header K name time permissions content c.pos))
                    numbers (P.changed (stored_file K name time permissions content c.pos))))

        same_end :
            opening.pos + length content
            ≡ c.pos + length (stored_bytes K name time permissions content c.pos)
        same_end = omega (
          arith,
          opening-pos,
          length-append
              (encode zip_local_entry_block (stored_header K name time permissions content c.pos))
              rest,
          length-append name content,
          length-local (stored_header K name time permissions content c.pos),
        )

    is_open : c.pos + 14 < 2 ^ 64 → IsOpen K (open_file K name time permissions c)
    unfolding new_file zip.Write.Options.normalize_options
    is_open near = record { not_aes = refl; not_large = refl; near = near }

    -- Between two entries, at a place in the file, `start_file` of a new name, `write_all` and
    -- `finish_file` succeed for an entry that is neither compressed nor encrypted, and leave the
    -- writer between two entries again. The file then has, from that place on, the local header
    -- with the checksum and the sizes of the content, the name and the content, and the entry,
    -- with these numbers and the place of its content, is the last one. The hasher is as it is
    -- documented, the name is shorter than 64 KiB, and the entry ends below the ZIP64 threshold.
    pub store_lem :
        IsHashing hashing
        → (files : List ZipFileData) (stats : ZipWriterStats K) (raw flush : Bool)
        → (comment : List ℕ) → contains_key name files ≡ false
        → length name < 2 ^ 16
        → c.pos ≤ length c.bytes
        → c.pos + 30 + length name + length content < zip64_bytes_thr
        → store name time permissions content (idle K c files stats raw comment flush)
          ≡ some (
            ok tt,
            idle K
                (wrote (stored_bytes K name time permissions content c.pos) c)
                (files ++ stored_file K name time permissions content c.pos ∷ [])
                (record {
                  hasher = hashing.update hashing.new_hasher content;
                  start = c.pos + 30 + length name;
                  bytes_written = length content;
                })
                false
                comment
                flush,
          )
    store_lem H files stats raw flush comment new short inside fits =
        bind_ok (start_file name (stored_options time permissions)) _
          (idle K c files stats raw comment flush)
          (started K name time permissions c files stats raw flush comment new short (omega arith))
        ∙ bind_ok (write_all content) _ (opened K opening _ opening.pos comment flush) (
            written K H opening (files ++ open_file K name time permissions c ∷ []) opening.pos
              comment flush content (overwrite_reaches _ _ _) (omega arith))
        ∙ finished K (open_file K name time permissions c) (is_open (omega arith)) opening content
            files comment flush (omega arith) (omega (arith, opening-pos))
        ∙ (λ i. some (
          ok tt,
          idle K (sealed_block i)
              (files
                ++ record (stored_file K name time permissions content c.pos) {
                  extra_data_start = some (opening-pos i);
                  data_start = some (opening-pos i);
                }
                  ∷ [])
              (record {
                hasher = hashing.update hashing.new_hasher content;
                start = opening-pos i;
                bytes_written = length content;
              })
              false comment flush,
        ))
