-- ===== src/Write/Headers/Updated.antt =====
-- src/write.rs: `update_local_file_header` at a local header that stands in the file.
use zip.Prelude.{
  ℕ, ◌+◌, ◌^◌, ◌%◌, ◌≤◌, ◌<◌, ◌≡◌, refl, sym, ap, ◌∙◌, arith, false, some, List, [], ◌++◌, length,
  drop, append_assoc, ge→ltb,
}
use zip.Result.{ok}
use zip.LittleEndian.{to_le_bytes}
use zip.Cursor.{Cursor, overwrite, wrote}
use zip.Cursor.Write.{wrote-append, overwrite_same}
use zip.Spec.Block.{encode, encode_fields}
use zip.Spec.Records.{zip64_bytes_thr}
use zip.Types.Headers.{ZipLocalEntryBlock, zip_local_entry_block}
use zip.Types.File.{ZipFileData}
use zip.Write.Headers.{update_local_file_header}

-- The fields before the checksum, the ones that are updated, and the lengths.
abbrev before : ZipLocalEntryBlock → List ℕ
before b =
    to_le_bytes 4 b.magic
    ++ (to_le_bytes 2 b.version_made_by
        ++ (to_le_bytes 2 b.flags
            ++ (to_le_bytes 2 b.compression_method
                ++ (to_le_bytes 2 b.last_mod_time ++ to_le_bytes 2 b.last_mod_date))))

abbrev pub sizes : ℕ → ℕ → ℕ → List ℕ
sizes crc32 compressed_size uncompressed_size =
    (to_le_bytes 4 crc32 ++ to_le_bytes 4 compressed_size) ++ to_le_bytes 4 uncompressed_size

abbrev lengths : ZipLocalEntryBlock → List ℕ
lengths b = to_le_bytes 2 b.file_name_length ++ (to_le_bytes 2 b.extra_field_length ++ [])

encode_parts :
    (b : ZipLocalEntryBlock)
    → encode zip_local_entry_block b
      ≡ before b ++ (sizes b.crc32 b.compressed_size b.uncompressed_size ++ lengths b)
unfolding encode encode_fields
encode_parts b = simp (append_assoc)

length-before : (b : ZipLocalEntryBlock) → length (before b) ≡ 14
unfolding to_le_bytes
length-before b = refl

pub length-sizes : (crc32 c u : ℕ) → length (sizes crc32 c u) ≡ 12
unfolding to_le_bytes
length-sizes crc32 c u = refl

-- The local header with what is known of the content at its end.
abbrev pub updated : ZipFileData → ZipLocalEntryBlock → ZipLocalEntryBlock
updated f b = record b {
  crc32 = f.crc32;
  compressed_size = f.compressed_size;
  uncompressed_size = f.uncompressed_size;
}

-- The three numbers are written from the place of the checksum on.
pub update_small :
    (f : ZipFileData) (c : Cursor)
    → f.large_file ≡ false
    → f.compressed_size ≤ zip64_bytes_thr
    → f.header_start + 14 < 2 ^ 64
    → update_local_file_header f c
      ≡ some (
        ok tt,
        wrote
            (sizes f.crc32 f.compressed_size f.uncompressed_size)
            (record c { pos = f.header_start + 14 }),
      )
unfolding update_local_file_header
update_small f c small fits near =
    rw (small, ge→ltb zip64_bytes_thr f.compressed_size (λ l. omega arith))
      (ap
          (λ n. some (
            ok tt,
            wrote (to_le_bytes 4 f.uncompressed_size) (
                wrote (to_le_bytes 4 f.compressed_size)
                  (wrote (to_le_bytes 4 f.crc32) (record c { pos = n }))),
          ))
          in_u64
        ∙ ap (λ d. some (ok tt, d))
            (ap (wrote (to_le_bytes 4 f.uncompressed_size))
                (wrote-append (to_le_bytes 4 f.crc32) (to_le_bytes 4 f.compressed_size) at)
              ∙ wrote-append (to_le_bytes 4 f.crc32 ++ to_le_bytes 4 f.compressed_size)
                  (to_le_bytes 4 f.uncompressed_size) at))
  where
    at : Cursor
    at = record c { pos = f.header_start + 14 }

    in_u64 : (f.header_start + 14) % 2 ^ 64 ≡ f.header_start + 14
    in_u64 = omega arith

-- The two headers, as what stands before the numbers, the numbers and what stands behind them.
pub record HeaderParts (b : ZipLocalEntryBlock) : Type 0 where
  pub ahead : List ℕ
  pub old : List ℕ
  pub tail : List ℕ
  pub length-ahead : length ahead ≡ 14
  pub length-old : length old ≡ 12
  pub whole : encode zip_local_entry_block b ≡ ahead ++ (old ++ tail)
  pub changed :
      (f : ZipFileData)
      → encode zip_local_entry_block (updated f b)
        ≡ ahead ++ (sizes f.crc32 f.compressed_size f.uncompressed_size ++ tail)

pub header_parts : (b : ZipLocalEntryBlock) → HeaderParts b
header_parts b = record {
  ahead = before b;
  old = sizes b.crc32 b.compressed_size b.uncompressed_size;
  tail = lengths b;
  length-ahead = length-before b;
  length-old = length-sizes _ _ _;
  whole = encode_parts b;
  changed = λ f. encode_parts (updated f b);
}

-- Where the local header of an entry stands that is not marked as large, and whose compressed size
-- fits the header, `update_local_file_header` puts the entry's checksum and its two sizes into this
-- header, and leaves its other fields and what is behind it.
pub update_local_file_header_lem :
    (f : ZipFileData) (b : ZipLocalEntryBlock) (rest : List ℕ) (c : Cursor)
    → f.large_file ≡ false
    → f.compressed_size ≤ zip64_bytes_thr
    → f.header_start + 14 < 2 ^ 64
    → drop f.header_start c.bytes ≡ encode zip_local_entry_block b ++ rest
    → (c' : Cursor) × (update_local_file_header f c ≡ some (ok tt, c'))
      × (drop f.header_start c'.bytes ≡ encode zip_local_entry_block (updated f b) ++ rest)
update_local_file_header_lem f b rest c small fits near stands = (
  wrote new at,
  update_small f c small fits near,
  ap (λ n. drop f.header_start (overwrite (f.header_start + n) new c.bytes)) (sym (length-before b))
      ∙ overwrite_same f.header_start (before b) new old (lengths b ++ rest) c.bytes
          (length-sizes _ _ _ ∙ sym (length-sizes _ _ _)) (stands ∙ in_parts b)
      ∙ sym (in_parts (updated f b)),
)
  where
    new : List ℕ
    new = sizes f.crc32 f.compressed_size f.uncompressed_size

    at : Cursor
    at = record c { pos = f.header_start + 14 }

    old : List ℕ
    old = sizes b.crc32 b.compressed_size b.uncompressed_size

    in_parts :
        (h : ZipLocalEntryBlock)
        → encode zip_local_entry_block h ++ rest
          ≡ before h ++ (sizes h.crc32 h.compressed_size h.uncompressed_size ++ (lengths h ++ rest))
    in_parts h =
        ap (λ l. l ++ rest) (encode_parts h)
        ∙ append_assoc (before h) (sizes h.crc32 h.compressed_size h.uncompressed_size ++ lengths h)
            rest
        ∙ ap (λ l. before h ++ l)
            (append_assoc (sizes h.crc32 h.compressed_size h.uncompressed_size) (lengths h) rest)
