-- ===== src/Tests/Archive.antt =====
-- src/read.rs and src/write.rs: an archive with one entry.
use zip.Prelude.{ℕ, ◌+◌, ◌≡◌, refl, arith, some, List, [], ◌∷◌, ◌++◌, length, drop, replicate, inl}
use zip.Result.{ok}
use zip.Cursor.{Cursor, advance, wrote}
use zip.Spec.Block.{encode}
use zip.Spec.Zip32End
use zip.Types.DateTime.{default}
use zip.Types.Headers.{ZipLocalEntryBlock, zip_local_entry_block, zip_central_entry_block}
use zip.Types.File.{ZipFileData}
use zip.Types.File.Blocks.Readable.{IsShort, local_header}
use zip.Types.File.Zip64.{zip64_extra_field_block}
use zip.Read.Header.{read_files, central_header_to_zip_file}
use zip.Read.Stream.Local.{IsStreamable}
use zip.Read.Header.Central.{IsPlain}
use zip.Read.Header.Located.{HasLocal, central_bytes, as_located, central_header_to_zip_file_lem}
use zip.Read.Header.Directory.{directory_bytes, as_listed, IsListable}
use zip.Write.Headers.{update_local_file_header}
use zip.Write.Headers.Updated.{updated, update_local_file_header_lem}
use zip.Write.Footer.{write_central_and_footer}
use zip.Write.Footer.Written.{end_of, IsSmall}
use zip.Write.ReadBack.{read_files-write_central_and_footer}
use zip.Tests.File.{small, small-InRange, small_local, small_central}
use zip.Read.Stream.Visit.{ZipStreamVisitor, visit_files, visit_metadata}
use zip.Read.Stream.Visit.Files.{streamed_bytes, visit_files_lem}

abbrev pub no_checksum : List ℕ → ℕ
no_checksum bs = 0

small-IsPlain : IsPlain default small
unfolding zip.Types.Utf8.is_valid_utf8 zip.Types.Utf8.all_ascii zip.Compression.parse_from_u16
    zip.Compression.serialize_to_u16 zip64_extra_field_block
small-IsPlain = record {
  in_range = small-InRange;
  text = record { name = refl; comment = refl; marked = inl refl };
  method = refl;
  not_aes = λ e. absurd (cc);
  no_zip64 = refl;
  no_extra = refl;
  no_central_extra = refl;
}

small-IsShort : IsShort default small 0
small-IsShort = record { name = omega arith; comment = omega arith; extra = omega arith }

-- A local header, the name and one byte of content.
abbrev pub local_part : List ℕ
local_part = encode zip_local_entry_block small_local ++ (97 ∷ 120 ∷ [])

pub small-HasLocal : (rest : List ℕ) → HasLocal 0 32 (local_part ++ rest) small_local
unfolding encode zip.Spec.Block.encode_fields zip.LittleEndian.to_le_bytes
small-HasLocal rest = record {
  behind = (97 ∷ 120 ∷ []) ++ rest;
  valid = ground arith;
  signed = refl;
  stands = refl;
  content = omega arith;
  in_u64 = omega arith;
}

-- The file before its central directory.
abbrev before_directory : Cursor
before_directory = record { bytes = local_part; pos = 32 }

one_entry : IsListable default 0 32 (local_part ++ []) (small, small_local)
one_entry = record { plain = small-IsPlain; short = small-IsShort; local = small-HasLocal [] }

small_archive : IsSmall default ((small, small_local) ∷ []) (104 ∷ []) 32
unfolding directory_bytes encode zip.Spec.Block.encode_fields zip.LittleEndian.to_le_bytes
small_archive = record {
  entries = omega arith;
  directory_start = omega arith;
  directory_size = omega arith;
  comment_length = omega arith;
}

read_files-write_central_and_footer_example :
    (c' : Cursor) × (write_central_and_footer default (small ∷ []) (104 ∷ []) before_directory
      ≡ some (ok 32, c'))
    × (read_files no_checksum 1 0 (record c' { pos = 32 })
        ≡ ok (
          as_listed default 0 32 ((small, small_local) ∷ []),
          record c' { pos = 32 + length (directory_bytes default ((small, small_local) ∷ [])) },
        ))
    × (Zip32End.parse
          (record c' { pos = 32 + length (directory_bytes default ((small, small_local) ∷ [])) })
        ≡ ok (end_of default ((small, small_local) ∷ []) (104 ∷ []) 32, c'))
unfolding encode zip.Spec.Block.encode_fields zip.LittleEndian.to_le_bytes
read_files-write_central_and_footer_example =
    read_files-write_central_and_footer no_checksum default ((small, small_local) ∷ []) (104 ∷ [])
      before_directory (omega arith) small_archive (one_entry, tt)

-- The central directory behind the content.
abbrev with_directory : Cursor
with_directory = record { bytes = local_part ++ central_bytes default small; pos = 32 }

central_header_to_zip_file_lem_example :
    central_header_to_zip_file no_checksum 0 with_directory
    ≡ ok (
      as_located default small 0 32 small_local,
      advance (length (central_bytes default small)) with_directory,
    )
unfolding encode zip.Spec.Block.encode_fields zip.LittleEndian.to_le_bytes
central_header_to_zip_file_lem_example =
    central_header_to_zip_file_lem no_checksum default small 0 with_directory [] small_local
      small-IsPlain small-IsShort refl (small-HasLocal (central_bytes default small))

-- A local header whose checksum and sizes are not known yet.
abbrev started_local : ZipLocalEntryBlock
started_local = record small_local { crc32 = 0; compressed_size = 0; uncompressed_size = 0 }

abbrev started : Cursor
started = record { bytes = encode zip_local_entry_block started_local ++ 97 ∷ 120 ∷ []; pos = 32 }

update_local_file_header_lem_example :
    (c' : Cursor) × (update_local_file_header small started ≡ some (ok tt, c'))
    × (drop 0 c'.bytes
        ≡ encode zip_local_entry_block (updated small started_local) ++ 97 ∷ 120 ∷ [])
update_local_file_header_lem_example =
    update_local_file_header_lem small started_local (97 ∷ 120 ∷ []) started refl (omega arith)
      (omega arith) refl

small-IsStreamable : IsStreamable default small
unfolding zip.Types.Utf8.is_valid_utf8 zip.Types.Utf8.all_ascii zip.Compression.parse_from_u16
    zip.Compression.serialize_to_u16 zip64_extra_field_block
small-IsStreamable = record {
  in_range = small-InRange;
  name = refl;
  short = omega arith;
  not_encrypted = refl;
  method = refl;
  readable = refl;
  no_zip64 = refl;
  no_extra = refl;
}

-- A local header, the name and ten bytes of content.
abbrev streamed : Cursor
streamed = record {
  bytes = encode zip_local_entry_block (local_header default small) ++ 97 ∷ replicate 10 7;
  pos = 0;
}

-- A visitor that keeps the names, the ones of the metadata apart.
abbrev names : ZipStreamVisitor (List (List ℕ) × List (List ℕ))
names = record {
  visit_file = λ s file. ok (file.0.file_name ∷ s.0, s.1);
  visit_additional_metadata = λ s metadata. ok (s.0, metadata.file_name ∷ s.1);
  lzma_taken = λ s file. length file.1;
}

abbrev stream_entries : List (ZipFileData × List ℕ)
stream_entries = (small, replicate 10 7) ∷ []

abbrev one_stream : Cursor
one_stream = record {
  bytes =
      streamed_bytes default stream_entries
      ++ (encode zip_central_entry_block small_central ++ 97 ∷ replicate 40 0);
  pos = 0;
}

visit_files_lem_example :
    visit_files no_checksum names 3 ([], []) one_stream
    ≡ ok (((97 ∷ []) ∷ [], []), advance 71 one_stream)
unfolding streamed_bytes encode zip.Spec.Block.encode_fields zip.LittleEndian.to_le_bytes
visit_files_lem_example =
    visit_files_lem default no_checksum names small_central (97 ∷ replicate 40 0) refl
      stream_entries 3 ([], []) one_stream (small-IsStreamable, refl, tt) (λ s m. refl, tt)
      (omega arith) refl

-- What is behind the first 30 bytes of the central header does not parse as one, so the visitor gets
-- no metadata.
no_metadata :
    visit_metadata no_checksum names 9 ((97 ∷ []) ∷ [], []) (advance 71 one_stream)
    ≡ ok ((97 ∷ []) ∷ [], [])
unfolding visit_metadata streamed_bytes encode zip.Spec.Block.encode_fields
    zip.LittleEndian.to_le_bytes zip.LittleEndian.from_le_bytes zip.Cursor.read_exact
    zip.Spec.Block.parse zip.Spec.Block.size_of zip.Spec.Block.interpret
    zip.Spec.Block.decode_fields
no_metadata = refl
