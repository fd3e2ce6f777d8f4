-- ===== src/Tests/Writer.antt =====
-- src/write.rs: a writer with stand-ins for the crates.
use zip.Prelude.{
  All, replicate, ℕ, ◌+◌, ◌%◌, ◌^◌, ◌≡◌, refl, ap, arith, true, false, none, some, List, [], ◌∷◌,
  ◌++◌, length, append-nil, append_assoc,
}
use zip.Result.{ZipError, ok, err, io, other, invalid_archive}
use zip.Cursor.{Cursor, wrote}
use zip.Compression.{deflated}
use zip.Types.DateTime.{DateTime, default, is_valid}
use zip.Types.File.{ZipFileData, pos}
use zip.Crc32.{Hashing}
use zip.Crc32.Checked.{IsHashing}
use zip.Read.Header.{read_files}
use zip.Write.Footer.Written.{IsSmall}
use zip.Write.Generic.{Encoders, writer_for, deflater, storer, unencrypted}
use zip.Write.State.{Environment, ZipWriter, ZipWriterStats}
use zip.Write.Writer.{write, update_stats, all_start_before}
use zip.Write.Writer.Close.{new, no_stats}
use zip.Write.Writer.Entry.{start_file, contains_key, with_padding}
use zip.Write.Writer.Stored.Started.{started}
use zip.Write.Writer.Entry.Aligned.{with_padding-aligned}
use zip.Write.Writer.Refused.{start_file-duplicate}
use zip.Write.Writer.Stored.Aborted.{begin_and_abort, begin_and_abort_lem, write-beyond}
use zip.Write.Options.{default_options, validate_extra_data, validate_fields, is_reserved}
use zip.Write.Options.Validated.{validate_extra_data-reserved}
use zip.Write.Writer.Names.{NamesDistinct}
use zip.Write.Writer.Names.Reached.{
  starts_file, sets_comment, state_of, run, fresh, Reached, begin, then_call, Reached-NamesDistinct,
}
use zip.LittleEndian.{to_le_bytes}
use zip.Write.Writer.Stored.{
  idle, opened, stored_options, stored_file, stored_bytes, headed, open_file,
}
use zip.Write.Writer.Stored.Entry.{store, store_lem}
use zip.Write.Writer.Session.{Item, IsDistinct, content_bytes, placed}
use zip.Write.Writer.Session.Headers.{IsItem}
use zip.Tests.Aes.{crypto}
use zip.Tests.Archive.{no_checksum, local_part, small-HasLocal}
use zip.Tests.File.{small, small_local}
use zip.Read.Header.Located.{HasLocal}
use zip.Read.Header.Directory.{Placed}
use zip.Write.Writer.Copy.{ZipArchive, merge_contents}
use zip.Write.Writer.Copy.Merged.{moved, merge_contents-HasLocal}

abbrev pub summing : Hashing
summing = record {
  Hasher = List ℕ;
  new_hasher = [];
  update = λ h bs. h ++ bs;
  finalize = λ h. length h % 2 ^ 32;
}

pub summing-IsHashing : IsHashing summing
summing-IsHashing = record {
  nothing = λ h. append-nil h;
  goes_on = λ h xs ys. append_assoc h xs ys;
}

-- An encoder that hands on what it is given.
abbrev encoders : Encoders
encoders = record {
  Encoder = ℕ;
  flate2_encoder = λ level. level;
  zopfli_encoder = λ iterations. iterations;
  buffered_zopfli_encoder = λ iterations size. iterations;
  bzip2_encoder = λ level. level;
  zstd_encoder = λ level. 0;
  write = λ e buf. (ok (length buf), buf, e);
  finish = λ e. ok [];
  deflate_fast = 1;
  deflate_best = 9;
  deflate_default = 6;
  bzip2_fast = 1;
  bzip2_best = 9;
  bzip2_default = 6;
  zstd_min = pos 1;
  zstd_max = pos 22;
  zstd_default = pos 3;
}

abbrev pub K : Environment
K = record {
  crypto = crypto;
  encoders = encoders;
  hashing = summing;
  default_for_write = default;
  crc32_of = no_checksum;
}

abbrev pub empty : Cursor
empty = record { bytes = []; pos = 0 }

abbrev pub items : List Item
items =
    record { name = 97 ∷ []; time = default; permissions = none; content = 120 ∷ 121 ∷ [] }
    ∷ record { name = 98 ∷ []; time = default; permissions = some 0x1ed; content = [] }
    ∷ []

pub items-IsDistinct : IsDistinct items
unfolding IsDistinct
items-IsDistinct = ((refl, tt), (tt, tt))

pub items-IsItem :
    IsItem (record { name = 97 ∷ []; time = default; permissions = none; content = 120 ∷ 121 ∷ [] })
unfolding zip.Types.Utf8.is_valid_utf8
items-IsItem = record { short = omega arith; utf8 = refl }

pub more-IsItem :
    IsItem (record { name = 98 ∷ []; time = default; permissions = some 0x1ed; content = [] })
unfolding zip.Types.Utf8.is_valid_utf8
more-IsItem = record { short = omega arith; utf8 = refl }

pub content_size : length (content_bytes K items 0) ≡ 64
unfolding content_bytes zip.Spec.Block.encode zip.Spec.Block.encode_fields
    zip.LittleEndian.to_le_bytes
content_size = refl

pub default-is_valid : is_valid default ≡ true
unfolding is_valid zip.Types.DateTime.from_date_and_time zip.Types.DateTime.max_day
default-is_valid = refl

pub items-IsSmall :
    IsSmall default (placed K items 0) (104 ∷ []) (0 + length (content_bytes K items 0))
unfolding content_bytes zip.Spec.Block.encode zip.Spec.Block.encode_fields
    zip.LittleEndian.to_le_bytes placed zip.Read.Header.Directory.directory_bytes
    zip.Write.Writer.Entry.new_file
items-IsSmall = record {
  entries = omega arith;
  directory_start = omega arith;
  directory_size = omega arith;
  comment_length = omega arith;
}

-- A writer with the entry "a".
abbrev one_file : ZipFileData
one_file = stored_file K (97 ∷ []) default none (120 ∷ 121 ∷ []) 0

store_lem_example :
    store K (97 ∷ []) default none (120 ∷ 121 ∷ []) (idle K empty [] (no_stats K) false [] false)
    ≡ some (
      ok tt,
      idle K
          (wrote (stored_bytes K (97 ∷ []) default none (120 ∷ 121 ∷ []) 0) empty)
          (one_file ∷ [])
          (record { hasher = 120 ∷ 121 ∷ []; start = 31; bytes_written = 2 })
          false
          []
          false,
    )
store_lem_example =
    store_lem K (97 ∷ []) default none (120 ∷ 121 ∷ []) empty summing-IsHashing [] (no_stats K)
      false false [] refl (omega arith) (omega arith) (omega arith)

a_is_not_b : contains_key (98 ∷ []) (one_file ∷ []) ≡ false
unfolding zip.Write.Writer.Entry.new_file
a_is_not_b = refl

a_is_there : contains_key (97 ∷ []) (one_file ∷ []) ≡ true
unfolding zip.Write.Writer.Entry.new_file
a_is_there = refl

a_is_small : one_file.large_file ≡ false
unfolding zip.Write.Writer.Entry.new_file zip.Write.Options.normalize_options
a_is_small = refl

-- The file behind it.
abbrev after_a : Cursor
after_a = wrote (stored_bytes K (97 ∷ []) default none (120 ∷ 121 ∷ []) 0) empty

after_a-pos : after_a.pos ≡ 33
unfolding zip.Spec.Block.encode zip.Spec.Block.encode_fields zip.LittleEndian.to_le_bytes
after_a-pos = refl

a_starts_before :
    all_start_before (headed K (98 ∷ []) default none after_a).pos (one_file ∷ []) ≡ true
unfolding zip.Spec.Block.encode zip.Spec.Block.encode_fields zip.LittleEndian.to_le_bytes
    zip.Write.Writer.Entry.new_file
a_starts_before = refl

begin_and_abort_lem_example :
    (s : ZipWriter K) × (begin_and_abort K
        (98 ∷ [])
        default
        none
        (120 ∷ [])
        after_a
        (idle K after_a (one_file ∷ []) (no_stats K) false [] false)
      ≡ some (ok tt, s))
    × (s.files ≡ one_file ∷ [])
    × (s.writing_to_file ≡ false)
    × (s.inner
        ≡ storer (
            unencrypted (record (wrote (120 ∷ []) (headed K (98 ∷ []) default none after_a)) {
              pos = after_a.pos;
            })))
begin_and_abort_lem_example =
    begin_and_abort_lem K (98 ∷ []) default none (120 ∷ []) after_a summing-IsHashing
      (one_file ∷ []) (no_stats K) false false [] a_is_not_b (omega arith)
      (omega (arith, after_a-pos)) (omega arith) a_starts_before

-- A writer that has written all that an entry may hold that is not marked as large.
abbrev full : ZipWriterStats K
full = record { hasher = []; start = 31; bytes_written = 4294967295 }

write-beyond_example :
    write
      (120 ∷ [])
      (record (idle K empty (one_file ∷ []) full false [] false) { writing_to_file = true })
    ≡ some (
      err (io (other "Large file option has not been set")),
      idle K
          (record (wrote (120 ∷ []) empty) { pos = 0 })
          []
          (update_stats (120 ∷ []) full)
          false
          []
          false,
    )
unfolding zip.Write.Writer.Entry.new_file
write-beyond_example =
    write-beyond K one_file [] [] false 31 120 [] empty full refl refl a_is_small (omega arith)

deflate_is_there : writer_for crypto encoders deflated none (some (2 ^ 15)) ≡ ok (deflater 6)
unfolding writer_for zip.Write.Generic.clamp_opt
deflate_is_there = refl

start_file-duplicate_example :
    start_file
      (97 ∷ [])
      (default_options default none)
      (idle K empty (one_file ∷ []) (no_stats K) false [] false)
    ≡ some (
      err (invalid_archive "Duplicate filename"),
      idle K empty (one_file ∷ []) (no_stats K) false [] false,
    )
start_file-duplicate_example =
    start_file-duplicate K empty (one_file ∷ []) (no_stats K) false false [] (97 ∷ []) a_is_there
      (omega arith) (default_options default none) (deflater 6) deflate_is_there

with_padding-aligned_example : (32 + length (with_padding 64 33 (1 ∷ []))) % 64 ≡ 0
with_padding-aligned_example = with_padding-aligned 64 32 (1 ∷ []) (omega arith)

abbrev timestamp : List ℕ
timestamp = 0x55 ∷ 0x54 ∷ 5 ∷ 0 ∷ 1 ∷ 0 ∷ 0 ∷ 0 ∷ 0 ∷ []

reserved : is_reserved 0x756e ≡ true
unfolding is_reserved
reserved = refl

validate_extra_data-reserved_example :
    (e : ZipError) × (validate_extra_data no_checksum (to_le_bytes 2 0x756e ++ (0 ∷ 0 ∷ [])) 0
      ≡ err e)
validate_extra_data-reserved_example =
    validate_extra_data-reserved no_checksum 0x756e (0 ∷ 0 ∷ []) 0 (omega arith) reserved

-- The writer behind `start_file` and a comment.
abbrev begun : ZipWriter K
begun =
    opened K (headed K (97 ∷ []) default none empty) (open_file K (97 ∷ []) default none empty ∷ [])
      (headed K (97 ∷ []) default none empty).pos [] false

begun-Reached : Reached (new K empty) begun
unfolding run new
begun-Reached = then_call (starts_file (97 ∷ []) (stored_options default none)) begin (
    ap state_of (
      started K (97 ∷ []) default none empty [] (no_stats K) false false [] refl (omega arith)
        (omega arith)))

commented-Reached : Reached (new K empty) (record begun { comment = 104 ∷ [] })
unfolding run
commented-Reached = then_call (sets_comment (104 ∷ [])) begun-Reached refl

Reached-NamesDistinct_example : NamesDistinct (open_file K (97 ∷ []) default none empty ∷ [])
Reached-NamesDistinct_example = Reached-NamesDistinct (fresh empty) commented-Reached

-- An archive with one entry, merged behind eight bytes.
abbrev source : ZipArchive
source = record { files = small ∷ []; bytes = local_part ++ []; dir_start = 32 }

abbrev eight_bytes : Cursor
eight_bytes = record { bytes = replicate 8 0; pos = 8 }

merge_contents-HasLocal_example :
    (c' : Cursor) × (merge_contents source eight_bytes ≡ some (ok (moved 8 small ∷ []), c'))
    × All {A = Placed}
        (λ e. HasLocal (e.0.header_start + 8) 40 c'.bytes e.1)
        ((small, small_local) ∷ [])
merge_contents-HasLocal_example =
    merge_contents-HasLocal source eight_bytes (small, small_local) [] refl (small-HasLocal [], tt)
      ((omega arith, tt), tt) (omega arith)
