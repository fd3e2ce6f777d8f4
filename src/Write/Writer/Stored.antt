-- ===== src/Write/Writer/Stored.antt =====
-- src/write.rs: what an entry is that is stored as it is, neither compressed nor encrypted: the writer
-- at each of the steps `start_file`, `write_all` and `finish_file`, and the bytes that stand in the
-- file at the end.
pub mod Started
pub mod Written
pub mod Finished
pub mod Aborted
pub mod Entry
use native.Mathlib.Nat.{add-zero, zero-add}
use zip.Prelude.{
  ℕ, zero, suc, ◌+◌, ◌-◌, ◌%◌, ◌^◌, ◌≤◌, ◌<◌, ◌≡◌, refl, sym, ap, ◌∙◌, arith, bit_or, Bool, true,
  false, Option, none, some, List, [], ◌∷◌, ◌++◌, length, take, drop, ge→ltb, ◌==◌,
}
use zip.Result.{ok}
use zip.Cursor.{Cursor, wrote}
use zip.Cursor.Write.{wrote-nil}
use zip.Compression.{stored}
use zip.Spec.Block.{encode}
use zip.Spec.Records.{zip64_bytes_thr}
use zip.Types.DateTime.{DateTime, is_valid}
use zip.Types.Headers.{ZipLocalEntryBlock, zip_local_entry_block}
use zip.Types.File.{ZipFileData, s_ifreg}
use zip.Types.File.Zip64.{zip64_extra_field_block}
use zip.Types.File.Blocks.{local_block}
use zip.Types.File.Blocks.Readable.{local_header}
use zip.Crc32.Checked.{IsHashing}
use zip.Write.Monad.{Writer}
use zip.Write.Headers.{update_aes, update_aes_extra_data, update_local_file_header}
use zip.Write.Headers.Updated.{sizes, updated, update_small}
use zip.Write.Options.{FileOptions, normalize_options, permissions_or}
use zip.Write.Generic.{storer, unencrypted}
use zip.Write.State.{
  Environment, ZipWriter, ZipWriterStats, map_last-append, get_last?-append, bind_ok, on_plain,
}
use zip.Write.Writer.{
  finish_file, finished_file, update_to, update_headers, update_headers_of, check_limit,
  beyond_limit, slice_to, write, write_rounds, write_all,
}
use zip.Write.Writer.Entry.{contains_key, new_file, add_entry, start_entry, start_file}

-- Options for an entry that is neither compressed nor encrypted.
abbrev pub stored_options : DateTime → Option ℕ → FileOptions
stored_options time permissions = record {
  compression_method = stored;
  compression_level = none;
  last_modified_time = time;
  permissions = permissions;
  large_file = false;
  encrypt_with = none;
  extended_options = none;
  alignment = 1;
  zopfli_buffer_size = none;
}

-- The entry when it is inserted.
abbrev pub inserted : DateTime → List ℕ → DateTime → Option ℕ → ℕ → ZipFileData
inserted default_for_write name time permissions header_start =
    new_file name (normalize_options default_for_write (stored_options time permissions)) none
      header_start ([], 0)

module _ (K : Environment) where
  open K use {hashing, default_for_write}

  -- A writer between two entries.
  abbrev pub idle :
      Cursor → List ZipFileData → ZipWriterStats K → Bool → List ℕ → Bool → ZipWriter K
  idle c files stats raw comment flush = record {
    inner = storer (unencrypted c);
    files = files;
    stats = stats;
    writing_to_file = false;
    writing_raw = raw;
    comment = comment;
    flush_on_finish_file = flush;
  }

  -- The writer behind the header of an entry.
  abbrev pub opened : Cursor → List ZipFileData → ℕ → List ℕ → Bool → ZipWriter K
  opened c files start comment flush = record {
    inner = storer (unencrypted c);
    files = files;
    stats = record { hasher = hashing.new_hasher; start = start; bytes_written = 0 };
    writing_to_file = true;
    writing_raw = false;
    comment = comment;
    flush_on_finish_file = flush;
  }

  -- The writer behind the content.
  abbrev pub filled : Cursor → List ZipFileData → ℕ → List ℕ → Bool → List ℕ → ZipWriter K
  filled c files start comment flush content =
      record (opened (wrote content c) files start comment flush) {
        stats = record {
          hasher = hashing.update hashing.new_hasher content;
          start = start;
          bytes_written = length content;
        };
      }

  -- The entry when its content ends at a place.
  abbrev pub ended : ZipFileData → ℕ → List ℕ → ZipFileData
  ended f start content = record f {
    uncompressed_size = length content;
    compressed_size = length content;
    crc32 = hashing.finalize (hashing.update hashing.new_hasher content);
  }

  -- The file when the header has the numbers of the content, and the place is behind this.
  abbrev pub sealed : ZipFileData → Cursor → List ℕ → Cursor
  sealed f c content =
      record (wrote
        (sizes (hashing.finalize (hashing.update hashing.new_hasher content)) (length content)
          (length content))
        (record (wrote content c) { pos = f.header_start + 14 })) { pos = c.pos + length content }

  module _ (name : List ℕ) (time : DateTime) (permissions : Option ℕ) (c : Cursor) where
    abbrev pub first_file : ZipFileData
    first_file = inserted default_for_write name time permissions c.pos

    abbrev pub headed : Cursor
    headed =
        wrote name
          (wrote (encode zip_local_entry_block (local_header default_for_write first_file)) c)

    -- The entry when its content begins.
    abbrev pub open_file : ZipFileData
    open_file = record first_file {
      extra_data_start = some headed.pos;
      data_start = some headed.pos;
    }

  module _ (name : List ℕ) (time : DateTime) (permissions : Option ℕ) (content : List ℕ) where
    -- The entry that is kept, and all that stands of it in the file.
    abbrev pub stored_file : ℕ → ZipFileData
    stored_file header_start =
        let f = inserted default_for_write name time permissions header_start in
        record f {
          extra_data_start = some (header_start + 30 + length name);
          data_start = some (header_start + 30 + length name);
          uncompressed_size = length content;
          compressed_size = length content;
          crc32 = hashing.finalize (hashing.update hashing.new_hasher content);
        }

    abbrev pub stored_header : ℕ → ZipLocalEntryBlock
    stored_header header_start = updated (stored_file header_start) (
        local_header default_for_write
          (inserted default_for_write name time permissions header_start))

    abbrev pub stored_bytes : ℕ → List ℕ
    stored_bytes header_start =
        encode zip_local_entry_block (stored_header header_start) ++ (name ++ content)
