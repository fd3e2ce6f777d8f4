-- ===== src/Write/Writer.antt =====
-- src/write.rs: the operations of `ZipWriter` on the entry that is being written: `finish_file`,
-- `abort_file` and `write`.
pub mod Entry
pub mod Copy
pub mod Close
pub mod Stored
pub mod Session
pub mod Names
pub mod Refused
use zip.Prelude.{
  ℕ, zero, suc, ◌+◌, ◌-◌, ◌%◌, ◌^◌, Bool, true, false, not, ◌&&◌, ltb, ◌==◌, if◌then◌else◌, Option,
  none, some, List, [], ◌∷◌, length, take, drop,
}
use zip.Result.{ZipResult, ok, err, io, other, broken_pipe, write_zero, file_not_found}
use zip.Compression.{CompressionMethod, stored}
use zip.Spec.Records.{zip64_bytes_thr}
use zip.Types.File.{ZipFileData, AesMode, AesVendorVersion, ae1, ae2}
use zip.Write.Monad as File
use zip.Write.Headers.{update_aes_extra_data, update_local_file_header}
use zip.Write.Generic.{write_inner}
use zip.Write.State.{
  Environment, Inner, ZipWriterStats, ZipWriter, Action, ◌>>=◌, ◌>>◌, pure, throw, gets, modify,
  on_plain, ignore_error, prepare, switch, switch_to_non_encrypting_writer, get_last?, drop_last,
  map_last,
}

-- The test of `abort_file` on the other entries: all of them start before a place.
abbrev starts_before : ℕ → Option ℕ → Bool
starts_before place none = false
starts_before place (some start) = ltb start place

abbrev pub all_start_before : ℕ → List ZipFileData → Bool
all_start_before place [] = true
all_start_before place (f ∷ files) =
    starts_before place f.data_start && all_start_before place files

abbrev is_nil : List ZipFileData → Bool
is_nil [] = true
is_nil (f ∷ files) = false

unfoldable pub rewind_safe : Option ℕ → List ZipFileData → Bool
rewind_safe none files = is_nil files
rewind_safe (some last_file_start) files = all_start_before last_file_start files

-- For a small content AE-2 keeps its checksum back.
abbrev pub vendor_for :
    ℕ
    → AesMode × AesVendorVersion × CompressionMethod
    → AesMode × AesVendorVersion × CompressionMethod
vendor_for bytes_written (mode, version, method) =
    (mode, if ltb bytes_written 20 then ae2 else ae1, method)

module _ {K : Environment} where
  open K use {crypto, encoders, hashing}

  abbrev pub put_last : ZipFileData → Action K (Unit {0})
  put_last f = modify (λ s. record s { files = map_last (λ _. f) s.files })

  -- What is known of the content at its end. AE-2 has no checksum. The difference is of `u64`s.
  unfoldable pub finished_file : ZipWriterStats K → ℕ → ZipFileData → ZipFileData
  finished_file stats file_end f = elim f.aes_mode [
    | none ↦ record f {
      uncompressed_size = stats.bytes_written;
      compressed_size = (file_end + 2 ^ 64 - stats.start) % 2 ^ 64;
      crc32 = hashing.finalize stats.hasher;
    }
    | some aes_mode ↦ record f {
      uncompressed_size = stats.bytes_written;
      compressed_size = (file_end + 2 ^ 64 - stats.start) % 2 ^ 64;
      aes_mode = some (vendor_for stats.bytes_written aes_mode);
      crc32 = if ltb stats.bytes_written 20 then 0 else hashing.finalize stats.hasher;
    }
  ]

  -- The update of the headers to what is known of an entry whose content ends at a place.
  unfoldable pub update_to : ℕ → ZipFileData → Action K Bool
  unfolding on_plain
  update_to file_end f = do
    put_last f
    f' ← on_plain (update_aes_extra_data f)
    put_last f'
    on_plain (update_local_file_header f')
    on_plain (File.seek_start file_end)
    pure true

  -- Without an entry `finish_file` ends early, and this gives `false`.
  abbrev pub update_headers_of : Option ZipFileData → Action K Bool
  update_headers_of none = pure false
  update_headers_of (some f) = do
    file_end ← on_plain File.stream_position
    stats ← gets (λ s. s.stats)
    update_to file_end (finished_file stats file_end f)

  unfoldable pub update_headers : Action K Bool
  unfolding on_plain finished_file update_to
  update_headers s = update_headers_of (get_last? s.files) s

  abbrev pub update_unless : (writing_raw : Bool) → Action K Bool
  update_unless true = pure true
  update_unless false = update_headers

  -- A flush of a file in memory does nothing.
  abbrev pub end_writing : Bool → Action K (Unit {0})
  end_writing true = modify (λ s. record s { writing_to_file = false })
  end_writing false = pure tt

  -- Back to the plain writer, as `finish_file` and `abort_file` do.
  unfoldable pub make_plain : Action K (Unit {0})
  unfolding prepare switch switch_to_non_encrypting_writer
  make_plain = do
    make_plain_writer ← prepare stored none none
    switch make_plain_writer
    switch_to_non_encrypting_writer

  abbrev pub finish_if : (writing_to_file : Bool) → Action K (Unit {0})
  finish_if false = pure tt
  finish_if true = do
    make_plain
    on_plain (File.pure tt)
    writing_raw ← gets (λ s. s.writing_raw)
    goes_on ← update_unless writing_raw
    end_writing goes_on

  unfoldable pub finish_file : Action K (Unit {0})
  unfolding make_plain update_headers on_plain
  finish_file s = finish_if s.writing_to_file s

  abbrev pub rewind_if : Bool → ℕ → Action K (Unit {0})
  rewind_if false header_start = pure tt
  rewind_if true header_start = on_plain (File.seek_start header_start)

  abbrev pub abort_last : Option ZipFileData → Action K (Unit {0})
  abort_last none = throw file_not_found
  abort_last (some f) = do
    modify (λ s. record s { files = drop_last s.files })
    make_plain
    safe ← gets (λ s. rewind_safe f.data_start s.files)
    rewind_if safe f.header_start
    modify (λ s. record s { writing_to_file = false })

  unfoldable pub abort_file : Action K (Unit {0})
  unfolding make_plain on_plain rewind_safe
  abort_file s = abort_last (get_last? s.files) s

  unfoldable pub ok_or_abort_file : {A : Type 0} → ZipResult A → Action K A
  unfolding abort_file
  ok_or_abort_file (ok a) = pure a
  ok_or_abort_file (err e) = do ignore_error abort_file; throw e

  -- `ZipWriterStats::update`.
  unfoldable pub update_stats : List ℕ → ZipWriterStats K → ZipWriterStats K
  update_stats buf stats = record stats {
    hasher = hashing.update stats.hasher buf;
    bytes_written = stats.bytes_written + length buf;
  }

  abbrev is_large : Option ZipFileData → Action K Bool
  is_large none s = none
  is_large (some f) s = some (ok f.large_file, s)

  -- What happens behind a write of `count` bytes when the content is beyond the limit: an entry that is
  -- not marked as large is aborted.
  abbrev pub unless_large : (large_file : Bool) → ℕ → Action K ℕ
  unless_large true count = pure count
  unless_large false count = do
    ignore_error abort_file
    throw (io (other "Large file option has not been set"))

  abbrev pub beyond_limit : Bool → ℕ → Action K ℕ
  beyond_limit false count = pure count
  beyond_limit true count = do
    last_file ← gets (λ s. get_last? s.files)
    large_file ← is_large last_file
    unless_large large_file count

  unfoldable pub check_limit : ℕ → Action K ℕ
  unfolding abort_file
  check_limit count s = beyond_limit (ltb zip64_bytes_thr s.stats.bytes_written) count s

  -- `&buf[0..count]`, which panics for a count beyond the buffer.
  abbrev pub slice_to : ℕ → List ℕ → Action K (List ℕ)
  slice_to count buf s = if ltb (length buf) count then none else some (ok (take count buf), s)

  abbrev after_write : List ℕ → Option (ZipResult ℕ × Inner K) → Action K ℕ
  after_write buf none = throw (io (broken_pipe "write(): ZipWriter was already closed"))
  after_write buf (some (err e, inner)) = do modify (λ s. record s { inner = inner }); throw e
  after_write buf (some (ok count, inner)) = do
    modify (λ s. record s { inner = inner })
    taken ← slice_to count buf
    modify (λ s. record s { stats = update_stats taken s.stats })
    check_limit count

  -- `Write::write`: how many bytes were taken.
  unfoldable pub write : List ℕ → Action K ℕ
  unfolding write_inner update_stats check_limit
  write buf s =
      if not s.writing_to_file
      then some (err (io (other "No file has been started")), s)
      else if length buf == 0
      then some (ok 0, s)
      else after_write buf (write_inner crypto encoders s.inner buf) s

  -- `Write::write_all` of the standard library, whose rounds each take a byte at least.
  unfoldable pub write_rounds : ℕ → List ℕ → Action K (Unit {0})
  unfolding write
  write_rounds zero buf = pure tt
  write_rounds (suc fuel) [] = pure tt
  write_rounds (suc fuel) (b ∷ buf) = do
    count ← write (b ∷ buf)
    elim count [ zero ↦ throw (io write_zero) | suc n ↦ write_rounds fuel (drop n buf) ]

  unfoldable pub write_all : List ℕ → Action K (Unit {0})
  unfolding write_rounds
  write_all buf = write_rounds (length buf) buf
