-- ===== src/Read/Lzma.antt =====
-- src/read/lzma.rs: `LzmaDecoder`. The `Stream` of the crate lzma-rs is a parameter, and so is the
-- reader inside, with a bound of the reads that it still gives bytes for.
pub mod Reads
use zip.Prelude.{
  ℕ, zero, suc, ◌-◌, ltb, if◌then◌else◌, Option, none, some, List, [], ◌∷◌, ◌++◌, length,
}
use zip.Crc32.{IoResult, done, failed, panicked}

-- What is used of the crate: a stream with the options of the file and an empty output,
-- `get_output_mut` with a read of what it gives, `write_all` and `finish`.
pub record LzmaRs : Type 1 where
  pub Stream : Type 0
  pub new_with_options : Stream
  pub read_output : Stream → ℕ → Option (List ℕ × Stream)
  pub write_all : Stream → List ℕ → IoResult (Unit {0}) × Stream
  pub finish : Stream → IoResult (List ℕ)

abbrev pub compressed_bytes_to_buffer : ℕ
compressed_bytes_to_buffer = 4096

module _ (L : LzmaRs) (R : Type 0) (inner_read : R → ℕ → IoResult (List ℕ) × R) (left : R → ℕ) where
  open L use {Stream, new_with_options, read_output, write_all}

  pub record LzmaDecoder : Type 0 where
    pub compressed_reader : R
    pub stream : Stream

  abbrev pub new : R → LzmaDecoder
  new inner = record { compressed_reader = inner; stream = new_with_options }

  -- The output that there is now; `unwrap` panics where there is none.
  abbrev pub and_output :
      {A : Type 0}
      → (List ℕ → LzmaDecoder → IoResult A × LzmaDecoder)
      → LzmaDecoder
      → Option (List ℕ × Stream)
      → IoResult A × LzmaDecoder
  and_output next d none = (panicked, d)
  and_output next d (some (bytes, stream)) = next bytes (record d { stream = stream })

  -- What was decompressed of a buffer that was read.
  abbrev pub written :
      {A : Type 0}
      → (LzmaDecoder → IoResult A × LzmaDecoder)
      → LzmaDecoder
      → IoResult (Unit {0}) × Stream
      → IoResult A × LzmaDecoder
  written next d (done u, stream) = next (record d { stream = stream })
  written next d (failed e, stream) = (failed e, record d { stream = stream })
  written next d (panicked, stream) = (panicked, record d { stream = stream })

  -- A buffer that is read and decompressed; at the end of the compressed bytes there is an answer.
  abbrev pub decompress :
      {A : Type 0}
      → A
      → (LzmaDecoder → IoResult A × LzmaDecoder)
      → LzmaDecoder
      → IoResult (List ℕ) × R
      → IoResult A × LzmaDecoder
  decompress at_end next d (done [], r) = (done at_end, record d { compressed_reader = r })
  decompress at_end next d (done (b ∷ bs), r) =
      written next (record d { compressed_reader = r }) (write_all d.stream (b ∷ bs))
  decompress at_end next d (failed e, r) = (failed e, record d { compressed_reader = r })
  decompress at_end next d (panicked, r) = (panicked, record d { compressed_reader = r })

  -- The loop of `read`, with the bytes that were read so far.
  unfoldable pub fill : ℕ → (buf_len : ℕ) → List ℕ → LzmaDecoder → IoResult (List ℕ) × LzmaDecoder
  fill zero buf_len bytes_read d = (done bytes_read, d)
  fill (suc fuel) buf_len bytes_read d =
      let next : LzmaDecoder → IoResult (List ℕ) × LzmaDecoder = λ d.
        and_output (λ more d. fill fuel buf_len (bytes_read ++ more) d) d
          (read_output d.stream (buf_len - length bytes_read)) in
      if ltb (length bytes_read) buf_len
      then decompress bytes_read next d (inner_read d.compressed_reader compressed_bytes_to_buffer)
      else (done bytes_read, d)

  -- Each round but the last takes some of the bytes that are left.
  unfoldable pub read : LzmaDecoder → ℕ → IoResult (List ℕ) × LzmaDecoder
  unfolding fill
  read d buf_len =
      and_output (λ bytes d. fill (suc (left d.compressed_reader)) buf_len bytes d) d
        (read_output d.stream buf_len)

  -- `copy` of the compressed bytes into the stream, by buffers of some length.
  unfoldable pub copy : ℕ → (chunk : ℕ) → LzmaDecoder → IoResult (Unit {0}) × LzmaDecoder
  copy zero chunk d = (done tt, d)
  copy (suc fuel) chunk d =
      decompress tt (λ d. copy fuel chunk d) d (inner_read d.compressed_reader chunk)

  abbrev finished : IoResult (Unit {0}) × LzmaDecoder → IoResult (List ℕ)
  finished (done u, d) = L.finish d.stream
  finished (failed e, d) = failed e
  finished (panicked, d) = panicked

  unfoldable pub finish : (chunk : ℕ) → LzmaDecoder → IoResult (List ℕ)
  unfolding copy
  finish chunk d = finished (copy (suc (left d.compressed_reader)) chunk d)
