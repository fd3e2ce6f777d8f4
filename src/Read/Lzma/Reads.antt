-- ===== src/Read/Lzma/Reads.antt =====
-- src/read/lzma.rs: the loop of `read` comes to its end, and what a read does behind an error of the
-- stream.
use zip.Prelude.{
  ℕ, zero, suc, ◌-◌, ◌<◌, ◌≡◌, refl, ap, arith, Bool-cases, inl, inr, ltb, Option, none, some, List,
  [], ◌∷◌, ◌++◌, length,
}
use zip.Result.{IoError}
use zip.Crc32.{IoResult, done, failed, panicked}
use zip.Read.Lzma.{
  LzmaRs, LzmaDecoder, fill, and_output, written, decompress, compressed_bytes_to_buffer,
}

module _ (L : LzmaRs) (R : Type 0) (inner_read : R → ℕ → IoResult (List ℕ) × R) (left : R → ℕ) where
  open L use {read_output, write_all}

  -- A read that gives bytes leaves fewer of them.
  abbrev pub IsCounted : Type 0
  IsCounted =
      (r : R) (n : ℕ) (b : ℕ) (bs : List ℕ)
      → (inner_read r n).0 ≡ done (b ∷ bs)
      → left (inner_read r n).1 < left r

  abbrev D : Type 0
  D = LzmaDecoder L R inner_read left

  same_output :
      (f g : List ℕ → D → IoResult (List ℕ) × D) (d : D) (o : Option (List ℕ × L.Stream))
      → ((bytes : List ℕ) (d' : D)
          → d'.compressed_reader ≡ d.compressed_reader
          → f bytes d' ≡ g bytes d')
      → and_output L R inner_read left f d o ≡ and_output L R inner_read left g d o
  same_output f g d none h = refl
  same_output f g d (some (bytes, stream)) h = h bytes (record d { stream = stream }) refl

  same_written :
      (f g : D → IoResult (List ℕ) × D) (d : D) (a : IoResult (Unit {0}) × L.Stream)
      → ((d' : D) → d'.compressed_reader ≡ d.compressed_reader → f d' ≡ g d')
      → written L R inner_read left f d a ≡ written L R inner_read left g d a
  same_written f g d (done u, stream) h = h (record d { stream = stream }) refl
  same_written f g d (failed e, stream) h = refl
  same_written f g d (panicked, stream) h = refl

  same_decompress :
      (at_end : List ℕ) (f g : D → IoResult (List ℕ) × D) (d : D) (a : IoResult (List ℕ) × R)
      → ((b : ℕ) (bs : List ℕ)
          → a.0 ≡ done (b ∷ bs)
          → (d' : D) → d'.compressed_reader ≡ a.1
          → f d' ≡ g d')
      → decompress L R inner_read left at_end f d a ≡ decompress L R inner_read left at_end g d a
  same_decompress at_end f g d (done [], r) h = refl
  same_decompress at_end f g d (done (b ∷ bs), r) h =
      same_written f g (record d { compressed_reader = r }) (write_all d.stream (b ∷ bs))
        (λ d' e. h b bs refl d' e)
  same_decompress at_end f g d (failed x, r) h = refl
  same_decompress at_end f g d (panicked, r) h = refl

  module _ (counted : IsCounted) where
    -- The loop of `LzmaDecoder::read` comes to its end: with any fuel above the number of the compressed
    -- bytes that are left, it gives the same, whatever the stream and the buffer are. A read of the
    -- compressed bytes that gives some leaves fewer of them.
    pub fill_ends :
        (fuel more buf_len : ℕ) (bytes_read : List ℕ) (d : D)
        → left d.compressed_reader < fuel
        → left d.compressed_reader < more
        → fill L R inner_read left fuel buf_len bytes_read d
          ≡ fill L R inner_read left more buf_len bytes_read d
    unfolding fill
    fill_ends zero more buf_len bytes_read d lo hi = absurd (omega arith)
    fill_ends (suc fuel) zero buf_len bytes_read d lo hi = absurd (omega arith)
    fill_ends (suc fuel) (suc more) buf_len bytes_read d lo hi =
        elim (Bool-cases (ltb (length bytes_read) buf_len)) [
          | inr full ↦ rw full refl
          | inl short ↦ rw short (
              same_decompress bytes_read _ _ d
                (inner_read d.compressed_reader compressed_bytes_to_buffer)
                (λ b bs given d' at.
                  same_output _ _ d' (read_output d'.stream (buf_len - length bytes_read))
                    (λ bytes d'' at'.
                      let fewer =
                        counted d.compressed_reader compressed_bytes_to_buffer b bs given in
                      fill_ends fuel more buf_len (bytes_read ++ bytes) d''
                        (omega (arith, ap left at', ap left at))
                        (omega (arith, ap left at', ap left at)))))
        ]

  -- A stream that failed has no output.
  abbrev pub BreaksOnError : Type 0
  BreaksOnError =
      (s : L.Stream) (bytes : List ℕ) (e : IoError)
      → (write_all s bytes).0 ≡ failed e
      → (n : ℕ) → read_output (write_all s bytes).1 n ≡ none

  abbrev NeverFails : Type 0
  NeverFails = (r : R) (n : ℕ) (e : IoError) → ¬ ((inner_read r n).0 ≡ failed e)

  abbrev IsBroken : D → Type 0
  IsBroken d = (n : ℕ) → read_output d.stream n ≡ none
