-- ===== src/Tests/Lzma.antt =====
-- src/read/lzma.rs: a decoder over a stream that hands on what it is given, but fails at a zero.
use zip.Prelude.{
  ℕ, suc, ◌≡◌, refl, ap, arith, Bool, true, false, ◌==◌, ◌||◌, Option, none, some, List, [], ◌∷◌,
  ◌++◌, length, take, drop, length-take, length-drop,
}
use zip.Result.{unexpected_eof}
use zip.Crc32.{IoResult, done, failed, panicked}
use zip.Read.Lzma.{LzmaRs, LzmaDecoder, new, fill, read, finish}
use zip.Read.Lzma.Reads.{IsCounted, fill_ends}

abbrev has_zero : List ℕ → Bool
has_zero [] = false
has_zero (b ∷ bs) = b == 0 || has_zero bs

-- The output, or none behind an error.
abbrev output_of : Option (List ℕ) → ℕ → Option (List ℕ × Option (List ℕ))
output_of none n = none
output_of (some out) n = some (take n out, some (drop n out))

abbrev after_write : Bool → List ℕ → IoResult (Unit {0}) × Option (List ℕ)
after_write true out = (failed unexpected_eof, none)
after_write false out = (done tt, some out)

abbrev write_to : Option (List ℕ) → List ℕ → IoResult (Unit {0}) × Option (List ℕ)
write_to none bytes = (failed unexpected_eof, none)
write_to (some out) bytes = after_write (has_zero bytes) (out ++ bytes)

abbrev rest_of : Option (List ℕ) → IoResult (List ℕ)
rest_of none = failed unexpected_eof
rest_of (some out) = done out

abbrev copying : LzmaRs
copying = record {
  Stream = Option (List ℕ);
  new_with_options = some [];
  read_output = output_of;
  write_all = write_to;
  finish = rest_of;
}

abbrev slice : List ℕ → ℕ → IoResult (List ℕ) × List ℕ
slice bytes n = (done (take n bytes), drop n bytes)

counted : IsCounted copying (List ℕ) slice length
counted r n b bs given = omega (arith, some_given, length-take n r, length-drop n r)
  where
    bytes_of : IoResult (List ℕ) → List ℕ
    bytes_of (done xs) = xs
    bytes_of (failed e) = []
    bytes_of panicked = []

    some_given : length (take n r) ≡ suc (length bs)
    some_given = ap (λ x. length (bytes_of x)) given

abbrev decoder : List ℕ → LzmaDecoder copying (List ℕ) slice length
decoder bytes = new copying (List ℕ) slice length bytes

fill_ends_example :
    fill copying (List ℕ) slice length 3 5 [] (decoder (1 ∷ 2 ∷ []))
    ≡ fill copying (List ℕ) slice length 9 5 [] (decoder (1 ∷ 2 ∷ []))
fill_ends_example =
    fill_ends copying (List ℕ) slice length counted 3 9 5 [] (decoder (1 ∷ 2 ∷ [])) (omega arith)
      (omega arith)

reads_all : (read copying (List ℕ) slice length (decoder (1 ∷ 2 ∷ [])) 5).0 ≡ done (1 ∷ 2 ∷ [])
unfolding read
reads_all = refl

finishes_all : finish copying (List ℕ) slice length 1 (decoder (1 ∷ 2 ∷ [])) ≡ done (1 ∷ 2 ∷ [])
unfolding finish
finishes_all = refl

abbrev broken : LzmaDecoder copying (List ℕ) slice length
broken = record { compressed_reader = []; stream = none }
