-- ===== src/Compression/RoundTrip.antt =====
-- src/compression.rs: a method and its number.
use zip.Prelude.{ℕ, ◌≡◌, arith, [], ◌∷◌, In}
use zip.Compression.{unsupported, parse_from_u16, serialize_to_u16}

-- The numbers that have a constructor of their own.
abbrev pub IsNamed : ℕ → Type 0
IsNamed v = In v (0 ∷ 8 ∷ 9 ∷ 12 ∷ 14 ∷ 93 ∷ 99 ∷ [])

-- Every number is kept by parsing it to a method and writing the method's number again, an
-- unsupported one too.
pub serialize-parse_from_u16 : (val : ℕ) → serialize_to_u16 (parse_from_u16 val) ≡ val
unfolding parse_from_u16 serialize_to_u16
serialize-parse_from_u16 val = ground arith

parse-unsupported : (v : ℕ) → ¬ IsNamed v → parse_from_u16 v ≡ unsupported v
unfolding parse_from_u16
parse-unsupported v h = ground arith
