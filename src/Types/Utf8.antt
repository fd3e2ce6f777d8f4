-- ===== src/Types/Utf8.antt =====
-- What src/types.rs uses of `str`: `std::str::from_utf8` and `is_ascii`, on bytes. The bytes after a
-- lead byte are counted, and the first of them has its own bounds.
pub mod Lossy
use zip.Prelude.{
  ℕ, zero, suc, Bool, true, false, ◌&&◌, List, [], ◌∷◌, leb, ltb, ◌==◌, if◌then◌else◌,
}

-- How many bytes follow a lead byte, and the bounds of the first; `invalid` is no lead byte.
pub data Lead : Type 0 where
  follow : ℕ → ℕ → ℕ → Lead
  invalid : Lead

abbrev pub lead_of : ℕ → Lead
lead_of b =
    if ltb b 0x80
    then follow 0 0x80 0xbf
    else if ltb b 0xc2
    then invalid
    else if ltb b 0xe0
    then follow 1 0x80 0xbf
    else if b == 0xe0
    then follow 2 0xa0 0xbf
    else if b == 0xed
    then follow 2 0x80 0x9f
    else if ltb b 0xf0
    then follow 2 0x80 0xbf
    else if b == 0xf0
    then follow 3 0x90 0xbf
    else if ltb b 0xf4
    then follow 3 0x80 0xbf
    else if b == 0xf4
    then follow 3 0x80 0x8f
    else invalid

unfoldable pub valid_after : Lead → List ℕ → Bool
valid_after invalid bs = false
valid_after (follow zero lo hi) [] = true
valid_after (follow (suc n) lo hi) [] = false
valid_after (follow zero lo hi) (b ∷ bs) = valid_after (lead_of b) bs
valid_after (follow (suc n) lo hi) (b ∷ bs) =
    let rest = valid_after (follow n 0x80 0xbf) bs in leb lo b && leb b hi && rest

-- `std::str::from_utf8(bytes).is_ok()`.
unfoldable pub is_valid_utf8 : List ℕ → Bool
unfolding valid_after
is_valid_utf8 bs = valid_after (follow 0 0x80 0xbf) bs

-- `<[u8]>::is_ascii`.
unfoldable pub all_ascii : List ℕ → Bool
all_ascii [] = true
all_ascii (b ∷ bs) = ltb b 0x80 && all_ascii bs
