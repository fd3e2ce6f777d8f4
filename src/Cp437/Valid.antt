-- ===== src/Cp437/Valid.antt =====
-- src/cp437.rs: what comes out is a string.
use zip.Prelude.{
  ℕ, suc, zero, ◌+◌, ◌-◌, ◌≤◌, ◌<◌, ◌≡◌, refl, ap, ◌∙◌, arith, true, List, [], ◌∷◌, ◌++◌, get_or,
  All, ◌/◌, ◌%◌, lt→ltb, ge→ltb, sym, Bool-cases, inl, inr, dec_lt,
}
use zip.Types.Utf8.{Lead, follow, lead_of, valid_after, is_valid_utf8, all_ascii}
use zip.Cp437.{upper_half, to_char, encode_utf8, collect_chars, from_cp437}

-- A character below the surrogates.
abbrev IsChar : ℕ → Type 0
IsChar c = c < 0xd000

lead_of_two : (b : ℕ) → 0xc2 ≤ b → b < 0xe0 → lead_of b ≡ follow 1 0x80 0xbf
lead_of_two b lo hi = ground arith

lead_of_three : (b : ℕ) → 0xe1 ≤ b → b < 0xed → lead_of b ≡ follow 2 0x80 0xbf
lead_of_three b lo hi = ground arith

-- The bytes behind a lead byte.
one_more :
    (lo hi x : ℕ) (rest : List ℕ)
    → lo ≤ x
    → x ≤ hi
    → valid_after (follow 1 lo hi) (x ∷ rest) ≡ valid_after (follow 0 0x80 0xbf) rest
unfolding valid_after
one_more lo hi x rest h k = ground arith

two_more :
    (lo hi x y : ℕ) (rest : List ℕ)
    → lo ≤ x
    → x ≤ hi
    → 0x80 ≤ y
    → y ≤ 0xbf
    → valid_after (follow 2 lo hi) (x ∷ y ∷ rest) ≡ valid_after (follow 0 0x80 0xbf) rest
unfolding valid_after
two_more lo hi x y rest h k h' k' = ground arith

-- A character begins with its lead byte.
begins :
    (b : ℕ) (rest : List ℕ) {l : Lead}
    → lead_of b ≡ l
    → valid_after (follow 0 0x80 0xbf) (b ∷ rest) ≡ valid_after l rest
unfolding valid_after
begins b rest e = ap (λ t. valid_after t rest) e

valid-encode_utf8 :
    (c : ℕ) (rest : List ℕ)
    → IsChar c
    → valid_after (follow 0 0x80 0xbf) (encode_utf8 c ++ rest)
      ≡ valid_after (follow 0 0x80 0xbf) rest
unfolding encode_utf8
valid-encode_utf8 c rest h = elim (dec_lt c 0x80) [
  | yes small ↦ rw (lt→ltb c 0x80 small) (begins c rest (ground arith))
  | no big ↦ elim (dec_lt c 0x800) [
    | yes small ↦
        rw (ge→ltb c 0x80 big, lt→ltb c 0x800 small)
          (begins (0xc0 + c / 64) _ (lead_of_two (0xc0 + c / 64) (omega arith) (omega arith))
            ∙ one_more 0x80 0xbf (0x80 + c % 64) rest (omega arith) (omega arith))
    | no huge ↦ rw (ge→ltb c 0x80 big, ge→ltb c 0x800 huge) (three huge)
  ]
]
  where
    tail : List ℕ
    tail = (0x80 + c / 64 % 64) ∷ (0x80 + c % 64) ∷ rest

    three :
        ¬ (c < 0x800)
        → valid_after (follow 0 0x80 0xbf) ((0xe0 + c / 4096) ∷ tail)
          ≡ valid_after (follow 0 0x80 0xbf) rest
    three huge = elim (dec_lt c 0x1000) [
      | yes low ↦
          let lead : 0xe0 ≡ 0xe0 + c / 4096 = omega arith in
          ap (λ b. valid_after (follow 0 0x80 0xbf) (b ∷ tail)) (sym lead)
          ∙ begins 0xe0 tail refl
          ∙ two_more 0xa0 0xbf (0x80 + c / 64 % 64) (0x80 + c % 64) rest (omega arith) (omega arith)
              (omega arith) (omega arith)
      | no high ↦
          begins (0xe0 + c / 4096) tail
            (lead_of_three (0xe0 + c / 4096) (omega arith) (omega arith))
          ∙ two_more 0x80 0xbf (0x80 + c / 64 % 64) (0x80 + c % 64) rest (omega arith) (omega arith)
              (omega arith) (omega arith)
    ]

upper_half-IsChar : All IsChar upper_half
upper_half-IsChar = omega arith

get_or-All : (P : ℕ → Type 0) (l : List ℕ) (i d : ℕ) → All P l → P d → P (get_or l i d)
get_or-All P [] i d h hd = hd
get_or-All P (x ∷ l) zero d h hd = h.0
get_or-All P (x ∷ l) (suc i) d h hd = get_or-All P l i d h.1 hd

to_char-IsChar : (b : ℕ) → IsChar (to_char b)
unfolding to_char
to_char-IsChar b = elim (dec_lt b 0x80) [
  | yes h ↦ ground arith
  | no h ↦ ground (arith, get_or-All IsChar upper_half (b - 0x80) 0 upper_half-IsChar (omega arith))
]

collect_chars_valid : (bs : List ℕ) → is_valid_utf8 (collect_chars bs) ≡ true
unfolding is_valid_utf8 collect_chars
collect_chars_valid [] = refl
collect_chars_valid (b ∷ bs) =
    valid-encode_utf8 (to_char b) (collect_chars bs) (to_char-IsChar b) ∙ collect_chars_valid bs

pub all_ascii_valid : (bs : List ℕ) → all_ascii bs ≡ true → is_valid_utf8 bs ≡ true
unfolding is_valid_utf8 all_ascii
all_ascii_valid [] h = refl
all_ascii_valid (b ∷ bs) h = ground (arith, all_ascii_valid bs)

-- Text in code page 437, whatever its bytes, comes out as UTF-8.
pub from_cp437_valid : (bs : List ℕ) → is_valid_utf8 (from_cp437 bs) ≡ true
unfolding from_cp437
from_cp437_valid bs = elim (Bool-cases (all_ascii bs)) [
  | inl e ↦ rw e (all_ascii_valid bs e)
  | inr e ↦ rw e (collect_chars_valid bs)
]
