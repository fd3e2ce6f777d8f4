-- ===== src/Write/Writer/Entry/Aligned.antt =====
-- src/write.rs: the padding of the extra data and the alignment of the content.
use native.Mathlib.Nat.{suc-mul, add-mul, mul-mod_left, mod-lt, div-add-mod'}
use zip.Prelude.{
  ℕ, zero, suc, ◌+◌, ◌-◌, ◌*◌, ◌/◌, ◌%◌, ◌^◌, ◌≤◌, ◌<◌, ◌≡◌, ap, ◌∙◌, arith, true, false, List,
  ◌++◌, length, length-append, length-replicate, replicate, ltb, lt→ltb, ◌==◌, inl, inr, Bool-cases,
}
use zip.LittleEndian.{to_le_bytes, length-to_le_bytes}
use zip.Write.Options.{add_extra_data_unchecked}
use zip.Write.Writer.Entry.{at_least_six, with_padding}

-- A multiple of the alignment is added, until the padding is long enough.
round_up :
    (rounds align pad_length : ℕ)
    → (k : ℕ) × (at_least_six rounds align pad_length ≡ pad_length + k * align)
round_up zero align pad_length = (0, omega arith)
round_up (suc rounds) align pad_length = elim (Bool-cases (ltb pad_length 6)) [
  | inl e ↦
      let (k, h) = round_up rounds align (pad_length + align) in
      (suc k, rw e (omega (arith, h, suc-mul k align)))
  | inr e ↦ let (k, h) = round_up rounds align pad_length in (k, rw e h)
]

at_least : (rounds align pad_length : ℕ) → 6 ≤ pad_length → 6 ≤ at_least_six rounds align pad_length
at_least rounds align pad_length le =
    let (k, g) = round_up rounds align pad_length in omega (arith, g)

not_below : (n : ℕ) → ltb n 6 ≡ false → 6 ≤ n
not_below n e = ground arith

long_enough :
    (rounds align pad_length : ℕ)
    → 2 ≤ align
    → 6 ≤ pad_length + rounds * 2
    → 6 ≤ at_least_six rounds align pad_length
long_enough zero align pad_length h le = omega arith
long_enough (suc rounds) align pad_length h le = elim (Bool-cases (ltb pad_length 6)) [
  | inl e ↦ rw e (long_enough rounds align (pad_length + align) h (omega arith))
  | inr e ↦ rw e (at_least rounds align pad_length (not_below pad_length e))
]

module _ (alignment extra_data_end : ℕ) (more : 1 < alignment) where
  abbrev pad_length : ℕ
  pad_length = at_least_six 6 alignment (alignment - extra_data_end % alignment)

  padded : (extra_data_end + pad_length) % alignment ≡ 0
  padded =
      let (k, h) = round_up 6 alignment (alignment - extra_data_end % alignment) in
      let below = mod-lt extra_data_end {m = alignment} (omega arith) in
      let parts = div-add-mod' extra_data_end alignment in
      ap (λ n. n % alignment)
        (omega (
          arith,
          h,
          below,
          parts,
          suc-mul (extra_data_end / alignment) alignment,
          add-mul (suc (extra_data_end / alignment)) k alignment,
        ))
      ∙ mul-mod_left (suc (extra_data_end / alignment) + k) alignment

  pad_body : List ℕ
  pad_body = to_le_bytes 2 alignment ++ replicate (pad_length - 6) 0

  length-padded :
      (extra : List ℕ)
      → length (add_extra_data_unchecked extra 0xa11e pad_body) ≡ length extra + pad_length
  unfolding add_extra_data_unchecked pad_body
  length-padded extra = omega (
    arith,
    length-append extra
        (to_le_bytes 2 0xa11e ++ (to_le_bytes 2 (length pad_body % 2 ^ 16) ++ pad_body)),
    length-append (to_le_bytes 2 0xa11e) (to_le_bytes 2 (length pad_body % 2 ^ 16) ++ pad_body),
    length-append (to_le_bytes 2 (length pad_body % 2 ^ 16)) pad_body,
    length-append (to_le_bytes 2 alignment) (replicate (pad_length - 6) 0),
    length-to_le_bytes 2 0xa11e,
    length-to_le_bytes 2 (length pad_body % 2 ^ 16),
    length-to_le_bytes 2 alignment,
    length-replicate {A = ℕ} (pad_length - 6) 0,
    long_enough 6 alignment (alignment - extra_data_end % alignment) (omega arith)
        (omega (arith, mod-lt extra_data_end {m = alignment} (omega arith))),
  )

-- With an alignment above 1, the extra data that `start_entry` writes behind a header, padded as
-- it pads them, end at a multiple of the alignment, wherever the header ends and whatever the
-- extra data are.
pub with_padding-aligned :
    (alignment header_end : ℕ) (extra : List ℕ)
    → 1 < alignment
    → (header_end + length (with_padding alignment (header_end + length extra) extra)) % alignment
      ≡ 0
unfolding with_padding pad_body
with_padding-aligned alignment header_end extra more =
    elim (Bool-cases ((header_end + length extra) % alignment == 0)) [
      | inl e ↦ rw (lt→ltb 1 alignment more, e) (is_zero _ e)
      | inr e ↦
          rw (lt→ltb 1 alignment more, e)
            (ap (λ n. n % alignment)
                (omega (arith, length-padded alignment (header_end + length extra) more extra))
              ∙ padded alignment (header_end + length extra) more)
    ]
  where
    is_zero : (n : ℕ) → (n == 0) ≡ true → n ≡ 0
    is_zero n e = ground arith
