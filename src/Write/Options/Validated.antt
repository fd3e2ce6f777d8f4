-- ===== src/Write/Options/Validated.antt =====
-- src/write.rs: the test of extra data, its end and the reserved headers.
use zip.Prelude.{
  ℕ, zero, suc, ◌+◌, ◌-◌, ◌^◌, ◌≤◌, ◌<◌, ◌≡◌, refl, sym, ap, ◌∙◌, arith, Bool, true, false, ltb,
  ge→ltb, lt→ltb, ◌==◌, inl, inr, ◌⊎◌, Bool-cases, List, ◌++◌, length, length-append,
}
use zip.Result.{ZipResult, ZipError, ok, err, io, other}
use zip.LittleEndian.{to_le_bytes, length-to_le_bytes}
use zip.Cursor.{Cursor, read_le}
use zip.Cursor.Codec.{Reads-read_le}
use zip.Read.ExtraField.{parse_single_extra_field}
use zip.Read.ExtraField.Progress.{parse_single_extra_field_ahead}
use zip.Write.Options.{
  is_reserved, default_file, validate_field, validate_fields, field_end, unless_reserved,
  with_header, with_room, validate_extra_data, after_round,
}

-- What goes on behind a round need only agree where the round leads.
after_round-same :
    (next next' : Cursor → ZipResult (Unit {0})) (r : ZipResult Cursor)
    → ((c : Cursor) → r ≡ ok c → next c ≡ next' c)
    → after_round next r ≡ after_round next' r
after_round-same next next' (err e) h = refl
after_round-same next next' (ok c) h = h c refl

-- The place of a cursor that is given.
abbrev end_of : Cursor → ZipResult Cursor → ℕ
end_of c (ok c') = c'.pos
end_of c (err e) = c.pos

module _ (crc32 : List ℕ → ℕ) where
  parsed_ahead :
      (c c' : Cursor) (r : ZipResult (Bool × Cursor))
      → (parse_single_extra_field crc32 c.pos true default_file c).0 ≡ r
      → field_end r ≡ ok c'
      → c.pos + 4 ≤ c'.pos
  parsed_ahead c c' (err e) h e' = absurd cc
  parsed_ahead c c' (ok (b, rest)) h e =
      let far = parse_single_extra_field_ahead crc32 c.pos true default_file c b rest h in
      omega (arith, ap (λ r. end_of c' r) e)

  unless_reserved_ahead :
      (c c' : Cursor) (b : Bool) → unless_reserved crc32 b c ≡ ok c' → c.pos + 4 ≤ c'.pos
  unless_reserved_ahead c c' true h = absurd cc
  unless_reserved_ahead c c' false h = parsed_ahead c c' _ refl h

  with_header_ahead :
      (c c' : Cursor) (r : ZipResult (ℕ × Cursor))
      → with_header crc32 r c ≡ ok c'
      → c.pos + 4 ≤ c'.pos
  unfolding with_header
  with_header_ahead c c' (err e) h = absurd cc
  with_header_ahead c c' (ok (header_id, _)) h =
      unless_reserved_ahead c c' (is_reserved header_id) h

  with_room_ahead : (c c' : Cursor) (b : Bool) → with_room crc32 b c ≡ ok c' → c.pos + 4 ≤ c'.pos
  with_room_ahead c c' true h = absurd cc
  with_room_ahead c c' false h = with_header_ahead c c' (read_le 2 c) h

  -- A round takes four bytes at least.
  ahead : (len : ℕ) (c c' : Cursor) → validate_field crc32 len c ≡ ok c' → c.pos + 4 ≤ c'.pos
  unfolding validate_field
  ahead len c c' h = with_room_ahead c c' (ltb (len - c.pos) 4) h

  ended : (n len : ℕ) (c : Cursor) → len ≤ c.pos → validate_fields crc32 n len c ≡ ok tt
  unfolding validate_fields
  ended zero len c h = rw (ge→ltb c.pos len (λ l. omega arith)) refl
  ended (suc n) len c h = rw (ge→ltb c.pos len (λ l. omega arith)) refl

  validate_fields-fuel :
      (n m len : ℕ) (c : Cursor)
      → len ≤ c.pos + n
      → len ≤ c.pos + m
      → validate_fields crc32 n len c ≡ validate_fields crc32 m len c
  unfolding validate_fields
  validate_fields-fuel zero m len c hn hm =
      ended zero len c (omega arith) ∙ sym (ended m len c (omega arith))
  validate_fields-fuel (suc n) zero len c hn hm =
      ended (suc n) len c (omega arith) ∙ sym (ended zero len c (omega arith))
  validate_fields-fuel (suc n) (suc m) len c hn hm = elim (Bool-cases (ltb c.pos len)) [
    | inr e ↦ rw e refl
    | inl e ↦ rw e (
        after_round-same (validate_fields crc32 n len) (validate_fields crc32 m len)
          (validate_field crc32 len c)
          (λ c' r.
            let far = ahead len c c' r in
            validate_fields-fuel n m len c' (omega arith) (omega arith)))
  ]

length-zero : (xs : List ℕ) → (length xs == 0) ≡ true → length xs ≡ 0
length-zero xs e = ground arith

positive : (n : ℕ) → 0 < n → (n == 0) ≡ false
positive n h = ground arith

within : (n : ℕ) → ltb (2 ^ 16 - 1) n ≡ false → n < 2 ^ 16
within n h = ground arith

-- The loop of `validate_extra_data` comes to its end: for extra data that fit a `u16` together
-- with what is reserved, it gives what its loop gives with any fuel that is the length of the
-- extra data at least.
pub validate_extra_data-validate_fields :
    (crc32 : List ℕ → ℕ) (extra : List ℕ) (reserved n : ℕ)
    → length extra + reserved < 2 ^ 16
    → length extra ≤ n
    → validate_extra_data crc32 extra reserved
      ≡ validate_fields crc32 n (length extra) (record { bytes = extra; pos = 0 })
unfolding validate_extra_data
validate_extra_data-validate_fields crc32 extra reserved n small enough =
    elim (Bool-cases (length extra == 0)) [
      | inl e ↦ rw e (sym (ended crc32 n (length extra) _ (omega (arith, length-zero extra e))))
      | inr e ↦
          rw (e, ge→ltb (2 ^ 16 - 1) (length extra + reserved) (λ l. omega arith))
            (validate_fields-fuel crc32 (length extra) n (length extra) _ (omega arith)
              (omega arith))
    ]

-- Extra data whose first header is one of the reserved ones are refused with an error, whatever
-- follows the header and however much is reserved.
pub validate_extra_data-reserved :
    (crc32 : List ℕ → ℕ) (header_id : ℕ) (body : List ℕ) (reserved : ℕ)
    → header_id < 2 ^ 16
    → is_reserved header_id ≡ true
    → (e : ZipError) × (validate_extra_data crc32 (to_le_bytes 2 header_id ++ body) reserved
        ≡ err e)
unfolding validate_extra_data validate_fields validate_field with_header
validate_extra_data-reserved crc32 header_id body reserved small r =
    elim (Bool-cases (ltb (2 ^ 16 - 1) (length extra + reserved))) [
      | inl e ↦ (io (other "Extra-data field can't exceed u16::MAX bytes"), rw (not_empty, e) refl)
      | inr e ↦
          let (x, refused) = refuses (Bool-cases (ltb (length extra - 0) 4)) in
          (
            x,
            validate_extra_data-validate_fields crc32 extra reserved (suc (length extra)) (fits e)
                  (omega arith)
                ∙ refused,
          )
    ]
  where
    extra : List ℕ
    extra = to_le_bytes 2 header_id ++ body

    at : Cursor
    at = record { bytes = extra; pos = 0 }

    nonempty : 0 < length extra
    nonempty =
        omega (arith, length-append (to_le_bytes 2 header_id) body, length-to_le_bytes 2 header_id)

    not_empty : (length extra == 0) ≡ false
    not_empty = positive (length extra) nonempty

    fits : ltb (2 ^ 16 - 1) (length extra + reserved) ≡ false → length extra + reserved < 2 ^ 16
    fits e = within (length extra + reserved) e

    refuses :
        (ltb (length extra - 0) 4 ≡ true) ⊎ (ltb (length extra - 0) 4 ≡ false)
        → (x : ZipError) × (validate_fields crc32 (suc (length extra)) (length extra) at ≡ err x)
    refuses (inl f) = (
      io (other "Extra-data field doesn't have room for ID and length"),
      rw (lt→ltb 0 (length extra) nonempty) (
          ap
            (λ b.
              after_round (validate_fields crc32 (length extra) (length extra))
                (with_room crc32 b at))
            f),
    )
    refuses (inr f) = (
      io (other "Extra data header ID requires crate feature unreserved"),
      rw (lt→ltb 0 (length extra) nonempty) (
          ap
            (λ b.
              after_round (validate_fields crc32 (length extra) (length extra))
                (with_room crc32 b at))
            f
          ∙ ap
              (λ r.
                after_round (validate_fields crc32 (length extra) (length extra))
                  (with_header crc32 r at))
              (Reads-read_le 2 header_id small at body refl)
          ∙ ap
              (λ b.
                after_round (validate_fields crc32 (length extra) (length extra))
                  (unless_reserved crc32 b at))
              r),
    )
