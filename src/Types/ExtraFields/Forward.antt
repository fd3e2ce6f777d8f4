-- ===== src/Types/ExtraFields/Forward.antt =====
-- src/extra_fields: the two readers do not go back.
use zip.Prelude.{
  ◌+◌, ◌*◌, ℕ, Bool, true, false, none, some, not, ◌&&◌, ◌||◌, ◌==◌, ltb, bit_and, get_or,
}
use zip.Cursor.{lift, read_exact, read_le}
use zip.Cursor.Forward.{
  Forward, Forward-pure, Forward-throw, Forward-lift, Forward-if, Forward-then, Forward-read_exact,
  Forward-read_le,
}
use zip.Types.ExtraFields.{
  read_if, has_bit, count_ones, timestamps, extended_timestamp_from, unicode_extra_field_from,
  content_len,
}

Forward-read_if : (b : Bool) → Forward 0 (read_if b)
Forward-read_if true = Forward-then 4 (read_le 4) (Forward-read_le 4) (λ n. Forward-pure (some n))
Forward-read_if false = Forward-pure none

Forward-timestamps : (flags len : ℕ) → Forward 0 (timestamps flags len)
unfolding timestamps
Forward-timestamps flags len =
    Forward-if 0 (not (len == 5) && not (len == 1 + 4 * count_ones flags)) (Forward-throw _) (
      Forward-if 0 (not (bit_and flags 0b11111000 == 0)) (Forward-throw _) (
        Forward-then 0 (read_if (has_bit flags 0b00000001 || len == 5)) (Forward-read_if _) (λ m.
          Forward-then 0 (read_if (has_bit flags 0b00000010 && ltb 5 len)) (Forward-read_if _) (λ a.
            Forward-then 0 (read_if (has_bit flags 0b00000100 && ltb 5 len)) (Forward-read_if _)
              (λ c. Forward-pure _)))))

pub Forward-extended_timestamp_from : (len : ℕ) → Forward 0 (extended_timestamp_from len)
unfolding extended_timestamp_from
Forward-extended_timestamp_from len =
    Forward-then 1 (read_exact 1) (Forward-read_exact 1)
      (λ flags. Forward-timestamps (get_or flags 0 0) len)

pub Forward-unicode_extra_field_from : (len : ℕ) → Forward 0 (unicode_extra_field_from len)
unfolding unicode_extra_field_from
Forward-unicode_extra_field_from len =
    Forward-then 1 (read_exact 1) (Forward-read_exact 1) (λ version.
      Forward-then 4 (read_le 4) (Forward-read_le 4) (λ crc32.
        Forward-then 0 (lift (content_len len)) (Forward-lift (content_len len))
          (λ n. Forward-then n (read_exact n) (Forward-read_exact n) (λ content. Forward-pure _))))
