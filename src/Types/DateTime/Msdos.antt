-- ===== src/Types/DateTime/Msdos.antt =====
-- src/types.rs: the two words of MS-DOS and `DateTime` go into one another and back.
use zip.Prelude.{
  ℕ, ◌+◌, ◌-◌, ◌*◌, ◌/◌, ◌%◌, ◌^◌, ◌≤◌, ◌<◌, ◌≡◌, sym, ap, ◌∙◌, arith, true, some, min, bit_and,
  bit_or, ◌==◌, if◌then◌else◌,
}
use zip.Bits.{bit_and-low, bit_and-shifted, bit_or-shifted, bit_or_comm}
use zip.Types.DateTime.Calendar.{accepted, IsAccepted-inv, IsAccepted-is_valid}
use zip.Types.DateTime.{DateTime, from_date_and_time, is_valid, try_from_msdos, timepart, datepart}

-- Three fields of a word, lowest first, joined by `|`.
join_fields :
    (j k a b c : ℕ)
    → a < 2 ^ j
    → b * 2 ^ j + a < 2 ^ k
    → bit_or (bit_or a (b * 2 ^ j)) (c * 2 ^ k) ≡ c * 2 ^ k + (b * 2 ^ j + a)
join_fields j k a b c ha hb =
    ap (λ (t : ℕ). bit_or t (c * 2 ^ k)) (bit_or_comm a (b * 2 ^ j) ∙ bit_or-shifted j b a ha)
    ∙ bit_or_comm (b * 2 ^ j + a) (c * 2 ^ k)
    ∙ bit_or-shifted k c (b * 2 ^ j + a) hb

pub timepart_sum :
    (d : DateTime)
    → d.second < 64
    → d.minute < 64
    → d.hour < 32
    → timepart d ≡ d.hour * 2048 + (d.minute * 32 + d.second / 2)
unfolding timepart
timepart_sum d hs hm hh =
    rw (in_word (d.minute * 2 ^ 5) (omega arith), in_word (d.hour * 2 ^ 11) (omega arith))
      (join_fields 5 11 (d.second / 2) d.minute d.hour (omega arith) (omega arith))
  where
    in_word : (n : ℕ) → n < 2 ^ 16 → n % 2 ^ 16 ≡ n
    in_word n h = omega arith

pub datepart_sum :
    (d : DateTime)
    → d.day < 32
    → d.month < 16
    → d.year < 2108
    → datepart d ≡ (d.year - 1980) * 512 + (d.month * 32 + d.day)
unfolding datepart
datepart_sum d hd hm hy =
    rw (in_word (d.month * 2 ^ 5) (omega arith), in_word ((d.year - 1980) * 2 ^ 9) (omega arith))
      (join_fields 5 9 d.day d.month (d.year - 1980) (omega arith) (omega arith))
  where
    in_word : (n : ℕ) → n < 2 ^ 16 → n % 2 ^ 16 ≡ n
    in_word n h = omega arith

mask_low : (t : ℕ) → bit_and t 0b11111 ≡ t % 32
mask_low t = bit_and-low 5 t

mask_time_mid : (t : ℕ) → bit_and t 0b11111100000 ≡ t / 32 % 64 * 32
mask_time_mid t = bit_and-shifted 5 t 63 ∙ ap (λ (n : ℕ). n * 32) (bit_and-low 6 (t / 32))

mask_time_high : (t : ℕ) → bit_and t 0b1111100000000000 ≡ t / 2048 % 32 * 2048
mask_time_high t = bit_and-shifted 11 t 31 ∙ ap (λ (n : ℕ). n * 2048) (bit_and-low 5 (t / 2048))

mask_date_mid : (t : ℕ) → bit_and t 0b111100000 ≡ t / 32 % 16 * 32
mask_date_mid t = bit_and-shifted 5 t 15 ∙ ap (λ (n : ℕ). n * 32) (bit_and-low 4 (t / 32))

mask_date_high : (t : ℕ) → bit_and t 0b1111111000000000 ≡ t / 512 % 128 * 512
mask_date_high t = bit_and-shifted 9 t 127 ∙ ap (λ (n : ℕ). n * 512) (bit_and-low 7 (t / 512))

-- `try_from_msdos` in plain arithmetic.
pub try_from_msdos_fields :
    (d t : ℕ)
    → try_from_msdos d t
      ≡ from_date_and_time
          (d / 512 % 128 + 1980)
          (d / 32 % 16)
          (d % 32)
          (t / 2048 % 32)
          (t / 32 % 64)
          (t % 32 * 2)
unfolding try_from_msdos
try_from_msdos_fields d t = ground (
  arith,
  mask_low t,
  mask_low d,
  mask_time_mid t,
  mask_time_high t,
  mask_date_mid d,
  mask_date_high d,
)

-- A valid moment goes into its two words and back: every part is kept but the second, which loses
-- its last bit and is 58 at most.
pub try_from_msdos-parts :
    (d : DateTime)
    → is_valid d ≡ true
    → try_from_msdos (datepart d) (timepart d)
      ≡ some (record d { second = min (d.second / 2 * 2) 58 })
try_from_msdos-parts d h =
    let a = IsAccepted-is_valid {d = d} h in
    let date = datepart_sum d (omega arith) (omega arith) (omega arith) in
    let time = timepart_sum d (omega arith) (omega arith) (omega arith) in
    let year : datepart d / 512 % 128 + 1980 ≡ d.year = omega arith in
    let month : datepart d / 32 % 16 ≡ d.month = omega arith in
    let day : datepart d % 32 ≡ d.day = omega arith in
    let hour : timepart d / 2048 % 32 ≡ d.hour = omega arith in
    let minute : timepart d / 32 % 64 ≡ d.minute = omega arith in
    let second : timepart d % 32 * 2 ≡ d.second / 2 * 2 = omega arith in
    try_from_msdos_fields (datepart d) (timepart d)
    ∙ rw (year, month, day, hour, minute, second)
        (accepted d.year d.month d.day d.hour d.minute (d.second / 2 * 2) (record {
          year_range = a.year_range;
          month_range = a.month_range;
          day_range = a.day_range;
          time_range = omega arith;
        }))

-- Two words that stand for a moment come back from it: the date always, and the time but for the
-- second 60, which becomes 58.
pub parts-try_from_msdos :
    (date time : ℕ) {d : DateTime}
    → date < 2 ^ 16
    → time < 2 ^ 16
    → try_from_msdos date time ≡ some d
    → (datepart d ≡ date) × (timepart d ≡ (if time % 32 == 30 then time - 1 else time))
parts-try_from_msdos date time {d} hd ht h =
    let (a, e) = IsAccepted-inv _ _ _ _ _ _ (sym (try_from_msdos_fields date time) ∙ h) in
    let year : d.year ≡ date / 512 % 128 + 1980 = ap (λ (t : DateTime). t.year) e in
    let month : d.month ≡ date / 32 % 16 = ap (λ (t : DateTime). t.month) e in
    let day : d.day ≡ date % 32 = ap (λ (t : DateTime). t.day) e in
    let hour : d.hour ≡ time / 2048 % 32 = ap (λ (t : DateTime). t.hour) e in
    let minute : d.minute ≡ time / 32 % 64 = ap (λ (t : DateTime). t.minute) e in
    let second : d.second ≡ min (time % 32 * 2) 58 = ap (λ (t : DateTime). t.second) e in
    let seconds : time % 32 * 2 ≤ 60 = a.time_range.2 in
    (
      datepart_sum d (omega arith) (omega arith) (omega arith) ∙ omega arith,
      timepart_sum d (omega arith) (omega arith) (omega arith) ∙ ground arith,
    )
