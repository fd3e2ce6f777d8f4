-- ===== src/Types/DateTime.antt =====
-- src/types.rs: `DateTime`, a moment in the format of MS-DOS. `none` is `DateTimeRangeError`.
pub mod Calendar
pub mod Msdos
use zip.Prelude.{
  ℕ, ◌+◌, ◌-◌, ◌*◌, ◌/◌, ◌%◌, ◌^◌, Bool, true, false, ◌&&◌, ◌||◌, not, ltb, leb, ◌==◌,
  if◌then◌else◌, Option, none, some, min, bit_and, bit_or,
}

pub record DateTime : Type 0 where
  pub year : ℕ
  pub month : ℕ
  pub day : ℕ
  pub hour : ℕ
  pub minute : ℕ
  pub second : ℕ

-- `Default`: the first moment that the format has.
abbrev pub default : DateTime
default = record { year = 1980; month = 1; day = 1; hour = 0; minute = 0; second = 0 }

unfoldable pub is_leap_year : ℕ → Bool
is_leap_year year = year % 4 == 0 && (not (year % 25 == 0) || year % 16 == 0)

-- The arms of the match on the month; others than 1 to 12 do not get there.
unfoldable pub max_day : ℕ → ℕ → ℕ
unfolding is_leap_year
max_day year month =
    if month == 1
      || month == 3
      || month == 5
      || month == 7
      || month == 8
      || month == 10
      || month == 12
    then 31
    else if month == 4 || month == 6 || month == 9 || month == 11
    then 30
    else if is_leap_year year
    then 29
    else 28

unfoldable pub from_date_and_time : ℕ → ℕ → ℕ → ℕ → ℕ → ℕ → Option DateTime
from_date_and_time year month day hour minute second =
    if (leb 1980 year && leb year 2107)
      && (leb 1 month && leb month 12)
      && (leb 1 day && leb day 31)
      && leb hour 23
      && leb minute 59
      && leb second 60
    then if ltb (max_day year month) day
      then none
      else some (record {
        year = year;
        month = month;
        day = day;
        hour = hour;
        minute = minute;
        second = min second 58;
      })
    else none

is_some : Option DateTime → Bool
is_some none = false
is_some (some d) = true

unfoldable pub is_valid : DateTime → Bool
unfolding is_some
is_valid d = is_some (from_date_and_time d.year d.month d.day d.hour d.minute d.second)

-- `checked_add` on a `u16`, and `try_into` a `u8`.
abbrev checked_add_u16 : ℕ → ℕ → Option ℕ
checked_add_u16 a b = if ltb (a + b) (2 ^ 16) then some (a + b) else none

abbrev try_into_u8 : ℕ → Option ℕ
try_into_u8 n = if ltb n (2 ^ 8) then some n else none

infixl 5 ◌>>=◌
abbrev ◌>>=◌ : {A B : Type 0} → Option A → (A → Option B) → Option B
none >>= f = none
some a >>= f = f a

unfoldable pub try_from_msdos : ℕ → ℕ → Option DateTime
try_from_msdos datepart timepart =
    let seconds = bit_and timepart 0b0000000000011111 * 2 % 2 ^ 16 in
    let minutes = bit_and timepart 0b0000011111100000 / 2 ^ 5 in
    let hours = bit_and timepart 0b1111100000000000 / 2 ^ 11 in
    let days = bit_and datepart 0b0000000000011111 in
    let months = bit_and datepart 0b0000000111100000 / 2 ^ 5 in
    let years = bit_and datepart 0b1111111000000000 / 2 ^ 9 in
    do
      year ← checked_add_u16 years 1980
      month ← try_into_u8 months
      day ← try_into_u8 days
      hour ← try_into_u8 hours
      minute ← try_into_u8 minutes
      second ← try_into_u8 seconds
      from_date_and_time year month day hour minute second

unfoldable pub from_msdos_unchecked : ℕ → ℕ → DateTime
from_msdos_unchecked datepart timepart =
    let seconds = bit_and timepart 0b0000000000011111 * 2 % 2 ^ 16 in
    let minutes = bit_and timepart 0b0000011111100000 / 2 ^ 5 in
    let hours = bit_and timepart 0b1111100000000000 / 2 ^ 11 in
    let days = bit_and datepart 0b0000000000011111 in
    let months = bit_and datepart 0b0000000111100000 / 2 ^ 5 in
    let years = bit_and datepart 0b1111111000000000 / 2 ^ 9 in
    record {
      year = years + 1980;
      month = months % 2 ^ 8;
      day = days % 2 ^ 8;
      hour = hours % 2 ^ 8;
      minute = minutes % 2 ^ 8;
      second = seconds % 2 ^ 8;
    }

-- Shifts of a `u16` lose what leaves it.
unfoldable pub timepart : DateTime → ℕ
timepart d = bit_or (bit_or (d.second / 2) (d.minute * 2 ^ 5 % 2 ^ 16)) (d.hour * 2 ^ 11 % 2 ^ 16)

-- `year - 1980` is of a year that is not below 1980; every constructor sees to that.
unfoldable pub datepart : DateTime → ℕ
datepart d = bit_or (bit_or d.day (d.month * 2 ^ 5 % 2 ^ 16)) ((d.year - 1980) * 2 ^ 9 % 2 ^ 16)
