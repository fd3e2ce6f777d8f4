-- ===== src/Tests/Types.antt =====
-- src/types.rs: runs of `DateTime`.
use zip.Prelude.{◌≡◌, ◌↔◌, refl, arith, some, none, true}
use zip.Types.DateTime.{
  DateTime, is_leap_year, is_valid, from_date_and_time, try_from_msdos, datepart, timepart, max_day,
}
use zip.Types.DateTime.Calendar.{IsDateAndTime, from_date_and_time_iff}
use zip.Types.DateTime.Msdos.{try_from_msdos-parts, parts-try_from_msdos}

abbrev leap_day : DateTime
leap_day = record { year = 2000; month = 2; day = 29; hour = 23; minute = 59; second = 57 }

leap_day-is_valid : is_valid leap_day ≡ true
unfolding is_valid from_date_and_time max_day is_leap_year
leap_day-is_valid = refl

words_of_leap_day : (datepart leap_day ≡ 0x285d) × (timepart leap_day ≡ 0xbf7c)
unfolding datepart timepart
words_of_leap_day = (refl, refl)

no_leap_day_in_2100 : from_date_and_time 2100 2 29 0 0 0 ≡ none
unfolding from_date_and_time max_day is_leap_year
no_leap_day_in_2100 = refl

abbrev from_words : DateTime
from_words = record { year = 2018; month = 11; day = 17; hour = 10; minute = 38; second = 30 }

parses_words : try_from_msdos 0x4d71 0x54cf ≡ some from_words
unfolding try_from_msdos from_date_and_time max_day is_leap_year
parses_words = refl

from_date_and_time_iff_example :
    (from_date_and_time 2000 2 29 23 59 57 ≡ some leap_day)
    ↔ (IsDateAndTime 2000 2 29 23 59 57 × (leap_day ≡ leap_day))
from_date_and_time_iff_example = from_date_and_time_iff 2000 2 29 23 59 57 leap_day

try_from_msdos-parts_example :
    try_from_msdos (datepart leap_day) (timepart leap_day) ≡ some (record leap_day { second = 56 })
try_from_msdos-parts_example = try_from_msdos-parts leap_day leap_day-is_valid

parts-try_from_msdos_example : (datepart from_words ≡ 0x4d71) × (timepart from_words ≡ 0x54cf)
parts-try_from_msdos_example =
    parts-try_from_msdos 0x4d71 0x54cf {d = from_words} (omega arith) (omega arith) parses_words
