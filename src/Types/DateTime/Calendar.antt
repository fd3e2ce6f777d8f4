-- ===== src/Types/DateTime/Calendar.antt =====
-- src/types.rs: `from_date_and_time` against the Gregorian calendar.
use zip.Prelude.{
  ap, sym, ◌∙◌, Bool-cases, ℕ, ◌%◌, ◌≤◌, ◌≡◌, ◌≢◌, ◌↔◌, ◌⊎◌, inl, inr, arith, true, false, some,
  min,
}
use zip.Types.DateTime.{DateTime, is_leap_year, max_day, from_date_and_time, is_valid}

-- The Gregorian rule.
abbrev pub IsLeap : ℕ → Type 0
IsLeap year = (year % 4 ≡ 0) × ((year % 100 ≢ 0) ⊎ (year % 400 ≡ 0))

-- `is_leap_year` is the Gregorian rule, for every year.
pub is_leap_year_iff : (year : ℕ) → (is_leap_year year ≡ true) ↔ IsLeap year
unfolding is_leap_year
is_leap_year_iff year = ground arith

-- A date of the Gregorian calendar from 1980 to 2107, and a time of day with a second of 60 at most.
pub record IsDateAndTime (year month day hour minute second : ℕ) : Type 0 where
  pub year_range : (1980 ≤ year) × (year ≤ 2107)
  pub month_range : (1 ≤ month) × (month ≤ 12)
  pub day_range : (1 ≤ day) × (day ≤ 31)
  pub short_month : (month ≡ 4) ⊎ (month ≡ 6) ⊎ (month ≡ 9) ⊎ (month ≡ 11) → day ≤ 30
  pub february : month ≡ 2 → day ≤ 29
  pub common_february : month ≡ 2 → ¬ IsLeap year → day ≤ 28
  pub time_range : (hour ≤ 23) × (minute ≤ 59) × (second ≤ 60)

-- The last day of a month, between 28 and 31.
max_day_cases :
    (year month day : ℕ)
    → 1 ≤ month
    → month ≤ 12
    → (day ≤ max_day year month) ↔ (
        (day ≤ 31)
        × ((month ≡ 4) ⊎ (month ≡ 6) ⊎ (month ≡ 9) ⊎ (month ≡ 11) → day ≤ 30)
        × (month ≡ 2 → day ≤ 29)
        × (month ≡ 2 → is_leap_year year ≡ false → day ≤ 28))
unfolding max_day
max_day_cases year month day lo hi = ground arith

-- The tests of `from_date_and_time`, as bounds.
pub record IsAccepted (year month day hour minute second : ℕ) : Type 0 where
  pub year_range : (1980 ≤ year) × (year ≤ 2107)
  pub month_range : (1 ≤ month) × (month ≤ 12)
  pub day_range : (1 ≤ day) × (day ≤ 31) × (day ≤ max_day year month)
  pub time_range : (hour ≤ 23) × (minute ≤ 59) × (second ≤ 60)

abbrev pub stored : ℕ → ℕ → ℕ → ℕ → ℕ → ℕ → DateTime
stored year month day hour minute second = record {
  year = year;
  month = month;
  day = day;
  hour = hour;
  minute = minute;
  second = min second 58;
}

module _ (year month day hour minute second : ℕ) where
  pub accepted :
      IsAccepted year month day hour minute second
      → from_date_and_time year month day hour minute second
        ≡ some (stored year month day hour minute second)
  unfolding from_date_and_time
  accepted a = ground (arith, a.year_range, a.month_range, a.day_range, a.time_range)

  pub IsAccepted-inv :
      {d : DateTime}
      → from_date_and_time year month day hour minute second ≡ some d
      → IsAccepted year month day hour minute second
        × (d ≡ stored year month day hour minute second)
  unfolding from_date_and_time
  IsAccepted-inv e = (ground arith, ground arith)

pub IsAccepted-is_valid :
    {d : DateTime} → is_valid d ≡ true → IsAccepted d.year d.month d.day d.hour d.minute d.second
unfolding is_valid from_date_and_time
IsAccepted-is_valid e = ground arith

-- `from_date_and_time` accepts exactly the dates of the Gregorian calendar from 1980 to 2107 with an
-- hour up to 23, a minute up to 59 and a second up to 60, although its documentation bounds the
-- second by 58; it keeps every part, but takes the seconds 59 and 60 for 58.
pub from_date_and_time_iff :
    (year month day hour minute second : ℕ) (d : DateTime)
    → (from_date_and_time year month day hour minute second ≡ some d) ↔ (
        IsDateAndTime year month day hour minute second
        × (d ≡ record {
          year = year;
          month = month;
          day = day;
          hour = hour;
          minute = minute;
          second = min second 58;
        }))
from_date_and_time_iff year month day hour minute second d = (
  λ e.
      let (a, kept) = IsAccepted-inv year month day hour minute second e in
      let (d31, short, feb, common) =
        (max_day_cases year month day a.month_range.0 a.month_range.1).0 a.day_range.2 in
      (
        record {
          year_range = a.year_range;
          month_range = a.month_range;
          day_range = (a.day_range.0, d31);
          short_month = short;
          february = feb;
          common_february = λ m n. common m (not_leap n);
          time_range = a.time_range;
        },
        kept,
      ),
  λ p.
      let m : IsDateAndTime year month day hour minute second = p.0 in
      let fits : day ≤ max_day year month =
        (max_day_cases year month day m.month_range.0 m.month_range.1).1
          (m.day_range.1, m.short_month, m.february, λ f n. m.common_february f (leap_not n)) in
      accepted year month day hour minute second (record {
        year_range = m.year_range;
        month_range = m.month_range;
        day_range = (m.day_range.0, m.day_range.1, fits);
        time_range = m.time_range;
      })
      ∙ ap some (sym p.1),
)
  where
    not_leap : ¬ IsLeap year → is_leap_year year ≡ false
    not_leap n = elim (Bool-cases (is_leap_year year)) [
      | inl y ↦ absurd (n ((is_leap_year_iff year).0 y))
      | inr f ↦ f
    ]

    leap_not : is_leap_year year ≡ false → ¬ IsLeap year
    leap_not f l = absurd (cc ((is_leap_year_iff year).1 l))
