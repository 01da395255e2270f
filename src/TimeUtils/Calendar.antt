-- ===== src/TimeUtils/Calendar.antt =====
-- `timegm` against the calendar: a count of days year by year and month by month.
pub mod Years
pub mod Seconds
use maestro_core.Base.{
  ℕ, zero, suc, ◌+◌, ◌-◌, ◌*◌, ◌/◌, ◌%◌, ◌^◌, ◌≤◌, ◌<◌, ℤ, pos, ◌+ℤ◌, ◌-ℤ◌, quot, ltb_ℤ, Bool, true,
  false, not, ◌&&◌, ◌||◌, Option, none, some, List, [], ◌∷◌, take, ◌==◌, ltb, if◌then◌else◌, ◌≡◌,
  refl, arith, ap, ◌∙◌, sym, pos-+ℤ-pos, pos--ℤ-pos, pos-*ℤ-pos, Bool-cases, inl, inr, dec_lt,
}
use maestro_core.TimeUtils.{
  Tm, ◌>>=◌, int, days_in_month, sum, month_days, is_leap, year_days, days_of, seconds_of, timegm,
}

-- A leap year of the Gregorian calendar.
unfoldable pub leap_year : ℕ → Bool
leap_year y = (y % 4 == 0 && not (y % 100 == 0)) || y % 400 == 0

abbrev pub length_of_year : ℕ → ℕ
length_of_year y = if leap_year y then 366 else 365

-- The days of the `k` years from 1970 on.
unfoldable pub days_of_years : ℕ → ℕ
days_of_years zero = 0
days_of_years (suc k) = days_of_years k + length_of_year (1970 + k)

-- A date and time of the Gregorian calendar from 1970 on: years since 1970, months and days from 0.
pub record Date : Type 0 where
  pub year : ℕ
  pub month : ℕ
  pub day : ℕ
  pub hour : ℕ
  pub minute : ℕ
  pub second : ℕ

-- Up to the year 9999, with room for a leap second.
pub record IsDate (d : Date) : Type 0 where
  pub year_in : d.year ≤ 8029
  pub month_in : d.month ≤ 11
  pub day_in : d.day ≤ 30
  pub hour_in : d.hour ≤ 23
  pub minute_in : d.minute ≤ 59
  pub second_in : d.second ≤ 60

abbrev pub month_lengths : Bool → List ℕ
month_lengths leap =
    31 ∷ (if leap then 29 else 28) ∷ 31 ∷ 30 ∷ 31 ∷ 30 ∷ 31 ∷ 31 ∷ 30 ∷ 31 ∷ 30 ∷ 31 ∷ []

-- The days from 1970-01-01, and the seconds from its beginning.
unfoldable pub day_number : Date → ℕ
day_number d =
    days_of_years d.year + sum (take d.month (month_lengths (leap_year (1970 + d.year)))) + d.day

unfoldable pub epoch : Date → ℕ
epoch d = ((day_number d * 24 + d.hour) * 60 + d.minute) * 60 + d.second

unfoldable pub tm_of : Date → Tm
tm_of d = record {
  tm_year = pos (70 + d.year);
  tm_mon = pos d.month;
  tm_mday = pos (d.day + 1);
  tm_hour = pos d.hour;
  tm_min = pos d.minute;
  tm_sec = pos d.second;
}

-- The result of `timegm`, from the exact number of seconds.
abbrev pub in_int : ℕ → Option ℤ
in_int n = if ltb n (2 ^ 31) then some (pos n) else none
