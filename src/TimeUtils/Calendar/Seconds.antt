-- ===== src/TimeUtils/Calendar/Seconds.antt =====
-- `timegm` on the dates of the calendar.
use maestro_core.Base.{
  ℕ, zero, suc, ◌+◌, ◌*◌, ◌^◌, ◌≤◌, ◌<◌, pos, ◌+ℤ◌, ltb_ℤ, Bool, true, false, ◌&&◌, none, some,
  List, [], ◌∷◌, take, ltb, if◌then◌else◌, ◌≡◌, refl, arith, ap, ◌∙◌, pos-+ℤ-pos, pos--ℤ-pos,
  pos-*ℤ-pos, Bool-cases, inl, inr,
}
use maestro_core.TimeUtils.{
  int, days_in_month, sum, month_days, is_leap, days_of, seconds_of, timegm,
}
use maestro_core.TimeUtils.Calendar.{
  leap_year, days_of_years, Date, IsDate, month_lengths, day_number, epoch, tm_of, in_int,
}
use maestro_core.TimeUtils.Calendar.Years.{days_of_years-eq, int-pos, bind_int, year_days-eq, stage}

is_leap-pos : (y : ℕ) → is_leap (pos y) ≡ leap_year y
unfolding is_leap leap_year
is_leap-pos y = ground arith

months-leap :
    (m : ℕ) (b : Bool)
    → sum (take m (month_lengths b)) ≡ sum (take m days_in_month) + (if ltb 1 m && b then 1 else 0)
unfolding sum
months-leap zero b = refl
months-leap (suc zero) b = refl
months-leap (suc (suc m)) true = ground arith
months-leap (suc (suc m)) false = ground arith

sum-take : (m : ℕ) (l : List ℕ) → sum (take m l) ≤ sum l
unfolding sum
sum-take zero l = omega arith
sum-take (suc m) [] = omega arith
sum-take (suc m) (d ∷ l) = omega (arith, sum-take m l)

month_sum-le : (m : ℕ) → sum (take m days_in_month) ≤ 365
unfolding sum
month_sum-le m = sum-take m days_in_month

month_days-eq : (m : ℕ) → m ≤ 11 → month_days (pos m) ≡ some (sum (take m days_in_month))
unfolding month_days
month_days-eq m h = ground arith

pub month_days-over : (m : ℕ) → 12 < m → month_days (pos m) ≡ none
unfolding month_days
month_days-over m h = ground arith

in_int-over : (n : ℕ) → 2 ^ 31 ≤ n → in_int n ≡ none
in_int-over n h = ground arith

int-in_int : (n : ℕ) → int (pos n) ≡ in_int n
unfolding int
int-in_int n = ground arith

seconds_of-pos :
    (d h m s : ℕ)
    → seconds_of (pos d) (pos h) (pos m) (pos s) ≡ in_int (((d * 24 + h) * 60 + m) * 60 + s)
unfolding seconds_of
seconds_of-pos d h m s =
    stage _ (d * 24) _ _ (pos-*ℤ-pos d 24)
      (λ _.
        stage _ (d * 24 + h) _ _ (pos-+ℤ-pos (d * 24) h)
          (λ _.
            stage _ ((d * 24 + h) * 60) _ _ (pos-*ℤ-pos (d * 24 + h) 60)
              (λ _.
                stage _ ((d * 24 + h) * 60 + m) _ _ (pos-+ℤ-pos ((d * 24 + h) * 60) m)
                  (λ _.
                    stage _ (((d * 24 + h) * 60 + m) * 60) _ _
                      (pos-*ℤ-pos ((d * 24 + h) * 60 + m) 60)
                      (λ _.
                        ap int (pos-+ℤ-pos (((d * 24 + h) * 60 + m) * 60) s)
                        ∙ int-in_int (((d * 24 + h) * 60 + m) * 60 + s))
                      (λ o. in_int-over _ (omega arith)))
                  (λ o. in_int-over _ (omega arith)))
              (λ o. in_int-over _ (omega arith)))
          (λ o. in_int-over _ (omega arith)))
      (λ o. in_int-over _ (omega arith))

-- The leap day of the year itself.
leap_step :
    (m y n : ℕ)
    → (if ltb_ℤ (pos 1) (pos m) && is_leap (pos y) then pos n +ℤ pos 1 else pos n)
      ≡ pos (n + (if ltb 1 m && leap_year y then 1 else 0))
leap_step m y n = elim (Bool-cases (leap_year y)) [
  | inl b ↦ rw (is_leap-pos y, b) (ground (arith, pos-+ℤ-pos n 1))
  | inr b ↦ rw (is_leap-pos y, b) (ground arith)
]

years_bound : (k : ℕ) → k ≤ 8029 → days_of_years k ≤ 3000000
years_bound k h = omega (arith, days_of_years-eq k)

module _ (d : Date) (v : IsDate d) where
  abbrev days_before : ℕ
  days_before = days_of_years d.year + sum (take d.month days_in_month)

  abbrev leap_day : ℕ
  leap_day = if ltb 1 d.month && leap_year (1970 + d.year) then 1 else 0

  leap_day-le : leap_day ≤ 1
  leap_day-le = ground arith

  days_of-day_number : days_of (tm_of d) ≡ some (pos (day_number d))
  unfolding days_of tm_of day_number
  days_of-day_number =
      bind_int _ (1970 + d.year) _ (pos-+ℤ-pos (70 + d.year) 1900 ∙ ap pos (omega arith))
        (omega (arith, v.year_in))
      ∙ bind_int _ d.day _ (pos--ℤ-pos (d.day + 1) 1 (omega arith) ∙ ap pos (omega arith))
          (omega (arith, v.day_in))
      ∙ rw (year_days-eq d.year v.year_in, month_days-eq d.month v.month_in)
          (bind_int _ days_before _
              (pos-+ℤ-pos (days_of_years d.year) (sum (take d.month days_in_month)))
              (omega (arith, years_bound d.year v.year_in, month_sum-le d.month))
            ∙ bind_int _ (days_before + leap_day) _ (leap_step d.month (1970 + d.year) days_before)
                (omega (arith, years_bound d.year v.year_in, month_sum-le d.month, leap_day-le))
            ∙ ap int (
                pos-+ℤ-pos (days_before + leap_day) d.day
                ∙ ap pos (omega (arith, months-leap d.month (leap_year (1970 + d.year)))))
            ∙ int-pos _ (
                omega (
                  arith,
                  years_bound d.year v.year_in,
                  month_sum-le d.month,
                  leap_day-le,
                  months-leap d.month (leap_year (1970 + d.year)),
                  v.day_in,
                )))

  -- For every date from 1970 to 9999 `timegm` gives the number of seconds since 1970-01-01 by the
  -- Gregorian calendar where that is below 2^31, and else its arithmetic on `int` overflows.
  pub timegm-epoch : timegm (tm_of d) ≡ in_int (epoch d)
  unfolding timegm epoch
  timegm-epoch =
      rw days_of-day_number (unfold tm_of in seconds_of-pos (day_number d) d.hour d.minute d.second)
