-- ===== src/TimeUtils.antt =====
-- utils/src/time_utils.c: `timegm`, the readers and the printers of ISO 8601 times. The clock and
-- `gmtime` are arguments.
pub mod Calendar
pub mod Iso
pub mod Now
use maestro_core.Base.{
  ℕ, zero, suc, ◌+◌, ◌-◌, ◌*◌, ◌/◌, ◌%◌, ◌^◌, ℤ, pos, negsuc, ◌+ℤ◌, ◌-ℤ◌, ◌*ℤ◌, quot, ltb_ℤ,
  pos_part, neg_part, Bool, true, false, not, ◌&&◌, ◌||◌, Option, none, some, List, [], ◌∷◌, take,
  ◌==◌, ltb, if◌then◌else◌,
}

-- `struct tm`
pub record Tm : Type 0 where
  pub tm_year : ℤ
  pub tm_mon : ℤ
  pub tm_mday : ℤ
  pub tm_hour : ℤ
  pub tm_min : ℤ
  pub tm_sec : ℤ

-- `none` is undefined behaviour: a signed overflow, or a read behind the end of an array.
infixl 5 ◌>>=◌
abbrev pub ◌>>=◌ : {A B : Type 0} → Option A → (A → Option B) → Option B
none >>= f = none
some a >>= f = f a

-- The result of an operation on `int`.
unfoldable pub int : ℤ → Option ℤ
int v = if ltb_ℤ v (negsuc (2 ^ 31 - 1)) || ltb_ℤ (pos (2 ^ 31 - 1)) v then none else some v

abbrev pub days_in_month : List ℕ
days_in_month = 31 ∷ 28 ∷ 31 ∷ 30 ∷ 31 ∷ 30 ∷ 31 ∷ 31 ∷ 30 ∷ 31 ∷ 30 ∷ 31 ∷ []

unfoldable pub sum : List ℕ → ℕ
sum [] = 0
sum (d ∷ l) = d + sum l

-- The sum over the months before `month`.
unfoldable pub month_days : ℤ → Option ℕ
month_days (pos m) = if ltb 12 m then none else some (sum (take m days_in_month))
month_days (negsuc m) = some 0

divides : ℕ → ℤ → Bool
divides d v = (pos_part v + neg_part v) % d == 0

unfoldable pub is_leap : ℤ → Bool
unfolding divides
is_leap year = (divides 4 year && not (divides 100 year)) || divides 400 year

-- The days from 1970 to the beginning of `year`, by the operations of the source.
unfoldable pub year_days : ℤ → Option ℤ
year_days year = do
  since ← int (year -ℤ pos 1970)
  whole ← int (since *ℤ pos 365)
  fours ← int (whole +ℤ quot (year -ℤ pos 1969) 4)
  centuries ← int (fours -ℤ quot (year -ℤ pos 1901) 100)
  int (centuries +ℤ quot (year -ℤ pos 1601) 400)

-- With the month's days, the leap day and the day of the month.
unfoldable pub days_of : Tm → Option ℤ
days_of tm = do
  year ← int (tm.tm_year +ℤ pos 1900)
  day ← int (tm.tm_mday -ℤ pos 1)
  days ← year_days year
  months ← month_days tm.tm_mon
  before ← int (days +ℤ pos months)
  leap ← int (if ltb_ℤ (pos 1) tm.tm_mon && is_leap year then before +ℤ pos 1 else before)
  int (leap +ℤ day)

unfoldable pub seconds_of : ℤ → ℤ → ℤ → ℤ → Option ℤ
seconds_of days hour min sec = do
  day_hours ← int (days *ℤ pos 24)
  hours ← int (day_hours +ℤ hour)
  hour_mins ← int (hours *ℤ pos 60)
  mins ← int (hour_mins +ℤ min)
  min_secs ← int (mins *ℤ pos 60)
  int (min_secs +ℤ sec)

unfoldable pub timegm : Tm → Option ℤ
timegm tm = do days ← days_of tm; seconds_of days tm.tm_hour tm.tm_min tm.tm_sec
