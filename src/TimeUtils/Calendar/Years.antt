-- ===== src/TimeUtils/Calendar/Years.antt =====
-- The closed formula of `timegm` for the days before a year.
use maestro_core.Base.{
  ℕ, zero, suc, ◌+◌, ◌-◌, ◌*◌, ◌/◌, ◌^◌, ◌≤◌, ◌<◌, ℤ, pos, ◌+ℤ◌, ◌-ℤ◌, quot, Option, none, some,
  ◌≡◌, refl, arith, ap, ◌∙◌, sym, pos-+ℤ-pos, pos--ℤ-pos, pos-*ℤ-pos, dec_lt,
}
use maestro_core.TimeUtils.{◌>>=◌, int, year_days}
use maestro_core.TimeUtils.Calendar.{leap_year, days_of_years}

-- By the closed formula of the source.
pub days_of_years-eq :
    (k : ℕ) → days_of_years k + (k + 69) / 100 ≡ 365 * k + (k + 1) / 4 + (k + 369) / 400
unfolding days_of_years leap_year
days_of_years-eq zero = refl
days_of_years-eq (suc k) = ground (arith, days_of_years-eq k)

pub int-pos : (n : ℕ) → n < 2 ^ 31 → int (pos n) ≡ some (pos n)
unfolding int
int-pos n h = ground arith

pub int-over : (n : ℕ) → 2 ^ 31 ≤ n → int (pos n) ≡ none
unfolding int
int-over n h = ground arith

pub bind_int :
    {B : Type 0} (v : ℤ) (n : ℕ) (f : ℤ → Option B)
    → v ≡ pos n
    → n < 2 ^ 31
    → (int v >>= f) ≡ f (pos n)
bind_int v n f e h = rw (e, int-pos n h) refl

since : (k c d : ℕ) → c + d ≡ 1970 → pos (1970 + k) -ℤ pos c ≡ pos (k + d)
since k c d e = pos--ℤ-pos (1970 + k) c (omega arith) ∙ ap pos (omega arith)

quot-pos : (n d : ℕ) → quot (pos n) d ≡ pos (n / d)
unfolding quot
quot-pos n d = refl

-- The parts of the closed formula, for years up to 9999.
pub year_days-eq : (k : ℕ) → k ≤ 8029 → year_days (pos (1970 + k)) ≡ some (pos (days_of_years k))
unfolding year_days
year_days-eq k h =
    bind_int (pos (1970 + k) -ℤ pos 1970) (k + 0) _ (since k 1970 0 refl) (omega arith)
    ∙ bind_int _ ((k + 0) * 365) _ (pos-*ℤ-pos (k + 0) 365) (omega arith)
    ∙ bind_int _ ((k + 0) * 365 + (k + 1) / 4) _
        (ap (λ v. pos ((k + 0) * 365) +ℤ v)
            (ap (λ v. quot v 4) (since k 1969 1 refl) ∙ quot-pos (k + 1) 4)
          ∙ pos-+ℤ-pos ((k + 0) * 365) ((k + 1) / 4))
        (omega arith)
    ∙ bind_int _ ((k + 0) * 365 + (k + 1) / 4 - (k + 69) / 100) _
        (ap (λ v. pos ((k + 0) * 365 + (k + 1) / 4) -ℤ v)
            (ap (λ v. quot v 100) (since k 1901 69 refl) ∙ quot-pos (k + 69) 100)
          ∙ pos--ℤ-pos ((k + 0) * 365 + (k + 1) / 4) ((k + 69) / 100) (omega arith))
        (omega arith)
    ∙ ap int (
        ap (λ v. pos ((k + 0) * 365 + (k + 1) / 4 - (k + 69) / 100) +ℤ v)
          (ap (λ v. quot v 400) (since k 1601 369 refl) ∙ quot-pos (k + 369) 400)
        ∙ pos-+ℤ-pos ((k + 0) * 365 + (k + 1) / 4 - (k + 69) / 100) ((k + 369) / 400)
        ∙ ap pos (omega (arith, days_of_years-eq k)))
    ∙ int-pos (days_of_years k) (omega (arith, days_of_years-eq k))

-- A step of which the result is known where it fits, and which fails where the end would.
pub stage :
    {B : Type 0} (v : ℤ) (n : ℕ) (f : ℤ → Option B) (r : Option B)
    → v ≡ pos n
    → (n < 2 ^ 31 → f (pos n) ≡ r)
    → (2 ^ 31 ≤ n → r ≡ none)
    → (int v >>= f) ≡ r
stage v n f r e fits over = elim (dec_lt n (2 ^ 31)) [
  | yes h ↦ bind_int v n f e h ∙ fits h
  | no h ↦ rw (e, int-over n (omega arith)) (sym (over (omega arith)))
]
