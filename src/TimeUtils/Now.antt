-- ===== src/TimeUtils/Now.antt =====
-- The functions of time_utils.c that read a clock. The clock and `gmtime` are arguments.
use maestro_core.Base.{
  ℕ, suc, ◌+◌, ◌-◌, ◌*◌, ◌/◌, ◌%◌, ◌^◌, ◌≤◌, ◌<◌, ℤ, pos, negsuc, ltb_ℤ, pos_part, neg_part, Bool,
  ◌&&◌, ◌||◌, not, Option, none, some, ◌∷◌, ◌++◌, Bytes, ◌==◌, leb, if◌then◌else◌, ◌≡◌, refl, arith,
  ◌∙◌, ◌+ℤ◌, length,
}
use maestro_core.TimeUtils.{Tm, timegm}
use maestro_core.TimeUtils.Calendar.{Date, IsDate, tm_of, epoch, day_number, in_int}
use maestro_core.TimeUtils.Calendar.Seconds.{timegm-epoch}
use maestro_core.TimeUtils.Iso.{padded}
use maestro_core.Numbers.{decimal}

-- `ts` of `ms_sleep`: seconds and nanoseconds.
unfoldable pub sleep_spec : ℕ → ℕ × ℕ
sleep_spec ms = (ms / 1000, ms % 1000 * 1000000)

-- `SystemMonotonicMS`, where `clock_gettime` gives seconds and nanoseconds; the result has 64 bits.
unfoldable pub monotonic_ms : ℕ → ℕ → ℕ
monotonic_ms sec nsec = (sec * 1000 % 2 ^ 64 + nsec / 1000000) % 2 ^ 64

-- `time_is_at_or_after_hour`, where `localtime_r` gives `local`.
unfoldable pub time_is_at_or_after_hour : Tm → ℤ → Bool
time_is_at_or_after_hour local hour =
    ltb_ℤ hour local.tm_hour
    || ((pos_part local.tm_hour == pos_part hour && neg_part local.tm_hour == neg_part hour)
        && not (ltb_ℤ local.tm_min (pos 0)))

-- `epoch_now_day`, `epoch_now_day_utc`, `epoch_now_hour` and `epoch_now_min`.
unfoldable pub epoch_now_day : Tm → Option ℤ
epoch_now_day today = timegm (record today { tm_hour = pos 0; tm_min = pos 0; tm_sec = pos 0 })

unfoldable pub epoch_now_hour : Tm → Option ℤ
epoch_now_hour today = timegm (record today { tm_min = pos 0; tm_sec = pos 0 })

unfoldable pub epoch_now_min : Tm → Option ℤ
epoch_now_min today = timegm (record today { tm_sec = pos 0 })

-- `%Y` has no zeros in front.
year_text : ℤ → Bytes
year_text (pos n) = decimal n
year_text (negsuc n) = b'-' ∷ decimal (suc n)

unfoldable pub strftime_day : Tm → Bytes
unfolding year_text
strftime_day t =
    year_text (t.tm_year +ℤ pos 1900)
    ++ (b'-' ∷ (padded 2 (t.tm_mon +ℤ pos 1) ++ (b'-' ∷ padded 2 t.tm_mday)))

-- `epoch_to_utc_date_string` into `out` of `size` bytes, where `gmtime_r` answers `tm`: what
-- `strftime` writes as `%Y-%m-%d` counts if it is ten characters long.
unfoldable pub utc_date_string : Bool → ℕ → Option Tm → Option Bytes
utc_date_string out size tm =
    if out && leb 11 size
    then elim tm [
      | none ↦ none
      | some t ↦ let text = strftime_day t in if length text == 10 then some text else none
    ]
    else none

-- The clock's time `now` is the date that `gmtime` gives for it, with no leap second.
pub record Shows (now : ℕ) (d : Date) : Type 0 where
  pub date : IsDate d
  pub same : epoch d ≡ now
  pub plain : d.second ≤ 59

module _ (now : ℕ) (d : Date) (v : Shows now d) where
  abbrev at : ℕ → ℕ → ℕ → Date
  at h m s = record d { hour = h; minute = m; second = s }

  at-IsDate : (h m s : ℕ) → h ≤ 23 → m ≤ 59 → s ≤ 60 → IsDate (at h m s)
  at-IsDate h m s a b c = record {
    year_in = v.date.year_in;
    month_in = v.date.month_in;
    day_in = v.date.day_in;
    hour_in = a;
    minute_in = b;
    second_in = c;
  }

  epoch-at : (h m s : ℕ) → epoch (at h m s) ≡ ((day_number d * 24 + h) * 60 + m) * 60 + s
  unfolding epoch day_number
  epoch-at h m s = refl

  now_is : ((day_number d * 24 + d.hour) * 60 + d.minute) * 60 + d.second ≡ now
  now_is = unfold epoch in v.same

  -- Before 2038, `epoch_now_day`, `epoch_now_hour` and `epoch_now_min` give the beginning of the
  -- day, of the hour and of the minute of the time that the clock shows.
  pub epoch_now-begins :
      now < 2 ^ 31
      → (epoch_now_day (tm_of d) ≡ some (pos (now - now % 86400)))
        × (epoch_now_hour (tm_of d) ≡ some (pos (now - now % 3600)))
        × (epoch_now_min (tm_of d) ≡ some (pos (now - now % 60)))
  unfolding epoch_now_day epoch_now_hour epoch_now_min tm_of
  epoch_now-begins h = (
    timegm-epoch (at 0 0 0) (at-IsDate 0 0 0 (omega arith) (omega arith) (omega arith))
        ∙ exact (epoch (at 0 0 0)) (now - now % 86400)
            (epoch-at 0 0 0 ∙ omega (arith, now_is, v.date.hour_in, v.date.minute_in, v.plain))
            (omega arith),
    timegm-epoch (at d.hour 0 0) (at-IsDate d.hour 0 0 v.date.hour_in (omega arith) (omega arith))
        ∙ exact (epoch (at d.hour 0 0)) (now - now % 3600)
            (epoch-at d.hour 0 0 ∙ omega (arith, now_is, v.date.minute_in, v.plain)) (omega arith),
    timegm-epoch (at d.hour d.minute 0)
          (at-IsDate d.hour d.minute 0 v.date.hour_in v.date.minute_in (omega arith))
        ∙ exact (epoch (at d.hour d.minute 0)) (now - now % 60)
            (epoch-at d.hour d.minute 0 ∙ omega (arith, now_is, v.plain)) (omega arith),
  )
    where
      exact : (e n : ℕ) → e ≡ n → n < 2 ^ 31 → in_int e ≡ some (pos n)
      exact e n is small = ground arith
