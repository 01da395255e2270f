-- ===== src/TimeUtils/Iso/RoundTrip.antt =====
-- What is printed is read back, and what is not checked.
use maestro_core.Base.{
  ℕ, ◌+◌, ◌-◌, ◌≤◌, ◌<◌, ℤ, pos, ◌+ℤ◌, ◌-ℤ◌, true, none, some, [], ◌∷◌, ◌++◌, Bytes, take, ◌≡◌,
  refl, arith, ap, ◌∙◌, pos-+ℤ-pos, pos--ℤ-pos,
}
use maestro_core.Memory.{Mem, granted}
use maestro_core.TimeUtils.{Tm, timegm, days_of}
use maestro_core.TimeUtils.Calendar.{Date, IsDate, tm_of, epoch, in_int}
use maestro_core.TimeUtils.Calendar.Seconds.{timegm-epoch, month_days-over}
use maestro_core.StringUtils.{strdup}
use maestro_core.TimeUtils.Iso.{
  Stamp, scan_stamp, stamp_tm, parse_iso_datetime, padded, print_day, print_minute, iso_datetime,
}
use maestro_core.TimeUtils.Iso.Fields.{
  two_digits, four_digits, scan_int-two, scan_int-four, scan_char-same, padded-two, padded-four,
}

-- The text of a date, up to its minute.
abbrev stamp_text : Date → Bytes → Bytes
stamp_text d rest = four_digits (1970 + d.year) (
    b'-'
    ∷ two_digits (d.month + 1) (
        b'-' ∷ two_digits (d.day + 1) (b'T' ∷ two_digits d.hour (b':' ∷ two_digits d.minute rest))))

abbrev stamp_of : Date → Bytes → Stamp
stamp_of d rest = record {
  year = pos (1970 + d.year);
  month = pos (d.month + 1);
  day = pos (d.day + 1);
  hour = pos d.hour;
  minute = pos d.minute;
  rest = rest;
}

printed_two :
    (y : ℤ) (n : ℕ) (rest : Bytes) → y ≡ pos n → n < 100 → padded 2 y ++ rest ≡ two_digits n rest
printed_two y n rest e h = rw e (padded-two n rest h)

printed_four :
    (y : ℤ) (n : ℕ) (rest : Bytes)
    → y ≡ pos n
    → n < 10000
    → 1000 ≤ n
    → padded 4 y ++ rest ≡ four_digits n rest
printed_four y n rest e h large = rw e (padded-four n rest h large)

parse_iso_datetime-scan :
    (s : Bytes) (t : Stamp)
    → scan_stamp s ≡ some t
    → parse_iso_datetime s ≡ timegm (stamp_tm t t.hour (pos 0))
unfolding parse_iso_datetime
parse_iso_datetime-scan s t e = rw (e, parse_iso_datetime) refl

module _ (d : Date) (v : IsDate d) where
  scan_stamp-text : (rest : Bytes) → scan_stamp (stamp_text d rest) ≡ some (stamp_of d rest)
  unfolding scan_stamp
  scan_stamp-text rest =
      rw
        (
          scan_int-four (1970 + d.year)
              (b'-'
                ∷ two_digits (d.month + 1) (
                    b'-'
                    ∷ two_digits (d.day + 1)
                        (b'T' ∷ two_digits d.hour (b':' ∷ two_digits d.minute rest))))
              (omega (arith, v.year_in)),
          scan_char-same b'-' (
              two_digits (d.month + 1) (
                b'-'
                ∷ two_digits (d.day + 1)
                    (b'T' ∷ two_digits d.hour (b':' ∷ two_digits d.minute rest)))),
          scan_int-two (d.month + 1)
              (b'-'
                ∷ two_digits (d.day + 1)
                    (b'T' ∷ two_digits d.hour (b':' ∷ two_digits d.minute rest)))
              (omega (arith, v.month_in)),
          scan_char-same b'-'
              (two_digits (d.day + 1) (b'T' ∷ two_digits d.hour (b':' ∷ two_digits d.minute rest))),
          scan_int-two (d.day + 1) (b'T' ∷ two_digits d.hour (b':' ∷ two_digits d.minute rest))
              (omega (arith, v.day_in)),
          scan_char-same b'T' (two_digits d.hour (b':' ∷ two_digits d.minute rest)),
          scan_int-two d.hour (b':' ∷ two_digits d.minute rest) (omega (arith, v.hour_in)),
          scan_char-same b':' (two_digits d.minute rest),
          scan_int-two d.minute rest (omega (arith, v.minute_in)),
        )
        refl

  print_minute-text : (rest : Bytes) → print_minute (tm_of d) rest ≡ stamp_text d rest
  unfolding print_minute print_day tm_of
  print_minute-text rest =
      printed_four (pos (70 + d.year) +ℤ pos 1900) (1970 + d.year) _
        (pos-+ℤ-pos (70 + d.year) 1900 ∙ ap pos (omega arith)) (omega (arith, v.year_in))
        (omega arith)
      ∙ ap (λ (t : Bytes). four_digits (1970 + d.year) (b'-' ∷ t))
          (printed_two (pos d.month +ℤ pos 1) (d.month + 1) _ (pos-+ℤ-pos d.month 1)
              (omega (arith, v.month_in))
            ∙ ap (λ (t : Bytes). two_digits (d.month + 1) (b'-' ∷ t))
                (padded-two (d.day + 1) _ (omega (arith, v.day_in))
                  ∙ ap (λ (t : Bytes). two_digits (d.day + 1) (b'T' ∷ t))
                      (padded-two d.hour _ (omega (arith, v.hour_in))
                        ∙ ap (λ (t : Bytes). two_digits d.hour (b':' ∷ t))
                            (padded-two d.minute rest (omega (arith, v.minute_in))))))

  -- The fields that are read are those of the date.
  stamp_tm-eq : stamp_tm (stamp_of d []) (pos d.hour) (pos 0) ≡ tm_of (record d { second = 0 })
  unfolding stamp_tm tm_of
  stamp_tm-eq = ground (
    arith,
    pos--ℤ-pos (1970 + d.year) 1900 (omega arith),
    pos--ℤ-pos (d.month + 1) 1 (omega arith),
  )

  sixteen : take 16 (stamp_text d []) ≡ stamp_text d []
  sixteen = refl

  -- `gmtime` of a date prints, with memory granted, a text from which
  -- `parse_iso_datetime_string_to_epoch` reads the same date without its seconds: the number of
  -- seconds where that is below 2^31, and else an overflow.
  pub parse_iso_datetime-iso_datetime :
      (m : Mem)
      → granted m ≡ true
      → (text : Bytes) × ((iso_datetime (some (tm_of d)) m).0 ≡ some text)
        × (parse_iso_datetime text ≡ in_int (epoch (record d { second = 0 })))
  unfolding iso_datetime strdup
  parse_iso_datetime-iso_datetime m g = (
    stamp_text d [],
    rw g (ap some (ap (take 16) (print_minute-text []) ∙ sixteen)),
    parse_iso_datetime-scan (stamp_text d []) (stamp_of d []) (scan_stamp-text [])
        ∙ (ap timegm stamp_tm-eq
            ∙ timegm-epoch (record d { second = 0 })
                (record {
                  year_in = v.year_in;
                  month_in = v.month_in;
                  day_in = v.day_in;
                  hour_in = v.hour_in;
                  minute_in = v.minute_in;
                  second_in = omega arith;
                })),
  )

-- Behind the twelfth month `timegm` reads past the end of its table.
days_of-month_over : (t : Tm) (m : ℕ) → t.tm_mon ≡ pos m → 12 < m → days_of t ≡ none
unfolding days_of
days_of-month_over t m e h = ground (arith, month_days-over m h)

-- `parse_iso_datetime_string_to_epoch` does not check the month: for a text with a month from 14
-- to 99 it reads past the end of the table of months, or overflows before.
pub parse_iso_datetime-month_over :
    (s : Bytes) (t : Stamp) (n : ℕ)
    → scan_stamp s ≡ some t
    → t.month ≡ pos n
    → 13 < n
    → parse_iso_datetime s ≡ none
unfolding timegm stamp_tm
parse_iso_datetime-month_over s t n e is h =
    parse_iso_datetime-scan s t e
    ∙ rw
        (days_of-month_over (stamp_tm t t.hour (pos 0)) (n - 1)
          (ap (λ v. v -ℤ pos 1) is ∙ pos--ℤ-pos n 1 (omega arith)) (omega arith))
        refl
