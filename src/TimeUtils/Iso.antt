-- ===== src/TimeUtils/Iso.antt =====
-- The readers and printers of ISO 8601 times, with what they use of `sscanf` and `snprintf`.
pub mod Fields
pub mod RoundTrip
use maestro_core.Base.{
  ℕ, zero, suc, ◌+◌, ◌-◌, ◌*◌, ℤ, pos, negsuc, sub_ℕ, ◌+ℤ◌, ◌-ℤ◌, ltb_ℤ, Bool, true, false, ◌||◌,
  Option, none, some, [], ◌∷◌, ◌++◌, Bytes, codes, length, take, ◌==◌, if◌then◌else◌, ltb,
}
use maestro_core.CString.{skip, isspace, isdigit}
use maestro_core.Memory.{Mem}
use maestro_core.Numbers.{decimal, sign}
use maestro_core.StringUtils.{strdup}
use maestro_core.TimeUtils.{Tm, timegm}

-- At most `w` digits: the number, whether there is one, the rest.
unfoldable pub scan_digits : ℕ → Bytes → ℕ → Bool → ℕ × Bool × Bytes
scan_digits zero s n found = (n, found, s)
scan_digits (suc w) [] n found = (n, found, [])
scan_digits (suc w) (c ∷ s) n found =
    let rest = scan_digits w s (n * 10 + (c - 48)) true in
    if isdigit c then rest else (n, found, c ∷ s)

-- `%<w>d`: the sign counts for the width.
unfoldable pub scan_int : ℕ → Bytes → Option (ℤ × Bytes)
unfolding sign
scan_int w s =
    let t = skip isspace s in
    let (minus, body) = sign t in
    let signed = ltb (length body) (length t) in
    let d = scan_digits (if signed then w - 1 else w) body 0 false in
    if d.1 then some (if minus then sub_ℕ 0 d.0 else pos d.0, d.2) else none

-- A character of the format.
unfoldable pub scan_char : ℕ → Bytes → Option Bytes
scan_char b [] = none
scan_char b (c ∷ s) = if c == b then some s else none

-- `%c`
unfoldable pub scan_any : Bytes → Option (ℕ × Bytes)
scan_any [] = none
scan_any (c ∷ s) = some (c, s)

infixl 5 ◌>>=◌
abbrev pub ◌>>=◌ : {A B : Type 0} → Option A → (A → Option B) → Option B
none >>= f = none
some a >>= f = f a

-- Year, month, day, hour and minute, as they stand in the text, and what follows them.
pub record Stamp : Type 0 where
  pub year : ℤ
  pub month : ℤ
  pub day : ℤ
  pub hour : ℤ
  pub minute : ℤ
  pub rest : Bytes

-- `%4d-%2d-%2dT%2d:%2d`
unfoldable pub scan_stamp : Bytes → Option Stamp
scan_stamp s = do
  (year, a) ← scan_int 4 s
  b ← scan_char b'-' a
  (month, c) ← scan_int 2 b
  d ← scan_char b'-' c
  (day, e) ← scan_int 2 d
  f ← scan_char b'T' e
  (hour, g) ← scan_int 2 f
  h ← scan_char b':' g
  (minute, rest) ← scan_int 2 h
  some (record { year = year; month = month; day = day; hour = hour; minute = minute; rest = rest })

-- Second, the direction of the offset, its hours.
pub record Zone : Type 0 where
  pub second : ℤ
  pub direction : ℕ
  pub hours : ℤ

-- `:%02d%c%02d:%02d`
unfoldable pub scan_zone : Bytes → Option Zone
scan_zone s = do
  a ← scan_char b':' s
  (second, b) ← scan_int 2 a
  (direction, c) ← scan_any b
  (hours, d) ← scan_int 2 c
  e ← scan_char b':' d
  _ ← scan_int 2 e
  some (record { second = second; direction = direction; hours = hours })

-- `tm` from the fields.
unfoldable pub stamp_tm : Stamp → ℤ → ℤ → Tm
stamp_tm t hour second = record {
  tm_year = t.year -ℤ pos 1900;
  tm_mon = t.month -ℤ pos 1;
  tm_mday = t.day;
  tm_hour = hour;
  tm_min = t.minute;
  tm_sec = second;
}

-- `parse_iso_datetime_string_to_epoch`; -1 for a text that does not fit.
unfoldable pub parse_iso_datetime : Bytes → Option ℤ
parse_iso_datetime s = elim (scan_stamp s) [
  | none ↦ some (negsuc 0)
  | some t ↦ timegm (stamp_tm t t.hour (pos 0))
]

-- The hour in UTC, by the direction of the offset.
unfoldable pub zoned : Stamp → Zone → Option ℤ
zoned t z =
    if z.direction == b'+'
    then timegm (stamp_tm t (t.hour -ℤ z.hours) z.second)
    else if z.direction == b'-'
    then timegm (stamp_tm t (t.hour +ℤ z.hours) z.second)
    else some (negsuc 0)

-- `parse_iso_full_datetime_string_to_epoch`
unfoldable pub parse_iso_full_datetime : Bytes → Option ℤ
parse_iso_full_datetime s = elim (scan_stamp s) [
  | none ↦ some (negsuc 0)
  | some t ↦ elim (scan_zone t.rest) [ none ↦ some (negsuc 0) | some z ↦ zoned t z ]
]

unfoldable pub zeros : ℕ → Bytes
zeros zero = []
zeros (suc n) = b'0' ∷ zeros n

-- `%0<w>d`
unfoldable pub padded : ℕ → ℤ → Bytes
padded w (pos n) = zeros (w - length (decimal n)) ++ decimal n
padded w (negsuc n) = b'-' ∷ (zeros (w - 1 - length (decimal (suc n))) ++ decimal (suc n))

-- `%04d-%02d-%02d`
unfoldable pub print_day : Tm → Bytes → Bytes
print_day tm rest =
    padded 4 (tm.tm_year +ℤ pos 1900)
    ++ (b'-' ∷ (padded 2 (tm.tm_mon +ℤ pos 1) ++ (b'-' ∷ (padded 2 tm.tm_mday ++ rest))))

-- `%04d-%02d-%02dT%02d:%02d`
unfoldable pub print_minute : Tm → Bytes → Bytes
print_minute tm rest =
    print_day tm (b'T' ∷ (padded 2 tm.tm_hour ++ (b':' ∷ (padded 2 tm.tm_min ++ rest))))

-- `parse_epoch_to_iso_short_datetime_string`, where `gmtime` answers `tm`.
unfoldable pub iso_short_datetime : Option Tm → Mem → Option Bytes × Mem
iso_short_datetime none m = strdup (codes "Invalid datetime") m
iso_short_datetime (some tm) m = strdup (take 10 (print_day tm [])) m

-- `parse_epoch_to_iso_datetime_string`
unfoldable pub iso_datetime : Option Tm → Mem → Option Bytes × Mem
iso_datetime none m = strdup (codes "Invalid datetime") m
iso_datetime (some tm) m = strdup (take 16 (print_minute tm [])) m

unfoldable pub print_zone : Tm → ℤ → Bytes
print_zone tm offset =
    b':'
    ∷ (padded 2 tm.tm_sec
        ++ ((if ltb_ℤ offset (pos 0) then b'-' else b'+')
            ∷ (padded 2 offset ++ (b':' ∷ padded 2 (pos 0)))))

-- `parse_epoch_to_iso_full_datetime_string`
unfoldable pub iso_full_datetime : Option Tm → ℤ → Mem → Option Bytes × Mem
iso_full_datetime none offset m = strdup (codes "Invalid datetime") m
iso_full_datetime (some tm) offset m =
    if ltb_ℤ (pos 12) offset || ltb_ℤ offset (negsuc 11)
    then strdup (codes "Invalid UTC offset") m
    else strdup (take 25 (print_minute tm (print_zone tm offset))) m
