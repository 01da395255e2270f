-- ===== src/Numbers.antt =====
-- Numbers in text: `strtol` and `strtoull` of the C library, and the decimal and hexadecimal
-- prints of `%zu` and `%zx`. A `long` and an `unsigned long long` have 64 bits.
pub mod Decimal
pub mod Hex
pub mod Print
use maestro_core.Base.{
  ℕ, zero, suc, ◌+◌, ◌-◌, ◌*◌, ◌/◌, ◌%◌, ◌^◌, ℤ, pos, negsuc, sub_ℕ, Bool, true, false, ◌&&◌, ◌||◌,
  Option, none, some, [], ◌∷◌, Bytes, ltb, leb, ◌==◌, if◌then◌else◌,
}
use maestro_core.CString.{skip, isspace}

-- The value of a digit in bases up to 16.
pub digit_value : ℕ → Option ℕ
digit_value c =
    if leb b'0' c && leb c b'9'
    then some (c - b'0')
    else if leb b'a' c && leb c b'f'
    then some (c - b'a' + 10)
    else if leb b'A' c && leb c b'F'
    then some (c - b'A' + 10)
    else none

-- A number that was read: its magnitude with no bound, whether it has a digit, and the rest.
pub record Digits : Type 0 where
  pub magnitude : ℕ
  pub found : Bool
  pub rest : Bytes

abbrev digit_in : ℕ → ℕ → Option ℕ
digit_in base c = elim (digit_value c) [
  | none ↦ none
  | some d ↦ if ltb d base then some d else none
]

unfoldable pub read_digits : ℕ → Bytes → ℕ → Bool → Digits
read_digits base [] n found = record { magnitude = n; found = found; rest = [] }
read_digits base (c ∷ s) n found = elim (digit_in base c) [
  | none ↦ record { magnitude = n; found = found; rest = c ∷ s }
  | some d ↦ read_digits base s (n * base + d) true
]

-- The optional sign: whether it is a minus, and what follows it.
unfoldable pub sign : Bytes → Bool × Bytes
sign [] = (false, [])
sign (c ∷ s) = if c == b'-' then (true, s) else if c == b'+' then (false, s) else (false, c ∷ s)

-- The optional `0x` of base 16, which counts only before a hexadecimal digit.
unfoldable pub hex_prefix : Bytes → Bytes
unfolding digit_value
hex_prefix (z ∷ x ∷ d ∷ s) =
    if z == b'0' && (x == b'x' || x == b'X')
    then elim (digit_value d) [ none ↦ z ∷ x ∷ d ∷ s | some _ ↦ d ∷ s ]
    else z ∷ x ∷ d ∷ s
hex_prefix s = s

-- What `strtol(s, &endptr, 10)` gives: `found` is `endptr != s`, `range` is `errno == ERANGE`.
pub record Strtol : Type 0 where
  pub val : ℤ
  pub range : Bool
  pub found : Bool
  pub rest : Bytes

unfoldable pub strtol : Bytes → Strtol
unfolding skip isspace sign read_digits digit_value
strtol s =
    let (minus, body) = sign (skip isspace s) in
    let d = read_digits 10 body 0 false in
    let over = if minus then ltb (2 ^ 63) d.magnitude else leb (2 ^ 63) d.magnitude in
    let clamped = if minus then negsuc (2 ^ 63 - 1) else pos (2 ^ 63 - 1) in
    let exact = if minus then sub_ℕ 0 d.magnitude else pos d.magnitude in
    record { val = if over then clamped else exact; range = over; found = d.found; rest = d.rest }

-- What `strtoull(s, &endptr, 16)` returns, a number below 2^64, and whether `endptr != s`.
pub record Strtoull : Type 0 where
  pub val : ℕ
  pub found : Bool

unfoldable pub strtoull : Bytes → Strtoull
unfolding skip isspace sign hex_prefix read_digits digit_value
strtoull s =
    let (minus, body) = sign (skip isspace s) in
    let d = read_digits 16 (hex_prefix body) 0 false in
    let v =
      if leb (2 ^ 64) d.magnitude
      then 2 ^ 64 - 1
      else if minus
      then (2 ^ 64 - d.magnitude) % 2 ^ 64
      else d.magnitude in
    record { val = v; found = d.found }

unfoldable pub digit_char : ℕ → ℕ
digit_char d = if ltb d 10 then b'0' + d else b'a' + (d - 10)

-- The digits of `n` in front of `out`; `f` bounds their number.
unfoldable pub print : ℕ → ℕ → ℕ → Bytes → Bytes
unfolding digit_char
print base zero n out = out
print base (suc f) n out =
    let rest = print base f (n / base) (digit_char (n % base) ∷ out) in
    if ltb n base then digit_char n ∷ out else rest

-- Every number below 2^64 has at most 20 decimal and at most 16 hexadecimal digits.
unfoldable pub decimal : ℕ → Bytes
unfolding print
decimal n = print 10 20 n []

unfoldable pub hex : ℕ → Bytes
unfolding print
hex n = print 16 16 n []
