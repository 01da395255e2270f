-- ===== src/Numbers/Decimal.antt =====
-- Decimal prints and `strtol`.
use maestro_core.Base.{
  ℕ, zero, suc, ◌*◌, ◌/◌, ◌%◌, ◌^◌, ◌<◌, ◌≤◌, pos, Bool, true, false, [], ◌∷◌, ◌≡◌, refl, arith,
  Bytes, length, Lacks, All, ◌⊎◌, dec_lt, ap, ◌∙◌,
}
use maestro_core.CString.{skip, isspace}
use maestro_core.Numbers.Print.{print_last, print_more, read-digit_char, length-print}
use maestro_core.Numbers.{read_digits, sign, strtol, print, decimal, digit_char}

abbrev ten_to : ℕ → ℕ
ten_to zero = 1
ten_to (suc f) = 10 * ten_to f

read_one :
    (d : ℕ) (out : Bytes) (found : Bool)
    → d < 10
    → read_digits 10 (digit_char d ∷ out) 0 found ≡ read_digits 10 out d true
read_one d out found h =
    read-digit_char 10 d 0 out found h (omega arith)
    ∙ ap (λ k. read_digits 10 out k true) (omega arith)

read-print :
    (f n : ℕ) (out : Bytes) (found : Bool)
    → n < ten_to (suc f)
    → read_digits 10 (print 10 (suc f) n out) 0 found ≡ read_digits 10 out n true
read-print zero n out found h =
    rw (print_last 10 0 n out (omega arith)) (read_one n out found (omega arith))
read-print (suc f) n out found h = elim (dec_lt n 10) [
  | yes small ↦ rw (print_last 10 (suc f) n out small) (read_one n out found small)
  | no large ↦ rw (print_more 10 (suc f) n out (omega arith)) (
      read-print f (n / 10) (digit_char (n % 10) ∷ out) found (omega arith)
      ∙ read-digit_char 10 (n % 10) (n / 10) out true (omega arith) (omega arith)
      ∙ ap (λ k. read_digits 10 out k true) (omega arith))
]

-- The first byte of a print is a digit, so it is neither a space nor a sign.
abbrev pub BeginsWithDigit : Bytes → Type 0
BeginsWithDigit s = (c : ℕ) × (r : Bytes) × (s ≡ c ∷ r) × (b'0' ≤ c) × (c ≤ b'9')

begin_digit : (d : ℕ) (out : Bytes) → d < 10 → BeginsWithDigit (digit_char d ∷ out)
begin_digit d out h =
    (digit_char d, out, refl, unfold digit_char in ground arith, unfold digit_char in ground arith)

print-digit : (f n : ℕ) (out : Bytes) → BeginsWithDigit (print 10 (suc f) n out)
print-digit zero n out = elim (dec_lt n 10) [
  | yes h ↦ rw (print_last 10 0 n out h) (begin_digit n out h)
  | no h ↦
      rw (print_more 10 0 n out (omega arith))
        (unfold print in begin_digit (n % 10) out (omega arith))
]
print-digit (suc f) n out = elim (dec_lt n 10) [
  | yes h ↦ rw (print_last 10 (suc f) n out h) (begin_digit n out h)
  | no h ↦
      rw (print_more 10 (suc f) n out (omega arith))
        (print-digit f (n / 10) (digit_char (n % 10) ∷ out))
]

pub decimal-digit : (n : ℕ) → BeginsWithDigit (decimal n)
unfolding decimal
decimal-digit n = print-digit 19 n []

abbrev pub IsDigit : ℕ → Type 0
IsDigit c = (b'0' ≤ c) × (c ≤ b'9')

digit_char-IsDigit : (d : ℕ) → d < 10 → IsDigit (digit_char d)
unfolding digit_char
digit_char-IsDigit d h = (ground arith, ground arith)

print-IsDigit : (f n : ℕ) (out : Bytes) → All IsDigit out → All IsDigit (print 10 f n out)
print-IsDigit zero n out h = unfold print in h
print-IsDigit (suc f) n out h = elim (dec_lt n 10) [
  | yes lt ↦ rw (print_last 10 f n out lt) (digit_char-IsDigit n lt, h)
  | no ge ↦ rw (print_more 10 f n out (omega arith)) (
      print-IsDigit f (n / 10) (digit_char (n % 10) ∷ out)
        (digit_char-IsDigit (n % 10) (omega arith), h))
]

pub decimal-IsDigit : (n : ℕ) → All IsDigit (decimal n)
unfolding decimal
decimal-IsDigit n = print-IsDigit 20 n [] tt

pub Lacks-digits : (b : ℕ) (s : Bytes) → All IsDigit s → (b < b'0') ⊎ (b'9' < b) → Lacks b s
Lacks-digits b [] h k = tt
Lacks-digits b (c ∷ s) h k = (ground arith, Lacks-digits b s h.1 k)

pub length-decimal : (n : ℕ) → length (decimal n) ≤ 20
unfolding decimal
length-decimal n = omega (arith, length-print 10 20 n [])

skip-digit : (c : ℕ) (r : Bytes) → b'0' ≤ c → skip isspace (c ∷ r) ≡ c ∷ r
unfolding skip isspace
skip-digit c r lo = ground arith

sign-digit : (c : ℕ) (r : Bytes) → b'0' ≤ c → sign (c ∷ r) ≡ (false, c ∷ r)
unfolding sign
sign-digit c r lo = ground arith

strtol_of_digit :
    (c : ℕ) (r : Bytes) (n : ℕ) (rest : Bytes)
    → b'0' ≤ c
    → n < 2 ^ 63
    → read_digits 10 (c ∷ r) 0 false ≡ record { magnitude = n; found = true; rest = rest }
    → strtol (c ∷ r) ≡ record { val = pos n; range = false; found = true; rest = rest }
unfolding strtol
strtol_of_digit c r n rest lo small read =
    rw (skip-digit c r lo, sign-digit c r lo, read) (ground arith)

read-decimal :
    (n : ℕ)
    → n < 2 ^ 63
    → read_digits 10 (decimal n) 0 false ≡ record { magnitude = n; found = true; rest = [] }
unfolding decimal
read-decimal n h = read-print 19 n [] false (omega arith) ∙ unfold read_digits in refl

-- `strtol` in base 10 reads the decimal print of a number below 2^63 exactly.
pub strtol-decimal :
    (n : ℕ)
    → n < 2 ^ 63
    → strtol (decimal n) ≡ record { val = pos n; range = false; found = true; rest = [] }
strtol-decimal n h =
    let (c, r, e, lo, hi) = decimal-digit n in
    rw e (strtol_of_digit c r n [] lo h (rw e at (read-decimal n h)))
