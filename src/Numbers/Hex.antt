-- ===== src/Numbers/Hex.antt =====
-- Hexadecimal prints and `strtoull`.
use maestro_core.Base.{
  ℕ, zero, suc, ◌*◌, ◌/◌, ◌%◌, ◌^◌, ◌<◌, Bool, true, false, [], ◌∷◌, ◌≡◌, ◌≢◌, refl, arith, Bytes,
  codes, dec_lt, ap, ◌∙◌, ◌≤◌, ◌==◌, length, All,
}
use maestro_core.CString.{skip, isspace}
use maestro_core.Numbers.Print.{print_last, print_more, read-digit_char, length-print}
use maestro_core.Numbers.{read_digits, sign, hex_prefix, Strtoull, strtoull, print, hex, digit_char}

abbrev sixteen_to : ℕ → ℕ
sixteen_to zero = 1
sixteen_to (suc f) = 16 * sixteen_to f

read_one :
    (d : ℕ) (out : Bytes) (found : Bool)
    → d < 16
    → read_digits 16 (digit_char d ∷ out) 0 found ≡ read_digits 16 out d true
read_one d out found h =
    read-digit_char 16 d 0 out found h (omega arith)
    ∙ ap (λ k. read_digits 16 out k true) (omega arith)

read-print :
    (f n : ℕ) (out : Bytes) (found : Bool)
    → n < sixteen_to (suc f)
    → read_digits 16 (print 16 (suc f) n out) 0 found ≡ read_digits 16 out n true
read-print zero n out found h =
    rw (print_last 16 0 n out (omega arith)) (read_one n out found (omega arith))
read-print (suc f) n out found h = elim (dec_lt n 16) [
  | yes small ↦ rw (print_last 16 (suc f) n out small) (read_one n out found small)
  | no large ↦ rw (print_more 16 (suc f) n out (omega arith)) (
      read-print f (n / 16) (digit_char (n % 16) ∷ out) found (omega arith)
      ∙ read-digit_char 16 (n % 16) (n / 16) out true (omega arith) (omega arith)
      ∙ ap (λ k. read_digits 16 out k true) (omega arith))
]

-- The bytes of a hexadecimal print: `0`-`9` and `a`-`f`.
abbrev pub HexDigit : ℕ → Type 0
HexDigit c = (d : ℕ) × (d < 16) × (c ≡ digit_char d)

abbrev pub HexDigits : Bytes → Type 0
HexDigits = All HexDigit

print-HexDigits : (f n : ℕ) (out : Bytes) → HexDigits out → HexDigits (print 16 f n out)
print-HexDigits zero n out h = unfold print in h
print-HexDigits (suc f) n out h = elim (dec_lt n 16) [
  | yes lt ↦ rw (print_last 16 f n out lt) ((n, lt, refl), h)
  | no ge ↦
      rw (print_more 16 f n out (omega arith))
        (print-HexDigits f (n / 16) (digit_char (n % 16) ∷ out) ((n % 16, omega arith, refl), h))
]

pub digit_char_range :
    (d : ℕ)
    → d < 16
    → (48 ≤ digit_char d)
      × (digit_char d ≤ 102)
      × (digit_char d ≢ b'x')
      × (digit_char d ≢ b'X')
      × (digit_char d ≢ b';')
unfolding digit_char
digit_char_range d h = ground arith

skip-HexDigits : (s : Bytes) → HexDigits s → skip isspace s ≡ s
unfolding skip isspace
skip-HexDigits [] h = refl
skip-HexDigits (c ∷ s) ((d, lt, e), t) = rw e (ground (arith, digit_char_range d lt))

sign-HexDigits : (s : Bytes) → HexDigits s → sign s ≡ (false, s)
unfolding sign
sign-HexDigits [] h = refl
sign-HexDigits (c ∷ s) ((d, lt, e), t) = rw e (ground (arith, digit_char_range d lt))

hex_prefix-HexDigits : (s : Bytes) → HexDigits s → hex_prefix s ≡ s
unfolding hex_prefix
hex_prefix-HexDigits [] h = refl
hex_prefix-HexDigits (a ∷ []) h = refl
hex_prefix-HexDigits (a ∷ b ∷ []) h = refl
hex_prefix-HexDigits (a ∷ b ∷ c ∷ s) (x, ((d, lt, e), t)) =
    rw e (ground (arith, digit_char_range d lt))

read-hex :
    (n : ℕ)
    → n < 2 ^ 64
    → read_digits 16 (hex n) 0 false ≡ record { magnitude = n; found = true; rest = [] }
unfolding hex
read-hex n h = read-print 15 n [] false (omega arith) ∙ unfold read_digits in refl

pub length-hex : (n : ℕ) → length (hex n) ≤ 16
unfolding hex
length-hex n = omega (arith, length-print 16 16 n [])

pub hex-HexDigits : (n : ℕ) → HexDigits (hex n)
unfolding hex
hex-HexDigits n = print-HexDigits 16 n [] tt

-- `strtoull` in base 16 reads the hexadecimal print of a number below 2^64 exactly.
pub strtoull-hex : (n : ℕ) → n < 2 ^ 64 → strtoull (hex n) ≡ record { val = n; found = true }
unfolding strtoull
strtoull-hex n h =
    rw
      (
        skip-HexDigits (hex n) (hex-HexDigits n),
        sign-HexDigits (hex n) (hex-HexDigits n),
        hex_prefix-HexDigits (hex n) (hex-HexDigits n),
        read-hex n h,
      )
      (ground arith)

pub hex_ne_nil : (n : ℕ) → n < 2 ^ 64 → (length (hex n) == 0) ≡ false
unfolding strtoull skip sign hex_prefix read_digits
hex_ne_nil n h = not_nil (hex n) (strtoull-hex n h)
  where
    not_nil : (s : Bytes) → strtoull s ≡ record { val = n; found = true } → (length s == 0) ≡ false
    not_nil [] e = cc (ap (λ (r : Strtoull). r.found) e)
    not_nil (c ∷ s) e = ground arith

pub hex_zero : hex 0 ≡ codes "0"
unfolding hex print digit_char
hex_zero = refl
