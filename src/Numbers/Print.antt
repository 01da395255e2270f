-- ===== src/Numbers/Print.antt =====
-- The rounds of a print, for any base.
use maestro_core.Base.{
  ℕ, zero, suc, ◌+◌, ◌*◌, ◌/◌, ◌%◌, ◌<◌, ◌≤◌, true, some, ◌∷◌, ◌≡◌, arith, Bytes, length, dec_lt,
  Bool,
}
use maestro_core.Numbers.{digit_value, read_digits, print, digit_char}

module _ (base f n : ℕ) (out : Bytes) where
  pub print_last : n < base → print base (suc f) n out ≡ digit_char n ∷ out
  unfolding print
  print_last h = ground arith

  pub print_more :
      base ≤ n → print base (suc f) n out ≡ print base f (n / base) (digit_char (n % base) ∷ out)
  unfolding print
  print_more h = ground arith

pub digit_value-digit_char : (d : ℕ) → d < 16 → digit_value (digit_char d) ≡ some d
unfolding digit_value digit_char
digit_value-digit_char d h = ground arith

pub read-digit_char :
    (base d n : ℕ) (s : Bytes) (found' : Bool)
    → d < base
    → base ≤ 16
    → read_digits base (digit_char d ∷ s) n found' ≡ read_digits base s (n * base + d) true
unfolding read_digits
read-digit_char base d n s found' h k = ground (arith, digit_value-digit_char d)

pub length-print : (base f n : ℕ) (out : Bytes) → length (print base f n out) ≤ f + length out
length-print base zero n out = unfold print in omega arith
length-print base (suc f) n out = elim (dec_lt n base) [
  | yes h ↦ rw (print_last base f n out h) (omega arith)
  | no h ↦
      rw (print_more base f n out (omega arith))
        (omega (arith, length-print base f (n / base) (digit_char (n % base) ∷ out)))
]
