-- ===== src/TimeUtils/Iso/Fields.antt =====
-- Numbers of two and four digits, printed and read.
use maestro_core.Base.{
  ℕ, suc, ◌+◌, ◌*◌, ◌/◌, ◌%◌, ◌≤◌, ◌<◌, pos, Bool, true, false, some, [], ◌∷◌, ◌++◌, Bytes, length,
  ltb, some, ◌≡◌, refl, arith, ap, ◌∙◌, dec_lt,
}
use maestro_core.CString.{skip, isspace, isdigit}
use maestro_core.Numbers.{decimal, sign, print, digit_char}
use maestro_core.Numbers.Print.{print_last, print_more}
use maestro_core.TimeUtils.Iso.{scan_digits, scan_int, scan_char, zeros, padded}

abbrev pub two_digits : ℕ → Bytes → Bytes
two_digits n rest = (48 + n / 10) ∷ (48 + n % 10) ∷ rest

abbrev pub four_digits : ℕ → Bytes → Bytes
four_digits n rest = two_digits (n / 100) (two_digits (n % 100) rest)

digit_test : (d : ℕ) → d < 10 → isdigit (48 + d) ≡ true
unfolding isdigit
digit_test d h = ground arith

scan-digit :
    (w d n : ℕ) (s : Bytes) (found : Bool)
    → d < 10
    → scan_digits (suc w) ((48 + d) ∷ s) n found ≡ scan_digits w s (n * 10 + d) true
unfolding scan_digits
scan-digit w d n s found h =
    rw (digit_test d h, scan_digits) (ap (λ k. scan_digits w s (n * 10 + k) true) (omega arith))

skip-digit : (d : ℕ) (s : Bytes) → skip isspace ((48 + d) ∷ s) ≡ (48 + d) ∷ s
unfolding skip isspace
skip-digit d s = ground arith

sign-digit : (d : ℕ) (s : Bytes) → sign ((48 + d) ∷ s) ≡ (false, (48 + d) ∷ s)
unfolding sign
sign-digit d s = ground arith

not_less : (n : ℕ) → ltb n n ≡ false
not_less n = ground arith

scan_int-digit :
    (w d n : ℕ) (s rest : Bytes)
    → scan_digits w ((48 + d) ∷ s) 0 false ≡ (n, true, rest)
    → scan_int w ((48 + d) ∷ s) ≡ some (pos n, rest)
unfolding scan_int
scan_int-digit w d n s rest h =
    rw (skip-digit d s, sign-digit d s, not_less (length ((48 + d) ∷ s)), h) refl

pub scan_int-two :
    (n : ℕ) (rest : Bytes) → n < 100 → scan_int 2 (two_digits n rest) ≡ some (pos n, rest)
scan_int-two n rest h = scan_int-digit 2 (n / 10) n ((48 + n % 10) ∷ rest) rest (
    scan-digit 1 (n / 10) 0 ((48 + n % 10) ∷ rest) false (omega arith)
    ∙ scan-digit 0 (n % 10) (0 * 10 + n / 10) rest true (omega arith)
    ∙ unfold scan_digits in ap (λ k. (k, true, rest)) (omega arith))

pub scan_int-four :
    (n : ℕ) (rest : Bytes) → n < 10000 → scan_int 4 (four_digits n rest) ≡ some (pos n, rest)
scan_int-four n rest h = scan_int-digit 4 (n / 100 / 10) n _ rest (
    scan-digit 3 (n / 100 / 10) 0 _ false (omega arith)
    ∙ scan-digit 2 (n / 100 % 10) (0 * 10 + n / 100 / 10) _ true (omega arith)
    ∙ scan-digit 1 (n % 100 / 10) ((0 * 10 + n / 100 / 10) * 10 + n / 100 % 10) _ true (omega arith)
    ∙ scan-digit 0 (n % 100 % 10)
        (((0 * 10 + n / 100 / 10) * 10 + n / 100 % 10) * 10 + n % 100 / 10) rest true (omega arith)
    ∙ unfold scan_digits in ap (λ k. (k, true, rest)) (omega arith))

pub scan_char-same : (b : ℕ) (s : Bytes) → scan_char b (b ∷ s) ≡ some s
unfolding scan_char
scan_char-same b s = ground arith

digit_char-eq : (d : ℕ) → d < 10 → digit_char d ≡ 48 + d
unfolding digit_char
digit_char-eq d h = ground arith

decimal-one : (n : ℕ) → n < 10 → decimal n ≡ (48 + n) ∷ []
unfolding decimal
decimal-one n h = print_last 10 19 n [] h ∙ ap (λ (c : ℕ). c ∷ []) (digit_char-eq n h)

-- The digits of a number above 9.
print-two :
    (f n : ℕ) (out : Bytes)
    → n < 100
    → 10 ≤ n
    → print 10 (suc (suc f)) n out ≡ (48 + n / 10) ∷ (48 + n % 10) ∷ out
print-two f n out h large =
    print_more 10 (suc f) n out large
    ∙ print_last 10 f (n / 10) (digit_char (n % 10) ∷ out) (omega arith)
    ∙ ap (λ (c : ℕ). c ∷ digit_char (n % 10) ∷ out) (digit_char-eq (n / 10) (omega arith))
    ∙ ap (λ (c : ℕ). (48 + n / 10) ∷ c ∷ out) (digit_char-eq (n % 10) (omega arith))

decimal-two : (n : ℕ) → n < 100 → 10 ≤ n → decimal n ≡ (48 + n / 10) ∷ (48 + n % 10) ∷ []
unfolding decimal
decimal-two n h large = print-two 18 n [] h large

decimal-four : (n : ℕ) → n < 10000 → 1000 ≤ n → decimal n ≡ four_digits n []
unfolding decimal
decimal-four n h large =
    print_more 10 19 n [] (omega arith)
    ∙ print_more 10 18 (n / 10) (digit_char (n % 10) ∷ []) (omega arith)
    ∙ print-two 16 (n / 10 / 10) (digit_char (n / 10 % 10) ∷ digit_char (n % 10) ∷ []) (omega arith)
        (omega arith)
    ∙ four (omega arith) (omega arith)
        (digit_char-eq (n / 10 % 10) (omega arith) ∙ ap (λ k. 48 + k) (omega arith))
        (digit_char-eq (n % 10) (omega arith) ∙ ap (λ k. 48 + k) (omega arith))
  where
    four :
        48 + n / 10 / 10 / 10 ≡ 48 + n / 100 / 10
        → 48 + n / 10 / 10 % 10 ≡ 48 + n / 100 % 10
        → digit_char (n / 10 % 10) ≡ 48 + n % 100 / 10
        → digit_char (n % 10) ≡ 48 + n % 100 % 10
        → (48 + n / 10 / 10 / 10)
            ∷ (48 + n / 10 / 10 % 10)
            ∷ digit_char (n / 10 % 10)
            ∷ digit_char (n % 10)
            ∷ []
          ≡ four_digits n []
    four a b c d = cc

pub padded-two : (n : ℕ) (rest : Bytes) → n < 100 → padded 2 (pos n) ++ rest ≡ two_digits n rest
unfolding padded zeros
padded-two n rest h = elim (dec_lt n 10) [
  | yes small ↦ rw (decimal-one n small) (
      let tens : 48 + n / 10 ≡ 48 = omega arith in
      let ones : 48 + n % 10 ≡ 48 + n = omega arith in cc)
  | no large ↦ rw (decimal-two n h (omega arith)) refl
]

pub padded-four :
    (n : ℕ) (rest : Bytes) → n < 10000 → 1000 ≤ n → padded 4 (pos n) ++ rest ≡ four_digits n rest
unfolding padded zeros
padded-four n rest h large = rw (decimal-four n h large) refl
