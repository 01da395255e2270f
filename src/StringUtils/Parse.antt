-- ===== src/StringUtils/Parse.antt =====
-- What `parse_string_to_int` accepts and returns.
use maestro_core.Base.{
  ℕ, zero, suc, ◌≤◌, ◌<◌, ◌^◌, ℤ, pos, pos_part, neg_part, some, [], ◌∷◌, ◌≡◌, refl, arith, Bytes,
  length, take, ap,
}
use maestro_core.Numbers.{Strtol, strtol, decimal}
use maestro_core.Numbers.Decimal.{strtol-decimal, length-decimal}
use maestro_core.StringUtils.{int_of, parse_string_to_int}

pub take_all : (n : ℕ) (s : Bytes) → length s ≤ n → take n s ≡ s
take_all zero [] h = refl
take_all zero (c ∷ s) h = absurd (omega arith)
take_all (suc n) [] h = refl
take_all (suc n) (c ∷ s) h = ap (◌∷◌ c) (take_all n s (omega arith))

-- `parse_string_to_int` reads the decimal print of every non-negative `int` back.
pub parse-decimal : (n : ℕ) → n < 2 ^ 31 → parse_string_to_int (decimal n) ≡ some (pos n)
unfolding parse_string_to_int
parse-decimal n h =
    rw (take_all 36 (decimal n) (omega (arith, length-decimal n)), strtol-decimal n (omega arith))
      (ground arith)

-- Whatever `parse_string_to_int` returns is in the range of `int`.
pub parse_range :
    (s : Bytes) {v : ℤ}
    → parse_string_to_int s ≡ some v
    → (pos_part v < 2 ^ 31) × (neg_part v ≤ 2 ^ 31)
unfolding parse_string_to_int
parse_range s {v} h = range_of (strtol (take 36 s)) v h
  where
    range_of :
        (r : Strtol) (v : ℤ) → int_of r ≡ some v → (pos_part v < 2 ^ 31) × (neg_part v ≤ 2 ^ 31)
    range_of r v h = (ground arith, ground arith)
