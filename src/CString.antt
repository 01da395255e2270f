-- ===== src/CString.antt =====
-- The C library's functions on NUL-terminated text, as far as the program uses them. A buffer
-- holds its bytes; the text in it ends before the first NUL.
pub mod Search
use maestro_core.Base.{
  ℕ, ◌+◌, ◌-◌, Bool, true, false, ◌&&◌, ◌||◌, Option, none, some, List, [], ◌∷◌, Bytes, ltb, leb,
  ◌==◌, if◌then◌else◌,
}

-- The text that a buffer holds once a NUL is written behind it.
unfoldable pub c_str : Bytes → Bytes
c_str [] = []
c_str (c ∷ s) = if c == 0 then [] else c ∷ c_str s

-- `strchr(s, b)`: what stands before the first `b` and what stands behind it; `none` is NULL.
unfoldable pub strchr : Bytes → ℕ → Option (Bytes × Bytes)
strchr [] b = none
strchr (c ∷ s) b =
    let rest = strchr s b in
    if c == b then some ([], s) else elim rest [ none ↦ none | some (p, q) ↦ some (c ∷ p, q) ]

-- What stands behind `needle` where the text begins with it.
unfoldable pub strip_prefix : Bytes → Bytes → Option Bytes
strip_prefix s [] = some s
strip_prefix [] (n ∷ needle) = none
strip_prefix (c ∷ s) (n ∷ needle) = if c == n then strip_prefix s needle else none

-- `strstr(s, needle)`: what stands before the first occurrence and what stands behind it.
unfoldable pub strstr : Bytes → Bytes → Option (Bytes × Bytes)
strstr [] needle = elim (strip_prefix [] needle) [ none ↦ none | some q ↦ some ([], q) ]
strstr (c ∷ s) needle =
    let rest = strstr s needle in
    elim (strip_prefix (c ∷ s) needle) [
      | some q ↦ some ([], q)
      | none ↦ elim rest [ none ↦ none | some (p, q) ↦ some (c ∷ p, q) ]
    ]

-- `strcmp(a, b) == 0`
unfoldable pub equal : Bytes → Bytes → Bool
equal [] [] = true
equal (x ∷ xs) (y ∷ ys) = x == y && equal xs ys
equal _ _ = false

-- `while (test(*p)) p++;`
unfoldable pub skip : (ℕ → Bool) → Bytes → Bytes
skip test [] = []
skip test (c ∷ s) = let rest = skip test s in if test c then rest else c ∷ s

-- `c` in front of a trimmed text.
unfoldable pub trim_cons : (ℕ → Bool) → ℕ → Bytes → Bytes
trim_cons test c [] = if test c then [] else c ∷ []
trim_cons test c (x ∷ rest) = c ∷ x ∷ rest

-- `while (end > s && test(end[-1])) *--end = 0;`
unfoldable pub trim_end : (ℕ → Bool) → Bytes → Bytes
unfolding trim_cons
trim_end test [] = []
trim_end test (c ∷ s) = trim_cons test c (trim_end test s)

unfoldable pub isdigit : ℕ → Bool
isdigit c = leb b'0' c && leb c b'9'

-- `isspace` in the C locale: space, and `\t \n \v \f \r`.
unfoldable pub isspace : ℕ → Bool
isspace c = c == 32 || (leb 9 c && leb c 13)

-- `tolower` in the C locale
unfoldable pub tolower : ℕ → ℕ
tolower c = if leb b'A' c && leb c b'Z' then c + 32 else c
