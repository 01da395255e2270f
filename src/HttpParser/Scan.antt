-- ===== src/HttpParser/Scan.antt =====
-- `http_parser_find_line_end` and `http_parser_find_headers_end`. A result of -1 is `none`. The
-- cast of the index to `int` is the identity below 2^31 bytes, the range that is modelled.
pub mod First
use maestro_core.Base.{
  ℕ, suc, Bool, true, false, ◌&&◌, Option, none, some, [], ◌∷◌, Bytes, length, ltb, ◌==◌,
  if◌then◌else◌,
}

-- `for (i = 0; …; i++) if (test at i) return i;`
pub first_at : (Bytes → Bool) → Bytes → Option ℕ
first_at test [] = none
first_at test (c ∷ s) =
    let rest = first_at test s in
    if test (c ∷ s) then some 0 else elim rest [ none ↦ none | some i ↦ some (suc i) ]

is_crlf : Bytes → Bool
is_crlf (a ∷ b ∷ s) = a == b'\r' && b == b'\n'
is_crlf (a ∷ []) = false
is_crlf [] = false

is_crlf_crlf : Bytes → Bool
is_crlf_crlf (a ∷ b ∷ c ∷ d ∷ s) = a == b'\r' && b == b'\n' && c == b'\r' && d == b'\n'
is_crlf_crlf _ = false

pub find_line_end : Bytes → Option ℕ
unfolding first_at is_crlf
find_line_end buf = if ltb (length buf) 2 then none else first_at is_crlf buf

pub find_headers_end : Bytes → Option ℕ
unfolding first_at is_crlf_crlf
find_headers_end buf = if ltb (length buf) 4 then none else first_at is_crlf_crlf buf
