-- ===== src/HttpParser/Headers.antt =====
-- `http_parser_headers` and `http_parser_get_header_value`.
pub mod RoundTrip
pub mod Sound
pub mod Leaks
pub mod Lookup
pub mod End
use maestro_core.Base.{
  ℕ, zero, suc, ◌+◌, Bool, true, false, ◌&&◌, ◌||◌, Option, none, some, List, [], ◌∷◌, Bytes,
  length, take, drop, ◌==◌, if◌then◌else◌,
}
use maestro_core.CString.{c_str, strchr, equal, skip, trim_end}
use maestro_core.ErrorCode.{ErrorCode, success, err_bad_format, err_no_memory, err_not_found}
use maestro_core.HttpParser.{HttpKeyValue, list_blocks}
use maestro_core.HttpParser.Query.{item_add}
use maestro_core.HttpParser.Scan.{find_line_end}
use maestro_core.Memory.{Mem, granted, attempt, release}

-- The result, `*_headers_out` and the heap.
pub record HeadersOut : Type 0 where
  pub code : ErrorCode
  pub headers_out : Option (List HttpKeyValue)
  pub mem : Mem

is_blank : ℕ → Bool
is_blank c = c == b' ' || c == b'\t'

is_line_space : ℕ → Bool
is_line_space c = c == b' ' || c == b'\t' || c == b'\r' || c == b'\n'

-- One line, cut at its first colon and trimmed; `none` where there is no colon.
unfoldable pub header_of : Bytes → Option HttpKeyValue
unfolding is_blank is_line_space
header_of line = elim (strchr (c_str line) b':') [
  | none ↦ none
  | some (key, value) ↦ some (record {
    key = trim_end is_line_space key;
    value = trim_end is_line_space (skip is_blank value);
  })
]

abbrev ok : List HttpKeyValue → Mem → Option HeadersOut
ok l m = some (record { code = success; headers_out = some l; mem = m })

-- The error exits: the list is disposed of, with `extra` blocks of the current line.
abbrev fail : ErrorCode → ℕ → List HttpKeyValue → Mem → Option HeadersOut
fail code extra l m =
    some
      (record { code = code; headers_out = none; mem = release (extra + list_blocks (some l)) m })

abbrev one_if : Bool → ℕ
one_if b = if b then 1 else 0

-- `rest` is the buffer from `start` on. `none` means that the fuel ran out.
headers_loop : ℕ → Bytes → List HttpKeyValue → Mem → Option HeadersOut
unfolding item_add
headers_loop zero rest l m = none
headers_loop (suc f) [] l m = ok l m
headers_loop (suc f) (c ∷ s) l m = elim (find_line_end (c ∷ s)) [
  | none ↦ ok l m
  | some line_len ↦
      let line = take line_len (c ∷ s) in
      let m1 = attempt m in
      let m2 = attempt m1 in
      let m3 = attempt m2 in
      let m4 = attempt m3 in
      let more = λ (h : HttpKeyValue).
        headers_loop f (drop (line_len + 2) (c ∷ s)) (item_add l h m4) (release 1 (attempt m4)) in
      if line_len == 0
      then ok l m
      else if granted m
      then elim (header_of line) [
        | none ↦ fail err_bad_format 1 l m1
        | some h ↦
            if granted m1
            then (if granted m2 && granted m3
                then more h
                else fail err_no_memory (2 + one_if (granted m2) + one_if (granted m3)) l m4)
            else fail err_no_memory 1 l m2
      ]
      else fail err_no_memory 0 l m1
]

unfoldable pub headers : Bytes → Mem → Option HeadersOut
unfolding headers_loop
headers buf m =
    if granted m
    then headers_loop (suc (length buf)) buf [] (attempt m)
    else some (record { code = err_no_memory; headers_out = none; mem = attempt m })

-- `*_out_value`, or `none` for ERR_NOT_FOUND: the first entry with the name decides.
unfoldable pub get_header_value : List HttpKeyValue → Bytes → Option Bytes
unfolding equal
get_header_value [] name = none
get_header_value (h ∷ l) name = if equal h.key name then some h.value else get_header_value l name
