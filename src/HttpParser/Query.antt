-- ===== src/HttpParser/Query.antt =====
-- The loop of `http_parser_first_line` over the query string, `key=value` pairs joined by `&`.
pub mod RoundTrip
pub mod Total
use maestro_core.Base.{
  ℕ, zero, suc, ◌+◌, Bool, true, false, ◌&&◌, Option, none, some, List, [], ◌∷◌, ◌++◌, Bytes,
  if◌then◌else◌,
}
use maestro_core.CString.{strchr}
use maestro_core.ErrorCode.{ErrorCode, success, err_no_memory}
use maestro_core.HttpParser.{HttpKeyValue, HttpRequest, request_blocks, dispose_request}
use maestro_core.Memory.{Mem, granted, attempt, release}

-- What `http_parser_first_line` leaves behind: its result, the request, `*_params_out`, the heap.
pub record Parsed : Type 0 where
  pub code : ErrorCode
  pub req : HttpRequest
  pub params_out : Option (List HttpKeyValue)
  pub mem : Mem

-- `linked_list_item_add(list, NULL, item)`, whose result the parser does not look at: without
-- memory for the node the list stays as it is.
unfoldable pub item_add : List HttpKeyValue → HttpKeyValue → Mem → List HttpKeyValue
item_add l x m = if granted m then l ++ x ∷ [] else l

-- The error exit: `line_copy` is freed and the request disposed of.
unfoldable pub no_memory : HttpRequest → Option (List HttpKeyValue) → Mem → Parsed
no_memory req out m = record {
  code = err_no_memory;
  req = dispose_request req;
  params_out = out;
  mem = release (1 + request_blocks req) m;
}

-- The value of the parameter whose `=` stands before `r`, and the new `param_str`; the NULL after
-- the last parameter is the empty text, at which the loop stops as well.
unfoldable pub split_value : Bytes → Bytes × Bytes
split_value r = elim (strchr r b'&') [ none ↦ (r, []) | some (v, rest) ↦ (v, rest) ]

-- `while (param_str && *param_str)`; `none` means that the fuel ran out.
unfoldable pub query_loop : ℕ → Bytes → HttpRequest → List HttpKeyValue → Mem → Option Parsed
unfolding item_add no_memory split_value
query_loop zero s req l m = none
query_loop (suc f) [] req l m =
    some (record { code = success; req = req; params_out = some l; mem = m })
query_loop (suc f) (c ∷ s) req l m = elim (strchr (c ∷ s) b'=') [
  | none ↦ some (record { code = success; req = req; params_out = some l; mem = m })
  | some (key, r) ↦
      let v = split_value r in
      let m1 = attempt m in
      let m2 = attempt m1 in
      let m3 = attempt m2 in
      let rest =
        query_loop f v.1 (record req { params_count = req.params_count + 1 })
          (item_add l (record { key = key; value = v.0 }) m3) (attempt m3) in
      if granted m
      then (if granted m1 && granted m2 then rest else some (no_memory req (some l) m3))
      else some (no_memory req (some l) m1)
]
