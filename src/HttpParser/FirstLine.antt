-- ===== src/HttpParser/FirstLine.antt =====
-- `http_parser_first_line`: METHOD SP request-target SP version.
pub mod RoundTrip
pub mod Sound
pub mod Target
use maestro_core.Base.{
  ℕ, suc, ◌+◌, Bool, true, false, ◌&&◌, Option, none, some, List, [], ◌∷◌, Bytes, length, ◌==◌,
  if◌then◌else◌,
}
use maestro_core.CString.{c_str, strchr}
use maestro_core.ErrorCode.{ErrorCode, success, err_invalid_arg, err_bad_format, err_no_memory}
use maestro_core.HttpParser.{HttpKeyValue, HttpRequest, request_blocks, dispose_request}
use maestro_core.HttpParser.Method.{string_to_enum}
use maestro_core.HttpParser.Query.{Parsed, no_memory, query_loop}
use maestro_core.Memory.{Mem, granted, attempt, release}

-- An exit that frees `line_copy` and leaves the request as it is.
abbrev leave : ErrorCode → HttpRequest → Option (List HttpKeyValue) → Mem → Parsed
leave code req out m = record { code = code; req = req; params_out = out; mem = release 1 m }

-- From `_Req->method_str = strdup(method)` to the end.
finish : Bytes → Bytes → HttpRequest → Option (List HttpKeyValue) → Mem → Parsed
unfolding no_memory
finish method version req out m =
    let m1 = attempt m in
    let m2 = attempt m1 in
    let stored = record req {
      method_str = if granted m then some method else none;
      version = if granted m1 then some version else none;
    } in
    if granted m && granted m1
    then leave success (record stored { method = string_to_enum method }) out m2
    else no_memory stored out m2

-- Behind the loop: an error inside it has already left the function.
then_finish : Bytes → Bytes → Option Parsed → Option Parsed
then_finish method version none = none
then_finish method version (some p) = elim p.code [
  | success ↦ some (finish method version p.req p.params_out p.mem)
  | _ ↦ some p
]

-- The request target, with and without a query string.
pub target_with : Bytes → Bytes → Bytes → Option (Bytes × Bytes) → HttpRequest → Mem → Option Parsed
unfolding no_memory
target_with method version target none req m =
    let m1 = attempt m in
    if granted m
    then some (finish method version (record req { path = some target }) none m1)
    else some (leave err_no_memory (record req { path = none }) none m1)
target_with method version target (some (path, query)) req m =
    let m1 = attempt m in
    let m2 = attempt m1 in
    let req' = record req { path = some path } in
    if granted m
    then (if granted m1
        then then_finish method version (query_loop (suc (length query)) query req' [] m2)
        else some (no_memory req' none m2))
    else some (leave err_no_memory (record req { path = none }) none m1)

-- The line from `strchr(line_copy, ' ')` on.
pub split_line : Bytes → HttpRequest → Mem → Option Parsed
split_line line req m = elim (strchr line b' ') [
  | none ↦ some (leave err_bad_format req none m)
  | some (method, rest) ↦ elim (strchr rest b' ') [
    | none ↦ some (leave err_bad_format req none m)
    | some (target, version) ↦ elim version [
      | [] ↦ some (leave err_bad_format req none m)
      | c ∷ v ↦ target_with method (c ∷ v) target (strchr target b'?') req m
    ]
  ]
]

-- `params_out` is what `*_params_out` held before the call.
unfoldable pub first_line : Bytes → HttpRequest → Option (List HttpKeyValue) → Mem → Option Parsed
unfolding split_line target_with then_finish finish
first_line line req params_out m =
    if length line == 0
    then some (record { code = err_invalid_arg; req = req; params_out = params_out; mem = m })
    else if granted m
    then split_line (c_str line) req (attempt m)
    else some (record { code = err_no_memory; req = req; params_out = none; mem = attempt m })
