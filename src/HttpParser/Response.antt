-- ===== src/HttpParser/Response.antt =====
-- `http_parser_response_firstline`: HTTP-version SP status-code SP reason-phrase.
pub mod Verdict
use maestro_core.Base.{
  ℕ, ◌+◌, ℤ, pos, Bool, true, false, Option, none, some, Bytes, length, ◌==◌, if◌then◌else◌,
}
use maestro_core.CString.{c_str, strchr, equal}
use maestro_core.ErrorCode.{ErrorCode, success, err_invalid_arg, err_bad_format, err_no_memory}
use maestro_core.HttpParser.{HttpResponse, response_blocks, dispose_response}
use maestro_core.HttpStatus.{reason_phrase}
use maestro_core.Memory.{Mem, granted, attempt, release}
use maestro_core.StringUtils.{parse_string_to_int}

-- A run returns, or reads through the NULL that `HttpStatus_reasonPhrase` gives for a code with
-- no phrase: `strcmp(reason, NULL)` is undefined.
pub data Outcome : Type 0 where
  returns : ErrorCode → HttpResponse → Mem → Outcome
  null_dereference : Outcome

-- `int status_int = 0; parse_string_to_int(…, &status_int);`
abbrev pub status_int : Bytes → ℤ
status_int status = elim (parse_string_to_int status) [ none ↦ pos 0 | some v ↦ v ]

-- The comparison of the phrase, with all three strings stored.
check_phrase : Bytes → Bytes → HttpResponse → Mem → Outcome
check_phrase status reason resp m = elim (reason_phrase (status_int status)) [
  | none ↦ null_dereference
  | some phrase ↦
      if equal reason phrase
      then returns success resp (release 1 m)
      else returns err_bad_format (dispose_response resp) (release (1 + response_blocks resp) m)
]

-- The three calls of `strdup`, each with its own exit.
store : Bytes → Bytes → Bytes → HttpResponse → Mem → Outcome
store version status reason resp m =
    let m1 = attempt m in
    let m2 = attempt m1 in
    let m3 = attempt m2 in
    let r1 = record resp { version = some version } in
    let r2 = record r1 { status_code_string = some status } in
    let r3 = record r2 { reason_phrase = some reason } in
    let none2 = record r1 { status_code_string = none } in
    let none3 = record r2 { reason_phrase = none } in
    if granted m
    then (if granted m1
        then (if granted m2
            then check_phrase status reason r3 m3
            else returns err_no_memory (dispose_response none3)
                (release (1 + response_blocks none3) m3))
        else returns err_no_memory (dispose_response none2)
            (release (1 + response_blocks none2) m2))
    else returns err_no_memory (record resp { version = none }) (release 1 m1)

split_status : Bytes → HttpResponse → Mem → Outcome
split_status line resp m = elim (strchr line b' ') [
  | none ↦ returns err_bad_format resp (release 1 m)
  | some (version, rest) ↦ elim (strchr rest b' ') [
    | none ↦ returns err_bad_format resp (release 1 m)
    | some (status, reason) ↦ store version status reason resp m
  ]
]

unfoldable pub response_firstline : Bytes → HttpResponse → Mem → Outcome
unfolding split_status store check_phrase
response_firstline line resp m =
    if length line == 0
    then returns err_invalid_arg resp m
    else if granted m
    then split_status (c_str line) resp (attempt m)
    else returns err_no_memory resp (attempt m)
