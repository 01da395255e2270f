-- ===== src/Tests/Lines.antt =====
-- The theorems on request lines and status lines at concrete inputs.
use maestro_core.Base.{◌+◌, pos, none, some, [], ◌∷◌, ◌++◌, ◌≡◌, refl, arith, codes}
use maestro_core.CString.{c_str, skip, isspace}
use maestro_core.ErrorCode.{success, err_bad_format}
use maestro_core.HttpParser.FirstLine.{first_line}
use maestro_core.HttpParser.FirstLine.RoundTrip.{
  RequestLine, IsRequestLine, Stored, first_line-line_of,
}
use maestro_core.HttpParser.FirstLine.Sound.{Returns, first_line_sound}
use maestro_core.HttpParser.Query.{Parsed}
use maestro_core.HttpParser.Response.{returns, null_dereference, response_firstline, status_int}
use maestro_core.HttpParser.Response.Verdict.{
  stored, held, response_firstline_known, response_firstline_unknown,
  response_firstline_other_phrase,
}
use maestro_core.HttpParser.{response_blocks, dispose_response}
use maestro_core.HttpStatus.{reason_phrase}
use maestro_core.Memory.{release}
use maestro_core.Numbers.{decimal, print, digit_char, strtol, sign, read_digits}
use maestro_core.StringUtils.{parse_string_to_int}
use maestro_core.Tests.Data.{heap, heap-Plentiful, entry, no_request, no_response}

abbrev put_line : RequestLine
put_line = record {
  method = codes "PUT";
  path = codes "/prices";
  params = entry (codes "zone") (codes "SE3") ∷ entry (codes "n") (codes "4") ∷ [];
  version = codes "HTTP/1.1";
}

put_line-IsRequestLine : IsRequestLine put_line
put_line-IsRequestLine = ground arith

first_line-line_of_example :
    (out : Parsed) × (first_line (codes "PUT /prices?zone=SE3&n=4 HTTP/1.1") no_request none heap
      ≡ some out)
    × Stored put_line no_request heap out
first_line-line_of_example =
    first_line-line_of put_line no_request none heap put_line-IsRequestLine heap-Plentiful

first_line_sound_run :
    Returns (c_str (codes "GET /")) no_request 0 (first_line (codes "GET /") no_request none heap)
first_line_sound_run = first_line_sound (codes "GET /") no_request none heap

known : reason_phrase (pos 200) ≡ some (codes "OK")
unfolding reason_phrase
known = refl

response_firstline_known_run :
    response_firstline (codes "HTTP/1.1 " ++ (decimal 200 ++ codes " OK")) no_response heap
    ≡ returns success
        (stored (codes "HTTP/1.1") (decimal 200) (codes "OK") no_response)
        (record heap { asked = 0 + 1 + 1 + 1 + 1; live = 3 })
unfolding decimal print digit_char
response_firstline_known_run =
    response_firstline_known (codes "HTTP/1.1") (codes "OK") 200 no_response heap known
      (ground arith) (ground arith) heap-Plentiful

unknown : reason_phrase (status_int (codes "299")) ≡ none
unfolding reason_phrase parse_string_to_int strtol skip sign read_digits isspace
unknown = refl

response_firstline_unknown_example :
    response_firstline (codes "HTTP/1.1 299 Odd") no_response heap ≡ null_dereference
response_firstline_unknown_example =
    response_firstline_unknown (codes "HTTP/1.1") (codes "299") (codes "Odd") no_response heap
      (ground arith) (ground arith) (ground arith) heap-Plentiful unknown

ok_code : reason_phrase (status_int (codes "200")) ≡ some (codes "OK")
unfolding reason_phrase parse_string_to_int strtol skip sign read_digits isspace
ok_code = refl

-- Servers are free to send another phrase; this one is refused.
response_firstline_other_phrase_run :
    response_firstline (codes "HTTP/1.1 200 Fine") no_response heap
    ≡ returns err_bad_format (dispose_response no_response) (
        release
          (1 + response_blocks (stored (codes "HTTP/1.1") (codes "200") (codes "Fine") no_response))
          (held heap))
response_firstline_other_phrase_run =
    response_firstline_other_phrase (codes "HTTP/1.1") (codes "200") (codes "Fine") no_response heap
      (ground arith) (ground arith) (ground arith) heap-Plentiful (codes "OK") ok_code
      (ground arith)
