-- ===== src/Tests/Parser.antt =====
-- The parser's theorems at concrete inputs, and runs of the parser.
use maestro_core.Base.{
  ℕ, ◌+◌, ◌^◌, ◌<◌, ◌≤◌, pos, some, List, [], ◌∷◌, ◌++◌, ◌≡◌, ◌↔◌, refl, arith, codes, length, ◌||◌,
}
use maestro_core.CString.{isdigit, strstr, strip_prefix, strchr}
use maestro_core.ErrorCode.{success, err_bad_format}
use maestro_core.HttpParser.Headers.{headers, get_header_value}
use maestro_core.HttpParser.Headers.RoundTrip.{render, Succeeded, headers-render}
use maestro_core.HttpParser.Headers.Sound.{Returns, SoundResult, headers_sound}
use maestro_core.HttpParser.Headers.Leaks.{Balanced, headers-Balanced}
use maestro_core.HttpParser.Headers.Lookup.{IsFirst, get_header_value-IsFirst}
use maestro_core.HttpParser.Headers.End.{find_headers_end-render}
use maestro_core.HttpParser.Scan.{find_line_end, find_headers_end}
use maestro_core.HttpParser.Scan.First.{
  crlf, crlf_crlf, FirstAt, find_line_end-FirstAt, find_headers_end-FirstAt,
}
use maestro_core.HttpParser.Url.{url, all_digits}
use maestro_core.HttpParser.Url.Bounds.{SoundUrl, url_sound}
use maestro_core.HttpParser.Url.RoundTrip.{IsUrl, url-url_of}
use maestro_core.HttpParser.{HttpKeyValue}
use maestro_core.Numbers.{decimal}
use maestro_core.StringUtils.{parse_string_to_int}
use maestro_core.StringUtils.Parse.{parse-decimal, parse_range}
use maestro_core.HttpStatus.{reason_phrase, is_error, is_client_error, is_server_error}
use maestro_core.HttpStatus.Classes.{classes, reason_phrase-classes, reason_phrase_injective}
use maestro_core.Tests.Data.{
  heap, heap-Plentiful, content_length, server, content_length-IsHeader, server-IsHeader, parts,
}

abbrev two_headers : List HttpKeyValue
two_headers = server ∷ content_length ∷ []

headers-render_example :
    Succeeded two_headers 9 heap (headers (render two_headers ++ codes "hello") heap)
headers-render_example =
    headers-render two_headers (codes "hello") heap (server-IsHeader, (content_length-IsHeader, tt))
      heap-Plentiful

headers_sound_example :
    Returns (λ out. SoundResult out.code out.headers_out) (headers (codes "no colon\r\n\r\n") heap)
headers_sound_example = headers_sound (codes "no colon\r\n\r\n") heap

headers-Balanced_example : Returns (Balanced 0) (headers (codes "A: 1\r\nno colon\r\n\r\n") heap)
headers-Balanced_example = headers-Balanced (codes "A: 1\r\nno colon\r\n\r\n") heap heap-Plentiful

get_header_value-IsFirst_run :
    (get_header_value two_headers (codes "Content-Length") ≡ some (codes "5"))
    ↔ IsFirst two_headers (codes "Content-Length") (codes "5")
get_header_value-IsFirst_run =
    get_header_value-IsFirst two_headers (codes "Content-Length") (codes "5")

find_headers_end-render_run :
    (n : ℕ) × (find_headers_end (render two_headers ++ codes "hello") ≡ some n)
    × (n + 4 ≡ length (render two_headers))
find_headers_end-render_run =
    find_headers_end-render server (content_length ∷ []) (codes "hello")
      (server-IsHeader, (content_length-IsHeader, tt))

find_line_end-FirstAt_run :
    (find_line_end (codes "ab\r\r\ncd\r\n") ≡ some 3) ↔ FirstAt crlf (codes "ab\r\r\ncd\r\n") 3
find_line_end-FirstAt_run = find_line_end-FirstAt (codes "ab\r\r\ncd\r\n") 3

find_headers_end-FirstAt_run :
    (find_headers_end (codes "a: b\r\n\r\n") ≡ some 4) ↔ FirstAt crlf_crlf (codes "a: b\r\n\r\n") 4
find_headers_end-FirstAt_run = find_headers_end-FirstAt (codes "a: b\r\n\r\n") 4

parts-IsUrl : IsUrl parts (codes "v1/prices")
unfolding all_digits isdigit
parts-IsUrl = ground arith

url-url_of_example : url (codes "http://maestro.se:8080/v1/prices") ≡ (success, parts)
url-url_of_example = url-url_of parts (codes "v1/prices") parts-IsUrl

url_sound_example : SoundUrl (url (codes "ftp://host/file"))
url_sound_example = url_sound (codes "ftp://host/file")

parse-decimal_run : parse_string_to_int (decimal 1024) ≡ some (pos 1024)
parse-decimal_run = parse-decimal 1024 (omega arith)

parse_range_run : (17 < 2 ^ 31) × (0 ≤ 2 ^ 31)
parse_range_run = parse_range (decimal 17) (parse-decimal 17 (omega arith))

not_found_phrase : reason_phrase (pos 404) ≡ some (codes "Not Found")
unfolding reason_phrase
not_found_phrase = refl

reason_phrase-classes_run :
    (classes (pos 404) ≡ 1)
    × (is_error (pos 404) ≡ (is_client_error (pos 404) || is_server_error (pos 404)))
reason_phrase-classes_run = reason_phrase-classes (pos 404) not_found_phrase

reason_phrase_injective_run : pos 404 ≡ pos 404
reason_phrase_injective_run =
    reason_phrase_injective (pos 404) (pos 404) not_found_phrase not_found_phrase

-- A port that is no number
bad_port : (url (codes "http://host:80a/")).0 ≡ err_bad_format
unfolding url strstr strip_prefix strchr all_digits isdigit
bad_port = refl
