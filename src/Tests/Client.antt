-- ===== src/Tests/Client.antt =====
-- The client's theorems at concrete inputs.
use maestro_core.Base.{
  ◌+◌, ◌-◌, ◌*◌, ◌^◌, ◌<◌, ◌≤◌, true, some, [], ◌∷◌, ◌++◌, ◌≡◌, ◌↔◌, refl, arith, Bytes, codes,
  length, drop, take, none, ℕ,
}
use maestro_core.HttpClient.Chunked.{
  size_text, worktask_decipher_chonkiness, worktask_read_body_chunked,
}
use maestro_core.HttpClient.Chunked.Undefined.{read_body_chunked_undefined, long_size_undefined}
use maestro_core.HttpClient.Request.{
  request_head, body_len, path_or_root, method_str, has_body_header, sent, worktask_build_request,
  worktask_send_request,
}
use maestro_core.HttpClient.Request.Fits.{built, build_request_complete}
use maestro_core.HttpClient.Request.Progress.{
  Sending, Honest, Progress, Sends, no_call, one_more, answer, error_after_failures,
}
use maestro_core.HttpClient.Request.Wire.{fields_of, request_head-headers}
use maestro_core.HttpParser.FirstLine.{first_line}
use maestro_core.HttpParser.FirstLine.Target.{IsRead}
use maestro_core.HttpParser.Query.{Parsed}
use maestro_core.HttpClient.Work.Decode.{Decoded, work_rounds-encode}
use maestro_core.HttpClient.Work.Deliver.{delivers_content_length, undelimited_cut}
use maestro_core.HttpClient.Work.SplitEnd.{split_end_fails}
use maestro_core.HttpClient.Work.{work_rounds}
use maestro_core.HttpClient.{
  HttpClient, decipher_chonkiness, reading_headers, sending_request, disposing, error, to,
  undefined, World, broken,
}
use maestro_core.HttpParser.Headers.RoundTrip.{Succeeded}
use maestro_core.HttpParser.Headers.{headers}
use maestro_core.HttpParser.Scan.{find_line_end}
use maestro_core.HttpParser.{HttpRequest, http_post}
use maestro_core.Memory.{Mem, granted, attempt}
use maestro_core.Numbers.{hex, decimal, print, digit_char}
use maestro_core.StringUtils.{contents}
use maestro_core.HttpParser.Headers.{get_header_value}
use maestro_core.CString.{equal}
use maestro_core.Tests.Data.{
  heap, heap-Plentiful, client, world, server, content_length, server-IsHeader,
  content_length-IsHeader, no_request,
}

abbrev chunked_client : HttpClient
chunked_client = record client {
  state = decipher_chonkiness;
  recv = some (codes "3\r\nabc\r\n2\r\nde\r\n0\r\n\r\nx");
}

hex_3 : hex 3 ≡ codes "3"
unfolding hex print digit_char
hex_3 = refl

work_rounds-encode_example :
    (out : HttpClient × Mem) × (work_rounds 5 0 (λ _. world 0 []) chunked_client heap ≡ some out)
    × Decoded chunked_client (codes "abcde") (codes "x") out.0
unfolding contents hex print digit_char
work_rounds-encode_example =
    work_rounds-encode (codes "abc" ∷ codes "de" ∷ []) (codes "x") 0 (λ _. world 0 [])
      chunked_client heap (omega arith, (omega arith, tt)) refl refl heap-Plentiful

abbrev cut_client : HttpClient
cut_client = record client { state = decipher_chonkiness; recv = some (codes "0\r\n") }

split_end_fails_example :
    (out : HttpClient × Mem) × (work_rounds 2 0 (λ _. world 0 (codes "\r\n")) cut_client heap
      ≡ some out)
    × (out.0.state ≡ error)
unfolding contents
split_end_fails_example =
    split_end_fails [] 0 (λ _. world 0 (codes "\r\n")) cut_client heap refl refl refl heap-Plentiful

-- `-1` as a chunk size
abbrev huge_client : HttpClient
huge_client = record client { recv = some (codes "abc"); chunk_remaining = 2 ^ 64 - 1 }

read_body_chunked_undefined_example :
    (worktask_read_body_chunked huge_client (world 0 []) heap ≡ undefined)
    ↔ ((granted heap ≡ true) × (2 ^ 63 ≤ 2 ^ 64 - 1) × (3 < 2 ^ 64 - 1))
unfolding contents
read_body_chunked_undefined_example = read_body_chunked_undefined huge_client (world 0 []) heap

abbrev long_size : Bytes
long_size = codes "000000000000000000000000000000000000000000000000001"

abbrev long_client : HttpClient
long_client = record client { recv = some (long_size ++ codes "\r\na") }

long_size_undefined_example :
    (worktask_decipher_chonkiness long_client (world 0 []) heap ≡ undefined)
    ↔ (48 ≤ length (size_text long_size))
unfolding contents
long_size_undefined_example =
    long_size_undefined long_size (codes "a") long_client (world 0 []) heap refl (ground arith)

abbrev headers_client : HttpClient
headers_client = record client {
  state = reading_headers;
  recv = some (codes "Server: m 1\r\nContent-Length: 5\r\n\r\nhello");
}

five : decimal 5 ≡ codes "5"
unfolding decimal print digit_char
five = refl

delivers_content_length_example :
    (out : HttpClient × Mem) × (work_rounds 2 0 (λ _. world 0 []) headers_client heap ≡ some out)
    × (out.0.delivered ≡ codes "hello" ∷ [])
    × (out.0.state ≡ disposing)
unfolding contents get_header_value equal decimal print digit_char
delivers_content_length_example =
    delivers_content_length server (content_length ∷ []) (codes "hello") headers_client (world 0 [])
      heap (server-IsHeader, (content_length-IsHeader, tt)) heap-Plentiful refl 0 (λ _. world 0 [])
      refl refl (omega arith) refl refl refl 5 refl refl (omega arith) (omega arith) (omega arith)

abbrev undelimited_client : HttpClient
undelimited_client = record client {
  state = reading_headers;
  recv = some (codes "Server: m 1\r\n\r\nhel");
}

undelimited_cut_example :
    (out : HttpClient × Mem) × (work_rounds 2 0 (λ _. world 0 (codes "lo")) undelimited_client heap
      ≡ some out)
    × (out.0.delivered ≡ codes "hel" ∷ [])
    × (out.0.state ≡ disposing)
unfolding contents get_header_value equal
undelimited_cut_example =
    undelimited_cut server [] (codes "hel") undelimited_client (world 0 (codes "lo")) heap
      (server-IsHeader, tt) heap-Plentiful refl 0 (λ _. world 0 (codes "lo")) refl refl
      (omega arith) refl refl refl refl refl

abbrev post_client : HttpClient
post_client = record client {
  method = http_post;
  req = record no_request { body = some (codes "a=1"); body_len = 3 };
}

head_length : length (request_head post_client) ≡ 148
unfolding request_head method_str path_or_root body_len has_body_header decimal print digit_char
head_length = refl

build_request_complete_example :
    worktask_build_request post_client heap
    ≡ to sending_request (built post_client (length (request_head post_client) + 3)) (attempt heap)
unfolding body_len contents request_head method_str path_or_root has_body_header decimal print
    digit_char
build_request_complete_example =
    build_request_complete post_client heap refl (omega (arith, head_length))

abbrev before : HttpRequest
before = client.req

request_head-headers_example :
    (n : ℕ) × (out : Parsed) × (find_line_end (request_head post_client) ≡ some n)
    × (first_line (take n (request_head post_client)) before none heap ≡ some out)
    × IsRead http_post (codes "/v1/prices") none (codes "HTTP/1.1") out
    × Succeeded
        (fields_of post_client)
        (1 + 4 * length (fields_of post_client))
        heap
        (headers (drop (n + 2) (request_head post_client)) heap)
unfolding path_or_root
request_head-headers_example =
    request_head-headers post_client (codes "/v1/prices") none none before heap refl (ground arith)
      (ground arith) heap-Plentiful

abbrev sending_client : HttpClient
sending_client = record client {
  request_buffer = some (codes "GET");
  request_length = 3;
  bytes_sent = 1;
  state = sending_request;
}

sending_client-Sending : Sending sending_client
unfolding contents
sending_client-Sending = omega arith

-- A transport that breaks at every call.
abbrev broken_world : World
broken_world = record (world 0 []) { transport_write = λ _. broken }

broken_world-Honest : Honest broken_world
broken_world-Honest s n e = cc e

abbrev retried : ℕ → HttpClient
retried n = record sending_client { retries = n; next_retry_at = 1000; state = sending_request }

three_failures : Sends sending_client 3 (retried 3)
unfolding worktask_send_request sent contents
three_failures =
    one_more (retried 3) broken_world heap heap
      (one_more (retried 2) broken_world heap heap
        (one_more (retried 1) broken_world heap heap no_call broken_world-Honest refl)
        broken_world-Honest refl)
      broken_world-Honest refl

error_after_failures_run : (3 ≤ 3) × (answer (retried 3) broken_world ≡ broken)
unfolding worktask_send_request sent contents
error_after_failures_run =
    error_after_failures sending_client (retried 3) (retried 3) 3 broken_world heap heap
      sending_client-Sending refl three_failures broken_world-Honest refl
