-- ===== src/HttpClient/Request/Fits.antt =====
-- The request text and the buffer that `http_client_worktask_build_request` allocates for it.
use maestro_core.Base.{
  ℕ, ◌+◌, ◌-◌, ◌≤◌, ◌<◌, true, false, some, ◌++◌, ◌≡◌, refl, arith, Bytes, codes, length, take,
  length-append, ltb, ◌^◌, if◌then◌else◌,
}
use maestro_core.HttpClient.Request.{
  method_str, path_or_root, body_len, common_lines, length_lines, request_head, max_len,
  worktask_build_request,
}
use maestro_core.HttpClient.{HttpClient, sending_request, to, int_to_size}
use maestro_core.HttpParser.{
  HttpMethod, http_get, http_post, http_put, http_delete, http_options, http_download, http_invalid,
}
use maestro_core.Memory.{Mem, attempt, granted}
use maestro_core.Numbers.Decimal.{length-decimal}
use maestro_core.Numbers.{decimal}
use maestro_core.StringUtils.{contents}
use maestro_core.StringUtils.Parse.{take_all}

length-method_str : (m : HttpMethod) → length (method_str m) ≤ 6
unfolding method_str
length-method_str http_options = omega arith
length-method_str http_get = omega arith
length-method_str http_post = omega arith
length-method_str http_put = omega arith
length-method_str http_delete = omega arith
length-method_str http_download = omega arith
length-method_str http_invalid = omega arith

length-common_lines :
    (method path host : Bytes)
    → length (common_lines method path host) ≡ length method + length path + length host + 63
length-common_lines method path host = omega (
  arith,
  length-append method (
      codes " "
      ++ (path
          ++ (codes " HTTP/1.1\r\nHost: "
              ++ (host ++ codes "\r\nUser-Agent: httpclient\r\nConnection: close\r\n")))),
  length-append path (
      codes " HTTP/1.1\r\nHost: "
      ++ (host ++ codes "\r\nUser-Agent: httpclient\r\nConnection: close\r\n")),
  length-append host (codes "\r\nUser-Agent: httpclient\r\nConnection: close\r\n"),
)

length-length_lines : (n : ℕ) → length (length_lines n) ≤ 79
length-length_lines n = omega (
  arith,
  length-decimal n,
  length-append (decimal n) (codes "\r\nContent-Type: application/octet-stream\r\n"),
)

head_fits : (c : HttpClient) → length (request_head c) + body_len c.req < max_len c
unfolding request_head max_len
head_fits c =
    let lines =
      common_lines (method_str c.method) (path_or_root c.url_parts.path) c.url_parts.host in
    let n = body_len c.req in
    ground (
      arith,
      length-method_str c.method,
      length-length_lines n,
      length-common_lines (method_str c.method) (path_or_root c.url_parts.path) c.url_parts.host,
      length-append lines (length_lines n ++ codes "\r\n"),
      length-append (length_lines n) (codes "\r\n"),
      length-append lines (codes "\r\n"),
    )

-- The request that stands in the buffer and the length that the client keeps of it.
abbrev pub built : HttpClient → ℕ → HttpClient
built c n = record c {
  request_buffer = some (request_head c ++ take (body_len c.req) (contents c.req.body));
  request_length = n;
  bytes_sent = 0;
}

wrapped : (n : ℕ) → n < 2 ^ 32 → int_to_size n ≡ (if ltb n (2 ^ 31) then n else 2 ^ 64 - 2 ^ 32 + n)
unfolding int_to_size
wrapped n h = ground (arith, h)

-- For every request of fewer than 2^31 bytes, head and body together, with memory granted: the
-- buffer is large enough, so that the length check does not fail and nothing is cut off, and what
-- is to be sent is the whole head, followed by the body. A longer request, up to 2^32 - 1 bytes,
-- stands in the buffer as well, but its length wraps to 2^64 - 2^32 more than it is.
pub build_request_complete :
    (c : HttpClient) (m : Mem)
    → granted m ≡ true
    → length (request_head c) + body_len c.req < 2 ^ 32
    → (let n = length (request_head c) + body_len c.req in
        worktask_build_request c m
        ≡ to sending_request
            (built c (if ltb n (2 ^ 31) then n else 2 ^ 64 - 2 ^ 32 + n))
            (attempt m))
unfolding worktask_build_request
build_request_complete c m g small =
    rw
      (
        g,
        take_all (max_len c - 1) (request_head c) (omega (arith, head_fits c)),
        fits (max_len c) (length (request_head c) + body_len c.req) (head_fits c),
        wrapped (length (request_head c) + body_len c.req) small,
      )
      refl
  where
    fits : (a b : ℕ) → b < a → ltb a b ≡ false
    fits a b h = ground arith
