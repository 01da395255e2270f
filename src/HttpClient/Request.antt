-- ===== src/HttpClient/Request.antt =====
-- `http_client_worktask_build_request` and `http_client_worktask_send_request`.
pub mod Fits
pub mod Progress
pub mod Wire
use maestro_core.Base.{
  ℕ, ◌+◌, ◌-◌, ◌%◌, ◌^◌, Bool, true, false, ◌&&◌, ◌||◌, Option, none, some, [], ◌∷◌, ◌++◌, Bytes,
  codes, length, take, drop, ltb, leb, ◌==◌, if◌then◌else◌,
}
use maestro_core.HttpClient.{
  HttpClientState, sending_request, reading_firstline, error, HttpClient, Written, took, again,
  broken, World, Step, to, undefined, int_to_size,
}
use maestro_core.HttpParser.{HttpMethod, http_post, http_put, http_delete, HttpRequest}
use maestro_core.Memory.{Mem, granted, attempt, release}
use maestro_core.Numbers.{decimal}
use maestro_core.StringUtils.{contents}

unfoldable pub method_str : HttpMethod → Bytes
method_str http_post = codes "POST"
method_str http_put = codes "PUT"
method_str http_delete = codes "DELETE"
method_str _ = codes "GET"

unfoldable pub has_body_header : HttpMethod → Bool
has_body_header http_post = true
has_body_header http_put = true
has_body_header _ = false

-- `path[0] ? path : "/"`
unfoldable pub path_or_root : Bytes → Bytes
path_or_root [] = codes "/"
path_or_root (c ∷ s) = c ∷ s

-- `(req->body && req->body_len > 0) ? req->body_len : 0`
unfoldable pub body_len : HttpRequest → ℕ
body_len r = elim r.body [ none ↦ 0 | some _ ↦ r.body_len ]

-- The first line and the header lines of both templates.
abbrev pub common_lines : Bytes → Bytes → Bytes → Bytes
common_lines method path host =
    method
    ++ (codes " "
        ++ (path
            ++ (codes " HTTP/1.1\r\nHost: "
                ++ (host ++ codes "\r\nUser-Agent: httpclient\r\nConnection: close\r\n"))))

abbrev pub length_lines : ℕ → Bytes
length_lines n =
    codes "Content-Length: "
    ++ (decimal n ++ codes "\r\nContent-Type: application/octet-stream\r\n")

-- The text that `snprintf` forms, by the template that applies.
unfoldable pub request_head : HttpClient → Bytes
unfolding method_str path_or_root body_len has_body_header
request_head c =
    let lines =
      common_lines (method_str c.method) (path_or_root c.url_parts.path) c.url_parts.host in
    if ltb 0 (body_len c.req) && has_body_header c.method
    then lines ++ (length_lines (body_len c.req) ++ codes "\r\n")
    else lines ++ codes "\r\n"

unfoldable pub max_len : HttpClient → ℕ
unfolding path_or_root body_len
max_len c =
    length c.url_parts.host
    + length (path_or_root c.url_parts.path)
    + 256
    + (if ltb 0 (body_len c.req) then 128 else 0)
    + body_len c.req

-- `snprintf` writes at most `max_len - 1` bytes of its text, and returns the length of the whole.
unfoldable pub worktask_build_request : HttpClient → Mem → Step
unfolding request_head max_len contents int_to_size
worktask_build_request c m =
    let head = request_head c in
    let n = body_len c.req in
    let total = length head + n in
    let buffer = take (max_len c - 1) head ++ take n (contents c.req.body) in
    if granted m
    then (if ltb (max_len c) total
        then to error (record c { request_buffer = none }) (release 1 (attempt m))
        else to sending_request
            (record c {
              request_buffer = some buffer;
              request_length = int_to_size total;
              bytes_sent = 0;
            })
            (attempt m))
    else to error (record c { request_buffer = none }) (attempt m)

-- After `transport_write` on the bytes that are not yet sent.
unfoldable pub sent : Written → HttpClient → World → Mem → Step
sent (took n) c w m =
    if ltb 0 n
    then (if leb c.request_length (c.bytes_sent + n)
        then to reading_firstline (record c { bytes_sent = c.bytes_sent + n; retries = 0 }) m
        else to sending_request
            (record c { bytes_sent = c.bytes_sent + n; next_retry_at = w.now + 100 }) m)
    else to sending_request (record c { retries = c.retries + 1; next_retry_at = w.now + 1000 }) m
sent again c w m = to sending_request (record c { next_retry_at = w.now + 100 }) m
sent broken c w m =
    if ltb c.retries 3
    then to sending_request (record c { retries = c.retries + 1; next_retry_at = w.now + 1000 }) m
    else to error c m

-- `remaining` bytes are handed over; a range that leaves the buffer is undefined.
unfoldable pub worktask_send_request : HttpClient → World → Mem → Step
unfolding sent contents
worktask_send_request c w m =
    if ltb (length (contents c.request_buffer)) c.request_length
    then undefined
    else sent (w.transport_write (drop c.bytes_sent (contents c.request_buffer))) c w m
