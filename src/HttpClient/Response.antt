-- ===== src/HttpClient/Response.antt =====
-- `http_client_worktask_read_firstline` and `http_client_worktask_read_headers`.
use maestro_core.Base.{
  ℕ, ◌+◌, pos, negsuc, Bool, true, false, ◌||◌, Option, none, some, List, inl, inr, Bytes, codes,
  length, take, drop, ltb, leb, ◌==◌, if◌then◌else◌,
}
use maestro_core.CString.{strstr}
use maestro_core.ErrorCode.{success}
use maestro_core.HttpClient.{
  reading_firstline, reading_headers, decipher_chonkiness, reading_body, returning, error,
  HttpClient, got, closed, again, broken, World, Step, to, undefined,
}
use maestro_core.HttpParser.{HttpKeyValue}
use maestro_core.HttpParser.Headers.{headers, get_header_value}
use maestro_core.HttpParser.Response.{Outcome, returns, null_dereference, response_firstline}
use maestro_core.HttpParser.Scan.{find_line_end, find_headers_end}
use maestro_core.Memory.{Mem}
use maestro_core.StringUtils.{parse_string_to_int, contents, buffer_append}

-- `buffer_append` to `recv_buf`; an error is the end, else the step goes on with the new buffer.
unfoldable pub stored : HttpClient → Bytes → Mem → (HttpClient → Mem → Step) → Step
stored c s m continue =
    let a = buffer_append c.recv s m in
    elim a.result [
      | inl _ ↦ to error (record c { recv = a.buffer }) a.mem
      | inr _ ↦ continue (record c { recv = a.buffer }) a.mem
    ]

-- `memmove` of what stands behind the first `n` bytes to the front, and `size -= n`.
unfoldable pub consume : ℕ → HttpClient → HttpClient
unfolding contents
consume n c = record c { recv = some (drop n (contents c.recv)) }

firstline_parsed : ℕ → HttpClient → Outcome → Step
firstline_parsed line_end c null_dereference = undefined
firstline_parsed line_end c (returns success resp m) =
    to reading_headers (consume (line_end + 2) (record c { resp = resp })) m
firstline_parsed line_end c (returns _ resp m) = to error (record c { resp = resp }) m

-- From `http_parser_find_line_end` on.
unfoldable pub firstline_in : HttpClient → Mem → Step
unfolding firstline_parsed contents
firstline_in c m =
    let buf = contents c.recv in
    elim (find_line_end buf) [
      | none ↦ if leb 1024 (length buf) then to error c m else to reading_firstline c m
      | some n ↦
          if n == 0 || leb 1024 n
          then to error c m
          else firstline_parsed n c (response_firstline (take n buf) c.resp m)
    ]

unfoldable pub worktask_read_firstline : HttpClient → World → Mem → Step
unfolding stored firstline_in
worktask_read_firstline c w m = elim (w.transport_read 8095) [
  | got s ↦ stored c s m firstline_in
  | closed ↦ to error c m
  | again ↦ to reading_firstline c m
  | broken ↦ to error c m
]

abbrev is_some {ℓ} : {A : Type ℓ} → Option A → Bool
is_some none = false
is_some (some _) = true

-- `transfer_encoding_string && strstr(transfer_encoding_string, "chunked")`
unfoldable pub is_chunked : List HttpKeyValue → Bool
is_chunked l = elim (get_header_value l (codes "Transfer-Encoding")) [
  | none ↦ false
  | some v ↦ is_some (strstr v (codes "chunked"))
]

-- `cl` where it is positive, else 0: a missing header and a bad number leave 0.
unfoldable pub content_length_of : List HttpKeyValue → ℕ
content_length_of l = elim (get_header_value l (codes "Content-Length")) [
  | none ↦ 0
  | some v ↦ elim (parse_string_to_int v) [ none ↦ 0 | some (pos n) ↦ n | some (negsuc n) ↦ 0 ]
]

-- How the body comes, for the headers `l`.
unfoldable pub choose_body : List HttpKeyValue → HttpClient → Mem → Step
unfolding contents
choose_body l c m =
    let cl = content_length_of l in
    if is_chunked l
    then to decipher_chonkiness c m
    else if ltb 0 cl
    then (let c' = record c { content_length = cl } in
        if leb cl (length (contents c.recv)) then to returning c' m else to reading_body c' m)
    else to returning c m

-- With the end of the headers found at `headers_end`. The fuel of `headers` suffices for every
-- buffer, so its `none` does not arise.
unfoldable pub headers_found : ℕ → HttpClient → Mem → Step
unfolding contents
headers_found headers_end c m = elim (headers (take (headers_end + 4) (contents c.recv)) m) [
  | none ↦ undefined
  | some out ↦
      let c' = record c { req = record (c.req) { headers = out.headers_out } } in
      elim out.headers_out [
        | none ↦ to error c' out.mem
        | some l ↦ choose_body l (record (consume (headers_end + 4) c') { retries = 0 }) out.mem
      ]
]

-- The call of `transport_read` where the headers are not complete. On a closed connection the
-- source searches again and, should the end be there, calls itself on the same buffer.
unfoldable pub more_headers : HttpClient → World → Mem → Step
unfolding stored headers_found
more_headers c w m = elim (w.transport_read 1023) [
  | got s ↦ stored c s m (λ c'. to reading_headers c')
  | closed ↦ elim (find_headers_end (contents c.recv)) [
    | none ↦ to error c m
    | some n ↦ headers_found n c m
  ]
  | again ↦ to reading_headers c m
  | broken ↦ to error c m
]

unfoldable pub worktask_read_headers : HttpClient → World → Mem → Step
unfolding contents
worktask_read_headers c w m =
    if ltb 0 (length (contents c.recv))
    then elim (find_headers_end (contents c.recv)) [
      | none ↦ more_headers c w m
      | some n ↦ headers_found n c m
    ]
    else more_headers c w m
