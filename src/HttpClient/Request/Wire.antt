-- ===== src/HttpClient/Request/Wire.antt =====
-- The request text as a first line and a block of headers.
use maestro_core.Base.{
  ℕ, ◌+◌, ◌*◌, some, List, [], ◌∷◌, ◌++◌, ◌≡◌, refl, arith, Bytes, codes, Lacks, length, drop,
  append_assoc, ltb, if◌then◌else◌, ap, ◌∙◌, All, All-append, Bool-cases, inl, inr, ◌&&◌,
}
use maestro_core.HttpClient.Request.{
  method_str, path_or_root, body_len, has_body_header, common_lines, request_head,
}
use maestro_core.HttpClient.{HttpClient}
use maestro_core.Base.{◌≢◌, append-nil, subst, sym, ◌<◌, Option, take, take-length-append}
use maestro_core.Base.{Bool, true, false}
use maestro_core.CString.{equal}
use maestro_core.HttpParser.FirstLine.{first_line}
use maestro_core.HttpParser.FirstLine.Target.{
  target_text, IsTarget, IsRead, line_with, first_line-line_with,
}
use maestro_core.HttpParser.Method.{string_to_enum}
use maestro_core.HttpParser.Query.{Parsed}
use maestro_core.HttpParser.Headers.RoundTrip.{
  IsHeader, EndsInText, BeginsInText, render, Succeeded, headers-render,
}
use maestro_core.HttpParser.Headers.{headers}
use maestro_core.HttpParser.Scan.{find_line_end}
use maestro_core.HttpParser.Scan.First.{find_line_end-append, drop_line}
use maestro_core.HttpParser.{
  HttpMethod, HttpKeyValue, HttpRequest, http_options, http_get, http_post, http_put, http_delete,
  http_download, http_invalid,
}
use maestro_core.Memory.{Mem, Plentiful}
use maestro_core.Numbers.Decimal.{IsDigit, decimal-IsDigit, Lacks-digits}
use maestro_core.Numbers.{decimal}

abbrev pub field : Bytes → Bytes → HttpKeyValue
field key value = record { key = key; value = value }

abbrev pub common_fields : Bytes → List HttpKeyValue → List HttpKeyValue
common_fields host more =
    field (codes "Host") host
    ∷ field (codes "User-Agent") (codes "httpclient")
    ∷ field (codes "Connection") (codes "close")
    ∷ more

abbrev pub length_fields : ℕ → List HttpKeyValue
length_fields n =
    field (codes "Content-Length") (decimal n)
    ∷ field (codes "Content-Type") (codes "application/octet-stream")
    ∷ []

-- A POST or PUT with a body carries its length.
abbrev tells_length : HttpMethod → Bool
tells_length http_post = true
tells_length http_put = true
tells_length _ = false

pub fields_of : HttpClient → List HttpKeyValue
fields_of c =
    common_fields c.url_parts.host (
      if ltb 0 (body_len c.req) && tells_length c.method
      then length_fields (body_len c.req)
      else [])

abbrev pub start_of : HttpClient → Bytes
start_of c =
    method_str c.method ++ (codes " " ++ (path_or_root c.url_parts.path ++ codes " HTTP/1.1"))

end_of_common :
    (method path host : Bytes) (more : List HttpKeyValue)
    → common_lines method path host ++ render more
      ≡ (method ++ (codes " " ++ (path ++ codes " HTTP/1.1")))
        ++ (b'\r' ∷ b'\n' ∷ render (common_fields host more))
end_of_common method path host more = simp append_assoc

EndsInText-digits : (s : Bytes) → All IsDigit s → EndsInText s
EndsInText-digits [] h = tt
EndsInText-digits (c ∷ []) h = ground arith
EndsInText-digits (c ∷ d ∷ s) h = EndsInText-digits (d ∷ s) h.1

BeginsInText-digits : (s : Bytes) → All IsDigit s → BeginsInText s
BeginsInText-digits [] h = tt
BeginsInText-digits (c ∷ s) h = ground arith

IsHeader-agent : IsHeader (field (codes "User-Agent") (codes "httpclient"))
IsHeader-agent = ground arith

IsHeader-connection : IsHeader (field (codes "Connection") (codes "close"))
IsHeader-connection = ground arith

IsHeader-type : IsHeader (field (codes "Content-Type") (codes "application/octet-stream"))
IsHeader-type = ground arith

IsHeader-length : (n : ℕ) → IsHeader (field (codes "Content-Length") (decimal n))
IsHeader-length n = record {
  key_nul = ground arith;
  key_colon = ground arith;
  key_cr = ground arith;
  key_end = ground arith;
  value_nul = Lacks-digits 0 (decimal n) (decimal-IsDigit n) (inl (omega arith));
  value_cr = Lacks-digits b'\r' (decimal n) (decimal-IsDigit n) (inl (omega arith));
  value_begin = BeginsInText-digits (decimal n) (decimal-IsDigit n);
  value_end = EndsInText-digits (decimal n) (decimal-IsDigit n);
}

IsHeader-fields_of :
    (c : HttpClient) → IsHeader (field (codes "Host") c.url_parts.host) → All IsHeader (fields_of c)
unfolding fields_of
IsHeader-fields_of c host = elim (Bool-cases (ltb 0 (body_len c.req) && tells_length c.method)) [
  | inl yes' ↦ rw yes' (
    host,
    (
      IsHeader-agent,
      (IsHeader-connection, (IsHeader-length (body_len c.req), (IsHeader-type, tt))),
    ),
  )
  | inr no' ↦ rw no' (host, (IsHeader-agent, (IsHeader-connection, tt)))
]

has_body_header-tells_length : (m : HttpMethod) → has_body_header m ≡ tells_length m
unfolding has_body_header
has_body_header-tells_length http_options = refl
has_body_header-tells_length http_get = refl
has_body_header-tells_length http_post = refl
has_body_header-tells_length http_put = refl
has_body_header-tells_length http_delete = refl
has_body_header-tells_length http_download = refl
has_body_header-tells_length http_invalid = refl

request_head-fields :
    (c : HttpClient) → request_head c ≡ start_of c ++ (b'\r' ∷ b'\n' ∷ render (fields_of c))
unfolding request_head fields_of
request_head-fields c = elim (Bool-cases (ltb 0 (body_len c.req) && tells_length c.method)) [
  | inl yes' ↦
      rw (has_body_header-tells_length c.method, yes')
        (ap
            (λ t.
              common_lines (method_str c.method) (path_or_root c.url_parts.path) c.url_parts.host
              ++ (codes "Content-Length: " ++ t))
            (append_assoc (decimal (body_len c.req))
              (codes "\r\nContent-Type: application/octet-stream\r\n") (codes "\r\n"))
          ∙ end_of_common (method_str c.method) (path_or_root c.url_parts.path) c.url_parts.host
              (length_fields (body_len c.req)))
  | inr no' ↦
      rw (has_body_header-tells_length c.method, no')
        (end_of_common (method_str c.method) (path_or_root c.url_parts.path) c.url_parts.host [])
]

-- The client knows four methods, and sends GET for every other.
abbrev pub method_sent : HttpMethod → HttpMethod
method_sent http_post = http_post
method_sent http_put = http_put
method_sent http_delete = http_delete
method_sent _ = http_get

string_to_enum-method_str : (m : HttpMethod) → string_to_enum (method_str m) ≡ method_sent m
unfolding string_to_enum method_str equal
string_to_enum-method_str http_options = refl
string_to_enum-method_str http_get = refl
string_to_enum-method_str http_post = refl
string_to_enum-method_str http_put = refl
string_to_enum-method_str http_delete = refl
string_to_enum-method_str http_download = refl
string_to_enum-method_str http_invalid = refl

-- No byte below `A` stands in a method.
Lacks-method_str : (b : ℕ) → b < b'A' → (m : HttpMethod) → Lacks b (method_str m)
unfolding method_str
Lacks-method_str b h http_options = ground arith
Lacks-method_str b h http_get = ground arith
Lacks-method_str b h http_post = ground arith
Lacks-method_str b h http_put = ground arith
Lacks-method_str b h http_delete = ground arith
Lacks-method_str b h http_download = ground arith
Lacks-method_str b h http_invalid = ground arith

-- Nor in the first line, where the target and the version do without it.
Lacks-start_of :
    (b : ℕ) (c : HttpClient)
    → b < b' '
    → Lacks b (path_or_root c.url_parts.path)
    → Lacks b (start_of c)
Lacks-start_of b c small h =
    All-append (λ x. x ≢ b) (method_str c.method)
      (codes " " ++ (path_or_root c.url_parts.path ++ codes " HTTP/1.1"))
      (Lacks-method_str b (omega (arith, small)) c.method)
      (
        ground (arith, small),
        All-append (λ x. x ≢ b) (path_or_root c.url_parts.path) (codes " HTTP/1.1") h
            (ground (arith, small)),
      )

start_of-line_with :
    (c : HttpClient) (path : Bytes) (params : Option (List HttpKeyValue))
    → path_or_root c.url_parts.path ≡ target_text path params
    → start_of c ≡ line_with (method_str c.method) path params (codes "HTTP/1.1")
start_of-line_with c path params e =
    ap (λ (t : Bytes). method_str c.method ++ (codes " " ++ (t ++ codes " HTTP/1.1"))) e

-- The first line, as `http_parser_first_line` reads it.
start_of-IsRead :
    (c : HttpClient) (path : Bytes) (params before : Option (List HttpKeyValue)) (req : HttpRequest)
    (m : Mem)
    → path_or_root c.url_parts.path ≡ target_text path params
    → IsTarget path params
    → Plentiful m
    → (out : Parsed) × (first_line (start_of c) req before m ≡ some out)
      × IsRead (method_sent c.method) path params (codes "HTTP/1.1") out
start_of-IsRead c path params before req m e t p =
    let line = start_of-line_with c path params e in
    let nul = Lacks-start_of 0 c (omega arith) (subst (Lacks 0) (sym e) t.no_nul) in
    let (out, is, h) =
      first_line-line_with (method_str c.method) path (codes "HTTP/1.1") params req before m
        (subst (Lacks 0) line nul) (Lacks-method_str b' ' (omega arith) c.method) t (λ no. cc no)
        p in
    (
      out,
      ap (λ (l : Bytes). first_line l req before m) line ∙ is,
      subst (λ (x : HttpMethod). IsRead x path params (codes "HTTP/1.1") out)
          (string_to_enum-method_str c.method) h,
    )

-- The request that the client builds is HTTP as this library reads it. Where the path that the
-- client uses is a target, without a query or with one of written parameters, and the host can
-- stand in a header, with memory granted: `http_parser_first_line` reads from the first line the
-- method, which is GET for every other than POST, PUT and DELETE, the path, the parameters and
-- HTTP/1.1; and `http_parser_headers` reads from what follows it the fields Host, User-Agent and
-- Connection and, for a POST or PUT with a body, its length and its type.
pub request_head-headers :
    (c : HttpClient) (path : Bytes) (params before : Option (List HttpKeyValue)) (req : HttpRequest)
    (m : Mem)
    → path_or_root c.url_parts.path ≡ target_text path params
    → IsTarget path params
    → IsHeader (field (codes "Host") c.url_parts.host)
    → Plentiful m
    → (n : ℕ) × (out : Parsed) × (find_line_end (request_head c) ≡ some n)
      × (first_line (take n (request_head c)) req before m ≡ some out)
      × IsRead (method_sent c.method) path params (codes "HTTP/1.1") out
      × Succeeded
          (fields_of c)
          (1 + 4 * length (fields_of c))
          m
          (headers (drop (n + 2) (request_head c)) m)
request_head-headers c path params before req m e t host p =
    let block = render (fields_of c) in
    let (out, is, read) = start_of-IsRead c path params before req m e t p in
    let no_cr = Lacks-start_of b'\r' c (omega arith) (subst (Lacks b'\r') (sym e) t.no_cr) in
    (
      length (start_of c),
      out,
      rw (request_head-fields c) (find_line_end-append (start_of c) block no_cr),
      ap (λ (l : Bytes). first_line l req before m)
            (rw (request_head-fields c) (take-length-append (start_of c) (b'\r' ∷ b'\n' ∷ block)))
          ∙ is,
      read,
      rw (request_head-fields c, drop_line (start_of c) block)
          (subst (λ b. Succeeded (fields_of c) (1 + 4 * length (fields_of c)) m (headers b m))
            (append-nil block) (headers-render (fields_of c) [] m (IsHeader-fields_of c host) p)),
    )
