-- ===== src/HttpParser.antt =====
-- modules/src/http_parser.c and modules/include/maestromodules/http_parser.h: the data of the
-- parser and what disposes of it. A string that the C code holds by pointer is an `Option`.
pub mod Scan
pub mod Method
pub mod Query
pub mod FirstLine
pub mod Response
pub mod Headers
pub mod Url
use maestro_core.Base.{ℕ, ◌+◌, ◌*◌, Option, none, some, List, Bytes, length}

pub data HttpMethod : Type 0 where
  http_options http_get http_post http_put http_delete http_download http_invalid : HttpMethod

pub record HttpKeyValue : Type 0 where
  pub key : Bytes
  pub value : Bytes

pub record HttpRequest : Type 0 where
  pub method_str : Option Bytes
  pub path : Option Bytes
  pub query : Option Bytes
  pub version : Option Bytes
  pub body : Option Bytes
  pub params : Option (List HttpKeyValue)
  pub headers : Option (List HttpKeyValue)
  pub method : HttpMethod
  pub params_count : ℕ
  pub firstline_len : ℕ
  pub headers_len : ℕ
  pub body_len : ℕ

pub record HttpResponse : Type 0 where
  pub firstline : Option Bytes
  pub headers : Option Bytes
  pub body : Option Bytes
  pub full_response : Option Bytes
  pub version : Option Bytes
  pub reason_phrase : Option Bytes
  pub status_code_string : Option Bytes
  pub status_code : ℕ

-- The heap blocks behind a pointer: none behind NULL.
abbrev pub block : Option Bytes → ℕ
block none = 0
block (some _) = 1

-- The blocks that `http_parser_dispose_linked_list` frees: the list, and for each entry its node,
-- the pair, the key and the value.
abbrev pub list_blocks : Option (List HttpKeyValue) → ℕ
list_blocks none = 0
list_blocks (some l) = 1 + 4 * length l

-- The blocks that `http_parser_dispose` frees for a request, and the request behind it.
abbrev pub request_blocks : HttpRequest → ℕ
request_blocks r =
    block r.method_str
    + block r.path
    + block r.query
    + block r.version
    + block r.body
    + list_blocks r.params
    + list_blocks r.headers

abbrev pub dispose_request : HttpRequest → HttpRequest
dispose_request r = record r {
  method_str = none;
  path = none;
  query = none;
  version = none;
  body = none;
  params = none;
  headers = none;
}

-- The same for a response.
abbrev pub response_blocks : HttpResponse → ℕ
response_blocks r =
    block r.firstline
    + block r.headers
    + block r.body
    + block r.full_response
    + block r.version
    + block r.reason_phrase
    + block r.status_code_string

abbrev pub dispose_response : HttpResponse → HttpResponse
dispose_response r = record r {
  firstline = none;
  headers = none;
  body = none;
  full_response = none;
  version = none;
  reason_phrase = none;
  status_code_string = none;
}
