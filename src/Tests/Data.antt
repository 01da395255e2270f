-- ===== src/Tests/Data.antt =====
-- The concrete values of the tests.
use maestro_core.Base.{ℕ, true, false, none, some, [], ◌∷◌, refl, Bytes, codes, arith}
use maestro_core.HttpClient.{HttpClient, initializing, World}
use maestro_core.HttpClient.{got, took}
use maestro_core.ErrorCode.{success}
use maestro_core.HttpParser.Headers.RoundTrip.{IsHeader}
use maestro_core.HttpParser.Url.{UrlParts}
use maestro_core.HttpParser.{HttpKeyValue, HttpRequest, HttpResponse, http_get}
use maestro_core.Memory.{Mem, Plentiful}

abbrev pub heap : Mem
heap = record { grants = λ _. true; asked = 0; live = 0 }

pub heap-Plentiful : Plentiful heap
heap-Plentiful n = refl

abbrev pub entry : Bytes → Bytes → HttpKeyValue
entry k v = record { key = k; value = v }

abbrev pub content_length : HttpKeyValue
content_length = entry (codes "Content-Length") (codes "5")

abbrev pub server : HttpKeyValue
server = entry (codes "Server") (codes "m 1")

pub content_length-IsHeader : IsHeader content_length
content_length-IsHeader = ground arith

pub server-IsHeader : IsHeader server
server-IsHeader = ground arith

abbrev pub no_request : HttpRequest
no_request = record {
  method_str = none;
  path = none;
  query = none;
  version = none;
  body = none;
  params = none;
  headers = none;
  method = http_get;
  params_count = 0;
  firstline_len = 0;
  headers_len = 0;
  body_len = 0;
}

abbrev pub no_response : HttpResponse
no_response = record {
  firstline = none;
  headers = none;
  body = none;
  full_response = none;
  version = none;
  reason_phrase = none;
  status_code_string = none;
  status_code = 0;
}

abbrev pub parts : UrlParts
parts = record {
  scheme = codes "http";
  host = codes "maestro.se";
  port = codes "8080";
  path = codes "/v1/prices";
}

abbrev pub client : HttpClient
client = record {
  url = some (codes "http://maestro.se:8080/v1/prices");
  url_parts = parts;
  next_retry_at = 0;
  bytes_sent = 0;
  decoded_body = none;
  decoded_body_len = 0;
  task = true;
  req_allocated = true;
  resp_allocated = true;
  req = no_request;
  resp = no_response;
  on_success = true;
  delivered = [];
  request_buffer = none;
  recv = none;
  blocking_out = none;
  request_length = 0;
  retries = 0;
  content_length = 0;
  chunk_remaining = 0;
  timeout_ms = 0;
  state = initializing;
  method = http_get;
  blocking_mode = false;
}

-- The peer sends `t` at each read and takes one byte at each write.
abbrev pub world : ℕ → Bytes → World
world now t = record {
  transport_read = λ _. got t;
  transport_write = λ s. elim s [ [] ↦ took 0 | ◌∷◌ c r ↦ took 1 ];
  transport_init = λ _ _ _. success;
  transport_finish_connect = success;
  connect_pending = false;
  now = now;
}
