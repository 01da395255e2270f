-- ===== src/HttpClient.antt =====
-- modules/src/http_client.c and modules/include/maestromodules/http_client.h: the state of the
-- client, the answers of the transport that it calls, and the outcome of one work step.
pub mod Connect
pub mod Request
pub mod Response
pub mod Chunked
pub mod Body
pub mod Work
pub mod Start
use maestro_core.Base.{
  ℕ, ◌+◌, ◌-◌, ◌%◌, ◌^◌, Bool, Option, none, some, List, [], Bytes, ltb, if◌then◌else◌,
}
use maestro_core.ErrorCode.{ErrorCode}
use maestro_core.HttpParser.{HttpMethod, HttpRequest, HttpResponse}
use maestro_core.HttpParser.Url.{UrlParts}
use maestro_core.Memory.{Mem}

pub data HttpClientState : Type 0 where
  initializing connecting waiting_connect building_request sending_request : HttpClientState
  reading_firstline reading_headers decipher_chonkiness : HttpClientState
  reading_body_chunked reading_body returning disposing error : HttpClientState

-- `recv` is `recv_buf`, that is `resp_buf`: `none` for a NULL address, else the `size` bytes.
-- `req_allocated` and `resp_allocated` say that the pointers are not NULL, `task` that the
-- scheduler has a task. `request_length` is an `int` that is only read as a `size_t`, and is kept
-- as that. `delivered` records what the callback `on_success` has been given.
pub record HttpClient : Type 0 where
  pub url : Option Bytes
  pub url_parts : UrlParts
  pub next_retry_at : ℕ
  pub bytes_sent : ℕ
  pub decoded_body : Option Bytes
  pub decoded_body_len : ℕ
  pub task : Bool
  pub req_allocated : Bool
  pub resp_allocated : Bool
  pub req : HttpRequest
  pub resp : HttpResponse
  pub on_success : Bool
  pub delivered : List Bytes
  pub request_buffer : Option Bytes
  pub recv : Option Bytes
  pub blocking_out : Option (Option Bytes)
  pub request_length : ℕ
  pub retries : ℕ
  pub content_length : ℕ
  pub chunk_remaining : ℕ
  pub timeout_ms : ℕ
  pub state : HttpClientState
  pub method : HttpMethod
  pub blocking_mode : Bool

-- What `transport_read` gives: bytes, 0, -1 with `errno` one of EAGAIN, EWOULDBLOCK, EINTR, or
-- another failure.
pub data Read : Type 0 where
  got : Bytes → Read
  closed : Read
  again : Read
  broken : Read

-- The same for `transport_write`, which gives the number of bytes it took.
pub data Written : Type 0 where
  took : ℕ → Written
  again : Written
  broken : Written

-- The answers of the transport and the clock to the calls of one work step.
pub record World : Type 0 where
  pub transport_read : ℕ → Read
  pub transport_write : Bytes → Written
  pub transport_init : UrlParts → ℕ → Bool → ErrorCode
  pub transport_finish_connect : ErrorCode
  pub connect_pending : Bool
  pub now : ℕ

-- A work step gives the next state, or its behaviour is undefined: a write past the end of a
-- local array, a read past the end of a buffer, a NULL dereference.
pub data Step : Type 0 where
  to : HttpClientState → HttpClient → Mem → Step
  undefined : Step

-- `(size_t)(int)val`, from a 64-bit value.
unfoldable pub int_to_size : ℕ → ℕ
int_to_size val = let low = val % 2 ^ 32 in if ltb low (2 ^ 31) then low else 2 ^ 64 - 2 ^ 32 + low
