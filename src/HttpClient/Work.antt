-- ===== src/HttpClient/Work.antt =====
-- The dispatch of the work tasks: one call of `http_client_taskwork` from the scheduler, the loop
-- of `http_blocking_work`, and `http_client_dispose`.
pub mod Decode
pub mod SplitEnd
pub mod Deliver
pub mod NoResult
pub mod BodyParts
pub mod Clock
use maestro_core.Base.{
  ℕ, zero, suc, ◌+◌, ◌-◌, ◌%◌, ◌^◌, Bool, true, false, not, ◌&&◌, Option, none, some, Bytes, ltb,
  leb, if◌then◌else◌,
}
use maestro_core.ErrorCode.{ErrorCode, success, err_timeout, err_io}
use maestro_core.HttpClient.{
  HttpClientState, initializing, connecting, waiting_connect, building_request, sending_request,
  reading_firstline, reading_headers, decipher_chonkiness, reading_body_chunked, reading_body,
  returning, disposing, error, HttpClient, World, Step, to, undefined,
}
use maestro_core.HttpClient.Body.{worktask_read_body, worktask_returning}
use maestro_core.HttpClient.Chunked.{worktask_decipher_chonkiness, worktask_read_body_chunked}
use maestro_core.HttpClient.Connect.{worktask_connecting, worktask_waiting_connect}
use maestro_core.HttpClient.Request.{worktask_build_request, worktask_send_request}
use maestro_core.HttpClient.Response.{worktask_read_firstline, worktask_read_headers}
use maestro_core.HttpParser.{
  block, request_blocks, response_blocks, dispose_request, dispose_response,
}
use maestro_core.Memory.{Mem, release}

-- The heap blocks that `http_client_dispose` frees.
unfoldable pub owned : HttpClient → ℕ
owned c =
    block c.url
    + (if c.req_allocated then request_blocks c.req + 1 else 0)
    + (if c.resp_allocated then response_blocks c.resp + 1 else 0)
    + block c.request_buffer
    + block c.decoded_body
    + block c.recv

-- The client after `http_client_dispose`. `http_parser_dispose` runs if either pointer is set.
unfoldable pub dispose : HttpClient → HttpClient
dispose c = record c {
  task = false;
  url = none;
  req = if c.req_allocated then dispose_request c.req else c.req;
  resp = if c.resp_allocated then dispose_response c.resp else c.resp;
  req_allocated = false;
  resp_allocated = false;
  request_buffer = none;
  decoded_body = none;
  decoded_body_len = elim c.decoded_body [ none ↦ c.decoded_body_len | some _ ↦ 0 ];
  recv = none;
}

-- `client->state = …`; `none` means that the behaviour of the step is undefined.
unfoldable pub enter : Step → Option (HttpClient × Mem)
enter (to s c m) = some (record c { state = s }, m)
enter undefined = none

-- `http_client_taskwork`: one step, where the clock allows it.
unfoldable pub work_in : HttpClientState → HttpClient → World → Mem → Option (HttpClient × Mem)
unfolding enter dispose owned
work_in initializing c w m = some (c, m)
work_in connecting c w m =
    if leb c.next_retry_at w.now then enter (worktask_connecting c w m) else some (c, m)
work_in waiting_connect c w m = enter (worktask_waiting_connect c w m)
work_in building_request c w m = enter (worktask_build_request c m)
work_in sending_request c w m =
    if leb c.next_retry_at w.now then enter (worktask_send_request c w m) else some (c, m)
work_in reading_firstline c w m =
    if leb c.next_retry_at w.now then enter (worktask_read_firstline c w m) else some (c, m)
work_in reading_headers c w m =
    if leb c.next_retry_at w.now then enter (worktask_read_headers c w m) else some (c, m)
work_in decipher_chonkiness c w m = enter (worktask_decipher_chonkiness c w m)
work_in reading_body_chunked c w m = enter (worktask_read_body_chunked c w m)
work_in reading_body c w m =
    if leb c.next_retry_at w.now then enter (worktask_read_body c w m) else some (c, m)
work_in returning c w m = enter (worktask_returning c m)
work_in error c w m = some (record c { state = disposing }, m)
work_in disposing c w m = some (dispose c, release (owned c) m)

unfoldable pub taskwork : HttpClient → World → Mem → Option (HttpClient × Mem)
unfolding work_in
taskwork c w m = work_in c.state c w m

-- The scheduler calls the task again and again; `w i` answers the calls of round `i`.
unfoldable pub work_rounds : ℕ → ℕ → (ℕ → World) → HttpClient → Mem → Option (HttpClient × Mem)
work_rounds zero i w c m = some (c, m)
work_rounds (suc f) i w c m = elim (taskwork c (w i) m) [
  | none ↦ none
  | some (c', m') ↦ work_rounds f (i + 1) w c' m'
]

-- One round of the switch in `http_blocking_work`: the next step, or the end of the call, where
-- `http_client_destroy` disposes of the client and frees it.
pub data Round : Type 0 where
  next : Step → Round
  done : ErrorCode → Round

unfoldable pub blocking_round : HttpClientState → HttpClient → World → Mem → Round
blocking_round connecting c w m = next (worktask_connecting c w m)
blocking_round building_request c w m = next (worktask_build_request c m)
blocking_round sending_request c w m = next (worktask_send_request c w m)
blocking_round reading_firstline c w m = next (worktask_read_firstline c w m)
blocking_round reading_headers c w m = next (worktask_read_headers c w m)
blocking_round decipher_chonkiness c w m = next (worktask_decipher_chonkiness c w m)
blocking_round reading_body_chunked c w m = next (worktask_read_body_chunked c w m)
blocking_round reading_body c w m = next (worktask_read_body c w m)
blocking_round returning c w m = next (worktask_returning c m)
blocking_round disposing c w m = done success
blocking_round _ c w m = done err_io

-- `_timeout_ms > 0 && ((int)now - start) > (uint64_t)_timeout_ms`: the cast keeps 32 bits of the
-- clock, as a signed number, and the difference is taken modulo 2^64.
unfoldable pub timed_out : ℕ → ℕ → ℕ → Bool
timed_out timeout_ms start now =
    let low = now % 2 ^ 32 in
    let as_int = if ltb low (2 ^ 31) then low else 2 ^ 64 - 2 ^ 32 + low in
    ltb 0 timeout_ms && ltb timeout_ms ((as_int + 2 ^ 64 - start) % 2 ^ 64)

-- What a blocking call comes to: its result with the caller's buffer and the heap, or undefined
-- behaviour, or it is still running when the fuel is used up.
pub data Blocking : Type 0 where
  finished : ErrorCode → Option (Option Bytes) → Mem → Blocking
  undefined_behaviour : Blocking
  running : Blocking

-- `http_client_destroy`: the client's own block is freed too.
unfoldable pub destroyed : ErrorCode → HttpClient → Mem → Blocking
unfolding owned
destroyed code c m = finished code c.blocking_out (release (owned c + 1) m)

-- The loop of `http_blocking_work`; `w i` answers the calls of round `i`.
unfoldable pub blocking_loop : ℕ → ℕ → (ℕ → World) → ℕ → HttpClient → Mem → Blocking
unfolding destroyed timed_out blocking_round
blocking_loop zero i w start c m = running
blocking_loop (suc f) i w start c m =
    if timed_out c.timeout_ms start (w i).now
    then destroyed err_timeout c m
    else elim (blocking_round c.state c (w i) m) [
      | done code ↦ destroyed code c m
      | next step ↦ elim step [
        | undefined ↦ undefined_behaviour
        | to s c' m' ↦ blocking_loop f (i + 1) w start (record c' { state = s }) m'
      ]
    ]
