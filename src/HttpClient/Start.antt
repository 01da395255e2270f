-- ===== src/HttpClient/Start.antt =====
-- How a client comes to be: `http_client_initiate` for the scheduler, and the beginning of
-- `http_blocking_work` with the two calls that lead to it.
pub mod Refused
use maestro_core.Base.{
  ℕ, ◌+◌, Bool, true, false, not, ◌&&◌, Option, none, some, List, [], ◌∷◌, Bytes, length, ltb,
  if◌then◌else◌,
}
use maestro_core.ErrorCode.{ErrorCode, success, err_no_memory, err_busy, err_invalid_arg}
use maestro_core.HttpClient.Work.{owned, Blocking, finished, destroyed, blocking_loop}
use maestro_core.HttpClient.{HttpClient, World, initializing, connecting}
use maestro_core.HttpParser.Url.{no_parts}
use maestro_core.HttpParser.{
  HttpMethod, http_get, http_post, http_options, HttpRequest, HttpResponse,
}
use maestro_core.Memory.{Mem, granted, attempt, release}
use maestro_core.Scheduler.{Scheduler, create_task, destroy_task}

-- A request and a response as `calloc` gives them.
abbrev pub new_request : HttpRequest
new_request = record {
  method_str = none;
  path = none;
  query = none;
  version = none;
  body = none;
  params = none;
  headers = none;
  method = http_options;
  params_count = 0;
  firstline_len = 0;
  headers_len = 0;
  body_len = 0;
}

abbrev pub new_response : HttpResponse
new_response = record {
  firstline = none;
  headers = none;
  body = none;
  full_response = none;
  version = none;
  reason_phrase = none;
  status_code_string = none;
  status_code = 0;
}

pub record Initiated : Type 0 where
  pub code : ErrorCode
  pub client : HttpClient
  pub tasks : Scheduler
  pub mem : Mem

-- The fields that `http_client_initiate` sets. Those of the method and of the request buffer are
-- not among them.
abbrev pub started : HttpClient → Bytes → Bool → ℕ → HttpClient
started c url on_success now = record c {
  task = true;
  on_success = on_success;
  resp = new_response;
  resp_allocated = true;
  req = new_request;
  req_allocated = true;
  url = some url;
  state = connecting;
  request_length = 0;
  bytes_sent = 0;
  retries = 0;
  next_retry_at = now;
  url_parts = no_parts;
  timeout_ms = 0;
  decoded_body = none;
  decoded_body_len = 0;
  recv = none;
  blocking_out = none;
  blocking_mode = false;
  content_length = 0;
  chunk_remaining = 0;
}

-- With the request and the response allocated and a slot asked for.
with_slot : Option ℕ × Scheduler → HttpClient → Bytes → Bool → ℕ → Scheduler → Mem → Initiated
with_slot (none, tasks') c url on_success now tasks m = record {
  code = err_busy;
  client = record c { task = false };
  tasks = tasks';
  mem = release 2 m;
}
with_slot (some i, tasks') c url on_success now tasks m =
    if granted m
    then record {
      code = success;
      client = started c url on_success now;
      tasks = tasks';
      mem = attempt m;
    }
    else record {
      code = err_no_memory;
      client = record c { task = false };
      tasks = destroy_task i tasks';
      mem = release 2 (attempt m);
    }

-- `self` is the address of the client and `work` that of `http_client_taskwork`.
unfoldable pub initiate :
    ℕ → ℕ → HttpClient → Bytes → HttpMethod → Bool → ℕ → Scheduler → Mem → Initiated
unfolding with_slot
initiate self work c url method on_success now tasks m =
    if not (granted m)
    then record { code = err_no_memory; client = c; tasks = tasks; mem = attempt m }
    else if not (granted (attempt m))
    then record { code = err_no_memory; client = c; tasks = tasks; mem = attempt (attempt m) }
    else with_slot (create_task (some self) (some work) tasks) c url on_success now tasks
        (attempt (attempt m))

-- The client of `http_blocking_work` once its three parts have been asked for.
abbrev pub blocking_client :
    Bytes → HttpMethod → Option (Option Bytes) → ℕ → Bool → Bool → Bool → HttpClient
blocking_client url method out timeout_ms has_url has_req has_resp = record {
  url = if has_url then some url else none;
  url_parts = no_parts;
  next_retry_at = 0;
  bytes_sent = 0;
  decoded_body = none;
  decoded_body_len = 0;
  task = false;
  req_allocated = has_req;
  resp_allocated = has_resp;
  req = new_request;
  resp = new_response;
  on_success = false;
  delivered = [];
  request_buffer = none;
  recv = none;
  blocking_out = out;
  request_length = 0;
  retries = 0;
  content_length = 0;
  chunk_remaining = 0;
  timeout_ms = timeout_ms;
  state = initializing;
  method = method;
  blocking_mode = true;
}

-- `in_body` is copied where it is not empty; then the loop begins.
with_body : ℕ → (ℕ → World) → ℕ → Bytes → HttpClient → Mem → Blocking
with_body fuel w start [] c m = blocking_loop fuel 0 w start (record c { state = connecting }) m
with_body fuel w start (b ∷ s) c m =
    if granted m
    then blocking_loop fuel 0 w start
        (record c {
          req = record (c.req) { body = some (b ∷ s); body_len = length (b ∷ s) };
          state = connecting;
        })
        (attempt m)
    else destroyed err_no_memory c (attempt m)

unfoldable pub blocking_work :
    ℕ → (ℕ → World) → ℕ → Bytes → HttpMethod → Bytes → Option (Option Bytes) → ℕ → Mem → Blocking
unfolding with_body
blocking_work fuel w start url method in_body out timeout_ms m =
    let m1 = attempt m in
    let m2 = attempt m1 in
    let m3 = attempt m2 in
    let c = blocking_client url method out timeout_ms (granted m1) (granted m2) (granted m3) in
    if granted m
    then (if granted m1 && granted m2 && granted m3
        then with_body fuel w start in_body c (attempt m3)
        else destroyed err_no_memory c (attempt m3))
    else finished err_no_memory out m1

-- A NULL for the result is `none`.
unfoldable pub blocking_get :
    ℕ → (ℕ → World) → ℕ → Bytes → Option (Option Bytes) → ℕ → Mem → Blocking
blocking_get fuel w start url none timeout_ms m = finished err_invalid_arg none m
blocking_get fuel w start url (some _) timeout_ms m =
    blocking_work fuel w start url http_get [] (some none) timeout_ms m

unfoldable pub blocking_post :
    ℕ → (ℕ → World) → ℕ → Bytes → Bytes → Option (Option Bytes) → ℕ → Mem → Blocking
blocking_post fuel w start url in_body none timeout_ms m =
    blocking_work fuel w start url http_post in_body none timeout_ms m
blocking_post fuel w start url in_body (some _) timeout_ms m =
    blocking_work fuel w start url http_post in_body (some none) timeout_ms m
