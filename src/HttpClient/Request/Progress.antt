-- ===== src/HttpClient/Request/Progress.antt =====
-- What `http_client_worktask_send_request` keeps while the transport takes the request in parts.
use maestro_core.Base.{
  ℕ, zero, suc, ◌+◌, false, ltb, subst, ◌≤◌, ◌≡◌, refl, arith, Bytes, length, drop, length-drop,
}
use maestro_core.HttpClient.Request.{sent, worktask_send_request}
use maestro_core.HttpClient.{
  HttpClient, reading_firstline, sending_request, error, Written, took, again, broken, World, Step,
  to,
}
use maestro_core.Memory.{Mem}
use maestro_core.StringUtils.{contents}

-- `transport_write` takes no more bytes than it is given.
abbrev pub Honest : World → Type 0
Honest w = (s : Bytes) (n : ℕ) → w.transport_write s ≡ took n → n ≤ length s

pub record Sending (c : HttpClient) : Type 0 where
  pub length_is : length (contents c.request_buffer) ≡ c.request_length
  pub sent_le : c.bytes_sent ≤ c.request_length

-- A call that takes nothing or breaks has failed; one that is to be made again has not.
abbrev pub failures : Written → ℕ
failures (took zero) = 1
failures (took (suc n)) = 0
failures again = 0
failures broken = 1

-- What `transport_write` answers to a call of the task.
abbrev pub answer : HttpClient → World → Written
answer c w = w.transport_write (drop c.bytes_sent (contents c.request_buffer))

-- The client goes on to the answer only when the last byte is sent, and stays with its request
-- buffer otherwise, of which no byte is sent again; every failed call is counted, once, and no
-- other; it gives up only on a broken call after three that were counted.
abbrev pub Progress : HttpClient → Written → Step → Type 0
Progress c r (to reading_firstline c' m) = Sending c' × (c'.bytes_sent ≡ c'.request_length)
Progress c r (to sending_request c' m) =
    Sending c'
    × (c.bytes_sent ≤ c'.bytes_sent)
    × (c'.request_buffer ≡ c.request_buffer)
    × (c'.retries ≡ c.retries + failures r)
Progress c r (to error c' m) = (r ≡ broken) × (3 ≤ c.retries) × (c' ≡ c)
Progress c r _ = ⊥

pub send_request-Progress :
    (c : HttpClient) (w : World) (m : Mem)
    → Sending c
    → Honest w
    → Progress c (answer c w) (worktask_send_request c w m)
unfolding worktask_send_request sent
send_request-Progress c w m s honest =
    rw (inside (length (contents c.request_buffer)) c.request_length s.length_is)
      (cases (answer c w) refl)
  where
    inside : (a b : ℕ) → a ≡ b → ltb a b ≡ false
    inside a b h = ground (arith, h)

    cases : (r : Written) → answer c w ≡ r → Progress c r (sent r c w m)
    cases (took zero) e = ground arith
    cases (took (suc n)) e = ground (
      arith,
      honest (drop c.bytes_sent (contents c.request_buffer)) (suc n) e,
      length-drop c.bytes_sent (contents c.request_buffer),
    )
    cases again e = ground arith
    cases broken e = ground arith

-- The client `c` has come from `c0` by calls of the task that each stay in SENDING_REQUEST, of which
-- `f` failed.
pub data Sends (c0 : HttpClient) : ℕ → HttpClient → Type 0 where
  no_call : Sends c0 0 c0
  one_more :
      {f : ℕ} {c : HttpClient} (c' : HttpClient) (w : World) (m m' : Mem)
      → Sends c0 f c
      → Honest w
      → worktask_send_request c w m ≡ to sending_request c' m'
      → Sends c0 (f + failures (answer c w)) (record c' { state = sending_request })

Sends-retries :
    {c0 c : HttpClient} {f : ℕ}
    → Sending c0
    → Sends c0 f c
    → Sending c × (c.retries ≡ c0.retries + f)
Sends-retries s no_call = (s, omega arith)
Sends-retries {c0} s (one_more {f} {c} c' w m m' run honest is) =
    let (sending, counted) = Sends-retries s run in
    let (kept, _, _, more) =
      subst (Progress c (answer c w)) is (send_request-Progress c w m sending honest) in
    (record { length_is = kept.length_is; sent_le = kept.sent_le }, omega (arith, counted, more))

-- From `retries` 0, with a transport that takes no more than it is given: when a call of
-- `http_client_worktask_send_request` gives ERROR, that call of the transport broke, and at least
-- three of the calls before it took nothing or broke.
pub error_after_failures :
    (c0 c c' : HttpClient) (f : ℕ) (w : World) (m m' : Mem)
    → Sending c0
    → c0.retries ≡ 0
    → Sends c0 f c
    → Honest w
    → worktask_send_request c w m ≡ to error c' m'
    → (3 ≤ f) × (answer c w ≡ broken)
error_after_failures c0 c c' f w m m' s fresh run honest is =
    let (sending, counted) = Sends-retries s run in
    let (broke, enough, _) =
      subst (Progress c (answer c w)) is (send_request-Progress c w m sending honest) in
    (omega (arith, counted, enough, fresh), broke)
