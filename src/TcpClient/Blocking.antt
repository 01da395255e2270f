-- ===== src/TcpClient/Blocking.antt =====
-- `tcp_client_blocking_init` and what it waits with, `tcp_client_connect_step`.
use maestro_core.Base.{ℕ, true, false, Option, none, some, List, [], ◌∷◌, Bytes, if◌then◌else◌}
use maestro_core.ErrorCode.{ErrorCode, success, err_invalid_arg, err_io, err_timeout, err_busy}
use maestro_core.TcpClient.{
  TcpClient, Errno, einprogress, ealready, eisconn, Table, open_socket, close, Retried, lasting,
  Polled, writable, timed_out, poll_failed, SocketError, not_read, pending, no_error, Address,
  set_nonblocking, is_success, Opened, at_address, cleared, Resolver,
}

unfoldable pub poll_result : Polled → ErrorCode
poll_result writable = success
poll_result timed_out = err_timeout
poll_result poll_failed = err_io

-- `tcp_client_wait_writable`
unfoldable pub wait_writable : Retried Polled → ErrorCode
unfolding lasting poll_result
wait_writable p = poll_result (lasting p)

-- `tcp_client_finish_connect`
unfoldable pub finish_connect : SocketError → ErrorCode
finish_connect not_read = err_io
finish_connect pending = err_io
finish_connect no_error = success

-- `last_err` behind the call of `connect` in `tcp_client_blocking_init`.
unfoldable pub await_connect : Address → ErrorCode
await_connect a =
    let w = wait_writable a.poll in if is_success w then finish_connect a.so_error else w

unfoldable pub connect_failed : Errno → Address → ErrorCode → ErrorCode
connect_failed einprogress a last = await_connect a
connect_failed ealready a last = await_connect a
connect_failed eisconn a last = success
connect_failed _ a last = last

unfoldable pub connected : Address → ErrorCode → ErrorCode
connected a last = elim (lasting a.connect) [ none ↦ success | some e ↦ connect_failed e a last ]

pub data BlockingTried : Type 0 where
  next_blocking : ErrorCode → TcpClient → Table → BlockingTried
  keep_blocking : ℕ → TcpClient → Table → BlockingTried

-- The socket is set back to blocking, or given up.
unfoldable pub settle : Address → ℕ → TcpClient → Table → BlockingTried
settle a n c t =
    let r = set_nonblocking a.getfl_back a.setfl_back n false t in
    if is_success r.0 then keep_blocking n c r.1 else next_blocking err_io c (close n r.1)

unfoldable pub try_blocking : Address → ErrorCode → TcpClient → Table → BlockingTried
unfolding settle
try_blocking a last c t = elim a.socket [
  | none ↦ next_blocking last c t
  | some n ↦
      let r = set_nonblocking a.getfl a.setfl n true (open_socket n t) in
      let e = connected a last in
      if is_success r.0
      then if is_success e
        then settle a n (at_address a.sockaddr c) r.1
        else next_blocking e c (close n r.1)
      else next_blocking last c (close n r.1)
]

unfoldable pub connect_blocking : List Address → ErrorCode → TcpClient → Table → Opened
connect_blocking [] last c t = record { result = last; client = c; table = t }
connect_blocking (a ∷ l) last c t = elim (try_blocking a last c t) [
  | next_blocking e c' t' ↦ connect_blocking l e c' t'
  | keep_blocking n c' t' ↦ record {
    result = success;
    client = record c' { fd = some n };
    table = t';
  }
]

unfoldable pub blocking_init : Resolver → TcpClient → Option Bytes → Option Bytes → Table → Opened
blocking_init resolve c (some host) (some port) t =
    let c' : TcpClient = record (cleared c) { has_remote_addr = false } in
    elim (resolve host port) [
      | none ↦ record { result = err_io; client = c'; table = t }
      | some l ↦ connect_blocking l err_io c' t
    ]
blocking_init resolve c host port t = record { result = err_invalid_arg; client = c; table = t }

-- `tcp_client_connect_step`, where `connect` answers `r`.
step_result : Option Errno → ErrorCode
step_result none = success
step_result (some eisconn) = success
step_result (some einprogress) = err_busy
step_result (some ealready) = err_busy
step_result (some _) = err_io

unfoldable pub connect_step : TcpClient → Option Errno → ErrorCode
unfolding step_result
connect_step c r = elim c.fd [
  | none ↦ err_invalid_arg
  | some n ↦ if c.has_remote_addr then step_result r else err_invalid_arg
]
