-- ===== src/TcpClient/Init.antt =====
-- `tcp_client_init` and `tcp_client_init_ptr`.
use maestro_core.Base.{
  ℕ, Bool, true, false, Option, none, some, List, [], ◌∷◌, Bytes, if◌then◌else◌,
}
use maestro_core.ErrorCode.{
  ErrorCode, success, err_invalid_arg, err_io, err_in_progress, err_no_memory,
}
use maestro_core.Memory.{Mem, granted, attempt, release}
use maestro_core.TcpClient.{
  TcpClient, Errno, eintr, einprogress, Table, open_socket, close, Retried, interrupted, answers,
  Address, set_nonblocking, is_success, Opened, at_address, cleared, Resolver,
}

-- `connect` as the first call answers it.
unfoldable pub first_answer : Retried (Option Errno) → Option Errno
first_answer (interrupted r) = some eintr
first_answer (answers a) = a

unfoldable pub is_in_progress : Errno → Bool
is_in_progress einprogress = true
is_in_progress _ = false

-- A round of the loop over the addresses: it goes on, or the socket is kept.
pub data Tried : Type 0 where
  next : Table → Tried
  keep : ℕ → ErrorCode → Table → Tried

unfoldable pub connect_once : Address → ℕ → Table → Tried
unfolding first_answer is_in_progress
connect_once a n t = elim (first_answer a.connect) [
  | none ↦ keep n success t
  | some e ↦ if is_in_progress e then keep n err_in_progress t else next (close n t)
]

unfoldable pub try_address : Address → Table → Tried
unfolding connect_once
try_address a t = elim a.socket [
  | none ↦ next t
  | some n ↦
      let r = set_nonblocking a.getfl a.setfl n true (open_socket n t) in
      if is_success r.0 then connect_once a n r.1 else next (close n r.1)
]

-- The loop of `tcp_client_init`, and what follows it.
unfoldable pub connect_any : List Address → TcpClient → Table → Opened
connect_any [] c t = record { result = err_io; client = c; table = t }
connect_any (a ∷ l) c t = elim (try_address a t) [
  | next t' ↦ connect_any l c t'
  | keep n e t' ↦ record {
    result = e;
    client = record (at_address a.sockaddr c) { fd = some n };
    table = t';
  }
]

unfoldable pub init : Resolver → TcpClient → Option Bytes → Option Bytes → Table → Opened
init resolve c (some host) (some port) t = elim (resolve host port) [
  | none ↦ record { result = err_io; client = cleared c; table = t }
  | some l ↦ connect_any l (cleared c) t
]
init resolve c host port t = record { result = err_invalid_arg; client = c; table = t }

-- `tcp_client_init_ptr`: `fresh` is what `malloc` returns, the client is `none` on an error.
unfoldable pub init_ptr :
    Resolver
    → TcpClient
    → Option Bytes
    → Option Bytes
    → Table
    → Mem
    → ErrorCode × Option TcpClient × Table × Mem
init_ptr resolve fresh host port t m =
    let r = init resolve fresh host port t in
    if granted m
    then if is_success r.result
      then (success, some r.client, r.table, attempt m)
      else (r.result, none, r.table, release 1 (attempt m))
    else (err_no_memory, none, t, attempt m)
