-- ===== src/TcpClient/Descriptors/Blocking.antt =====
-- The descriptors behind a call of `tcp_client_blocking_init`.
use maestro_core.Base.{
  ℕ, true, false, none, some, List, [], ◌∷◌, Bytes, ◌≡◌, refl, arith, ◌⊎◌, inl, inr, Bool-cases,
  Option-cases, if◌then◌else◌, ap, sym, ◌∙◌, subst,
}
use maestro_core.ErrorCode.{ErrorCode, success, err_io}
use maestro_core.TcpClient.{
  lasting, Polled, SocketError, Errno, writable, timed_out, poll_failed, not_read, pending,
  no_error, einprogress, ealready, eisconn, TcpClient, Table, close, Address, is_success, cleared,
  Resolver, at_address,
}
use maestro_core.TcpClient.Blocking.{
  poll_result, wait_writable, finish_connect, await_connect, connect_failed, BlockingTried,
  next_blocking, keep_blocking, connected, settle, try_blocking, connect_blocking, blocking_init,
}
use maestro_core.TcpClient.Descriptors.{
  with_mode, close-with_mode, set_nonblocking-head, IsFailure, Accounted, refused, opened,
  Accounted-more, given,
}

-- A round of the blocking loop.
data BlockingWell (a : Address) (t : Table) (r : BlockingTried) : Type 0 where
  went_on :
      (e : ErrorCode) (c : TcpClient)
      → r ≡ next_blocking e c t
      → IsFailure e
      → c.fd ≡ none
      → BlockingWell a t r
  kept :
      (n : ℕ) (c : TcpClient)
      → r ≡ keep_blocking n c (with_mode n false t)
      → a.socket ≡ some n
      → c.remote_addr ≡ a.sockaddr
      → c.has_remote_addr ≡ true
      → BlockingWell a t r

-- Success, or one of the errors that leave no descriptor.
abbrev IsOutcome : ErrorCode → Type 0
IsOutcome e = (e ≡ success) ⊎ IsFailure e

poll_result-IsOutcome : (p : Polled) → IsOutcome (poll_result p)
unfolding poll_result
poll_result-IsOutcome writable = inl refl
poll_result-IsOutcome timed_out = inr (inr refl)
poll_result-IsOutcome poll_failed = inr (inl refl)

finish_connect-IsOutcome : (s : SocketError) → IsOutcome (finish_connect s)
unfolding finish_connect
finish_connect-IsOutcome not_read = inr (inl refl)
finish_connect-IsOutcome pending = inr (inl refl)
finish_connect-IsOutcome no_error = inl refl

await_connect-IsOutcome : (a : Address) → IsOutcome (await_connect a)
unfolding await_connect wait_writable
await_connect-IsOutcome a = elim (Bool-cases (is_success (poll_result (lasting a.poll)))) [
  | inl h ↦ rw h (finish_connect-IsOutcome a.so_error)
  | inr h ↦ rw h (poll_result-IsOutcome (lasting a.poll))
]

connect_failed-IsOutcome :
    (e : Errno) (a : Address) (last : ErrorCode)
    → IsFailure last
    → IsOutcome (connect_failed e a last)
unfolding connect_failed
connect_failed-IsOutcome einprogress a last h = await_connect-IsOutcome a
connect_failed-IsOutcome ealready a last h = await_connect-IsOutcome a
connect_failed-IsOutcome eisconn a last h = inl refl
connect_failed-IsOutcome e a last h = inr h

connected-IsOutcome :
    (a : Address) (last : ErrorCode) → IsFailure last → IsOutcome (connected a last)
unfolding connected
connected-IsOutcome a last h = elim (Option-cases (lasting a.connect)) [
  | inl is ↦ rw (is, connected) (inl refl)
  | inr (e, is) ↦ rw (is, connected) (connect_failed-IsOutcome e a last h)
]

failure-no_success : (e : ErrorCode) → IsFailure e → is_success e ≡ false
unfolding is_success
failure-no_success e (inl h) = ap is_success h
failure-no_success e (inr h) = ap is_success h

success_known : (e : ErrorCode) → e ≡ success → is_success e ≡ true
unfolding is_success
success_known e h = ap is_success h

settle-BlockingWell :
    (a : Address) (n : ℕ) (c : TcpClient) (t : Table)
    → c.fd ≡ none
    → a.socket ≡ some n
    → BlockingWell a t (settle a n (at_address a.sockaddr c) (with_mode n true t))
unfolding settle is_success
settle-BlockingWell a n c0 t e s =
    let c = at_address a.sockaddr c0 in
    elim (set_nonblocking-head a.getfl_back a.setfl_back n true false t) [
      | inl is ↦ kept n c (ground (arith, is)) s refl refl
      | inr is ↦
          let found : settle a n c (with_mode n true t)
              ≡ next_blocking err_io c (close n (with_mode n true t)) =
            ground (arith, is) in
          went_on err_io c (found ∙ ap (next_blocking err_io c) (close-with_mode n true t))
            (inl refl) e
    ]

-- Where the socket could be made non-blocking.
settled-BlockingWell :
    (a : Address) (n : ℕ) (last : ErrorCode) (c : TcpClient) (t : Table)
    → IsFailure last
    → c.fd ≡ none
    → a.socket ≡ some n
    → BlockingWell a t (
        if is_success (connected a last)
        then settle a n (at_address a.sockaddr c) (with_mode n true t)
        else next_blocking (connected a last) c (close n (with_mode n true t)))
settled-BlockingWell a n last c t h e s = elim (connected-IsOutcome a last h) [
  | inl ok ↦ rw (success_known (connected a last) ok) (settle-BlockingWell a n c t e s)
  | inr bad ↦ rw (failure-no_success (connected a last) bad) (
      went_on (connected a last) c
        (ap (next_blocking (connected a last) c) (close-with_mode n true t)) bad e)
]

try_blocking-BlockingWell :
    (a : Address) (last : ErrorCode) (c : TcpClient) (t : Table)
    → IsFailure last
    → c.fd ≡ none
    → BlockingWell a t (try_blocking a last c t)
unfolding try_blocking is_success
try_blocking-BlockingWell a last c t h e = elim (Option-cases a.socket) [
  | inl is ↦ went_on last c (ground (arith, is)) h e
  | inr (n, is) ↦ elim (set_nonblocking-head a.getfl a.setfl n false true t) [
    | inl ok ↦
        let found : try_blocking a last c t ≡ (
            if is_success (connected a last)
            then settle a n (at_address a.sockaddr c) (with_mode n true t)
            else next_blocking (connected a last) c (close n (with_mode n true t))) =
          ground (arith, is, ok) in
        subst (BlockingWell a t) (sym found) (settled-BlockingWell a n last c t h e is)
    | inr bad ↦
        let found : try_blocking a last c t ≡ next_blocking last c (close n (with_mode n false t)) =
          ground (arith, is, bad) in
        went_on last c (found ∙ ap (next_blocking last c) (close-with_mode n false t)) h e
  ]
]

connect_blocking-Accounted :
    (l : List Address) (last : ErrorCode) (c : TcpClient) (t : Table)
    → IsFailure last
    → c.fd ≡ none
    → Accounted l false t (connect_blocking l last c t)
unfolding connect_blocking
connect_blocking-Accounted [] last c t h e = refused h e refl
connect_blocking-Accounted (a ∷ l) last c t h e = elim (try_blocking-BlockingWell a last c t h e) [
  | went_on err c' is bad none_yet ↦
      Accounted-more a l
        (rw (is, connect_blocking) (connect_blocking-Accounted l err c' t bad none_yet))
  | kept n c' is s at has ↦
      rw (is, connect_blocking) (opened n (inl refl) refl refl (a, inl refl, s, at, has))
]

-- `tcp_client_blocking_init` with a host and a port ends with success and one more open
-- descriptor, set back to blocking, which is the client's and was opened for one of the addresses
-- of `getaddrinfo`, and the client holds that address; or with ERR_IO or ERR_TIMEOUT, no
-- descriptor and the table of descriptors as it was.
pub blocking_init-Accounted :
    (resolve : Resolver) (c : TcpClient) (host port : Bytes) (t : Table)
    → Accounted
        (given (resolve host port))
        false
        t
        (blocking_init resolve c (some host) (some port) t)
unfolding blocking_init
blocking_init-Accounted resolve c host port t = elim (Option-cases (resolve host port)) [
  | inl is ↦ rw (is, blocking_init) (refused (inl refl) refl refl)
  | inr (l, is) ↦
      rw (is, blocking_init)
        (connect_blocking-Accounted l err_io (record (cleared c) { has_remote_addr = false }) t
          (inl refl) refl)
]
