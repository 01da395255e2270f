-- ===== src/TcpClient/Descriptors.antt =====
-- Which descriptors are open behind a call of `tcp_client_init` or `tcp_client_blocking_init`.
pub mod Blocking
pub mod Disposal
use maestro_core.Base.{
  ℕ, Bool, true, false, Option, none, some, List, [], ◌∷◌, ◌++◌, Bytes, ◌≡◌, ◌≢◌, refl, arith, ◌⊎◌,
  inl, inr, All, Bool-cases, Option-cases, if◌then◌else◌, ap, sym, ◌∙◌, subst, ◌==◌,
}
use maestro_core.ErrorCode.{
  ErrorCode, success, err_timeout, err_invalid_arg, err_io, err_in_progress,
}
use maestro_core.Memory.{Mem, granted, attempt, release}
use maestro_core.TcpClient.{
  lasting, Polled, SocketError, Errno, writable, timed_out, poll_failed, not_read, pending,
  no_error, einprogress, ealready, eisconn, TcpClient, Table, open_socket, close, set_mode, Address,
  set_nonblocking, is_success, Opened, cleared, Resolver, dispose, at_address,
}
use maestro_core.TcpClient.Init.{
  first_answer, is_in_progress, Tried, next, keep, connect_once, try_address, connect_any, init,
  init_ptr,
}
use maestro_core.TcpClient.Blocking.{
  poll_result, wait_writable, finish_connect, await_connect, connect_failed, BlockingTried,
  next_blocking, keep_blocking, connected, settle, try_blocking, connect_blocking, blocking_init,
}

-- The table with one more descriptor, or as it was.
abbrev pub with_mode : ℕ → Bool → Table → Table
with_mode n mode t = record { number = n; nonblocking = mode } ∷ t

self_eq : (n : ℕ) → (n == n) ≡ true
self_eq n = ground arith

pub close-with_mode : (n : ℕ) (mode : Bool) (t : Table) → close n (with_mode n mode t) ≡ t
unfolding close
close-with_mode n mode t = rw (self_eq n) refl

set_mode-with_mode :
    (n : ℕ) (mode new : Bool) (t : Table) → set_mode n new (with_mode n mode t) ≡ with_mode n new t
unfolding set_mode
set_mode-with_mode n mode new t = rw (self_eq n) refl

-- `tcp_client_set_nonblocking` on the descriptor that was opened last.
pub set_nonblocking-head :
    (getfl setfl : Bool) (n : ℕ) (mode new : Bool) (t : Table)
    → (set_nonblocking getfl setfl n new (with_mode n mode t) ≡ (success, with_mode n new t))
      ⊎ (set_nonblocking getfl setfl n new (with_mode n mode t) ≡ (err_io, with_mode n mode t))
unfolding set_nonblocking
set_nonblocking-head true true n mode new t =
    inl (ap (λ (u : Table). (success, u)) (set_mode-with_mode n mode new t))
set_nonblocking-head true false n mode new t = inr refl
set_nonblocking-head false setfl n mode new t = inr refl

-- A round keeps a socket, non-blocking, or leaves no descriptor behind.
data TriedWell (a : Address) (t : Table) (r : Tried) : Type 0 where
  went_on : r ≡ next t → TriedWell a t r
  kept :
      (n : ℕ) (e : ErrorCode)
      → r ≡ keep n e (with_mode n true t)
      → (e ≡ success) ⊎ (e ≡ err_in_progress)
      → a.socket ≡ some n
      → TriedWell a t r

connect_once-TriedWell :
    (a : Address) (n : ℕ) (t : Table)
    → a.socket ≡ some n
    → TriedWell a t (connect_once a n (with_mode n true t))
unfolding connect_once
connect_once-TriedWell a n t s = elim (Option-cases (first_answer a.connect)) [
  | inl is ↦ kept n success (rw (is, connect_once) refl) (inl refl) s
  | inr (e, is) ↦ elim (Bool-cases (is_in_progress e)) [
    | inl p ↦ kept n err_in_progress (rw (is, connect_once, p) refl) (inr refl) s
    | inr p ↦ went_on (rw (is, connect_once, p) (ap next (close-with_mode n true t)))
  ]
]

try_address-TriedWell : (a : Address) (t : Table) → TriedWell a t (try_address a t)
unfolding try_address is_success
try_address-TriedWell a t = elim (Option-cases a.socket) [
  | inl is ↦ went_on (ground (arith, is))
  | inr (n, is) ↦ elim (set_nonblocking-head a.getfl a.setfl n false true t) [
    | inl e ↦
        let found : try_address a t ≡ connect_once a n (with_mode n true t) =
          ground (arith, is, e) in
        subst (TriedWell a t) (sym found) (connect_once-TriedWell a n t is)
    | inr e ↦
        let found : try_address a t ≡ next (close n (with_mode n false t)) =
          ground (arith, is, e) in
        went_on (found ∙ ap next (close-with_mode n false t))
  ]
]

abbrev pub IsFailure : ErrorCode → Type 0
IsFailure e = (e ≡ err_io) ⊎ (e ≡ err_timeout)

-- The address is one of the list.
abbrev pub In : Address → List Address → Type 0
In a [] = ⊥
In a (b ∷ l) = (b ≡ a) ⊎ In a l

-- The addresses that `getaddrinfo` gives.
abbrev pub given : Option (List Address) → List Address
given none = []
given (some l) = l

-- The call failed and no descriptor is left behind, or one more is open: it is the client's, was
-- opened for one of the addresses `l`, and that address is the client's as well.
pub data Accounted (l : List Address) (mode : Bool) (t : Table) (r : Opened) : Type 0 where
  refused : IsFailure r.result → r.client.fd ≡ none → r.table ≡ t → Accounted l mode t r
  opened :
      (n : ℕ)
      → (r.result ≡ success) ⊎ ((r.result ≡ err_in_progress) × (mode ≡ true))
      → r.client.fd ≡ some n
      → r.table ≡ with_mode n mode t
      → (a : Address) × In a l
        × (a.socket ≡ some n)
        × (r.client.remote_addr ≡ a.sockaddr)
        × (r.client.has_remote_addr ≡ true)
      → Accounted l mode t r

-- What holds for the addresses behind the first holds for all.
pub Accounted-more :
    (b : Address) (l : List Address) {mode : Bool} {t : Table} {r : Opened}
    → Accounted l mode t r
    → Accounted (b ∷ l) mode t r
Accounted-more b l (refused h e is) = refused h e is
Accounted-more b l (opened n h e is (a, there, s, at, has)) =
    opened n h e is (a, inr there, s, at, has)

connect_any-Accounted :
    (l : List Address) (c : TcpClient) (t : Table)
    → c.fd ≡ none
    → Accounted l true t (connect_any l c t)
unfolding connect_any
connect_any-Accounted [] c t e = refused (inl refl) e refl
connect_any-Accounted (a ∷ l) c t e = elim (try_address-TriedWell a t) [
  | went_on is ↦ Accounted-more a l (rw (is, connect_any) (connect_any-Accounted l c t e))
  | kept n err is ends s ↦
      rw (is, connect_any)
        (opened n (elim ends [ inl q ↦ inl q | inr q ↦ inr (q, refl) ]) refl refl
          (a, inl refl, s, refl, refl))
]

-- `tcp_client_init` with a host and a port ends with success or ERR_IN_PROGRESS and one more open
-- descriptor, non-blocking, which is the client's and was opened for one of the addresses of
-- `getaddrinfo`, and the client holds that address; or with ERR_IO or ERR_TIMEOUT, no descriptor
-- and the table of descriptors as it was.
pub init-Accounted :
    (resolve : Resolver) (c : TcpClient) (host port : Bytes) (t : Table)
    → Accounted (given (resolve host port)) true t (init resolve c (some host) (some port) t)
unfolding init
init-Accounted resolve c host port t = elim (Option-cases (resolve host port)) [
  | inl is ↦ rw (is, init) (refused (inl refl) refl refl)
  | inr (l, is) ↦ rw (is, init) (connect_any-Accounted l (cleared c) t refl)
]
