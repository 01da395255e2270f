-- ===== src/TcpClient.antt =====
-- modules/src/tcp_client.c and modules/include/maestromodules/tcp_client.h: a TCP socket. The
-- kernel's answers are arguments; what is kept is the table of open descriptors.
pub mod Init
pub mod Blocking
pub mod Transfer
pub mod Descriptors
pub mod Sending
pub mod Received
use maestro_core.Base.{
  ℕ, suc, zero, ◌+◌, ◌-◌, ℤ, pos, Bool, true, false, Option, none, some, List, [], ◌∷◌, ◌++◌, Bytes,
  length, take, drop, ◌==◌, ltb, if◌then◌else◌,
}
use maestro_core.ErrorCode.{
  ErrorCode, success, err_invalid_arg, err_io, err_timeout, err_in_progress, err_no_memory,
  err_busy, value,
}
use maestro_core.Memory.{Mem, granted, attempt, release}

pub record TcpData : Type 0 where
  pub addr : Option Bytes
  pub size : ℕ

-- A negative `fd` is `none`.
pub record TcpClient : Type 0 where
  pub fd : Option ℕ
  pub read_data : Option Bytes
  pub write_data : Option Bytes
  pub received : TcpData
  pub remote_addr : Bytes
  pub has_remote_addr : Bool

-- The values of `errno` that the code tells apart.
pub data Errno : Type 0 where
  eintr eagain ewouldblock einprogress ealready eisconn enotconn eio other : Errno

-- An open descriptor, with O_NONBLOCK.
pub record Descriptor : Type 0 where
  pub number : ℕ
  pub nonblocking : Bool

abbrev pub Table : Type 0
Table = List Descriptor

abbrev pub open_socket : ℕ → Table → Table
open_socket n t = record { number = n; nonblocking = false } ∷ t

unfoldable pub close : ℕ → Table → Table
close n [] = []
close n (d ∷ t) = if d.number == n then t else d ∷ close n t

unfoldable pub set_mode : ℕ → Bool → Table → Table
set_mode n mode [] = []
set_mode n mode (d ∷ t) =
    if d.number == n then record d { nonblocking = mode } ∷ t else d ∷ set_mode n mode t

-- The answers of a call that is made again while it is interrupted.
pub data Retried (A : Type 0) : Type 0 where
  interrupted : Retried A → Retried A
  answers : A → Retried A

-- `do … while (res < 0 && errno == EINTR)`
unfoldable pub lasting : {A : Type 0} → Retried A → A
lasting (interrupted r) = lasting r
lasting (answers a) = a

pub data Polled : Type 0 where
  writable timed_out poll_failed : Polled

pub data SocketError : Type 0 where
  not_read pending no_error : SocketError

-- One result of `getaddrinfo` with the kernel's answers to the calls for it: the new descriptor;
-- `fcntl` to read and to write the flags, first and for the way back; `connect`, where `none` is
-- success; `poll`; `getsockopt`.
pub record Address : Type 0 where
  pub sockaddr : Bytes
  pub socket : Option ℕ
  pub getfl : Bool
  pub setfl : Bool
  pub connect : Retried (Option Errno)
  pub poll : Retried Polled
  pub so_error : SocketError
  pub getfl_back : Bool
  pub setfl_back : Bool

-- `tcp_client_set_nonblocking` on descriptor `n`.
unfoldable pub set_nonblocking : Bool → Bool → ℕ → Bool → Table → ErrorCode × Table
set_nonblocking getfl setfl n mode t =
    if getfl then if setfl then (success, set_mode n mode t) else (err_io, t) else (err_io, t)

unfoldable pub is_success : ErrorCode → Bool
is_success success = true
is_success _ = false

pub record Opened : Type 0 where
  pub result : ErrorCode
  pub client : TcpClient
  pub table : Table

abbrev pub at_address : Bytes → TcpClient → TcpClient
at_address s c = record c { remote_addr = s; has_remote_addr = true }

abbrev pub cleared : TcpClient → TcpClient
cleared c = record c {
  fd = none;
  read_data = none;
  write_data = none;
  received = record c.received { addr = none };
}

-- What `getaddrinfo` answers; `none` is an error.
abbrev pub Resolver : Type 0
Resolver = Bytes → Bytes → Option (List Address)

closed : Option ℕ → Table → Table
closed none t = t
closed (some n) t = close n t

one_block : Option Bytes → ℕ
one_block none = 0
one_block (some _) = 1

-- `tcp_client_disconnect`
unfoldable pub disconnect : TcpClient → Table → TcpClient × Table
unfolding closed
disconnect c t = (record c { fd = none }, closed c.fd t)

-- `size` is reset only where there is data.
no_data : TcpData → TcpData
no_data d = elim d.addr [ none ↦ d | some _ ↦ record { addr = none; size = 0 } ]

unfoldable pub dispose : TcpClient → Table → Mem → TcpClient × Table × Mem
unfolding closed one_block no_data
dispose c t m = (
  record c { fd = none; read_data = none; write_data = none; received = no_data c.received },
  closed c.fd t,
  release (one_block c.read_data + one_block c.write_data + one_block c.received.addr) m,
)

-- `tcp_client_dispose_ptr`; NULL, and a pointer to NULL, is `none`.
unfoldable pub dispose_ptr : Option TcpClient → Table → Mem → Option TcpClient × Table × Mem
unfolding dispose
dispose_ptr none t m = (none, t, m)
dispose_ptr (some c) t m = let r = dispose c t m in (none, r.1, release 1 r.2)
