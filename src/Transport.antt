-- ===== src/Transport.antt =====
-- modules/src/transport.c and modules/include/maestromodules/transport.h: a TCP socket, with a TLS
-- session over it where the scheme asks for one.
pub mod Running
pub mod Secure
pub mod Descriptors
pub mod Retry
use maestro_core.Base.{
  ℕ, zero, suc, ◌+◌, ℤ, pos, negsuc, Bool, true, false, Option, none, some, [], ◌∷◌, Bytes, codes,
  if◌then◌else◌,
}
use maestro_core.CString.{equal}
use maestro_core.ErrorCode.{
  ErrorCode, success, err_invalid_arg, err_bad_format, err_io, err_in_progress, value,
}
use maestro_core.HttpParser.Url.{lower_scheme}
use maestro_core.Memory.{Mem}
use maestro_core.TcpClient.{
  TcpClient, Errno, Table, Resolver, SocketError, is_success, Opened, dispose,
}
use maestro_core.TcpClient.Blocking.{blocking_init, finish_connect}
use maestro_core.TcpClient.Init.{init}
use maestro_core.TlsClient.{
  Ssl, TlsClient, zeroed, SetUp, tls_init, handshake_step, tls_read, tls_write, may_retry,
  tls_dispose,
}

pub record Transport : Type 0 where
  pub host : Bytes
  pub port : Bytes
  pub scheme : Bytes
  pub tcp : TcpClient
  pub tls : TlsClient
  pub timeout_ms : ℤ
  pub use_tls : Bool
  pub use_blocking : Bool
  pub tls_initiated : Bool

-- `memset(t, 0, sizeof(Transport))` leaves 0 for the descriptor.
abbrev pub zero_tcp : TcpClient
zero_tcp = record {
  fd = some 0;
  read_data = none;
  write_data = none;
  received = record { addr = none; size = 0 };
  remote_addr = [];
  has_remote_addr = false;
}

-- The answers to the calls of one `transport_init` or `transport_finish_connect`: `handshake i` is
-- the result of the i-th `mbedtls_ssl_handshake`.
pub record Net : Type 0 where
  pub resolve : Resolver
  pub setup : SetUp
  pub handshake : ℕ → Ssl
  pub so_error : SocketError

-- `none` for the result means that the loop of handshakes is still running.
pub record Ready : Type 0 where
  pub result : Option ErrorCode
  pub transport : Transport
  pub table : Table
  pub errno : Errno
  pub mem : Mem

-- The test for ERR_IN_PROGRESS, first in the loop and then in the caller.
unfoldable pub in_progress : ErrorCode → Bool
in_progress err_in_progress = true
in_progress _ = false

-- The loop until the handshake is done, in round `i`.
unfoldable pub handshakes : ℕ → (ℕ → Ssl) → ℕ → Transport → Table → Errno → Mem → Ready
handshakes zero answer i t table e m = record {
  result = none;
  transport = t;
  table = table;
  errno = e;
  mem = m;
}
handshakes (suc f) answer i t table e m =
    let r = handshake_step (answer i) t.tls e in
    let t' : Transport = record t { tls = r.1 } in
    let rest = handshakes f answer (i + 1) t' table r.2 m in
    if is_success r.0
    then record { result = some success; transport = t'; table = table; errno = r.2; mem = m }
    else if in_progress r.0
    then rest
    else record { result = some err_io; transport = t'; table = table; errno = r.2; mem = m }

-- `tls_client_init` of a blocking connection, and the handshake.
unfoldable pub start_tls : ℕ → Net → Transport → Table → Errno → Mem → Ready
start_tls f net t table e m =
    let r = tls_init net.setup t.host in
    let d = dispose t.tcp table m in
    if is_success r.0
    then handshakes f net.handshake 0 (record t { tls = r.1; tls_initiated = true }) table e m
    else record {
      result = some err_io;
      transport = record t { tls = r.1; tcp = d.0 };
      table = d.1;
      errno = e;
      mem = d.2;
    }

-- Behind the TCP connection, which ended with `o`.
unfoldable pub with_tcp : ℕ → Net → Transport → Opened → Errno → Mem → Ready
with_tcp f net t o e m =
    let t' : Transport = record t { tcp = o.client } in
    let ended : Ready = record {
      result = some o.result;
      transport = t';
      table = o.table;
      errno = e;
      mem = m;
    } in
    let secured = start_tls f net t' o.table e m in
    if is_success o.result
    then if t.use_tls then if t.use_blocking then secured else ended else ended
    else if in_progress o.result
    then if t.use_tls then if t.use_blocking then secured else ended else ended
    else ended

-- Once the scheme is known.
unfoldable pub connect : ℕ → Net → Transport → Table → Errno → Mem → Ready
connect f net t table e m =
    if t.use_blocking
    then with_tcp f net t (blocking_init net.resolve t.tcp (some t.host) (some t.port) table) e m
    else with_tcp f net t (init net.resolve t.tcp (some t.host) (some t.port) table) e m

-- The arguments behind the guard.
abbrev pub begun : Bytes → Bytes → Bytes → ℤ → Bool → Transport
begun host port scheme timeout blocking = record {
  host = host;
  port = port;
  scheme = scheme;
  tcp = zero_tcp;
  tls = zeroed;
  timeout_ms = timeout;
  use_tls = false;
  use_blocking = blocking;
  tls_initiated = false;
}

-- A host, a port and a scheme that are not empty; NULL is `[]` here, which is refused alike.
unfoldable pub transport_init :
    ℕ → Net → Transport → Bytes → Bytes → Bytes → ℤ → Bool → Table → Errno → Mem → Ready
transport_init f net t (h ∷ host) (p ∷ port) (s ∷ scheme) timeout blocking table e m =
    let b = begun (h ∷ host) (p ∷ port) (s ∷ scheme) timeout blocking in
    let name = lower_scheme (s ∷ scheme) in
    if equal name (codes "https")
    then connect f net (record b { use_tls = true }) table e m
    else if equal name (codes "http")
    then connect f net b table e m
    else record { result = some err_bad_format; transport = b; table = table; errno = e; mem = m }
transport_init f net t host port scheme timeout blocking table e m = record {
  result = some err_invalid_arg;
  transport = t;
  table = table;
  errno = e;
  mem = m;
}
