-- ===== src/Transport/Running.antt =====
-- What a client does with a transport once `transport_init` has returned.
use maestro_core.Base.{ℤ, pos, negsuc, true, if◌then◌else◌, ltb_ℤ}
use maestro_core.ErrorCode.{ErrorCode, success, err_io, err_in_progress, value}
use maestro_core.Memory.{Mem}
use maestro_core.TcpClient.{Errno, Table, is_success, dispose}
use maestro_core.TcpClient.Blocking.{finish_connect}
use maestro_core.TlsClient.{
  Ssl, tls_init, handshake_step, tls_read, tls_write, may_retry, tls_dispose,
}
use maestro_core.Transport.{Transport, Net, in_progress}

-- `result` with the transport and `errno`.
pub record Finished : Type 0 where
  pub result : ErrorCode
  pub transport : Transport
  pub errno : Errno

-- One step of the handshake.
unfoldable pub shake : Net → Transport → Errno → Finished
unfolding is_success in_progress
shake net t e =
    let r = handshake_step (net.handshake 0) t.tls e in
    let t' : Transport = record t { tls = r.1 } in
    if is_success r.0
    then record { result = success; transport = t'; errno = r.2 }
    else if in_progress r.0
    then record { result = err_in_progress; transport = t'; errno = r.2 }
    else record { result = err_io; transport = t'; errno = r.2 }

-- The session is set up when the TCP connection stands.
unfoldable pub set_up : Net → Transport → Errno → Finished
unfolding is_success shake
set_up net t e =
    let r = tls_init net.setup t.host in
    let shaken = shake net (record t { tls = r.1; tls_initiated = true }) e in
    if is_success r.0
    then shaken
    else record { result = err_io; transport = record t { tls = r.1 }; errno = e }

unfoldable pub finish : Net → Transport → Errno → Finished
unfolding is_success set_up shake
finish net t e =
    let tcp = finish_connect net.so_error in
    let failed : Finished = record { result = tcp; transport = t; errno = e } in
    let done : Finished = record { result = success; transport = t; errno = e } in
    let first = set_up net t e in
    let more = shake net t e in
    if t.use_tls
    then if t.use_blocking
      then more
      else if is_success tcp
      then if t.tls_initiated then more else first
      else failed
    else if t.use_blocking
    then done
    else failed

-- `recv` and `mbedtls_ssl_read` as they would answer, and `errno` before the call.
unfoldable pub read : ℤ × Errno → Ssl → Transport → Errno → ℤ × Errno
read recv ssl t e =
    let r = tls_read ssl e in
    if t.use_tls
    then if ltb_ℤ r.0 (pos 0)
      then if may_retry r.1 then (negsuc 0, r.1) else (value err_io, r.1)
      else r
    else recv

unfoldable pub write : ℤ × Errno → Ssl → Transport → Errno → ℤ × Errno
write sent ssl t e = if t.use_tls then tls_write ssl e else sent

unfoldable pub transport_dispose : Transport → Table → Mem → Transport × Table × Mem
transport_dispose t table m =
    let d = dispose t.tcp table m in
    if t.use_tls
    then (record t { tls = tls_dispose t.tls; tcp = d.0 }, d.1, d.2)
    else (record t { tcp = d.0 }, d.1, d.2)
