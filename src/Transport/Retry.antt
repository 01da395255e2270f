-- ===== src/Transport/Retry.antt =====
-- What a client sees of reads and writes with TLS.
use maestro_core.Base.{ℕ, zero, suc, ℤ, pos, negsuc, ◌≡◌, refl, arith, if◌then◌else◌}
use maestro_core.ErrorCode.{value}
use maestro_core.TcpClient.{Errno}
use maestro_core.TlsClient.{
  Ssl, ssl_value, want_read, want_write, close_notify, conn_eof, ssl_failed, tls_read, tls_write,
  may_retry, tls_bio_send, tls_bio_recv,
}
use maestro_core.Transport.{Transport}
use maestro_core.Transport.Running.{read, write}

-- How a client takes a result with its `errno`: so many bytes, the end, again, or broken.
pub data Seen : Type 0 where
  bytes : ℕ → Seen
  closed again broken : Seen

unfoldable pub seen : ℤ × Errno → Seen
seen (pos zero, e) = closed
seen (pos (suc n), e) = bytes (suc n)
seen (negsuc n, e) = if may_retry e then again else broken

-- What the session has to say.
unfoldable pub session : Ssl → Seen
session (ssl_value zero) = closed
session (ssl_value (suc n)) = bytes (suc n)
session want_read = again
session want_write = again
session close_notify = closed
session _ = broken

-- With TLS, `transport_read` looks to its client as a socket does: bytes are bytes, the end of
-- the session or of the data is a closed connection, a session that wants to read or to write is
-- to be asked again, and all else is a broken connection. Without TLS it is `recv` itself.
pub seen-read :
    (recv : ℤ × Errno) (ssl : Ssl) (t : Transport) (e : Errno)
    → seen (read recv ssl t e) ≡ (if t.use_tls then session ssl else seen recv)
unfolding seen session read tls_read may_retry value
seen-read recv (ssl_value zero) t e = ground arith
seen-read recv (ssl_value (suc n)) t e = ground arith
seen-read recv want_read t e = ground arith
seen-read recv want_write t e = ground arith
seen-read recv close_notify t e = ground arith
seen-read recv conn_eof t e = ground arith
seen-read recv ssl_failed t e = ground arith

-- For `transport_write` the end of the session is a broken connection.
unfoldable pub writable_session : Ssl → Seen
writable_session (ssl_value zero) = closed
writable_session (ssl_value (suc n)) = bytes (suc n)
writable_session want_read = again
writable_session want_write = again
writable_session _ = broken

-- With TLS, `transport_write` looks to its client as a socket does: bytes are bytes, a session
-- that wants to read or to write is to be asked again, and all else but a write of nothing is a
-- broken connection. Without TLS it is `send` itself.
pub seen-write :
    (sent : ℤ × Errno) (ssl : Ssl) (t : Transport) (e : Errno)
    → seen (write sent ssl t e) ≡ (if t.use_tls then writable_session ssl else seen sent)
unfolding seen writable_session write tls_write may_retry
seen-write sent (ssl_value zero) t e = ground arith
seen-write sent (ssl_value (suc n)) t e = ground arith
seen-write sent want_read t e = ground arith
seen-write sent want_write t e = ground arith
seen-write sent close_notify t e = ground arith
seen-write sent conn_eof t e = ground arith
seen-write sent ssl_failed t e = ground arith

-- A socket that ends, where the session has not said so, counts as broken.
abbrev unless_closed : Seen → Seen
unless_closed closed = broken
unless_closed s = s

abbrev unless_empty : Seen → Seen
unless_empty closed = again
unless_empty s = s

-- What the BIO makes of the socket's answers: a session under which the socket ends without a
-- goodbye is a broken connection and no end of the data; a socket that takes nothing is to be
-- asked again; all else a session sees as a plain client does.
pub session-tls_bio :
    (n : ℤ) (e : Errno)
    → (session (tls_bio_recv n e) ≡ unless_closed (seen (n, e)))
      × (session (tls_bio_send n e) ≡ unless_empty (seen (n, e)))
unfolding seen session tls_bio_recv tls_bio_send
session-tls_bio (pos zero) e = (refl, refl)
session-tls_bio (pos (suc n)) e = (refl, refl)
session-tls_bio (negsuc n) e = (ground arith, ground arith)
