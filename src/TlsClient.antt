-- ===== src/TlsClient.antt =====
-- modules/src/tls_client.c and modules/include/maestromodules/tls_client.h: a TLS session over the
-- calls of its BIO. What mbed TLS answers is an argument of each function.
use maestro_core.Base.{
  ℕ, zero, suc, ℤ, pos, negsuc, Bool, true, false, Option, none, some, Bytes, if◌then◌else◌,
}
use maestro_core.ErrorCode.{ErrorCode, success, err_io, err_in_progress}
use maestro_core.TcpClient.{Errno, eagain, ewouldblock, eintr, eio}

-- The results of mbed TLS that the code tells apart.
pub data Ssl : Type 0 where
  ssl_value : ℕ → Ssl
  want_read want_write close_notify conn_eof ssl_failed : Ssl

-- What has been set in the contexts of a session.
pub record TlsClient : Type 0 where
  pub seeded : Bool
  pub verify_required : Bool
  pub ca_chain : Bool
  pub configured : Bool
  pub hostname : Option Bytes
  pub bio_set : Bool
  pub handshake_done : Bool

-- `memset(_tls, 0, sizeof(TLS_Client))`
abbrev pub zeroed : TlsClient
zeroed = record {
  seeded = false;
  verify_required = false;
  ca_chain = false;
  configured = false;
  hostname = none;
  bio_set = false;
  handshake_done = false;
}

-- Whether each call of the set-up succeeds, and whether `global_tls_ca_get` has a chain.
pub record SetUp : Type 0 where
  pub seed : Bool
  pub defaults : Bool
  pub ca : Bool
  pub setup : Bool
  pub set_hostname : Bool

-- From `mbedtls_ssl_setup` on.
named : SetUp → Bytes → TlsClient → ErrorCode × TlsClient
named a host c =
    if a.setup
    then if a.set_hostname
      then (success, record c { configured = true; hostname = some host; bio_set = true })
      else (err_io, record c { configured = true })
    else (err_io, c)

-- From the authentication mode on.
verifying : SetUp → Bytes → TlsClient → ErrorCode × TlsClient
unfolding named
verifying a host c =
    if a.ca
    then named a host (record c { verify_required = true; ca_chain = true })
    else (err_io, record c { verify_required = true })

unfoldable pub tls_init : SetUp → Bytes → ErrorCode × TlsClient
unfolding verifying
tls_init a host =
    let seeded_client : TlsClient = record zeroed { seeded = true } in
    if a.seed
    then if a.defaults then verifying a host seeded_client else (err_io, seeded_client)
    else (err_io, zeroed)

-- The result of `mbedtls_ssl_handshake`; `errno` is what it was.
shaken : Ssl → TlsClient → Errno → ErrorCode × TlsClient × Errno
shaken (ssl_value zero) c e = (success, record c { handshake_done = true }, e)
shaken want_read c e = (err_in_progress, c, eagain)
shaken want_write c e = (err_in_progress, c, eagain)
shaken _ c e = (err_io, c, e)

unfoldable pub handshake_step : Ssl → TlsClient → Errno → ErrorCode × TlsClient × Errno
unfolding shaken
handshake_step r c e = if c.handshake_done then (success, c, e) else shaken r c e

unfoldable pub tls_read : Ssl → Errno → ℤ × Errno
tls_read (ssl_value n) e = (pos n, e)
tls_read want_read e = (negsuc 0, eagain)
tls_read want_write e = (negsuc 0, eagain)
tls_read close_notify e = (pos 0, e)
tls_read _ e = (negsuc 0, eio)

unfoldable pub tls_write : Ssl → Errno → ℤ × Errno
tls_write (ssl_value n) e = (pos n, e)
tls_write want_read e = (negsuc 0, eagain)
tls_write want_write e = (negsuc 0, eagain)
tls_write _ e = (negsuc 0, eio)

-- `errno == EAGAIN || errno == EWOULDBLOCK || errno == EINTR`
unfoldable pub may_retry : Errno → Bool
may_retry eagain = true
may_retry ewouldblock = true
may_retry eintr = true
may_retry _ = false

-- `tls_bio_send` and `tls_bio_recv`, where the transport answers `r` and leaves `errno` as `e`.
unfoldable pub tls_bio_send : ℤ → Errno → Ssl
unfolding may_retry
tls_bio_send (pos zero) e = want_write
tls_bio_send (pos (suc n)) e = ssl_value (suc n)
tls_bio_send (negsuc n) e = if may_retry e then want_write else ssl_failed

unfoldable pub tls_bio_recv : ℤ → Errno → Ssl
unfolding may_retry
tls_bio_recv (pos zero) e = conn_eof
tls_bio_recv (pos (suc n)) e = ssl_value (suc n)
tls_bio_recv (negsuc n) e = if may_retry e then want_read else ssl_failed

-- `tls_client_dispose`, also of a session that was never set up.
unfoldable pub tls_dispose : TlsClient → TlsClient
tls_dispose c = zeroed
