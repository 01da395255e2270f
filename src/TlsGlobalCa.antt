-- ===== src/TlsGlobalCa.antt =====
-- modules/src/tls_global_ca.c: the chain of certificates that all connections share. What mbed TLS
-- makes of the bundle is the argument of `init`.
use maestro_core.Base.{zero, ℤ, pos, Bool, true, false, if◌then◌else◌}

-- `g_initialized`, and whether `g_ca` holds a parsed chain.
pub record GlobalCa : Type 0 where
  pub initialized : Bool
  pub parsed : Bool

-- `mbedtls_x509_crt_parse` gives 0, the number of certificates that it could not read, or an
-- error below 0.
after_parse : ℤ → GlobalCa → ℤ × GlobalCa
after_parse (pos zero) ca = (pos 0, record { initialized = true; parsed = true })
after_parse ret ca = (ret, record ca { parsed = false })

unfoldable pub ca_init : ℤ → GlobalCa → ℤ × GlobalCa
unfolding after_parse
ca_init ret ca = if ca.initialized then (pos 0, ca) else after_parse ret ca

-- Whether the result is an address.
unfoldable pub ca_get : GlobalCa → Bool
ca_get ca = ca.initialized

unfoldable pub ca_dispose : GlobalCa → GlobalCa
ca_dispose ca = if ca.initialized then record { initialized = false; parsed = false } else ca
