-- ===== src/HttpParser/Url/RoundTrip.antt =====
-- URLs as they are written, and the parts that `http_parser_url` finds.
use maestro_core.Base.{
  ◌+◌, ◌<◌, true, false, some, Option, [], ◌∷◌, ◌++◌, ◌≡◌, ◌≢◌, refl, arith, Bytes, codes, Lacks,
  length, length-append, drop, append_assoc, ap, ◌∙◌, sym, ◌==◌, lt→ltb, All-append, suc,
}
use maestro_core.CString.{strstr, strchr, strip_prefix}
use maestro_core.CString.Search.{strchr-append}
use maestro_core.ErrorCode.{success}
use maestro_core.HttpParser.Url.{
  UrlParts, no_parts, all_digits, default_port, take_path, take_port, at_colon, host_end,
  from_slash, port_text, host_at, take_host, url,
}
use maestro_core.HttpParser.Url.Bounds.{Fits}

-- `scheme://host:port/path`, the form with every part.
abbrev pub url_of : UrlParts → Bytes
url_of u = u.scheme ++ (codes "://" ++ (u.host ++ (b':' ∷ (u.port ++ u.path))))

pub record IsUrl (u : UrlParts) (s : Bytes) : Type 0 where
  pub fits : Fits u
  pub scheme_ne_nil : u.scheme ≢ []
  pub scheme_colon : Lacks b':' u.scheme
  pub host_ne_nil : u.host ≢ []
  pub host_colon : Lacks b':' u.host
  pub host_slash : Lacks b'/' u.host
  pub port_ne_nil : u.port ≢ []
  pub port_digits : all_digits u.port ≡ true
  pub path_slash : u.path ≡ b'/' ∷ s

digits-Lacks : (s : Bytes) → all_digits s ≡ true → Lacks b'/' s
unfolding all_digits
digits-Lacks [] h = tt
digits-Lacks (c ∷ s) h = (ground arith, digits-Lacks s (ground arith))

-- `://` is found behind a scheme without a colon
strstr-append :
    (p q : Bytes) → Lacks b':' p → strstr (p ++ (codes "://" ++ q)) (codes "://") ≡ some (p, q)
unfolding strstr strip_prefix
strstr-append [] q h = refl
strstr-append (c ∷ p) q h = ground (arith, strstr-append p q h.1)

length-ne : (s : Bytes) → s ≢ [] → (length s == 0) ≡ false
length-ne [] h = absurd (h refl)
length-ne (c ∷ s) h = ground arith

default_given : (port : Bytes) (u : UrlParts) → port ≢ [] → default_port port u ≡ (success, u)
unfolding default_port
default_given [] u h = absurd (h refl)
default_given (c ∷ r) u h = refl

path_given :
    (s : Bytes) (u : UrlParts)
    → u.port ≢ []
    → length (b'/' ∷ s) < 512
    → take_path (b'/' ∷ s) u ≡ (success, record u { path = b'/' ∷ s })
unfolding take_path
path_given s u h lt = ground (arith, default_given u.port (record u { path = b'/' ∷ s }) h)

port_given :
    (port start : Bytes) (u : UrlParts)
    → (length port == 0) ≡ false
    → length port < 6
    → all_digits port ≡ true
    → take_port port start u ≡ take_path start (record u { port = port })
unfolding take_port
port_given port start u ne lt d = ground arith

host_given :
    (host rest : Bytes) (slash : Option (Bytes × Bytes)) (u : UrlParts)
    → (length host == 0) ≡ false
    → length host < 128
    → host_at (at_colon host) rest slash u
      ≡ take_port
          (port_text rest (length host + 1) slash)
          (from_slash slash)
          (record u { host = host })
unfolding host_at
host_given host rest slash u ne lt = ground arith

scheme_given :
    (text scheme r : Bytes)
    → strstr text (codes "://") ≡ some (scheme, r)
    → (length scheme == 0) ≡ false
    → length scheme < 6
    → url text ≡ take_host r (record no_parts { scheme = scheme })
unfolding url
scheme_given text scheme r e ne lt = ground arith

module _ (u : UrlParts) (s : Bytes) (is : IsUrl u s) where
  rest : Bytes
  rest = u.host ++ (b':' ∷ (u.port ++ u.path))

  to_slash : Bytes
  to_slash = u.host ++ (b':' ∷ u.port)

  slash_lem : strchr rest b'/' ≡ some (to_slash, s)
  unfolding rest to_slash
  slash_lem =
      ap (λ p. strchr (u.host ++ (b':' ∷ (u.port ++ p))) b'/') is.path_slash
      ∙ ap (λ t. strchr t b'/') (sym (append_assoc u.host (b':' ∷ u.port) (b'/' ∷ s)))
      ∙ strchr-append (u.host ++ (b':' ∷ u.port)) s b'/' (
          All-append (λ c. c ≢ b'/') u.host (b':' ∷ u.port) is.host_slash
            (ground arith, digits-Lacks u.port is.port_digits))

  colon_lem : strchr rest b':' ≡ some (u.host, u.port ++ u.path)
  unfolding rest
  colon_lem = strchr-append u.host (u.port ++ u.path) b':' is.host_colon

  port_lem : port_text rest (length u.host + 1) (some (to_slash, s)) ≡ u.port
  unfolding port_text to_slash
  port_lem = drop_host u.host
    where
      drop_host : (h : Bytes) → drop (length h + 1) (h ++ (b':' ∷ u.port)) ≡ u.port
      drop_host [] = refl
      drop_host (c ∷ h) = rw (add_right_comm h) (drop_host h)
        where
          add_right_comm : (h : Bytes) → suc (length h) + 1 ≡ suc (length h + 1)
          add_right_comm h = omega arith

  end_lem : host_end (strchr rest b'/') (strchr rest b':') ≡ at_colon u.host
  unfolding to_slash
  end_lem =
      rw (slash_lem, colon_lem)
        (unfold host_end in
          rw (
            lt→ltb (length u.host) (length to_slash)
              (omega (arith, length-append u.host (b':' ∷ u.port)))))

  path_length : length (b'/' ∷ s) < 512
  path_length = omega (arith, ap (λ (p : Bytes). length p) is.path_slash, is.fits.path_fits)

  host_taken : take_host rest (record no_parts { scheme = u.scheme }) ≡ (success, u)
  unfolding take_host from_slash
  host_taken =
      let start = record no_parts { scheme = u.scheme } in
      let with_host = record start { host = u.host } in
      let with_port = record with_host { port = u.port } in
      ap (λ e. host_at e rest (strchr rest b'/') start) end_lem
      ∙ ap (λ l. host_at (at_colon u.host) rest l start) slash_lem
      ∙ host_given u.host rest (some (to_slash, s)) start (length-ne u.host is.host_ne_nil)
          is.fits.host_fits
      ∙ ap (λ p. take_port p (b'/' ∷ s) with_host) port_lem
      ∙ port_given u.port (b'/' ∷ s) with_host (length-ne u.port is.port_ne_nil) is.fits.port_fits
          is.port_digits
      ∙ path_given s with_port is.port_ne_nil path_length
      ∙ ap (λ p. (success, record with_port { path = p })) (sym is.path_slash)

  -- `http_parser_url` reads back a URL with every part given: the scheme, the host, the port and
  -- the path, each within its array, come back exactly as they were written.
  pub url-url_of : url (url_of u) ≡ (success, u)
  unfolding rest
  url-url_of =
      scheme_given (url_of u) u.scheme rest (strstr-append u.scheme rest is.scheme_colon)
        (length-ne u.scheme is.scheme_ne_nil) is.fits.scheme_fits
      ∙ host_taken
