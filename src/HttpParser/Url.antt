-- ===== src/HttpParser/Url.antt =====
-- `http_parser_url`: scheme "://" host [":" port] [path].
pub mod Bounds
pub mod RoundTrip
use maestro_core.Base.{
  ℕ, suc, ◌+◌, Bool, true, false, not, ◌&&◌, ◌||◌, Option, none, some, List, [], ◌∷◌, Bytes, codes,
  length, take, drop, ltb, leb, ◌==◌, if◌then◌else◌,
}
use mathlib.Core.List.{map}
use maestro_core.CString.{strchr, strstr, equal, isdigit, tolower}
use maestro_core.ErrorCode.{ErrorCode, success, err_bad_format}

-- `URL_Parts`: the texts in `scheme[6]`, `host[128]`, `port[6]` and `path[512]`, whose NUL needs
-- one of the bytes.
pub record UrlParts : Type 0 where
  pub scheme : Bytes
  pub host : Bytes
  pub port : Bytes
  pub path : Bytes

abbrev pub no_parts : UrlParts
no_parts = record { scheme = []; host = []; port = []; path = [] }

unfoldable pub all_digits : Bytes → Bool
unfolding isdigit
all_digits [] = true
all_digits (c ∷ s) = isdigit c && all_digits s

-- The first five bytes in lower case, as `scheme_lower`.
unfoldable pub lower_scheme : Bytes → Bytes
unfolding tolower
lower_scheme s = map tolower (take 5 s)

-- The ladder of comparisons: with "https", with "http", neither.
by_scheme : Bool → Bool → UrlParts → ErrorCode × UrlParts
by_scheme https http u =
    if https
    then (success, record u { port = codes "443" })
    else if http
    then (success, record u { port = codes "80" })
    else (err_bad_format, u)

-- From the default port on; the first argument is `url_parts->port`.
default_port : Bytes → UrlParts → ErrorCode × UrlParts
unfolding by_scheme equal lower_scheme
default_port [] u =
    by_scheme (equal (lower_scheme u.scheme) (codes "https"))
      (equal (lower_scheme u.scheme) (codes "http")) u
default_port (c ∷ s) u = (success, u)

-- The path, from `path_start` to the end of the text.
take_path : Bytes → UrlParts → ErrorCode × UrlParts
take_path [] u = default_port u.port (record u { path = codes "/" })
take_path (c ∷ s) u =
    if c == b'/'
    then (if leb 512 (length (c ∷ s))
        then (err_bad_format, u)
        else default_port u.port (record u { path = c ∷ s }))
    else default_port u.port (record u { path = codes "/" })

-- The port, between the colon and the slash or the end.
take_port : Bytes → Bytes → UrlParts → ErrorCode × UrlParts
take_port port path_start u =
    if length port == 0
    then (err_bad_format, u)
    else if leb 6 (length port)
    then (err_bad_format, u)
    else if all_digits port
    then take_path path_start (record u { port = port })
    else (err_bad_format, u)

-- Where the host ends: at the first colon, if it comes before the first slash.
pub data HostEnd : Type 0 where
  at_colon : Bytes → HostEnd
  at_slash : Bytes → HostEnd
  at_end : HostEnd

-- `slash` and `colon` are what stands before the first of each.
unfoldable pub host_end : Option (Bytes × Bytes) → Option (Bytes × Bytes) → HostEnd
host_end none none = at_end
host_end (some (before, _)) none = at_slash before
host_end none (some (before, _)) = at_colon before
host_end (some (to_slash, _)) (some (to_colon, _)) =
    if ltb (length to_colon) (length to_slash) then at_colon to_colon else at_slash to_slash

-- The first slash and what follows it, or the end.
from_slash : Option (Bytes × Bytes) → Bytes
from_slash none = []
from_slash (some (_, after)) = b'/' ∷ after

-- The text between the colon, `start` bytes in, and the first slash or the end.
port_text : Bytes → ℕ → Option (Bytes × Bytes) → Bytes
port_text rest start none = drop start rest
port_text rest start (some (before, _)) = drop start before

too_long : Bytes → Bool
too_long host = length host == 0 || leb 128 (length host)

-- From the test of `host_len` on; `slash` is the result of `strchr(url_ptr, '/')`.
host_at : HostEnd → Bytes → Option (Bytes × Bytes) → UrlParts → ErrorCode × UrlParts
unfolding from_slash port_text too_long
host_at (at_colon host) rest slash u =
    if too_long host
    then (err_bad_format, u)
    else take_port (port_text rest (length host + 1) slash) (from_slash slash)
        (record u { host = host })
host_at (at_slash host) rest slash u =
    if too_long host
    then (err_bad_format, u)
    else take_path (from_slash slash) (record u { host = host })
host_at at_end rest slash u =
    if too_long rest then (err_bad_format, u) else take_path [] (record u { host = rest })

take_host : Bytes → UrlParts → ErrorCode × UrlParts
take_host rest u =
    host_at (host_end (strchr rest b'/') (strchr rest b':')) rest (strchr rest b'/') u

unfoldable pub url : Bytes → ErrorCode × UrlParts
unfolding take_host host_at host_end take_port take_path default_port all_digits
url text = elim (strstr text (codes "://")) [
  | none ↦ (err_bad_format, no_parts)
  | some (scheme, rest) ↦
      if length scheme == 0 || leb 6 (length scheme)
      then (err_bad_format, no_parts)
      else take_host rest (record no_parts { scheme = scheme })
]
