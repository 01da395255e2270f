-- ===== src/HttpParser/Url/Bounds.antt =====
-- What `http_parser_url` writes, against the arrays of `URL_Parts`.
use maestro_core.Base.{
  ◌+◌, ◌<◌, true, false, Option, [], ◌∷◌, ◌≡◌, ◌≢◌, refl, arith, Bytes, codes, length, Option-cases,
  Bool, if◌then◌else◌, Bool-cases, inl, inr, ◌==◌, leb,
}
use maestro_core.CString.{strstr, strchr}
use maestro_core.ErrorCode.{ErrorCode, success, err_bad_format}
use maestro_core.HttpParser.Url.{
  UrlParts, no_parts, all_digits, by_scheme, default_port, take_path, take_port, HostEnd, at_colon,
  at_slash, at_end, host_end, from_slash, port_text, too_long, host_at, url,
}

-- Each text leaves room for its NUL in the array that holds it.
pub record Fits (u : UrlParts) : Type 0 where
  pub scheme_fits : length u.scheme < 6
  pub host_fits : length u.host < 128
  pub port_fits : length u.port < 6
  pub path_fits : length u.path < 512

abbrev pub BeginsWithSlash : Bytes → Type 0
BeginsWithSlash [] = ⊥
BeginsWithSlash (c ∷ s) = c ≡ b'/'

-- The parts of an accepted URL: none is empty, the port is digits, and the path is absolute.
abbrev pub IsComplete : UrlParts → Type 0
IsComplete u =
    (u.scheme ≢ [])
    × (u.host ≢ [])
    × (u.port ≢ [])
    × (all_digits u.port ≡ true)
    × BeginsWithSlash u.path

abbrev pub SoundUrl : ErrorCode × UrlParts → Type 0
SoundUrl (success, u) = Fits u × IsComplete u
SoundUrl (err_bad_format, u) = Fits u
SoundUrl (_, u) = ⊥

by_scheme_sound :
    (u : UrlParts) (https http : Bool)
    → Fits u
    → u.scheme ≢ []
    → u.host ≢ []
    → BeginsWithSlash u.path
    → SoundUrl (by_scheme https http u)
unfolding by_scheme all_digits
by_scheme_sound u true http f sc h p = (ground arith, (sc, h, ground arith, refl, p))
by_scheme_sound u false true f sc h p = (ground arith, (sc, h, ground arith, refl, p))
by_scheme_sound u false false f sc h p = f

default_port_sound :
    (port : Bytes) (u : UrlParts)
    → u.port ≡ port
    → Fits u
    → u.scheme ≢ []
    → u.host ≢ []
    → all_digits u.port ≡ true
    → BeginsWithSlash u.path
    → SoundUrl (default_port port u)
default_port_sound [] u e f sc h d p = unfold default_port in by_scheme_sound u _ _ f sc h p
default_port_sound (c ∷ r) u e f sc h d p = unfold default_port in (f, (sc, h, ground arith, d, p))

take_path_sound :
    (path_start : Bytes) (u : UrlParts)
    → Fits u
    → u.scheme ≢ []
    → u.host ≢ []
    → all_digits u.port ≡ true
    → SoundUrl (take_path path_start u)
unfolding take_path
take_path_sound [] u f sc h d =
    default_port_sound u.port (record u { path = codes "/" }) refl (ground arith) sc h d refl
take_path_sound (c ∷ s) u f sc h d =
    let root =
      default_port_sound u.port (record u { path = codes "/" }) refl (ground arith) sc h d refl in
    elim (Bool-cases (c == b'/')) [
      | inl slash ↦ elim (Bool-cases (leb 512 (length (c ∷ s)))) [
        | inl long ↦ rw slash (rw long f)
        | inr short ↦ rw slash (
            rw short (
              default_port_sound u.port (record u { path = c ∷ s }) refl (ground arith) sc h d
                (ground arith)))
      ]
      | inr other ↦ rw other root
    ]

take_port_sound :
    (port path_start : Bytes) (u : UrlParts)
    → Fits u
    → u.scheme ≢ []
    → u.host ≢ []
    → SoundUrl (take_port port path_start u)
unfolding take_port
take_port_sound port path_start u f sc h = elim (Bool-cases (all_digits port)) [
  | inl d ↦ elim (Bool-cases (leb 6 (length port))) [
    | inl long ↦ ground arith
    | inr short ↦
        ground (arith, take_path_sound path_start (record u { port = port }) (ground arith) sc h d)
  ]
  | inr d ↦ ground arith
]

module _ (rest : Bytes) (slash : Option (Bytes × Bytes)) (u : UrlParts) (f : Fits u)
    (none_yet : u.port ≡ []) (sc : u.scheme ≢ []) where
  path_only :
      (host : Bytes) (start : Bytes)
      → SoundUrl (
          if too_long host then (err_bad_format, u) else take_path start (record u { host = host }))
  unfolding too_long
  path_only host start = elim (Bool-cases (length host == 0)) [
    | inl empty ↦ ground arith
    | inr ne ↦ elim (Bool-cases (leb 128 (length host))) [
      | inl long ↦ ground arith
      | inr short ↦
          rw (ne, short)
            (take_path_sound start (record u { host = host }) (ground arith) sc (ground arith)
              (unfold all_digits in rw none_yet))
    ]
  ]

  host_at_sound : (e : HostEnd) → SoundUrl (host_at e rest slash u)
  unfolding host_at
  host_at_sound (at_slash host) = path_only host (from_slash slash)
  host_at_sound at_end = path_only rest []
  host_at_sound (at_colon host) = elim (Bool-cases (length host == 0)) [
    | inl empty ↦ ground arith
    | inr ne ↦ elim (Bool-cases (leb 128 (length host))) [
      | inl long ↦ ground arith
      | inr short ↦
          rw (ne, short)
            (take_port_sound (port_text rest (length host + 1) slash) (from_slash slash)
              (record u { host = host }) (ground arith) sc (ground arith))
    ]
  ]

-- For every text, `http_parser_url` returns SUCCESS or ERR_BAD_FORMAT, and either way what it
-- writes fits the arrays of 6, 128, 6 and 512 bytes with a NUL. On success the scheme, the host
-- and the port are not empty, the port is digits, and the path begins with a slash.
pub url_sound : (text : Bytes) → SoundUrl (url text)
unfolding url
url_sound text = elim (Option-cases (strstr text (codes "://"))) [
  | inl e ↦ rw (e, url) empty_fits
  | inr ((scheme, rest), e) ↦ elim (Bool-cases (length scheme == 0)) [
    | inl empty ↦ rw (e, url) (rw empty empty_fits)
    | inr ne ↦ elim (Bool-cases (leb 6 (length scheme))) [
      | inl long ↦ rw (e, url) (rw (ne, long) empty_fits)
      | inr short ↦
          rw (e, url)
            (rw (ne, short)
              (host_at_sound rest (strchr rest b'/') (record no_parts { scheme = scheme })
                (ground arith) refl (ground arith)
                (host_end (strchr rest b'/') (strchr rest b':'))))
    ]
  ]
]
  where
    empty_fits : Fits no_parts
    empty_fits = omega arith
