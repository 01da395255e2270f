-- ===== src/Transport/Secure.antt =====
-- Verified sessions, and the blocking `transport_init`.
pub mod Open
use maestro_core.Base.{
  ℕ, zero, suc, ◌+◌, ℤ, true, false, some, [], ◌∷◌, Bytes, codes, ◌≡◌, ◌≢◌, refl, arith, Bool-cases,
  inl, inr, ◌⊎◌, ap, sym, ◌∙◌, subst,
}
use maestro_core.CString.{equal}
use maestro_core.ErrorCode.{ErrorCode, success}
use maestro_core.HttpParser.Url.{lower_scheme}
use maestro_core.Memory.{Mem}
use maestro_core.TcpClient.{Errno, Table, is_success, Opened}
use maestro_core.TcpClient.Blocking.{blocking_init, finish_connect}
use maestro_core.TcpClient.Init.{init}
use maestro_core.TlsClient.{Ssl, TlsClient, zeroed, SetUp, tls_init, handshake_step}
use maestro_core.Transport.{
  Transport, Net, Ready, in_progress, handshakes, start_tls, begun, zero_tcp, with_tcp, connect,
  transport_init,
}
use maestro_core.Transport.Running.{Finished, shake, set_up, finish}

-- The session asks for a certificate of the host that the shared chain of CAs vouches for, and
-- its handshake has ended.
pub record IsVerified (host : Bytes) (c : TlsClient) : Type 0 where
  pub required : c.verify_required ≡ true
  pub chain : c.ca_chain ≡ true
  pub named : c.hostname ≡ some host
  pub seeded : c.seeded ≡ true
  pub bio : c.bio_set ≡ true

pub tls_init-IsVerified :
    (a : SetUp) (host : Bytes)
    → (tls_init a host).0 ≡ success
    → IsVerified host (tls_init a host).1 × ((tls_init a host).1.handshake_done ≡ false)
unfolding tls_init
tls_init-IsVerified a host h = ground arith

pub tls_init-not_done : (a : SetUp) (host : Bytes) → (tls_init a host).1.handshake_done ≡ false
unfolding tls_init
tls_init-not_done a host = ground arith

pub step-IsVerified :
    (r : Ssl) (host : Bytes) (c : TlsClient) (e : Errno)
    → IsVerified host c
    → IsVerified host (handshake_step r c e).1
      × ((handshake_step r c e).0 ≡ success → (handshake_step r c e).1.handshake_done ≡ true)
unfolding handshake_step
step-IsVerified r host c e v = elim (Bool-cases c.handshake_done) [
  | inl d ↦ ground (arith, d)
  | inr d ↦ (ground (arith, d), λ h. ground (arith, d, h))
]

-- The peer of the transport has been verified as `host`.
abbrev pub Secured : Bytes → Transport → Type 0
Secured host t = IsVerified host t.tls × (t.tls.handshake_done ≡ true)

pub success_iff : (e : ErrorCode) → is_success e ≡ true → e ≡ success
unfolding is_success
success_iff success h = refl
success_iff e h = cc h

handshakes-Secured :
    (f : ℕ) (answer : ℕ → Ssl) (i : ℕ) (host : Bytes) (t : Transport) (table : Table) (e : Errno)
    (m : Mem)
    → IsVerified host t.tls
    → (handshakes f answer i t table e m).result ≡ some success
    → Secured host (handshakes f answer i t table e m).transport
unfolding handshakes
handshakes-Secured zero answer i host t table e m v h = cc h
handshakes-Secured (suc f) answer i host t table e m v h =
    let s = step-IsVerified (answer i) host t.tls e v in
    elim (Bool-cases (is_success (handshake_step (answer i) t.tls e).0)) [
      | inl ok ↦ rw (ok, handshakes) (s.0, s.1 (success_iff _ ok))
      | inr bad ↦ elim (Bool-cases (in_progress (handshake_step (answer i) t.tls e).0)) [
        | inl more ↦
            rw (bad, more, handshakes)
              (handshakes-Secured f answer (i + 1) host
                (record t { tls = (handshake_step (answer i) t.tls e).1 }) table
                (handshake_step (answer i) t.tls e).2 m s.0 (rw (bad, more, handshakes) at h))
        | inr ended ↦ cc (rw (bad, ended, handshakes) at h)
      ]
    ]

start_tls-Secured :
    (f : ℕ) (net : Net) (t : Transport) (table : Table) (e : Errno) (m : Mem)
    → (start_tls f net t table e m).result ≡ some success
    → Secured t.host (start_tls f net t table e m).transport
unfolding start_tls
start_tls-Secured f net t table e m h =
    elim (Bool-cases (is_success (tls_init net.setup t.host).0)) [
      | inl ok ↦
          rw (ok, start_tls)
            (handshakes-Secured f net.handshake 0 t.host
              (record t { tls = (tls_init net.setup t.host).1; tls_initiated = true }) table e m
              (tls_init-IsVerified net.setup t.host (success_iff _ ok)).0 (rw (ok, start_tls) at h))
      | inr bad ↦ cc (rw (bad, start_tls) at h)
    ]

with_tcp-starts :
    (f : ℕ) (net : Net) (t : Transport) (o : Opened) (e : Errno) (m : Mem)
    → t.use_tls ≡ true
    → t.use_blocking ≡ true
    → (with_tcp f net t o e m ≡ start_tls f net (record t { tcp = o.client }) o.table e m)
      ⊎ (((with_tcp f net t o e m).result ≡ some o.result) × (is_success o.result ≡ false))
unfolding with_tcp
with_tcp-starts f net t o e m tls blocking = elim (Bool-cases (is_success o.result)) [
  | inl ok ↦ inl (ground (arith, ok))
  | inr bad ↦ elim (Bool-cases (in_progress o.result)) [
    | inl more ↦ inl (ground (arith, bad, more))
    | inr ended ↦ inr (ground (arith, bad, ended), bad)
  ]
]

pub no_success : (e : ErrorCode) → is_success e ≡ false → some e ≢ some success
unfolding is_success
no_success success h is = cc h
no_success e h is = cc is

with_tcp-Secured :
    (f : ℕ) (net : Net) (t : Transport) (o : Opened) (e : Errno) (m : Mem)
    → t.use_tls ≡ true
    → t.use_blocking ≡ true
    → (with_tcp f net t o e m).result ≡ some success
    → Secured t.host (with_tcp f net t o e m).transport
with_tcp-Secured f net t o e m tls blocking h = elim (with_tcp-starts f net t o e m tls blocking) [
  | inl starts ↦
      subst (λ (r : Ready). Secured t.host r.transport) (sym starts)
        (start_tls-Secured f net (record t { tcp = o.client }) o.table e m
          (sym (ap (λ (r : Ready). r.result) starts) ∙ h))
  | inr (ends, bad) ↦ absurd (no_success o.result bad (sym ends ∙ h))
]

-- A blocking `transport_init` for the scheme https that ends with success, after any number of
-- rounds, has set the host's name, the chain of CAs, the random numbers and the calls of the
-- socket, has asked for the peer's certificate to be verified, and has ended the handshake.
pub transport_init-Secured :
    (f : ℕ) (net : Net) (t : Transport) (host port scheme : Bytes) (timeout : ℤ) (table : Table)
    (e : Errno) (m : Mem)
    → equal (lower_scheme scheme) (codes "https") ≡ true
    → (transport_init f net t host port scheme timeout true table e m).result ≡ some success
    → Secured host (transport_init f net t host port scheme timeout true table e m).transport
unfolding transport_init connect
transport_init-Secured f net t [] port scheme timeout table e m https h = cc h
transport_init-Secured f net t (b ∷ host) [] scheme timeout table e m https h = cc h
transport_init-Secured f net t (b ∷ host) (p ∷ port) [] timeout table e m https h = cc h
transport_init-Secured f net t (b ∷ host) (p ∷ port) (s ∷ scheme) timeout table e m https h =
    rw (https, transport_init)
      (with_tcp-Secured f net
        (record (begun (b ∷ host) (p ∷ port) (s ∷ scheme) timeout true) { use_tls = true })
        (blocking_init net.resolve zero_tcp (some (b ∷ host)) (some (p ∷ port)) table) e m refl refl
        (rw (https, transport_init) at h))
