-- ===== src/Transport/Descriptors.antt =====
-- The descriptors behind `transport_init` and `transport_dispose`.
use maestro_core.Base.{
  ℕ, zero, suc, ◌+◌, ℤ, Bool, true, false, some, ◌∷◌, Bytes, codes, ◌≡◌, refl, arith, Bool-cases,
  inl, inr, ◌∙◌, ◌||◌, if◌then◌else◌,
}
use maestro_core.CString.{equal}
use maestro_core.ErrorCode.{err_bad_format}
use maestro_core.HttpParser.Url.{lower_scheme}
use maestro_core.Memory.{Mem}
use maestro_core.TcpClient.{TcpClient, Errno, Table, is_success, Opened, dispose, close}
use maestro_core.TcpClient.Blocking.{blocking_init}
use maestro_core.TcpClient.Init.{init}
use maestro_core.TcpClient.Descriptors.{init-Accounted}
use maestro_core.TcpClient.Descriptors.Blocking.{blocking_init-Accounted}
use maestro_core.TcpClient.Descriptors.Disposal.{closed-Accounted}
use maestro_core.TlsClient.{Ssl, tls_init, handshake_step}
use maestro_core.Transport.{
  Transport, Net, Ready, begun, in_progress, handshakes, start_tls, with_tcp, connect,
  transport_init,
}
use maestro_core.Transport.Running.{transport_dispose}

-- Disposing of the transport now leaves the table `base`.
abbrev Closes : Table → TcpClient → Table → Type 0
Closes base c table = (m : Mem) → (dispose c table m).1 ≡ base

abbrev ReadyCloses : Table → Ready → Type 0
ReadyCloses base r = Closes base r.transport.tcp r.table

handshakes-Closes :
    (base : Table) (f : ℕ) (answer : ℕ → Ssl) (i : ℕ) (t : Transport) (table : Table) (e : Errno)
    (m : Mem)
    → Closes base t.tcp table
    → ReadyCloses base (handshakes f answer i t table e m)
unfolding handshakes
handshakes-Closes base zero answer i t table e m c = c
handshakes-Closes base (suc f) answer i t table e m c =
    elim (Bool-cases (is_success (handshake_step (answer i) t.tls e).0)) [
      | inl ok ↦ rw (ok, handshakes) c
      | inr bad ↦ elim (Bool-cases (in_progress (handshake_step (answer i) t.tls e).0)) [
        | inl more ↦
            rw (bad, more, handshakes)
              (handshakes-Closes base f answer (i + 1)
                (record t { tls = (handshake_step (answer i) t.tls e).1 }) table
                (handshake_step (answer i) t.tls e).2 m c)
        | inr ended ↦ rw (bad, ended, handshakes) c
      ]
    ]

dispose_twice :
    (c : TcpClient) (table : Table) (m n : Mem)
    → (dispose (dispose c table m).0 (dispose c table m).1 n).1 ≡ (dispose c table m).1
unfolding dispose
dispose_twice c table m n = refl

start_tls-Closes :
    (base : Table) (f : ℕ) (net : Net) (t : Transport) (table : Table) (e : Errno) (m : Mem)
    → Closes base t.tcp table
    → ReadyCloses base (start_tls f net t table e m)
unfolding start_tls
start_tls-Closes base f net t table e m c =
    elim (Bool-cases (is_success (tls_init net.setup t.host).0)) [
      | inl ok ↦
          rw (ok, start_tls)
            (handshakes-Closes base f net.handshake 0
              (record t { tls = (tls_init net.setup t.host).1; tls_initiated = true }) table e m c)
      | inr bad ↦ rw (bad, start_tls) (λ n. dispose_twice t.tcp table m n ∙ c m)
    ]

with_tcp-Closes :
    (base : Table) (f : ℕ) (net : Net) (t : Transport) (o : Opened) (e : Errno) (m : Mem)
    → Closes base o.client o.table
    → ReadyCloses base (with_tcp f net t o e m)
unfolding with_tcp
with_tcp-Closes base f net t o e m c n =
    ground (arith, c n, start_tls-Closes base f net (record t { tcp = o.client }) o.table e m c n)

connect-Closes :
    (f : ℕ) (net : Net) (t : Transport) (table : Table) (e : Errno) (m : Mem)
    → ReadyCloses table (connect f net t table e m)
unfolding connect
connect-Closes f net t table e m n = ground (
  arith,
  with_tcp-Closes table f net t (blocking_init net.resolve t.tcp (some t.host) (some t.port) table)
      e m
      (λ k.
        closed-Accounted false table _ k
          (blocking_init-Accounted net.resolve t.tcp t.host t.port table))
      n,
  with_tcp-Closes table f net t (init net.resolve t.tcp (some t.host) (some t.port) table) e m
      (λ k. closed-Accounted true table _ k (init-Accounted net.resolve t.tcp t.host t.port table))
      n,
)

transport_dispose-tcp :
    (t : Transport) (table : Table) (m : Mem)
    → (transport_dispose t table m).1 ≡ (dispose t.tcp table m).1
unfolding transport_dispose
transport_dispose-tcp t table m = ground arith

abbrev named : Bytes → Bytes → Bool
named scheme name = equal (lower_scheme scheme) name

-- The transport is filled with zeros before its fields are set.
dispose-begun :
    (host port scheme : Bytes) (timeout : ℤ) (blocking : Bool) (table : Table) (m : Mem)
    → (dispose (begun host port scheme timeout blocking).tcp table m).1 ≡ close 0 table
unfolding dispose
dispose-begun host port scheme timeout blocking table m = refl

-- For a host, a port and a scheme: whatever `transport_init` ends with, or however far its loop of
-- handshakes has come, `transport_dispose` then leaves the table of descriptors as it was where the
-- scheme is https or http. For any other scheme the result is ERR_BAD_FORMAT and
-- `transport_dispose` closes descriptor 0, which the transport never opened.
pub transport_dispose-transport_init :
    (f : ℕ) (net : Net) (t : Transport) (h p s : ℕ) (host port scheme : Bytes) (timeout : ℤ)
    (blocking : Bool) (table : Table) (e : Errno) (m n : Mem)
    → (let known = named (s ∷ scheme) (codes "https") || named (s ∷ scheme) (codes "http") in
        let r =
          transport_init f net t (h ∷ host) (p ∷ port) (s ∷ scheme) timeout blocking table e m in
        ((transport_dispose r.transport r.table n).1 ≡ (if known then table else close 0 table))
        × (known ≡ false → r.result ≡ some err_bad_format))
unfolding transport_init
transport_dispose-transport_init f net t h p s host port scheme timeout blocking table e m n =
    elim (Bool-cases (named (s ∷ scheme) (codes "https"))) [
      | inl https ↦
          rw (https, transport_init)
            (
              transport_dispose-tcp _ _ n
                  ∙ connect-Closes f net (record b { use_tls = true }) table e m n,
              λ no. cc no,
            )
      | inr other ↦ elim (Bool-cases (named (s ∷ scheme) (codes "http"))) [
        | inl http ↦
            rw (other, http, transport_init)
              (transport_dispose-tcp _ _ n ∙ connect-Closes f net b table e m n, λ no. cc no)
        | inr no_scheme ↦
            rw (other, no_scheme, transport_init)
              (
                transport_dispose-tcp b table n
                    ∙ dispose-begun (h ∷ host) (p ∷ port) (s ∷ scheme) timeout blocking table n,
                λ _. refl,
              )
      ]
    ]
  where
    b : Transport
    b = begun (h ∷ host) (p ∷ port) (s ∷ scheme) timeout blocking
