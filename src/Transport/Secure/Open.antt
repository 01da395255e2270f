-- ===== src/Transport/Secure/Open.antt =====
-- Verified sessions of transports that do not block.
use maestro_core.Base.{
  ℕ, ℤ, true, false, some, ◌∷◌, Bytes, codes, ◌≡◌, refl, arith, Bool-cases, inl, inr, ap, sym,
  subst,
}
use maestro_core.CString.{equal}
use maestro_core.ErrorCode.{success}
use maestro_core.HttpParser.Url.{lower_scheme}
use maestro_core.Memory.{Mem}
use maestro_core.TcpClient.{Errno, Table, is_success, Opened}
use maestro_core.TcpClient.Blocking.{finish_connect}
use maestro_core.TcpClient.Init.{init}
use maestro_core.TlsClient.{zeroed, tls_init, handshake_step}
use maestro_core.Transport.{
  Transport, Net, Ready, in_progress, begun, zero_tcp, with_tcp, connect, transport_init,
}
use maestro_core.Transport.Running.{Finished, shake, set_up, finish}
use maestro_core.Transport.Secure.{
  IsVerified, Secured, tls_init-IsVerified, tls_init-not_done, step-IsVerified, success_iff,
  no_success,
}

-- What holds of a transport that does not block, from `transport_init` on.
pub record IsSound (t : Transport) : Type 0 where
  pub initiated : t.tls_initiated ≡ true → IsVerified t.host t.tls
  pub handshaken : t.tls.handshake_done ≡ true → t.tls_initiated ≡ true

-- The result of `transport_finish_connect` for a transport `t` with TLS.
record Finishes (host : Bytes) (r : Finished) : Type 0 where
  sound : IsSound r.transport
  secured : r.result ≡ success → Secured host r.transport

shake-Finishes :
    (net : Net) (t : Transport) (e : Errno)
    → t.tls_initiated ≡ true
    → IsVerified t.host t.tls
    → Finishes t.host (shake net t e)
unfolding shake
shake-Finishes net t e begun' v =
    let s = step-IsVerified (net.handshake 0) t.host t.tls e v in
    elim (Bool-cases (is_success (handshake_step (net.handshake 0) t.tls e).0)) [
      | inl ok ↦
          rw (ok, shake)
            (record {
              sound = record { initiated = λ _. s.0; handshaken = λ _. begun' };
              secured = λ _. (s.0, s.1 (success_iff _ ok));
            })
      | inr bad ↦ elim (Bool-cases (in_progress (handshake_step (net.handshake 0) t.tls e).0)) [
        | inl more ↦
            rw (bad, more, shake)
              (record {
                sound = record { initiated = λ _. s.0; handshaken = λ _. begun' };
                secured = λ h. cc h;
              })
        | inr ended ↦
            rw (bad, ended, shake)
              (record {
                sound = record { initiated = λ _. s.0; handshaken = λ _. begun' };
                secured = λ h. cc h;
              })
      ]
    ]

set_up-Finishes :
    (net : Net) (t : Transport) (e : Errno)
    → t.tls_initiated ≡ false
    → Finishes t.host (set_up net t e)
unfolding set_up
set_up-Finishes net t e fresh = elim (Bool-cases (is_success (tls_init net.setup t.host).0)) [
  | inl ok ↦
      rw (ok, set_up)
        (shake-Finishes net (record t { tls = (tls_init net.setup t.host).1; tls_initiated = true })
          e refl (tls_init-IsVerified net.setup t.host (success_iff _ ok)).0)
  | inr bad ↦
      rw (bad, set_up)
        (record {
          sound = record {
            initiated = λ h. cc h;
            handshaken = λ h. cc (tls_init-not_done net.setup t.host);
          };
          secured = λ h. cc h;
        })
]

finished :
    {host : Bytes} {r : Finished}
    → Finishes host r
    → IsSound r.transport × (r.result ≡ success → Secured host r.transport)
finished f = (f.sound, f.secured)

-- `transport_finish_connect` on a transport with TLS that does not block keeps the order of the
-- set-up: a handshake is made only in a session that is set up to verify the host. When it ends
-- with success, the handshake has ended and the peer has been verified as the host.
pub finish-Secured :
    (net : Net) (t : Transport) (e : Errno)
    → t.use_tls ≡ true
    → t.use_blocking ≡ false
    → IsSound t
    → IsSound (finish net t e).transport
      × ((finish net t e).result ≡ success → Secured t.host (finish net t e).transport)
unfolding finish
finish-Secured net t e tls open_socket v =
    elim (Bool-cases (is_success (finish_connect net.so_error))) [
      | inl ok ↦ elim (Bool-cases t.tls_initiated) [
        | inl old ↦
            let is : finish net t e ≡ shake net t e = ground (arith, ok, old) in
            finished
              (subst (Finishes t.host) (sym is) (shake-Finishes net t e old (v.initiated old)))
        | inr fresh ↦
            let is : finish net t e ≡ set_up net t e = ground (arith, ok, fresh) in
            finished (subst (Finishes t.host) (sym is) (set_up-Finishes net t e fresh))
      ]
      | inr bad ↦
          let is : finish net t e
              ≡ record { result = finish_connect net.so_error; transport = t; errno = e } =
            ground (arith, bad) in
          finished (
            subst (Finishes t.host) (sym is) (record {
              sound = v;
              secured = λ h. absurd (no_success (finish_connect net.so_error) bad (ap some h));
            }))
    ]

-- Without blocking, the TCP connection is all that `transport_init` makes.
unfoldable pub opened_only : Transport → Opened → Errno → Mem → Ready
opened_only t o e m = record {
  result = some o.result;
  transport = record t { tcp = o.client };
  table = o.table;
  errno = e;
  mem = m;
}

connect-open :
    (f : ℕ) (net : Net) (t : Transport) (table : Table) (e : Errno) (m : Mem)
    → t.use_blocking ≡ false
    → connect f net t table e m
      ≡ opened_only t (init net.resolve t.tcp (some t.host) (some t.port) table) e m
unfolding connect with_tcp opened_only
connect-open f net t table e m h = ground arith

opened_only-IsSound :
    (t : Transport) (o : Opened) (e : Errno) (m : Mem)
    → t.tls ≡ zeroed
    → t.tls_initiated ≡ false
    → IsSound (opened_only t o e m).transport
unfolding opened_only
opened_only-IsSound t o e m z h = record { initiated = λ i. cc h; handshaken = λ d. cc z }

-- A transport that does not block is sound when `transport_init` returns; and where its scheme is
-- https and the connection stands at once, the result is success although no session has been
-- set up and no handshake made.
pub transport_init-IsSound :
    (f : ℕ) (net : Net) (t : Transport) (h p s : ℕ) (host port scheme : Bytes) (timeout : ℤ)
    (table : Table) (e : Errno) (m : Mem)
    → (let r = transport_init f net t (h ∷ host) (p ∷ port) (s ∷ scheme) timeout false table e m in
        IsSound r.transport
        × (equal (lower_scheme (s ∷ scheme)) (codes "https") ≡ true
            → (init net.resolve zero_tcp (some (h ∷ host)) (some (p ∷ port)) table).result ≡ success
            → (r.result ≡ some success)
              × (r.transport.use_tls ≡ true)
              × (r.transport.tls ≡ zeroed)))
unfolding transport_init opened_only
transport_init-IsSound f net t h p s host port scheme timeout table e m =
    elim (Bool-cases (equal (lower_scheme (s ∷ scheme)) (codes "https"))) [
      | inl https ↦
          rw (https, transport_init, connect-open f net (secure b) table e m refl)
            (
              opened_only-IsSound (secure b) (tcp table) e m refl refl,
              λ _ ok. (ap some ok, refl, refl),
            )
      | inr other ↦ elim (Bool-cases (equal (lower_scheme (s ∷ scheme)) (codes "http"))) [
        | inl http ↦
            rw (other, http, transport_init, connect-open f net b table e m refl)
              (opened_only-IsSound b (tcp table) e m refl refl, λ x. cc)
        | inr no_scheme ↦
            rw (other, no_scheme, transport_init)
              (record { initiated = λ i. cc; handshaken = λ d. cc }, λ x. cc)
      ]
    ]
  where
    b : Transport
    b = begun (h ∷ host) (p ∷ port) (s ∷ scheme) timeout false

    secure : Transport → Transport
    secure u = record u { use_tls = true }

    tcp : Table → Opened
    tcp u = init net.resolve zero_tcp (some (h ∷ host)) (some (p ∷ port)) u
