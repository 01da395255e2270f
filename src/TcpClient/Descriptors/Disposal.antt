-- ===== src/TcpClient/Descriptors/Disposal.antt =====
-- The descriptors behind `tcp_client_dispose` and `tcp_client_init_ptr`.
use maestro_core.Base.{List, ℕ, Bool, true, false, none, some, Bytes, ◌≡◌, arith, inl, inr}
use maestro_core.ErrorCode.{err_in_progress}
use maestro_core.Memory.{Mem, granted, attempt, release}
use maestro_core.TcpClient.{Address, TcpClient, Table, is_success, Opened, Resolver, dispose}
use maestro_core.TcpClient.Init.{init, init_ptr}
use maestro_core.TcpClient.Blocking.{blocking_init}
use maestro_core.TcpClient.Descriptors.{
  with_mode, close-with_mode, Accounted, refused, opened, init-Accounted,
}
use maestro_core.TcpClient.Descriptors.Blocking.{blocking_init-Accounted}

pub closed-Accounted :
    {l : List Address} (mode : Bool) (t : Table) (r : Opened) (m : Mem)
    → Accounted l mode t r
    → (dispose r.client r.table m).1 ≡ t
unfolding dispose
closed-Accounted mode t r m (refused h e is) = ground (arith, e, is)
closed-Accounted mode t r m (opened n h e is at) = ground (arith, e, is, close-with_mode n mode t)

-- Whatever `tcp_client_init` and `tcp_client_blocking_init` end with, `tcp_client_dispose` leaves
-- the table of descriptors as it was before them.
pub dispose-init :
    (resolve : Resolver) (c : TcpClient) (host port : Bytes) (t : Table) (m : Mem)
    → (let r = init resolve c (some host) (some port) t in (dispose r.client r.table m).1 ≡ t)
      × (let r = blocking_init resolve c (some host) (some port) t in
          (dispose r.client r.table m).1 ≡ t)
dispose-init resolve c host port t m = (
  closed-Accounted true t (init resolve c (some host) (some port) t) m
      (init-Accounted resolve c host port t),
  closed-Accounted false t (blocking_init resolve c (some host) (some port) t) m
      (blocking_init-Accounted resolve c host port t),
)

-- Where the connection is in progress, `tcp_client_init_ptr` gives the caller no client and
-- releases the block, while the socket stays open: a descriptor is lost with each such call.
pub init_ptr_loses_socket :
    (resolve : Resolver) (fresh : TcpClient) (host port : Bytes) (t : Table) (m : Mem)
    → granted m ≡ true
    → (init resolve fresh (some host) (some port) t).result ≡ err_in_progress
    → (n : ℕ) × (init_ptr resolve fresh (some host) (some port) t m
        ≡ (err_in_progress, none, with_mode n true t, release 1 (attempt m)))
unfolding init_ptr is_success
init_ptr_loses_socket resolve fresh host port t m g h =
    elim (init-Accounted resolve fresh host port t) [
      | refused bad e is ↦ elim bad [ inl q ↦ cc | inr q ↦ cc ]
      | opened n ends e is at ↦ (n, ground (arith, g, h, is))
    ]
