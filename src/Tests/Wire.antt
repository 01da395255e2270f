-- ===== src/Tests/Wire.antt =====
-- Runs of the transport.
use maestro_core.Base.{zero, suc, pos, true, false, none, some, [], ◌∷◌, Bytes, codes, ◌≡◌, refl}
use maestro_core.CString.{equal, tolower}
use maestro_core.ErrorCode.{success, err_bad_format}
use maestro_core.HttpParser.Url.{lower_scheme}
use maestro_core.Memory.{Mem}
use maestro_core.TcpClient.{
  other, Table, Address, answers, lasting, writable, no_error, set_nonblocking, set_mode, close,
  is_success,
}
use maestro_core.TcpClient.Blocking.{
  blocking_init, connect_blocking, try_blocking, connected, settle,
}
use maestro_core.TcpClient.Init.{init}
use maestro_core.TlsClient.{
  ssl_value, want_read, zeroed, tls_init, handshake_step, tls_bio_recv, tls_bio_send,
}
use maestro_core.Transport.{
  Transport, Net, begun, zero_tcp, in_progress, handshakes, start_tls, with_tcp, connect,
  transport_init,
}
use maestro_core.Transport.Running.{finish, read, write, transport_dispose}
use maestro_core.Transport.Secure.{Secured, transport_init-Secured}
use maestro_core.Transport.Secure.Open.{IsSound, finish-Secured, transport_init-IsSound}
use maestro_core.Transport.Retry.{
  seen, session, writable_session, broken, again, seen-read, seen-write, session-tls_bio,
}
use maestro_core.Transport.Descriptors.{transport_dispose-transport_init}

abbrev plenty : Mem
plenty = record { grants = λ _. true; asked = 0; live = 0 }

abbrev peer : Address
peer = record {
  sockaddr = 2 ∷ [];
  socket = some 5;
  getfl = true;
  setfl = true;
  connect = answers none;
  poll = answers writable;
  so_error = no_error;
  getfl_back = true;
  setfl_back = true;
}

-- The handshake wants to read once, and then ends.
abbrev net : Net
net = record {
  resolve = λ _ _. some (peer ∷ []);
  setup = record { seed = true; defaults = true; ca = true; setup = true; set_hostname = true };
  handshake = λ i. elim i [ zero ↦ want_read | suc _ ↦ ssl_value 0 ];
  so_error = no_error;
}

abbrev old : Transport
old = begun [] [] [] (pos 0) false

abbrev host : Bytes
host = codes "h"

https_known : equal (lower_scheme (codes "HTTPS")) (codes "https") ≡ true
unfolding lower_scheme equal tolower
https_known = refl

secured_result :
    (transport_init 2 net old host host (codes "HTTPS") (pos 9) true [] other plenty).result
    ≡ some success
unfolding transport_init lower_scheme equal tolower connect with_tcp start_tls handshakes
    blocking_init connect_blocking try_blocking connected settle lasting set_nonblocking set_mode
    is_success tls_init handshake_step in_progress
secured_result = refl

transport_init-Secured_example :
    Secured host
      (transport_init 2 net old host host (codes "HTTPS") (pos 9) true [] other plenty).transport
transport_init-Secured_example =
    transport_init-Secured 2 net old host host (codes "HTTPS") (pos 9) [] other plenty https_known
      secured_result

-- A transport whose TCP connection has just been opened.
abbrev opened : Transport
opened = record (begun host host (codes "https") (pos 9) false) { use_tls = true }

opened_sound : IsSound opened
opened_sound = record { initiated = λ h. cc h; handshaken = λ h. cc h }

finish-Secured_example :
    IsSound (finish net opened other).transport
    × ((finish net opened other).result ≡ success
        → Secured host (finish net opened other).transport)
finish-Secured_example = finish-Secured net opened other refl refl opened_sound

transport_init-IsSound_example :
    (let r = transport_init 2 net old host host (codes "https") (pos 9) false [] other plenty in
      IsSound r.transport
      × (equal (lower_scheme (codes "https")) (codes "https") ≡ true
          → (init net.resolve zero_tcp (some host) (some host) []).result ≡ success
          → (r.result ≡ some success) × (r.transport.use_tls ≡ true) × (r.transport.tls ≡ zeroed)))
transport_init-IsSound_example =
    transport_init-IsSound 2 net old b'h' b'h' b'h' [] [] (codes "ttps") (pos 9) [] other plenty

seen-read_run : seen (read (pos 3, other) want_read opened other) ≡ again
unfolding session
seen-read_run = seen-read (pos 3, other) want_read opened other

seen-write_run : seen (write (pos 3, other) want_read opened other) ≡ again
unfolding writable_session
seen-write_run = seen-write (pos 3, other) want_read opened other

session-tls_bio_run :
    (session (tls_bio_recv (pos 0) other) ≡ broken) × (session (tls_bio_send (pos 0) other) ≡ again)
unfolding seen
session-tls_bio_run = session-tls_bio (pos 0) other

-- Descriptor 0 is the program's input.
abbrev input_open : Table
input_open = record { number = 0; nonblocking = false } ∷ []

transport_dispose-transport_init_example :
    (let r =
        transport_init 2 net old host host (codes "ftp") (pos 9) true input_open other plenty in
      ((transport_dispose r.transport r.table plenty).1 ≡ close 0 input_open)
      × (false ≡ false → r.result ≡ some err_bad_format))
unfolding equal lower_scheme tolower
transport_dispose-transport_init_example =
    transport_dispose-transport_init 2 net old b'h' b'h' b'f' [] [] (codes "tp") (pos 9) true
      input_open other plenty plenty

transport_dispose-transport_init_run :
    (let r = transport_init 2 net old host host (codes "HTTPS") (pos 9) true [] other plenty in
      (transport_dispose r.transport r.table plenty).1 ≡ [])
unfolding equal lower_scheme tolower
transport_dispose-transport_init_run =
    (transport_dispose-transport_init 2 net old b'h' b'h' b'H' [] [] (codes "TTPS") (pos 9) true []
      other plenty plenty).0
