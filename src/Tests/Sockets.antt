-- ===== src/Tests/Sockets.antt =====
-- Runs of the TCP client.
use maestro_core.Base.{
  ℕ, ◌≤◌, ℤ, pos, true, false, none, some, [], ◌∷◌, ◌++◌, take, ◌≡◌, ◌≢◌, refl, arith, ◌⊎◌,
  if◌then◌else◌, ◌==◌,
}
use maestro_core.ErrorCode.{err_io, err_in_progress, value}
use maestro_core.Memory.{Mem, attempt, release}
use maestro_core.TcpClient.{
  TcpClient, TcpData, eintr, einprogress, Address, interrupted, answers, writable, no_error,
  set_nonblocking, set_mode, is_success, Resolver, dispose,
}
use maestro_core.TcpClient.Init.{
  first_answer, is_in_progress, connect_once, try_address, connect_any, init, init_ptr,
}
use maestro_core.TcpClient.Blocking.{blocking_init}
use maestro_core.TcpClient.Transfer.{
  bytes_of, filled, Sent, sent, failed, returned, realloc_data, write,
}
use maestro_core.TcpClient.Descriptors.{Accounted, with_mode, init-Accounted}
use maestro_core.TcpClient.Descriptors.Blocking.{blocking_init-Accounted}
use maestro_core.TcpClient.Descriptors.Disposal.{dispose-init, init_ptr_loses_socket}
use maestro_core.TcpClient.Sending.{write_sends}
use maestro_core.TcpClient.Received.{Holds, realloc_data-Holds, realloc_data-init}

abbrev plenty : Mem
plenty = record { grants = λ _. true; asked = 0; live = 0 }

-- The first address refuses a socket, the second is being connected.
abbrev no_socket : Address
no_socket = record {
  sockaddr = 1 ∷ [];
  socket = none;
  getfl = true;
  setfl = true;
  connect = answers none;
  poll = answers writable;
  so_error = no_error;
  getfl_back = true;
  setfl_back = true;
}

abbrev connecting : Address
connecting = record no_socket {
  sockaddr = 2 ∷ [];
  socket = some 5;
  connect = interrupted (answers (some einprogress));
}

abbrev at_once : Address
at_once = record connecting { connect = answers (some einprogress) }

abbrev resolve : Resolver
resolve host port = some (no_socket ∷ connecting ∷ at_once ∷ [])

-- What `malloc` returned.
abbrev garbage : TcpClient
garbage = record {
  fd = some 77;
  read_data = none;
  write_data = none;
  received = record { addr = none; size = 2 };
  remote_addr = [];
  has_remote_addr = false;
}

in_progress : (init resolve garbage (some (1 ∷ [])) (some (2 ∷ [])) []).result ≡ err_in_progress
unfolding init connect_any try_address set_nonblocking set_mode is_success connect_once first_answer
    is_in_progress
in_progress = refl

init-Accounted_example :
    Accounted
      (no_socket ∷ connecting ∷ at_once ∷ [])
      true
      []
      (init resolve garbage (some (1 ∷ [])) (some (2 ∷ [])) [])
init-Accounted_example = init-Accounted resolve garbage (1 ∷ []) (2 ∷ []) []

blocking_init-Accounted_example :
    Accounted
      (no_socket ∷ connecting ∷ at_once ∷ [])
      false
      []
      (blocking_init resolve garbage (some (1 ∷ [])) (some (2 ∷ [])) [])
blocking_init-Accounted_example = blocking_init-Accounted resolve garbage (1 ∷ []) (2 ∷ []) []

dispose-init_run :
    (let r = init resolve garbage (some (1 ∷ [])) (some (2 ∷ [])) [] in
      (dispose r.client r.table plenty).1 ≡ [])
    × (let r = blocking_init resolve garbage (some (1 ∷ [])) (some (2 ∷ [])) [] in
        (dispose r.client r.table plenty).1 ≡ [])
dispose-init_run = dispose-init resolve garbage (1 ∷ []) (2 ∷ []) [] plenty

init_ptr_loses_socket_example :
    (n : ℕ) × (init_ptr resolve garbage (some (1 ∷ [])) (some (2 ∷ [])) [] plenty
      ≡ (err_in_progress, none, with_mode n true [], release 1 (attempt plenty)))
init_ptr_loses_socket_example =
    init_ptr_loses_socket resolve garbage (1 ∷ []) (2 ∷ []) [] plenty refl in_progress

-- One byte at a time; round 1 is interrupted.
abbrev one_byte : ℕ → ℕ → Sent
one_byte r left = if left == 0 then sent 0 else if r == 1 then failed eintr else sent 1

one_byte_honest : (r left n : ℕ) → one_byte r left ≡ sent n → n ≤ left
one_byte_honest r left n h = ground arith

one_byte_calm : (r left : ℕ) → 2 ≤ r → one_byte r left ≢ failed eintr
one_byte_calm r left h e = ground arith

abbrev writer : TcpClient
writer = record garbage { write_data = some (104 ∷ 105 ∷ []) }

write_sends_example :
    (k : ℕ) × (v : ℤ) × (write 5 one_byte writer 2 ≡ returned v (take k (104 ∷ 105 ∷ [])))
    × (k ≤ 2)
    × ((v ≡ pos k) ⊎ (v ≡ value err_io))
write_sends_example =
    write_sends one_byte 2 writer 77 2 (104 ∷ 105 ∷ []) one_byte_honest one_byte_calm refl refl
      (omega arith)

abbrev held : TcpData
held = record { addr = some (7 ∷ 0 ∷ []); size = 1 }

held-Holds : Holds held (7 ∷ [])
unfolding bytes_of
held-Holds = record { size_is = refl; bytes_are = (0 ∷ [], refl) }

realloc_data-Holds_run :
    ((realloc_data (λ _. 0) held (8 ∷ []) plenty).result ≡ pos 1)
    × Holds (realloc_data (λ _. 0) held (8 ∷ []) plenty).received (7 ∷ 8 ∷ [])
realloc_data-Holds_run =
    realloc_data-Holds (λ _. 0) held (7 ∷ []) (8 ∷ []) plenty held-Holds (omega arith) refl

realloc_data-init_run :
    (let d = (init resolve garbage (some (1 ∷ [])) (some (2 ∷ [])) []).client.received in
      (realloc_data (λ _. 9) d (8 ∷ []) plenty).received.addr)
    ≡ some (filled (λ _. 9) 2 [] ++ (8 ∷ [] ++ 0 ∷ []))
realloc_data-init_run =
    realloc_data-init (λ _. 9) resolve garbage (1 ∷ []) (2 ∷ []) [] (8 ∷ []) plenty (omega arith)
      refl
