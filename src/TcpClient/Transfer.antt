-- ===== src/TcpClient/Transfer.antt =====
-- `tcp_client_realloc_data` and `tcp_client_write`.
use maestro_core.Base.{
  ℕ, suc, zero, ◌+◌, ℤ, pos, Option, none, some, [], ◌∷◌, ◌++◌, Bytes, length, take, drop, ◌==◌,
  ltb, if◌then◌else◌,
}
use maestro_core.ErrorCode.{err_invalid_arg, err_io, err_no_memory, value}
use maestro_core.Memory.{Mem, granted, attempt}
use maestro_core.TcpClient.{TcpData, TcpClient, Errno, eintr, eagain, ewouldblock, enotconn}

-- `tcp_client_realloc_data`: `junk` is what the bytes hold that nobody wrote.
unfoldable pub filled : (ℕ → ℕ) → ℕ → Bytes → Bytes
filled junk zero s = []
filled junk (suc n) [] = junk n ∷ filled junk n []
filled junk (suc n) (b ∷ s) = b ∷ filled junk n s

unfoldable pub bytes_of : Option Bytes → Bytes
bytes_of none = []
bytes_of (some s) = s

reallocated : Option Bytes → Mem → Mem
reallocated none m = attempt m
reallocated (some _) m = record (attempt m) { live = m.live }

-- The result is the number of bytes added; `addr` then holds `size` bytes and a NUL.
pub record Grown : Type 0 where
  pub result : ℤ
  pub received : TcpData
  pub mem : Mem

unfoldable pub realloc_data : (ℕ → ℕ) → TcpData → Bytes → Mem → Grown
unfolding filled bytes_of reallocated
realloc_data junk d input m =
    if length input == 0
    then record { result = value err_invalid_arg; received = d; mem = m }
    else if granted m
    then record {
      result = pos (length input);
      received = record {
        addr = some (filled junk d.size (bytes_of d.addr) ++ (input ++ 0 ∷ []));
        size = d.size + length input;
      };
      mem = reallocated d.addr m;
    }
    else record { result = value err_no_memory; received = d; mem = attempt m }

-- What `send` answers.
pub data Sent : Type 0 where
  sent : ℕ → Sent
  failed : Errno → Sent

pub data Written : Type 0 where
  returned : ℤ → Bytes → Written
  running : Bytes → Written
  overread : Written

-- Whether `tcp_client_write` calls `send` again, gives the count back, or gives up.
pub data AfterError : Type 0 where
  again give_count give_up : AfterError

unfoldable pub after_error : Errno → AfterError
after_error eintr = again
after_error eagain = give_count
after_error ewouldblock = give_count
after_error enotconn = give_count
after_error _ = give_up

-- The loop, over the bytes that are left, with those that the peer was sent; answer `r` is to the
-- call in round `r`.
unfoldable pub write_loop : ℕ → (ℕ → ℕ → Sent) → ℕ → Bytes → ℕ → Bytes → Written
unfolding after_error
write_loop zero kernel r left total wire = running wire
write_loop (suc f) kernel r left total wire =
    let more : Written = elim (kernel r (length left)) [
      | sent n ↦
          let rest = write_loop f kernel (r + 1) (drop n left) (total + n) (wire ++ take n left) in
          if n == 0 then returned (pos total) wire else rest
      | failed e ↦ elim (after_error e) [
        | again ↦ write_loop f kernel (r + 1) left total wire
        | give_count ↦ returned (pos total) wire
        | give_up ↦ returned (value err_io) wire
      ]
    ] in
    if length left == 0 then returned (pos total) wire else more

unfoldable pub write : ℕ → (ℕ → ℕ → Sent) → TcpClient → ℕ → Written
unfolding write_loop
write f kernel c len = elim c.fd [
  | none ↦ returned (value err_invalid_arg) []
  | some n ↦ elim c.write_data [
    | none ↦ returned (value err_invalid_arg) []
    | some s ↦ if ltb (length s) len then overread else write_loop f kernel 0 (take len s) 0 []
  ]
]
