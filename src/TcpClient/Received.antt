-- ===== src/TcpClient/Received.antt =====
-- What `tcp_client_realloc_data` keeps.
use maestro_core.Base.{
  ℕ, pos, true, none, some, [], ◌∷◌, ◌++◌, Bytes, length, ◌≡◌, refl, arith, ◌<◌, ap, sym, ◌∙◌,
  length-append, append_assoc, false, ◌==◌, Option-cases, inl, inr, List,
}
use maestro_core.Memory.{Mem, granted}
use maestro_core.TcpClient.{TcpClient, TcpData, Table, Address, Resolver, cleared}
use maestro_core.TcpClient.Init.{connect_any, init, Tried, next, keep, try_address}
use maestro_core.TcpClient.Transfer.{filled, bytes_of, realloc_data}

filled-append : (junk : ℕ → ℕ) (s rest : Bytes) → filled junk (length s) (s ++ rest) ≡ s
unfolding filled
filled-append junk [] rest = refl
filled-append junk (b ∷ s) rest = ap (λ (t : Bytes). b ∷ t) (filled-append junk s rest)

bytes_of-some : (s : Bytes) → bytes_of (some s) ≡ s
unfolding bytes_of
bytes_of-some s = refl

-- Where the buffer holds `size` bytes and a NUL, or there is none and `size` is 0.
pub record Holds (d : TcpData) (s : Bytes) : Type 0 where
  pub size_is : d.size ≡ length s
  pub bytes_are : (tail : Bytes) × (bytes_of d.addr ≡ s ++ tail)

-- With memory granted, `tcp_client_realloc_data` appends a nonempty input to the bytes that the
-- buffer holds, and gives the number of bytes added.
pub realloc_data-Holds :
    (junk : ℕ → ℕ) (d : TcpData) (s input : Bytes) (m : Mem)
    → Holds d s
    → 0 < length input
    → granted m ≡ true
    → ((realloc_data junk d input m).result ≡ pos (length input))
      × Holds (realloc_data junk d input m).received (s ++ input)
unfolding realloc_data
realloc_data-Holds junk d s input m h some_input g =
    let nonempty : (length input == 0) ≡ false = ground arith in
    let (tail, is) = h.bytes_are in
    let old =
      ap (λ k. filled junk k (bytes_of d.addr)) h.size_is
      ∙ ap (filled junk (length s)) is
      ∙ filled-append junk s tail in
    rw (nonempty, realloc_data, g)
      (
        refl,
        record {
          size_is = omega (arith, h.size_is, length-append s input);
          bytes_are = (
            0 ∷ [],
            bytes_of-some _
                ∙ ap (λ (t : Bytes). t ++ (input ++ 0 ∷ [])) old
                ∙ sym (append_assoc s input (0 ∷ [])),
          );
        },
      )

connect_any-received :
    (l : List Address) (c : TcpClient) (t : Table)
    → (connect_any l c t).client.received ≡ c.received
unfolding connect_any
connect_any-received [] c t = refl
connect_any-received (a ∷ l) c t = from (try_address a t) refl (connect_any-received l c)
  where
    from :
        (r : Tried)
        → try_address a t ≡ r
        → ((u : Table) → (connect_any l c u).client.received ≡ c.received)
        → (connect_any (a ∷ l) c t).client.received ≡ c.received
    from (next u) is rest = rw (is, connect_any) (rest u)
    from (keep n e u) is rest = rw (is, connect_any) refl

init-received :
    (resolve : Resolver) (c : TcpClient) (host port : Bytes) (t : Table)
    → (init resolve c (some host) (some port) t).client.received ≡ (cleared c).received
unfolding init
init-received resolve c host port t = elim (Option-cases (resolve host port)) [
  | inl is ↦ rw (is, init) refl
  | inr (l, is) ↦ rw (is, init) (connect_any-received l (cleared c) t)
]

-- What the bytes are that `tcp_client_realloc_data` puts into an empty buffer.
realloc_data-empty :
    (junk : ℕ → ℕ) (size : ℕ) (input : Bytes) (m : Mem)
    → 0 < length input
    → granted m ≡ true
    → (realloc_data junk (record { addr = none; size = size }) input m).received.addr
      ≡ some (filled junk size [] ++ (input ++ 0 ∷ []))
unfolding realloc_data bytes_of
realloc_data-empty junk size input m some_input g =
    let nonempty : (length input == 0) ≡ false = ground arith in rw (nonempty, realloc_data, g) refl

-- `tcp_client_init` does not set `data.size`: with memory granted, the first call of
-- `tcp_client_realloc_data` on a nonempty input puts it behind as many unwritten bytes as the
-- memory of the client held for a size, whatever that is.
pub realloc_data-init :
    (junk : ℕ → ℕ) (resolve : Resolver) (c : TcpClient) (host port : Bytes) (t : Table)
    (input : Bytes) (m : Mem)
    → 0 < length input
    → granted m ≡ true
    → (let d = (init resolve c (some host) (some port) t).client.received in
        (realloc_data junk d input m).received.addr)
      ≡ some (filled junk c.received.size [] ++ (input ++ 0 ∷ []))
realloc_data-init junk resolve c host port t input m some_input g =
    ap (λ (d : TcpData). (realloc_data junk d input m).received.addr)
      (init-received resolve c host port t)
    ∙ realloc_data-empty junk c.received.size input m some_input g
