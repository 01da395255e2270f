-- ===== src/TcpClient/Sending.antt =====
-- What `tcp_client_write` sends, and that it comes to an end.
use maestro_core.Base.{
  ℕ, zero, suc, ◌+◌, ◌-◌, ◌≤◌, ◌<◌, ℤ, pos, some, [], ◌∷◌, ◌++◌, Bytes, length, take, drop, ◌≡◌,
  ◌≢◌, refl, arith, ◌⊎◌, inl, inr, Bool-cases, ap, sym, ◌∙◌, append_assoc, append-nil, length-drop,
  ◌==◌, length-take, dec_lt,
}
use maestro_core.ErrorCode.{value, err_io}
use maestro_core.TcpClient.{TcpClient, Errno, eintr}
use maestro_core.TcpClient.Transfer.{
  Sent, sent, failed, Written, returned, AfterError, again, give_count, give_up, after_error,
  write_loop, write,
}

-- What `send` documents: it takes at most what it is given.
abbrev pub TakesAtMost : (ℕ → ℕ → Sent) → Type 0
TakesAtMost kernel = (r left n : ℕ) → kernel r left ≡ sent n → n ≤ left

-- From round `j` on `send` is not interrupted.
abbrev pub UninterruptedFrom : ℕ → (ℕ → ℕ → Sent) → Type 0
UninterruptedFrom j kernel = (r left : ℕ) → j ≤ r → kernel r left ≢ failed eintr

-- The first `k` bytes of those that were left are sent behind `wire`.
record SentPart (left : Bytes) (total : ℕ) (wire : Bytes) (w : Written) : Type 0 where
  count : ℕ
  part : count ≤ length left
  result : ℤ
  is : w ≡ returned result (wire ++ take count left)
  counts : (result ≡ pos (total + count)) ⊎ (result ≡ value err_io)

take-nil : (k : ℕ) → take {A = ℕ} k [] ≡ []
take-nil zero = refl
take-nil (suc k) = refl

suc_add : (n k : ℕ) → suc (n + k) ≡ suc n + k
suc_add n k = omega arith

take_add : (n k : ℕ) (l : Bytes) → take n l ++ take k (drop n l) ≡ take (n + k) l
take_add zero k l = ap (λ i. take i l) (omega arith)
take_add (suc n) k [] = take-nil k ∙ sym (take-nil (suc n + k))
take_add (suc n) k (x ∷ l) =
    ap (λ (t : Bytes). x ∷ t) (take_add n k l) ∙ ap (λ i. take i (x ∷ l)) (suc_add n k)

nothing_sent :
    (left : Bytes) (total : ℕ) (wire : Bytes) (v : ℤ)
    → (v ≡ pos total) ⊎ (v ≡ value err_io)
    → SentPart left total wire (returned v wire)
nothing_sent left total wire v h = record {
  count = 0;
  part = omega arith;
  result = v;
  is = ap (returned v) (sym (append-nil wire));
  counts = elim h [ inl e ↦ inl (e ∙ ap pos (omega arith)) | inr e ↦ inr e ];
}

more_sent :
    (n : ℕ) (left : Bytes) (total : ℕ) (wire : Bytes) (w : Written)
    → n ≤ length left
    → SentPart (drop n left) (total + n) (wire ++ take n left) w
    → SentPart left total wire w
more_sent n left total wire w h s = record {
  count = n + s.count;
  part = omega (arith, s.part, length-drop n left);
  result = s.result;
  is =
      s.is
      ∙ ap (returned s.result) (
          append_assoc wire (take n left) (take s.count (drop n left))
          ∙ ap (λ l. wire ++ l) (take_add n s.count left));
  counts = elim s.counts [ inl e ↦ inl (e ∙ ap pos (omega arith)) | inr e ↦ inr e ];
}

Sent-cases : (s : Sent) → ((n : ℕ) × (s ≡ sent n)) ⊎ ((e : Errno) × (s ≡ failed e))
Sent-cases (sent n) = inl (n, refl)
Sent-cases (failed e) = inr (e, refl)

AfterError-cases : (a : AfterError) → (a ≡ again) ⊎ ((a ≡ give_count) ⊎ (a ≡ give_up))
AfterError-cases again = inl refl
AfterError-cases give_count = inr (inl refl)
AfterError-cases give_up = inr (inr refl)

after_error-eq-again : (e : Errno) → after_error e ≡ again → e ≡ eintr
unfolding after_error
after_error-eq-again eintr h = refl
after_error-eq-again e h = cc h

module _ (kernel : ℕ → ℕ → Sent) (j : ℕ) (honest : TakesAtMost kernel)
    (calm : UninterruptedFrom j kernel) where
  -- An interrupted round is below `j`, and so uses up one of those that are to come.
  retry_fits :
      (f r left : ℕ)
      → kernel r left ≡ failed eintr
      → (j - r) + left < suc f
      → (j - (r + 1)) + left < f
  retry_fits f r left is h = elim (dec_lt r j) [
    | yes p ↦ omega arith
    | no p ↦ absurd (calm r left (omega arith) is)
  ]

  loop-SentPart :
      (f r : ℕ) (left : Bytes) (total : ℕ) (wire : Bytes)
      → (j - r) + length left < f
      → SentPart left total wire (write_loop f kernel r left total wire)
  unfolding write_loop
  loop-SentPart zero r left total wire h = absurd (omega arith)
  loop-SentPart (suc f) r left total wire h = elim (Bool-cases (length left == 0)) [
    | inl all ↦ rw (all, write_loop) (nothing_sent left total wire (pos total) (inl refl))
    | inr some_left ↦ elim (Sent-cases (kernel r (length left))) [
      | inl (n, is) ↦ elim (Bool-cases (n == 0)) [
        | inl none_taken ↦
            rw (some_left, is, none_taken, write_loop)
              (nothing_sent left total wire (pos total) (inl refl))
        | inr taken ↦
            rw (some_left, is, taken, write_loop)
              (more_sent n left total wire _ (honest r (length left) n is) (
                loop-SentPart f (r + 1) (drop n left) (total + n) (wire ++ take n left)
                  (ground (arith, length-drop n left, honest r (length left) n is))))
      ]
      | inr (e, is) ↦ elim (AfterError-cases (after_error e)) [
        | inl retry ↦
            rw (some_left, is, retry, write_loop)
              (loop-SentPart f (r + 1) left total wire
                (retry_fits f r (length left) (is ∙ ap failed (after_error-eq-again e retry)) h))
        | inr (inl give) ↦
            rw (some_left, is, give, write_loop)
              (nothing_sent left total wire (pos total) (inl refl))
        | inr (inr up) ↦
            rw (some_left, is, up, write_loop)
              (nothing_sent left total wire (value err_io) (inr refl))
      ]
    ]
  ]

take-take : (k n : ℕ) (l : Bytes) → k ≤ n → take k (take n l) ≡ take k l
take-take zero n l h = refl
take-take (suc k) zero l h = absurd (omega arith)
take-take (suc k) (suc n) [] h = refl
take-take (suc k) (suc n) (x ∷ l) h = ap (λ (t : Bytes). x ∷ t) (take-take k n l (omega arith))

-- With a send buffer of at least `len` bytes on an open socket, `send` taking at most what it is
-- given and not interrupted from some round `j` on, `tcp_client_write` returns in `j + len + 1`
-- rounds: the peer was sent the first `k` bytes of the message, in order and each once, and the
-- result is `k` or ERR_IO.
pub write_sends :
    (kernel : ℕ → ℕ → Sent) (j : ℕ) (c : TcpClient) (n len : ℕ) (s : Bytes)
    → TakesAtMost kernel
    → UninterruptedFrom j kernel
    → c.fd ≡ some n
    → c.write_data ≡ some s
    → len ≤ length s
    → (k : ℕ) × (v : ℤ) × (write (j + len + 1) kernel c len ≡ returned v (take k s))
      × (k ≤ len)
      × ((v ≡ pos k) ⊎ (v ≡ value err_io))
unfolding write
write_sends kernel j c n len s honest calm open_fd has fits = (
  part.count,
  part.result,
  found ∙ part.is ∙ ap (returned part.result) cut,
  short,
  counted part.counts,
)
  where
    part : SentPart (take len s) 0 [] (write_loop (j + len + 1) kernel 0 (take len s) 0 [])
    part =
        loop-SentPart kernel j honest calm (j + len + 1) 0 (take len s) 0 []
          (omega (arith, length-take len s))

    short : part.count ≤ len
    short = omega (arith, part.part, length-take len s)

    cut : take part.count (take len s) ≡ take part.count s
    cut = take-take part.count len s short

    found : write (j + len + 1) kernel c len ≡ write_loop (j + len + 1) kernel 0 (take len s) 0 []
    found = ground (arith, open_fd, has)

    counted :
        (part.result ≡ pos (0 + part.count)) ⊎ (part.result ≡ value err_io)
        → (part.result ≡ pos part.count) ⊎ (part.result ≡ value err_io)
    counted (inl e) = inl (e ∙ ap pos (omega arith))
    counted (inr e) = inr e
