-- ===== src/HttpClient/Work/BodyParts.antt =====
-- A body of a known length that arrives in several reads.
use maestro_core.Base.{
  ℕ, ◌+◌, ◌<◌, ◌≤◌, true, false, some, List, [], ◌∷◌, ◌++◌, ◌≡◌, ◌≢◌, refl, arith, Bytes, length,
  length-append, append_assoc, append-nil, leb, ap, ◌∙◌, sym, ◌==◌, subst,
}
use maestro_core.HttpClient.Body.{body_stored, worktask_read_body}
use maestro_core.HttpClient.Response.{stored}
use maestro_core.HttpClient.Work.{work_in, taskwork, enter, work_rounds}
use maestro_core.HttpClient.Work.Decode.{concat, Plentiful-reallocated}
use maestro_core.HttpClient.{HttpClient, HttpClientState, reading_body, returning, got, World}
use maestro_core.Memory.{Mem, Plentiful}
use maestro_core.StringUtils.{contents, buffer_append, reallocated}

-- From round `i` on the transport gives the parts, one in each round.
abbrev pub Feeds : (ℕ → World) → ℕ → List Bytes → Type 0
Feeds w i [] = Unit
Feeds w i (s ∷ l) = ((w i).transport_read 1023 ≡ got s) × (s ≢ []) × Feeds w (i + 1) l

-- With the last part, and not before, `have` bytes become `want` or more.
abbrev pub Covers : ℕ → ℕ → List Bytes → Type 0
Covers have want [] = ⊥
Covers have want (s ∷ []) = want ≤ have + length s
Covers have want (s ∷ t ∷ l) = (have + length s < want) × Covers (have + length s) want (t ∷ l)

module _ (s : Bytes) (c : HttpClient) (w : World) (m : Mem) (read : w.transport_read 1023 ≡ got s)
    (ne : s ≢ []) (due : c.next_retry_at ≤ w.now) (state_is : c.state ≡ reading_body)
    (plenty : Plentiful m) where
  with_part : HttpClient
  with_part = record c { recv = some (contents c.recv ++ s) }

  length_ne : (s : Bytes) → s ≢ [] → (length s == 0) ≡ false
  length_ne [] h = absurd (h refl)
  length_ne (b ∷ s) h = ground arith

  appended : stored c s m body_stored ≡ body_stored with_part (reallocated c.recv m)
  unfolding stored buffer_append with_part contents
  appended = ground (arith, length_ne s ne, plenty m.asked)

  stored_lem : worktask_read_body c w m ≡ body_stored with_part (reallocated c.recv m)
  unfolding worktask_read_body
  stored_lem = rw (read, worktask_read_body) appended

  due_lem : leb c.next_retry_at w.now ≡ true
  due_lem = ground arith

  call_lem : taskwork c w m ≡ enter (body_stored with_part (reallocated c.recv m))
  unfolding taskwork work_in
  call_lem =
      ap (λ (s : HttpClientState). work_in s c w m) state_is
      ∙ rw (due_lem, stored_lem, work_in) refl

  last_part :
      c.content_length ≤ length (contents c.recv) + length s
      → taskwork c w m
        ≡ some (record with_part { retries = 0; state = returning }, reallocated c.recv m)
  unfolding body_stored enter with_part contents
  last_part enough = call_lem ∙ ground (arith, length-append (contents c.recv) s)

  inner_part :
      length (contents c.recv) + length s < c.content_length
      → taskwork c w m ≡ some (record with_part { state = reading_body }, reallocated c.recv m)
  unfolding body_stored enter with_part contents
  inner_part less = call_lem ∙ ground (arith, length-append (contents c.recv) s)

-- A body arrives in parts: with memory granted, one call of `http_client_taskwork` for each
-- nonempty read leads from READING_BODY to RETURNING, when the read that completes the
-- Content-Length is in and not before, and the buffer then holds all that was read, in order.
pub body_in_parts :
    (parts : List Bytes) (i : ℕ) (w : ℕ → World) (c : HttpClient) (m : Mem)
    → Feeds w i parts
    → Covers (length (contents c.recv)) c.content_length parts
    → ((k : ℕ) → c.next_retry_at ≤ (w k).now)
    → c.state ≡ reading_body
    → Plentiful m
    → (out : HttpClient × Mem) × (work_rounds (length parts) i w c m ≡ some out)
      × (out.0.state ≡ returning)
      × (contents out.0.recv ≡ contents c.recv ++ concat parts)
unfolding work_rounds with_part contents
body_in_parts [] i w c m feeds covers due state_is p = absurd covers
body_in_parts (s ∷ []) i w c m (read, ne, feeds) covers due state_is p = (
  (
    record c { recv = some (contents c.recv ++ s); retries = 0; state = returning },
    reallocated c.recv m,
  ),
  rw (last_part s c (w i) m read ne (due i) state_is p covers, work_rounds) refl,
  refl,
  ap (λ t. contents c.recv ++ t) (sym (append-nil s)),
)
body_in_parts (s ∷ t ∷ l) i w c m (read, ne, feeds) (less, covers) due state_is p =
    let c' = record c { recv = some (contents c.recv ++ s); state = reading_body } in
    let (out, e, done, all) =
      body_in_parts (t ∷ l) (i + 1) w c' (reallocated c.recv m) feeds
        (subst (λ k. Covers k c.content_length (t ∷ l)) (sym (length-append (contents c.recv) s))
          covers)
        due refl (Plentiful-reallocated c.recv m p) in
    (
      out,
      rw (inner_part s c (w i) m read ne (due i) state_is p less, work_rounds) e,
      done,
      all ∙ append_assoc (contents c.recv) s (concat (t ∷ l)),
    )
