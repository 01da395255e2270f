-- ===== src/HttpClient/Chunked/Undefined.antt =====
-- When the decoding of a chunked body runs outside of its arrays.
use maestro_core.Base.{
  ℕ, ◌+◌, ◌^◌, ◌<◌, ◌≤◌, true, some, ◌∷◌, ◌++◌, ◌≡◌, ◌≢◌, ◌↔◌, refl, arith, Bytes, Lacks, length,
  take, ap, ◌∙◌, inl, inr, take-length-append, Option-cases,
}
use maestro_core.HttpClient.Chunked.{
  read_more, size_text, last_chunk, size_read, size_line, worktask_decipher_chonkiness, wants_more,
  chunk_end, take_chunk, worktask_read_body_chunked,
}
use maestro_core.HttpClient.Response.{stored, consume}
use maestro_core.HttpClient.{
  HttpClient, HttpClientState, decipher_chonkiness, Read, got, closed, again, broken,
  reading_body_chunked, World, to, undefined,
}
use maestro_core.HttpParser.Scan.{find_headers_end}
use maestro_core.HttpParser.Scan.First.{find_line_end-append}
use maestro_core.Memory.{Mem, granted}
use maestro_core.Numbers.{strtoull}
use maestro_core.CString.{c_str}
use maestro_core.StringUtils.{contents, buffer_append, reallocated}

stored_ne_undefined :
    (c : HttpClient) (t : Bytes) (m : Mem) (here : HttpClientState)
    → stored c t m (λ c'. to here c') ≢ undefined
unfolding stored buffer_append
stored_ne_undefined c t m here = ground arith

read_more_ne_undefined :
    (here : HttpClientState) (n : ℕ) (c : HttpClient) (w : World) (m : Mem)
    → read_more here n c w m ≢ undefined
unfolding read_more
read_more_ne_undefined here n c w m = cases (w.transport_read n) refl
  where
    cases : (r : Read) → w.transport_read n ≡ r → read_more here n c w m ≢ undefined
    cases (got t) e = rw (e, read_more) (stored_ne_undefined c t m here)
    cases closed e = rw (e, read_more) (λ q. cc q)
    cases again e = rw (e, read_more) (λ q. cc q)
    cases broken e = rw (e, read_more) (λ q. cc q)

size_read_ne_undefined :
    (val : ℕ) (c : HttpClient) (w : World) (m : Mem) → size_read val c w m ≢ undefined
unfolding size_read last_chunk
size_read_ne_undefined val c w m = elim (Option-cases (find_headers_end (contents c.recv))) [
  | inl e ↦ ground (arith, read_more_ne_undefined decipher_chonkiness 1023 c w m)
  | inr (n, e) ↦ ground arith
]

chunk_end_ne_undefined : (c : HttpClient) (w : World) (m : Mem) → chunk_end c w m ≢ undefined
unfolding chunk_end
chunk_end_ne_undefined c w m =
    ground (arith, read_more_ne_undefined reading_body_chunked 1024 c w m)

take_chunk_undefined :
    (c : HttpClient) (w : World) (m : Mem)
    → (take_chunk c w m ≡ undefined)
      ↔ ((granted m ≡ true) × (length (contents c.recv) < c.chunk_remaining))
unfolding take_chunk
take_chunk_undefined c w m = ground (
  arith,
  chunk_end_ne_undefined
      (record (consume c.chunk_remaining c) {
        decoded_body = some (contents c.decoded_body ++ take c.chunk_remaining (contents c.recv));
        decoded_body_len = c.decoded_body_len + c.chunk_remaining;
        chunk_remaining = 0;
      })
      w (reallocated c.decoded_body m),
)

-- `http_client_worktask_read_body_chunked` leaves its buffer exactly when the copy is granted,
-- `chunk_remaining` is beyond the values of `ssize_t`, and the buffer is shorter than it.
pub read_body_chunked_undefined :
    (c : HttpClient) (w : World) (m : Mem)
    → (worktask_read_body_chunked c w m ≡ undefined) ↔ (
        (granted m ≡ true)
        × (2 ^ 63 ≤ c.chunk_remaining)
        × (length (contents c.recv) < c.chunk_remaining))
unfolding worktask_read_body_chunked wants_more
read_body_chunked_undefined c w m =
    ground
      (arith, take_chunk_undefined c w m, read_more_ne_undefined reading_body_chunked 1023 c w m)

size_line_undefined :
    (n : ℕ) (text : Bytes) (c : HttpClient) (w : World) (m : Mem)
    → take n (contents c.recv) ≡ text
    → (size_line n c w m ≡ undefined) ↔ (48 ≤ length (size_text text))
unfolding size_line
size_line_undefined n text c w m e =
    let val = (strtoull (c_str (size_text text))).val in
    rw (e, size_line) (ground (arith, size_read_ne_undefined val (consume (n + 2) c) w m))

-- With a chunk-size line in the buffer that is complete and holds no other CR, the behaviour of
-- `http_client_worktask_decipher_chonkiness` is undefined exactly when the text of the line before
-- a `;`, a blank or a tab has 48 bytes or more: it is copied into an array of 48 bytes, with a NUL
-- behind it, without a test of its length.
pub long_size_undefined :
    (text q : Bytes) (c : HttpClient) (w : World) (m : Mem)
    → contents c.recv ≡ text ++ (b'\r' ∷ b'\n' ∷ q)
    → Lacks b'\r' text
    → (worktask_decipher_chonkiness c w m ≡ undefined) ↔ (48 ≤ length (size_text text))
unfolding worktask_decipher_chonkiness
long_size_undefined text q c w m here no_cr =
    rw (here, find_line_end-append text q no_cr, worktask_decipher_chonkiness)
      (size_line_undefined (length text) text c w m
        (ap (take (length text)) here ∙ take-length-append text (b'\r' ∷ b'\n' ∷ q)))
