-- ===== src/HttpClient/Work/Decode.antt =====
-- Calls of the task on a chunked body that stands in the buffer as a whole.
use maestro_core.Base.{
  Option, none, ℕ, suc, ◌+◌, ◌^◌, ◌<◌, some, List, [], ◌∷◌, ◌++◌, ◌≡◌, refl, arith, Bytes, codes,
  length, length-append, append_assoc, append-nil, All, ap, ◌∙◌, sym,
}
use maestro_core.HttpClient.Chunked.RoundTrip.{
  chunk, chunk_size_lem, body_chunked_lem, last_chunk_lem, taken,
}
use maestro_core.HttpClient.Work.{work_in, taskwork, enter, work_rounds}
use maestro_core.HttpClient.{
  HttpClient, HttpClientState, decipher_chonkiness, reading_body_chunked, returning, World,
}
use maestro_core.Memory.{Mem, Plentiful}
use maestro_core.StringUtils.{contents, reallocated}

abbrev pub concat : List Bytes → Bytes
concat [] = []
concat (s ∷ l) = s ++ concat l

-- The chunks `l`, the last chunk, and what stands behind the body.
abbrev pub encode : List Bytes → Bytes → Bytes
encode [] rest = codes "0\r\n\r\n" ++ rest
encode (s ∷ l) rest = chunk s (encode l rest)

-- Two calls of the task for a chunk, and one for the end.
abbrev pub calls_for : List Bytes → ℕ
calls_for [] = 1
calls_for (s ∷ l) = suc (suc (calls_for l))

abbrev pub IsChunk : Bytes → Type 0
IsChunk s = (0 < length s) × (length s < 2 ^ 31)

pub record Decoded (c : HttpClient) (body rest : Bytes) (out : HttpClient) : Type 0 where
  pub state : out.state ≡ returning
  pub decoded_body : contents out.decoded_body ≡ contents c.decoded_body ++ body
  pub decoded_body_len : out.decoded_body_len ≡ c.decoded_body_len + length body
  pub recv : out.recv ≡ some rest

module _ (s rest : Bytes) (c : HttpClient) (w v : World) (m : Mem) (is : IsChunk s)
    (plenty : Plentiful m) (here : contents c.recv ≡ chunk s rest)
    (state_is : c.state ≡ decipher_chonkiness) where
  -- In the buffer is what stands behind the size line.
  sized : HttpClient
  sized = record c {
    recv = some (s ++ (b'\r' ∷ b'\n' ∷ rest));
    chunk_remaining = length s;
    state = reading_body_chunked;
  }

  first_call : taskwork c w m ≡ some (sized, m)
  unfolding taskwork work_in enter sized
  first_call =
      ap (λ (s : HttpClientState). work_in s c w m) state_is
      ∙ ap enter (chunk_size_lem (length s) (s ++ (b'\r' ∷ b'\n' ∷ rest)) c w m is.1 here is.0)

  chunk_taken : HttpClient
  chunk_taken = record (taken s rest sized) { state = decipher_chonkiness }

  second_call : taskwork sized v m ≡ some (chunk_taken, reallocated c.decoded_body m)
  unfolding taskwork work_in enter sized chunk_taken taken contents reallocated
  second_call = ap enter (body_chunked_lem s rest sized v m (plenty m.asked) refl is.1 refl)

pub Plentiful-reallocated : (b : Option Bytes) (m : Mem) → Plentiful m → Plentiful (reallocated b m)
unfolding reallocated
Plentiful-reallocated none m p = p
Plentiful-reallocated (some s) m p = p

last_call :
    (rest : Bytes) (c : HttpClient) (w : World) (m : Mem)
    → contents c.recv ≡ codes "0\r\n\r\n" ++ rest
    → c.state ≡ decipher_chonkiness
    → taskwork c w m ≡ some (record c { recv = some rest; state = returning }, m)
unfolding taskwork work_in enter
last_call rest c w m here state_is =
    ap (λ (s : HttpClientState). work_in s c w m) state_is
    ∙ ap enter (last_chunk_lem rest c w m here)

-- The task decodes a chunked body that is in the buffer: with memory granted, `calls_for l` calls
-- of `http_client_taskwork` in the state DECIPHER_CHONKINESS append the bytes of the chunks `l`,
-- each of 1 to 2^31 - 1 bytes, to the decoded body, add their number to its length, leave what
-- stands behind the last chunk in the buffer, and reach the state RETURNING.
pub work_rounds-encode :
    (l : List Bytes) (rest : Bytes) (i : ℕ) (w : ℕ → World) (c : HttpClient) (m : Mem)
    → All IsChunk l
    → contents c.recv ≡ encode l rest
    → c.state ≡ decipher_chonkiness
    → Plentiful m
    → (out : HttpClient × Mem) × (work_rounds (calls_for l) i w c m ≡ some out)
      × Decoded c (concat l) rest out.0
unfolding work_rounds chunk_taken taken sized contents
work_rounds-encode [] rest i w c m h here state_is p = (
  (record c { recv = some rest; state = returning }, m),
  rw (last_call rest c (w i) m here state_is, work_rounds) refl,
  record {
    state = refl;
    decoded_body = sym (append-nil (contents c.decoded_body));
    decoded_body_len = omega arith;
    recv = refl;
  },
)
work_rounds-encode (s ∷ l) rest i w c m (is, h) here state_is p =
    let c' = chunk_taken s (encode l rest) c (w i) (w (i + 1)) m is p here state_is in
    let (out, e, d) =
      work_rounds-encode l rest (i + 1 + 1) w c' (reallocated c.decoded_body m) h refl refl
        (Plentiful-reallocated c.decoded_body m p) in
    (
      out,
      rw
          (
            first_call s (encode l rest) c (w i) (w (i + 1)) m is p here state_is,
            second_call s (encode l rest) c (w i) (w (i + 1)) m is p here state_is,
            work_rounds,
          )
          e,
      record {
        state = d.state;
        decoded_body = d.decoded_body ∙ append_assoc (contents c.decoded_body) s (concat l);
        decoded_body_len = d.decoded_body_len ∙ omega (arith, length-append s (concat l));
        recv = d.recv;
      },
    )
