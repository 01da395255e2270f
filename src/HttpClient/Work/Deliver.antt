-- ===== src/HttpClient/Work/Deliver.antt =====
-- From a complete header block in the buffer to the callback.
use maestro_core.Base.{
  ℕ, ◌+◌, ◌^◌, ◌<◌, ◌≤◌, true, false, none, some, Option, List, [], ◌∷◌, ◌++◌, ◌≡◌, refl, arith,
  Bytes, codes, length, drop, take-length-append, drop-length-append, length-append, leb, ltb, All,
  ap, ◌∙◌, sym, append-nil, Bool,
}
use maestro_core.HttpClient.Body.{body_of, worktask_returning}
use maestro_core.HttpClient.Response.{
  consume, is_chunked, content_length_of, choose_body, headers_found, worktask_read_headers,
}
use maestro_core.HttpClient.Work.{work_in, taskwork, enter, work_rounds}
use maestro_core.HttpClient.{
  HttpClient, HttpClientState, reading_headers, returning, disposing, World, to,
}
use maestro_core.HttpParser.Headers.{headers, get_header_value}
use maestro_core.HttpParser.Headers.End.{find_headers_end-render}
use maestro_core.HttpParser.Headers.RoundTrip.{IsHeader, render, headers-render}
use maestro_core.HttpParser.{HttpKeyValue}
use maestro_core.Memory.{Mem, Plentiful, attempt}
use maestro_core.Numbers.{decimal}
use maestro_core.StringUtils.Parse.{parse-decimal}
use maestro_core.StringUtils.{contents}

-- The client behind the headers, with `body` in the buffer.
unfoldable behind : Option (List HttpKeyValue) → Bytes → HttpClient → HttpClient
behind l body c = record c { recv = some body; req = record (c.req) { headers = l }; retries = 0 }

module _ (h : HttpKeyValue) (t : List HttpKeyValue) (body : Bytes) (c : HttpClient) (w : World)
    (m : Mem) (is : All IsHeader (h ∷ t)) (plenty : Plentiful m)
    (here : contents c.recv ≡ render (h ∷ t) ++ body) where
  found_lem :
      (n : ℕ)
      → n + 4 ≡ length (render (h ∷ t))
      → (m' : Mem) × (headers_found n c m ≡ choose_body (h ∷ t) (behind (some (h ∷ t)) body c) m')
        × Plentiful m'
  unfolding headers_found consume behind
  found_lem n e =
      let (out, eq, code, o, live, g) = headers-render (h ∷ t) [] m is plenty in
      (
        out.mem,
        rw
            (
              e,
              here,
              take-length-append (render (h ∷ t)) body,
              ap (λ b. headers b m) (sym (append-nil (render (h ∷ t)))) ∙ eq,
              o,
              headers_found,
            )
            (ap (λ x. choose_body (h ∷ t) (behind x (drop (n + 4) (contents c.recv)) c) out.mem) o
              ∙ ap (λ b. choose_body (h ∷ t) (behind (some (h ∷ t)) b c) out.mem)
                  (ap (λ k. drop k (contents c.recv)) e
                    ∙ ap (drop (length (render (h ∷ t)))) here
                    ∙ drop-length-append (render (h ∷ t)) body)),
        λ k. ap (λ (f : ℕ → Bool). f k) g ∙ plenty k,
      )

  nonempty : ltb 0 (length (render (h ∷ t) ++ body)) ≡ true
  nonempty =
      ground (arith, length-append (render (h ∷ t)) body, (find_headers_end-render h t body is).2)

  headers_read :
      (m' : Mem) × (worktask_read_headers c w m
        ≡ choose_body (h ∷ t) (behind (some (h ∷ t)) body c) m')
      × Plentiful m'
  unfolding worktask_read_headers
  headers_read =
      let (n, found, e) = find_headers_end-render h t body is in
      let (m', eq, p) = found_lem n e in
      (m', rw (here, nonempty, found, worktask_read_headers) eq, p)

  -- The callback gets what is in the buffer.
  module _ (c' : HttpClient) (m' : Mem) (recv : c'.recv ≡ some body) (on : c'.on_success ≡ true)
      (blocking : c'.blocking_mode ≡ false) (decoded : c'.decoded_body ≡ none)
      (p : Plentiful m') where
    body_lem : body_of c' ≡ body
    unfolding body_of contents
    body_lem = ground arith

    returned :
        worktask_returning c' m'
        ≡ to disposing (record c' { delivered = c'.delivered ++ body ∷ [] }) (attempt m')
    unfolding worktask_returning
    returned = ground (arith, body_lem, p m'.asked)

  -- Two calls, where the headers let the body end with the buffer.
  module _ (i : ℕ) (v : ℕ → World) (w_is : v i ≡ w) (state_is : c.state ≡ reading_headers)
      (due : c.next_retry_at ≤ w.now) (callback : c.on_success ≡ true)
      (async : c.blocking_mode ≡ false) (not_decoded : c.decoded_body ≡ none) where
    due_lem : leb c.next_retry_at w.now ≡ true
    due_lem = ground arith

    first_call :
        (c' : HttpClient) (m' : Mem)
        → worktask_read_headers c w m ≡ to returning c' m'
        → taskwork c (v i) m ≡ some (record c' { state = returning }, m')
    unfolding taskwork work_in enter
    first_call c' m' e =
        ap (λ (s : HttpClientState). work_in s c (v i) m) state_is
        ∙ ap (λ (x : World). work_in reading_headers c x m) w_is
        ∙ rw (due_lem, e, work_in, enter) refl

    deliver :
        (c' : HttpClient)
        → c'.recv ≡ some body
        → c'.on_success ≡ true
        → c'.blocking_mode ≡ false
        → c'.decoded_body ≡ none
        → c'.delivered ≡ c.delivered
        → ((m' : Mem) → choose_body (h ∷ t) (behind (some (h ∷ t)) body c) m' ≡ to returning c' m')
        → (out : HttpClient × Mem) × (work_rounds 2 i v c m ≡ some out)
          × (out.0.delivered ≡ c.delivered ++ body ∷ [])
          × (out.0.state ≡ disposing)
    unfolding work_rounds taskwork work_in enter
    deliver c' recv on blocking decoded same choice =
        let (m', eq, p) = headers_read in
        (
          (record c' { delivered = c'.delivered ++ body ∷ []; state = disposing }, attempt m'),
          rw
              (
                first_call c' m' (eq ∙ choice m'),
                ap enter (returned (record c' { state = returning }) m' recv on blocking decoded p),
                work_rounds,
              )
              refl,
          ap (λ d. d ++ body ∷ []) same,
          refl,
        )

    -- A response with a Content-Length that the bytes in the buffer reach: in two calls of
    -- `http_client_taskwork` the headers are parsed and the callback gets, once, all bytes of the
    -- buffer behind them, which is the body where no more than `n` bytes have come. The
    -- headers do not name a Transfer-Encoding, their Content-Length is the decimal print of a
    -- number from 1 to 2^31 - 1, memory is granted, and the client has no decoded body and is not
    -- blocking.
    pub delivers_content_length :
        (n : ℕ)
        → get_header_value (h ∷ t) (codes "Transfer-Encoding") ≡ none
        → get_header_value (h ∷ t) (codes "Content-Length") ≡ some (decimal n)
        → 0 < n
        → n < 2 ^ 31
        → n ≤ length body
        → (out : HttpClient × Mem) × (work_rounds 2 i v c m ≡ some out)
          × (out.0.delivered ≡ c.delivered ++ body ∷ [])
          × (out.0.state ≡ disposing)
    unfolding choose_body is_chunked content_length_of behind contents
    delivers_content_length n no_te cl positive small enough =
        deliver (record (behind (some (h ∷ t)) body c) { content_length = n }) refl callback async
          not_decoded refl
          (λ m'.
            rw (no_te, cl, parse-decimal n small, choose_body, is_chunked, content_length_of)
              (ground arith))

    -- A response that ends with its connection, with neither Transfer-Encoding nor Content-Length,
    -- is cut: in two calls the callback gets the bytes of the body that were in the buffer, and no
    -- more of it is read. Memory is granted, and the client has no decoded body and is not
    -- blocking.
    pub undelimited_cut :
        get_header_value (h ∷ t) (codes "Transfer-Encoding") ≡ none
        → get_header_value (h ∷ t) (codes "Content-Length") ≡ none
        → (out : HttpClient × Mem) × (work_rounds 2 i v c m ≡ some out)
          × (out.0.delivered ≡ c.delivered ++ body ∷ [])
          × (out.0.state ≡ disposing)
    unfolding choose_body is_chunked content_length_of behind contents
    undelimited_cut no_te no_cl =
        deliver (behind (some (h ∷ t)) body c) refl callback async not_decoded refl
          (λ m'. rw (no_te, no_cl, choose_body, is_chunked, content_length_of) (ground arith))
