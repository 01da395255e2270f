-- ===== src/HttpClient/Chunked.antt =====
-- `http_client_worktask_decipher_chonkiness` and `http_client_worktask_read_body_chunked`.
pub mod RoundTrip
pub mod Undefined
use maestro_core.Base.{
  ℕ, zero, suc, ◌+◌, ◌-◌, ◌%◌, ◌^◌, Bool, true, false, ◌&&◌, ◌||◌, Option, none, some, [], ◌∷◌,
  ◌++◌, Bytes, length, take, drop, ltb, leb, ◌==◌, if◌then◌else◌,
}
use maestro_core.CString.{c_str}
use maestro_core.HttpClient.{
  int_to_size, HttpClientState, decipher_chonkiness, reading_body_chunked, returning, error,
  HttpClient, Read, got, closed, again, broken, World, Step, to, undefined,
}
use maestro_core.HttpClient.Response.{stored, consume}
use maestro_core.HttpParser.Scan.{find_line_end, find_headers_end}
use maestro_core.Memory.{Mem, granted, attempt}
use maestro_core.Numbers.{Strtoull, strtoull}
use maestro_core.StringUtils.{contents, reallocated}

-- A read of at most `len` bytes that are appended; the state stays `here`.
unfoldable pub read_more : HttpClientState → ℕ → HttpClient → World → Mem → Step
unfolding stored
read_more here len c w m = elim (w.transport_read len) [
  | got s ↦ stored c s m (λ c'. to here c')
  | closed ↦ to error c m
  | again ↦ to here c m
  | broken ↦ to error c m
]

unfoldable pub ends_size : ℕ → Bool
ends_size c = c == b';' || c == b' ' || c == b'\t'

-- The bytes of the line before the first `;`, blank or tab.
unfoldable pub size_text : Bytes → Bytes
unfolding ends_size
size_text [] = []
size_text (c ∷ s) = if ends_size c then [] else c ∷ size_text s

unfoldable pub begins_crlf : Bytes → Bool
begins_crlf (a ∷ b ∷ s) = a == b'\r' && b == b'\n'
begins_crlf (a ∷ []) = false
begins_crlf [] = false

-- The last chunk: the line is consumed, and the end of the body or its trailers must follow.
unfoldable pub last_chunk : HttpClient → World → Mem → Step
unfolding contents
last_chunk c w m =
    if begins_crlf (contents c.recv)
    then to returning (consume 2 c) m
    else elim (find_headers_end (contents c.recv)) [
      | some n ↦ to returning (consume (n + 4) c) m
      | none ↦ read_more decipher_chonkiness 1023 c w m
    ]

-- With the size `val` read and the line consumed; `(size_t)(int)chunk_size` bytes are to come.
unfoldable pub size_read : ℕ → HttpClient → World → Mem → Step
unfolding last_chunk int_to_size
size_read val c w m =
    if val == 0
    then last_chunk c w m
    else to reading_body_chunked (record c { chunk_remaining = int_to_size val }) m

-- A chunk-size line that ends at `line_end`. The text is copied into `char line[48]`.
unfoldable pub size_line : ℕ → HttpClient → World → Mem → Step
unfolding size_text contents
size_line line_end c w m =
    let text = size_text (take line_end (contents c.recv)) in
    let r = strtoull (c_str text) in
    if length text == 0
    then to error c m
    else if leb 48 (length text)
    then undefined
    else if r.found
    then size_read r.val (consume (line_end + 2) c) w m
    else to error c m

unfoldable pub worktask_decipher_chonkiness : HttpClient → World → Mem → Step
unfolding read_more contents
worktask_decipher_chonkiness c w m = elim (find_line_end (contents c.recv)) [
  | none ↦ read_more decipher_chonkiness 1023 c w m
  | some n ↦ size_line n c w m
]

-- `size < (ssize_t)chunk_remaining`
unfoldable pub wants_more : ℕ → ℕ → Bool
wants_more size remaining = ltb remaining (2 ^ 63) && ltb size remaining

-- The CR LF behind a chunk.
unfoldable pub chunk_end : HttpClient → World → Mem → Step
unfolding contents
chunk_end c w m =
    if ltb (length (contents c.recv)) 2
    then read_more reading_body_chunked 1024 c w m
    else if begins_crlf (contents c.recv)
    then to decipher_chonkiness (consume 2 c) m
    else to error c m

-- With the whole chunk in the buffer, `memcpy` reads `chunk_remaining` bytes of it.
unfoldable pub take_chunk : HttpClient → World → Mem → Step
unfolding contents
take_chunk c w m =
    let n = c.chunk_remaining in
    let decoded = contents c.decoded_body ++ take n (contents c.recv) in
    if granted m
    then (if ltb (length (contents c.recv)) n
        then undefined
        else chunk_end
            (record (consume n c) {
              decoded_body = some decoded;
              decoded_body_len = c.decoded_body_len + n;
              chunk_remaining = 0;
            })
            w (reallocated c.decoded_body m))
    else to error c (reallocated c.decoded_body m)

unfoldable pub worktask_read_body_chunked : HttpClient → World → Mem → Step
unfolding contents
worktask_read_body_chunked c w m =
    if wants_more (length (contents c.recv)) c.chunk_remaining
    then read_more reading_body_chunked 1023 c w m
    else take_chunk c w m
