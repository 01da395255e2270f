-- ===== src/HttpClient/Chunked/RoundTrip.antt =====
-- A chunked body that stands in the buffer as a whole, and what the work steps make of it.
use maestro_core.Base.{
  ◌^◌, ℕ, ◌+◌, ◌<◌, true, false, some, [], ◌∷◌, ◌++◌, ◌≡◌, refl, arith, Bytes, codes, Lacks, length,
  take, length-append, take-length-append, drop-length-append, ltb, leb, ap, ◌∙◌, sym,
}
use maestro_core.HttpClient.Chunked.{
  ends_size, begins_crlf, size_text, last_chunk, size_read, size_line, worktask_decipher_chonkiness,
  wants_more, chunk_end, take_chunk, worktask_read_body_chunked,
}
use maestro_core.HttpClient.Response.{consume}
use maestro_core.HttpClient.{
  int_to_size, HttpClient, decipher_chonkiness, reading_body_chunked, returning, World, to,
}
use maestro_core.HttpParser.Scan.First.{find_line_end-append, drop_line}
use maestro_core.Memory.{Mem, granted}
use maestro_core.Numbers.Hex.{
  strtoull-hex, length-hex, hex_ne_nil, hex_zero, hex-HexDigits, HexDigits, digit_char_range,
}
use maestro_core.Numbers.{hex}
use maestro_core.CString.Search.{c_str-Lacks}
use maestro_core.StringUtils.{contents, reallocated}

HexDigits-Lacks : (s : Bytes) → HexDigits s → Lacks b'\r' s × Lacks 0 s
HexDigits-Lacks [] h = (tt, tt)
HexDigits-Lacks (c ∷ s) ((d, lt, e), t) =
    rw e (ground (arith, digit_char_range d lt, HexDigits-Lacks s t))

size_text-HexDigits : (s : Bytes) → HexDigits s → size_text s ≡ s
unfolding size_text ends_size
size_text-HexDigits [] h = refl
size_text-HexDigits (c ∷ s) ((d, lt, e), t) =
    rw e (ground (arith, digit_char_range d lt, size_text-HexDigits s t))

-- A chunk as it is sent: its size in hexadecimal, CR LF, its bytes, CR LF.
abbrev pub chunk : Bytes → Bytes → Bytes
chunk s rest = hex (length s) ++ (b'\r' ∷ b'\n' ∷ (s ++ (b'\r' ∷ b'\n' ∷ rest)))

take-prefix : (p q : Bytes) → take (length p) (p ++ q) ≡ p
take-prefix p q = take-length-append p q

-- The line that tells a size `n`.
module _ (n : ℕ) (q : Bytes) (c : HttpClient) (w : World) (m : Mem) (small : n < 2 ^ 31)
    (here : contents c.recv ≡ hex n ++ (b'\r' ∷ b'\n' ∷ q)) where
  short_enough : leb 48 (length (hex n)) ≡ false
  short_enough = ground (arith, length-hex n)

  consume_lem : consume (length (hex n) + 2) c ≡ record c { recv = some q }
  unfolding consume
  consume_lem = rw (here, drop_line (hex n) q) refl

  line_lem :
      Lacks 0 (hex n)
      → size_line (length (hex n)) c w m ≡ size_read n (record c { recv = some q }) w m
  unfolding size_line
  line_lem no_nul =
      rw
        (
          here,
          take-length-append (hex n) (b'\r' ∷ b'\n' ∷ q),
          size_text-HexDigits (hex n) (hex-HexDigits n),
          c_str-Lacks (hex n) no_nul,
          strtoull-hex n (omega arith),
          hex_ne_nil n (omega arith),
          short_enough,
          consume_lem,
        )
        refl

  pub size_line_lem :
      worktask_decipher_chonkiness c w m ≡ size_read n (record c { recv = some q }) w m
  unfolding worktask_decipher_chonkiness
  size_line_lem =
      let (no_cr, no_nul) = HexDigits-Lacks (hex n) (hex-HexDigits n) in
      rw (here, find_line_end-append (hex n) q no_cr, worktask_decipher_chonkiness)
        (line_lem no_nul)

  pub chunk_size_lem :
      0 < n
      → worktask_decipher_chonkiness c w m
        ≡ to reading_body_chunked (record c { recv = some q; chunk_remaining = n }) m
  unfolding size_read int_to_size
  chunk_size_lem positive = size_line_lem ∙ ground arith

-- After the chunk `s`, with `rest` behind it in the buffer.
unfoldable pub taken : Bytes → Bytes → HttpClient → HttpClient
unfolding contents
taken s rest c = record c {
  recv = some rest;
  decoded_body = some (contents c.decoded_body ++ s);
  decoded_body_len = c.decoded_body_len + length s;
  chunk_remaining = 0;
}

-- The chunk itself and the line end behind it.
module _ (s rest : Bytes) (c : HttpClient) (w : World) (m : Mem) (granted_here : granted m ≡ true)
    (size_is : c.chunk_remaining ≡ length s) (small : length s < 2 ^ 31)
    (here : contents c.recv ≡ s ++ (b'\r' ∷ b'\n' ∷ rest)) where
  enough : ltb (length (s ++ (b'\r' ∷ b'\n' ∷ rest))) (length s) ≡ false
  enough = ground (arith, length-append s (b'\r' ∷ b'\n' ∷ rest))

  take_chunk_lem :
      take_chunk c w m ≡ to decipher_chonkiness (taken s rest c) (reallocated c.decoded_body m)
  unfolding take_chunk taken chunk_end begins_crlf consume contents
  take_chunk_lem =
      rw
        (
          size_is,
          here,
          granted_here,
          take-length-append s (b'\r' ∷ b'\n' ∷ rest),
          drop-length-append s (b'\r' ∷ b'\n' ∷ rest),
          enough,
        )
        (ground arith)

  pub body_chunked_lem :
      worktask_read_body_chunked c w m
      ≡ to decipher_chonkiness (taken s rest c) (reallocated c.decoded_body m)
  unfolding worktask_read_body_chunked wants_more
  body_chunked_lem =
      rw (here, size_is, enough, worktask_read_body_chunked) (ground (arith, take_chunk_lem))

-- The last chunk, with no trailers behind it.
pub last_chunk_lem :
    (rest : Bytes) (c : HttpClient) (w : World) (m : Mem)
    → contents c.recv ≡ codes "0\r\n\r\n" ++ rest
    → worktask_decipher_chonkiness c w m ≡ to returning (record c { recv = some rest }) m
unfolding size_read last_chunk begins_crlf consume contents
last_chunk_lem rest c w m here =
    size_line_lem 0 (b'\r' ∷ b'\n' ∷ rest) c w m (omega arith)
      (here ∙ ap (λ h. h ++ (b'\r' ∷ b'\n' ∷ b'\r' ∷ b'\n' ∷ rest)) (sym hex_zero))
    ∙ ground arith
