-- ===== src/HttpClient/Work/SplitEnd.antt =====
-- A last chunk whose final CR LF comes with a later read.
use maestro_core.Base.{ℕ, ◌+◌, some, [], ◌++◌, ◌≡◌, refl, arith, Bytes, codes, ap, ◌∙◌, sym}
use maestro_core.HttpClient.Chunked.RoundTrip.{size_line_lem}
use maestro_core.HttpClient.Chunked.{
  begins_crlf, read_more, size_text, last_chunk, size_read, size_line, worktask_decipher_chonkiness,
}
use maestro_core.HttpClient.Response.{stored, consume}
use maestro_core.HttpClient.Work.{work_in, taskwork, enter, work_rounds}
use maestro_core.HttpClient.{
  HttpClient, HttpClientState, decipher_chonkiness, error, got, World, to,
}
use maestro_core.HttpParser.Scan.First.{find_line_end-append, find_headers_end-nil}
use maestro_core.Memory.{Mem, Plentiful}
use maestro_core.Numbers.Hex.{hex_zero}
use maestro_core.StringUtils.{contents, buffer_append, reallocated}

-- The read that follows the line of the last chunk is only stored.
after_line :
    (t : Bytes) (c : HttpClient) (w : World) (m : Mem)
    → contents c.recv ≡ codes "0\r\n"
    → w.transport_read 1023 ≡ got (codes "\r\n" ++ t)
    → Plentiful m
    → worktask_decipher_chonkiness c w m
      ≡ to decipher_chonkiness
          (record c { recv = some (codes "\r\n" ++ t) })
          (reallocated (some []) m)
unfolding size_read last_chunk begins_crlf consume contents read_more stored buffer_append
after_line t c w m here read p =
    size_line_lem 0 [] c w m (omega arith) (here ∙ ap (λ h. h ++ codes "\r\n") (sym hex_zero))
    ∙ ground (arith, find_headers_end-nil, p m.asked)

-- A line without a size
empty_line :
    (t : Bytes) (c : HttpClient) (w : World) (m : Mem)
    → contents c.recv ≡ codes "\r\n" ++ t
    → worktask_decipher_chonkiness c w m ≡ to error c m
unfolding worktask_decipher_chonkiness size_line size_text
empty_line t c w m here = rw (here, find_line_end-append [] t tt, worktask_decipher_chonkiness) refl

-- Although `0 CR LF CR LF` ends a chunked body, the task fails where the reads divide it: with
-- `0 CR LF` in the buffer and CR LF first in the next read, and memory granted, two calls of `http_client_taskwork`
-- lead from DECIPHER_CHONKINESS to ERROR.
pub split_end_fails :
    (t : Bytes) (i : ℕ) (w : ℕ → World) (c : HttpClient) (m : Mem)
    → contents c.recv ≡ codes "0\r\n"
    → c.state ≡ decipher_chonkiness
    → (w i).transport_read 1023 ≡ got (codes "\r\n" ++ t)
    → Plentiful m
    → (out : HttpClient × Mem) × (work_rounds 2 i w c m ≡ some out) × (out.0.state ≡ error)
unfolding work_rounds taskwork work_in enter contents
split_end_fails t i w c m here state_is read p =
    let c' = record c { recv = some (codes "\r\n" ++ t); state = decipher_chonkiness } in
    (
      (record c' { state = error }, reallocated (some []) m),
      rw
          (
            ap (λ (s : HttpClientState). work_in s c (w i) m) state_is
                ∙ ap enter (after_line t c (w i) m here read p),
            ap enter (empty_line t c' (w (i + 1)) (reallocated (some []) m) refl),
            work_rounds,
          )
          refl,
      refl,
    )
