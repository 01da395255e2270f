-- ===== src/HttpClient/Body.antt =====
-- `http_client_worktask_read_body` and `http_client_worktask_returning`.
use maestro_core.Base.{Option, none, some, [], ◌∷◌, ◌++◌, Bytes, length, ltb, if◌then◌else◌}
use maestro_core.HttpClient.{
  reading_body, returning, disposing, error, HttpClient, got, closed, again, broken, World, Step,
  to,
}
use maestro_core.HttpClient.Response.{stored}
use maestro_core.Memory.{Mem, granted, attempt, release}
use maestro_core.StringUtils.{contents}

-- The test of the size, after whatever was read is stored.
unfoldable pub body_stored : HttpClient → Mem → Step
unfolding contents
body_stored c m =
    if ltb (length (contents c.recv)) c.content_length
    then to reading_body c m
    else to returning (record c { retries = 0 }) m

unfoldable pub worktask_read_body : HttpClient → World → Mem → Step
unfolding contents
worktask_read_body c w m = elim (w.transport_read 1023) [
  | got s ↦ stored c s m body_stored
  | closed ↦
      if ltb (length (contents c.recv)) c.content_length then to error c m else body_stored c m
  | again ↦ to reading_body c m
  | broken ↦ to error c m
]

-- `src`: the decoded body where there is one, else the receive buffer.
unfoldable pub body_of : HttpClient → Bytes
unfolding contents
body_of c = elim c.decoded_body [
  | none ↦ contents c.recv
  | some s ↦ if ltb 0 c.decoded_body_len then s else contents c.recv
]

-- `blocking_out->addr` is freed where it is not NULL.
old_result : Option Bytes → Mem → Mem
old_result none m = m
old_result (some _) m = release 1 m

unfoldable pub return_blocking : Option (Option Bytes) → HttpClient → Mem → Step
unfolding old_result body_of
return_blocking none c m = to error c m
return_blocking (some old) c m =
    let m' = old_result old m in
    if granted m'
    then to disposing (record c { blocking_out = some (some (body_of c)) }) (attempt m')
    else to error (record c { blocking_out = some none }) (attempt m')

unfoldable pub worktask_returning : HttpClient → Mem → Step
unfolding return_blocking body_of
worktask_returning c m =
    if c.blocking_mode
    then return_blocking c.blocking_out c m
    else if c.on_success
    then (if granted m
        then to disposing (record c { delivered = c.delivered ++ body_of c ∷ [] }) (attempt m)
        else to error c (attempt m))
    else to error c m
