-- ===== src/HttpClient/Work/NoResult.antt =====
-- A blocking call without a place for the result.
use maestro_core.Base.{ℕ, suc, ◌+◌, true, false, none, ◌≡◌, refl, arith, ap, ◌∙◌}
use maestro_core.ErrorCode.{err_io}
use maestro_core.HttpClient.Body.{worktask_returning, return_blocking}
use maestro_core.HttpClient.Work.{
  timed_out, finished, next, owned, destroyed, blocking_round, blocking_loop,
}
use maestro_core.HttpClient.{HttpClient, HttpClientState, returning, error, World, to}
use maestro_core.Memory.{Mem, release}

unlimited : (timeout_ms start now : ℕ) → timeout_ms ≡ 0 → timed_out timeout_ms start now ≡ false
unfolding timed_out
unlimited timeout_ms start now e = ground arith

no_result :
    (c : HttpClient) (m : Mem)
    → c.blocking_mode ≡ true
    → c.blocking_out ≡ none
    → worktask_returning c m ≡ to error c m
unfolding worktask_returning return_blocking
no_result c m blocking out = rw (blocking, out, worktask_returning) refl

from_error :
    (f i start : ℕ) (w : ℕ → World) (c : HttpClient) (m : Mem)
    → c.timeout_ms ≡ 0
    → blocking_loop (suc f) i w start (record c { state = error }) m
      ≡ finished err_io c.blocking_out (release (owned c + 1) m)
unfolding blocking_loop blocking_round destroyed owned
from_error f i start w c m e = rw (unlimited c.timeout_ms start (w i).now e, blocking_loop) refl

round_lem :
    (c : HttpClient) (w : World) (m : Mem)
    → c.state ≡ returning
    → blocking_round c.state c w m ≡ next (worktask_returning c m)
unfolding blocking_round
round_lem c w m e = ap (λ (s : HttpClientState). blocking_round s c w m) e

from_returning :
    (f i start : ℕ) (w : ℕ → World) (c : HttpClient) (m : Mem)
    → c.state ≡ returning
    → c.timeout_ms ≡ 0
    → c.blocking_mode ≡ true
    → c.blocking_out ≡ none
    → blocking_loop (suc f) i w start c m
      ≡ blocking_loop f (i + 1) w start (record c { state = error }) m
unfolding blocking_loop
from_returning f i start w c m state_is e blocking out =
    rw
      (
        unlimited c.timeout_ms start (w i).now e,
        round_lem c (w i) m state_is,
        no_result c m blocking out,
        blocking_loop,
      )
      refl

-- `http_blocking_post` accepts NULL for the result, but the call then fails: once the response is
-- complete, in RETURNING, two rounds lead to ERR_IO, with everything freed.
pub null_result_fails :
    (f i start : ℕ) (w : ℕ → World) (c : HttpClient) (m : Mem)
    → c.state ≡ returning
    → c.timeout_ms ≡ 0
    → c.blocking_mode ≡ true
    → c.blocking_out ≡ none
    → blocking_loop (suc (suc f)) i w start c m ≡ finished err_io none (release (owned c + 1) m)
null_result_fails f i start w c m state_is unlimited_is blocking out =
    from_returning (suc f) i start w c m state_is unlimited_is blocking out
    ∙ from_error f (i + 1) start w c m unlimited_is
    ∙ ap (λ b. finished err_io b (release (owned c + 1) m)) out
