-- ===== src/HttpClient/Work/Clock.antt =====
-- The time limit of `http_blocking_work`.
use maestro_core.Base.{ℕ, refl, suc, ◌-◌, ◌%◌, ◌^◌, ◌≤◌, ◌<◌, true, ◌≡◌, ◌↔◌, arith, ◌+◌}
use maestro_core.ErrorCode.{err_timeout}
use maestro_core.HttpClient.Work.{timed_out, finished, owned, destroyed, blocking_loop}
use maestro_core.HttpClient.{HttpClient, World}
use maestro_core.Memory.{Mem, release}

-- In the first 2^31 milliseconds of the monotonic clock the test is exact: the call has timed out
-- exactly when a limit is set and more than that many milliseconds have passed.
pub timed_out_iff :
    (timeout_ms start now : ℕ)
    → start ≤ now
    → now < 2 ^ 31
    → (timed_out timeout_ms start now ≡ true) ↔ ((0 < timeout_ms) × (timeout_ms < now - start))
unfolding timed_out
timed_out_iff t start now le lt = ground arith

early :
    (start timeout_ms : ℕ)
    → 0 < timeout_ms
    → start < 2 ^ 63
    → 2 ^ 31 ≤ start % 2 ^ 32
    → timeout_ms < 2 ^ 31
    → timed_out timeout_ms start start ≡ true
unfolding timed_out
early start t pos_t lt bit small = ground arith

-- Later the cast to `int` breaks it: where bit 31 of the clock is set, and the clock is below 2^63,
-- a blocking call with a time limit below 2^31 ends with ERR_TIMEOUT in its first round, in the
-- very millisecond in which it starts.
pub blocking_loop_times_out :
    (f start : ℕ) (w : ℕ → World) (c : HttpClient) (m : Mem)
    → (w 0).now ≡ start
    → start < 2 ^ 63
    → 2 ^ 31 ≤ start % 2 ^ 32
    → 0 < c.timeout_ms
    → c.timeout_ms < 2 ^ 31
    → blocking_loop (suc f) 0 w start c m
      ≡ finished err_timeout c.blocking_out (release (owned c + 1) m)
unfolding blocking_loop destroyed
blocking_loop_times_out f start w c m e lt bit pos_t small =
    rw (e, early start c.timeout_ms pos_t lt bit small, blocking_loop) refl
