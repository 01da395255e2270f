-- ===== src/Tests/Blocking.antt =====
-- The theorems on blocking calls at concrete inputs.
use maestro_core.Base.{◌+◌, ◌-◌, ◌<◌, true, none, some, [], ◌≡◌, ◌↔◌, refl, arith, codes}
use maestro_core.ErrorCode.{err_io, err_timeout}
use maestro_core.HttpClient.Work.{timed_out, finished, owned, blocking_loop}
use maestro_core.HttpClient.Work.Clock.{timed_out_iff, blocking_loop_times_out}
use maestro_core.HttpClient.Work.NoResult.{null_result_fails}
use maestro_core.HttpClient.{HttpClient, connecting, returning}
use maestro_core.Memory.{release}
use maestro_core.Tests.Data.{heap, client, world}

timed_out_iff_run : (timed_out 5000 100 5200 ≡ true) ↔ ((0 < 5000) × (5000 < 5200 - 100))
timed_out_iff_run = timed_out_iff 5000 100 5200 (omega arith) (omega arith)

-- A host that is up for 25 days, and a limit of five seconds
abbrev limited : HttpClient
limited = record client {
  state = connecting;
  timeout_ms = 5000;
  blocking_mode = true;
  blocking_out = some none;
}

blocking_loop_times_out_run :
    blocking_loop 10 0 (λ _. world 2160000000 []) 2160000000 limited heap
    ≡ finished err_timeout (some none) (release (owned limited + 1) heap)
blocking_loop_times_out_run =
    blocking_loop_times_out 9 2160000000 (λ _. world 2160000000 []) limited heap refl (omega arith)
      (omega arith) (omega arith) (omega arith)

abbrev posted : HttpClient
posted = record client { state = returning; blocking_mode = true; recv = some (codes "ok") }

null_result_fails_run :
    blocking_loop 2 0 (λ _. world 0 []) 0 posted heap
    ≡ finished err_io none (release (owned posted + 1) heap)
null_result_fails_run = null_result_fails 0 0 0 (λ _. world 0 []) posted heap refl refl refl refl
