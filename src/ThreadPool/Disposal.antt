-- ===== src/ThreadPool/Disposal.antt =====
-- The end of `tp_dispose` of modules/src/thread_pool.c, behind the broadcast: the joins, and the
-- second section under the mutex.
use maestro_core.Base.{
  ℕ, ◌+◌, ◌<◌, Bool, true, false, Option, none, some, List, [], ◌∷◌, length, if◌then◌else◌, ◌≡◌,
  refl, arith,
}
use maestro_core.Memory.{Mem, release}
use maestro_core.ThreadPool.{Task, Pool, Worker, ready, asleep, running, calling, finishing, exited}
use maestro_core.ThreadPool.Counts.{total}
use maestro_core.ThreadPool.Invariant.{is_exited}
use maestro_core.ThreadPool.Reached.{Reach-IsSound}
use maestro_core.ThreadPool.System.{System, Reach}

-- Whether every `pthread_join` returns.
unfoldable pub all_exited : List Worker → Bool
all_exited [] = true
all_exited (exited ∷ l) = all_exited l
all_exited (_ ∷ l) = false

-- The tasks that are freed with the queue.
unfoldable pub left_tasks : List (Option Task) → ℕ
left_tasks [] = 0
left_tasks (none ∷ q) = left_tasks q
left_tasks (some _ ∷ q) = 1 + left_tasks q

-- The array of threads, the tasks, the items and the list of the queue, and the pool are freed;
-- `none` means that a join still waits.
unfoldable pub close_pool : List Worker → Pool → Mem → Option Mem
close_pool l p m =
    if all_exited l
    then some (release (1 + left_tasks p.queue + length p.queue + 1 + 1) m)
    else none

all_exited-total : (l : List Worker) → all_exited l ≡ true → total is_exited l ≡ length l
unfolding all_exited total
all_exited-total [] h = refl
all_exited-total (exited ∷ l) h = omega (arith, all_exited-total l h)
all_exited-total (ready ∷ l) h = cc h
all_exited-total (asleep ∷ l) h = cc h
all_exited-total (running i ∷ l) h = cc h
all_exited-total (calling t ∷ l) h = cc h
all_exited-total (finishing ∷ l) h = cc h

no_left : (q : List (Option Task)) → length q ≡ 0 → left_tasks q ≡ 0
unfolding left_tasks
no_left [] h = refl
no_left (i ∷ q) h = absurd (omega (arith, h))

-- In every order of steps: when all of at least one worker have left and no task was added after
-- `stop` was set, the joins return, no task is dropped, and the three blocks of the pool itself
-- are what is freed.
pub close_pool-empty :
    {n : ℕ} {s : System} (m : Mem)
    → Reach n s
    → 0 < n
    → all_exited s.workers ≡ true
    → s.late ≡ 0
    → close_pool s.workers s.pool m ≡ some (release 3 m)
unfolding close_pool
close_pool-empty {n} {s} m r pos_n gone early =
    let v = Reach-IsSound r in
    let left = v.leaving (omega (arith, v.size, all_exited-total s.workers gone)) in
    let empty : length s.pool.queue ≡ 0 = omega (arith, left.1) in
    rw (gone, empty, no_left s.pool.queue empty) refl
