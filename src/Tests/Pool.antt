-- ===== src/Tests/Pool.antt =====
-- Runs of the thread pool.
use maestro_core.Base.{
  ℕ, List, Option, Bool, pos, true, false, ltb, none, some, [], ◌∷◌, ◌++◌, ◌≡◌, refl, arith, ◌≤◌,
  ◌<◌, length, ◌+◌, negsuc,
}
use maestro_core.Memory.{Mem}
use maestro_core.ThreadPool.{
  fetch, fetched_in, calls_in, wake_all, Call, Task, Worker, ready, asleep, running, calling,
  finishing, exited, checking, waiting, returned, wait, task_add, turn, enqueue,
}
use maestro_core.ThreadPool.Counts.{total, get_elem?}
use maestro_core.ThreadPool.System.{
  all_ready, System, fresh, Reach, Step, start, later, acts, finishes, adds, arrives, waits, stops,
  nobody, one,
}
use maestro_core.ThreadPool.Invariant.{is_exited}
use maestro_core.ThreadPool.Ledger.{tasks}
use maestro_core.ThreadPool.Promises.{
  AllDone, wait-AllDone, dispose-AllDone, fetched_in_order, waiting_task_served, can_go_on,
}
use maestro_core.ThreadPool.Wakeups.{single_waiter_justified}
use maestro_core.ThreadPool.Service.{Served, view, Reach-Served}
use maestro_core.ThreadPool.Disposal.{all_exited, close_pool, close_pool-empty}
use maestro_core.ThreadPool.Init.{pool, joining, init, Alone, init_works, init_joins_forever}

abbrev plenty : Mem
plenty = record { grants = λ _. true; asked = 0; live = 0 }

abbrev print_task : Task
print_task = record {
  thread_func = 1;
  thread_arg = some 10;
  callback_func = some 2;
  callback_arg = none;
}

refused_task :
    task_add
      (some (record {
        thread_func = none;
        thread_arg = none;
        callback_func = none;
        callback_arg = none;
      }))
      plenty
      (fresh 1).pool
    ≡ (negsuc 0, plenty, (fresh 1).pool)
unfolding task_add
refused_task = refl

abbrev with_worker : List (Option Task) → ℕ → Bool → Worker → List Task → List Call → System
with_worker queue active stop worker fetched calls = record {
  pool = record { queue = queue; active_tasks = active; stop = stop };
  workers = worker ∷ [];
  waiters = [];
  added = print_task ∷ [];
  fetched = fetched;
  calls = calls;
  late = 0;
}

-- A pool with one worker, from the addition of one task to the worker's end.
abbrev queued : System
queued = with_worker (some print_task ∷ []) 0 false ready [] []

abbrev taken : System
taken = with_worker [] 1 false (running (some print_task)) (print_task ∷ []) []

abbrev called : System
called = with_worker [] 1 false (calling print_task) (print_task ∷ []) ((1, some 10) ∷ [])

abbrev both_called : System
both_called = with_worker [] 1 false finishing (print_task ∷ []) ((1, some 10) ∷ (2, none) ∷ [])

abbrev ended : System
ended = with_worker [] 0 false ready (print_task ∷ []) ((1, some 10) ∷ (2, none) ∷ [])

abbrev stopped : System
stopped = record ended { pool = record ended.pool { stop = true } }

abbrev left : System
left = with_worker [] 0 true exited (print_task ∷ []) ((1, some 10) ∷ (2, none) ∷ [])

reach_by : {s : System} (t : System) → Reach 1 s → Step s t → Reach 1 t
reach_by t r st = later r st

queued_reached : Reach 1 queued
unfolding enqueue total all_ready
queued_reached = later start (adds print_task plenty (ready ∷ []) refl (nobody refl refl) refl)

taken_reached : Reach 1 taken
unfolding turn fetch fetched_in calls_in
taken_reached = later queued_reached (acts 0 ready refl refl refl)

both_called_reached : Reach 1 both_called
unfolding turn fetched_in calls_in
both_called_reached =
    later (reach_by called taken_reached (acts 0 (running (some print_task)) refl refl refl))
      (acts 0 (calling print_task) refl refl refl)

ended_reached : Reach 1 ended
unfolding turn fetched_in calls_in total
ended_reached = later both_called_reached (finishes 0 [] refl (nobody refl refl) refl)

left_reached : Reach 1 left
unfolding turn fetch fetched_in calls_in wake_all
left_reached =
    later (reach_by stopped ended_reached (stops refl refl)) (acts 0 ready refl refl refl)

wait-AllDone_example : AllDone ended
unfolding wait
wait-AllDone_example = wait-AllDone ended_reached refl

dispose-AllDone_run : AllDone left
unfolding total
dispose-AllDone_run = dispose-AllDone left_reached (omega arith) refl refl

close_pool-empty_run :
    close_pool left.workers left.pool (record { grants = λ _. true; asked = 0; live = 9 })
    ≡ some (record { grants = λ _. true; asked = 0; live = 6 })
unfolding all_exited
close_pool-empty_run = close_pool-empty _ left_reached (omega arith) refl refl

fetched_in_order_run :
    (queued.added ≡ queued.fetched ++ tasks queued.pool.queue) × (queued.pool.active_tasks ≤ 1)
fetched_in_order_run = fetched_in_order queued_reached

waiting_task_served_example :
    (i : ℕ) × (k : Worker) × (get_elem? queued.workers i ≡ some k) × (0 < can_go_on k)
waiting_task_served_example = waiting_task_served queued_reached (omega arith) (omega arith) refl

-- A caller that waits while the task runs.
abbrev awaited : System
awaited = record taken { waiters = waiting ∷ [] }

awaited_reached : Reach 1 awaited
unfolding wait
awaited_reached =
    later (reach_by (record taken { waiters = checking ∷ [] }) taken_reached (arrives refl))
      (waits 0 checking refl refl)

single_waiter_justified_run : 0 < awaited.pool.active_tasks + length awaited.pool.queue
unfolding total
single_waiter_justified_run = single_waiter_justified awaited_reached (omega arith) (omega arith)

Reach-Served_example : Served 1 (view left)
Reach-Served_example = Reach-Served left_reached

-- Two callers wait for one task: its end wakes only the first, and the other sleeps on in a pool
-- with nothing left to do and no worker that could signal.
abbrev stranded : System
stranded = record ended { workers = asleep ∷ []; waiters = returned ∷ waiting ∷ [] }

stranded_reached : Reach 1 stranded
unfolding turn fetch fetched_in calls_in wait total
stranded_reached =
    let r1 =
      reach_by (record taken { waiters = waiting ∷ checking ∷ [] }) awaited_reached
        (arrives refl) in
    let r2 =
      reach_by (record taken { waiters = waiting ∷ waiting ∷ [] }) r1
        (waits 1 checking refl refl) in
    let r3 =
      reach_by (record called { waiters = waiting ∷ waiting ∷ [] }) r2
        (acts 0 (running (some print_task)) refl refl refl) in
    let r4 =
      reach_by (record both_called { waiters = waiting ∷ waiting ∷ [] }) r3
        (acts 0 (calling print_task) refl refl refl) in
    let r5 =
      reach_by (record ended { waiters = checking ∷ waiting ∷ [] }) r4
        (finishes 0 (checking ∷ waiting ∷ []) refl (one 0 refl refl) refl) in
    let r6 =
      reach_by (record ended { waiters = returned ∷ waiting ∷ [] }) r5
        (waits 0 checking refl refl) in
    let r7 = reach_by (stranded) r6 (acts 0 ready refl refl refl) in r7

abbrev third_fails : ℕ → Bool
third_fails i = ltb i 2

below_third : (i : ℕ) → i < 2 → third_fails i ≡ true
below_third i h = ground arith

init_works_run : (init (λ _. true) (pos 3) plenty).0 ≡ pool (fresh 3)
init_works_run = init_works (λ _. true) (pos 3) plenty (λ _. refl) (λ i h. refl)

init_joins_forever_example :
    ((init third_fails (pos 4) plenty).0 ≡ joining 2 (fresh 2))
    × ((s : System) → Alone (fresh 2) s → total is_exited s.workers ≡ 0)
init_joins_forever_example =
    init_joins_forever third_fails (pos 4) plenty 2 (λ _. refl) (omega arith) (omega arith)
      below_third refl
