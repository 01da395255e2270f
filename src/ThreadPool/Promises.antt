-- ===== src/ThreadPool/Promises.antt =====
-- What the pool promises to those who add tasks, wait for them or dispose of the pool.
use maestro_core.Base.{
  ℕ, ◌+◌, ◌≤◌, ◌<◌, Option, none, some, List, [], ◌∷◌, ◌++◌, ◌≡◌, refl, arith, length, ap, ◌∙◌,
  append-nil, inl, inr, ◌⊎◌, dec_lt,
}
use maestro_core.ThreadPool.{
  Task, Pool, Worker, ready, asleep, running, calling, finishing, exited, Call, checking, returned,
  wait,
}
use maestro_core.ThreadPool.Counts.{total, get_elem?, total-found}
use maestro_core.ThreadPool.System.{System, is_asleep, Reach}
use maestro_core.ThreadPool.Reached.{Reach-IsSound}
use maestro_core.ThreadPool.Invariant.{is_busy, is_ready, is_exited, IsSound}
use maestro_core.ThreadPool.Ledger.{tasks, all_calls, owed, IsKept, Reach-IsKept}

owed-idle : (w : Call → ℕ) (k : Worker) → is_busy k ≡ 0 → owed w k ≡ 0
unfolding total
owed-idle w ready h = refl
owed-idle w asleep h = refl
owed-idle w (running none) h = refl
owed-idle w (running (some t)) h = absurd (omega arith)
owed-idle w (calling t) h = absurd (omega arith)
owed-idle w finishing h = refl
owed-idle w exited h = refl

total-owed-idle : (w : Call → ℕ) (l : List Worker) → total is_busy l ≡ 0 → total (owed w) l ≡ 0
unfolding total
total-owed-idle w [] h = refl
total-owed-idle w (k ∷ l) h =
    omega (arith, owed-idle w k (omega arith), total-owed-idle w l (omega arith))

tasks-none : (q : List (Option Task)) → length q ≡ 0 → tasks q ≡ []
unfolding tasks
tasks-none [] h = refl
tasks-none (i ∷ q) h = absurd (omega arith)

-- Every task that was added has been fetched, and of each its function and its callback have been
-- called once: so says every way to weigh the calls.
abbrev pub AllDone : System → Type 0
AllDone s = (s.added ≡ s.fetched) × ((w : Call → ℕ) → total w s.calls ≡ total w (all_calls s.added))

idle-AllDone :
    {s : System} → IsKept s → length s.pool.queue ≡ 0 → total is_busy s.workers ≡ 0 → AllDone s
idle-AllDone {s} v none_left none_busy = (
  all_fetched,
  λ w. omega (
    arith,
    v.paid w,
    total-owed-idle w s.workers none_busy,
    ap (λ (l : List Task). total w (all_calls l)) all_fetched,
  ),
)
  where
    all_fetched : s.added ≡ s.fetched
    all_fetched =
        v.fifo
        ∙ ap (λ (q : List Task). s.fetched ++ q) (tasks-none s.pool.queue none_left)
        ∙ append-nil s.fetched

wait-returned :
    (p : Pool) → wait checking p ≡ returned → (p.active_tasks ≡ 0) × (length p.queue ≡ 0)
unfolding wait
wait-returned p h = ground arith

-- In every order of steps: when `tp_wait` returns, every task added so far has been fetched, in
-- the order of addition, and its function and its callback have been called, each once.
pub wait-AllDone : {n : ℕ} {s : System} → Reach n s → wait checking s.pool ≡ returned → AllDone s
wait-AllDone {n} {s} r h =
    let v = Reach-IsSound r in
    let idle = wait-returned s.pool h in
    idle-AllDone (Reach-IsKept r) idle.1 (omega (arith, v.counted, idle.0))

busy_or_exited : (l : List Worker) → total is_busy l + total is_exited l ≤ length l
unfolding total
busy_or_exited [] = omega arith
busy_or_exited (k ∷ l) = omega (arith, weight k, busy_or_exited l)
  where
    weight : (k : Worker) → is_busy k + is_exited k ≤ 1
    weight ready = omega arith
    weight asleep = omega arith
    weight (running i) = omega arith
    weight (calling t) = omega arith
    weight finishing = omega arith
    weight exited = omega arith

-- In every order of steps: when all of at least one worker have left, so that the joins of
-- `tp_dispose` return, and no task was added after `stop` was set, every task has been fetched and
-- its function and its callback have been called, each once.
pub dispose-AllDone :
    {n : ℕ} {s : System}
    → Reach n s
    → 0 < n
    → total is_exited s.workers ≡ n
    → s.late ≡ 0
    → AllDone s
dispose-AllDone {n} {s} r pos_n gone early =
    let v = Reach-IsSound r in
    let left = v.leaving (omega arith) in
    idle-AllDone (Reach-IsKept r) (omega (arith, left.1))
      (omega (arith, v.size, busy_or_exited s.workers))

-- Tasks are fetched in the order in which they were added, and none is lost or made up: those
-- added are those fetched, followed by those that wait; and `active_tasks` is never more than the
-- number of workers.
pub fetched_in_order :
    {n : ℕ} {s : System}
    → Reach n s
    → (s.added ≡ s.fetched ++ tasks s.pool.queue) × (s.pool.active_tasks ≤ n)
fetched_in_order {n} {s} r =
    let v = Reach-IsSound r in
    ((Reach-IsKept r).fifo, omega (arith, v.counted, v.size, busy_or_exited s.workers))

abbrev pub can_go_on : Worker → ℕ
can_go_on asleep = 0
can_go_on exited = 0
can_go_on _ = 1

some_awake :
    (l : List Worker) → total can_go_on l + total is_asleep l + total is_exited l ≡ length l
unfolding total
some_awake [] = refl
some_awake (k ∷ l) = omega (arith, weight k, some_awake l)
  where
    weight : (k : Worker) → can_go_on k + is_asleep k + is_exited k ≡ 1
    weight ready = refl
    weight asleep = refl
    weight (running i) = refl
    weight (calling t) = refl
    weight finishing = refl
    weight exited = refl

ready_awake : (l : List Worker) → total is_ready l ≤ total can_go_on l
unfolding total
ready_awake [] = omega arith
ready_awake (k ∷ l) = omega (arith, weight k, ready_awake l)
  where
    weight : (k : Worker) → is_ready k ≤ can_go_on k
    weight ready = omega arith
    weight asleep = omega arith
    weight (running i) = omega arith
    weight (calling t) = omega arith
    weight finishing = omega arith
    weight exited = omega arith

-- No wake-up is lost: in every order of steps, while a task waits in a pool with at least one
-- worker and none was added after `stop` was set, some worker neither sleeps nor has left.
pub waiting_task_served :
    {n : ℕ} {s : System}
    → Reach n s
    → 0 < n
    → 0 < length s.pool.queue
    → s.late ≡ 0
    → (i : ℕ) × (k : Worker) × (get_elem? s.workers i ≡ some k) × (0 < can_go_on k)
waiting_task_served {n} {s} r pos_n queued early = total-found can_go_on s.workers (awake v.roused)
  where
    v : IsSound n s.pool s.workers s.late
    v = Reach-IsSound r

    nobody_left : total is_exited s.workers ≤ 0
    nobody_left = elim (dec_lt 0 (total is_exited s.workers)) [
      | yes h ↦ absurd (omega (arith, (v.leaving h).1))
      | no h ↦ omega arith
    ]

    awake :
        (total is_asleep s.workers ≡ 0) ⊎ (length s.pool.queue ≤ total is_ready s.workers)
        → 0 < total can_go_on s.workers
    awake (inl h) = omega (arith, v.size, nobody_left, some_awake s.workers)
    awake (inr h) = omega (arith, ready_awake s.workers)
