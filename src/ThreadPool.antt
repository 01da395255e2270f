-- ===== src/ThreadPool.antt =====
-- modules/src/thread_pool.c and modules/include/maestromodules/thread_pool.h: the workers, the
-- callers of `tp_wait` and the calls of the interface, as steps of one system. What runs under the
-- mutex is one step, and so is the call of a task's function and that of its callback.
pub mod Counts
pub mod System
pub mod Invariant
pub mod Reached
pub mod Ledger
pub mod Promises
pub mod Wakeups
pub mod Service
pub mod Init
pub mod Disposal
use maestro_core.Base.{
  ℕ, suc, ◌+◌, ◌-◌, ℤ, pos, negsuc, Bool, true, false, Option, none, some, List, [], ◌∷◌, ◌++◌, ◌≡◌,
  if◌then◌else◌, length, ◌||◌, ltb, zero,
}
use maestro_core.Memory.{Mem, granted, attempt, release}

-- What a caller hands over. Functions and arguments are addresses.
pub record TpTask : Type 0 where
  pub thread_func : Option ℕ
  pub thread_arg : Option ℕ
  pub callback_func : Option ℕ
  pub callback_arg : Option ℕ

-- The pool's copy of it, which is made behind the test that `thread_func` is not NULL.
pub record Task : Type 0 where
  pub thread_func : ℕ
  pub thread_arg : Option ℕ
  pub callback_func : Option ℕ
  pub callback_arg : Option ℕ

-- The items of the queue, first to last; an item that is NULL is `none`.
pub record Pool : Type 0 where
  pub queue : List (Option Task)
  pub active_tasks : ℕ
  pub stop : Bool

-- Where a worker stands: before the mutex, in `pthread_cond_wait`, about to call the function or
-- the callback of its task, before the second mutex, behind the loop.
pub data Worker : Type 0 where
  ready : Worker
  asleep : Worker
  running : Option Task → Worker
  calling : Task → Worker
  finishing : Worker
  exited : Worker

-- `tp_worker` from where it stands to its next pause.
unfoldable pub fetch : List (Option Task) → Pool → Worker × Pool
fetch [] p = (if p.stop then exited else asleep, p)
fetch (none ∷ q) p = (running none, record p { active_tasks = p.active_tasks + 1 })
fetch (some t ∷ q) p = (running (some t), record p { queue = q; active_tasks = p.active_tasks + 1 })

unfoldable pub turn : Worker → Pool → Worker × Pool
turn ready p = fetch p.queue p
turn asleep p = (asleep, p)
turn (running none) p = (finishing, p)
turn (running (some t)) p = (calling t, p)
turn (calling t) p = (finishing, p)
turn finishing p = (ready, record p { active_tasks = p.active_tasks - 1 })
turn exited p = (exited, p)

-- A function with its argument.
abbrev pub Call : Type 0
Call = ℕ × Option ℕ

abbrev pub function_call : Task → List Call
function_call t = (t.thread_func, t.thread_arg) ∷ []

abbrev pub callback_call : Task → List Call
callback_call t = elim t.callback_func [ none ↦ [] | some f ↦ (f, t.callback_arg) ∷ [] ]

-- The calls that a worker makes in its turn.
unfoldable pub calls_in : Worker → List Call
calls_in (running (some t)) = function_call t
calls_in (calling t) = callback_call t
calls_in _ = []

-- The task that a worker takes off the queue in its turn.
unfoldable pub fetched_in : Worker → Pool → List Task
fetched_in ready p = elim p.queue [ [] ↦ [] | i ∷ _ ↦ elim i [ none ↦ [] | some t ↦ t ∷ [] ] ]
fetched_in _ p = []

-- `tp_task_add` behind its guard: the result, the allocator and the pool.
unfoldable pub enqueue : Task → Mem → Pool → ℤ × Mem × Pool
enqueue t m p =
    if granted m
    then if granted (attempt m)
      then (pos 0, attempt (attempt m), record p { queue = p.queue ++ some t ∷ [] })
      else (negsuc 100, release 1 (attempt (attempt m)), p)
    else (negsuc 9, attempt m, p)

abbrev copied : ℕ → TpTask → Task
copied f t = record {
  thread_func = f;
  thread_arg = t.thread_arg;
  callback_func = t.callback_func;
  callback_arg = t.callback_arg;
}

unfoldable pub task_add : Option TpTask → Mem → Pool → ℤ × Mem × Pool
unfolding enqueue
task_add none m p = (negsuc 0, m, p)
task_add (some t) m p = elim t.thread_func [
  | none ↦ (negsuc 0, m, p)
  | some f ↦ enqueue (copied f t) m p
]

-- A caller in `tp_wait`: before the mutex, in `pthread_cond_wait`, behind the loop.
pub data Waiter : Type 0 where
  checking : Waiter
  waiting : Waiter
  returned : Waiter

unfoldable pub wait : Waiter → Pool → Waiter
wait checking p = if ltb 0 p.active_tasks || ltb 0 (length p.queue) then waiting else returned
wait waiting p = waiting
wait returned p = returned

-- What `pthread_cond_broadcast` of `tp_dispose` does to a worker.
unfoldable pub wake : Worker → Worker
wake asleep = ready
wake w = w

unfoldable pub wake_all : List Worker → List Worker
unfolding wake
wake_all [] = []
wake_all (w ∷ l) = wake w ∷ wake_all l
