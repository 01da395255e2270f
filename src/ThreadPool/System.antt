-- ===== src/ThreadPool/System.antt =====
-- The steps of a pool with its workers and callers, in any order. What was added, fetched and
-- called is noted beside the state.
use maestro_core.Base.{
  ℕ, zero, suc, pos, Bool, true, false, List, [], ◌∷◌, ◌++◌, ◌≡◌, some, if◌then◌else◌,
}
use maestro_core.Memory.{Mem}
use maestro_core.ThreadPool.{
  Task, Pool, Worker, ready, asleep, finishing, turn, Call, calls_in, fetched_in, enqueue, Waiter,
  checking, waiting, wait, wake_all,
}
use maestro_core.ThreadPool.Counts.{total, get_elem?, set}

pub record System : Type 0 where
  pub pool : Pool
  pub workers : List Worker
  pub waiters : List Waiter
  pub added : List Task
  pub fetched : List Task
  pub calls : List Call
  -- how many tasks were added after `stop` was set
  pub late : ℕ

abbrev pub is_asleep : Worker → ℕ
is_asleep asleep = 1
is_asleep _ = 0

abbrev pub is_waiting : Waiter → ℕ
is_waiting waiting = 1
is_waiting _ = 0

-- `pthread_cond_signal` lets one sleeper go on, whichever, if there is any.
pub data Signal {A : Type 0} (sleeps : A → ℕ) (sleeper woken : A) (l l' : List A) : Type 0 where
  one :
      (i : ℕ) → get_elem? l i ≡ some sleeper → l' ≡ set l i woken → Signal sleeps sleeper woken l l'
  nobody : total sleeps l ≡ 0 → l' ≡ l → Signal sleeps sleeper woken l l'

abbrev pub WorkerSignal : List Worker → List Worker → Type 0
WorkerSignal = Signal is_asleep asleep ready

abbrev pub WaiterSignal : List Waiter → List Waiter → Type 0
WaiterSignal = Signal is_waiting waiting checking

abbrev pub after_turn : ℕ → Worker → System → System
after_turn i w s = record s {
  pool = (turn w s.pool).1;
  workers = set s.workers i (turn w s.pool).0;
  fetched = s.fetched ++ fetched_in w s.pool;
  calls = s.calls ++ calls_in w;
}

abbrev pub ends_task : Worker → Bool
ends_task finishing = true
ends_task _ = false

pub data Step (s t : System) : Type 0 where
  -- a worker goes on, up to its next pause
  acts :
      (i : ℕ) (w : Worker)
      → get_elem? s.workers i ≡ some w
      → ends_task w ≡ false
      → t ≡ after_turn i w s
      → Step s t
  -- a worker ends its task, and signals `task_finished`
  finishes :
      (i : ℕ) (l : List Waiter)
      → get_elem? s.workers i ≡ some finishing
      → WaiterSignal s.waiters l
      → t ≡ record (after_turn i finishing s) { waiters = l }
      → Step s t
  -- `pthread_cond_wait` may also return with no signal
  stirs :
      (i : ℕ)
      → get_elem? s.workers i ≡ some asleep
      → t ≡ record s { workers = set s.workers i ready }
      → Step s t
  -- `tp_task_add` succeeds, and signals `task_added`
  adds :
      (x : Task) (m : Mem) (l : List Worker)
      → (enqueue x m s.pool).0 ≡ pos 0
      → WorkerSignal s.workers l
      → t ≡ record s {
        pool = (enqueue x m s.pool).2;
        workers = l;
        added = s.added ++ x ∷ [];
        late = if s.pool.stop then suc s.late else s.late;
      }
      → Step s t
  -- somebody calls `tp_wait`
  arrives : t ≡ record s { waiters = s.waiters ++ checking ∷ [] } → Step s t
  -- a caller of `tp_wait` goes on
  waits :
      (i : ℕ) (v : Waiter)
      → get_elem? s.waiters i ≡ some v
      → t ≡ record s { waiters = set s.waiters i (wait v s.pool) }
      → Step s t
  -- `pthread_cond_wait` of `tp_wait` may also return with no signal
  rouses :
      (i : ℕ)
      → get_elem? s.waiters i ≡ some waiting
      → t ≡ record s { waiters = set s.waiters i checking }
      → Step s t
  -- `tp_dispose` sets `stop` and broadcasts `task_added`
  stops :
      s.pool.stop ≡ false
      → t ≡ record s { pool = record s.pool { stop = true }; workers = wake_all s.workers }
      → Step s t

unfoldable pub all_ready : ℕ → List Worker
all_ready zero = []
all_ready (suc n) = ready ∷ all_ready n

-- What `tp_init` returns: an empty queue, no task active, `n` workers before the mutex.
abbrev pub fresh : ℕ → System
fresh n = record {
  pool = record { queue = []; active_tasks = 0; stop = false };
  workers = all_ready n;
  waiters = [];
  added = [];
  fetched = [];
  calls = [];
  late = 0;
}

pub data Reach (n : ℕ) : System → Type 0 where
  start : Reach n (fresh n)
  later : {s t : System} → Reach n s → Step s t → Reach n t
