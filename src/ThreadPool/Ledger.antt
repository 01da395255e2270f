-- ===== src/ThreadPool/Ledger.antt =====
-- The order in which the tasks of a pool are fetched, and the calls that were made for them.
use maestro_core.Base.{
  ℕ, zero, suc, ◌+◌, Option, none, some, List, [], ◌∷◌, ◌++◌, ◌≡◌, refl, arith, ap, subst, sym, ◌∙◌,
  append_assoc, append-nil, if◌then◌else◌,
}
use maestro_core.ThreadPool.{
  Task, Pool, Worker, ready, asleep, running, calling, finishing, exited, turn, fetch, wake_all,
  wake, Call, function_call, callback_call, calls_in, fetched_in,
}
use maestro_core.ThreadPool.Counts.{total, get_elem?, set, total-set, total-append}
use maestro_core.ThreadPool.System.{
  System, WorkerSignal, one, nobody, after_turn, Step, acts, finishes, stirs, adds, arrives, waits,
  rouses, stops, all_ready, Reach, start, later,
}
use maestro_core.ThreadPool.Invariant.{enqueue-queue}

-- The tasks of the queue.
unfoldable pub tasks : List (Option Task) → List Task
tasks [] = []
tasks (none ∷ q) = tasks q
tasks (some t ∷ q) = t ∷ tasks q

abbrev pub both_calls : Task → List Call
both_calls t = function_call t ++ callback_call t

-- The calls that tasks ask for: of each its function, then its callback if it has one.
unfoldable pub all_calls : List Task → List Call
all_calls [] = []
all_calls (t ∷ l) = both_calls t ++ all_calls l

-- The calls that a worker still owes.
abbrev pub due : Worker → List Call
due (running (some t)) = both_calls t
due (calling t) = callback_call t
due _ = []

pub tasks-append :
    (q : List (Option Task)) (x : Task) → tasks (q ++ some x ∷ []) ≡ tasks q ++ x ∷ []
unfolding tasks
tasks-append [] x = refl
tasks-append (none ∷ q) x = tasks-append q x
tasks-append (some t ∷ q) x = ap (λ l. t ∷ l) (tasks-append q x)

all_calls-append : (l r : List Task) → all_calls (l ++ r) ≡ all_calls l ++ all_calls r
unfolding all_calls
all_calls-append [] r = refl
all_calls-append (t ∷ l) r =
    ap (λ (k : List Call). both_calls t ++ k) (all_calls-append l r)
    ∙ sym (append_assoc (both_calls t) (all_calls l) (all_calls r))

-- What is fetched in a turn leaves the queue at its front.
turn-tasks : (k : Worker) (p : Pool) → tasks p.queue ≡ fetched_in k p ++ tasks (turn k p).1.queue
unfolding turn fetched_in tasks fetch
turn-tasks ready p = from p.queue refl
  where
    from :
        (q : List (Option Task))
        → p.queue ≡ q
        → tasks q
          ≡ (elim q [ [] ↦ [] | i ∷ _ ↦ elim i [ none ↦ [] | some t ↦ t ∷ [] ] ])
            ++ tasks (fetch q p).1.queue
    from [] e = sym (ap tasks e)
    from (none ∷ q) e = sym (ap tasks e)
    from (some t ∷ q) e = refl
turn-tasks asleep p = refl
turn-tasks (running none) p = refl
turn-tasks (running (some t)) p = refl
turn-tasks (calling t) p = refl
turn-tasks finishing p = refl
turn-tasks exited p = refl

module _ (w : Call → ℕ) where
  abbrev pub owed : Worker → ℕ
  owed k = total w (due k)

  -- In its turn a worker pays what it owes and takes on what it fetches.
  turn-owed :
      (k : Worker) (p : Pool)
      → total w (calls_in k) + owed (turn k p).0 ≡ owed k + total w (all_calls (fetched_in k p))
  unfolding turn fetched_in fetch calls_in total all_calls
  turn-owed ready p = from p.queue
    where
      from :
          (q : List (Option Task))
          → 0 + owed (fetch q p).0
            ≡ 0
              + total w
                  (all_calls (elim q [ [] ↦ [] | i ∷ _ ↦ elim i [ none ↦ [] | some t ↦ t ∷ [] ] ]))
      from [] = ground arith
      from (none ∷ q) = refl
      from (some t ∷ q) = ap (λ (l : List Call). 0 + total w l) (sym (append-nil (both_calls t)))
  turn-owed asleep p = refl
  turn-owed (running none) p = refl
  turn-owed (running (some t)) p = omega (arith, total-append w (function_call t) (callback_call t))
  turn-owed (calling t) p = omega arith
  turn-owed finishing p = refl
  turn-owed exited p = refl

-- The tasks that were added are those that were fetched, in order, and those that wait, and the
-- calls made and owed are those that the fetched tasks ask for, however calls are weighed.
pub record IsKept (s : System) : Type 0 where
  pub fifo : s.added ≡ s.fetched ++ tasks s.pool.queue
  pub paid :
      (w : Call → ℕ) → total w s.calls + total (owed w) s.workers ≡ total w (all_calls s.fetched)

module _ {s : System} (v : IsKept s) where
  after_turn-IsKept :
      (i : ℕ) (k : Worker) → get_elem? s.workers i ≡ some k → IsKept (after_turn i k s)
  after_turn-IsKept i k e = record {
    fifo =
        v.fifo
        ∙ ap (λ (q : List Task). s.fetched ++ q) (turn-tasks k s.pool)
        ∙ sym (append_assoc s.fetched (fetched_in k s.pool) (tasks (turn k s.pool).1.queue));
    paid = λ w. omega (
      arith,
      v.paid w,
      turn-owed w k s.pool,
      total-set (owed w) s.workers i (turn k s.pool).0 e,
      total-append w s.calls (calls_in k),
      ap (total w) (all_calls-append s.fetched (fetched_in k s.pool)),
      total-append w (all_calls s.fetched) (all_calls (fetched_in k s.pool)),
    );
  }

  -- Workers that only wake up owe what they owed.
  woken-IsKept :
      (l : List Worker)
      → ((w : Call → ℕ) → total (owed w) l ≡ total (owed w) s.workers)
      → IsKept (record s { workers = l })
  woken-IsKept l h = record { fifo = v.fifo; paid = λ w. omega (arith, v.paid w, h w) }

  added-IsKept :
      (x : Task)
      → IsKept (record s {
        pool = record s.pool { queue = s.pool.queue ++ some x ∷ [] };
        added = s.added ++ x ∷ [];
      })
  added-IsKept x = record {
    fifo =
        ap (λ (l : List Task). l ++ x ∷ []) v.fifo
        ∙ append_assoc s.fetched (tasks s.pool.queue) (x ∷ [])
        ∙ ap (λ (q : List Task). s.fetched ++ q) (sym (tasks-append s.pool.queue x));
    paid = v.paid;
  }

set-owed :
    (w : Call → ℕ) (l : List Worker) (i : ℕ)
    → get_elem? l i ≡ some asleep
    → total (owed w) (set l i ready) ≡ total (owed w) l
set-owed w l i e = omega (arith, total-set (owed w) l i ready e)

signal-owed :
    (w : Call → ℕ) (l l' : List Worker) → WorkerSignal l l' → total (owed w) l' ≡ total (owed w) l
signal-owed w l l' (one i e is) = ap (total (owed w)) is ∙ set-owed w l i e
signal-owed w l l' (nobody e is) = ap (total (owed w)) is

wake-owed : (w : Call → ℕ) (k : Worker) → owed w (wake k) ≡ owed w k
unfolding wake
wake-owed w asleep = refl
wake-owed w k = refl

wake_all-owed : (w : Call → ℕ) (l : List Worker) → total (owed w) (wake_all l) ≡ total (owed w) l
unfolding wake_all total
wake_all-owed w [] = refl
wake_all-owed w (k ∷ l) = omega (arith, wake-owed w k, wake_all-owed w l)

Step-IsKept : {s t : System} → Step s t → IsKept s → IsKept t
Step-IsKept {s} (acts i k e h is) v = subst IsKept (sym is) (after_turn-IsKept v i k e)
Step-IsKept {s} (finishes i l e sig is) v =
    let u = after_turn-IsKept v i finishing e in
    subst IsKept (sym is) (record { fifo = u.fifo; paid = u.paid })
Step-IsKept {s} (stirs i e is) v =
    subst IsKept (sym is) (woken-IsKept v (set s.workers i ready) (λ w. set-owed w s.workers i e))
Step-IsKept {s} (adds x m l h sig is) v =
    let u = added-IsKept (woken-IsKept v l (λ w. signal-owed w s.workers l sig)) x in
    subst IsKept
      (sym (
        is
        ∙ ap
            (λ (p : Pool). record s {
              pool = p;
              workers = l;
              added = s.added ++ x ∷ [];
              late = if s.pool.stop then suc s.late else s.late;
            })
            (enqueue-queue x m s.pool h)))
      (record { fifo = u.fifo; paid = u.paid })
Step-IsKept {s} (arrives is) v = subst IsKept (sym is) (record { fifo = v.fifo; paid = v.paid })
Step-IsKept {s} (waits i k e is) v = subst IsKept (sym is) (record { fifo = v.fifo; paid = v.paid })
Step-IsKept {s} (rouses i e is) v = subst IsKept (sym is) (record { fifo = v.fifo; paid = v.paid })
Step-IsKept {s} (stops h is) v =
    let u = woken-IsKept v (wake_all s.workers) (λ w. wake_all-owed w s.workers) in
    subst IsKept (sym is) (record { fifo = u.fifo; paid = u.paid })

total-all_ready : (w : Call → ℕ) (n : ℕ) → total (owed w) (all_ready n) ≡ 0
unfolding total all_ready
total-all_ready w zero = refl
total-all_ready w (suc n) = omega (arith, total-all_ready w n)

pub Reach-IsKept : {n : ℕ} {s : System} → Reach n s → IsKept s
unfolding tasks total all_calls
Reach-IsKept {n} start = record { fifo = refl; paid = λ w. omega (arith, total-all_ready w n) }
Reach-IsKept (later r st) = Step-IsKept st (Reach-IsKept r)
