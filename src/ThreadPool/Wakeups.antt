-- ===== src/ThreadPool/Wakeups.antt =====
-- The callers of `tp_wait`.
use maestro_core.Base.{
  ℕ, ◌+◌, ◌≤◌, ◌<◌, false, Option, none, some, List, [], ◌∷◌, ◌≡◌, refl, arith, length, ap, subst,
  sym, ◌∙◌, length-append,
}
use maestro_core.ThreadPool.{
  Task, Pool, Worker, ready, asleep, running, calling, finishing, exited, turn, fetch, Waiter,
  checking, returned, waiting, wait,
}
use maestro_core.ThreadPool.Counts.{total, get_elem?, set, total-set, length-set, total-append}
use maestro_core.ThreadPool.System.{
  System, is_waiting, one, nobody, ends_task, Step, acts, finishes, stirs, adds, arrives, waits,
  rouses, stops, Reach, start, later, WaiterSignal,
}
use maestro_core.ThreadPool.Invariant.{enqueue-queue}

-- What is left to do.
abbrev work_left : Pool → ℕ
work_left p = p.active_tasks + length p.queue

turn-work_left :
    (k : Worker) (p : Pool) → ends_task k ≡ false → work_left p ≤ work_left (turn k p).1
unfolding turn fetch
turn-work_left ready p h = from p.queue refl
  where
    from : (q : List (Option Task)) → p.queue ≡ q → work_left p ≤ work_left (fetch q p).1
    from [] e = omega arith
    from (none ∷ q) e = omega arith
    from (some t ∷ q) e = omega (arith, ap length e)
turn-work_left asleep p h = omega arith
turn-work_left (running none) p h = omega arith
turn-work_left (running (some t)) p h = omega arith
turn-work_left (calling t) p h = omega arith
turn-work_left finishing p h = cc h
turn-work_left exited p h = omega arith

-- A caller sleeps only while there is something left to do.
abbrev Justified : System → Type 0
Justified s = 0 < total is_waiting s.waiters → 0 < work_left s.pool

waiting-le : (l : List Waiter) → total is_waiting l ≤ length l
unfolding total
waiting-le [] = omega arith
waiting-le (checking ∷ l) = omega (arith, waiting-le l)
waiting-le (waiting ∷ l) = omega (arith, waiting-le l)
waiting-le (returned ∷ l) = omega (arith, waiting-le l)

signal-none : (l l' : List Waiter) → WaiterSignal l l' → length l ≤ 1 → total is_waiting l' ≡ 0
signal-none l l' (one i e is) h =
    ap (total is_waiting) is ∙ omega (arith, total-set is_waiting l i checking e, waiting-le l)
signal-none l l' (nobody e is) h = ap (total is_waiting) is ∙ e

signal-length : (l l' : List Waiter) → WaiterSignal l l' → length l' ≡ length l
signal-length l l' (one i e is) = ap length is ∙ length-set l i checking
signal-length l l' (nobody e is) = ap length is

waits-Justified :
    (s : System) (i : ℕ) (k : Waiter)
    → get_elem? s.waiters i ≡ some k
    → Justified s
    → Justified (record s { waiters = set s.waiters i (wait k s.pool) })
unfolding wait
waits-Justified s i checking e j h =
    ground (arith, total-set is_waiting s.waiters i (wait checking s.pool) e)
waits-Justified s i waiting e j h = j (omega (arith, total-set is_waiting s.waiters i waiting e))
waits-Justified s i returned e j h = j (omega (arith, total-set is_waiting s.waiters i returned e))

Step-Justified : {s t : System} → Step s t → length t.waiters ≤ 1 → Justified s → Justified t
unfolding total
Step-Justified {s} (acts i k e h is) few j =
    subst Justified (sym is) (λ w. omega (arith, j w, turn-work_left k s.pool h))
Step-Justified {s} (finishes i l e sig is) few j =
    let single : length l ≤ 1 = subst (λ (u : System). length u.waiters ≤ 1) is few in
    subst Justified (sym is) (λ w.
      absurd
        (omega (arith, signal-none s.waiters l sig (omega (arith, signal-length s.waiters l sig)))))
Step-Justified (stirs i e is) few j = subst Justified (sym is) j
Step-Justified {s} (adds x m l h sig is) few j = subst Justified (sym is) (
    subst (λ (p : Pool). 0 < total is_waiting s.waiters → 0 < work_left p)
      (sym (enqueue-queue x m s.pool h))
      (λ w. omega (arith, length-append s.pool.queue (some x ∷ []))))
Step-Justified {s} (arrives is) few j =
    subst Justified (sym is)
      (λ w. j (omega (arith, total-append is_waiting s.waiters (checking ∷ []), checking_awake)))
  where
    checking_awake : is_waiting checking ≡ 0
    checking_awake = refl
Step-Justified {s} (waits i k e is) few j = subst Justified (sym is) (waits-Justified s i k e j)
Step-Justified {s} (rouses i e is) few j =
    subst Justified (sym is) (λ w. j (omega (arith, total-set is_waiting s.waiters i checking e)))
Step-Justified (stops h is) few j = subst Justified (sym is) j

Step-waiters : {s t : System} → Step s t → length s.waiters ≤ length t.waiters
Step-waiters (acts i k e h is) = omega (arith, ap (λ (u : System). length u.waiters) is)
Step-waiters {s} (finishes i l e sig is) =
    omega (arith, ap (λ (u : System). length u.waiters) is, signal-length s.waiters l sig)
Step-waiters (stirs i e is) = omega (arith, ap (λ (u : System). length u.waiters) is)
Step-waiters (adds x m l h sig is) = omega (arith, ap (λ (u : System). length u.waiters) is)
Step-waiters {s} (arrives is) =
    omega (arith, ap (λ (u : System). length u.waiters) is, length-append s.waiters (checking ∷ []))
Step-waiters {s} (waits i k e is) =
    omega (arith, ap (λ (u : System). length u.waiters) is, length-set s.waiters i (wait k s.pool))
Step-waiters {s} (rouses i e is) =
    omega (arith, ap (λ (u : System). length u.waiters) is, length-set s.waiters i checking)
Step-waiters (stops h is) = omega (arith, ap (λ (u : System). length u.waiters) is)

-- With at most one caller of `tp_wait`, it sleeps in no order of steps while the queue is empty
-- and no task is active: some worker still has a task to end, and will signal.
pub single_waiter_justified :
    {n : ℕ} {s : System}
    → Reach n s
    → length s.waiters ≤ 1
    → 0 < total is_waiting s.waiters
    → 0 < s.pool.active_tasks + length s.pool.queue
unfolding total
single_waiter_justified start few w = absurd (omega arith)
single_waiter_justified (later r st) few w =
    Step-Justified st few (single_waiter_justified r (omega (arith, few, Step-waiters st))) w
