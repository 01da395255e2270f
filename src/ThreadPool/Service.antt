-- ===== src/ThreadPool/Service.antt =====
-- The pool as its users see it: a queue that is served in order, by a bounded number at a time.
use maestro_core.Base.{
  ℕ, suc, ◌+◌, ◌-◌, ◌≤◌, ◌<◌, true, Bool, false, Option, none, some, List, [], ◌∷◌, ◌++◌, ◌≡◌, refl,
  arith, ap, subst, sym, ◌∙◌, append-nil, inl, inr, ◌⊎◌, All, if◌then◌else◌,
}
use maestro_core.ThreadPool.{
  Task, Pool, Worker, ready, asleep, running, calling, finishing, exited, turn, fetch, fetched_in,
}
use maestro_core.ThreadPool.Counts.{get_elem?, total-set, length-set, set, total-le}
use maestro_core.ThreadPool.System.{
  System, after_turn, Step, acts, finishes, stirs, adds, arrives, waits, rouses, stops, Reach,
  start, later,
}
use maestro_core.ThreadPool.Reached.{Reach-IsSound}
use maestro_core.ThreadPool.Invariant.{enqueue-queue, is_busy, IsSound, IsItem}
use maestro_core.ThreadPool.Ledger.{tasks, tasks-append}

-- The abstract state: what waits, what was begun, how many run, whether the service is closing.
pub record Service : Type 0 where
  pub pending : List Task
  pub begun : List Task
  pub active : ℕ
  pub closing : Bool

abbrev pub opened : Service
opened = record { pending = []; begun = []; active = 0; closing = false }

-- Tasks queue up, the first is begun while fewer than `n` run, and one that runs ends.
pub data Serve (n : ℕ) (a b : Service) : Type 0 where
  submit : (x : Task) → b ≡ record a { pending = a.pending ++ x ∷ [] } → Serve n a b
  begin :
      (x : Task) (rest : List Task)
      → a.pending ≡ x ∷ rest
      → a.active < n
      → b ≡ record a { pending = rest; begun = a.begun ++ x ∷ []; active = suc a.active }
      → Serve n a b
  end : b.active + 1 ≡ a.active → b ≡ record a { active = b.active } → Serve n a b
  close : a.closing ≡ false → b ≡ record a { closing = true } → Serve n a b

pub data Served (n : ℕ) : Service → Type 0 where
  opening : Served n opened
  after : {a b : Service} → Served n a → Serve n a b → Served n b

abbrev pub view : System → Service
view s = record {
  pending = tasks s.pool.queue;
  begun = s.fetched;
  active = s.pool.active_tasks;
  closing = s.pool.stop;
}

-- A step of the pool is a step of the service, or not seen by it.
abbrev Simulated : ℕ → System → System → Type 0
Simulated n s t = (view t ≡ view s) ⊎ Serve n (view s) (view t)

busy_le_one : (k : Worker) → is_busy k ≤ 1
busy_le_one ready = omega arith
busy_le_one asleep = omega arith
busy_le_one (running i) = omega arith
busy_le_one (calling t) = omega arith
busy_le_one finishing = omega arith
busy_le_one exited = omega arith

module _ {n : ℕ} (s : System) (v : IsSound n s.pool s.workers s.late) (i : ℕ) where
  -- A worker before the mutex has no task, so fewer than `n` have one.
  active-lt : get_elem? s.workers i ≡ some ready → s.pool.active_tasks < n
  active-lt e = omega (
    arith,
    v.counted,
    v.size,
    total-set is_busy s.workers i finishing e,
    length-set s.workers i finishing,
    total-le is_busy busy_le_one (set s.workers i finishing),
  )

  active_pos : get_elem? s.workers i ≡ some finishing → 0 < s.pool.active_tasks
  active_pos e = omega (arith, v.counted, total-set is_busy s.workers i ready e)

  abbrev unseen : List Task → Service
  unseen l = record (view s) { begun = l }

  fetch-Simulated :
      (q : List (Option Task))
      → s.pool.queue ≡ q
      → get_elem? s.workers i ≡ some ready
      → Simulated n s (record s {
        pool = (fetch q s.pool).1;
        fetched =
            s.fetched ++ (elim q [ [] ↦ [] | o ∷ _ ↦ elim o [ none ↦ [] | some t ↦ t ∷ [] ] ]);
      })
  unfolding fetch tasks
  fetch-Simulated [] is e = inl (ap unseen (append-nil s.fetched))
  fetch-Simulated (none ∷ q) is e = cc (subst (All IsItem) is v.whole).0
  fetch-Simulated (some t ∷ q) is e =
      inr (begin t (tasks q) (ap tasks is) (active-lt e) (ground arith))

  turn-Simulated : (k : Worker) → get_elem? s.workers i ≡ some k → Simulated n s (after_turn i k s)
  unfolding turn fetched_in
  turn-Simulated ready e = fetch-Simulated s.pool.queue refl e
  turn-Simulated finishing e = inr (
      end (omega (arith, active_pos e)) (
        ap (λ (l : List Task). record (view s) { begun = l; active = s.pool.active_tasks - 1 })
          (append-nil s.fetched)))
  turn-Simulated asleep e = inl (ap unseen (append-nil s.fetched))
  turn-Simulated (running none) e = inl (ap unseen (append-nil s.fetched))
  turn-Simulated (running (some t)) e = inl (ap unseen (append-nil s.fetched))
  turn-Simulated (calling t) e = inl (ap unseen (append-nil s.fetched))
  turn-Simulated exited e = inl (ap unseen (append-nil s.fetched))

Step-Simulated :
    {n : ℕ} {s t : System} → Step s t → IsSound n s.pool s.workers s.late → Simulated n s t
Step-Simulated {n} {s} (acts i k e h is) v =
    subst (Simulated n s) (sym is) (turn-Simulated s v i k e)
Step-Simulated {n} {s} (finishes i l e sig is) v =
    subst (Simulated n s) (sym is) (turn-Simulated s v i finishing e)
Step-Simulated {n} {s} (stirs i e is) v = subst (Simulated n s) (sym is) (inl refl)
Step-Simulated {n} {s} (adds x m l h sig is) v =
    subst (Simulated n s)
      (sym (
        is
        ∙ ap
            (λ (p : Pool). record s {
              pool = p;
              workers = l;
              added = s.added ++ x ∷ [];
              late = if s.pool.stop then suc s.late else s.late;
            })
            (enqueue-queue x m s.pool h)))
      (inr (
        submit x
          (ap (λ (q : List Task). record (view s) { pending = q }) (tasks-append s.pool.queue x))))
Step-Simulated {n} {s} (arrives is) v = subst (Simulated n s) (sym is) (inl refl)
Step-Simulated {n} {s} (waits i k e is) v = subst (Simulated n s) (sym is) (inl refl)
Step-Simulated {n} {s} (rouses i e is) v = subst (Simulated n s) (sym is) (inl refl)
Step-Simulated {n} {s} (stops h is) v = subst (Simulated n s) (sym is) (inr (close h refl))

seen : {n : ℕ} (s t : System) → Served n (view s) → Simulated n s t → Served n (view t)
seen {n} s t before (inl same) = subst (Served n) (sym same) before
seen s t before (inr serve) = after before serve

-- The pool refines the service: whatever state its workers, callers and users bring about in any
-- order of steps, a queue that is served in order, by at most as many at a time as there are
-- workers, can come to the same state.
pub Reach-Served : {n : ℕ} {s : System} → Reach n s → Served n (view s)
unfolding tasks
Reach-Served start = opening
Reach-Served (later {s} {t} r st) = seen s t (Reach-Served r) (Step-Simulated st (Reach-IsSound r))
