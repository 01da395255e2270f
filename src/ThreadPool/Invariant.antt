-- ===== src/ThreadPool/Invariant.antt =====
-- An invariant of the pool, and the steps of a worker keep it.
use maestro_core.Base.{
  ℕ, ◌+◌, ◌≤◌, ◌<◌, Bool, true, false, Option, none, some, List, [], ◌∷◌, ◌++◌, ◌≡◌, refl, arith,
  length, inl, inr, pos, ◌⊎◌, ap, subst, Bool-cases, All,
}
use maestro_core.Memory.{Mem, granted, attempt}
use maestro_core.ThreadPool.{
  Task, Pool, Worker, ready, asleep, running, calling, finishing, exited, turn, fetch, enqueue,
}
use maestro_core.ThreadPool.Counts.{total, get_elem?, set, total-set, length-set}
use maestro_core.ThreadPool.System.{is_asleep}

abbrev pub is_busy : Worker → ℕ
is_busy (running _) = 1
is_busy (calling _) = 1
is_busy finishing = 1
is_busy _ = 0

abbrev pub is_ready : Worker → ℕ
is_ready ready = 1
is_ready _ = 0

abbrev pub is_exited : Worker → ℕ
is_exited exited = 1
is_exited _ = 0

abbrev is_item : Option Task → Bool
is_item none = false
is_item (some _) = true

abbrev pub IsItem : Option Task → Type 0
IsItem i = is_item i ≡ true

pub record IsSound (n : ℕ) (p : Pool) (l : List Worker) (late : ℕ) : Type 0 where
  -- no item of the queue is NULL
  pub whole : All IsItem p.queue
  -- no worker is lost, and `active_tasks` counts those with a task
  pub size : length l ≡ n
  pub counted : p.active_tasks ≡ total is_busy l
  -- while some worker sleeps, as many are on their way as there are tasks
  pub roused : (total is_asleep l ≡ 0) ⊎ (length p.queue ≤ total is_ready l)
  -- after `stop` nobody sleeps, and a worker has left only then
  pub stopped : p.stop ≡ true → total is_asleep l ≡ 0
  pub leaving : 0 < total is_exited l → (p.stop ≡ true) × (length p.queue ≤ late)

-- The sums when worker `i` goes on from `x` to `y`.
abbrev pub Moved : List Worker → List Worker → Worker → Worker → Type 0
Moved l l' x y =
    (length l' ≡ length l)
    × (total is_busy l' + is_busy x ≡ total is_busy l + is_busy y)
    × (total is_asleep l' + is_asleep x ≡ total is_asleep l + is_asleep y)
    × (total is_ready l' + is_ready x ≡ total is_ready l + is_ready y)
    × (total is_exited l' + is_exited x ≡ total is_exited l + is_exited y)

pub set-Moved :
    (l : List Worker) (i : ℕ) {x : Worker} (y : Worker)
    → get_elem? l i ≡ some x
    → Moved l (set l i y) x y
set-Moved l i y e = (
  length-set l i y,
  total-set is_busy l i y e,
  total-set is_asleep l i y e,
  total-set is_ready l i y e,
  total-set is_exited l i y e,
)

module _ {n : ℕ} {p : Pool} {l l' : List Worker} {late : ℕ} (v : IsSound n p l late) where
  fetch-IsSound :
      (q : List (Option Task))
      → p.queue ≡ q
      → Moved l l' ready (fetch q p).0
      → IsSound n (fetch q p).1 l' late
  unfolding fetch
  fetch-IsSound [] is e = elim (Bool-cases p.stop) [
    | inl stop ↦ record {
      whole = v.whole;
      size = ground (arith, e);
      counted = ground (arith, e);
      roused = inl (ground (arith, e, v.stopped stop));
      stopped = λ h. ground (arith, e, v.stopped stop);
      leaving = λ h. (stop, ground (arith, ap length is));
    }
    | inr go ↦ record {
      whole = v.whole;
      size = ground (arith, e);
      counted = ground (arith, e);
      roused = inr (ground (arith, ap length is));
      stopped = λ h. ground (arith, e);
      leaving = λ h. ground (arith, e, v.leaving);
    }
  ]
  fetch-IsSound (none ∷ q) is e = cc (subst (All IsItem) is v.whole).0
  fetch-IsSound (some t ∷ q) is e = record {
    whole = (subst (All IsItem) is v.whole).1;
    size = ground (arith, e);
    counted = ground (arith, e);
    roused = ground (arith, e, ap length is);
    stopped = λ h. ground (arith, e, v.stopped h);
    leaving = λ h. ground (arith, e, v.leaving, ap length is);
  }

  -- A worker goes on and leaves the pool as it is.
  pub same-IsSound :
      (x y : Worker)
      → Moved l l' x y
      → is_busy x ≡ is_busy y
      → is_asleep y ≤ is_asleep x
      → is_ready x ≤ is_ready y
      → is_exited y ≤ is_exited x
      → IsSound n p l' late
  same-IsSound x y e busy sleepier readier gone = record {
    whole = v.whole;
    size = omega (arith, v.size, e.0);
    counted = omega (arith, v.counted, e.1, busy);
    roused = ground (arith, e);
    stopped = λ h. omega (arith, e.2, v.stopped h);
    leaving = λ h. v.leaving (omega (arith, e.4));
  }

  pub turn-IsSound : (w : Worker) → Moved l l' w (turn w p).0 → IsSound n (turn w p).1 l' late
  unfolding turn
  turn-IsSound ready e = fetch-IsSound p.queue refl e
  turn-IsSound finishing e = record {
    whole = v.whole;
    size = ground (arith, e);
    counted = ground (arith, e);
    roused = ground (arith, e);
    stopped = λ h. ground (arith, e, v.stopped h);
    leaving = λ h. ground (arith, e, v.leaving);
  }
  turn-IsSound asleep e =
      same-IsSound asleep asleep e refl (omega arith) (omega arith) (omega arith)
  turn-IsSound (running none) e =
      same-IsSound (running none) finishing e refl (omega arith) (omega arith) (omega arith)
  turn-IsSound (running (some t)) e =
      same-IsSound (running (some t)) (calling t) e refl (omega arith) (omega arith) (omega arith)
  turn-IsSound (calling t) e =
      same-IsSound (calling t) finishing e refl (omega arith) (omega arith) (omega arith)
  turn-IsSound exited e =
      same-IsSound exited exited e refl (omega arith) (omega arith) (omega arith)

-- What a call of `tp_task_add` that succeeds has done.
pub enqueue-queue :
    (x : Task) (m : Mem) (p : Pool)
    → (enqueue x m p).0 ≡ pos 0
    → (enqueue x m p).2 ≡ record p { queue = p.queue ++ some x ∷ [] }
unfolding enqueue
enqueue-queue x m p h = elim (Bool-cases (granted m)) [
  | inr no_copy ↦ ground (arith, no_copy)
  | inl copy ↦ elim (Bool-cases (granted (attempt m))) [
    | inr no_item ↦ ground (arith, copy, no_item)
    | inl item ↦ rw (copy, item)
  ]
]
