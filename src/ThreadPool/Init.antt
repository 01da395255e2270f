-- ===== src/ThreadPool/Init.antt =====
-- `tp_init`, and what becomes of it where a thread cannot be created.
use maestro_core.Base.{
  ℕ, zero, suc, ◌+◌, ◌≤◌, ◌<◌, true, Bool, false, List, [], ◌∷◌, ◌≡◌, refl, arith, ℤ, pos, negsuc,
  Option, ap, subst, sym, ◌∙◌, if◌then◌else◌, ◌==◌, some,
}
use maestro_core.Memory.{Mem, granted, attempt, release, Plentiful}
use maestro_core.ThreadPool.{
  Task, Worker, ready, asleep, running, calling, finishing, exited, turn, fetch, Pool,
}
use maestro_core.ThreadPool.Counts.{total, get_elem?, set, total-set}
use maestro_core.ThreadPool.System.{System, all_ready, fresh, after_turn}
use maestro_core.ThreadPool.Invariant.{is_exited}

-- The result: a pool with its workers, NULL, or a call of `pthread_join` on the workers that were
-- created before `pthread_create` failed, while the queue and the pool are as `calloc` left them.
pub data Started : Type 0 where
  pool : System → Started
  null : Started
  joining : ℕ → System → Started

abbrev pub max_threads : ℤ → ℕ
max_threads (pos zero) = 2
max_threads (pos (suc n)) = suc n
max_threads (negsuc n) = 2

-- The loop of `pthread_create`, `k` calls of which are left; `creates i` is the answer to call `i`.
unfoldable pub create_threads : (ℕ → Bool) → ℕ → ℕ → ℕ → Mem → Started × Mem
create_threads creates n zero i m = (pool (fresh n), m)
create_threads creates n (suc k) i m =
    let rest = create_threads creates n k (i + 1) m in
    if creates i then rest else if i == 0 then (null, release 2 m) else (joining i (fresh i), m)

-- `calloc` of the pool and of the threads, `linked_list_create`, the threads.
unfoldable pub init : (ℕ → Bool) → ℤ → Mem → Started × Mem
unfolding create_threads
init creates n m =
    if granted m
    then if granted (attempt m)
      then if granted (attempt (attempt m))
        then create_threads creates (max_threads n) (max_threads n) 0
            (attempt (attempt (attempt m)))
        else (null, release 2 (attempt (attempt (attempt m))))
      else (null, release 1 (attempt (attempt m)))
    else (null, attempt m)

-- The states that the workers reach by themselves: nobody else has the pool's address.
pub data Alone (s : System) : System → Type 0 where
  here : Alone s s
  turns :
      {t : System} (i : ℕ) (k : Worker)
      → Alone s t
      → get_elem? t.workers i ≡ some k
      → Alone s (after_turn i k t)
  wakes :
      {t : System} (i : ℕ)
      → Alone s t
      → get_elem? t.workers i ≡ some asleep
      → Alone s (record t { workers = set t.workers i ready })

not_idle : Worker → ℕ
not_idle ready = 0
not_idle asleep = 0
not_idle _ = 1

-- No worker has a task or has left, and none can.
record IsIdle (s : System) : Type 0 where
  none_queued : s.pool.queue ≡ []
  open_still : s.pool.stop ≡ false
  idle : total not_idle s.workers ≡ 0

not_idle-le :
    (l : List Worker) (i : ℕ) {k : Worker} → get_elem? l i ≡ some k → not_idle k ≤ total not_idle l
unfolding total
not_idle-le [] i e = cc e
not_idle-le (x ∷ l) zero e = ground arith
not_idle-le (x ∷ l) (suc i) e = omega (arith, not_idle-le l i e)

fetch-asleep :
    (p : Pool) (q : List (Option Task)) → q ≡ [] → p.stop ≡ false → fetch q p ≡ (asleep, p)
unfolding fetch
fetch-asleep p [] e h = ground arith
fetch-asleep p (x ∷ q) e h = cc e

module _ (s : System) (v : IsIdle s) (i : ℕ) where
  turn-IsIdle :
      (k : Worker) → get_elem? s.workers i ≡ some k → not_idle k ≡ 0 → IsIdle (after_turn i k s)
  unfolding turn not_idle
  turn-IsIdle ready e h =
      let still = fetch-asleep s.pool s.pool.queue v.none_queued v.open_still in
      record {
        none_queued = ap (λ (r : Worker × Pool). r.1.queue) still ∙ v.none_queued;
        open_still = ap (λ (r : Worker × Pool). r.1.stop) still ∙ v.open_still;
        idle =
            ap (λ (r : Worker × Pool). total not_idle (set s.workers i r.0)) still
            ∙ omega (arith, v.idle, total-set not_idle s.workers i asleep e);
      }
  turn-IsIdle asleep e h = record {
    none_queued = v.none_queued;
    open_still = v.open_still;
    idle = omega (arith, v.idle, total-set not_idle s.workers i asleep e);
  }
  turn-IsIdle (running t) e h = absurd (omega arith)
  turn-IsIdle (calling t) e h = absurd (omega arith)
  turn-IsIdle finishing e h = absurd (omega arith)
  turn-IsIdle exited e h = absurd (omega arith)

Alone-IsIdle : {s t : System} → Alone s t → IsIdle s → IsIdle t
unfolding not_idle
Alone-IsIdle here v = v
Alone-IsIdle (turns {t} i k a e) v =
    let u = Alone-IsIdle a v in
    turn-IsIdle t u i k e (omega (arith, not_idle-le t.workers i e, u.idle))
Alone-IsIdle (wakes {t} i a e) v =
    let u = Alone-IsIdle a v in
    record {
      none_queued = u.none_queued;
      open_still = u.open_still;
      idle = omega (arith, u.idle, total-set not_idle t.workers i ready e);
    }

fresh-IsIdle : (n : ℕ) → IsIdle (fresh n)
unfolding total all_ready not_idle
fresh-IsIdle zero = record { none_queued = refl; open_still = refl; idle = refl }
fresh-IsIdle (suc n) = record {
  none_queued = refl;
  open_still = refl;
  idle = omega (arith, (fresh-IsIdle n).idle);
}

exited-le : (l : List Worker) → total is_exited l ≤ total not_idle l
unfolding total not_idle
exited-le [] = omega arith
exited-le (ready ∷ l) = omega (arith, exited-le l)
exited-le (asleep ∷ l) = omega (arith, exited-le l)
exited-le (running i ∷ l) = omega (arith, exited-le l)
exited-le (calling t ∷ l) = omega (arith, exited-le l)
exited-le (finishing ∷ l) = omega (arith, exited-le l)
exited-le (exited ∷ l) = omega (arith, exited-le l)

module _ (creates : ℕ → Bool) (n : ℕ) (m : Mem) where
  create_threads-fails :
      (k i j : ℕ)
      → ((a : ℕ) → a < i + j → creates a ≡ true)
      → creates (i + j) ≡ false
      → 0 < i + j
      → j < k
      → create_threads creates n k i m ≡ (joining (i + j) (fresh (i + j)), m)
  unfolding create_threads
  create_threads-fails zero i j ok bad later few = absurd (omega arith)
  create_threads-fails (suc k) i zero ok bad later few = ground arith
  create_threads-fails (suc k) i (suc j) ok bad later few =
      let later_on : i + suc j ≡ i + 1 + j = omega arith in
      rw (ok i (omega arith), later_on)
        (create_threads-fails k (i + 1) j (λ a h. ok a (omega arith))
          (subst (λ a. creates a ≡ false) later_on bad) (omega arith) (omega arith))

  create_threads-works :
      (k i : ℕ)
      → ((a : ℕ) → a < i + k → creates a ≡ true)
      → create_threads creates n k i m ≡ (pool (fresh n), m)
  unfolding create_threads
  create_threads-works zero i ok = refl
  create_threads-works (suc k) i ok =
      rw (ok i (omega arith)) (create_threads-works k (i + 1) (λ a h. ok a (omega arith)))

zero_add : (j : ℕ) → 0 + j ≡ j
zero_add j = omega arith

after_requests : Mem → Mem
after_requests m = attempt (attempt (attempt m))

init-create_threads :
    (creates : ℕ → Bool) (n : ℤ) (m : Mem)
    → Plentiful m
    → init creates n m ≡ create_threads creates (max_threads n) (max_threads n) 0 (after_requests m)
unfolding init after_requests
init-create_threads creates n m p = rw (p m.asked, p (m.asked + 1), p (m.asked + 1 + 1)) refl

-- With memory granted and every thread created, `tp_init` returns an empty pool with as many
-- workers as it was asked for, or two where that is no positive number.
pub init_works :
    (creates : ℕ → Bool) (n : ℤ) (m : Mem)
    → Plentiful m
    → ((i : ℕ) → i < max_threads n → creates i ≡ true)
    → (init creates n m).0 ≡ pool (fresh (max_threads n))
init_works creates n m p ok =
    ap (λ (r : Started × Mem). r.0)
      (init-create_threads creates n m p
        ∙ create_threads-works creates (max_threads n) (after_requests m) (max_threads n) 0
            (λ a h. ok a (omega arith)))

-- With memory granted, and where the threads below `j` are created and thread `j` is not, for a
-- `j` above 0, `tp_init` joins the `j` workers; and whatever they do by themselves, none of them
-- ever leaves, so that `tp_init` never returns.
pub init_joins_forever :
    (creates : ℕ → Bool) (n : ℤ) (m : Mem) (j : ℕ)
    → Plentiful m
    → 0 < j
    → j < max_threads n
    → ((i : ℕ) → i < j → creates i ≡ true)
    → creates j ≡ false
    → ((init creates n m).0 ≡ joining j (fresh j))
      × ((s : System) → Alone (fresh j) s → total is_exited s.workers ≡ 0)
init_joins_forever creates n m j p pos_j few ok bad = (
  ap (λ (r : Started × Mem). r.0)
      (init-create_threads creates n m p
        ∙ subst
            (λ a.
              create_threads creates (max_threads n) (max_threads n) 0 (after_requests m)
              ≡ (joining a (fresh a), after_requests m))
            (zero_add j)
            (create_threads-fails creates (max_threads n) (after_requests m) (max_threads n) 0 j
              (λ a h. ok a (omega arith)) (subst (λ a. creates a ≡ false) (sym (zero_add j)) bad)
              (omega arith) few)),
  λ s a. omega (arith, exited-le s.workers, (Alone-IsIdle a (fresh-IsIdle j)).idle),
)
