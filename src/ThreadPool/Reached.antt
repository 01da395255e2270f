-- ===== src/ThreadPool/Reached.antt =====
-- The invariant holds in every state that a pool can reach.
use maestro_core.Base.{
  ℕ, zero, suc, some, List, [], ◌∷◌, ◌++◌, ◌≡◌, refl, arith, length, inl, subst, sym, length-append,
  if◌then◌else◌, All-append,
}
use maestro_core.ThreadPool.{Task, Pool, Worker, ready, asleep, finishing, turn, wake_all, wake}
use maestro_core.ThreadPool.Counts.{total}
use maestro_core.ThreadPool.System.{
  System, is_asleep, WorkerSignal, one, nobody, Step, acts, finishes, stirs, adds, arrives, waits,
  rouses, stops, all_ready, Reach, start, later,
}
use maestro_core.ThreadPool.Invariant.{
  is_busy, is_exited, IsItem, IsSound, Moved, set-Moved, same-IsSound, turn-IsSound, enqueue-queue,
}

module _ {n : ℕ} {p : Pool} {l : List Worker} {late : ℕ} (v : IsSound n p l late) where
  abbrev joined : Task → Pool
  joined x = record p { queue = p.queue ++ some x ∷ [] }

  joined-IsSound :
      (x : Task) {l' : List Worker}
      → WorkerSignal l l'
      → IsSound n (joined x) l' (if p.stop then suc late else late)
  joined-IsSound x (nobody e is) = rw is (record {
    whole = All-append IsItem p.queue (some x ∷ []) v.whole (refl, tt);
    size = v.size;
    counted = v.counted;
    roused = inl e;
    stopped = v.stopped;
    leaving = λ h. ground (arith, v.leaving h, length-append p.queue (some x ∷ []));
  })
  joined-IsSound x {l'} (one i e is) =
      let moved : Moved l l' asleep ready = rw is (set-Moved l i ready e) in
      record {
        whole = All-append IsItem p.queue (some x ∷ []) v.whole (refl, tt);
        size = omega (arith, v.size, moved.0);
        counted = omega (arith, v.counted, moved.1);
        roused = ground (arith, moved, length-append p.queue (some x ∷ []), v.roused);
        stopped = λ h. omega (arith, moved.2, v.stopped h);
        leaving = λ h. ground (arith, moved, v.leaving, length-append p.queue (some x ∷ []));
      }

wake_weights :
    (w : Worker)
    → (is_asleep (wake w) ≡ 0) × (is_busy (wake w) ≡ is_busy w) × (is_exited (wake w) ≡ is_exited w)
unfolding wake
wake_weights ready = (refl, refl, refl)
wake_weights w = (refl, refl, refl)

total-wake_all :
    (l : List Worker)
    → (total is_asleep (wake_all l) ≡ 0)
      × (length (wake_all l) ≡ length l)
      × (total is_busy (wake_all l) ≡ total is_busy l)
      × (total is_exited (wake_all l) ≡ total is_exited l)
unfolding total wake_all
total-wake_all [] = (refl, refl, refl, refl)
total-wake_all (w ∷ l) = ground (arith, wake_weights w, total-wake_all l)

pub Step-IsSound :
    {n : ℕ} {s t : System}
    → Step s t
    → IsSound n s.pool s.workers s.late
    → IsSound n t.pool t.workers t.late
Step-IsSound {n} {s} {t} (acts i w e h is) v =
    subst (λ (u : System). IsSound n u.pool u.workers u.late) (sym is)
      (turn-IsSound v w (set-Moved s.workers i (turn w s.pool).0 e))
Step-IsSound {n} {s} {t} (finishes i l e sig is) v =
    subst (λ (u : System). IsSound n u.pool u.workers u.late) (sym is)
      (turn-IsSound v finishing (set-Moved s.workers i (turn finishing s.pool).0 e))
Step-IsSound {n} {s} {t} (stirs i e is) v =
    subst (λ (u : System). IsSound n u.pool u.workers u.late) (sym is)
      (same-IsSound v asleep ready (set-Moved s.workers i ready e) refl (omega arith) (omega arith)
        (omega arith))
Step-IsSound {n} {s} {t} (adds x m l h sig is) v =
    subst (λ (u : System). IsSound n u.pool u.workers u.late) (sym is)
      (subst (λ (q : Pool). IsSound n q l (if s.pool.stop then suc s.late else s.late))
        (sym (enqueue-queue x m s.pool h)) (joined-IsSound v x sig))
Step-IsSound {n} {s} {t} (arrives is) v =
    subst (λ (u : System). IsSound n u.pool u.workers u.late) (sym is) v
Step-IsSound {n} {s} {t} (waits i w e is) v =
    subst (λ (u : System). IsSound n u.pool u.workers u.late) (sym is) v
Step-IsSound {n} {s} {t} (rouses i e is) v =
    subst (λ (u : System). IsSound n u.pool u.workers u.late) (sym is) v
Step-IsSound {n} {s} {t} (stops h is) v =
    subst (λ (u : System). IsSound n u.pool u.workers u.late) (sym is)
      (record {
        whole = v.whole;
        size = omega (arith, v.size, total-wake_all s.workers);
        counted = omega (arith, v.counted, total-wake_all s.workers);
        roused = inl (total-wake_all s.workers).0;
        stopped = λ _. (total-wake_all s.workers).0;
        leaving = λ h. (refl, (v.leaving (omega (arith, total-wake_all s.workers))).1);
      })

total-all_ready :
    (n : ℕ)
    → (length (all_ready n) ≡ n)
      × (total is_busy (all_ready n) ≡ 0)
      × (total is_asleep (all_ready n) ≡ 0)
      × (total is_exited (all_ready n) ≡ 0)
unfolding total all_ready
total-all_ready zero = (refl, refl, refl, refl)
total-all_ready (suc n) = omega (arith, total-all_ready n)

pub Reach-IsSound : {n : ℕ} {s : System} → Reach n s → IsSound n s.pool s.workers s.late
Reach-IsSound {n} start = record {
  whole = tt;
  size = (total-all_ready n).0;
  counted = sym (total-all_ready n).1;
  roused = inl (total-all_ready n).2;
  stopped = λ h. cc h;
  leaving = λ h. absurd (omega (arith, total-all_ready n));
}
Reach-IsSound (later r st) = Step-IsSound st (Reach-IsSound r)
