-- ===== src/Scheduler/Pass.antt =====
-- The order in which `scheduler_work` calls the tasks.
use maestro_core.Base.{
  ℕ, zero, suc, ◌+◌, ◌≤◌, Option, none, some, List, [], ◌∷◌, ◌++◌, ◌≡◌, refl, arith, length, drop,
  ap, ◌∙◌, sym, append_assoc, append-nil, subst, Option-cases, inl, inr,
}
use maestro_core.Scheduler.{SchedulerTask, Scheduler, max_tasks, call_at, work_from, work}

abbrev pub Call : Type 0
Call = ℕ × Option ℕ

-- The calls for the tasks of a table, from its first slot to its last.
abbrev pub calls_of : Scheduler → List Call
calls_of [] = []
calls_of (t ∷ l) = elim t.callback [ none ↦ calls_of l | some f ↦ (f, t.context) ∷ calls_of l ]

suc_add : (i : ℕ) → suc (i + 1) ≡ suc i + 1
suc_add i = omega arith

suc_one : (i : ℕ) → suc (suc i) ≡ suc i + 1
suc_one i = omega arith

drop_next :
    (i : ℕ) (l : Scheduler) {t : SchedulerTask} {rest : Scheduler}
    → drop i l ≡ t ∷ rest
    → drop (i + 1) l ≡ rest
drop_next zero (t ∷ l) e = cc e
drop_next zero [] e = cc e
drop_next (suc i) [] e = cc e
drop_next (suc i) (t ∷ l) {rest} e =
    subst (λ n. drop n (t ∷ l) ≡ rest) (suc_add i) (drop_next i l e)

drop_end : (i : ℕ) (l : Scheduler) → drop i l ≡ [] → drop (i + 1) l ≡ []
drop_end zero [] e = refl
drop_end zero (t ∷ l) e = cc e
drop_end (suc i) [] e = subst (λ n. drop {A = SchedulerTask} n [] ≡ []) (suc_one i) refl
drop_end (suc i) (t ∷ l) e = subst (λ n. drop n (t ∷ l) ≡ []) (suc_add i) (drop_end i l e)

call_at-drop :
    (i : ℕ) (l : Scheduler) {t : SchedulerTask} {rest : Scheduler}
    → drop i l ≡ t ∷ rest
    → call_at i l ≡ (elim t.callback [ none ↦ none | some f ↦ some (f, t.context) ])
unfolding call_at
call_at-drop i l e = rw (e, call_at) refl

call_at-end : (i : ℕ) (l : Scheduler) → drop i l ≡ [] → call_at i l ≡ none
unfolding call_at
call_at-end i l e = rw (e, call_at) refl

module _ {S : Type 0} (run : ℕ → Option ℕ → S → Scheduler → S × Scheduler) where
  -- Every call is noted behind those before it.
  abbrev pub logged : ℕ → Option ℕ → List Call × S → Scheduler → (List Call × S) × Scheduler
  logged f context s l = let r = run f context s.1 l in ((s.0 ++ (f, context) ∷ [], r.0), r.1)

  -- A callback leaves the slots behind its own alone: it may destroy its own task.
  abbrev pub LeavesRest : Type 0
  LeavesRest =
      (i f : ℕ) (context : Option ℕ) (s : S) (l : Scheduler)
      → call_at i l ≡ some (f, context)
      → drop (i + 1) (run f context s l).1 ≡ drop (i + 1) l

  from-calls_of :
      (k i : ℕ) (rest : Scheduler) (log : List Call) (s : S) (l : Scheduler)
      → LeavesRest
      → drop i l ≡ rest
      → length rest ≤ k
      → (work_from logged k i (log, s) l).0.0 ≡ log ++ calls_of rest
  unfolding work_from
  from-calls_of zero i [] log s l leaves e h = sym (append-nil log)
  from-calls_of zero i (t ∷ rest) log s l leaves e h = absurd (omega arith)
  from-calls_of (suc k) i [] log s l leaves e h =
      rw (call_at-end i l e, work_from)
        (from-calls_of k (i + 1) [] log s l leaves (drop_end i l e) (omega arith))
  from-calls_of (suc k) i (t ∷ rest) log s l leaves e h = elim (Option-cases t.callback) [
    | inl idle ↦
        rw (call_at-drop i l e, idle, work_from)
          (from-calls_of k (i + 1) rest log s l leaves (drop_next i l e) (omega arith))
    | inr (f, is) ↦
        let found =
          call_at-drop i l e ∙ ap (λ c. elim c [ none ↦ none | some g ↦ some (g, t.context) ]) is in
        let r = run f t.context s l in
        rw (found, is, work_from)
          (from-calls_of k (i + 1) rest (log ++ (f, t.context) ∷ []) r.0 r.1 leaves
              (leaves i f t.context s l found ∙ drop_next i l e) (omega arith)
            ∙ append_assoc log ((f, t.context) ∷ []) (calls_of rest))
  ]

  -- `scheduler_work` calls every task of a table of at most SCHEDULER_MAX_TASKS slots that is
  -- there when it starts, once and in the order of the slots, on its own context, provided that
  -- no callback changes a slot behind its own.
  pub work-calls_of :
      (s : S) (l : Scheduler)
      → LeavesRest
      → length l ≤ max_tasks
      → (work logged ([], s) l).0.0 ≡ calls_of l
  unfolding work
  work-calls_of s l leaves h = from-calls_of max_tasks 0 l [] s l leaves refl h
