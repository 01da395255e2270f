-- ===== src/Scheduler/Slots.antt =====
-- What `scheduler_create_task` and `scheduler_destroy_task` do to the table.
use maestro_core.Base.{
  ℕ, suc, true, false, Option, none, some, [], ◌∷◌, ◌++◌, ◌≡◌, refl, arith, length, All, Bool-cases,
  inl, inr, ap, Option-cases,
}
use maestro_core.Scheduler.{
  SchedulerTask, empty, Scheduler, is_free, create_task, destroy_task, get_task_count,
}

abbrev IsBusy : SchedulerTask → Type 0
IsBusy t = is_free t ≡ false

-- The first free slot `i` has been taken, all else is as before.
pub record Created (context callback : Option ℕ) (l : Scheduler) (i : ℕ) (l' : Scheduler)
    : Type 0 where
  pub before : Scheduler
  pub after : Scheduler
  pub was : l ≡ before ++ empty ∷ after
  pub busy : All IsBusy before
  pub index : i ≡ length before
  pub becomes : l' ≡ before ++ record { context = context; callback = callback } ∷ after

abbrev pub CreateResult : Option ℕ → Option ℕ → Scheduler → Option ℕ × Scheduler → Type 0
CreateResult context callback l (none, l') = All IsBusy l × (l' ≡ l)
CreateResult context callback l (some i, l') = Created context callback l i l'

is_free-empty : (t : SchedulerTask) → is_free t ≡ true → t ≡ empty
unfolding is_free
is_free-empty t h = ground arith

-- The result for the slots behind a busy one.
behind_busy :
    (context callback : Option ℕ) (t : SchedulerTask) (l : Scheduler) (r : Option ℕ × Scheduler)
    → IsBusy t
    → CreateResult context callback l r
    → CreateResult context callback
        (t ∷ l)
        (elim r.0 [ none ↦ none | some i ↦ some (suc i) ], t ∷ r.1)
behind_busy context callback t l (none, l') busy (all, same) = ((busy, all), ap (λ x. t ∷ x) same)
behind_busy context callback t l (some i, l') busy c = record {
  before = t ∷ c.before;
  after = c.after;
  was = ap (λ x. t ∷ x) c.was;
  busy = (busy, c.busy);
  index = ap suc c.index;
  becomes = ap (λ x. t ∷ x) c.becomes;
}

-- `scheduler_create_task` takes the first free slot and changes no other; it fails only when no
-- slot is free, and then changes nothing.
pub create_task_sound :
    (context callback : Option ℕ) (l : Scheduler)
    → CreateResult context callback l (create_task context callback l)
unfolding create_task
create_task_sound context callback [] = (tt, refl)
create_task_sound context callback (t ∷ l) = elim (Bool-cases (is_free t)) [
  | inl free ↦ rw free (record {
    before = [];
    after = l;
    was = ap (λ x. x ∷ l) (is_free-empty t free);
    busy = tt;
    index = refl;
    becomes = refl;
  })
  | inr busy ↦ rw busy (
      behind_busy context callback t l (create_task context callback l) busy
        (create_task_sound context callback l))
]

-- A task that is created and destroyed leaves the table as it was.
pub destroy_task-create_task :
    (context callback : Option ℕ) (l : Scheduler) (i : ℕ)
    → (create_task context callback l).0 ≡ some i
    → destroy_task i (create_task context callback l).1 ≡ l
unfolding create_task destroy_task
destroy_task-create_task context callback [] i e = refl
destroy_task-create_task context callback (t ∷ l) i e = elim (Bool-cases (is_free t)) [
  | inl free ↦ ground (arith, is_free-empty t free)
  | inr busy ↦ elim (Option-cases (create_task context callback l).0) [
    | inl full ↦ ground arith
    | inr (j, found) ↦ ground (arith, destroy_task-create_task context callback l j found)
  ]
]

-- A new task with a callback raises `scheduler_get_task_count` by one.
pub get_task_count-create_task :
    (context : Option ℕ) (f : ℕ) (l : Scheduler) (i : ℕ)
    → (create_task context (some f) l).0 ≡ some i
    → get_task_count (create_task context (some f) l).1 ≡ suc (get_task_count l)
unfolding create_task get_task_count
get_task_count-create_task context f [] i e = cc e
get_task_count-create_task context f (t ∷ l) i e = elim (Bool-cases (is_free t)) [
  | inl free ↦ ground (arith, is_free-empty t free)
  | inr busy ↦ elim (Option-cases (create_task context (some f) l).0) [
    | inl full ↦ ground arith
    | inr (j, found) ↦ ground (arith, get_task_count-create_task context f l j found)
  ]
]
