-- ===== src/Scheduler.antt =====
-- modules/src/scheduler.c and modules/include/maestromodules/scheduler.h: the table of tasks. A
-- task is named by the index of its slot, which the C code names by its address.
pub mod Slots
pub mod Pass
use maestro_core.Base.{
  ℕ, zero, suc, ◌+◌, Bool, true, false, ◌&&◌, Option, none, some, List, [], ◌∷◌, drop,
  if◌then◌else◌,
}

-- Contexts and callbacks are addresses.
pub record SchedulerTask : Type 0 where
  pub context : Option ℕ
  pub callback : Option ℕ

abbrev pub empty : SchedulerTask
empty = record { context = none; callback = none }

-- `tasks`; the C code has SCHEDULER_MAX_TASKS of them.
abbrev pub Scheduler : Type 0
Scheduler = List SchedulerTask

abbrev pub max_tasks : ℕ
max_tasks = 10000

abbrev is_none {ℓ} : {A : Type ℓ} → Option A → Bool
is_none none = true
is_none (some _) = false

unfoldable pub is_free : SchedulerTask → Bool
is_free t = is_none t.context && is_none t.callback

-- `scheduler_init` and `scheduler_dispose`.
unfoldable pub dispose : Scheduler → Scheduler
dispose [] = []
dispose (t ∷ l) = empty ∷ dispose l

-- The index of the new task, if there is room, and the table.
unfoldable pub create_task : Option ℕ → Option ℕ → Scheduler → Option ℕ × Scheduler
create_task context callback [] = (none, [])
create_task context callback (t ∷ l) =
    let rest = create_task context callback l in
    if is_free t
    then (some 0, record { context = context; callback = callback } ∷ l)
    else (elim rest.0 [ none ↦ none | some i ↦ some (suc i) ], t ∷ rest.1)

unfoldable pub destroy_task : ℕ → Scheduler → Scheduler
destroy_task i [] = []
destroy_task zero (t ∷ l) = empty ∷ l
destroy_task (suc i) (t ∷ l) = t ∷ destroy_task i l

unfoldable pub get_task_count : Scheduler → ℕ
get_task_count [] = 0
get_task_count (t ∷ l) = (if is_none t.callback then 0 else 1) + get_task_count l

-- The callback in slot `i` with its context.
unfoldable pub call_at : ℕ → Scheduler → Option (ℕ × Option ℕ)
call_at i l = elim (drop i l) [
  | [] ↦ none
  | t ∷ _ ↦ elim t.callback [ none ↦ none | some f ↦ some (f, t.context) ]
]

-- A pass over the slots: a callback, run on its context, may change the table and the rest `S`
-- of the program. The sleep behind each callback changes neither.
module _ {S : Type 0} (run : ℕ → Option ℕ → S → Scheduler → S × Scheduler) where
  unfoldable pub work_from : ℕ → ℕ → S → Scheduler → S × Scheduler
  work_from zero i s l = (s, l)
  work_from (suc k) i s l = elim (call_at i l) [
    | none ↦ work_from k (i + 1) s l
    | some (f, context) ↦ let r = run f context s l in work_from k (i + 1) r.0 r.1
  ]

  unfoldable pub work : S → Scheduler → S × Scheduler
  unfolding work_from
  work s l = work_from max_tasks 0 s l
