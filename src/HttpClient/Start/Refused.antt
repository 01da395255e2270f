-- ===== src/HttpClient/Start/Refused.antt =====
-- What is left behind where memory or a slot is refused.
use maestro_core.Base.{
  ℕ, ◌+◌, Bool, false, not, ◌&&◌, Option, none, some, ◌∷◌, ◌≡◌, refl, arith, Bytes, if◌then◌else◌,
  Bool-cases, inl, inr,
}
use maestro_core.ErrorCode.{ErrorCode, success, err_no_memory, err_busy}
use maestro_core.HttpClient.Start.{Initiated, initiate, with_slot, blocking_work}
use maestro_core.HttpClient.Work.{owned, Blocking, finished, destroyed}
use maestro_core.HttpClient.{HttpClient, World, connecting}
use maestro_core.HttpParser.{HttpMethod}
use maestro_core.Memory.{Mem, granted, attempt}
use maestro_core.Scheduler.{Scheduler, create_task, destroy_task}
use maestro_core.Scheduler.Slots.{destroy_task-create_task, CreateResult, create_task_sound}

-- On success the client is ready with three blocks; on an error the table of tasks is as before
-- and `leak` blocks are lost.
abbrev pub StartResult : ErrorCode → HttpClient → Scheduler → Mem → ℕ → Initiated → Type 0
StartResult success c tasks m leak out =
    (out.client.state ≡ connecting) × (out.mem.live ≡ m.live + 3)
StartResult err_no_memory c tasks m leak out = (out.tasks ≡ tasks) × (out.mem.live ≡ m.live + leak)
StartResult err_busy c tasks m leak out = (out.tasks ≡ tasks) × (out.mem.live ≡ m.live + leak)
StartResult _ c tasks m leak out = ⊥

with_slot_sound :
    (r : Option ℕ × Scheduler) (c : HttpClient) (url : Bytes) (on : Bool) (now : ℕ)
    (tasks : Scheduler) (m0 m : Mem)
    → (r.0 ≡ none → r.1 ≡ tasks)
    → ((i : ℕ) → r.0 ≡ some i → destroy_task i r.1 ≡ tasks)
    → m.live ≡ m0.live + 2
    → let out = with_slot r c url on now tasks m in StartResult out.code c tasks m0 0 out
unfolding with_slot
with_slot_sound (none, tasks') c url on now tasks m0 m full undone live = (full refl, omega arith)
with_slot_sound (some i, tasks') c url on now tasks m0 m full undone live =
    elim (Bool-cases (granted m)) [ inl g ↦ ground arith | inr g ↦ ground (arith, undone i refl) ]

full_same :
    (a b : Option ℕ) (l : Scheduler) (r : Option ℕ × Scheduler)
    → CreateResult a b l r
    → r.0 ≡ none
    → r.1 ≡ l
full_same a b l (none, l') (busy, same) e = same
full_same a b l (some i, l') c e = cc e

-- `http_client_initiate` ends with success, ERR_NO_MEMORY or ERR_BUSY. On an error the scheduler
-- has the tasks that it had, and no block is left behind but for one case: where the request is
-- allocated and the response is refused, the block of the request is lost.
pub initiate_sound :
    (self work : ℕ) (c : HttpClient) (url : Bytes) (method : HttpMethod) (on : Bool) (now : ℕ)
    (tasks : Scheduler) (m : Mem)
    → let out = initiate self work c url method on now tasks m in
      StartResult out.code c tasks m (if granted m && not (granted (attempt m)) then 1 else 0) out
unfolding initiate
initiate_sound self work c url method on now tasks m =
    let r = create_task (some self) (some work) tasks in
    let full =
      full_same (some self) (some work) tasks r (create_task_sound (some self) (some work) tasks) in
    let undone = destroy_task-create_task (some self) (some work) tasks in
    elim (Bool-cases (granted m)) [
      | inr g ↦ ground arith
      | inl g ↦ elim (Bool-cases (granted (attempt m))) [
        | inr g' ↦ ground arith
        | inl g' ↦ ground (
          arith,
          with_slot_sound r c url on now tasks m (attempt (attempt m)) full undone (ground arith),
        )
      ]
    ]

abbrev pub RefusedResult : Option (Option Bytes) → ℕ → Blocking → Type 0
RefusedResult out live (finished err_no_memory out' m) = (out' ≡ out) × (m.live ≡ live)
RefusedResult out live _ = ⊥

-- The five requests of a blocking call with a body: the client, its URL, the request, the
-- response and the copy of the body.
abbrev pub all_granted : Mem → Bool
all_granted m =
    let m1 = attempt m in
    let m2 = attempt m1 in
    let m3 = attempt m2 in
    granted m && granted m1 && granted m2 && granted m3 && granted (attempt m3)

-- A blocking call for which memory is refused before its loop begins ends with ERR_NO_MEMORY,
-- leaves the caller's result alone and keeps no block.
pub blocking_work_refused :
    (fuel start : ℕ) (w : ℕ → World) (url : Bytes) (method : HttpMethod) (b : ℕ) (s : Bytes)
    (out : Option (Option Bytes)) (timeout_ms : ℕ) (m : Mem)
    → all_granted m ≡ false
    → RefusedResult out m.live (blocking_work fuel w start url method (b ∷ s) out timeout_ms m)
unfolding blocking_work destroyed owned
blocking_work_refused fuel start w url method b s out timeout_ms m h = ground arith
