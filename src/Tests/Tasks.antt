-- ===== src/Tests/Tasks.antt =====
-- The theorems on the scheduler and on the start of a client at concrete inputs.
use maestro_core.Base.{
  ℕ, suc, ◌+◌, true, none, some, Option, [], ◌∷◌, ◌≡◌, refl, arith, codes, if◌then◌else◌, leb,
}
use maestro_core.HttpClient.Start.{initiate, blocking_work}
use maestro_core.HttpClient.Start.Refused.{
  StartResult, initiate_sound, RefusedResult, blocking_work_refused,
}
use maestro_core.HttpClient.Work.BodyParts.{body_in_parts}
use maestro_core.HttpClient.Work.{work_rounds}
use maestro_core.HttpClient.{HttpClient, reading_body, returning, World}
use maestro_core.HttpParser.{http_get, http_post}
use maestro_core.Memory.{Mem}
use maestro_core.Scheduler.{
  SchedulerTask, empty, Scheduler, create_task, destroy_task, get_task_count, work, is_free,
}
use maestro_core.Scheduler.Pass.{logged, LeavesRest, work-calls_of}
use maestro_core.Scheduler.Slots.{
  CreateResult, create_task_sound, destroy_task-create_task, get_task_count-create_task,
}
use maestro_core.StringUtils.{contents}
use maestro_core.Tests.Data.{heap, heap-Plentiful, client, world}

abbrev busy : SchedulerTask
busy = record { context = some 7; callback = some 70 }

abbrev table : Scheduler
table = busy ∷ empty ∷ busy ∷ empty ∷ []

create_task_sound_run : CreateResult (some 9) (some 90) table (create_task (some 9) (some 90) table)
create_task_sound_run = create_task_sound (some 9) (some 90) table

second : (create_task (some 9) (some 90) table).0 ≡ some 1
unfolding create_task is_free
second = refl

destroy_task-create_task_run : destroy_task 1 (create_task (some 9) (some 90) table).1 ≡ table
destroy_task-create_task_run = destroy_task-create_task (some 9) (some 90) table 1 second

get_task_count-create_task_run :
    get_task_count (create_task (some 9) (some 90) table).1 ≡ suc (get_task_count table)
get_task_count-create_task_run = get_task_count-create_task (some 9) 90 table 1 second

-- A callback that counts and leaves the table alone
abbrev counts : ℕ → Option ℕ → ℕ → Scheduler → ℕ × Scheduler
counts f context s l = (s + 1, l)

counts-LeavesRest : LeavesRest counts
counts-LeavesRest i f context s l e = refl

work-calls_of_example : (work (logged counts) ([], 0) table).0.0 ≡ (70, some 7) ∷ (70, some 7) ∷ []
work-calls_of_example = work-calls_of counts 0 table counts-LeavesRest (omega arith)

-- Every request but the second is granted.
abbrev second_refused : Mem
second_refused = record { grants = λ n. leb n 0; asked = 0; live = 0 }

initiate_sound_example :
    let out =
      initiate 1 2 client (codes "http://maestro.se/") http_get true 0 table second_refused in
    StartResult out.code client table second_refused 1 out
initiate_sound_example =
    initiate_sound 1 2 client (codes "http://maestro.se/") http_get true 0 table second_refused

blocking_work_refused_run : RefusedResult (some none) 0 (
    blocking_work 100
      (λ _. world 0 [])
      0
      (codes "http://maestro.se/")
      http_post
      (codes "a=1")
      (some none)
      0
      second_refused)
blocking_work_refused_run =
    blocking_work_refused 100 0 (λ _. world 0 []) (codes "http://maestro.se/") http_post 97
      (codes "=1") (some none) 0 second_refused refl

abbrev reading : HttpClient
reading = record client { state = reading_body; content_length = 5; recv = some (codes "h") }

abbrev reads : ℕ → World
reads n = world 0 (if leb n 0 then codes "el" else codes "lo")

body_in_parts_example :
    (out : HttpClient × Mem) × (work_rounds 2 0 reads reading heap ≡ some out)
    × (out.0.state ≡ returning)
    × (contents out.0.recv ≡ codes "hello")
unfolding contents
body_in_parts_example =
    body_in_parts (codes "el" ∷ codes "lo" ∷ []) 0 reads reading heap
      (refl, ground arith, (refl, ground arith, tt)) (omega arith, omega arith) (λ k. omega arith)
      refl heap-Plentiful
