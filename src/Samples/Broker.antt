-- ===== src/Samples/Broker.antt =====
-- An engine over one memory broker, spinach/engine.py and spinach/brokers/memory.py, with a task of
-- which one job may run at a time.
use spinach.Prelude.{◌≤◌, pos, ◌≡◌, refl, [], ◌∷◌, ◌++◌, none, some, lookup, false, true, ◌/◌}
use spinach.Outcome.{IsOk}
use spinach.Time.{aware, utc}
use spinach.Job.{Job, binds, create}
use spinach.Task.{Task}
use spinach.Memory.Counts.{count}
use spinach.Memory.{enqueue_jobs}
use spinach.Memory.Fetch.{get_jobs_from_queue}
use spinach.Engine.System.{
  System, handed_out, enqueues, registers, fetches, start, Reach, here, next,
}
use spinach.Engine.Concurrency.{concurrency_limit, fetch_total}
use spinach.Engine.Future.{move_ready-Moved_due, wait-InTime}
use spinach.Engine.Arbiter.{dispatch, to_notifier}
use spinach.Engine.Arbiter.Unknown.{unknown_task_raises}
use spinach.Engine.{notify}
use spinach.Memory.Future.{move_ready, register_periodic_tasks}
use spinach.Memory.Due.{Moved}
use spinach.Memory.Waiting.{wait_for_event}
use spinach.Memory.Waiting.InTime.{InTime}
use spinach.Task.{Tasks}
use spinach.Prelude.{ℕ}
use spinach.Outcome.{raise, key_error, ok}

abbrev pub alone : Task
alone = record {
  func = record { bind = λ args kwargs. binds };
  name = "alone";
  queue = "main";
  max_retries = 1;
  periodicity = none;
  max_concurrency = some 1;
}

abbrev pub job : Job
job = create "id" "alone" "main" (aware 5 utc) 1 none none

abbrev enqueued : System
enqueued =
    let s = start "app" (alone ∷ []) in
    record s { broker = (enqueue_jobs 7 false (job ∷ job ∷ []) s.broker).1 }

abbrev fetched : System
fetched = record {
  broker = (get_jobs_from_queue "main" 2 enqueued.broker).1;
  running = handed_out (get_jobs_from_queue "main" 2 enqueued.broker).0 ++ enqueued.running;
}

fetched-Reach : Reach "app" (alone ∷ []) fetched
fetched-Reach = next (next here (enqueues _ 7 (job ∷ job ∷ []))) (fetches _ "main" 2)

one_fetched : count "alone" fetched.running ≡ 1
unfolding count start create enqueue_jobs get_jobs_from_queue
one_fetched = refl

concurrency_limit_example :
    (lookup "alone" fetched.broker.cur_concurrency_keys
      ≡ some (pos (count "alone" fetched.running)))
    × (count "alone" fetched.running ≤ 1)
unfolding lookup start create get_jobs_from_queue enqueue_jobs
concurrency_limit_example =
    concurrency_limit "app" (alone ∷ []) fetched "alone" 1 fetched-Reach refl

fetch_total_example : IsOk (get_jobs_from_queue "main" 1 fetched.broker).0
fetch_total_example = fetch_total "app" (alone ∷ []) fetched "main" 1 fetched-Reach

-- Two jobs that may not start yet, the later one first.
abbrev waiting : System
waiting =
    let s = start "app" (alone ∷ []) in
    record s {
      broker =
          (enqueue_jobs 7 false
            (record job { at = aware 30 utc } ∷ record job { at = aware 20 utc } ∷ []) s.broker).1;
    }

waiting-Reach : Reach "app" (alone ∷ []) waiting
waiting-Reach =
    next here
      (enqueues _ 7 (record job { at = aware 30 utc } ∷ record job { at = aware 20 utc } ∷ []))

one_moved : (move_ready 25 waiting.broker).0 ≡ ok 1
unfolding move_ready start create enqueue_jobs
one_moved = refl

waits_for_the_first : (wait_for_event 7 0 false waiting.broker).0 ≡ ok (pos 13)
unfolding wait_for_event start create enqueue_jobs
waits_for_the_first = refl

move_ready-Moved_due_example :
    Moved 25 waiting.broker.future_jobs 0 waiting.broker (move_ready 25 waiting.broker)
move_ready-Moved_due_example = move_ready-Moved_due "app" (alone ∷ []) waiting 25 waiting-Reach

-- With a periodic task, whose next event is five seconds after the registration.
abbrev every_five : Task
every_five = record alone { name = "tick"; periodicity = some 5_000_000 }

abbrev ticking : System
ticking = record waiting { broker = register_periodic_tasks 2 (every_five ∷ []) waiting.broker }

ticking-Reach : Reach "app" (alone ∷ []) ticking
ticking-Reach = next waiting-Reach (registers _ 2 (every_five ∷ []))

wait-InTime_example : InTime 7 0 ticking.broker (wait_for_event 7 0 false ticking.broker)
wait-InTime_example = wait-InTime "app" (alone ∷ []) ticking 7 0 false ticking-Reach

abbrev no_tasks : Tasks
no_tasks = record {
  tasks = [];
  queue = none;
  max_retries = none;
  periodicity = none;
  max_concurrency = none;
  spin = true;
}

abbrev pub half : ℕ → ℕ
half n = n / 2

unknown_task_raises_example :
    let b = (start "app" []).broker in
    (k : Job) × (dispatch no_tasks 9 half job ≡ to_notifier k)
    × (notify 10 k b ≡ (raise key_error, b))
unfolding lookup start create
unknown_task_raises_example =
    unknown_task_raises no_tasks 9 10 half job (start "app" []).broker refl refl
