-- ===== src/Samples/Periodic.antt =====
-- A periodic task in spinach/brokers/memory.py, and a batch in spinach/engine.py.
use spinach.Prelude.{
  ℕ, ◌≡◌, refl, String, List, [], ◌∷◌, ◌++◌, none, some, arith, Option, lookup, false, true, Bool,
}
use spinach.Outcome.{Exception, Result, ok, raise, unknown_task}
use spinach.Time.{aware, utc}
use spinach.Json.{nil, end}
use spinach.Job.{Job, binds}
use spinach.Task.{Task, Tasks, ToCreate, by_name}
use spinach.Task
use spinach.Memory.{MemoryBroker, create, enqueue_jobs}
use spinach.Memory.Fetch.{is_queue_empty}
use spinach.Memory.Future.{period, register_periodic_tasks, move_future_jobs}
use spinach.Memory.Scheduling.{due_events, move_future_jobs_ends}
use spinach.Engine.{make_job, schedule_batch}
use spinach.Engine.Batch.{schedule_batch_atomic}
use spinach.Engine.OneByOne.{schedule_each, schedule_batch_one_by_one}

abbrev tick : Task
tick = record {
  func = record { bind = λ args kwargs. binds };
  name = "tick";
  queue = "main";
  max_retries = 0;
  periodicity = some 2_500_000;
  max_concurrency = none;
}

abbrev ticking : MemoryBroker
ticking = register_periodic_tasks 0 (tick ∷ []) (create "app")

abbrev same_id : ℕ → String
same_id n = "id"

-- Whether the queue is empty after a run, and how many events are due at two later times.
abbrev seen : Option (Result ℕ × MemoryBroker) → Option (Bool × ℕ × ℕ)
seen none = none
seen (some (r, b)) =
    some
      (is_queue_empty "main" b, due_events 3_999_999 b.scheduler, due_events 4_000_000 b.scheduler)

-- Two seconds later a job is created, and the next event is two seconds after that.
one_tick : seen (move_future_jobs 2 9 2_000_000 same_id ticking) ≡ some ((false, 0, 1))
unfolding move_future_jobs register_periodic_tasks create due_events is_queue_empty
one_tick = refl

move_future_jobs_ends_example :
    (out : Result ℕ × MemoryBroker) × (move_future_jobs 2 9 2_000_000 same_id ticking ≡ some out)
unfolding register_periodic_tasks create due_events period
move_future_jobs_ends_example =
    move_future_jobs_ends 9 2_000_000 same_id 2 ticking (omega arith, tt) (omega arith)

abbrev with_tick : Tasks
with_tick = record {
  tasks = ("tick", tick) ∷ [];
  queue = none;
  max_retries = none;
  periodicity = none;
  max_concurrency = none;
  spin = true;
}

abbrev request : String → ToCreate
request name = record { task = by_name name; at = aware 5 utc; args = nil; kwargs = end }

tock_is_unknown : (id : String) → make_job with_tick id (request "tock") ≡ raise unknown_task
unfolding make_job Task.get lookup
tock_is_unknown id = refl

schedule_batch_atomic_example :
    (e : Exception) × (schedule_batch with_tick same_id 7
        ((request "tick" ∷ []) ++ request "tock" ∷ [])
        ticking
      ≡ (raise e, ticking))
schedule_batch_atomic_example =
    schedule_batch_atomic with_tick same_id 7 (request "tick" ∷ []) (request "tock") [] ticking
      (λ id. (unknown_task, tock_is_unknown id))

abbrev two_ticks : Result (List Job) × MemoryBroker
two_ticks = schedule_batch with_tick same_id 7 (request "tick" ∷ request "tick" ∷ []) ticking

abbrev or_none : Result (List Job) → List Job
or_none (ok jobs) = jobs
or_none (raise e) = []

two_scheduled : two_ticks ≡ (ok (or_none two_ticks.0), two_ticks.1)
unfolding schedule_batch make_job enqueue_jobs
two_scheduled = refl

schedule_batch_one_by_one_example :
    schedule_each with_tick same_id 0 7 (request "tick" ∷ request "tick" ∷ []) ticking ≡ two_ticks
schedule_batch_one_by_one_example =
    schedule_batch_one_by_one with_tick same_id 7 (request "tick") (request "tick" ∷ []) ticking
      two_ticks.1 (or_none two_ticks.0) two_scheduled
