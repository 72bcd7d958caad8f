-- ===== src/Memory.antt =====
-- spinach/brokers/memory.py: the broker that keeps everything in the process. Its methods run as a
-- whole, one after the other; a call reads each clock once. A queue that is not there is an empty
-- one.
pub mod Fetch
pub mod Future
pub mod Counts
pub mod Order
pub mod Valid
pub mod Runs
pub mod Moves
pub mod Due
pub mod Scheduling
pub mod Unscheduled
pub mod Scheduled
pub mod Waiting
pub mod Release
pub mod Copies
pub mod Conserved
pub mod Transfers
pub mod AsBroker
use Prim.Native.String.{◌++◌ as str_append}
use spinach.Prelude.{
  ℕ, zero, suc, ◌+◌, ◌*◌, ◌/◌, ℤ, pos, ◌+ℤ◌, ◌-ℤ◌, leb_ℤ, Bool, true, false, String, List, [], ◌∷◌,
  ◌++◌, map, Option, none, some, Dict, lookup, insert, ltb, leb, ◌==◌, length, if◌then◌else◌,
}
use spinach.Outcome.{Exception, Result, ok, raise, key_error, type_error}
use spinach.Outcome
use spinach.Action.{Action, modify, pure, lift, asks, and_then, ◌>>=◌, ◌>>◌}
use spinach.Time.{DateTime, aware, utc, second, instant}
use spinach.Json.{Json}
use spinach.Job.{Job, queued, waiting, running, serialize, deserialize, should_start}
use spinach.Job
use spinach.Task.{Task}

-- An entry of the scheduler, `sched.scheduler`: when to create a job of a periodic task, in
-- microseconds of the monotonic clock.
pub record Event : Type 0 where
  pub time : ℕ
  pub task : Task

-- `namespace` is the one that the engine sets when it is created.
pub record MemoryBroker : Type 0 where
  pub namespace : String
  pub queues : Dict (List Json)
  pub future_jobs : List Json
  pub scheduler : List Event
  pub max_concurrency_keys : Dict (Option ℕ)
  pub cur_concurrency_keys : Dict ℤ
  pub something_happened : Bool

abbrev pub Method : Type 0 → Type 0
Method A = Action MemoryBroker A

unfoldable pub create : String → MemoryBroker
create namespace = record {
  namespace = namespace;
  queues = [];
  future_jobs = [];
  scheduler = [];
  max_concurrency_keys = [];
  cur_concurrency_keys = [];
  something_happened = false;
}

-- The namespace is set and not empty, or the property of that name raises.
unfoldable pub to_namespaced : MemoryBroker → String → String
to_namespaced b value = str_append b.namespace (str_append "/" value)

abbrev pub or_empty : Option (List Json) → List Json
or_empty none = []
or_empty (some docs) = docs

-- `_get_queue(name)`, as a list with the next job in front.
unfoldable pub get_queue : MemoryBroker → String → List Json
unfolding to_namespaced lookup
get_queue b name = or_empty (lookup (to_namespaced b name) b.queues)

unfoldable pub set_queue : String → List Json → MemoryBroker → MemoryBroker
unfolding to_namespaced insert
set_queue name docs b = record b { queues = insert (to_namespaced b name) docs b.queues }

-- `queue.put(doc)`
unfoldable pub put : String → Json → MemoryBroker → MemoryBroker
unfolding get_queue set_queue
put name doc b = set_queue name (get_queue b name ++ doc ∷ []) b

-- `list.sort(key=lambda j: Job.deserialize(j).at)`: the keys first, then a stable sort.
unfoldable pub with_keys : List Json → Result (List (ℕ × Json))
unfolding deserialize instant
with_keys [] = ok []
with_keys (doc ∷ docs) =
    Outcome.◌>>=◌ (deserialize doc)
      λ j. Outcome.◌>>=◌ (with_keys docs) λ rest. ok ((instant j.at, doc) ∷ rest)

unfoldable pub insert_by_key : ℕ × Json → List (ℕ × Json) → List (ℕ × Json)
insert_by_key e [] = e ∷ []
insert_by_key e (f ∷ rest) = if leb e.0 f.0 then e ∷ f ∷ rest else f ∷ insert_by_key e rest

unfoldable pub sort_by_key : List (ℕ × Json) → List (ℕ × Json)
unfolding insert_by_key
sort_by_key [] = []
sort_by_key (e ∷ rest) = insert_by_key e (sort_by_key rest)

unfoldable pub sort_by_at : List Json → Result (List Json)
unfolding with_keys sort_by_key
sort_by_at docs =
    Outcome.◌>>=◌ (with_keys docs) λ entries. ok (map (λ e. e.1) (sort_by_key entries))

-- The running count of a task goes down by one, if the task has a limit. Both dicts raise KeyError.
unfoldable pub release_concurrency : String → Method (Unit {0})
unfolding lookup insert
release_concurrency task_name b = elim (lookup task_name b.max_concurrency_keys) [
  | none ↦ (raise key_error, b)
  | some none ↦ (ok tt, b)
  | some (some m) ↦ elim (lookup task_name b.cur_concurrency_keys) [
    | none ↦ (raise key_error, b)
    | some c ↦ (
      ok tt,
      record b { cur_concurrency_keys = insert task_name (c -ℤ pos 1) b.cur_concurrency_keys },
    )
  ]
]

-- A job that may start goes to its queue.
unfoldable pub enqueue_now : Job → Method Job
unfolding put serialize
enqueue_now j b = let job = record j { status = queued } in (ok job, put j.queue (serialize job) b)

-- A job that may not start yet goes to the future jobs, which are then sorted.
unfoldable pub enqueue_later : Job → Method Job
unfolding sort_by_at serialize
enqueue_later j = do
  let job = record j { status = waiting }
  modify (λ b. record b { future_jobs = b.future_jobs ++ serialize job ∷ [] })
  docs ← asks (λ b. sort_by_at b.future_jobs)
  modify (λ b. record b { future_jobs = docs })
  pure job

-- The body of the loop of `enqueue_jobs`.
unfoldable pub enqueue_job : ℕ → Bool → Job → Method Job
unfolding release_concurrency enqueue_now enqueue_later should_start
enqueue_job now from_failure j = do
  if from_failure then release_concurrency j.task_name else pure tt
  starts ← lift (should_start now j)
  if starts then enqueue_now j else enqueue_later j

unfoldable pub enqueue_each : ℕ → Bool → List Job → Method (List Job)
unfolding enqueue_job
enqueue_each now from_failure [] = pure []
enqueue_each now from_failure (j ∷ js) = do
  job ← enqueue_job now from_failure j
  jobs ← enqueue_each now from_failure js
  pure (job ∷ jobs)

abbrev pub set_event : MemoryBroker → MemoryBroker
set_event b = record b { something_happened = true }

-- The jobs with their new status are returned; the source changes them in place.
unfoldable pub enqueue_jobs : ℕ → Bool → List Job → Method (List Job)
unfolding enqueue_each
enqueue_jobs now from_failure js = do
  jobs ← enqueue_each now from_failure js
  modify set_event
  pure jobs
