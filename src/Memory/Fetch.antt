-- ===== src/Memory/Fetch.antt =====
-- spinach/brokers/memory.py: taking jobs from a queue, under the concurrency limits, and giving up
-- the place of a job that is over.
use spinach.Prelude.{
  ℕ, zero, suc, ℤ, pos, ◌+ℤ◌, leb_ℤ, Bool, String, List, [], ◌∷◌, ◌++◌, Option, none, some, Dict,
  lookup, insert, if◌then◌else◌, length, ◌==◌,
}
use spinach.Outcome.{Exception, ok, raise, type_error}
use spinach.Action.{modify, ◌>>◌}
use spinach.Json.{Json}
use spinach.Job.{Job, running, deserialize}
use spinach.Task.{Task}
use spinach.Memory.{MemoryBroker, Method, get_queue, set_queue, release_concurrency, set_event}

-- What the limits say of a job: it waits, it may run, it may run and its task's count becomes `c`,
-- or the comparison raises a TypeError.
pub data Decision : Type 0 where
  refuse take : Decision
  take_counted : (c : ℤ) → Decision
  broken : Decision

-- With `get`, a task without an entry has no limit.
unfoldable pub decide : Dict (Option ℕ) → Dict ℤ → String → Decision
unfolding lookup
decide max_keys cur_keys task_name = elim (lookup task_name max_keys) [
  | none ↦ take
  | some none ↦ take
  | some (some max_concurrency) ↦ elim (lookup task_name cur_keys) [
    | none ↦ broken
    | some cur_concurrency ↦
        if leb_ℤ (pos max_concurrency) cur_concurrency
        then refuse
        else take_counted (cur_concurrency +ℤ pos 1)
  ]
]

-- What the loop leaves: the jobs taken, the ones to put back, the rest of the queue, the counts, and
-- the exception that stopped it.
pub record Fetched : Type 0 where
  pub jobs : List Job
  pub jobs_to_re_add : List Json
  pub rest : List Json
  pub cur_keys : Dict ℤ
  pub error : Option Exception

abbrev pub with_job : Job → Fetched → Fetched
with_job j f = record f { jobs = j ∷ f.jobs }

abbrev pub with_re_add : Json → Fetched → Fetched
with_re_add doc f = record f { jobs_to_re_add = doc ∷ f.jobs_to_re_add }

abbrev pub stopped : List Json → Dict ℤ → Option Exception → Fetched
stopped docs cur error = record {
  jobs = [];
  jobs_to_re_add = [];
  rest = docs;
  cur_keys = cur;
  error = error;
}

-- `while len(rv) < max_jobs`, with `room` for `max_jobs - len(rv)`.
unfoldable pub fetch : Dict (Option ℕ) → ℕ → List Json → Dict ℤ → Fetched
unfolding decide deserialize insert
fetch max_keys zero docs cur = stopped docs cur none
fetch max_keys (suc room) [] cur = stopped [] cur none
fetch max_keys (suc room) (doc ∷ docs) cur = elim (deserialize doc) [
  | raise e ↦ stopped docs cur (some e)
  | ok j ↦ elim (decide max_keys cur j.task_name) [
    | refuse ↦ with_re_add doc (fetch max_keys (suc room) docs cur)
    | take ↦ with_job (record j { status = running }) (fetch max_keys room docs cur)
    | take_counted c ↦
        with_job (record j { status = running })
          (fetch max_keys room docs (insert j.task_name c cur))
    | broken ↦ stopped docs cur (some type_error)
  ]
]

-- The end of `get_jobs_from_queue`: the refused jobs go back behind the others. After an exception
-- neither they nor the jobs taken come back.
unfoldable pub finish_fetch : String → Fetched → Method (List Job)
unfolding set_queue
finish_fetch queue f b =
    let after = record b { cur_concurrency_keys = f.cur_keys } in
    elim f.error [
      | none ↦ (ok f.jobs, set_queue queue (f.rest ++ f.jobs_to_re_add) after)
      | some e ↦ (raise e, set_queue queue f.rest after)
    ]

unfoldable pub get_jobs_from_queue : String → ℕ → Method (List Job)
unfolding fetch finish_fetch get_queue
get_jobs_from_queue queue max_jobs b =
    finish_fetch queue
      (fetch b.max_concurrency_keys max_jobs (get_queue b queue) b.cur_concurrency_keys) b

unfoldable pub remove_job_from_running : Job → Method (Unit {0})
unfolding release_concurrency
remove_job_from_running j = do release_concurrency j.task_name; modify set_event

-- `set_concurrency_keys`: the limits as given, and every count at zero.
unfoldable pub set_concurrency_keys : List Task → MemoryBroker → MemoryBroker
unfolding insert
set_concurrency_keys [] b = b
set_concurrency_keys (t ∷ ts) b = set_concurrency_keys ts (record b {
  max_concurrency_keys = insert t.name t.max_concurrency b.max_concurrency_keys;
  cur_concurrency_keys = insert t.name (pos 0) b.cur_concurrency_keys;
})

unfoldable pub is_queue_empty : String → MemoryBroker → Bool
unfolding get_queue
is_queue_empty queue b = length (get_queue b queue) == 0

-- The limits and the scheduler stay.
unfoldable pub flush : MemoryBroker → MemoryBroker
flush b = record b { queues = []; future_jobs = [] }
