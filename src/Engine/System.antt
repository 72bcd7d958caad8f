-- ===== src/Engine/System.antt =====
-- An engine of spinach/engine.py at work over one memory broker: jobs are enqueued, moved, taken by
-- the arbiter, run by the workers and reported by the notifier, in any order.
use spinach.Prelude.{ℕ, ◌≡◌, String, List, [], ◌∷◌, ◌++◌, Option, some, false}
use spinach.Outcome.{Result, ok, raise}
use spinach.Job.{Job}
use spinach.Job.Advance.{Error, advance_job_status}
use spinach.Task.{Task}
use spinach.Memory.{MemoryBroker, create, enqueue_jobs}
use spinach.Memory.Fetch.{get_jobs_from_queue, set_concurrency_keys}
use spinach.Memory.Future.{move_future_jobs, register_periodic_tasks}
use spinach.Engine.{notify}

-- The broker, and the jobs that were taken from it and not reported yet.
pub record System : Type 0 where
  pub broker : MemoryBroker
  pub running : List Job

-- The jobs that a call of `get_jobs_from_queue` hands out.
abbrev pub handed_out : Result (List Job) → List Job
handed_out (ok js) = js
handed_out (raise e) = []

pub data Step : System → System → Type 0 where
  enqueues :
      (s : System) (now : ℕ) (js : List Job)
      → Step s (record s { broker = (enqueue_jobs now false js s.broker).1 })
  moves :
      (s : System) (fuel now mono : ℕ) (uuid : ℕ → String) (r : Result ℕ) (b : MemoryBroker)
      → move_future_jobs fuel now mono uuid s.broker ≡ some (r, b)
      → Step s (record s { broker = b })
  -- The arbiter enters the events of the periodic tasks when it starts.
  registers :
      (s : System) (mono : ℕ) (ts : List Task)
      → Step s (record s { broker = register_periodic_tasks mono ts s.broker })
  fetches :
      (s : System) (queue : String) (max_jobs : ℕ)
      → Step s (record {
        broker = (get_jobs_from_queue queue max_jobs s.broker).1;
        running = handed_out (get_jobs_from_queue queue max_jobs s.broker).0 ++ s.running;
      })
  -- A running job ends at `ended`, with or without an `Exception`, and is reported at `now`.
  reports :
      (s : System) (before : List Job) (j : Job) (after : List Job) (ended now : ℕ)
      (randint : ℕ → ℕ) (err : Option Error)
      → s.running ≡ before ++ j ∷ after
      → Step s (record {
        broker = (notify now (advance_job_status ended randint j err).job s.broker).1;
        running = before ++ after;
      })

-- A worker process starts with no job taken, and sets the concurrency keys first.
unfoldable pub start : String → List Task → System
unfolding create set_concurrency_keys
start namespace tasks = record {
  broker = set_concurrency_keys tasks (create namespace);
  running = [];
}

pub data Reach (namespace : String) (tasks : List Task) : System → Type 0 where
  here : Reach namespace tasks (start namespace tasks)
  next : {s t : System} → Reach namespace tasks s → Step s t → Reach namespace tasks t
