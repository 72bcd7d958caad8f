-- ===== src/Engine/Ledger.antt =====
-- Where each job is, over any history of an engine of spinach/engine.py over one memory broker: the
-- jobs that entered, and the jobs that are over, next to the state.
use spinach.Prelude.{ℕ, ◌≡◌, ◌≢◌, String, List, [], ◌∷◌, ◌++◌, Option, some, false}
use spinach.Outcome.{Result, IsOk}
use spinach.Job.{Job, JobStatus, not_set}
use spinach.Job.Advance.{Error, advance_job_status}
use spinach.Task.{Task}
use spinach.Memory.{MemoryBroker, enqueue_jobs}
use spinach.Memory.Fetch.{get_jobs_from_queue}
use spinach.Memory.Future.{move_future_jobs}
use spinach.Engine.{notify}
use spinach.Engine.System.{
  System, handed_out, enqueues, moves, fetches, reports, start, Reach, here, next,
}

-- A job that was reported is over, unless it is retried.
abbrev pub over_after : JobStatus → Job → List Job → List Job
over_after not_set j gone = gone
over_after _ j gone = j ∷ gone

-- A history in which the calls of the broker return and no periodic job gets the id: the state, the
-- jobs that were enqueued, and the jobs that were reported as over.
pub data Ledger (id namespace : String) (tasks : List Task)
    : System → List Job → List Job → Type 0 where
  opened : Ledger id namespace tasks (start namespace tasks) [] []
  enqueued :
      {s : System} {entered gone : List Job} (now : ℕ) (js : List Job)
      → Ledger id namespace tasks s entered gone
      → IsOk (enqueue_jobs now false js s.broker).0
      → Ledger id namespace tasks
          (record s { broker = (enqueue_jobs now false js s.broker).1 })
          (js ++ entered)
          gone
  moved :
      {s : System} {entered gone : List Job} (fuel now mono : ℕ) (uuid : ℕ → String) (r : Result ℕ)
      (b : MemoryBroker)
      → Ledger id namespace tasks s entered gone
      → move_future_jobs fuel now mono uuid s.broker ≡ some (r, b)
      → ((n : ℕ) → uuid n ≢ id)
      → Ledger id namespace tasks (record s { broker = b }) entered gone
  fetched :
      {s : System} {entered gone : List Job} (queue : String) (max_jobs : ℕ)
      → Ledger id namespace tasks s entered gone
      → Ledger id namespace tasks
          (record s {
            broker = (get_jobs_from_queue queue max_jobs s.broker).1;
            running = handed_out (get_jobs_from_queue queue max_jobs s.broker).0 ++ s.running;
          })
          entered
          gone
  reported :
      {s : System} {entered gone : List Job} (before : List Job) (j : Job) (after : List Job)
      (ended now : ℕ) (randint : ℕ → ℕ) (err : Option Error)
      → Ledger id namespace tasks s entered gone
      → s.running ≡ before ++ j ∷ after
      → IsOk (notify now (advance_job_status ended randint j err).job s.broker).0
      → Ledger id namespace tasks
          (record s {
            broker = (notify now (advance_job_status ended randint j err).job s.broker).1;
            running = before ++ after;
          })
          entered
          (over_after
            (advance_job_status ended randint j err).job.status
            (advance_job_status ended randint j err).job
            gone)

pub Ledger-Reach :
    {id namespace : String} {tasks : List Task} {s : System} {entered gone : List Job}
    → Ledger id namespace tasks s entered gone
    → Reach namespace tasks s
Ledger-Reach opened = here
Ledger-Reach (enqueued now js l h) = next (Ledger-Reach l) (enqueues _ now js)
Ledger-Reach (moved fuel now mono uuid r b l e other) =
    next (Ledger-Reach l) (moves _ fuel now mono uuid r b e)
Ledger-Reach (fetched queue max_jobs l) = next (Ledger-Reach l) (fetches _ queue max_jobs)
Ledger-Reach (reported before j after ended now randint err l e h) =
    next (Ledger-Reach l) (reports _ before j after ended now randint err e)
