-- ===== src/Engine.antt =====
-- spinach/engine.py over the memory broker: scheduling jobs, and the result notifier that reports
-- the jobs that the workers are done with.
pub mod System
pub mod Concurrency
pub mod Ledger
pub mod Future
pub mod Batch
pub mod Lifecycle
pub mod OneByOne
pub mod Arbiter
pub mod Attach
use spinach.Prelude.{ℕ, suc, ◌+◌, Bool, true, false, String, List, [], ◌∷◌, Option, none, some}
use spinach.Outcome.{Result, ok, raise, runtime_error}
use spinach.Outcome
use spinach.Action.{pure, lift, ◌>>=◌, ◌>>◌}
use spinach.Time.{DateTime}
use spinach.Json.{Items, Fields}
use spinach.Job.{
  Job, JobStatus, not_set, waiting, queued, running, succeeded, failed, check_signature,
}
use spinach.Job
use spinach.Task.{Task, Tasks, Schedulable, ToCreate}
use spinach.Task
use spinach.Memory.{Method, enqueue_jobs}
use spinach.Memory.Fetch.{remove_job_from_running}

-- The job that `schedule_at` and `schedule_batch` make of a request, with its function and its
-- signature checked.
unfoldable pub make_job : Tasks → String → ToCreate → Result Job
unfolding Task.get Job.create check_signature
make_job ts id r = Outcome.◌>>=◌ (Task.get ts r.task) λ t.
    let job =
      record (Job.create id t.name t.queue r.at t.max_retries (some r.args) (some r.kwargs)) {
        task_func = some t.func;
      } in
    Outcome.◌>>=◌ (check_signature job) λ _. ok job

-- The job itself, as `enqueue_jobs` leaves it.
abbrev only : Job → List Job → Job
only job [] = job
only job (j ∷ js) = j

-- `schedule_at`
unfoldable pub schedule_at : Tasks → String → ℕ → ToCreate → Method Job
unfolding make_job enqueue_jobs
schedule_at ts id now r = do
  job ← lift (make_job ts id r)
  jobs ← enqueue_jobs now false (job ∷ [])
  pure (only job jobs)

-- `uuid n` is the id of the n-th job of the batch.
unfoldable pub make_jobs : Tasks → (ℕ → String) → ℕ → List ToCreate → Result (List Job)
unfolding make_job
make_jobs ts uuid n [] = ok []
make_jobs ts uuid n (r ∷ rs) =
    Outcome.◌>>=◌ (make_job ts (uuid n) r)
      λ job. Outcome.◌>>=◌ (make_jobs ts uuid (suc n) rs) λ jobs. ok (job ∷ jobs)

unfoldable pub schedule_batch : Tasks → (ℕ → String) → ℕ → List ToCreate → Method (List Job)
unfolding make_jobs enqueue_jobs
schedule_batch ts uuid now batch = do
  jobs ← lift (make_jobs ts uuid 0 batch)
  enqueue_jobs now false jobs

-- The body of the loop of `_result_notifier_func`, for a job from the workers, by its status.
unfoldable pub notify_as : JobStatus → ℕ → Job → Method (Unit {0})
unfolding remove_job_from_running enqueue_jobs
notify_as succeeded now j = remove_job_from_running j
notify_as failed now j = remove_job_from_running j
notify_as not_set now j = enqueue_jobs now true (j ∷ []) >> pure tt
notify_as _ now j = lift (raise runtime_error)

unfoldable pub notify : ℕ → Job → Method (Unit {0})
unfolding notify_as
notify now j = notify_as j.status now j
