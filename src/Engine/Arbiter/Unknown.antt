-- ===== src/Engine/Arbiter/Unknown.antt =====
-- What the result notifier of spinach/engine.py meets when a fetched job's task is unknown.
use spinach.Prelude.{ℕ, ◌≡◌, refl, ap, ◌∙◌, ◌⊎◌, inl, inr, none, some, lookup, arith}
use spinach.Outcome.{raise, key_error}
use spinach.Job.{Job, JobStatus, not_set, succeeded, failed}
use spinach.Job.Advance.{other, advance_job_status}
use spinach.Job.Advance.Outcomes.{advance_cases, advance-task_name}
use spinach.Task.{Tasks}
use spinach.Task
use spinach.Memory.{MemoryBroker, release_concurrency, enqueue_jobs}
use spinach.Memory.Fetch.{remove_job_from_running}
use spinach.Engine.{notify_as, notify}
use spinach.Engine.Arbiter.{to_notifier, dispatch}

notify_as-raise :
    (s : JobStatus) (now : ℕ) (k : Job) (b : MemoryBroker)
    → (s ≡ not_set) ⊎ ((s ≡ succeeded) ⊎ (s ≡ failed))
    → lookup k.task_name b.max_concurrency_keys ≡ none
    → notify_as s now k b ≡ (raise key_error, b)
unfolding notify_as remove_job_from_running enqueue_jobs release_concurrency
notify_as-raise succeeded now k b h e = rw (e, release_concurrency) refl
notify_as-raise failed now k b h e = rw (e, release_concurrency) refl
notify_as-raise not_set now k b h e = rw (e, release_concurrency) refl
notify_as-raise _ now k b h e = absurd (ground arith)

reported :
    {s : JobStatus} {A B C : Type 0}
    → ((s ≡ not_set) × A × B × C) ⊎ ((s ≡ succeeded) ⊎ (s ≡ failed))
    → (s ≡ not_set) ⊎ ((s ≡ succeeded) ⊎ (s ≡ failed))
reported (inl h) = inl h.0
reported (inr h) = inr h

-- If neither the registry nor the memory broker knows the task of a fetched job, the arbiter hands
-- the job to the result notifier, and there the broker raises a KeyError and stays as it is: the
-- job is neither removed nor enqueued again.
pub unknown_task_raises :
    (ts : Tasks) (now later : ℕ) (randint : ℕ → ℕ) (j : Job) (b : MemoryBroker)
    → lookup j.task_name ts.tasks ≡ none
    → lookup j.task_name b.max_concurrency_keys ≡ none
    → (k : Job) × (dispatch ts now randint j ≡ to_notifier k)
      × (notify later k b ≡ (raise key_error, b))
unfolding dispatch notify Task.get
unknown_task_raises ts now later randint j b e f =
    let k = (advance_job_status now randint j (some other)).job in
    (
      k,
      rw (e, dispatch) refl,
      notify_as-raise k.status later k b (reported (advance_cases now randint j (some other))) (
          ap (λ n. lookup n b.max_concurrency_keys) (advance-task_name now randint j (some other))
          ∙ f),
    )
