-- ===== src/Memory/Unscheduled.antt =====
-- The operations of spinach/brokers/memory.py that leave the scheduler alone.
use spinach.Prelude.{
  ℕ, ◌≡◌, refl, ◌∙◌, true, false, Bool, String, List, [], ◌∷◌, ◌++◌, none, some, lookup,
  Option-cases, inl, inr,
}
use spinach.Outcome.{Result-cases}
use spinach.Action.{modify, lift, Always, >>=-Always}
use spinach.Job.{
  Job, JobStatus, not_set, waiting, queued, running, succeeded, failed, serialize, should_start,
}
use spinach.Engine.{notify_as, notify}
use spinach.Memory.{
  MemoryBroker, get_queue, put, set_queue, sort_by_at, release_concurrency, enqueue_now,
  enqueue_later, enqueue_job, enqueue_each, enqueue_jobs, set_event,
}
use spinach.Memory.Valid.{enqueue_start}
use spinach.Memory.Fetch.{
  fetch, Fetched, finish_fetch, get_jobs_from_queue, remove_job_from_running, set_concurrency_keys,
}
use spinach.Task.{Task}

abbrev pub Same : MemoryBroker → MemoryBroker → Type 0
Same b c = c.scheduler ≡ b.scheduler

pub Same-trans : (b c d : MemoryBroker) → Same b c → Same c d → Same b d
Same-trans b c d h k = k ∙ h

enqueue_now-Same : (j : Job) → Always Same (enqueue_now j)
unfolding enqueue_now put set_queue
enqueue_now-Same j b = refl

enqueue_later-Same : (j : Job) → Always Same (enqueue_later j)
unfolding enqueue_later
enqueue_later-Same j b =
    elim (Result-cases
      (sort_by_at (b.future_jobs ++ serialize (record j { status = waiting }) ∷ []))) [
        | inl (out, e) ↦ rw (e, enqueue_later) refl
        | inr (x, e) ↦ rw (e, enqueue_later) refl
      ]

release_concurrency-Same : (name : String) → Always Same (release_concurrency name)
unfolding release_concurrency
release_concurrency-Same name b = elim (Option-cases (lookup name b.max_concurrency_keys)) [
  | inl e ↦ rw (e, release_concurrency) refl
  | inr (none, e) ↦ rw (e, release_concurrency) refl
  | inr (some m, e) ↦ elim (Option-cases (lookup name b.cur_concurrency_keys)) [
    | inl f ↦ rw (e, f, release_concurrency) refl
    | inr (c, f) ↦ rw (e, f, release_concurrency) refl
  ]
]

enqueue_start-Same : (now : ℕ) (j : Job) → Always Same (enqueue_start now j)
unfolding enqueue_start
enqueue_start-Same now j =
    >>=-Always Same Same-trans (lift (should_start now j)) _ (λ b. refl)
      (elim [ true ↦ enqueue_now-Same j | false ↦ enqueue_later-Same j ])

enqueue_job-Same : (now : ℕ) (f : Bool) (j : Job) → Always Same (enqueue_job now f j)
unfolding enqueue_job enqueue_start
enqueue_job-Same now false j b = enqueue_start-Same now j b
enqueue_job-Same now true j b =
    >>=-Always Same Same-trans (release_concurrency j.task_name) (λ _. enqueue_start now j)
      (release_concurrency-Same j.task_name) (λ _. enqueue_start-Same now j) b

enqueue_each-Same : (now : ℕ) (f : Bool) (js : List Job) → Always Same (enqueue_each now f js)
unfolding enqueue_each
enqueue_each-Same now f [] b = refl
enqueue_each-Same now f (j ∷ js) b =
    >>=-Always Same Same-trans (enqueue_job now f j) _ (enqueue_job-Same now f j)
      (λ job.
        >>=-Always Same Same-trans (enqueue_each now f js) _ (enqueue_each-Same now f js)
          (λ jobs c. refl))
      b

pub enqueue_jobs-Same : (now : ℕ) (f : Bool) (js : List Job) → Always Same (enqueue_jobs now f js)
unfolding enqueue_jobs
enqueue_jobs-Same now f js =
    >>=-Always Same Same-trans (enqueue_each now f js) _ (enqueue_each-Same now f js)
      (λ jobs c. refl)

finish_fetch-Same : (queue : String) (f : Fetched) → Always Same (finish_fetch queue f)
unfolding finish_fetch set_queue
finish_fetch-Same queue f b = elim (Option-cases f.error) [
  | inl e ↦ rw (e) refl
  | inr (x, e) ↦ rw (e) refl
]

pub get_jobs_from_queue-Same :
    (queue : String) (max_jobs : ℕ) → Always Same (get_jobs_from_queue queue max_jobs)
unfolding get_jobs_from_queue
get_jobs_from_queue-Same queue max_jobs b =
    finish_fetch-Same queue
      (fetch b.max_concurrency_keys max_jobs (get_queue b queue) b.cur_concurrency_keys) b

remove_job_from_running-Same : (j : Job) → Always Same (remove_job_from_running j)
unfolding remove_job_from_running
remove_job_from_running-Same j =
    >>=-Always Same Same-trans (release_concurrency j.task_name) (λ _. modify set_event)
      (release_concurrency-Same j.task_name) (λ u b. refl)

notify_as-Same : (s : JobStatus) (now : ℕ) (j : Job) → Always Same (notify_as s now j)
unfolding notify_as
notify_as-Same succeeded now j b = remove_job_from_running-Same j b
notify_as-Same failed now j b = remove_job_from_running-Same j b
notify_as-Same not_set now j b =
    >>=-Always Same Same-trans (enqueue_jobs now true (j ∷ [])) _
      (enqueue_jobs-Same now true (j ∷ [])) (λ js c. refl) b
notify_as-Same waiting now j b = refl
notify_as-Same queued now j b = refl
notify_as-Same running now j b = refl

pub notify-Same : (now : ℕ) (j : Job) → Always Same (notify now j)
unfolding notify
notify-Same now j = notify_as-Same j.status now j

pub set_concurrency_keys-Same :
    (ts : List Task) (b : MemoryBroker) → Same b (set_concurrency_keys ts b)
unfolding set_concurrency_keys
set_concurrency_keys-Same [] b = refl
set_concurrency_keys-Same (t ∷ ts) b = set_concurrency_keys-Same ts _
