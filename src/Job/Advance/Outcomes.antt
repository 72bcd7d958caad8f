-- ===== src/Job/Advance/Outcomes.antt =====
-- When a job is retried, when it is over, and when its next run may start.
use spinach.Prelude.{
  ℕ, ◌+◌, ◌*◌, ◌≤◌, ◌<◌, ◌≡◌, refl, ◌≢◌, ◌↔◌, ◌⊎◌, inl, inr, Option, none, some, arith,
}
use spinach.Outcome.{Exception, raise, type_error}
use spinach.Time.{DateTime, naive, aware, second, instant, until}
use spinach.Utils.{default_cap}
use spinach.Utils.Backoff.{exponential_backoff-le_cap, three-le-exponential_backoff}
use spinach.Job.{not_set, succeeded, failed, Job}
use spinach.Job.Advance.{Error, abort, retry, other, retry_at, advance_job_status}

-- A job ends as failed exactly when the run raised an exception, and the exception was an abort or
-- the retries were used up.
pub advance-failed_iff :
    (now : ℕ) (randint : ℕ → ℕ) (j : Job) (err : Option Error)
    → ((advance_job_status now randint j err).job.status ≡ failed)
      ↔ ((e : Error) × (err ≡ some e) × ((e ≡ abort) ⊎ (j.max_retries ≤ j.retries)))
unfolding advance_job_status
advance-failed_iff now randint j none = (λ h. cc, λ h. cc (h.1))
advance-failed_iff now randint j (some abort) = (λ h. (abort, refl, inl refl), λ h. ground arith)
advance-failed_iff now randint j (some (retry at)) =
    (λ h. (retry at, refl, inr (ground arith)), λ (e, same, why). ground arith)
advance-failed_iff now randint j (some other) =
    (λ h. (other, refl, inr (ground arith)), λ (e, same, why). ground arith)

-- A job goes back to the broker exactly when the run raised something else than an abort and
-- retries are left; its counter is then one higher and within the maximum.
pub advance-not_set_iff :
    (now : ℕ) (randint : ℕ → ℕ) (j : Job) (err : Option Error)
    → let after = (advance_job_status now randint j err).job in
      ((after.status ≡ not_set)
        ↔ ((e : Error) × (err ≡ some e) × (e ≢ abort) × (j.retries < j.max_retries)))
      × (after.status ≡ not_set
          → (after.retries ≡ j.retries + 1) × (after.retries ≤ after.max_retries))
unfolding advance_job_status
advance-not_set_iff now randint j none = ((λ h. cc, λ h. cc (h.1)), λ h. cc)
advance-not_set_iff now randint j (some abort) =
    ((λ h. ground arith, λ (e, same, ne, lt). absurd (ne (cc))), λ h. ground arith)
advance-not_set_iff now randint j (some (retry at)) =
    ((λ h. (retry at, refl, λ q. cc, ground arith), λ h. ground arith), λ h. ground arith)
advance-not_set_iff now randint j (some other) =
    ((λ h. (other, refl, λ q. cc, ground arith), λ h. ground arith), λ h. ground arith)

-- The ways in which a run can leave its job.
pub advance_cases :
    (now : ℕ) (randint : ℕ → ℕ) (j : Job) (err : Option Error)
    → let after = (advance_job_status now randint j err).job in
      ((after.status ≡ not_set)
        × (after.retries ≡ j.retries + 1)
        × (after.max_retries ≡ j.max_retries)
        × (j.retries < j.max_retries))
      ⊎ ((after.status ≡ succeeded) ⊎ (after.status ≡ failed))
unfolding advance_job_status
advance_cases now randint j none = inr (inl refl)
advance_cases now randint j (some abort) = inr (inr (ground arith))
advance_cases now randint j (some (retry at)) = ground arith
advance_cases now randint j (some other) = ground arith

pub advance-task_name :
    (now : ℕ) (randint : ℕ → ℕ) (j : Job) (err : Option Error)
    → (advance_job_status now randint j err).job.task_name ≡ j.task_name
unfolding advance_job_status
advance-task_name now randint j none = refl
advance-task_name now randint j (some abort) = ground arith
advance-task_name now randint j (some (retry at)) = ground arith
advance-task_name now randint j (some other) = ground arith

pub advance-id :
    (now : ℕ) (randint : ℕ → ℕ) (j : Job) (err : Option Error)
    → (advance_job_status now randint j err).job.id ≡ j.id
unfolding advance_job_status
advance-id now randint j none = refl
advance-id now randint j (some abort) = ground arith
advance-id now randint j (some (retry at)) = ground arith
advance-id now randint j (some other) = ground arith

-- If `randint n` never gives more than `n`, a job that is retried with no date asked for starts at
-- least three seconds and at most twenty minutes after `now`.
pub advance_backoff :
    (now : ℕ) (randint : ℕ → ℕ) (j : Job) (e : Error)
    → ((n : ℕ) → randint n ≤ n)
    → ((at : DateTime) → e ≢ retry (some at))
    → (advance_job_status now randint j (some e)).job.status ≡ not_set
    → let at = instant (advance_job_status now randint j (some e)).job.at in
      (now + 3 * second ≤ at) × (at ≤ now + 1200 * second)
unfolding advance_job_status instant retry_at
advance_backoff now randint j abort small free h = ground arith
advance_backoff now randint j (retry (some at)) small free h = absurd (free at refl)
advance_backoff now randint j (retry none) small free h = ground (
  arith,
  exponential_backoff-le_cap randint small (j.retries + 1) default_cap,
  three-le-exponential_backoff randint (j.retries + 1) default_cap (omega arith) (omega arith),
)
advance_backoff now randint j other small free h = ground (
  arith,
  exponential_backoff-le_cap randint small (j.retries + 1) default_cap,
  three-le-exponential_backoff randint (j.retries + 1) default_cap (omega arith) (omega arith),
)

-- An exception gets out of `advance_job_status` exactly when retries are left and the run raised
-- `RetryException` with a naive date, and it is then the TypeError of the difference of two dates.
pub advance-raise_iff :
    (now : ℕ) (randint : ℕ → ℕ) (j : Job) (err : Option Error)
    → let result = (advance_job_status now randint j err).result in
      (((x : Exception) × (result ≡ raise x))
        ↔ ((wall : ℕ) × (err ≡ some (retry (some (naive wall)))) × (j.retries < j.max_retries)))
      × ((x : Exception) → result ≡ raise x → x ≡ type_error)
unfolding advance_job_status until retry_at
advance-raise_iff now randint j none = ((λ (x, h). cc, λ h. cc (h.1)), λ x h. cc)
advance-raise_iff now randint j (some abort) =
    ((λ (x, h). ground arith, λ h. cc (h.1)), λ x h. ground arith)
advance-raise_iff now randint j (some (retry none)) =
    ((λ (x, h). ground arith, λ h. cc (h.1)), λ x h. ground arith)
advance-raise_iff now randint j (some (retry (some (naive wall)))) =
    ((λ (x, h). (wall, refl, ground arith), λ h. (type_error, ground arith)), λ x h. ground arith)
advance-raise_iff now randint j (some (retry (some (aware at zone)))) =
    ((λ (x, h). ground arith, λ h. cc (h.1)), λ x h. ground arith)
advance-raise_iff now randint j (some other) =
    ((λ (x, h). ground arith, λ h. cc (h.1)), λ x h. ground arith)
