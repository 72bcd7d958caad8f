-- ===== src/Job/Advance.antt =====
-- `advance_job_status` of spinach/job.py: what becomes of a job after a run of its task function.
-- The clock and `random.randint` are arguments; log lines are left out, but not the exception that
-- their arguments can raise.
pub mod Outcomes
pub mod Attempts
use spinach.Prelude.{
  ℕ, ◌+◌, ◌*◌, ◌≡◌, List, [], ◌∷◌, Option, none, some, Bool, true, false, if◌then◌else◌,
}
use spinach.Outcome.{Result, ok, ◌>>=◌}
use spinach.Time.{DateTime, aware, utc, second, until}
use spinach.Utils.{exponential_backoff, default_cap}
use spinach.Job.{not_set, succeeded, failed, Job, should_retry}

-- The exception that a run raised, by its class.
pub data Error : Type 0 where
  abort : Error
  retry : (at : Option DateTime) → Error
  other : Error

-- The signals that are sent, with their job.
pub data Signal : Type 0 where
  job_schedule_retry job_failed : Job → Error → Signal

pub record Advanced : Type 0 where
  pub job : Job
  pub sent : List Signal
  pub result : Result (Unit {0})

-- `if isinstance(err, AbortException): job.retries = job.max_retries`
unfoldable pub cancel_retries : Error → Job → Job
cancel_retries abort j = record j { retries = j.max_retries }
cancel_retries _ j = j

-- The next `at`: the one that the exception asks for, or a backoff after `now`.
unfoldable pub retry_at : ℕ → (ℕ → ℕ) → Error → ℕ → DateTime
unfolding exponential_backoff
retry_at now randint (retry (some at)) retries = at
retry_at now randint _ retries =
    aware (now + exponential_backoff randint retries default_cap * second) utc

unfoldable pub schedule_retry : ℕ → (ℕ → ℕ) → Error → Job → Advanced
unfolding retry_at until
schedule_retry now randint err j =
    let again = record j {
      status = not_set;
      at = retry_at now randint err (j.retries + 1);
      retries = j.retries + 1;
    } in
    record {
      job = again;
      sent = job_schedule_retry again err ∷ [];
      result = until now again.at >>= λ _. ok tt;
    }

unfoldable pub fail : Error → Job → Advanced
fail err j =
    let over = record j { status = failed } in
    record { job = over; sent = job_failed over err ∷ []; result = ok tt }

unfoldable pub advance_job_status : ℕ → (ℕ → ℕ) → Job → Option Error → Advanced
unfolding cancel_retries schedule_retry fail should_retry
advance_job_status now randint j none = record {
  job = record j { status = succeeded };
  sent = [];
  result = ok tt;
}
advance_job_status now randint j (some err) =
    let k = cancel_retries err j in
    if should_retry k then schedule_retry now randint err k else fail err k
