-- ===== src/Job/Advance/Attempts.antt =====
-- How often a job runs.
use spinach.Prelude.{ℕ, ◌+◌, ◌-◌, ◌≤◌, ◌<◌, ◌≡◌, ◌⊎◌, List, [], ◌∷◌, Option, length, arith}
use spinach.Job.{JobStatus, not_set, running, succeeded, failed, Job}
use spinach.Job.Advance.{Error, advance_job_status}
use spinach.Job.Advance.Outcomes.{advance_cases}

abbrev pub IsOver : JobStatus → Type 0
IsOver s = (s ≡ succeeded) ⊎ (s ≡ failed)

-- The job picked again by a worker while it comes back as not set: `ends` says when each run ends,
-- and how. The result is the job after the last run, and the number of runs.
unfoldable pub run_attempts : (ℕ → ℕ) → List (ℕ × Option Error) → Job → Job × ℕ
run_attempts randint [] j = (j, 0)
run_attempts randint ((now, err) ∷ ends) j =
    let after = (advance_job_status now randint (record j { status = running }) err).job in
    let (last, runs) = run_attempts randint ends after in
    elim after.status [ not_set ↦ (last, runs + 1) | _ ↦ (after, 1) ]

-- A job runs at most `max_retries - retries + 1` times, and when that many run ends are given, the last
-- one leaves it succeeded or failed.
pub run_attempts_bounded :
    (randint : ℕ → ℕ) (ends : List (ℕ × Option Error)) (j : Job)
    → let (last, runs) = run_attempts randint ends j in
      (runs ≤ j.max_retries - j.retries + 1)
      × (j.max_retries - j.retries < length ends → IsOver last.status)
unfolding run_attempts
run_attempts_bounded randint [] j = (omega arith, λ h. absurd (omega arith))
run_attempts_bounded randint ((now, err) ∷ ends) j =
    let start = record j { status = running } in
    ground (
      arith,
      advance_cases now randint start err,
      run_attempts_bounded randint ends (advance_job_status now randint start err).job,
    )
