-- ===== src/Samples/Jobs.antt =====
-- Jobs of spinach/job.py and delays of spinach/utils.py.
use spinach.Prelude.{
  ℕ, zero, suc, ◌+◌, ◌-◌, ◌*◌, ◌/◌, ◌^◌, ◌≤◌, ◌<◌, min, ◌≡◌, refl, ◌↔◌, ◌⊎◌, ◌≢◌, List, [], ◌∷◌,
  Option, none, some, All, arith,
}
use spinach.Outcome.{Exception, ok, raise, type_error}
use spinach.Time.{naive, aware, utc, second, instant, int_timestamp, ceil_timestamp, to_utc}
use spinach.Json.{nil, cons, end, field, num, str, list}
use spinach.Job.{Job, not_set, failed, create, serialize, deserialize}
use spinach.Job.RoundTrip.{deserialize-serialize}
use spinach.Job.Advance.{Error, abort, retry, other, advance_job_status}
use spinach.Job.Advance.Outcomes.{
  advance-failed_iff, advance-not_set_iff, advance_backoff, advance-raise_iff,
}
use spinach.Job.Advance.Attempts.{IsOver, run_attempts, run_attempts_bounded}
use spinach.Utils.{
  exponential_backoff, Call, returns, listed, Retried, call_with_retry, Round, raised, returned,
  stops, run_forever,
}
use spinach.Utils.Backoff.{exponential_backoff_bounds, run_forever_delays}
use spinach.Utils.Retry.{Ends, call_with_retry-Ends}

abbrev half : ℕ → ℕ
half n = n / 2

half-le : (n : ℕ) → half n ≤ n
half-le n = omega arith

abbrev mail : Job
mail =
    create "id-1" "send_mail" "mails" (aware 5_000_007 utc) 2
      (some (cons (str "a@b.c") (cons (list (cons (num 1) nil)) nil)))
      (some (field "cc" (num 0) (field "to" (num 1) end)))

mail_back : deserialize (serialize mail) ≡ ok mail
unfolding deserialize serialize create
mail_back = refl

-- The last microsecond of `datetime`, and one in the year 2600, are rounded up to the next second.
late_rounds_up :
    (int_timestamp 253_402_300_799_999_999 ≡ 253_402_300_800)
    × (int_timestamp 19_880_899_200_999_999 ≡ 19_880_899_201)
    × (int_timestamp 5_000_999_999 ≡ 5_000)
unfolding int_timestamp
late_rounds_up = (refl, refl, refl)

ceil_late :
    (ceil_timestamp 5_000_001 ≡ 6) × (ceil_timestamp 19_880_899_200_000_001 ≡ 19_880_899_200)
unfolding ceil_timestamp
ceil_late = (refl, refl)

mail_early : instant mail.at < 2 ^ 34 * second
unfolding create instant to_utc
mail_early = omega arith

deserialize-serialize_example :
    deserialize (serialize mail)
    ≡ ok (record mail { at = aware (instant mail.at) utc; task_func = none })
unfolding create
deserialize-serialize_example =
    deserialize-serialize mail mail_early (tt, ((tt, tt), tt)) (tt, refl, (tt, tt, tt))

advance-failed_iff_example :
    ((advance_job_status 9 half mail (some abort)).job.status ≡ failed)
    ↔ ((e : Error) × (some abort ≡ some e) × ((e ≡ abort) ⊎ (2 ≤ 0)))
unfolding create
advance-failed_iff_example = advance-failed_iff 9 half mail (some abort)

advance-not_set_iff_example :
    let after = (advance_job_status 9 half mail (some other)).job in
    ((after.status ≡ not_set) ↔ ((e : Error) × (some other ≡ some e) × (e ≢ abort) × (0 < 2)))
    × (after.status ≡ not_set → (after.retries ≡ 0 + 1) × (after.retries ≤ after.max_retries))
unfolding create
advance-not_set_iff_example = advance-not_set_iff 9 half mail (some other)

advance_backoff_example :
    let at = instant (advance_job_status 9 half mail (some other)).job.at in
    (9 + 3 * second ≤ at) × (at ≤ 9 + 1200 * second)
unfolding advance_job_status create
advance_backoff_example = advance_backoff 9 half mail other half-le (λ at e. cc) refl

advance-raise_iff_example :
    let result = (advance_job_status 9 half mail (some (retry (some (naive 7))))).result in
    (((x : Exception) × (result ≡ raise x))
      ↔ ((wall : ℕ) × (some (retry (some (naive 7))) ≡ some (retry (some (naive wall)))) × (0 < 2)))
    × ((x : Exception) → result ≡ raise x → x ≡ type_error)
unfolding create
advance-raise_iff_example = advance-raise_iff 9 half mail (some (retry (some (naive 7))))

abbrev three_errors : List (ℕ × Option Error)
three_errors = (10, some other) ∷ (20, some (retry none)) ∷ (30, some other) ∷ []

three_runs : (run_attempts half three_errors mail).1 ≡ 3
unfolding run_attempts advance_job_status create
three_runs = refl

run_attempts_bounded_example :
    let (last, runs) = run_attempts half three_errors mail in
    (runs ≤ 2 - 0 + 1) × (2 - 0 < 3 → IsOver last.status)
unfolding create
run_attempts_bounded_example = run_attempts_bounded half three_errors mail

exponential_backoff_bounds_example :
    (min (3 * 2 ^ 4) 60 / 2 ≤ exponential_backoff half 4 60)
    × (exponential_backoff half 4 60 ≤ min (3 * 2 ^ 4) 60)
exponential_backoff_bounds_example = exponential_backoff_bounds half half-le 4 60

abbrev some_rounds : List Round
some_rounds = raised 3 ∷ returned ∷ raised 900 ∷ stops ∷ []

some_delays : run_forever half 0 some_rounds ≡ 4 ∷ 4 ∷ []
unfolding run_forever
some_delays = refl

run_forever_delays_example :
    All (λ delay. (3 ≤ delay) × (delay ≤ 120)) (run_forever half 0 some_rounds)
run_forever_delays_example = run_forever_delays half half-le 0 some_rounds

-- A function that fails twice.
abbrev third_time : ℕ → Call ℕ
third_time zero = listed
third_time (suc zero) = listed
third_time n = returns n

call_with_retry-Ends_example :
    (r : Retried ℕ) × (call_with_retry half third_time 5 ≡ some r) × Ends third_time 5 0 r
call_with_retry-Ends_example = call_with_retry-Ends half third_time 5 half-le
