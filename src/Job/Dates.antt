-- ===== src/Job/Dates.antt =====
-- The date of a job that `Job.deserialize` of spinach/job.py made.
use spinach.Prelude.{◌≡◌, refl, subst}
use spinach.Outcome.{ok, >>=-eq-ok, ok-injective}
use spinach.Time.{DateTime, naive, aware, utc, instant, to_utc}
use spinach.Json.{Fields, Json, loads}
use spinach.Job.{
  Job, deserialize, create, read_at, new_job, get_value, as_num, as_str, as_list, as_dict, of_value,
}

to_utc-aware : (at : DateTime) → to_utc at ≡ aware (instant (to_utc at)) utc
unfolding to_utc instant
to_utc-aware (naive wall) = refl
to_utc-aware (aware i zone) = refl

abbrev IsUtc : Job → Type 0
IsUtc j = j.at ≡ aware (instant j.at) utc

new_job-IsUtc : (job_dict : Fields) (at : DateTime) {j : Job} → new_job job_dict at ≡ ok j → IsUtc j
unfolding new_job create
new_job-IsUtc job_dict at h =
    let (task_name_value, e0, h0) = >>=-eq-ok (get_value "task_name" job_dict) _ h in
    let (task_name, e1, h1) = >>=-eq-ok (as_str task_name_value) _ h0 in
    let (queue_value, e2, h2) = >>=-eq-ok (get_value "queue" job_dict) _ h1 in
    let (queue, e3, h3) = >>=-eq-ok (as_str queue_value) _ h2 in
    let (max_retries_value, e4, h4) = >>=-eq-ok (get_value "max_retries" job_dict) _ h3 in
    let (max_retries, e5, h5) = >>=-eq-ok (as_num max_retries_value) _ h4 in
    let (task_args_value, e6, h6) = >>=-eq-ok (get_value "task_args" job_dict) _ h5 in
    let (task_args, e7, h7) = >>=-eq-ok (as_list task_args_value) _ h6 in
    let (task_kwargs_value, e8, h8) = >>=-eq-ok (get_value "task_kwargs" job_dict) _ h7 in
    let (task_kwargs, e9, h9) = >>=-eq-ok (as_dict task_kwargs_value) _ h8 in
    subst IsUtc (ok-injective h9) (to_utc-aware at)

-- A job that was read from a text has a date in UTC.
pub deserialize-IsUtc : (doc : Json) {j : Job} → deserialize doc ≡ ok j → IsUtc j
unfolding deserialize
deserialize-IsUtc doc h =
    let (job_dict, e0, h0) = >>=-eq-ok (as_dict (loads doc)) _ h in
    let (at, e1, h1) = >>=-eq-ok (read_at job_dict) _ h0 in
    let (job, e2, h2) = >>=-eq-ok (new_job job_dict at) _ h1 in
    let (id_value, e3, h3) = >>=-eq-ok (get_value "id" job_dict) _ h2 in
    let (id, e4, h4) = >>=-eq-ok (as_str id_value) _ h3 in
    let (n_value, e5, h5) = >>=-eq-ok (get_value "status" job_dict) _ h4 in
    let (n, e6, h6) = >>=-eq-ok (as_num n_value) _ h5 in
    let (status, e7, h7) = >>=-eq-ok (of_value n) _ h6 in
    let (retries_value, e8, h8) = >>=-eq-ok (get_value "retries" job_dict) _ h7 in
    let (retries, e9, h9) = >>=-eq-ok (as_num retries_value) _ h8 in
    subst IsUtc (ok-injective h9) (new_job-IsUtc job_dict at e2)
