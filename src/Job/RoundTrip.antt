-- ===== src/Job/RoundTrip.antt =====
-- `Job.serialize` and `Job.deserialize` of spinach/job.py are inverse on what a job carries.
use spinach.Prelude.{ℕ, ◌+◌, ◌*◌, ◌^◌, ◌<◌, ◌%◌, ◌≡◌, refl, ◌∙◌, none, arith}
use spinach.Outcome.{ok}
use spinach.Time.{aware, utc, second, instant, from_parts, int_timestamp}
use spinach.Time.Timestamp.{int_timestamp-eq}
use spinach.Json.{dump_items, load_items, dump_fields, load_fields}
use spinach.Json.RoundTrip.{
  IsPlainItems, IsPlainFields, load_items-dump_items, load_fields-dump_fields,
}
use spinach.Job.{
  JobStatus, not_set, waiting, queued, running, succeeded, failed, value, of_value, Job, serialize,
  deserialize,
}

-- Seconds and the microseconds of a time are a time again.
from_parts-of_mod :
    (seconds i : ℕ)
    → from_parts seconds (i % second) ≡ ok (aware (seconds * second + i % second) utc)
unfolding from_parts
from_parts-of_mod seconds i = ground arith

pub of_value-value : (s : JobStatus) → of_value (value s) ≡ ok s
unfolding of_value value
of_value-value not_set = refl
of_value-value waiting = refl
of_value-value queued = refl
of_value-value running = refl
of_value-value succeeded = refl
of_value-value failed = refl

-- Every serialized job is read back, with its arguments as JSON carries them, and at the second that
-- the float of its timestamp falls into.
pub deserialize-serialize_loads :
    (j : Job)
    → deserialize (serialize j)
      ≡ ok (record j {
        at = aware (int_timestamp (instant j.at) * second + instant j.at % second) utc;
        task_args = load_items (dump_items j.task_args);
        task_kwargs = load_fields (dump_fields j.task_kwargs);
        task_func = none;
      })
unfolding deserialize serialize
deserialize-serialize_loads j =
    rw (from_parts-of_mod (int_timestamp (instant j.at)) (instant j.at), of_value-value j.status)

whole_again : (i : ℕ) → i < 2 ^ 34 * second → int_timestamp i * second + i % second ≡ i
whole_again i h = rw (int_timestamp-eq i h) (omega arith)

-- If a job is to start before `2 ^ 34` seconds after the epoch (in the year 2514), its arguments have
-- no tuple inside, and the keys of their dicts are in order, the serialized job is read back as it
-- was, with `at` in UTC and without its task function.
pub deserialize-serialize :
    (j : Job)
    → instant j.at < 2 ^ 34 * second
    → IsPlainItems j.task_args
    → IsPlainFields j.task_kwargs
    → deserialize (serialize j) ≡ ok (record j { at = aware (instant j.at) utc; task_func = none })
deserialize-serialize j early pa pk =
    deserialize-serialize_loads j
    ∙ rw
        (
          whole_again (instant j.at) early,
          load_items-dump_items j.task_args pa,
          load_fields-dump_fields j.task_kwargs pk,
        )
        refl
