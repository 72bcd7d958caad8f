-- ===== src/Memory/Waiting.antt =====
-- How long the arbiter waits: `wait_for_event` and `next_future_job_delta` of spinach/brokers/base.py,
-- and `next_future_periodic_delta` of spinach/brokers/memory.py. Times are in microseconds.
pub mod InTime
use spinach.Prelude.{
  ℕ, ◌+◌, ◌*◌, ◌-◌, ◌/◌, ℤ, pos, leb_ℤ, sub_ℕ, Bool, true, false, ◌||◌, String, List, [], ◌∷◌, map,
  Option, none, some, ltb, if◌then◌else◌,
}
use spinach.Outcome.{Result, ok, raise, ◌>>=◌}
use spinach.Time.{second, until}
use spinach.Job.{Job, deserialize}
use spinach.Memory.{Event, MemoryBroker}

-- The constant of spinach/const.py.
abbrev pub wait_for_event_max : ℕ
wait_for_event_max = 60 * second

unfoldable pub get_next_future_job : MemoryBroker → Result (Option Job)
unfolding deserialize
get_next_future_job b = elim b.future_jobs [
  | [] ↦ ok none
  | doc ∷ docs ↦ deserialize doc >>= λ j. ok (some j)
]

abbrev pub delta_of : ℕ → Option Job → Result (Option ℤ)
delta_of now none = ok none
delta_of now (some j) = until now j.at >>= λ delta. ok (some delta)

unfoldable pub next_future_job_delta : ℕ → MemoryBroker → Result (Option ℤ)
unfolding get_next_future_job until
next_future_job_delta now b = get_next_future_job b >>= delta_of now

unfoldable pub next_future_periodic_delta : ℕ → MemoryBroker → Option ℕ
next_future_periodic_delta mono b = elim b.scheduler [
  | [] ↦ none
  | e ∷ es ↦ some (if ltb e.time mono then 0 else e.time - mono)
]

-- The times in seconds and the names of the events, in their order.
unfoldable pub inspect_periodic_tasks : MemoryBroker → List (ℕ × String)
inspect_periodic_tasks b = map (λ e. (e.time / second, e.task.name)) b.scheduler

abbrev pub min_ℤ : ℤ → ℤ → ℤ
min_ℤ a b = if leb_ℤ a b then a else b

abbrev pub or_max : Option ℤ → ℤ
or_max none = pos wait_for_event_max
or_max (some delta) = delta

abbrev pub or_max_ℕ : Option ℕ → ℤ
or_max_ℕ none = pos wait_for_event_max
or_max_ℕ (some delta) = pos delta

unfoldable pub timeout_of : Option ℤ → Option ℕ → ℤ
timeout_of job_delta periodic_delta =
    min_ℤ (min_ℤ (or_max job_delta) (or_max_ℕ periodic_delta)) (pos wait_for_event_max)

-- `wait_for_event`, with the timeout that it waits for at most. `happens` says whether the event is
-- set while it waits; once it is set, it is cleared.
unfoldable pub wait_for_event : ℕ → ℕ → Bool → MemoryBroker → Result ℤ × MemoryBroker
unfolding next_future_job_delta next_future_periodic_delta timeout_of
wait_for_event now mono happens b = elim (next_future_job_delta now b) [
  | raise e ↦ (raise e, b)
  | ok job_delta ↦ (
    ok (timeout_of job_delta (next_future_periodic_delta mono b)),
    record b {
      something_happened = if b.something_happened || happens then false else b.something_happened;
    },
  )
]
