-- ===== src/Memory/Future.antt =====
-- spinach/brokers/memory.py: moving the future jobs that are due to their queues, and creating the
-- jobs of periodic tasks.
use spinach.Prelude.{
  ℕ, zero, suc, ◌+◌, ◌*◌, ◌/◌, true, false, String, List, [], ◌∷◌, Option, none, some, ltb,
  if◌then◌else◌,
}
use spinach.Outcome.{Result, ok, raise}
use spinach.Action.{modify, pure, ◌>>=◌, ◌>>◌}
use spinach.Time.{aware, utc, second}
use spinach.Json.{Json}
use spinach.Job.{Job, queued, deserialize, should_start, serialize}
use spinach.Job
use spinach.Task.{Task}
use spinach.Memory.{Event, MemoryBroker, Method, put, enqueue_jobs, set_event}

-- The loop of `move_future_jobs` over the future jobs, from the first one on.
unfoldable pub move_due : ℕ → List Json → ℕ → Method ℕ
unfolding put deserialize should_start serialize
move_due now [] num_jobs_moved b = (ok num_jobs_moved, b)
move_due now (doc ∷ docs) num_jobs_moved b = elim (deserialize doc) [
  | raise e ↦ (raise e, b)
  | ok j ↦ elim (should_start now j) [
    | raise e ↦ (raise e, b)
    | ok false ↦ (ok num_jobs_moved, b)
    | ok true ↦
        move_due now docs (num_jobs_moved + 1)
          (record (put j.queue (serialize (record j { status = queued })) b) { future_jobs = docs })
  ]
]

-- The part of `move_future_jobs` under the lock, with the test `num_jobs_moved < 0` as it stands.
unfoldable pub move_ready : ℕ → Method ℕ
unfolding move_due
move_ready now = do
  num_jobs_moved ← λ b. move_due now b.future_jobs 0 b
  if ltb num_jobs_moved 0 then modify set_event else pure tt
  pure num_jobs_moved

-- `int(task.periodicity.total_seconds())`; the engine registers only tasks with a period.
unfoldable pub period : Task → ℕ
period t = elim t.periodicity [ none ↦ 0 | some us ↦ us / second ]

-- `sched.enter` with one priority: behind the events of the same time.
unfoldable pub enter : Event → List Event → List Event
enter e [] = e ∷ []
enter e (f ∷ fs) = if ltb e.time f.time then e ∷ f ∷ fs else f ∷ enter e fs

abbrev pub enter_task : ℕ → Task → MemoryBroker → MemoryBroker
enter_task mono t b = record b {
  scheduler = enter (record { time = mono + period t * second; task = t }) b.scheduler;
}

unfoldable pub register_periodic_tasks : ℕ → List Task → MemoryBroker → MemoryBroker
unfolding enter period
register_periodic_tasks mono [] b = b
register_periodic_tasks mono (t ∷ ts) b = register_periodic_tasks mono ts (enter_task mono t b)

abbrev pub periodic_job : ℕ → String → Task → Job
periodic_job now id t = Job.create id t.name t.queue (aware now utc) t.max_retries none none

-- `now` and `mono` are what the two clocks read, and `id` is the new job's.
unfoldable pub schedule_periodic_task : ℕ → ℕ → String → Task → Method (Unit {0})
unfolding enqueue_jobs enter period
schedule_periodic_task now mono id t = do
  enqueue_jobs now false (periodic_job now id t ∷ [])
  modify (enter_task mono t)

-- `self._scheduler.run(blocking=False)`: the events that are due, one after the other. It is on
-- fuel; `none` means that the fuel ran out.
unfoldable pub run_scheduler :
    ℕ → ℕ → ℕ → (ℕ → String) → MemoryBroker → Option (Result (Unit {0}) × MemoryBroker)
unfolding schedule_periodic_task
run_scheduler zero now mono uuid b = none
run_scheduler (suc fuel) now mono uuid b = elim b.scheduler [
  | [] ↦ some (ok tt, b)
  | e ∷ es ↦ elim (ltb mono e.time) [
    | true ↦ some (ok tt, b)
    | false ↦
        let (result, after) =
          schedule_periodic_task now mono (uuid fuel) e.task (record b { scheduler = es }) in
        elim result [
          | ok u ↦ run_scheduler fuel now mono uuid after
          | raise x ↦ some (raise x, after)
        ]
  ]
]

-- The number of jobs moved, after what the scheduler did.
abbrev pub return_moved :
    ℕ → Option (Result (Unit {0}) × MemoryBroker) → Option (Result ℕ × MemoryBroker)
return_moved n none = none
return_moved n (some (ok u, b)) = some (ok n, b)
return_moved n (some (raise e, b)) = some (raise e, b)

-- `move_future_jobs`, on the scheduler's fuel.
unfoldable pub move_future_jobs :
    ℕ → ℕ → ℕ → (ℕ → String) → MemoryBroker → Option (Result ℕ × MemoryBroker)
unfolding move_ready run_scheduler
move_future_jobs fuel now mono uuid b =
    let (moved, after) = move_ready now b in
    elim moved [
      | raise e ↦ some (raise e, after)
      | ok num_jobs_moved ↦ return_moved num_jobs_moved (run_scheduler fuel now mono uuid after)
    ]
