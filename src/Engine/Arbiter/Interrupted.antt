-- ===== src/Engine/Arbiter/Interrupted.antt =====
-- What becomes of the jobs of a round of the arbiter of spinach/engine.py if the workers are stopped before
-- they are submitted.
use spinach.Prelude.{ℕ, suc, ◌+◌, ◌≡◌, refl, Bool, true, String, List, ◌∷◌, some}
use spinach.Outcome.{ok, raise, runtime_error}
use spinach.Job.{Job}
use spinach.Task.{Task, Tasks, by_name}
use spinach.Task
use spinach.Worker.{Workers, submit_job}
use spinach.Broker.{Moment}
use spinach.Memory.Fetch.{get_jobs_from_queue}
use spinach.Memory.Copies.{stored, among}
use spinach.Memory.Transfers.{fetch-stored}
use spinach.Memory.AsBroker.{memory_broker}
use spinach.Engine.Arbiter.{State, to_workers, dispatch, receive, receive_all, fetch_jobs}

dispatch-known :
    (ts : Tasks) (now : ℕ) (randint : ℕ → ℕ) (j : Job) (t : Task)
    → Task.get ts (by_name j.task_name) ≡ ok t
    → dispatch ts now randint j ≡ to_workers (record j { task_func = some t.func })
unfolding dispatch
dispatch-known ts now randint j t known = rw (known, dispatch) refl

receive_all-stopped :
    (ts : Tasks) (now : ℕ) (randint : ℕ → ℕ) (fut : ℕ) (j : Job) (js : List Job) (t : Task)
    (w : Workers)
    → w.must_stop ≡ true
    → Task.get ts (by_name j.task_name) ≡ ok t
    → receive_all ts now randint fut (j ∷ js) w ≡ (raise runtime_error, w)
unfolding receive_all receive submit_job
receive_all-stopped ts now randint fut j js t w stopped known =
    rw (dispatch-known ts now randint j t known, stopped) refl

-- If the workers are stopped after the arbiter looked at their slots, and then it fetches jobs from a memory
-- broker of which the first has a task that is known: the round raises RuntimeError, the workers
-- are as they were, and the jobs that were fetched, whatever their id, are in the broker no more.
pub round_interrupted :
    (id : String) (fuel : ℕ) (ts : Tasks) (queue : String) (stop_when_queue_empty : Bool) (fut : ℕ)
    (m : Moment) (slots : ℕ) (s : State (memory_broker fuel)) (w : Workers) (t : Task) (j : Job)
    (js : List Job)
    → s.lifecycle.workers ≡ some w
    → w.must_stop ≡ true
    → (get_jobs_from_queue queue (suc slots) s.store).0 ≡ ok (j ∷ js)
    → Task.get ts (by_name j.task_name) ≡ ok t
    → (after : State (memory_broker fuel)) × (fetch_jobs
          (memory_broker fuel)
          ts
          queue
          stop_when_queue_empty
          fut
          m
          (suc slots)
          s
        ≡ some (raise runtime_error, after))
      × (after.lifecycle.workers ≡ some w)
      × (stored id after.store + among id (j ∷ js) ≡ stored id s.store)
unfolding fetch_jobs
round_interrupted id fuel ts queue stop_when_queue_empty fut m slots s w t j js works stopped
      fetched known =
    let c = (get_jobs_from_queue queue (suc slots) s.store).1 in
    (
      record { store = c; lifecycle = record s.lifecycle { workers = some w } },
      rw (fetched, works, receive_all-stopped ts m.now m.randint fut j js t w stopped known) refl,
      refl,
      fetch-stored id s.store queue (suc slots) (j ∷ js) fetched,
    )
