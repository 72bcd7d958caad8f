-- ===== src/Memory/Moves.antt =====
-- Moving future jobs and creating periodic ones (spinach/brokers/memory.py) leaves the concurrency
-- counts alone and keeps every stored text readable.
use spinach.Prelude.{ℕ, ◌+◌, refl, true, false, String, List, [], ◌∷◌, ltb, Bool-cases, inl, inr}
use spinach.Outcome.{Result-cases}
use spinach.Action.{modify, Always, >>=-Always}
use spinach.Json.{Json}
use spinach.Job.{Job, queued, serialize, deserialize, should_start}
use spinach.Task.{Task}
use spinach.Memory.{Event, MemoryBroker, put, set_queue, enqueue_jobs}
use spinach.Memory.Future.{
  move_due, move_ready, schedule_periodic_task, move_future_jobs, enter_task,
  register_periodic_tasks, periodic_job,
}
use spinach.Memory.Order.{IsFuture}
use spinach.Memory.Runs.{IfEnds, move_future_jobs-IfEnds}
use spinach.Memory.Valid.{
  IsSound, Quiet, Quiet-refl, Quiet-trans, put-IsSound, enqueue_jobs-Quiet, set_event-Quiet,
}

module _ (now : ℕ) where
  move_one-Quiet :
      (b : MemoryBroker) (name : String) (j : Job) (docs : List Json)
      → (IsSound b → IsFuture docs)
      → Quiet b (record (put name (serialize j) b) { future_jobs = docs })
  unfolding put set_queue
  move_one-Quiet b name j docs v = record {
    max_same = refl;
    cur_same = refl;
    sound =
        λ s. record { queues_valid = (put-IsSound b name j s).queues_valid; future_valid = v s };
  }

  move_due-Quiet :
      (docs : List Json) (n : ℕ) (b : MemoryBroker)
      → (IsSound b → IsFuture docs)
      → Quiet b (move_due now docs n b).1
  unfolding move_due
  move_due-Quiet [] n b v = Quiet-refl b
  move_due-Quiet (doc ∷ docs) n b v = elim (Result-cases (deserialize doc)) [
    | inr (x, e) ↦ rw (e, move_due) (Quiet-refl b)
    | inl (j, e) ↦ elim (Result-cases (should_start now j)) [
      | inr (x, f) ↦ rw (e, f, move_due) (Quiet-refl b)
      | inl (false, f) ↦ rw (e, f, move_due) (Quiet-refl b)
      | inl (true, f) ↦
          rw (e, f, move_due)
            (Quiet-trans b _ _
              (move_one-Quiet b j.queue (record j { status = queued }) docs
                (λ s. ((v s).0.1, (v s).1.1)))
              (move_due-Quiet docs (n + 1) _ (λ s. s.future_valid)))
    ]
  ]

  pub move_ready-Quiet : Always Quiet (move_ready now)
  unfolding move_ready
  move_ready-Quiet =
      >>=-Always Quiet Quiet-trans (λ b. move_due now b.future_jobs 0 b) _
        (λ b. move_due-Quiet b.future_jobs 0 b (λ s. s.future_valid))
        (λ n b. elim (Bool-cases (ltb n 0)) [
          | inl e ↦ rw e (set_event-Quiet b)
          | inr e ↦ rw e (Quiet-refl b)
        ])

  scheduler-Quiet : (b : MemoryBroker) (es : List Event) → Quiet b (record b { scheduler = es })
  scheduler-Quiet b es = record {
    max_same = refl;
    cur_same = refl;
    sound = λ s. record { queues_valid = s.queues_valid; future_valid = s.future_valid };
  }

  module _ (mono : ℕ) where
    schedule_periodic_task-Quiet :
        (id : String) (t : Task) → Always Quiet (schedule_periodic_task now mono id t)
    unfolding schedule_periodic_task
    schedule_periodic_task-Quiet id t =
        >>=-Always Quiet Quiet-trans (enqueue_jobs now false (periodic_job now id t ∷ []))
          (λ js. modify (enter_task mono t)) (enqueue_jobs-Quiet now (periodic_job now id t ∷ []))
          (λ js b. scheduler-Quiet b (enter_task mono t b).scheduler)

    -- `move_future_jobs`, if its fuel suffices.
    pub move_future_jobs-Quiet :
        (uuid : ℕ → String) (fuel : ℕ) (b : MemoryBroker)
        → IfEnds Quiet b (move_future_jobs fuel now mono uuid b)
    move_future_jobs-Quiet uuid fuel b =
        move_future_jobs-IfEnds Quiet Quiet-trans scheduler-Quiet now mono uuid
          (λ n t. schedule_periodic_task-Quiet (uuid n) t) fuel b (move_ready-Quiet b)

pub register_periodic_tasks-Quiet :
    (mono : ℕ) (ts : List Task) → (b : MemoryBroker) → Quiet b (register_periodic_tasks mono ts b)
unfolding register_periodic_tasks
register_periodic_tasks-Quiet mono [] b = Quiet-refl b
register_periodic_tasks-Quiet mono (t ∷ ts) b =
    Quiet-trans b (enter_task mono t b) _ (scheduler-Quiet 0 b (enter_task mono t b).scheduler)
      (register_periodic_tasks-Quiet mono ts (enter_task mono t b))
