-- ===== src/Memory/Runs.antt =====
-- A run of the scheduler of spinach/brokers/memory.py: what each event keeps, the whole run and
-- `move_future_jobs` keep.
use spinach.Prelude.{
  ℕ, zero, suc, ◌≡◌, refl, String, List, [], ◌∷◌, Option, none, some, ltb, Bool-cases, inl, inr,
}
use spinach.Outcome.{Result, ok, raise}
use spinach.Action.{Always}
use spinach.Task.{Task}
use spinach.Memory.{Event, MemoryBroker}
use spinach.Memory.Future.{
  move_ready, schedule_periodic_task, run_scheduler, move_future_jobs, return_moved,
}

-- What is said of a loop on fuel, if the fuel suffices.
abbrev pub IfEnds :
    {A : Type 0}
    → (MemoryBroker → MemoryBroker → Type 0)
    → MemoryBroker
    → Option (Result A × MemoryBroker)
    → Type 0
IfEnds R b none = Unit
IfEnds R b (some (r, c)) = R b c

module _ (R : MemoryBroker → MemoryBroker → Type 0)
    (trans : (b c d : MemoryBroker) → R b c → R c d → R b d)
    (scheduled : (b : MemoryBroker) (es : List Event) → R b (record b { scheduler = es })) where
  IfEnds-trans :
      {A : Type 0} (b c : MemoryBroker) (o : Option (Result A × MemoryBroker))
      → R b c
      → IfEnds R c o
      → IfEnds R b o
  IfEnds-trans b c none h k = tt
  IfEnds-trans b c (some (r, d)) h k = trans b c d h k

  -- One event that is due: its job is created, and the rest of the run follows.
  run_event-IfEnds :
      (rest : MemoryBroker → Option (Result (Unit {0}) × MemoryBroker))
      → ((c : MemoryBroker) → IfEnds R c (rest c))
      → (r : Result (Unit {0})) (b c : MemoryBroker) → R b c
      → IfEnds R b (elim r [ ok u ↦ rest c | raise x ↦ some (raise x, c) ])
  run_event-IfEnds rest h (ok u) b c k = IfEnds-trans b c (rest c) k (h c)
  run_event-IfEnds rest h (raise x) b c k = k

  return_moved-IfEnds :
      (n : ℕ) (b : MemoryBroker) (o : Option (Result (Unit {0}) × MemoryBroker))
      → IfEnds R b o
      → IfEnds R b (return_moved n o)
  return_moved-IfEnds n b none h = tt
  return_moved-IfEnds n b (some (ok u, c)) h = h
  return_moved-IfEnds n b (some (raise e, c)) h = h

  module _ (now mono : ℕ) (uuid : ℕ → String)
      (creates : (n : ℕ) (t : Task) → Always R (schedule_periodic_task now mono (uuid n) t)) where
    run_scheduler-IfEnds :
        (fuel : ℕ) (b : MemoryBroker) (es : List Event)
        → b.scheduler ≡ es
        → IfEnds R b (run_scheduler fuel now mono uuid b)
    unfolding run_scheduler
    run_scheduler-IfEnds zero b es h = tt
    run_scheduler-IfEnds (suc fuel) b [] h =
        rw (h, run_scheduler) (scheduled (record b { scheduler = [] }) b.scheduler)
    run_scheduler-IfEnds (suc fuel) b (e ∷ es) h = elim (Bool-cases (ltb mono e.time)) [
      | inl later ↦
          rw (h, later, run_scheduler) (scheduled (record b { scheduler = e ∷ es }) b.scheduler)
      | inr due ↦
          let popped = record b { scheduler = es } in
          let (r, c) = schedule_periodic_task now mono (uuid fuel) e.task popped in
          rw (h, due, run_scheduler)
            (run_event-IfEnds (run_scheduler fuel now mono uuid)
              (λ d. run_scheduler-IfEnds fuel d d.scheduler refl) r
              (record b { scheduler = e ∷ es }) c
              (trans (record b { scheduler = e ∷ es }) popped c
                (scheduled (record b { scheduler = e ∷ es }) es) (creates fuel e.task popped)))
    ]

    move_then-IfEnds :
        (fuel : ℕ) (r : Result ℕ) (b c : MemoryBroker)
        → R b c
        → IfEnds R b (elim r [
          | raise e ↦ some (raise e, c)
          | ok n ↦ return_moved n (run_scheduler fuel now mono uuid c)
        ])
    move_then-IfEnds fuel (ok n) b c h =
        IfEnds-trans b c _ h
          (return_moved-IfEnds n c _ (run_scheduler-IfEnds fuel c c.scheduler refl))
    move_then-IfEnds fuel (raise e) b c h = h

    -- `move_future_jobs`, if its fuel suffices.
    pub move_future_jobs-IfEnds :
        (fuel : ℕ) (b : MemoryBroker)
        → R b (move_ready now b).1
        → IfEnds R b (move_future_jobs fuel now mono uuid b)
    unfolding move_future_jobs
    move_future_jobs-IfEnds fuel b moved =
        let (r, c) = move_ready now b in move_then-IfEnds fuel r b c moved
