-- ===== src/Memory/Scheduling.antt =====
-- The scheduler's run in `move_future_jobs` of spinach/brokers/memory.py ends.
use spinach.Prelude.{
  ℕ, zero, suc, ◌+◌, ◌*◌, ◌≤◌, ◌<◌, ◌≡◌, refl, sym, ap, subst, true, false, String, List, [], ◌∷◌,
  Option, none, some, arith, Bool-cases, All, ltb, if◌then◌else◌, inl, inr,
}
use spinach.Outcome.{Result, ok, raise, Result-cases}
use spinach.Action.{modify, and_then, Always, >>=-Always}
use spinach.Time.{second}
use spinach.Json.{Json}
use spinach.Job.{Job, deserialize, should_start}
use spinach.Task.{Task}
use spinach.Memory.{Event, MemoryBroker, put, set_queue, enqueue_jobs}
use spinach.Memory.Unscheduled.{Same, Same-trans, enqueue_jobs-Same}
use spinach.Memory.Future.{
  move_due, move_ready, period, enter, enter_task, periodic_job, schedule_periodic_task,
  run_scheduler, return_moved, move_future_jobs,
}

module _ (mono : ℕ) where
  -- How many events are due.
  unfoldable pub due_events : List Event → ℕ
  due_events [] = 0
  due_events (e ∷ es) = (if ltb mono e.time then 0 else 1) + due_events es

  enter-due_events :
      (e : Event) (es : List Event) → mono < e.time → due_events (enter e es) ≡ due_events es
  unfolding enter due_events
  enter-due_events e [] h = ground arith
  enter-due_events e (f ∷ fs) h = ground (arith, enter-due_events e fs h)

-- The events are of tasks with a period of a second or more.
abbrev pub IsPeriodic : List Event → Type 0
IsPeriodic es = All (λ e. 1 ≤ period e.task) es

enter-IsPeriodic :
    (e : Event) (es : List Event) → 1 ≤ period e.task → IsPeriodic es → IsPeriodic (enter e es)
unfolding enter
enter-IsPeriodic e [] h p = (h, tt)
enter-IsPeriodic e (f ∷ fs) h p = elim (Bool-cases (ltb e.time f.time)) [
  | inl t ↦ rw t (h, p)
  | inr t ↦ rw t (p.0, enter-IsPeriodic e fs h p.1)
]

abbrev Ends : {A : Type 0} → Option A → Type 0
Ends {A} o = (a : A) × (o ≡ some a)

module _ (now mono : ℕ) where
  abbrev next_event : Task → Event
  next_event t = record { time = mono + period t * second; task = t }

  then_enter :
      (t : Task) (es : List Event) (r : Result (List Job)) (c : MemoryBroker)
      → c.scheduler ≡ es
      → (u : Unit) → (and_then r (λ js. modify (enter_task mono t)) c).0 ≡ ok u
      → (and_then r (λ js. modify (enter_task mono t)) c).1.scheduler ≡ enter (next_event t) es
  then_enter t es (ok js) c h u e = ap (enter (next_event t)) h
  then_enter t es (raise x) c h u e = cc

  -- If the job of a periodic task is created, the task's next event is entered.
  schedule-scheduler :
      (id : String) (t : Task) (b : MemoryBroker) (u : Unit)
      → (schedule_periodic_task now mono id t b).0 ≡ ok u
      → (schedule_periodic_task now mono id t b).1.scheduler ≡ enter (next_event t) b.scheduler
  unfolding schedule_periodic_task
  schedule-scheduler id t b u e =
      let jobs = periodic_job now id t ∷ [] in
      let (r, c) = enqueue_jobs now false jobs b in
      then_enter t b.scheduler r c (enqueue_jobs-Same now false jobs b) u e

  run_event-Ends :
      (rest : MemoryBroker → Option (Result (Unit {0}) × MemoryBroker)) (r : Result (Unit {0}))
      (c : MemoryBroker)
      → ((u : Unit) → r ≡ ok u → Ends (rest c))
      → Ends (elim r [ ok u ↦ rest c | raise x ↦ some (raise x, c) ])
  run_event-Ends rest (ok u) c h = h u refl
  run_event-Ends rest (raise x) c h = ((raise x, c), refl)

  later_than : (n : ℕ) → 1 ≤ n → mono < mono + n * second
  later_than n h = omega arith

  run_scheduler-Ends :
      (uuid : ℕ → String) (fuel : ℕ) (b : MemoryBroker) (es : List Event)
      → b.scheduler ≡ es
      → IsPeriodic es
      → due_events mono es < fuel
      → Ends (run_scheduler fuel now mono uuid b)
  unfolding run_scheduler due_events
  run_scheduler-Ends uuid zero b es h p lt = absurd (omega arith)
  run_scheduler-Ends uuid (suc fuel) b [] h p lt = rw (h, run_scheduler) ((ok tt, b), refl)
  run_scheduler-Ends uuid (suc fuel) b (e ∷ es) h p lt = elim (Bool-cases (ltb mono e.time)) [
    | inl later ↦ rw (h, later, run_scheduler) ((ok tt, b), refl)
    | inr due ↦
        let popped = record b { scheduler = es } in
        let (r, c) = schedule_periodic_task now mono (uuid fuel) e.task popped in
        rw (h, due, run_scheduler)
          (run_event-Ends (run_scheduler fuel now mono uuid) r c (λ u q.
            run_scheduler-Ends uuid fuel c (enter (next_event e.task) es)
              (schedule-scheduler (uuid fuel) e.task popped u q)
              (enter-IsPeriodic (next_event e.task) es p.0 p.1)
              (ground (
                arith,
                enter-due_events mono (next_event e.task) es (later_than (period e.task) p.0),
              ))))
  ]

  return_moved-Ends :
      (n : ℕ) (o : Option (Result (Unit {0}) × MemoryBroker)) → Ends o → Ends (return_moved n o)
  return_moved-Ends n none h = absurd (cc h.1)
  return_moved-Ends n (some (ok u, b)) h = ((ok n, b), refl)
  return_moved-Ends n (some (raise e, b)) h = ((raise e, b), refl)

  move_due-Same : (docs : List Json) (n : ℕ) → Always Same (move_due now docs n)
  unfolding move_due put set_queue
  move_due-Same [] n b = refl
  move_due-Same (doc ∷ docs) n b = elim (Result-cases (deserialize doc)) [
    | inr (x, e) ↦ rw (e, move_due) refl
    | inl (j, e) ↦ elim (Result-cases (should_start now j)) [
      | inr (x, f) ↦ rw (e, f, move_due) refl
      | inl (false, f) ↦ rw (e, f, move_due) refl
      | inl (true, f) ↦ rw (e, f, move_due) (move_due-Same docs (n + 1) _)
    ]
  ]

  pub move_ready-Same : Always Same (move_ready now)
  unfolding move_ready
  move_ready-Same =
      >>=-Always Same Same-trans (λ b. move_due now b.future_jobs 0 b) _
        (λ b. move_due-Same b.future_jobs 0 b)
        (λ n b. elim (Bool-cases (ltb n 0)) [ inl e ↦ rw e refl | inr e ↦ rw e refl ])

  move_then-Ends :
      (uuid : ℕ → String) (fuel : ℕ) (r : Result ℕ) (c : MemoryBroker)
      → IsPeriodic c.scheduler
      → due_events mono c.scheduler < fuel
      → Ends (elim r [
        | raise e ↦ some (raise e, c)
        | ok n ↦ return_moved n (run_scheduler fuel now mono uuid c)
      ])
  move_then-Ends uuid fuel (ok n) c p lt =
      return_moved-Ends n _ (run_scheduler-Ends uuid fuel c c.scheduler refl p lt)
  move_then-Ends uuid fuel (raise e) c p lt = ((raise e, c), refl)

-- If every periodic task has a period of a second or more, `move_future_jobs` ends once its fuel is
-- more than the number of events that are due.
pub move_future_jobs_ends :
    (now mono : ℕ) (uuid : ℕ → String) (fuel : ℕ) (b : MemoryBroker)
    → IsPeriodic b.scheduler
    → due_events mono b.scheduler < fuel
    → (out : Result ℕ × MemoryBroker) × (move_future_jobs fuel now mono uuid b ≡ some out)
unfolding move_future_jobs
move_future_jobs_ends now mono uuid fuel b p lt =
    let same = move_ready-Same now mono b in
    let (r, c) = move_ready now b in
    move_then-Ends now mono uuid fuel r c (subst IsPeriodic (sym same) p)
      (subst (λ es. due_events mono es < fuel) (sym same) lt)
