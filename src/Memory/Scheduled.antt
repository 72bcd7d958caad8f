-- ===== src/Memory/Scheduled.antt =====
-- The scheduler of spinach/brokers/memory.py holds its events in the order of their times.
use spinach.Prelude.{
  ℕ, zero, suc, ◌+◌, ◌*◌, ◌≤◌, ◌≡◌, refl, sym, subst, false, String, List, [], ◌∷◌, Option, none,
  some, arith, Bool-cases, All, ltb, inl, inr,
}
use spinach.Outcome.{Result, ok, raise}
use spinach.Action.{modify, and_then}
use spinach.Time.{second}
use spinach.Job.{Job}
use spinach.Task.{Task}
use spinach.Memory.{Event, MemoryBroker, enqueue_jobs}
use spinach.Memory.Future.{
  move_ready, period, enter, enter_task, periodic_job, register_periodic_tasks,
  schedule_periodic_task, run_scheduler, return_moved, move_future_jobs,
}
use spinach.Memory.Runs.{IfEnds}
use spinach.Memory.Unscheduled.{enqueue_jobs-Same}
use spinach.Memory.Scheduling.{move_ready-Same}

abbrev pub IsScheduled : List Event → Type 0
IsScheduled [] = Unit
IsScheduled (e ∷ es) = All (λ f. e.time ≤ f.time) es × IsScheduled es

not_before :
    (a b : ℕ) (es : List Event) → a ≤ b → All (λ f. b ≤ f.time) es → All (λ f. a ≤ f.time) es
not_before a b [] h k = tt
not_before a b (e ∷ es) h k = (omega (arith, h, k.0), not_before a b es h k.1)

enter-All :
    (a : ℕ) (e : Event) (es : List Event)
    → a ≤ e.time
    → All (λ f. a ≤ f.time) es
    → All (λ f. a ≤ f.time) (enter e es)
unfolding enter
enter-All a e [] h k = (h, tt)
enter-All a e (f ∷ fs) h k = elim (Bool-cases (ltb e.time f.time)) [
  | inl t ↦ rw (t) (h, k)
  | inr t ↦ rw (t) (k.0, enter-All a e fs h k.1)
]

enter-IsScheduled : (e : Event) (es : List Event) → IsScheduled es → IsScheduled (enter e es)
unfolding enter
enter-IsScheduled e [] s = (tt, tt)
enter-IsScheduled e (f ∷ fs) (first, s) = elim (Bool-cases (ltb e.time f.time)) [
  | inl t ↦
      let before : e.time ≤ f.time = ground (arith, t) in
      rw (t) ((before, not_before e.time f.time fs before first), (first, s))
  | inr t ↦
      let after : f.time ≤ e.time = ground (arith, t) in
      rw (t) (enter-All f.time e fs after first, enter-IsScheduled e fs s)
]

pub register_periodic_tasks-IsScheduled :
    (mono : ℕ) (ts : List Task) (b : MemoryBroker)
    → IsScheduled b.scheduler
    → IsScheduled (register_periodic_tasks mono ts b).scheduler
unfolding register_periodic_tasks
register_periodic_tasks-IsScheduled mono [] b s = s
register_periodic_tasks-IsScheduled mono (t ∷ ts) b s =
    register_periodic_tasks-IsScheduled mono ts (enter_task mono t b)
      (enter-IsScheduled (record { time = mono + period t * second; task = t }) b.scheduler s)

module _ (now mono : ℕ) (uuid : ℕ → String) where
  then_enter-IsScheduled :
      (t : Task) (r : Result (List Job)) (c : MemoryBroker)
      → IsScheduled c.scheduler
      → IsScheduled (and_then r (λ js. modify (enter_task mono t)) c).1.scheduler
  then_enter-IsScheduled t (ok js) c s =
      enter-IsScheduled (record { time = mono + period t * second; task = t }) c.scheduler s
  then_enter-IsScheduled t (raise x) c s = s

  schedule_periodic_task-IsScheduled :
      (id : String) (t : Task) (b : MemoryBroker)
      → IsScheduled b.scheduler
      → IsScheduled (schedule_periodic_task now mono id t b).1.scheduler
  unfolding schedule_periodic_task
  schedule_periodic_task-IsScheduled id t b s =
      let jobs = periodic_job now id t ∷ [] in
      let (r, c) = enqueue_jobs now false jobs b in
      then_enter-IsScheduled t r c (subst IsScheduled (sym (enqueue_jobs-Same now false jobs b)) s)

  -- What a run leaves, if its fuel suffices.
  abbrev Ordered : {A : Type 0} → MemoryBroker → Option (Result A × MemoryBroker) → Type 0
  Ordered b o = IfEnds (λ _ c. IsScheduled c.scheduler) b o

  run_event-Ordered :
      (rest : MemoryBroker → Option (Result (Unit {0}) × MemoryBroker)) (r : Result (Unit {0}))
      (b c : MemoryBroker)
      → Ordered b (rest c)
      → IsScheduled c.scheduler
      → Ordered b (elim r [ ok u ↦ rest c | raise x ↦ some (raise x, c) ])
  run_event-Ordered rest (ok u) b c h s = h
  run_event-Ordered rest (raise x) b c h s = s

  run_scheduler-Ordered :
      (fuel : ℕ) (a b : MemoryBroker) (es : List Event)
      → b.scheduler ≡ es
      → IsScheduled es
      → Ordered a (run_scheduler fuel now mono uuid b)
  unfolding run_scheduler
  run_scheduler-Ordered zero a b es h s = tt
  run_scheduler-Ordered (suc fuel) a b [] h s = rw (h, run_scheduler) (rw (h) tt)
  run_scheduler-Ordered (suc fuel) a b (e ∷ es) h s = elim (Bool-cases (ltb mono e.time)) [
    | inl later ↦ rw (h, later, run_scheduler) (rw (h) s)
    | inr due ↦
        let popped = record b { scheduler = es } in
        let (r, c) = schedule_periodic_task now mono (uuid fuel) e.task popped in
        let kept = schedule_periodic_task-IsScheduled (uuid fuel) e.task popped s.1 in
        rw (h, due, run_scheduler)
          (run_event-Ordered (run_scheduler fuel now mono uuid) r a c
            (run_scheduler-Ordered fuel a c c.scheduler refl kept) kept)
  ]

  return_moved-Ordered :
      (n : ℕ) (b : MemoryBroker) (o : Option (Result (Unit {0}) × MemoryBroker))
      → Ordered b o
      → Ordered b (return_moved n o)
  return_moved-Ordered n b none h = tt
  return_moved-Ordered n b (some (ok u, c)) h = h
  return_moved-Ordered n b (some (raise e, c)) h = h

  move_then-Ordered :
      (fuel : ℕ) (r : Result ℕ) (b c : MemoryBroker)
      → IsScheduled c.scheduler
      → Ordered b (elim r [
        | raise e ↦ some (raise e, c)
        | ok n ↦ return_moved n (run_scheduler fuel now mono uuid c)
      ])
  move_then-Ordered fuel (ok n) b c s =
      return_moved-Ordered n b _ (run_scheduler-Ordered fuel b c c.scheduler refl s)
  move_then-Ordered fuel (raise e) b c s = s

  pub move_future_jobs-Ordered :
      (fuel : ℕ) (b : MemoryBroker)
      → IsScheduled b.scheduler
      → IfEnds (λ _ c. IsScheduled c.scheduler) b (move_future_jobs fuel now mono uuid b)
  unfolding move_future_jobs
  move_future_jobs-Ordered fuel b s =
      let same = move_ready-Same now mono b in
      let (r, c) = move_ready now b in move_then-Ordered fuel r b c (subst IsScheduled (sym same) s)
