-- ===== src/Engine/Future.antt =====
-- The future jobs over any history of an engine over one memory broker.
use spinach.Prelude.{ℕ, sym, subst, String, List, Bool, false}
use spinach.Task.{Task}
use spinach.Memory.Future.{move_ready}
use spinach.Memory.Due.{Moved, move_ready-Moved}
use spinach.Memory.Waiting.{wait_for_event}
use spinach.Memory.Waiting.InTime.{InTime, wait_for_event-InTime}
use spinach.Engine.System.{
  System, Step, enqueues, moves, registers, fetches, reports, start, Reach, here, next,
}
use spinach.Memory.{create}
use spinach.Memory.Runs.{IfEnds}
use spinach.Memory.Scheduled.{
  IsScheduled, register_periodic_tasks-IsScheduled, move_future_jobs-Ordered,
}
use spinach.Memory.Unscheduled.{
  enqueue_jobs-Same, get_jobs_from_queue-Same, notify-Same, set_concurrency_keys-Same,
}
use spinach.Job.Advance.{advance_job_status}
use spinach.Engine.Concurrency.{Reach-Inv}

-- In every state that an engine reaches, moving at the time `now` moves exactly the future jobs that
-- are due: they are the front part of the future jobs, it returns their number, each goes behind
-- its queue as queued and in the order of the dates, and the others stay.
pub move_ready-Moved_due :
    (namespace : String) (tasks : List Task) (s : System) (now : ℕ)
    → Reach namespace tasks s
    → Moved now s.broker.future_jobs 0 s.broker (move_ready now s.broker)
move_ready-Moved_due namespace tasks s now r = move_ready-Moved now s.broker (Reach-Inv r).sound

Step-IsScheduled :
    {s t : System} → Step s t → IsScheduled s.broker.scheduler → IsScheduled t.broker.scheduler
Step-IsScheduled (enqueues s now js) h =
    subst IsScheduled (sym (enqueue_jobs-Same now false js s.broker)) h
Step-IsScheduled (moves s fuel now mono uuid r b e) h =
    subst (IfEnds (λ _ c. IsScheduled c.scheduler) s.broker) e
      (move_future_jobs-Ordered now mono uuid fuel s.broker h)
Step-IsScheduled (registers s mono ts) h = register_periodic_tasks-IsScheduled mono ts s.broker h
Step-IsScheduled (fetches s queue max_jobs) h =
    subst IsScheduled (sym (get_jobs_from_queue-Same queue max_jobs s.broker)) h
Step-IsScheduled (reports s before j after ended now randint err e) h =
    subst IsScheduled (sym (notify-Same now (advance_job_status ended randint j err).job s.broker))
      h

-- The scheduler holds its events in the order of their times.
Reach-IsScheduled :
    {namespace : String} {tasks : List Task} {s : System}
    → Reach namespace tasks s
    → IsScheduled s.broker.scheduler
unfolding start create
Reach-IsScheduled {namespace} {tasks} here =
    subst IsScheduled (sym (set_concurrency_keys-Same tasks (create namespace))) tt
Reach-IsScheduled (next r st) = Step-IsScheduled st (Reach-IsScheduled r)

-- In every state that an engine reaches, `wait_for_event` raises nothing; its timeout is a minute at
-- most, and no longer than to any event of the scheduler and to any future job; and it is no shorter
-- than that: it is the minute, or the time to the first future job or to the first event.
pub wait-InTime :
    (namespace : String) (tasks : List Task) (s : System) (now mono : ℕ) (happens : Bool)
    → Reach namespace tasks s
    → InTime now mono s.broker (wait_for_event now mono happens s.broker)
wait-InTime namespace tasks s now mono happens r =
    wait_for_event-InTime now mono happens s.broker (Reach-Inv r).sound (Reach-IsScheduled r)
