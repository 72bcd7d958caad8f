-- ===== src/Samples/Ledger.antt =====
-- A history of an engine over one memory broker: two jobs of a task that may run one at a time, of
-- which one is job_taken, fails and is stored again.
use spinach.Prelude.{◌≡◌, refl, [], ◌∷◌, ◌++◌, some, false}
use spinach.Job.{Job, running}
use spinach.Job.Advance.{other, advance_job_status}
use spinach.Memory.{enqueue_jobs}
use spinach.Memory.Copies.{stored}
use spinach.Memory.Fetch.{get_jobs_from_queue}
use spinach.Engine.{notify}
use spinach.Engine.System.{System, start, handed_out}
use spinach.Engine.Ledger.{over_after}
use spinach.Samples.Broker.{alone, job, half}

abbrev second : Job
second = record job { id = "second" }

abbrev queued : System
queued =
    let s = start "app" (alone ∷ []) in
    record s { broker = (enqueue_jobs 7 false (job ∷ second ∷ []) s.broker).1 }

abbrev job_taken : Job
job_taken = record job { status = running }

abbrev after_fetch : System
after_fetch = record {
  broker = (get_jobs_from_queue "main" 2 queued.broker).1;
  running = handed_out (get_jobs_from_queue "main" 2 queued.broker).0 ++ queued.running;
}

abbrev over : Job
over = (advance_job_status 8 half job_taken (some other)).job

abbrev at_the_end : System
at_the_end = record { broker = (notify 9 over after_fetch.broker).1; running = [] }

stored_again : (stored "id" at_the_end.broker ≡ 1) × (over_after over.status over [] ≡ [])
unfolding stored enqueue_jobs start get_jobs_from_queue advance_job_status notify
stored_again = (refl, refl)
