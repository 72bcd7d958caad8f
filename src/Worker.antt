-- ===== src/Worker.antt =====
-- spinach/worker.py: the workers around their input queue, and what a worker does with the item that
-- it took. Signals and the threads themselves are left out.
pub mod Handled
pub mod Pool
use spinach.Prelude.{
  ℕ, zero, ◌+◌, ℤ, pos, leb_ℤ, Bool, true, false, not, List, [], ◌∷◌, ◌++◌, Option, none, some,
  if◌then◌else◌, ◌==◌,
}
use spinach.Outcome.{Exception, Result, ok, raise, value_error, runtime_error, system_exit}
use spinach.Job.{Job}
use spinach.Job.Advance.{Error, advance_job_status}
use spinach.Queuey.{Queuey, Put, put_noblock, task_done, available_slots}
use spinach.Queuey

-- What the queues carry: the poison pill, or a job.
pub data Item : Type 0 where
  poison_pill : Item
  job : Job → Item

pub record Workers : Type 0 where
  pub in_queue : Queuey Item
  pub out_queue : List Item
  pub must_stop : Bool

-- `BaseWorkers(num_workers, namespace)`
unfoldable pub create : ℕ → Result Workers
unfolding Queuey.create
create num_workers =
    if num_workers == 0
    then raise value_error
    else ok (record { in_queue = Queuey.create num_workers; out_queue = []; must_stop = false })

-- A put into the input queue: the future that it waits for if the queue is full, and the worker that
-- it serves if one waits.
unfoldable pub put_in : Item → ℕ → Workers → Put Item × Workers
unfolding put_noblock
put_in item fut w = let p = put_noblock item fut w.in_queue in (p, record w { in_queue = p.queue })

unfoldable pub submit_job : Job → ℕ → Workers → Result (Put Item) × Workers
unfolding put_in
submit_job j fut w =
    if w.must_stop
    then (raise runtime_error, w)
    else let (put, after) = put_in (job j) fut w in (ok put, after)

unfoldable pub can_accept_job : Workers → Bool
unfolding available_slots
can_accept_job w = not (leb_ℤ (available_slots w.in_queue) (pos 0))

-- `stop`, up to the wait for the threads; after them `stopped` tells the notifier.
unfoldable pub stop : ℕ → Workers → Option (Put Item) × Workers
unfolding put_in
stop fut w =
    if w.must_stop
    then (none, w)
    else let (put, after) = put_in poison_pill fut (record w { must_stop = true }) in
      (some put, after)

unfoldable pub stopped : Workers → Workers
stopped w = record w { out_queue = w.out_queue ++ poison_pill ∷ [] }

-- Whether the worker takes another item, ends its loop, or dies of an exception.
pub data Fate : Type 0 where
  goes_on ends : Fate
  dies : Exception → Fate

-- How the handling of an item ended, and the put of a worker that passed the pill on.
pub record Ending : Type 0 where
  pub fate : Fate
  pub put : Option (Put Item)
  pub workers : Workers

-- A `task_done`, after which the fate is `fate`, unless it raises.
abbrev finish : Fate → Workers → Result (Queuey Item) → Ending
finish fate w (ok q) = record { fate = fate; put = none; workers = record w { in_queue = q } }
finish fate w (raise e) = record { fate = dies e; put = none; workers = w }

abbrev pub fate_of : Result (Unit {0}) → Fate
fate_of (ok u) = goes_on
fate_of (raise e) = dies e

-- A worker that ends passes the pill on; `fut` is the future of that put.
abbrev pass_as : ℕ → Fate → Workers → Ending
pass_as fut ends w =
    let (put, after) = put_in poison_pill fut w in
    record { fate = ends; put = some put; workers = after }
pass_as fut goes_on w = record { fate = goes_on; put = none; workers = w }
pass_as fut (dies e) w = record { fate = dies e; put = none; workers = w }

abbrev pass_on : ℕ → Ending → Ending
pass_on fut h = pass_as fut h.fate h.workers

-- How the run of a job ended: without an exception or with an `Exception`, or with another
-- `BaseException`, which nothing in the worker catches.
pub data RunEnd : Type 0 where
  ran : Option Error → RunEnd
  exits : RunEnd

-- The job after its run, which ended at `ended`, and what gets out of the `try` statement.
unfoldable pub after_run : ℕ → (ℕ → ℕ) → RunEnd → Job → Job × Result (Unit {0})
unfolding advance_job_status
after_run ended randint (ran err) j =
    let advanced = advance_job_status ended randint j err in (advanced.job, advanced.result)
after_run ended randint exits j = (j, raise system_exit)

-- What `_worker_func` does with an item. The job goes out and is marked as done even if an exception
-- gets out.
unfoldable pub handle : ℕ → ℕ → (ℕ → ℕ) → RunEnd → Item → Workers → Ending
unfolding task_done put_in after_run
handle fut ended randint how poison_pill w = pass_on fut (finish ends w (task_done w.in_queue))
handle fut ended randint how (job j) w =
    let (k, result) = after_run ended randint how j in
    finish (fate_of result) (record w { out_queue = w.out_queue ++ job k ∷ [] })
      (task_done w.in_queue)
