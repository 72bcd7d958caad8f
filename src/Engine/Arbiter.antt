-- ===== src/Engine/Arbiter.antt =====
-- The arbiter of spinach/engine.py, `_arbiter_func`, over any broker. A put that had to wait would stop
-- the arbiter; none does, by Engine/Arbiter/Room.
pub mod Unknown
pub mod Room
pub mod Emptied
pub mod Interrupted
use spinach.Prelude.{
  ℕ, zero, suc, ℤ, pos, negsuc, Bool, true, false, ◌&&◌, String, List, [], ◌∷◌, ◌++◌, map, Option,
  none, some, length, ltb, ◌==◌, if◌then◌else◌,
}
use spinach.Outcome.{Result, ok, raise, attribute_error}
use spinach.Action.{Action}
use spinach.Action
use spinach.Job.{Job}
use spinach.Job.Advance.{other, advance_job_status}
use spinach.Task.{Task, Tasks, by_name}
use spinach.Task
use spinach.Queuey.{Put, available_slots}
use spinach.Worker.{Workers, Item, job, submit_job}
use spinach.Broker.{Broker, Call, Moment, ends, ◌>>=◌, ◌>>◌}
use spinach.Engine.Attach.{periodic_of}
use spinach.Engine.Lifecycle.{Lifecycle, stop_workers}

-- Where a fetched job goes: to the workers, or straight to their output queue.
pub data Dispatched : Type 0 where
  to_workers to_notifier : Job → Dispatched

-- A job of an unknown task goes to the result notifier as one that failed with that exception.
unfoldable pub dispatch : Tasks → ℕ → (ℕ → ℕ) → Job → Dispatched
unfolding Task.get advance_job_status
dispatch ts now randint j = elim (Task.get ts (by_name j.task_name)) [
  | ok t ↦ to_workers (record j { task_func = some t.func })
  | raise e ↦ to_notifier (advance_job_status now randint j (some other)).job
]

abbrev dropped : Result (Put Item) → Result (Unit {0})
dropped (ok put) = ok tt
dropped (raise e) = raise e

-- The fetched job is submitted, or put into the output queue; `fut` is the future of the put.
unfoldable pub receive : ℕ → Dispatched → Action Workers (Unit {0})
unfolding submit_job
receive fut (to_workers j) w = let (put, after) = submit_job j fut w in (dropped put, after)
receive fut (to_notifier j) w = (ok tt, record w { out_queue = w.out_queue ++ job j ∷ [] })

-- `for job in jobs`
unfoldable pub receive_all : Tasks → ℕ → (ℕ → ℕ) → ℕ → List Job → Action Workers (Unit {0})
unfolding dispatch receive
receive_all ts now randint fut [] = Action.pure tt
receive_all ts now randint fut (j ∷ js) =
    Action.◌>>◌ (receive fut (dispatch ts now randint j)) (receive_all ts now randint fut js)

-- Whether the arbiter goes on with another round.
pub data After : Type 0 where
  goes_on returns : After

abbrev pub at_least_zero : ℤ → ℕ
at_least_zero (pos n) = n
at_least_zero (negsuc n) = 0

module _ (broker : Broker) where
  pub record State : Type 0 where
    pub store : broker.State
    pub lifecycle : Lifecycle

  module _ {A : Type 0} where
    abbrev pub with_store : State → Option (Result A × broker.State) → Option (Result A × State)
    with_store s none = none
    with_store s (some (result, store)) = some (result, record s { store = store })

    -- A call of the broker's, and one of the workers'.
    abbrev pub on_broker : Call broker.State A → Call State A
    on_broker call s = with_store s (call s.store)

    abbrev pub on_workers : Action Workers A → Call State A
    on_workers action s = elim s.lifecycle.workers [
      | none ↦ some (raise attribute_error, s)
      | some w ↦
          let (result, after) = action w in
          some (result, record s { lifecycle = record s.lifecycle { workers = some after } })
    ]

  abbrev pub return : {A : Type 0} → A → Call State A
  return a = ends (Action.pure a)

  -- `self.stop_workers(_join_arbiter=False)`
  unfoldable pub stop_all : ℕ → Call State (Unit {0})
  unfolding stop_workers
  stop_all fut s =
      let (result, lifecycle) = stop_workers fut s.lifecycle in
      elim result [
        | ok workers ↦ some (ok tt, record { store = broker.stop s.store; lifecycle = lifecycle })
        | raise e ↦ some (raise e, record s { lifecycle = lifecycle })
      ]

  module _ (ts : Tasks) (queue : String) (stop_when_queue_empty : Bool) (fut : ℕ) where
    -- The jobs that fit are fetched and received: how many.
    unfoldable pub fetch_jobs : Moment → ℕ → Call State ℕ
    unfolding receive_all
    fetch_jobs m zero = return 0
    fetch_jobs m (suc slots) = do
      jobs ← on_broker (broker.get_jobs_from_queue queue (suc slots))
      on_workers (receive_all ts m.now m.randint fut jobs)
      return (length jobs)

    -- Whether the arbiter stops because there is nothing to do.
    abbrev pub is_finished : ℕ → ℕ → Call State Bool
    is_finished slots received_jobs =
        if stop_when_queue_empty && ltb 0 slots && (received_jobs == 0)
        then on_broker (broker.is_queue_empty queue)
        else return false

    abbrev pub finish_round : Moment → Bool → Call State After
    finish_round m true = stop_all fut >> return returns
    finish_round m false = on_broker (broker.wait_for_event m) >> return goes_on

    unfoldable pub arbiter_round : Moment → Call State After
    unfolding fetch_jobs stop_all available_slots
    arbiter_round m = do
      on_broker (broker.move_future_jobs m)
      slots ← on_workers (Action.asks (λ w. ok (at_least_zero (available_slots w.in_queue))))
      received_jobs ← fetch_jobs m slots
      finished ← is_finished slots received_jobs
      finish_round m finished

    -- `while not self._must_stop.is_set()`, a round for each moment given.
    unfoldable pub arbiter_loop : List Moment → Call State After
    unfolding arbiter_round
    arbiter_loop [] s = return goes_on s
    arbiter_loop (m ∷ ms) s =
        let rest = arbiter_loop ms in
        if s.lifecycle.must_stop
        then return returns s
        else (arbiter_round m >>= elim [ returns ↦ return returns | goes_on ↦ rest ]) s

    unfoldable pub arbiter_func : Moment → List Moment → Call State After
    unfolding arbiter_loop
    arbiter_func m ms = do
      on_broker (broker.register_periodic_tasks m (periodic_of (map (λ e. e.1) ts.tasks)))
      on_broker (broker.set_concurrency_keys (map (λ e. e.1) ts.tasks))
      arbiter_loop ms
