-- ===== src/Engine/Lifecycle.antt =====
-- Starting and stopping an engine of spinach/engine.py: `_reset`, `start_workers` and `stop_workers`,
-- the loop of the result notifier, and `execute`. That the threads of the workers end is in
-- Worker/Pool.
use spinach.Prelude.{
  ℕ, Bool, true, false, ◌||◌, String, List, [], ◌∷◌, Option, none, some, if◌then◌else◌,
}
use spinach.Outcome.{Result, ok, raise, runtime_error, attribute_error, ◌>>=◌}
use spinach.Json.{Items, Fields}
use spinach.Task.{Tasks, Schedulable, Task}
use spinach.Task
use spinach.Memory.{MemoryBroker}
use spinach.Worker.{Workers, Item, poison_pill, job}
use spinach.Worker
use spinach.Engine.{notify}

-- What `_reset` initializes.
pub record Lifecycle : Type 0 where
  pub arbiter : Bool
  pub workers : Option Workers
  pub working_queue : Option String
  pub must_stop : Bool

unfoldable pub reset : Lifecycle
reset = record { arbiter = false; workers = none; working_queue = none; must_stop = false }

abbrev has_workers : Option Workers → Bool
has_workers none = false
has_workers (some w) = true

abbrev started : Result Workers → Lifecycle → Result (Unit {0}) × Lifecycle
started (ok w) l = (ok tt, record l { workers = some w; arbiter = true })
started (raise e) l = (raise e, l)

-- Without the wait for the arbiter of `block`.
unfoldable pub start_workers : ℕ → String → Lifecycle → Result (Unit {0}) × Lifecycle
unfolding Worker.create
start_workers number queue l =
    if l.arbiter || has_workers l.workers
    then (raise runtime_error, l)
    else started (Worker.create number) (record l { working_queue = some queue })

-- The workers are given back as they are when the result notifier reads the pill; `fut` is the future
-- of the put of the pill.
unfoldable pub stop_workers : ℕ → Lifecycle → Result Workers × Lifecycle
unfolding Worker.stop Worker.stopped reset
stop_workers fut l = elim l.workers [
  | none ↦ (raise attribute_error, record l { must_stop = true })
  | some w ↦
      let (put, after) = Worker.stop fut w in
      (ok (elim put [ none ↦ after | some p ↦ Worker.stopped after ]), reset)
]

-- `_result_notifier_func`, until the pill, an exception, or the end of what the workers gave: how it
-- ended, the broker, and what is left in the queue.
unfoldable pub result_notifier :
    ℕ → List Item → MemoryBroker → Option (Result (Unit {0})) × MemoryBroker × List Item
unfolding notify
result_notifier now [] b = (none, b, [])
result_notifier now (poison_pill ∷ rest) b = (some (ok tt), b, rest)
result_notifier now (job j ∷ rest) b =
    let (reported, after) = notify now j b in
    let later = result_notifier now rest after in
    elim reported [ raise e ↦ (some (raise e), after, rest) | ok u ↦ later ]

-- `execute`, whose result is that of the function.
unfoldable pub execute :
    {R : Type 0}
    → (Task → Items → Fields → Result R)
    → Tasks
    → Schedulable
    → Items
    → Fields
    → Result R
unfolding Task.get
execute call ts task args kwargs = Task.get ts task >>= λ t. call t args kwargs
