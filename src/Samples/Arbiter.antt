-- ===== src/Samples/Arbiter.antt =====
-- Rounds of the arbiter of spinach/engine.py over a memory broker and over a small Redis server: one that
-- finds the queue empty, and one that fetches two jobs for two workers.
use spinach.Prelude.{◌+◌, ap, ℕ, suc, pos, List, ◌≡◌, refl, true, false, [], ◌∷◌, none, some, arith}
use spinach.Outcome.{Result, ok, raise, runtime_error}
use spinach.Json.{jnull}
use spinach.Job.{Job, running, queued, binds}
use spinach.Task.{Task, Tasks}
use spinach.Memory.{MemoryBroker, create, enqueue_jobs}
use spinach.Memory.Fetch.{get_jobs_from_queue, is_queue_empty}
use spinach.Memory.Future.{move_future_jobs}
use spinach.Memory.AsBroker.{memory_broker, memory_broker-Contract}
use spinach.Queuey.{Put, available_slots}
use spinach.Worker.{Workers, Item, submit_job, stop}
use spinach.Worker
use spinach.Worker.Pool.{Pool, take, submit, takes, here}
use spinach.Broker.{Moment, Contract}
use spinach.Redis.Broker.AsBroker.{redis_broker, redis_broker-Contract}
use spinach.Engine.Lifecycle.{reset, start_workers}
use spinach.Engine.Arbiter.{State, to_workers, dispatch, returns, arbiter_round, fetch_jobs}
use spinach.Engine.Arbiter.Emptied.{arbiter_emptied}
use spinach.Engine.Arbiter.Interrupted.{round_interrupted}
use spinach.Memory.Copies.{stored, among}
use spinach.Engine.Arbiter.Room.{Receives, received, meanwhile, submitted, round_finds_room}
use spinach.Samples.Lifecycle.{running as engine_runs}
use spinach.Samples.Pool.{half, two, mail}
use spinach.Samples.Server.{server}

abbrev mail_task : Task
mail_task = record {
  func = record { bind = λ args kwargs. binds };
  name = "mail";
  queue = "main";
  max_retries = 2;
  periodicity = none;
  max_concurrency = none;
}

abbrev registry : Tasks
registry = record {
  tasks = ("mail", mail_task) ∷ [];
  queue = none;
  max_retries = none;
  periodicity = none;
  max_concurrency = none;
  spin = true;
}

memory_broker-Contract_example : Contract (memory_broker 3)
memory_broker-Contract_example = memory_broker-Contract 3

redis_broker-Contract_example : Contract (redis_broker server)
redis_broker-Contract_example = redis_broker-Contract server

abbrev two_mails : MemoryBroker
two_mails = (enqueue_jobs 7 false (mail ∷ record mail { id = "second" } ∷ []) (create "app")).1

abbrev first : Job
first = record mail { status = running; task_func = some mail_task.func }

abbrev second : Job
second = record first { id = "second" }

-- The first job is submitted, and a worker takes it before the second one is.
abbrev busy : Pool
busy = take 0 (submit 7 first two)

first_received : Receives (to_workers first ∷ []) two busy
unfolding submit
first_received = submitted 7 first (meanwhile (takes 0 refl) received)

abbrev moment : Moment
moment = record {
  now = 7;
  mono = 7;
  uuid = λ n. "new";
  token = "t";
  randint = half;
  info = jnull;
  happens = false;
}

abbrev idle : State (memory_broker 1)
idle = record { store = create "app"; lifecycle = engine_runs }

abbrev stopped : State (memory_broker 1)
stopped = record {
  store = record idle.store { queues = ("app/main", []) ∷ []; something_happened = true };
  lifecycle = reset;
}

idle_stops :
    arbiter_round (memory_broker 1) registry "main" true 8 moment idle ≡ some (ok returns, stopped)
unfolding arbiter_round create start_workers Worker.create reset move_future_jobs
    get_jobs_from_queue is_queue_empty
idle_stops = refl

arbiter_emptied_example :
    let broker = memory_broker 1 in
    (true ≡ true)
    × (moved : ℕ) × (room : ℕ) × (w : Workers) × (b1 b2 b3 : MemoryBroker) × (idle.lifecycle.workers
        ≡ some w)
    × (available_slots w.in_queue ≡ pos (suc room))
    × (broker.move_future_jobs moment idle.store ≡ some (ok moved, b1))
    × (broker.get_jobs_from_queue "main" (suc room) b1 ≡ some (ok [], b2))
    × (broker.is_queue_empty "main" b2 ≡ some (ok true, b3))
    × (stopped ≡ record { store = broker.stop b3; lifecycle = reset })
arbiter_emptied_example =
    arbiter_emptied (memory_broker 1) registry "main" true 8 moment idle stopped idle_stops

abbrev fetched : Result (List Job) × MemoryBroker
fetched = get_jobs_from_queue "main" 2 two_mails

abbrev given : List Job
given = record mail { status = running } ∷ record mail { id = "second"; status = running } ∷ []

both_given : get_jobs_from_queue "main" 2 two_mails ≡ (ok given, fetched.1)
unfolding get_jobs_from_queue enqueue_jobs create
both_given = refl

round_finds_room_example :
    (put : Put Item) × ((submit_job second 8 busy.workers).0 ≡ ok put) × (put.fut ≡ none)
unfolding Worker.create available_slots dispatch spinach.Job.create
round_finds_room_example =
    round_finds_room (memory_broker 0) (memory_broker-Contract 0) registry 9 half "main" two_mails
      fetched.1 given 2 8 two busy (to_workers first ∷ []) [] second (here refl) refl (omega arith)
      (ap some both_given) refl first_received

-- The workers were told to stop after the arbiter looked at their slots.
abbrev told_to_stop : Workers
told_to_stop = (stop 9 two.workers).1

abbrev interrupted : State (memory_broker 0)
interrupted = record {
  store = two_mails;
  lifecycle = record reset { arbiter = true; workers = some told_to_stop; must_stop = true };
}

round_interrupted_example :
    (after : State (memory_broker 0)) × (fetch_jobs
        (memory_broker 0)
        registry
        "main"
        false
        8
        moment
        2
        interrupted
      ≡ some (raise runtime_error, after))
    × (after.lifecycle.workers ≡ some told_to_stop)
    × (stored "id" after.store + among "id" given ≡ stored "id" two_mails)
unfolding stop spinach.Job.create spinach.Task.get
round_interrupted_example =
    round_interrupted "id" 0 registry "main" false 8 moment 1 interrupted told_to_stop mail_task
      (record mail { status = running }) (record mail { id = "second"; status = running } ∷ []) refl
      refl (ap (λ r. r.0) both_given) refl

one_gone : (among "id" given ≡ 1) × (stored "id" two_mails ≡ 1)
unfolding among stored enqueue_jobs create spinach.Job.create
one_gone = (refl, refl)
