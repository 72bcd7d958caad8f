-- ===== src/Redis/Broker/Methods.antt =====
-- The other methods of `RedisBroker` of spinach/brokers/redis.py. The clock, the random numbers and
-- the ids are arguments.
use spinach.Prelude.{
  ℕ, ◌-◌, ◌*◌, ℤ, pos, negsuc, Bool, true, false, String, List, [], ◌∷◌, ◌++◌, map, length, Option,
  none, some, ltb, ◌==◌, if◌then◌else◌,
}
use spinach.Outcome.{Result, ok, raise, key_error, type_error}
use spinach.Outcome
use spinach.Action.{modify, pure, lift, ◌>>=◌, ◌>>◌}
use spinach.Time.{second, ceil_timestamp}
use spinach.Json.{Json}
use spinach.Job.{Job, queued, running, value, serialize, deserialize}
use spinach.Job.Advance.{Advanced, other, advance_job_status}
use spinach.Task.{Task}
use spinach.Task
use spinach.Redis.Commands.{Redis}
use spinach.Redis.Scripts.{
  Script, Reply, nothing, already_processed, jobs, moved, re_enqueued, text, EnqueueArgs,
  enqueue_job,
}
use spinach.Redis.Scripts
use spinach.Redis.Scripts.Fetching
use spinach.Redis.Scripts.Fetching.{FetchArgs}
use spinach.Redis.Scripts.Periodic
use spinach.Redis.Scripts.Periodic.{contains}
use spinach.Redis.Broker.{RedisBroker, Method}
use spinach.Redis.Broker.Runs.{request}
use spinach.Redis.Broker.Enqueueing.{key, running_jobs_key}

unfoldable pub deserialize_all : List Json → Result (List Job)
unfolding deserialize
deserialize_all [] = ok []
deserialize_all (doc ∷ docs) =
    Outcome.◌>>=◌ (deserialize doc)
      λ job. Outcome.◌>>=◌ (deserialize_all docs) λ rest. ok (job ∷ rest)

module _ (redis : Redis) where
  open redis use {llen, hvals, zrange, zrange_names, decode}

  -- A command that only reads.
  abbrev query : {A : Type 0} → (redis.Store → A) → Method redis A
  query f = request redis (λ s. (ok (f s), s))

  unfoldable pub is_queue_empty : String → Method redis Bool
  unfolding request
  is_queue_empty queue b = query (λ s. llen (key b queue) s == 0) b

  abbrev first_of : List (Json × ℤ) → Result (Option Job)
  first_of [] = ok none
  first_of ((doc, score) ∷ rest) = Outcome.◌>>=◌ (deserialize doc) λ j. ok (some j)

  unfoldable pub get_next_future_job : Method redis (Option Job)
  unfolding request deserialize
  get_next_future_job b =
      (query (zrange (key b "_future-jobs") none (some 1)) >>= λ docs. lift (first_of docs)) b

  abbrev pub fetch_args : RedisBroker redis → String → ℕ → FetchArgs
  fetch_args b queue max_jobs = record {
    queue = key b queue;
    running_jobs_key = running_jobs_key b b.id;
    job_status_running = value running;
    max_jobs = max_jobs;
    max_concurrency_key = key b "_max_concurrency";
    current_concurrency_key = key b "_current_concurrency";
  }

  abbrev pub jobs_of : Reply → Result (List Job)
  jobs_of (jobs docs) = deserialize_all docs
  jobs_of _ = raise type_error

  unfoldable pub get_jobs_from_queue : String → ℕ → Method redis (List Job)
  unfolding request deserialize_all Fetching.get_jobs_from_queue value
  get_jobs_from_queue queue max_jobs b =
      (request redis (Fetching.get_jobs_from_queue redis (fetch_args b queue max_jobs)) >>= λ reply.
      lift (jobs_of reply))
        b

  unfoldable pub remove_job_from_running : Job → Method redis (Unit {0})
  unfolding request serialize Scripts.remove_job_from_running
  remove_job_from_running j b =
      (request redis (
            Scripts.remove_job_from_running redis (running_jobs_key b b.id)
              (key b "_max_concurrency") (key b "_current_concurrency") (serialize j))
          >> modify (λ c. record c { something_happened = true }))
        b

  unfoldable pub flush : Method redis Reply
  unfolding request Scripts.flush
  flush b = request redis (Scripts.flush redis b.namespace) b

  unfoldable pub get_all_brokers : Method redis (List Json)
  unfolding request
  get_all_brokers b = query (hvals (key b "_all_brokers_hash")) b

  abbrev re_enqueued_of : Reply → Result (ℕ × List Json)
  re_enqueued_of (re_enqueued n failed) = ok (n, failed)
  re_enqueued_of _ = raise type_error

  unfoldable pub enqueue_jobs_from_dead_broker : String → Method redis (ℕ × List Json)
  unfolding request Fetching.enqueue_jobs_from_dead_broker
  enqueue_jobs_from_dead_broker dead_broker_id b =
      (request redis (
            Fetching.enqueue_jobs_from_dead_broker redis dead_broker_id
              (running_jobs_key b dead_broker_id) (key b "_all_brokers_hash")
              (key b "_all_brokers_zset") b.namespace (key b "_notifications")
              (key b "_max_concurrency") (key b "_current_concurrency"))
          >>= λ reply. lift (re_enqueued_of reply))
        b

  abbrev id_of : Json → Result String
  id_of info = elim (text "id" (decode info)) [ ok id ↦ ok id | raise e ↦ raise key_error ]

  -- The ids of the brokers that the script found dead, of those that are in the hash.
  abbrev dead_of : List String → List Json → Result (List String)
  dead_of ids [] = ok []
  dead_of ids (info ∷ infos) = Outcome.◌>>=◌ (id_of info) λ id.
      Outcome.◌>>=◌ (dead_of ids infos) λ rest. ok (if contains ids id then id ∷ rest else rest)

  -- The jobs of a dead broker are enqueued again, and those without a retry left fail.
  unfoldable pub bury_one : ℕ → (ℕ → ℕ) → String → Method redis (List Advanced)
  unfolding enqueue_jobs_from_dead_broker deserialize_all advance_job_status
  bury_one now randint dead_broker_id = do
    counts ← enqueue_jobs_from_dead_broker dead_broker_id
    failed ← lift (deserialize_all counts.1)
    pure (map (λ j. advance_job_status now randint j (some other)) failed)

  unfoldable pub bury_all : ℕ → (ℕ → ℕ) → List String → Method redis (List Advanced)
  unfolding bury_one
  bury_all now randint [] = pure []
  bury_all now randint (dead ∷ rest) = do
    one ← bury_one now randint dead
    others ← bury_all now randint rest
    pure (one ++ others)

  abbrev moved_of : Reply → Result (ℕ × List String)
  moved_of (moved n dead) = ok (n, dead)
  moved_of _ = raise type_error

  abbrev dead_brokers : List String → Method redis (List String)
  dead_brokers [] = pure []
  dead_brokers (id ∷ ids) = get_all_brokers >>= λ infos. lift (dead_of (id ∷ ids) infos)

  -- The number of jobs moved, and what `advance_job_status` did with the failed jobs. `now` is in
  -- microseconds; the script is given the seconds, rounded up. `info` is `_get_broker_info`.
  unfoldable pub move_future_jobs :
      ℕ → (ℕ → ℕ) → Json → (ℕ → List String) → Method redis (ℕ × List Advanced)
  unfolding request Periodic.move_future_jobs get_all_brokers bury_all value ceil_timestamp
  move_future_jobs now randint info uuids b =
      (request redis (
            Periodic.move_future_jobs redis (record {
              namespace = b.namespace;
              future_jobs = key b "_future-jobs";
              notifications = key b "_notifications";
              now = ceil_timestamp now;
              job_status_queued = value queued;
              periodic_tasks_hash = key b "_periodic_tasks_hash";
              periodic_tasks_queue = key b "_periodic_tasks_queue";
              all_brokers_hash_key = key b "_all_brokers_hash";
              all_brokers_zset_key = key b "_all_brokers_zset";
              broker_info_json = info;
              broker_dead_threshold_seconds = 1800;
              uuids = uuids b.number_periodic_tasks;
            }))
          >>= λ reply. lift (moved_of reply) >>= λ counts. dead_brokers counts.1 >>= λ dead.
              bury_all now randint dead >>= λ failed. pure (counts.0, failed))
        b

  unfoldable pub register_periodic_tasks : ℕ → List Task → Method redis Reply
  unfolding request Periodic.register_periodic_tasks Task.serialize ceil_timestamp
  register_periodic_tasks now tasks b =
      request redis
        (Periodic.register_periodic_tasks redis (ceil_timestamp now) (key b "_periodic_tasks_hash")
          (key b "_periodic_tasks_queue") (map Task.serialize tasks))
        (record b { number_periodic_tasks = length tasks })

  unfoldable pub set_concurrency_keys : List Task → Method redis Reply
  unfolding request Periodic.set_concurrency_keys Task.serialize
  set_concurrency_keys [] b = (ok nothing, b)
  set_concurrency_keys (t ∷ ts) b =
      request redis
        (Periodic.set_concurrency_keys redis (key b "_max_concurrency")
          (key b "_current_concurrency") (map Task.serialize (t ∷ ts)))
        b

  abbrev seconds_of : ℤ → ℕ
  seconds_of (pos n) = n
  seconds_of (negsuc n) = 0

  unfoldable pub inspect_periodic_tasks : Method redis (List (ℕ × String))
  unfolding request
  inspect_periodic_tasks b =
      query
        (λ s.
          map (λ p. (seconds_of p.1, p.0))
            (zrange_names (key b "_periodic_tasks_queue") none none s))
        b

  abbrev delta_to : ℕ → List (String × ℤ) → Option ℕ
  delta_to now [] = none
  delta_to now ((name, score) ∷ rest) =
      let time = seconds_of score * second in some (if ltb time now then 0 else time - now)

  -- In microseconds.
  unfoldable pub next_future_periodic_delta : ℕ → Method redis (Option ℕ)
  unfolding request
  next_future_periodic_delta now b =
      query (λ s. delta_to now (zrange_names (key b "_periodic_tasks_queue") none (some 1) s)) b

  -- The subscriber's rounds, each with or without a message, until `must_stop` is set.
  abbrev listen : List Bool → RedisBroker redis → RedisBroker redis
  listen [] b = b
  listen (message ∷ rest) b =
      listen rest (if message then record b { something_happened = true } else b)

  unfoldable pub subscriber_func : List Bool → Method redis Reply
  unfolding request Scripts.deregister
  subscriber_func polls b =
      request redis
        (Scripts.deregister redis b.id (key b "_all_brokers_hash") (key b "_all_brokers_zset"))
        (listen polls b)

  -- `stop`, before the subscriber's thread is joined, and after.
  unfoldable pub stop : RedisBroker redis → RedisBroker redis
  stop b = record b { something_happened = true; must_stop = true }

  unfoldable pub reset : RedisBroker redis → RedisBroker redis
  reset b = record b { must_stop = false; number_periodic_tasks = 0 }
