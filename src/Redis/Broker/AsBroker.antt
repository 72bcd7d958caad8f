-- ===== src/Redis/Broker/AsBroker.antt =====
-- `RedisBroker` of spinach/brokers/redis.py as a `Broker` of spinach/brokers/base.py.
use spinach.Prelude.{
  ℕ, zero, suc, ◌≡◌, ap, ℤ, Bool, false, ◌||◌, String, List, [], ◌∷◌, Option, none, some,
  if◌then◌else◌, arith,
}
use spinach.Outcome.{Result, ok, raise}
use spinach.Action.{modify, pure, lift, ◌>>=◌, ◌>>◌}
use spinach.Job.{Job}
use spinach.Broker.{Broker, Contract, ends, ends-injective, mark_all}
use spinach.Memory.Waiting.{delta_of, timeout_of}
use spinach.Redis.Commands.{Redis}
use spinach.Redis.Scripts.{Reply}
use spinach.Redis.Broker.{RedisBroker, Method}
use spinach.Redis.Broker.Enqueueing.{enqueue_jobs, run_marked, returned}
use spinach.Redis.Broker.Methods
use spinach.Redis.Broker.Bounded.{get_jobs_from_queue-bounded}

-- As many new ids as asked for.
abbrev ids : (ℕ → String) → ℕ → List String
ids uuid zero = []
ids uuid (suc n) = uuid n ∷ ids uuid n

module _ (redis : Redis) where
  -- `wait_for_event` of the base class.
  unfoldable pub wait_for_event : ℕ → Bool → Method redis ℤ
  unfolding Methods.get_next_future_job Methods.next_future_periodic_delta timeout_of
  wait_for_event now happens = do
    job ← Methods.get_next_future_job redis
    job_delta ← lift (delta_of now job)
    periodic_delta ← Methods.next_future_periodic_delta redis now
    modify (λ b. record b {
      something_happened = if b.something_happened || happens then false else b.something_happened;
    })
    pure (timeout_of job_delta periodic_delta)

  abbrev pub redis_broker : Broker
  redis_broker = record {
    State = RedisBroker redis;
    stop = λ b. Methods.reset redis (Methods.stop redis b);
    register_periodic_tasks =
        λ m tasks. ends (Methods.register_periodic_tasks redis m.now tasks >> pure tt);
    set_concurrency_keys = λ tasks. ends (Methods.set_concurrency_keys redis tasks >> pure tt);
    is_queue_empty = λ queue. ends (Methods.is_queue_empty redis queue);
    inspect_periodic_tasks = ends (Methods.inspect_periodic_tasks redis);
    enqueue_jobs =
        λ m from_failure jobs. enqueue_jobs redis m.randint m.token m.now from_failure jobs;
    remove_job_from_running = λ job. ends (Methods.remove_job_from_running redis job);
    get_jobs_from_queue = λ queue max_jobs. ends (Methods.get_jobs_from_queue redis queue max_jobs);
    move_future_jobs = λ m. ends (
        Methods.move_future_jobs redis m.now m.randint m.info (ids m.uuid) >>= λ moved.
        pure (moved.0));
    get_next_future_job = ends (Methods.get_next_future_job redis);
    next_future_periodic_delta = λ m. ends (Methods.next_future_periodic_delta redis m.now);
    flush = ends (Methods.flush redis >> pure tt);
    get_all_brokers = λ m. ends (Methods.get_all_brokers redis);
    enqueue_jobs_from_dead_broker = λ id. ends (Methods.enqueue_jobs_from_dead_broker redis id);
    wait_for_event = λ m. ends (wait_for_event m.now m.happens);
  }

  returned-ok :
      (js out : List Job) (o : Option (Result Reply × RedisBroker redis)) (c : RedisBroker redis)
      → returned redis js o ≡ some (ok out, c)
      → js ≡ out
  returned-ok js out none c h = absurd (grind (arith, h))
  returned-ok js out (some (ok reply, b)) c h = cc
  returned-ok js out (some (raise e, b)) c h = absurd (grind (arith, h))

  run_marked-ok :
      (randint : ℕ → ℕ) (token : String) (from_failure : Bool) (js out : List Job)
      (b c : RedisBroker redis)
      → run_marked redis randint token from_failure js b ≡ some (ok out, c)
      → js ≡ out
  run_marked-ok randint token from_failure [] out b c h = cc
  run_marked-ok randint token from_failure (j ∷ js) out b c h = returned-ok (j ∷ js) out _ c h

  after_marking :
      (randint : ℕ → ℕ) (token : String) (from_failure : Bool) (r : Result (List Job))
      (out : List Job) (b c : RedisBroker redis)
      → (elim r [
        | raise e ↦ some (raise e, b)
        | ok marked ↦ run_marked redis randint token from_failure marked b
      ])
        ≡ some (ok out, c)
      → r ≡ ok out
  after_marking randint token from_failure (ok marked) out b c h =
      ap ok (run_marked-ok randint token from_failure marked out b c h)
  after_marking randint token from_failure (raise e) out b c h = absurd (grind (arith, h))

  enqueue_jobs-marked :
      (randint : ℕ → ℕ) (token : String) (now : ℕ) (from_failure : Bool) (js out : List Job)
      (b c : RedisBroker redis)
      → enqueue_jobs redis randint token now from_failure js b ≡ some (ok out, c)
      → mark_all now js ≡ ok out
  unfolding enqueue_jobs
  enqueue_jobs-marked randint token now from_failure js out b c h =
      after_marking randint token from_failure (mark_all now js) out b c h

  -- `RedisBroker` keeps the contract over any server and any connection: `enqueue_jobs`, if it returns, returns
  -- the jobs it was given under the status of their dates, and `get_jobs_from_queue` returns no more
  -- than it was asked for.
  pub redis_broker-Contract : Contract redis_broker
  redis_broker-Contract = record {
    marked = λ m from_failure js out s t e.
        enqueue_jobs-marked m.randint m.token m.now from_failure js out s t e;
    bounded = λ queue max_jobs js s t some_room e.
        get_jobs_from_queue-bounded redis queue max_jobs js s t some_room (ends-injective e);
  }
