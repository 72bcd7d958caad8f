-- ===== src/Redis/Broker/Enqueueing.antt =====
-- `enqueue_jobs` of `RedisBroker` of spinach/brokers/redis.py, and the names of its keys.
use Prim.Native.String.{◌++◌ as str_append}
use spinach.Prelude.{ℕ, Bool, String, List, [], ◌∷◌, map, Option, none, some}
use spinach.Outcome.{Result, ok, raise}
use spinach.Job.{Job, serialize}
use spinach.Broker.{mark_all}
use spinach.Redis.Commands.{Redis}
use spinach.Redis.Scripts.{Reply, EnqueueArgs, enqueue_job}
use spinach.Redis.Broker.{RedisBroker}
use spinach.Redis.Broker.Runs.{run_protected}

-- `self._to_namespaced(key)`
abbrev pub key : {redis : Redis} → RedisBroker redis → String → String
key b k = str_append b.namespace (str_append "/" k)

abbrev pub running_jobs_key : {redis : Redis} → RedisBroker redis → String → String
running_jobs_key b id = key b (str_append "_running-jobs-on-broker-" id)

module _ (redis : Redis) where
  abbrev pub enqueue_args : RedisBroker redis → Bool → EnqueueArgs
  enqueue_args b from_failure = record {
    notifications = key b "_notifications";
    running_jobs_key = running_jobs_key b b.id;
    namespace = b.namespace;
    future_jobs = key b "_future-jobs";
    max_concurrency_key = key b "_max_concurrency";
    current_concurrency_key = key b "_current_concurrency";
    from_failure = from_failure;
  }

  abbrev pub idempotency_key : RedisBroker redis → String → String
  idempotency_key b token = key b (str_append "idempotency_" token)

  abbrev pub returned :
      List Job
      → Option (Result Reply × RedisBroker redis)
      → Option (Result (List Job) × RedisBroker redis)
  returned js none = none
  returned js (some (ok reply, b)) = some (ok js, b)
  returned js (some (raise e, b)) = some (raise e, b)

  abbrev pub run_marked :
      (ℕ → ℕ)
      → String
      → Bool
      → List Job
      → RedisBroker redis
      → Option (Result (List Job) × RedisBroker redis)
  run_marked randint token from_failure [] b = some (ok [], b)
  run_marked randint token from_failure (j ∷ js) b = returned (j ∷ js) (
      run_protected redis randint (idempotency_key b token)
        (enqueue_job redis (enqueue_args b from_failure) (map serialize (j ∷ js))) b)

  -- The jobs with their new status are returned; the source changes them in place.
  unfoldable pub enqueue_jobs :
      (ℕ → ℕ)
      → String
      → ℕ
      → Bool
      → List Job
      → RedisBroker redis
      → Option (Result (List Job) × RedisBroker redis)
  unfolding mark_all run_protected enqueue_job serialize
  enqueue_jobs randint token now from_failure js b = elim (mark_all now js) [
    | raise e ↦ some (raise e, b)
    | ok marked ↦ run_marked randint token from_failure marked b
  ]
