-- ===== src/Redis/Broker.antt =====
-- `RedisBroker` of spinach/brokers/redis.py: how it runs its scripts, and its methods. A request
-- to the server may get lost, and so may the answer to it.
pub mod Runs
pub mod Enqueueing
pub mod Info
pub mod Methods
pub mod Idempotent
pub mod Bounded
pub mod AsBroker
use spinach.Prelude.{ℕ, zero, suc, ◌+◌, Bool, String, Option, none, some}
use spinach.Outcome.{Result, ok, raise, connection_error, response_error}
use spinach.Action.{Action}
use spinach.Utils.{Call, returns, listed, unlisted}
use spinach.Redis.Commands.{Redis}
use spinach.Redis.Scripts.{Script, Reply}

-- What happens to one request.
pub data Fate : Type 0 where
  arrives lost unanswered : Fate

-- The broker and the server: `fates` are those of the requests to come. Other clients of the server
-- are left out.
pub record RedisBroker (redis : Redis) : Type 0 where
  pub store : redis.Store
  pub fates : ℕ → Fate
  pub namespace : String
  pub id : String
  pub enqueue_job_max_retries : ℕ
  pub number_periodic_tasks : ℕ
  pub something_happened : Bool
  pub must_stop : Bool

module _ (redis : Redis) where
  abbrev pub Method : Type 0 → Type 0
  Method A = Action (RedisBroker redis) A

  abbrev pub next_request : redis.Store → RedisBroker redis → RedisBroker redis
  next_request s b = record b { store = s; fates = λ n. b.fates (suc n) }
