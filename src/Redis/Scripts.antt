-- ===== src/Redis/Scripts.antt =====
-- The Lua scripts of spinach/brokers/redis_scripts, command by command. Their arguments have names
-- in place of ARGV. A value that is missing from a decoded object makes Lua raise an error.
pub mod Fetching
pub mod Periodic
pub mod Tokens
pub mod Rounds
pub mod Limit
pub mod Dead
pub mod Kept
pub mod Settings
use Prim.Native.String.{◌++◌ as str_append}
use spinach.Prelude.{
  ℕ, zero, suc, ◌+◌, ◌*◌, ℤ, pos, negsuc, ◌+ℤ◌, ◌-ℤ◌, leb_ℤ, Bool, true, false, not, ◌&&◌, String,
  List, [], ◌∷◌, ◌++◌, map, Option, none, some, leb, ltb, ◌==◌, str_eq, length, if◌then◌else◌,
}
use spinach.Outcome.{Result, ok, raise, response_error}
use spinach.Action.{Action, modify, pure, lift, asks, ◌>>=◌, ◌>>◌}
use spinach.Json.{Value, num, neg, str, dict, list, nil, Fields, end, field, Json, get}
use spinach.Redis.Commands.{Redis}

-- What a script replies with.
pub data Reply : Type 0 where
  nothing already_processed : Reply
  jobs : List Json → Reply
  moved : ℕ → List String → Reply
  re_enqueued : ℕ → List Json → Reply

abbrev as_text : Option Value → Result String
as_text (some (str s)) = ok s
as_text _ = raise response_error

abbrev as_number : Option Value → Result ℤ
as_number (some (num n)) = ok (pos n)
as_number (some (neg n)) = ok (negsuc n)
as_number _ = raise response_error

-- `object[key]`, of the two types that the scripts use.
abbrev pub text : String → Fields → Result String
text k object = as_text (get k object)

abbrev pub number : String → Fields → Result ℤ
number k object = as_number (get k object)

abbrev pub eq_ℤ : ℤ → ℤ → Bool
eq_ℤ a b = leb_ℤ a b && leb_ℤ b a

-- `object["status"] == status`
abbrev pub has_status : ℤ → Fields → Bool
has_status status object = elim (number "status" object) [ ok n ↦ eq_ℤ n status | raise e ↦ false ]

-- `object[key] = v`
unfoldable pub set_field : String → Value → Fields → Fields
set_field k v end = field k v end
set_field k v (field j w fs) = if str_eq j k then field k v fs else field j w (set_field k v fs)

-- `max_concurrency ~= nil and max_concurrency ~= -1`
abbrev pub is_limited : Option ℤ → Bool
is_limited none = false
is_limited (some n) = not (eq_ℤ n (negsuc 0))

abbrev pub in_namespace : String → String → String
in_namespace namespace queue = str_append namespace (str_append "/" queue)

pub record EnqueueArgs : Type 0 where
  pub notifications : String
  pub running_jobs_key : String
  pub namespace : String
  pub future_jobs : String
  pub max_concurrency_key : String
  pub current_concurrency_key : String
  pub from_failure : Bool

module _ (redis : Redis) where
  open redis use {
    Store, set_nx, rpush, lpush, lpop, hget, hget_number, hset, hset_number, hincrby, hdel, hkeys,
    hvals, zadd, zrem, zrange, zadd_name, zrem_name, zrange_names, publish, keys_of, del, decode,
    encode,
  }

  abbrev pub Script : Type 0 → Type 0
  Script A = Action Store A

  -- The concurrency of a task goes down by one, if the task has a limit.
  unfoldable pub decrement : String → String → String → Script (Unit {0})
  decrement max_concurrency_key current_concurrency_key task_name = do
    limited ← asks (λ s. ok (is_limited (hget_number max_concurrency_key task_name s)))
    if limited then modify (hincrby current_concurrency_key task_name (negsuc 0)) else pure tt

  -- enqueue_job.lua: the three parts of the body of its loop, for a decoded job.
  unfoldable pub release_failed : EnqueueArgs → Fields → Script (Unit {0})
  unfolding decrement
  release_failed a job =
      if a.from_failure
      then lift (text "task_name" job) >>= decrement a.max_concurrency_key a.current_concurrency_key
      else pure tt

  unfoldable pub store_one : EnqueueArgs → Fields → Json → Script (Unit {0})
  store_one a job job_json =
      if has_status (pos 2) job
      then lift (text "queue" job)
        >>= (λ queue. modify (rpush (in_namespace a.namespace queue) job_json))
      else lift (number "at" job) >>= λ at. modify (zadd a.future_jobs (at +ℤ pos 1) job_json)

  unfoldable pub forget_running : EnqueueArgs → Fields → Script (Unit {0})
  forget_running a job = lift (text "id" job) >>= λ id. modify (hdel a.running_jobs_key id)

  unfoldable pub enqueue_one : EnqueueArgs → Json → Script (Unit {0})
  unfolding release_failed store_one forget_running
  enqueue_one a job_json = do
    let job = decode job_json
    release_failed a job
    store_one a job job_json
    forget_running a job

  unfoldable pub enqueue_all : EnqueueArgs → List Json → Script (Unit {0})
  unfolding enqueue_one
  enqueue_all a [] = pure tt
  enqueue_all a (job_json ∷ rest) = do enqueue_one a job_json; enqueue_all a rest

  -- enqueue_job.lua after its guard.
  unfoldable pub enqueue_job : EnqueueArgs → List Json → Script Reply
  unfolding enqueue_all
  enqueue_job a jobs_json = do
    enqueue_all a jobs_json
    modify (publish a.notifications)
    pure nothing

  -- The guard of a protected script: nothing is done if its token is there already.
  unfoldable pub guarded : String → Script Reply → Script Reply
  guarded idempotency_token body s =
      let (fresh, after) = set_nx idempotency_token s in
      if fresh then body after else (ok already_processed, after)

  -- remove_job_from_running.lua
  unfoldable pub remove_job_from_running : String → String → String → Json → Script Reply
  unfolding decrement
  remove_job_from_running running_jobs_key max_concurrency_key current_concurrency_key job_json = do
    let job = decode job_json
    id ← lift (text "id" job)
    modify (hdel running_jobs_key id)
    task_name ← lift (text "task_name" job)
    decrement max_concurrency_key current_concurrency_key task_name
    pure nothing

  -- deregister.lua
  unfoldable pub deregister : String → String → String → Script Reply
  deregister broker_id all_brokers_hash_key all_brokers_zset_key = do
    modify (hdel all_brokers_hash_key broker_id)
    modify (zrem_name all_brokers_zset_key broker_id)
    pure nothing

  -- flush.lua
  unfoldable pub del_all : List String → Store → Store
  del_all [] s = s
  del_all (key ∷ keys) s = del_all keys (del key s)

  unfoldable pub flush : String → Script Reply
  unfolding del_all
  flush namespace s = (ok nothing, del_all (keys_of namespace s) s)
