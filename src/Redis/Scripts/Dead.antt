-- ===== src/Redis/Scripts/Dead.antt =====
-- What enqueue_jobs_from_dead_broker.lua of spinach/brokers/redis_scripts has to do with the jobs of a
-- dead broker: which of them are enqueued again, and which are given up.
pub mod Buried
use mathlib.Core.List.{append_assoc, append-nil}
use spinach.Prelude.{
  some, pos, ap₂, ℕ, zero, suc, ◌+◌, pos, negsuc, ◌+ℤ◌, ◌≡◌, refl, sym, ap, ◌∙◌, ◌≢◌, ◌⊎◌, Bool,
  true, false, not, ◌&&◌, String, List, [], ◌∷◌, ◌++◌, map, some, ltb, leb_ℤ, Bool-cases, inl, inr,
  arith, str_eq, eq_iff, length, All, if◌then◌else◌, subst,
}
use spinach.Outcome.{Result, ok, raise}
use spinach.Json.{num, Json}
use spinach.Redis.Commands.{Redis, CountsTasks, KeepsCounts}
use spinach.Redis.Scripts.{
  Script, Reply, re_enqueued, text, number, set_field, is_limited, in_namespace, decrement,
}
use spinach.Redis.Scripts.Fetching.{
  of_ℤ, re_enqueue_one, re_enqueue_all, enqueue_jobs_from_dead_broker,
}

-- What the script reads of a job.
pub record Row : Type 0 where
  pub doc : Json
  pub id : String
  pub task_name : String
  pub queue : String
  pub max_retries : ℕ
  pub retries : ℕ

-- A job whose retries are not used up.
abbrev pub has_retry : Row → Bool
has_retry r = ltb r.retries r.max_retries

-- How many jobs have a retry left, how many of them are of one task, and the texts of the others.
unfoldable pub retried : List Row → ℕ
retried [] = 0
retried (r ∷ rows) = if has_retry r then retried rows + 1 else retried rows

unfoldable pub retried_of : String → List Row → ℕ
retried_of name [] = 0
retried_of name (r ∷ rows) =
    if has_retry r && str_eq r.task_name name
    then retried_of name rows + 1
    else retried_of name rows

unfoldable pub given_up : List Row → List Json
given_up [] = []
given_up (r ∷ rows) = if has_retry r then given_up rows else r.doc ∷ given_up rows

module _ (redis : Redis) where
  open redis use {decode, encode, hget_number}

  pub record Reads (r : Row) : Type 0 where
    pub id_read : text "id" (decode r.doc) ≡ ok r.id
    pub task_name_read : text "task_name" (decode r.doc) ≡ ok r.task_name
    pub queue_read : text "queue" (decode r.doc) ≡ ok r.queue
    pub max_retries_read : number "max_retries" (decode r.doc) ≡ ok (pos r.max_retries)
    pub retries_read : number "retries" (decode r.doc) ≡ ok (pos r.retries)

  -- The task has this limit, and this many of its jobs are counted as running.
  abbrev pub Counted : (max_key cur_key name : String) (limit n : ℕ) (s : redis.Store) → Type 0
  Counted max_key cur_key name limit n s =
      (hget_number max_key name s ≡ some (pos limit)) × (hget_number cur_key name s ≡ some (pos n))

  -- The job as it is enqueued again: queued, with one more retry.
  abbrev pub again : Row → Json
  again r = encode (
      set_field "status" (num 2)
        (set_field "retries" (of_ℤ (pos r.retries +ℤ pos 1)) (decode r.doc)))

  -- The jobs that go behind a queue, in their order.
  unfoldable pub put_back : (namespace queue_key : String) → List Row → List Json
  put_back namespace queue_key [] = []
  put_back namespace queue_key (r ∷ rows) =
      if has_retry r && str_eq (in_namespace namespace r.queue) queue_key
      then again r ∷ put_back namespace queue_key rows
      else put_back namespace queue_key rows
