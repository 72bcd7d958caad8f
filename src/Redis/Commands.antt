-- ===== src/Redis/Commands.antt =====
-- The commands of Redis that the scripts of spinach/brokers/redis_scripts and the Redis broker call,
-- and Redis's JSON library `cjson`. A server is a parameter; the laws are what Redis documents.
use spinach.Prelude.{
  ℕ, ℤ, Bool, true, false, String, List, [], ◌∷◌, ◌++◌, Option, none, some, length, ◌+◌, ◌+ℤ◌, ◌≡◌,
  ◌≢◌,
}
use spinach.Json.{Fields, Json}

pub record Redis : Type 1 where
  pub Store : Type 0
  -- A key exists, and `SET key true EX 3600 NX`: whether it was set. The hour is never over here.
  pub has_key : String → Store → Bool
  pub set_nx : String → Store → Bool × Store
  -- Lists.
  pub rpush : String → Json → Store → Store
  pub lpush : String → Json → Store → Store
  pub lpop : String → Store → Option Json × Store
  pub llen : String → Store → ℕ
  -- `LRANGE key 0 -1`, which says what a list holds; the scripts do not call it.
  pub lrange : String → Store → List Json
  -- Hashes, with texts and with numbers.
  pub hget : String → String → Store → Option Json
  pub hget_number : String → String → Store → Option ℤ
  pub hset : String → String → Json → Store → Store
  pub hset_number : String → String → ℤ → Store → Store
  pub hincrby : String → String → ℤ → Store → Store
  pub hdel : String → String → Store → Store
  pub hkeys : String → Store → List String
  pub hvals : String → Store → List Json
  -- Sorted sets, of texts and of names: `zrangebyscore key -inf max LIMIT 0 n`, with the scores.
  pub zadd : String → ℤ → Json → Store → Store
  pub zrem : String → Json → Store → Store
  pub zrange : String → Option ℤ → Option ℕ → Store → List (Json × ℤ)
  pub zadd_name : String → ℤ → String → Store → Store
  pub zrem_name : String → String → Store → Store
  pub zrange_names : String → Option ℤ → Option ℕ → Store → List (String × ℤ)
  pub publish : String → Store → Store
  -- `KEYS namespace/*`, and `DEL`.
  pub keys_of : String → Store → List String
  pub del : String → Store → Store
  -- `cjson.decode` of an object, and `cjson.encode`.
  pub decode : Json → Fields
  pub encode : Fields → Json

module _ (redis : Redis) where
  open redis use {
    Store, has_key, set_nx, rpush, lpush, lpop, llen, lrange, hget_number, hincrby, hset, hdel,
    zadd, publish, zrem_name,
  }

  -- What the broker relies on for its idempotency tokens: a key is set once, and of the commands that
  -- a protected script calls, only `hdel` can take a key away, and only the key that it names.
  pub record KeepsTokens : Type 0 where
    pub set_nx_fresh : (k : String) (s : Store) → has_key k s ≡ false → (set_nx k s).0 ≡ true
    pub set_nx_has : (k : String) (s : Store) → has_key k (set_nx k s).1 ≡ true
    pub set_nx_again : (k : String) (s : Store) → has_key k s ≡ true → set_nx k s ≡ (false, s)
    pub rpush_keeps :
        (k j : String) (v : Json) (s : Store) → has_key k s ≡ true → has_key k (rpush j v s) ≡ true
    pub hincrby_keeps :
        (k j f : String) (n : ℤ) (s : Store)
        → has_key k s ≡ true
        → has_key k (hincrby j f n s) ≡ true
    pub hdel_keeps :
        (k j f : String) (s : Store) → k ≢ j → has_key k s ≡ true → has_key k (hdel j f s) ≡ true
    pub zadd_keeps :
        (k j : String) (n : ℤ) (v : Json) (s : Store)
        → has_key k s ≡ true
        → has_key k (zadd j n v s) ≡ true
    pub publish_keeps :
        (k j : String) (s : Store) → has_key k s ≡ true → has_key k (publish j s) ≡ true

  -- What the fetching script relies on: a job that is popped is gone from its list, and a hash under
  -- another key has nothing to do with the list.
  pub record KeepsLists : Type 0 where
    pub lpop_shorter :
        (k : String) (v : Json) (s : Store)
        → (lpop k s).0 ≡ some v
        → llen k (lpop k s).1 + 1 ≡ llen k s
    pub hset_llen :
        (k j f : String) (v : Json) (s : Store) → k ≢ j → llen k (hset j f v s) ≡ llen k s
    pub hincrby_llen :
        (k j f : String) (n : ℤ) (s : Store) → k ≢ j → llen k (hincrby j f n s) ≡ llen k s

  -- What the fetching script relies on for its counts: `hincrby` adds to one field of one hash, and a
  -- hash is left alone by commands on other keys.
  pub record CountsTasks : Type 0 where
    pub hincrby_same :
        (k f : String) (n c : ℤ) (s : Store)
        → hget_number k f s ≡ some c
        → hget_number k f (hincrby k f n s) ≡ some (c +ℤ n)
    pub hincrby_other_key :
        (k f j g : String) (n : ℤ) (s : Store)
        → k ≢ j
        → hget_number k f (hincrby j g n s) ≡ hget_number k f s
    pub hincrby_other_field :
        (k f g : String) (n : ℤ) (s : Store)
        → f ≢ g
        → hget_number k f (hincrby k g n s) ≡ hget_number k f s
    pub hset_other :
        (k f j g : String) (v : Json) (s : Store)
        → k ≢ j
        → hget_number k f (hset j g v s) ≡ hget_number k f s
    pub lpop_other :
        (k f j : String) (s : Store) → k ≢ j → hget_number k f (lpop j s).1 ≡ hget_number k f s
    pub lpush_other :
        (k f j : String) (v : Json) (s : Store)
        → k ≢ j
        → hget_number k f (lpush j v s) ≡ hget_number k f s

  -- What the script for a dead broker relies on for the counts: a field is taken from one hash, and a
  -- command for another type of key fails and changes nothing where the key holds a hash.
  pub record KeepsCounts : Type 0 where
    pub hdel_other :
        (k f j g : String) (s : Store) → k ≢ j → hget_number k f (hdel j g s) ≡ hget_number k f s
    pub rpush_hash :
        (k f j : String) (v : Json) (s : Store) → hget_number k f (rpush j v s) ≡ hget_number k f s
    pub zrem_hash :
        (k f j name : String) (s : Store) → hget_number k f (zrem_name j name s) ≡ hget_number k f s
    pub publish_hash :
        (k f j : String) (s : Store) → hget_number k f (publish j s) ≡ hget_number k f s

  -- What the fetching script relies on for the order of a queue.
  pub record KeepsOrder : Type 0 where
    pub llen_list : (k : String) (s : Store) → llen k s ≡ length (lrange k s)
    pub lpop_empty :
        (k : String) (s : Store)
        → lrange k s ≡ []
        → ((lpop k s).0 ≡ none) × (lrange k (lpop k s).1 ≡ [])
    pub lpop_first :
        (k : String) (v : Json) (vs : List Json) (s : Store)
        → lrange k s ≡ v ∷ vs
        → ((lpop k s).0 ≡ some v) × (lrange k (lpop k s).1 ≡ vs)
    pub lpush_front : (k : String) (v : Json) (s : Store) → lrange k (lpush k v s) ≡ v ∷ lrange k s
    pub hset_list :
        (k j f : String) (v : Json) (s : Store) → k ≢ j → lrange k (hset j f v s) ≡ lrange k s
    pub hincrby_list :
        (k j f : String) (n : ℤ) (s : Store) → k ≢ j → lrange k (hincrby j f n s) ≡ lrange k s

  -- What the script for a dead broker relies on for the queues: jobs are pushed behind the others of
  -- one list, and commands for other keys and other types leave a list alone.
  pub record KeepsQueues : Type 0 where
    pub rpush_behind :
        (k : String) (v : Json) (s : Store) → lrange k (rpush k v s) ≡ lrange k s ++ v ∷ []
    pub rpush_other :
        (k j : String) (v : Json) (s : Store) → k ≢ j → lrange k (rpush j v s) ≡ lrange k s
    pub hincrby_apart :
        (k j f : String) (n : ℤ) (s : Store) → k ≢ j → lrange k (hincrby j f n s) ≡ lrange k s
    pub hdel_apart : (k j f : String) (s : Store) → k ≢ j → lrange k (hdel j f s) ≡ lrange k s
    pub zrem_apart :
        (k j name : String) (s : Store) → k ≢ j → lrange k (zrem_name j name s) ≡ lrange k s
    pub publish_list : (k j : String) (s : Store) → lrange k (publish j s) ≡ lrange k s
