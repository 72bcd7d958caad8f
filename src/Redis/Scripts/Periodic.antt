-- ===== src/Redis/Scripts/Periodic.antt =====
-- move_future_jobs.lua, register_periodic_tasks.lua and set_concurrency_keys.lua of
-- spinach/brokers/redis_scripts.
use spinach.Prelude.{
  ℕ, ℤ, pos, ◌+ℤ◌, ◌-ℤ◌, Bool, false, ◌||◌, String, List, [], ◌∷◌, ◌++◌, map, Option, none, some,
  ltb, length, str_eq, if◌then◌else◌,
}
use spinach.Outcome.{ok, raise}
use spinach.Action.{modify, pure, lift, asks, ◌>>=◌, ◌>>◌}
use spinach.Json.{num, str, dict, Fields, end, field, Json}
use spinach.Redis.Commands.{Redis}
use spinach.Redis.Scripts.{
  Reply, nothing, moved, text, number, set_field, is_limited, eq_ℤ, in_namespace, Script,
}
use spinach.Redis.Scripts.Fetching.{of_ℤ}

pub record MoveArgs : Type 0 where
  pub namespace : String
  pub future_jobs : String
  pub notifications : String
  pub now : ℕ
  pub job_status_queued : ℕ
  pub periodic_tasks_hash : String
  pub periodic_tasks_queue : String
  pub all_brokers_hash_key : String
  pub all_brokers_zset_key : String
  pub broker_info_json : Json
  pub broker_dead_threshold_seconds : ℕ
  pub uuids : List String

abbrev pub contains : List String → String → Bool
contains [] e = false
contains (x ∷ xs) e = str_eq x e || contains xs e

module _ (redis : Redis) where
  open redis use {
    Store, rpush, hget, hget_number, hset, hset_number, hdel, hkeys, zadd_name, zrem, zrem_name,
    zrange, zrange_names, publish, decode, encode,
  }

  abbrev periodic_job : MoveArgs → String → String → String → ℤ → Fields
  periodic_job a id task_name queue max_retries = field "id" (str id) (
      field "status" (num a.job_status_queued) (
        field "task_name" (str task_name) (
          field "queue" (str queue) (
            field "max_retries" (of_ℤ max_retries) (
              field "retries" (num 0) (
                field "at" (num a.now) (
                  field "at_us" (num 0)
                    (field "task_args" (dict end) (field "task_kwargs" (dict end) end)))))))))

  -- The job of a due periodic task, if the task is still in the hash.
  unfoldable pub create_one : MoveArgs → String → String → Script redis (List Json)
  create_one a task_name id = do
    task_json ← asks (λ s. ok (hget a.periodic_tasks_hash task_name s))
    elim task_json [
      | none ↦ modify (zrem_name a.periodic_tasks_queue task_name) >>= λ u. pure []
      | some doc ↦ lift (text "queue" (decode doc)) >>= λ queue.
          lift (number "max_retries" (decode doc)) >>= λ max_retries.
          lift (number "periodicity" (decode doc)) >>= λ periodicity.
          modify (zrem_name a.periodic_tasks_queue task_name) >>= λ u.
          modify (zadd_name a.periodic_tasks_queue (pos a.now +ℤ periodicity) task_name) >>= λ v.
          pure (encode (periodic_job a id task_name queue max_retries) ∷ [])
    ]

  unfoldable pub create_all : MoveArgs → List String → List String → Script redis (List Json)
  unfolding create_one
  create_all a [] ids = pure []
  create_all a (task_name ∷ names) [] = pure []
  create_all a (task_name ∷ names) (id ∷ ids) = do
    one ← create_one a task_name id
    rest ← create_all a names ids
    pure (one ++ rest)

  unfoldable pub move_one : MoveArgs → Json → Script redis (Unit {0})
  move_one a job_json = do
    let job = decode job_json
    queue ← lift (text "queue" job)
    modify (
        rpush (in_namespace a.namespace queue)
          (encode (set_field "status" (num a.job_status_queued) job)))
    modify (zrem a.future_jobs job_json)

  unfoldable pub move_all : MoveArgs → List Json → Script redis (Unit {0})
  unfolding move_one
  move_all a [] = pure tt
  move_all a (job_json ∷ rest) = do move_one a job_json; move_all a rest

  unfoldable pub move_future_jobs : MoveArgs → Script redis Reply
  unfolding create_all move_all
  move_future_jobs a = do
    let info = decode a.broker_info_json
    id ← lift (text "id" info)
    modify (hset a.all_brokers_hash_key id a.broker_info_json)
    last_seen_at ← lift (number "last_seen_at" info)
    modify (zadd_name a.all_brokers_zset_key last_seen_at id)
    dead ← asks (λ s. ok (
        zrange_names a.all_brokers_zset_key
          (some (pos a.now -ℤ pos a.broker_dead_threshold_seconds)) (some 10) s))
    due ← asks (λ s. ok (zrange a.future_jobs (some (pos a.now)) (some 1000) s))
    names ←
        asks (λ s.
          ok (zrange_names a.periodic_tasks_queue (some (pos a.now)) (some (length a.uuids)) s))
    created ← create_all a (map (λ p. p.0) names) a.uuids
    let jobs_json = map (λ p. p.0) due ++ created
    move_all a jobs_json
    if ltb 0 (length jobs_json) then modify (publish a.notifications) else pure tt
    pure (moved (length jobs_json) (map (λ p. p.0) dead))

  -- register_periodic_tasks.lua: a task that is new, or whose period changed, is due one period from
  -- now on.
  abbrev same_period : Option Json → ℤ → Bool
  same_period none periodicity = false
  same_period (some doc) periodicity = elim (number "periodicity" (decode doc)) [
    | ok old ↦ eq_ℤ old periodicity
    | raise e ↦ false
  ]

  unfoldable pub register_one : ℕ → String → String → Json → Script redis String
  register_one now hash queue task_json = do
    periodicity ← lift (number "periodicity" (decode task_json))
    name ← lift (text "name" (decode task_json))
    existing ← asks (λ s. ok (hget hash name s))
    if same_period existing periodicity
        then pure tt
        else modify (zadd_name queue (pos now +ℤ periodicity) name)
    modify (hset hash name task_json)
    pure name

  unfoldable pub register_all : ℕ → String → String → List Json → Script redis (List String)
  unfolding register_one
  register_all now hash queue [] = pure []
  register_all now hash queue (task_json ∷ rest) = do
    name ← register_one now hash queue task_json
    names ← register_all now hash queue rest
    pure (name ∷ names)

  -- The old names that are not among the new ones are removed.
  unfoldable pub forget : (String → Store → Store) → List String → List String → Store → Store
  forget remove new [] s = s
  forget remove new (old ∷ rest) s =
      forget remove new rest (if contains new old then s else remove old s)

  unfoldable pub register_periodic_tasks : ℕ → String → String → List Json → Script redis Reply
  unfolding register_all forget
  register_periodic_tasks now hash queue tasks_json = do
    old ← asks (λ s. ok (hkeys hash s))
    new ← register_all now hash queue tasks_json
    modify (forget (λ name s. zrem_name queue name (hdel hash name s)) new old)
    pure nothing

  -- set_concurrency_keys.lua: the names of the tasks with a limit.
  abbrev pub limited_name : ℤ → String → List String
  limited_name m name = if is_limited (some m) then name ∷ [] else []

  unfoldable pub set_one : String → String → Json → Script redis (List String)
  set_one max_key cur_key task_json = do
    max_concurrency ← lift (number "max_concurrency" (decode task_json))
    name ← lift (text "name" (decode task_json))
    if is_limited (some max_concurrency)
        then modify (hset_number max_key name max_concurrency)
        else pure tt
    current ← asks (λ s. ok (hget_number cur_key name s))
    if is_limited (some max_concurrency)
        then elim current [ none ↦ modify (hset_number cur_key name (pos 0)) | some c ↦ pure tt ]
        else pure tt
    pure (limited_name max_concurrency name)

  unfoldable pub set_all : String → String → List Json → Script redis (List String)
  unfolding set_one
  set_all max_key cur_key [] = pure []
  set_all max_key cur_key (task_json ∷ rest) = do
    one ← set_one max_key cur_key task_json
    names ← set_all max_key cur_key rest
    pure (one ++ names)

  unfoldable pub set_concurrency_keys : String → String → List Json → Script redis Reply
  unfolding set_all forget
  set_concurrency_keys max_key cur_key tasks_json = do
    old_max ← asks (λ s. ok (hkeys max_key s))
    old_cur ← asks (λ s. ok (hkeys cur_key s))
    new ← set_all max_key cur_key tasks_json
    modify (forget (hdel max_key) new old_max)
    modify (forget (hdel cur_key) new old_cur)
    pure nothing
