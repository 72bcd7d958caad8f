-- ===== src/Samples/Dead.antt =====
-- A dead broker of spinach/brokers/redis.py, which was running two jobs of one task: one can be tried
-- again, and the other has used its retry up.
use spinach.Prelude.{none, pos, ◌≡◌, refl, List, [], ◌∷◌, ◌++◌, lookup, All}
use spinach.Outcome.{ok}
use spinach.Time.{aware, utc, to_utc}
use spinach.Json.{loads, get}
use spinach.Job.{Job, running, create, serialize}
use spinach.Redis.Scripts.{re_enqueued}
use spinach.Redis.Scripts.Fetching.{enqueue_jobs_from_dead_broker}
use spinach.Redis.Scripts.Dead.{Row, Reads, retried, retried_of, given_up, Counted, put_back}
use spinach.Redis.Scripts.Dead.Buried.{dead_broker_buried}
use spinach.Samples.Server.{
  Store, server, server-CountsTasks, server-KeepsCounts, server-KeepsQueues,
}

abbrev fresh_job : Job
fresh_job = record (create "id-1" "send_mail" "mails" (aware 5 utc) 1 none none) {
  status = running;
}

abbrev tired_job : Job
tired_job = record fresh_job { id = "id-2"; retries = 1 }

abbrev row : Job → Row
row j = record {
  doc = serialize j;
  id = j.id;
  task_name = j.task_name;
  queue = j.queue;
  max_retries = j.max_retries;
  retries = j.retries;
}

abbrev rows : List Row
rows = row fresh_job ∷ row tired_job ∷ []

abbrev dead : Store
dead = record {
  keys = [];
  lists = [];
  hashes =
      (
        "app/_running-jobs-on-broker-b-2",
        ("id-1", serialize fresh_job) ∷ ("id-2", serialize tired_job) ∷ [],
      )
      ∷ [];
  counts =
      ("app/_max_concurrency", ("send_mail", pos 2) ∷ [])
      ∷ ("app/_current_concurrency", ("send_mail", pos 2) ∷ [])
      ∷ [];
  zsets = [];
  names = [];
}

rows-Reads : All (Reads server) rows
unfolding serialize create loads get to_utc
rows-Reads = (
  record {
    id_read = refl;
    task_name_read = refl;
    queue_read = refl;
    max_retries_read = refl;
    retries_read = refl;
  },
  (
    record {
      id_read = refl;
      task_name_read = refl;
      queue_read = refl;
      max_retries_read = refl;
      retries_read = refl;
    },
    tt,
  ),
)

-- The job that is given up is still counted as running.
one_still_counted : (retried rows ≡ 1) × (given_up rows ≡ serialize tired_job ∷ [])
unfolding retried given_up create
one_still_counted = (refl, refl)

dead_broker_buried_example :
    let (reply, after) =
      enqueue_jobs_from_dead_broker server "b-2" "app/_running-jobs-on-broker-b-2"
        "app/_all_brokers_hash" "app/_all_brokers_zset" "app" "app/_notifications"
        "app/_max_concurrency" "app/_current_concurrency" dead in
    (reply ≡ ok (re_enqueued (retried rows) (given_up rows)))
    × (server.lrange "app/mails" after
        ≡ server.lrange "app/mails" dead ++ put_back server "app" "app/mails" rows)
    × Counted server "app/_max_concurrency" "app/_current_concurrency" "send_mail" 2 1 after
unfolding lookup retried_of create
dead_broker_buried_example =
    dead_broker_buried server "app/_running-jobs-on-broker-b-2" "app" "app/_max_concurrency"
      "app/_current_concurrency" server-CountsTasks server-KeepsCounts "send_mail" 2
      (λ e. absurd (cc)) (λ e. absurd (cc)) (λ e. absurd (cc)) rows "b-2" "app/_all_brokers_hash"
      "app/_all_brokers_zset" "app/_notifications" server-KeepsQueues "app/mails" 1 dead
      (λ e. absurd (cc)) (λ e. absurd (cc)) (λ e. absurd (cc)) (λ e. absurd (cc)) (λ e. absurd (cc))
      (λ e. absurd (cc)) refl rows-Reads (refl, refl)
