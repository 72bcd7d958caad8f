-- ===== src/Samples/Keepalive.antt =====
-- A broker of spinach/brokers/redis.py that moves a due job, and finds another broker dead.
use spinach.Prelude.{lookup, insert, ℕ, ◌/◌, pos, ◌≡◌, refl, [], ◌∷◌, none, false}
use spinach.Outcome.{ok}
use spinach.Time.{aware, utc, to_utc}
use spinach.Json.{Json, dumps, loads, get}
use spinach.Job.{Job, create, serialize, waiting, queued, running}
use spinach.Redis.Scripts.{set_field}
use spinach.Redis.Broker.{arrives, RedisBroker}
use spinach.Redis.Broker.Info.{get_broker_info}
use spinach.Redis.Broker.Methods.{move_future_jobs}
use spinach.Samples.Server.{server}

abbrev now : ℕ
now = 5_000_000_000

abbrev info : Json
info = dumps (get_broker_info "b-1" "here" 10 "app" 5000)

abbrev dead_info : Json
dead_info = dumps (get_broker_info "b-0" "there" 10 "app" 100)

abbrev later_job : Job
later_job = record (create "id-1" "send_mail" "mails" (aware 7_000_000 utc) 1 none none) {
  status = waiting;
}

-- The job that ran on the dead broker, which may be retried once.
abbrev lost_job : Job
lost_job = record later_job { id = "id-0"; status = running }

abbrev broker : RedisBroker server
broker = record {
  store = record {
    keys = [];
    lists = [];
    hashes =
        ("app/_all_brokers_hash", ("b-0", dead_info) ∷ [])
        ∷ ("app/_running-jobs-on-broker-b-0", ("id-0", serialize lost_job) ∷ [])
        ∷ [];
    counts = [];
    zsets = ("app/_future-jobs", (serialize later_job, pos 8) ∷ []) ∷ [];
    names = ("app/_all_brokers_zset", ("b-0", pos 100) ∷ []) ∷ [];
  };
  fates = λ n. arrives;
  namespace = "app";
  id = "b-1";
  enqueue_job_max_retries = 4;
  number_periodic_tasks = 0;
  something_happened = false;
  must_stop = false;
}

-- Both jobs are in the queue, the second as its first retry; only the broker that lives is registered.
kept_alive :
    let (result, after) = move_future_jobs server now (λ n. n / 2) info (λ n. []) broker in
    (result ≡ ok (1, []))
    × (after.store.lists
        ≡ (
          "app/mails",
          serialize (record later_job { status = queued })
              ∷ serialize (record lost_job { status = queued; retries = 1 })
              ∷ [],
        )
          ∷ [])
    × (after.store.names ≡ ("app/_all_brokers_zset", ("b-1", pos 5000) ∷ []) ∷ [])
unfolding move_future_jobs get_broker_info create serialize to_utc get loads set_field lookup insert
kept_alive = (refl, refl, refl)
