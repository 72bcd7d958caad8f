-- ===== src/Samples/Redis.antt =====
-- Jobs that are sent to a small server over a connection that loses messages, and the theorems on
-- the broker of spinach/brokers/redis.py applied to it.
use spinach.Prelude.{
  All, Bool-cases, inl, inr, str_eq, length, ◌++◌, ℕ, zero, suc, ◌+◌, ◌≤◌, pos, ◌≡◌, refl, false,
  List, [], ◌∷◌, map, Option, none, some, lookup, insert, ◌/◌, ◌⊎◌, arith,
}
use spinach.Outcome.{Result, ok, raise, connection_error}
use spinach.Time.{aware, utc, to_utc}
use spinach.Json.{Json, loads, get}
use spinach.Job.{Job, queued, running, create, serialize}
use spinach.Redis.Scripts.{jobs, set_field, enqueue_job}
use spinach.Redis.Scripts.Fetching.{FetchArgs, fetch_loop, get_jobs_from_queue}
use spinach.Redis.Scripts.Limit.{Apart, Within, get_jobs_from_queue-Within}
use spinach.Redis.Scripts.Kept.{Drawn, Reads, Counted, Limited, IsOf, running_of}
use spinach.Redis.Scripts.Kept.Queue.{get_jobs_from_queue-Kept}
use spinach.Redis.Scripts.Rounds.{fetch_loop_ends}
use spinach.Redis.Broker.{Fate, arrives, lost, unanswered, RedisBroker}
use spinach.Redis.Broker.Enqueueing.{enqueue_jobs, enqueue_args, idempotency_key}
use spinach.Broker.{mark_all}
use spinach.Redis.Broker.Idempotent.{enqueue_jobs-once}
use spinach.Samples.Server.{
  Store, server, server-KeepsTokens, server-KeepsLists, server-CountsTasks, server-KeepsOrder,
}

abbrev half : ℕ → ℕ
half n = n / 2

half-le : (n : ℕ) → half n ≤ n
half-le n = omega arith

-- The first answer gets lost, and the request after it; the third arrives.
abbrev unlucky : ℕ → Fate
unlucky zero = unanswered
unlucky (suc zero) = lost
unlucky _ = arrives

abbrev broker : RedisBroker server
broker = record {
  store = record { keys = []; lists = []; hashes = []; counts = []; zsets = []; names = [] };
  fates = unlucky;
  namespace = "app";
  id = "b-1";
  enqueue_job_max_retries = 4;
  number_periodic_tasks = 0;
  something_happened = false;
  must_stop = false;
}

abbrev job : Job
job = create "id-1" "send_mail" "mails" (aware 5 utc) 1 none none

abbrev queued_job : Job
queued_job = record job { status = queued }

abbrev sent : Option (Result (List Job) × RedisBroker server)
sent = enqueue_jobs server half "t" 7 false (job ∷ []) broker

-- Three requests, and one copy of the job in the queue.
sent_once :
    sent
    ≡ some (
      ok (queued_job ∷ []),
      record broker {
        fates = λ n. arrives;
        store = record broker.store {
          keys = "app/idempotency_t" ∷ [];
          lists = ("app/mails", serialize queued_job ∷ []) ∷ [];
          hashes = ("app/_running-jobs-on-broker-b-1", []) ∷ [];
          counts = ("app/_running-jobs-on-broker-b-1", []) ∷ [];
        };
      },
    )
unfolding enqueue_jobs create serialize to_utc get loads insert lookup
sent_once = refl

enqueue_jobs-once_example :
    let fresh = (server.set_nx (idempotency_key server broker "t") broker.store).1 in
    let script =
      enqueue_job server (enqueue_args server broker false) (map serialize (queued_job ∷ [])) in
    (out : Result (List Job)) × (c : RedisBroker server) × (enqueue_jobs server half "t" 7 false
        (job ∷ [])
        broker
      ≡ some (out, c))
    × (((out ≡ raise connection_error) × (c.store ≡ broker.store)) ⊎ (c.store ≡ (script fresh).1))
unfolding create mark_all to_utc
enqueue_jobs-once_example =
    enqueue_jobs-once server server-KeepsTokens half "t" 7 false (job ∷ []) broker queued_job []
      half-le refl refl

-- Two jobs are in the queue, and the task of the first has as many running as it may.
abbrev fetch_args : FetchArgs
fetch_args = record {
  queue = "app/mails";
  running_jobs_key = "app/_running-jobs-on-broker-b-1";
  job_status_running = 3;
  max_jobs = 1;
  max_concurrency_key = "app/_max_concurrency";
  current_concurrency_key = "app/_current_concurrency";
}

abbrev other_job : Job
other_job = record queued_job { id = "id-2"; task_name = "clean" }

abbrev busy : Store
busy = record broker.store {
  lists = ("app/mails", serialize queued_job ∷ serialize other_job ∷ []) ∷ [];
  counts =
      ("app/_max_concurrency", ("send_mail", pos 1) ∷ [])
      ∷ ("app/_current_concurrency", ("send_mail", pos 1) ∷ [])
      ∷ [];
}

-- The second job is taken, and the first is in front of the queue again.
fetched_other : get_jobs_from_queue server fetch_args busy ≡ (
  ok (jobs (serialize (record other_job { status = running }) ∷ [])),
  record busy {
    lists = ("app/mails", serialize queued_job ∷ []) ∷ [];
    hashes =
        (
          "app/_running-jobs-on-broker-b-1",
          ("id-2", serialize (record other_job { status = running })) ∷ [],
        )
        ∷ [];
  },
)
unfolding get_jobs_from_queue create serialize to_utc get loads insert lookup set_field
fetched_other = refl

fetch_loop_ends_example :
    fetch_loop server 9 fetch_args [] [] busy
    ≡ fetch_loop server (server.llen "app/mails" busy + 1) fetch_args [] [] busy
unfolding lookup
fetch_loop_ends_example =
    fetch_loop_ends server server-KeepsLists fetch_args (λ e. absurd (cc)) (λ e. absurd (cc)) 9 []
      [] busy (omega arith)

fetch_args-Apart : Apart fetch_args
fetch_args-Apart = record {
  limits_counts = λ e. absurd (cc);
  limits_running = λ e. absurd (cc);
  counts_running = λ e. absurd (cc);
  limits_queue = λ e. absurd (cc);
  counts_queue = λ e. absurd (cc);
}

busy-Within : Within server server-CountsTasks fetch_args fetch_args-Apart "send_mail" 1 busy
unfolding lookup
busy-Within = (refl, 1, refl, omega arith)

get_jobs_from_queue-Within_example :
    Within server server-CountsTasks fetch_args fetch_args-Apart "send_mail" 1
      (get_jobs_from_queue server fetch_args busy).1
get_jobs_from_queue-Within_example =
    get_jobs_from_queue-Within server server-CountsTasks fetch_args fetch_args-Apart "send_mail" 1
      busy busy-Within

busy-Reads : All (Reads server fetch_args) (serialize queued_job ∷ serialize other_job ∷ [])
unfolding serialize create loads get to_utc
busy-Reads = (
  record { id = "id-1"; task_name = "send_mail"; id_read = refl; task_name_read = refl },
  (record { id = "id-2"; task_name = "clean"; id_read = refl; task_name_read = refl }, tt),
)

busy-Counted : Counted server fetch_args busy
unfolding lookup
busy-Counted name (m, e, limited) = elim (Bool-cases (str_eq "send_mail" name)) [
  | inl t ↦ rw (t) (pos 1, refl)
  | inr t ↦ absurd (ground (arith, t, e))
]

get_jobs_from_queue-Kept_example :
    (new refused rest : List Json) × Drawn
      (serialize queued_job ∷ serialize other_job ∷ [])
      new
      refused
      rest
    × All (IsOf server fetch_args (Limited server fetch_args busy)) refused
    × ((rest ≡ []) ⊎ (length new ≡ 1))
    × ((get_jobs_from_queue server fetch_args busy).0
        ≡ ok (jobs (map (running_of server fetch_args) new)))
    × (server.lrange "app/mails" (get_jobs_from_queue server fetch_args busy).1 ≡ refused ++ rest)
unfolding lookup
get_jobs_from_queue-Kept_example =
    get_jobs_from_queue-Kept server server-CountsTasks server-KeepsOrder fetch_args fetch_args-Apart
      (serialize queued_job ∷ serialize other_job ∷ []) busy (λ e. absurd (cc)) busy-Reads
      busy-Counted refl (omega arith)
