-- ===== src/Engine/Concurrency.antt =====
-- The concurrency limits over any history of an engine over one memory broker.
use spinach.Prelude.{
  ℕ, ◌+◌, ◌≤◌, pos, ◌≡◌, refl, sym, ap, subst, ◌⊎◌, inl, inr, String, List, [], ◌∷◌, ◌++◌, Option,
  none, some, lookup, lookup-insert, arith, All-append, true,
}
use spinach.Outcome.{Result, IsOk, is_ok}
use spinach.Job.{Job, JobStatus, not_set, succeeded, failed}
use spinach.Job.Advance.{Error, advance_job_status}
use spinach.Job.Advance.Outcomes.{advance_cases, advance-task_name}
use spinach.Task.{Task}
use spinach.Memory.{MemoryBroker, create, release_concurrency, enqueue_jobs, get_queue}
use spinach.Memory.Fetch.{get_jobs_from_queue, set_concurrency_keys, fetch, finish_fetch, Fetched}
use spinach.Memory.Future.{move_future_jobs}
use spinach.Memory.Counts.{
  is_of, is_named, count, Counted, Counted-cong, count-append, count-middle, FetchInv,
  fetch-FetchInv,
}
use spinach.Memory.Valid.{
  IsSound, Quiet, Quiet-refl, >>=-Quiet_from, enqueue_jobs-Quiet, enqueue_failed-Quiet,
  get_queue-ValidDocs, set_queue-IsSound,
}
use spinach.Memory.Moves.{register_periodic_tasks-Quiet, move_future_jobs-Quiet}
use spinach.Memory.Runs.{IfEnds}
use spinach.Memory.Release.{Released, release-Released, Released-Quiet, remove-Quiet}
use spinach.Engine.{notify, notify_as}
use spinach.Engine.System.{
  System, handed_out, Step, enqueues, moves, registers, fetches, reports, start, Reach, here, next,
}

pub record Inv (s : System) : Type 0 where
  pub sound : IsSound s.broker
  pub counted :
      Counted s.broker.max_concurrency_keys s.broker.cur_concurrency_keys (λ t. count t s.running)

Quiet-Inv :
    (b c : MemoryBroker) (js : List Job)
    → Quiet b c
    → Inv (record { broker = b; running = js })
    → Inv (record { broker = c; running = js })
Quiet-Inv b c js q v = record {
  sound = q.sound v.sound;
  counted = rw (q.max_same, q.cur_same) v.counted;
}

finish_fetch-Inv :
    (b : MemoryBroker) (js : List Job) (queue : String) (f : Fetched)
    → IsSound b
    → FetchInv b.max_concurrency_keys (λ t. count t js) f
    → Inv (record {
      broker = (finish_fetch queue f b).1;
      running = handed_out (finish_fetch queue f b).0 ++ js;
    })
unfolding finish_fetch
finish_fetch-Inv b js queue f s v =
    rw (v.fine, finish_fetch)
      (record {
        sound =
            set_queue-IsSound (record b { cur_concurrency_keys = f.cur_keys }) queue
              (f.rest ++ f.jobs_to_re_add)
              (record { queues_valid = s.queues_valid; future_valid = s.future_valid })
              (All-append _ f.rest f.jobs_to_re_add v.rest_valid v.re_add_valid);
        counted =
            Counted-cong b.max_concurrency_keys f.cur_keys _ _ (λ t. sym (count-append t f.jobs js))
              v.counted;
      })

fetch-Inv :
    (b : MemoryBroker) (js : List Job) (queue : String) (max_jobs : ℕ)
    → Inv (record { broker = b; running = js })
    → Inv (record {
      broker = (get_jobs_from_queue queue max_jobs b).1;
      running = handed_out (get_jobs_from_queue queue max_jobs b).0 ++ js;
    })
unfolding get_jobs_from_queue
fetch-Inv b js queue max_jobs v =
    finish_fetch-Inv b js queue
      (fetch b.max_concurrency_keys max_jobs (get_queue b queue) b.cur_concurrency_keys) v.sound
      (fetch-FetchInv b.max_concurrency_keys max_jobs (get_queue b queue) b.cur_concurrency_keys
        (λ t. count t js) v.counted (get_queue-ValidDocs b queue v.sound))

abbrev pub IsReported : JobStatus → Type 0
IsReported s = (s ≡ not_set) ⊎ ((s ≡ succeeded) ⊎ (s ≡ failed))

notify_as-Released :
    (s : JobStatus) (now : ℕ) (j : Job) (b : MemoryBroker) (n : String → ℕ)
    → IsReported s
    → Released n b (release_concurrency j.task_name b).1
    → Released n b (notify_as s now j b).1
unfolding notify_as
notify_as-Released succeeded now j b n h r = Released-Quiet n b _ _ r (remove-Quiet j b)
notify_as-Released failed now j b n h r = Released-Quiet n b _ _ r (remove-Quiet j b)
notify_as-Released not_set now j b n h r = Released-Quiet n b _ _ r (
    >>=-Quiet_from _ b (enqueue_jobs now true (j ∷ [])) _ (enqueue_failed-Quiet now j b)
      (λ js. Quiet-refl))
notify_as-Released _ now j b n h r = absurd (ground arith)

pub IsReported-status :
    {s : JobStatus} {A B C : Type 0}
    → ((s ≡ not_set) × A × B × C) ⊎ ((s ≡ succeeded) ⊎ (s ≡ failed))
    → IsReported s
IsReported-status (inl h) = inl h.0
IsReported-status (inr h) = inr h

-- A job that was run and is reported gives its place up.
report-Inv :
    (b : MemoryBroker) (js before : List Job) (j : Job) (after : List Job) (ended now : ℕ)
    (randint : ℕ → ℕ) (err : Option Error)
    → js ≡ before ++ j ∷ after
    → Inv (record { broker = b; running = js })
    → Inv (record {
      broker = (notify now (advance_job_status ended randint j err).job b).1;
      running = before ++ after;
    })
unfolding notify
report-Inv b js before j after ended now randint err e v =
    let k = (advance_job_status ended randint j err).job in
    let named : k.task_name ≡ j.task_name = advance-task_name ended randint j err in
    let counted : Counted b.max_concurrency_keys b.cur_concurrency_keys
        (λ t. is_of t k + count t (before ++ after)) =
      Counted-cong b.max_concurrency_keys b.cur_concurrency_keys _ _
        (λ t. omega (arith, ap (count t) e, count-middle t before j after, ap (is_named t) named))
        v.counted in
    let r =
      notify_as-Released k.status now k b _ (IsReported-status (advance_cases ended randint j err))
        (release-Released b _ k counted) in
    record { sound = r.sound v.sound; counted = r.counted }

set_concurrency_keys-Counted :
    (ts : List Task) (b : MemoryBroker)
    → Counted b.max_concurrency_keys b.cur_concurrency_keys (λ t. 0)
    → let c = set_concurrency_keys ts b in
      Counted c.max_concurrency_keys c.cur_concurrency_keys (λ t. 0)
unfolding set_concurrency_keys
set_concurrency_keys-Counted [] b h = h
set_concurrency_keys-Counted (t ∷ ts) b h = set_concurrency_keys-Counted ts _ λ k m e. ground (
  arith,
  lookup-insert t.name k (pos 0) b.cur_concurrency_keys,
  lookup-insert t.name k t.max_concurrency b.max_concurrency_keys,
  h k m,
)

set_concurrency_keys-IsSound :
    (ts : List Task) (b : MemoryBroker) → IsSound b → IsSound (set_concurrency_keys ts b)
unfolding set_concurrency_keys
set_concurrency_keys-IsSound [] b s = s
set_concurrency_keys-IsSound (t ∷ ts) b s =
    set_concurrency_keys-IsSound ts _
      (record { queues_valid = s.queues_valid; future_valid = s.future_valid })

start-Inv : (namespace : String) (tasks : List Task) → Inv (start namespace tasks)
unfolding start create lookup count
start-Inv namespace tasks = record {
  sound =
      set_concurrency_keys-IsSound tasks (create namespace)
        (record { queues_valid = λ key docs e. cc; future_valid = (tt, tt) });
  counted = set_concurrency_keys-Counted tasks (create namespace) (λ t m e. cc);
}

move-Inv :
    (s : System) (fuel now mono : ℕ) (uuid : ℕ → String) (r : Result ℕ) (b : MemoryBroker)
    → move_future_jobs fuel now mono uuid s.broker ≡ some (r, b)
    → Inv s
    → Inv (record s { broker = b })
move-Inv s fuel now mono uuid r b e v =
    Quiet-Inv s.broker b s.running
      (subst (IfEnds Quiet s.broker) e (move_future_jobs-Quiet now mono uuid fuel s.broker)) v

Step-Inv : {s t : System} → Step s t → Inv s → Inv t
Step-Inv (enqueues s now js) v =
    Quiet-Inv s.broker _ s.running (enqueue_jobs-Quiet now js s.broker) v
Step-Inv (moves s fuel now mono uuid r b e) v = move-Inv s fuel now mono uuid r b e v
Step-Inv (registers s mono ts) v =
    Quiet-Inv s.broker _ s.running (register_periodic_tasks-Quiet mono ts s.broker) v
Step-Inv (fetches s queue max_jobs) v = fetch-Inv s.broker s.running queue max_jobs v
Step-Inv (reports s before j after ended now randint err e) v =
    report-Inv s.broker s.running before j after ended now randint err e v

pub Reach-Inv :
    {namespace : String} {tasks : List Task} {s : System} → Reach namespace tasks s → Inv s
Reach-Inv {namespace} {tasks} here = start-Inv namespace tasks
Reach-Inv (next r st) = Step-Inv st (Reach-Inv r)

-- In every state that an engine reaches, for every task with a limit: the count that the broker
-- keeps is the number of its jobs that were taken and not reported yet, and that is within the
-- limit.
pub concurrency_limit :
    (namespace : String) (tasks : List Task) (s : System) (t : String) (m : ℕ)
    → Reach namespace tasks s
    → lookup t s.broker.max_concurrency_keys ≡ some (some m)
    → (lookup t s.broker.cur_concurrency_keys ≡ some (pos (count t s.running)))
      × (count t s.running ≤ m)
concurrency_limit namespace tasks s t m r e = (Reach-Inv r).counted t m e

finish_fetch-IsOk :
    (queue : String) (f : Fetched) (b : MemoryBroker)
    → f.error ≡ none
    → IsOk (finish_fetch queue f b).0
unfolding finish_fetch
finish_fetch-IsOk queue f b fine = rw (fine, finish_fetch) (is_ok f.jobs refl)

-- In every state that an engine reaches, fetching raises nothing.
pub fetch_total :
    (namespace : String) (tasks : List Task) (s : System) (queue : String) (max_jobs : ℕ)
    → Reach namespace tasks s
    → IsOk (get_jobs_from_queue queue max_jobs s.broker).0
unfolding get_jobs_from_queue
fetch_total namespace tasks s queue max_jobs r =
    let v = Reach-Inv r in
    let b = s.broker in
    let fetched =
      fetch b.max_concurrency_keys max_jobs (get_queue b queue) b.cur_concurrency_keys in
    finish_fetch-IsOk queue fetched b
      (fetch-FetchInv b.max_concurrency_keys max_jobs (get_queue b queue) b.cur_concurrency_keys
        (λ t. count t s.running) v.counted (get_queue-ValidDocs b queue v.sound)).fine
