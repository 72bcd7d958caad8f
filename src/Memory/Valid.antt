-- ===== src/Memory/Valid.antt =====
-- Every text that the queues and the future jobs of spinach/brokers/memory.py hold can be read back,
-- the future jobs are in order, and enqueueing leaves the concurrency counts alone.
use spinach.Prelude.{
  ℕ, ◌≡◌, refl, subst, ◌∙◌, true, false, String, List, [], ◌∷◌, ◌++◌, some, lookup, lookup-insert,
  str_eq, arith, Bool-cases, Option-cases, All-append, if◌then◌else◌, inl, inr,
}
use spinach.Outcome.{Result, ok, raise, IsOk, is_ok}
use spinach.Action.{Always, >>=-Always, ◌>>=◌, lift, and_then}
use spinach.Json.{Json}
use spinach.Job.{Job, queued, waiting, serialize, deserialize, should_start}
use spinach.Job.RoundTrip.{deserialize-serialize_loads}
use spinach.Memory.Order.{ValidDocs, IsFuture, sort_by_at-IsFuture, sort_by_at-IsOk}
use spinach.Memory.{
  MemoryBroker, Method, get_queue, set_queue, put, to_namespaced, sort_by_at, enqueue_now,
  enqueue_later, enqueue_job, enqueue_each, enqueue_jobs, release_concurrency, set_event,
}

pub record IsSound (b : MemoryBroker) : Type 0 where
  pub queues_valid :
      (key : String) (docs : List Json) → lookup key b.queues ≡ some docs → ValidDocs docs
  pub future_valid : IsFuture b.future_jobs

-- The limits and counts stay as they are, and what is sound stays so.
pub record Quiet (b b' : MemoryBroker) : Type 0 where
  pub max_same : b'.max_concurrency_keys ≡ b.max_concurrency_keys
  pub cur_same : b'.cur_concurrency_keys ≡ b.cur_concurrency_keys
  pub sound : IsSound b → IsSound b'

pub Quiet-refl : (b : MemoryBroker) → Quiet b b
Quiet-refl b = record { max_same = refl; cur_same = refl; sound = λ s. s }

pub Quiet-trans : (b c d : MemoryBroker) → Quiet b c → Quiet c d → Quiet b d
Quiet-trans b c d h k = record {
  max_same = k.max_same ∙ h.max_same;
  cur_same = k.cur_same ∙ h.cur_same;
  sound = λ s. k.sound (h.sound s);
}

pub serialize-IsOk : (j : Job) → IsOk (deserialize (serialize j))
serialize-IsOk j = is_ok _ (deserialize-serialize_loads j)

pub get_queue-ValidDocs :
    (b : MemoryBroker) (name : String) → IsSound b → ValidDocs (get_queue b name)
unfolding get_queue
get_queue-ValidDocs b name s = elim (Option-cases (lookup (to_namespaced b name) b.queues)) [
  | inl e ↦ rw (e, get_queue) tt
  | inr (docs, e) ↦ rw (e, get_queue) (s.queues_valid _ docs e)
]

pub set_queue-IsSound :
    (b : MemoryBroker) (name : String) (docs : List Json)
    → IsSound b
    → ValidDocs docs
    → IsSound (set_queue name docs b)
unfolding set_queue
set_queue-IsSound b name docs s v = record {
  queues_valid = λ key ds e. elim (Bool-cases (str_eq (to_namespaced b name) key)) [
    | inl same ↦
        subst ValidDocs (ground (arith, lookup-insert (to_namespaced b name) key docs b.queues)) v
    | inr other ↦
        s.queues_valid key ds
          (ground (arith, lookup-insert (to_namespaced b name) key docs b.queues))
  ];
  future_valid = s.future_valid;
}

pub put-IsSound :
    (b : MemoryBroker) (name : String) (j : Job) → IsSound b → IsSound (put name (serialize j) b)
unfolding put
put-IsSound b name j s =
    set_queue-IsSound b name _ s
      (All-append _ (get_queue b name) _ (get_queue-ValidDocs b name s) (serialize-IsOk j, tt))

enqueue_now-Quiet : (j : Job) → Always Quiet (enqueue_now j)
unfolding enqueue_now put set_queue
enqueue_now-Quiet j b = record {
  max_same = refl;
  cur_same = refl;
  sound = put-IsSound b j.queue (record j { status = queued });
}

abbrev with_waiting : Job → MemoryBroker → List Json
with_waiting j b = b.future_jobs ++ serialize (record j { status = waiting }) ∷ []

-- The future jobs are put in order; that does not raise, since they can be read.
enqueue_later_sorted :
    (j : Job) (b : MemoryBroker) (r : Result (List Json))
    → sort_by_at (with_waiting j b) ≡ r
    → (IsSound b → ValidDocs (with_waiting j b))
    → Quiet b (enqueue_later j b).1
unfolding enqueue_later
enqueue_later_sorted j b (ok out) e v =
    rw (e, enqueue_later)
      (record {
        max_same = refl;
        cur_same = refl;
        sound = λ s. record {
          queues_valid = s.queues_valid;
          future_valid = sort_by_at-IsFuture _ out e (v s);
        };
      })
enqueue_later_sorted j b (raise x) e v =
    rw (e, enqueue_later)
      (record {
        max_same = refl;
        cur_same = refl;
        sound = λ s. elim (sort_by_at-IsOk (with_waiting j b) (v s)) [ is_ok out f ↦ absurd (cc) ];
      })

enqueue_later-Quiet : (j : Job) → Always Quiet (enqueue_later j)
enqueue_later-Quiet j b = enqueue_later_sorted j b _ refl (λ s.
    All-append _ b.future_jobs _ s.future_valid.0
      (serialize-IsOk (record j { status = waiting }), tt))

-- What follows a step starts from the state that the step leaves, if it runs at all.
pub and_then-Quiet :
    {A B : Type 0} (r : Result A) (f : A → Method B) (b : MemoryBroker)
    → ((a : A) → Always Quiet (f a))
    → Quiet b (and_then r f b).1
and_then-Quiet (ok a) f b h = h a b
and_then-Quiet (raise e) f b h = Quiet-refl b

pub >>=-Quiet_from :
    {A B : Type 0} (b c : MemoryBroker) (m : Method A) (f : A → Method B)
    → Quiet b (m c).1
    → ((a : A) → Always Quiet (f a))
    → Quiet b ((m >>= f) c).1
>>=-Quiet_from b c m f h k = let (r, t) = m c in Quiet-trans b t _ h (and_then-Quiet r f t k)

unfoldable pub enqueue_start : ℕ → Job → Method Job
unfolding enqueue_now enqueue_later should_start
enqueue_start now j = do
  starts ← lift (should_start now j)
  if starts then enqueue_now j else enqueue_later j

enqueue_start-Quiet : (now : ℕ) (j : Job) → Always Quiet (enqueue_start now j)
unfolding enqueue_start
enqueue_start-Quiet now j b =
    and_then-Quiet (should_start now j) _ b
      (elim [ true ↦ enqueue_now-Quiet j | false ↦ enqueue_later-Quiet j ])

enqueue_each-Quiet : (now : ℕ) (js : List Job) → Always Quiet (enqueue_each now false js)
unfolding enqueue_each enqueue_start
enqueue_each-Quiet now [] b = Quiet-refl b
enqueue_each-Quiet now (j ∷ js) b =
    >>=-Always Quiet Quiet-trans (enqueue_start now j) _ (enqueue_start-Quiet now j)
      (λ job.
        >>=-Always Quiet Quiet-trans (enqueue_each now false js) _ (enqueue_each-Quiet now js)
          (λ jobs. Quiet-refl))
      b

pub set_event-Quiet : (b : MemoryBroker) → Quiet b (set_event b)
set_event-Quiet b = record {
  max_same = refl;
  cur_same = refl;
  sound = λ s. record { queues_valid = s.queues_valid; future_valid = s.future_valid };
}

-- Enqueueing new jobs.
pub enqueue_jobs-Quiet : (now : ℕ) (js : List Job) → Always Quiet (enqueue_jobs now false js)
unfolding enqueue_jobs
enqueue_jobs-Quiet now js =
    >>=-Always Quiet Quiet-trans (enqueue_each now false js) _ (enqueue_each-Quiet now js)
      (λ jobs. set_event-Quiet)

-- Enqueueing a job again after a failure gives its place up first, and nothing else.
pub enqueue_failed-Quiet :
    (now : ℕ) (j : Job) (b : MemoryBroker)
    → Quiet (release_concurrency j.task_name b).1 (enqueue_jobs now true (j ∷ []) b).1
unfolding enqueue_jobs enqueue_start
enqueue_failed-Quiet now j b =
    let released = (release_concurrency j.task_name b).1 in
    >>=-Quiet_from released b (enqueue_each now true (j ∷ [])) _
      (>>=-Quiet_from released b (enqueue_job now true j) _
        (>>=-Quiet_from released b (release_concurrency j.task_name) _ (Quiet-refl released)
          (λ u. enqueue_start-Quiet now j))
        (λ job. Quiet-refl))
      (λ jobs. set_event-Quiet)
