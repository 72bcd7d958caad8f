-- ===== src/Redis/Scripts/Kept/Queue.antt =====
-- The rounds of get_jobs_from_queue.lua of spinach/brokers/redis_scripts, and its queue before and after.
use mathlib.Core.List.{append_assoc, append-nil}
use spinach.Prelude.{
  String, ℕ, zero, suc, ◌+◌, ◌≤◌, ◌<◌, ◌≡◌, refl, sym, ap, ap₂, ◌∙◌, ◌≢◌, ◌⊎◌, inl, inr, Bool, true,
  false, List, [], ◌∷◌, ◌++◌, map, some, leb, length, length-append, arith, All, if◌then◌else◌,
}
use spinach.Outcome.{Result, ok, is_ok}
use spinach.Action.{pure}
use spinach.Json.{Json}
use spinach.Redis.Commands.{Redis, CountsTasks, KeepsOrder}
use spinach.Redis.Scripts.{jobs}
use spinach.Redis.Scripts.Fetching.{
  FetchArgs, is_full, track, run_one, Loop, round, fetch_loop, get_jobs_from_queue,
}
use spinach.Redis.Scripts.Limit.{Apart}
use spinach.Redis.Scripts.Kept.{
  Drawn, ended, taken, refused, Reads, Known, running_of, Limited, Counted, IsOf, lpop-Known,
  lpush_all-list, full_at-IsOk, full_limited, track-Known, track-list,
}

module _ (redis : Redis) (laws : CountsTasks redis) (order : KeepsOrder redis) (a : FetchArgs)
    (apart : Apart a) (queue_running : a.queue ≢ a.running_jobs_key) (P : String → Type 0) where
  open redis use {Store, lpop, hget_number}

  -- What the rounds do with the jobs `docs` of the queue.
  record Ends (docs taken_before re_add : List Json) (r : Result (List Json × List Json) × Store)
      : Type 0 where
    new : List Json
    put_back : List Json
    rest : List Json
    split : Drawn docs new put_back rest
    result : r.0 ≡ ok (taken_before ++ map (running_of redis a) new, re_add ++ put_back)
    left : redis.lrange a.queue r.1 ≡ rest
    limited : All (IsOf redis a P) put_back
    stops : (rest ≡ []) ⊎ (length taken_before + length new ≡ a.max_jobs)

  module _ (next : Loop redis) (before re_add : List Json) (doc : Json) (h : Reads redis a doc)
      (s : Store) where
    abbrev full_here : Result Bool
    full_here =
        is_full (hget_number a.max_concurrency_key h.task_name s)
          (hget_number a.current_concurrency_key h.task_name s)

    abbrev after_track : Store
    after_track = (track redis a (running_of redis a doc) h.task_name h.id s).1

    round-full :
        length before < a.max_jobs
        → full_here ≡ ok true
        → round redis next a before re_add (some doc) s ≡ next before (re_add ++ doc ∷ []) s
    round-full room e =
        let more : leb a.max_jobs (length before) ≡ false = ground (arith, room) in
        rw (h.task_name_read, e, more) refl

    round-free :
        full_here ≡ ok false
        → round redis next a before re_add (some doc) s
          ≡ (if leb a.max_jobs (length before + 1)
                then pure (before ++ running_of redis a doc ∷ [], re_add)
                else next (before ++ running_of redis a doc ∷ []) re_add)
              after_track
    unfolding run_one track
    round-free e = rw (h.task_name_read, e, h.id_read) refl

  Ends-refused :
      (doc : Json) (docs before re_add : List Json) (r : Result (List Json × List Json) × Store)
      → IsOf redis a P doc
      → Ends docs before (re_add ++ doc ∷ []) r
      → Ends (doc ∷ docs) before re_add r
  Ends-refused doc docs before re_add r p h = record {
    limited = (p, h.limited);
    new = h.new;
    put_back = doc ∷ h.put_back;
    rest = h.rest;
    split = refused doc h.split;
    result =
        h.result
        ∙ ap (λ l. ok (before ++ map (running_of redis a) h.new, l))
            (append_assoc re_add (doc ∷ []) h.put_back);
    left = h.left;
    stops = h.stops;
  }

  Ends-taken :
      (doc : Json) (docs before re_add : List Json) (r : Result (List Json × List Json) × Store)
      → Ends docs (before ++ running_of redis a doc ∷ []) re_add r
      → Ends (doc ∷ docs) before re_add r
  Ends-taken doc docs before re_add r h = record {
    limited = h.limited;
    new = doc ∷ h.new;
    put_back = h.put_back;
    rest = h.rest;
    split = taken doc h.split;
    result =
        h.result
        ∙ ap (λ l. ok (l, re_add ++ h.put_back))
            (append_assoc before (running_of redis a doc ∷ []) (map (running_of redis a) h.new));
    left = h.left;
    stops = elim h.stops [
      | inl e ↦ inl e
      | inr e ↦ inr (omega (arith, e, length-append before (running_of redis a doc ∷ [])))
    ];
  }

  Ends-enough :
      (doc : Json) (docs before re_add : List Json) (s : Store)
      → redis.lrange a.queue s ≡ docs
      → length before + 1 ≡ a.max_jobs
      → Ends (doc ∷ docs) before re_add (ok (before ++ running_of redis a doc ∷ [], re_add), s)
  Ends-enough doc docs before re_add s e full = record {
    limited = tt;
    new = doc ∷ [];
    put_back = [];
    rest = docs;
    split = taken doc ended;
    result = ap (λ l. ok (before ++ running_of redis a doc ∷ [], l)) (sym (append-nil re_add));
    left = e;
    stops = inr full;
  }

  -- A round, if the rounds after it do so.
  module _ (next : Loop redis) (docs : List Json)
      (goes_on : (before re_add : List Json) (s : Store)
        → redis.lrange a.queue s ≡ docs
        → length before < a.max_jobs
        → Known redis a P s
        → Ends docs before re_add (next before re_add s)) where
    free-Ends :
        (before re_add : List Json) (doc : Json) (enough : Bool) (s : Store)
        → leb a.max_jobs (length before + 1) ≡ enough
        → redis.lrange a.queue s ≡ docs
        → length before < a.max_jobs
        → Known redis a P s
        → Ends (doc ∷ docs) before re_add (
            (if enough
                then pure (before ++ running_of redis a doc ∷ [], re_add)
                else next (before ++ running_of redis a doc ∷ []) re_add)
              s)
    free-Ends before re_add doc true s t e room known =
        Ends-enough doc docs before re_add s e (ground arith)
    free-Ends before re_add doc false s t e room known =
        let more : length before + 1 < a.max_jobs = ground arith in
        Ends-taken doc docs before re_add _ (
          goes_on (before ++ running_of redis a doc ∷ []) re_add s e
            (omega (arith, length-append before (running_of redis a doc ∷ []))) known)

    round-Ends :
        (before re_add : List Json) (doc : Json) (h : Reads redis a doc) (s : Store)
        → redis.lrange a.queue s ≡ docs
        → length before < a.max_jobs
        → Known redis a P s
        → Ends (doc ∷ docs) before re_add (round redis next a before re_add (some doc) s)
    round-Ends before re_add doc h s e room known =
        elim (full_at-IsOk redis laws order a apart queue_running P h.task_name s known) [
          | is_ok true full ↦ rw (round-full next before re_add doc h s room full) (
              Ends-refused doc docs before re_add _
                (
                  h.task_name,
                  h.task_name_read,
                  full_limited redis laws order a apart queue_running P h.task_name s known full,
                )
                (goes_on before (re_add ++ doc ∷ []) s e room known))
          | is_ok false full ↦ rw (round-free next before re_add doc h s full) (
              free-Ends before re_add doc (leb a.max_jobs (length before + 1)) _ refl
                (track-list redis laws order a apart queue_running P (running_of redis a doc)
                    h.task_name h.id s
                  ∙ e)
                room
                (track-Known redis laws order a apart queue_running P (running_of redis a doc)
                  h.task_name h.id s known))
        ]

  fetch_loop-Ends :
      (fuel : ℕ) (docs before re_add : List Json) (s : Store)
      → All (Reads redis a) docs
      → redis.lrange a.queue s ≡ docs
      → length docs < fuel
      → length before < a.max_jobs
      → Known redis a P s
      → Ends docs before re_add (fetch_loop redis fuel a before re_add s)
  unfolding fetch_loop
  fetch_loop-Ends zero docs before re_add s h e enough room known = absurd (omega (arith, enough))
  fetch_loop-Ends (suc fuel) [] before re_add s h e enough room known =
      let (none_popped, still) = order.lpop_empty a.queue s e in
      rw (none_popped) (record {
        limited = tt;
        new = [];
        put_back = [];
        rest = [];
        split = ended;
        result = ap₂ (λ x y. ok (x, y)) (sym (append-nil before)) (sym (append-nil re_add));
        left = still;
        stops = inl refl;
      })
  fetch_loop-Ends (suc fuel) (doc ∷ docs) before re_add s (h, hs) e enough room known =
      let (popped, others) = order.lpop_first a.queue doc docs s e in
      rw (popped) (
        round-Ends (fetch_loop redis fuel a) docs
          (λ l m t e_t room_t known_t.
            fetch_loop-Ends fuel docs l m t hs e_t (omega (arith, enough)) room_t known_t)
          before re_add doc h (lpop a.queue s).1 others room
          (lpop-Known redis laws order a apart queue_running P s known))

  get_jobs_from_queue-IsOf :
      (docs : List Json) (s : Store)
      → All (Reads redis a) docs
      → Known redis a P s
      → redis.lrange a.queue s ≡ docs
      → 1 ≤ a.max_jobs
      → (new refused rest : List Json) × Drawn docs new refused rest
        × All (IsOf redis a P) refused
        × ((rest ≡ []) ⊎ (length new ≡ a.max_jobs))
        × ((get_jobs_from_queue redis a s).0 ≡ ok (jobs (map (running_of redis a) new)))
        × (redis.lrange a.queue (get_jobs_from_queue redis a s).1 ≡ refused ++ rest)
  unfolding get_jobs_from_queue
  get_jobs_from_queue-IsOf docs s h known e some_room =
      let fuel = redis.llen a.queue s + 1 in
      let ran = fetch_loop redis fuel a [] [] s in
      let ends =
        fetch_loop-Ends fuel docs [] [] s h e
          (omega (arith, order.llen_list a.queue s, ap length e)) (omega arith) known in
      (
        ends.new,
        ends.put_back,
        ends.rest,
        ends.split,
        ends.limited,
        elim ends.stops [ inl e ↦ inl e | inr e ↦ inr (omega (arith, e)) ],
        rw (ends.result) refl,
        rw (ends.result) (
            lpush_all-list redis laws order a apart queue_running P ends.put_back ran.1
            ∙ ap (λ l. ends.put_back ++ l) ends.left),
      )

-- If the id and the task of each job in the queue can be read and every task with a limit has a count: the
-- script returns; from the front of the queue, jobs are taken until there are enough or there are no
-- more; only jobs of tasks with a limit are refused, and they are in front of the others again, in
-- their order.
pub get_jobs_from_queue-Kept :
    (redis : Redis) (laws : CountsTasks redis) (order : KeepsOrder redis) (a : FetchArgs)
    (apart : Apart a) (docs : List Json) (s : redis.Store)
    → a.queue ≢ a.running_jobs_key
    → All (Reads redis a) docs
    → Counted redis a s
    → redis.lrange a.queue s ≡ docs
    → 1 ≤ a.max_jobs
    → (new refused rest : List Json) × Drawn docs new refused rest
      × All (IsOf redis a (Limited redis a s)) refused
      × ((rest ≡ []) ⊎ (length new ≡ a.max_jobs))
      × ((get_jobs_from_queue redis a s).0 ≡ ok (jobs (map (running_of redis a) new)))
      × (redis.lrange a.queue (get_jobs_from_queue redis a s).1 ≡ refused ++ rest)
get_jobs_from_queue-Kept redis laws order a apart docs s queue_running h counted e some_room =
    get_jobs_from_queue-IsOf redis laws order a apart queue_running (Limited redis a s) docs s h
      (λ name limit. let (c, k) = counted name limit in (limit, c, k)) e some_room
