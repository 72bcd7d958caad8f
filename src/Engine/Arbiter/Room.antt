-- ===== src/Engine/Arbiter/Room.antt =====
-- The arbiter of spinach/engine.py fetches as many jobs as the workers of spinach/worker.py have slots:
-- there is room for each of them, whatever the workers do meanwhile.
use spinach.Prelude.{
  subst, ℕ, suc, ◌+◌, ◌≤◌, ◌<◌, ◌≡◌, refl, ap, sym, ◌∙◌, true, false, String, List, [], ◌∷◌, ◌++◌,
  map, none, some, length, length-append, length-map, arith, ltb,
}
use spinach.Outcome.{ok}
use spinach.Job.{Job}
use spinach.Task.{Tasks}
use spinach.Queuey.{Queuey, Put, get_noblock, put_noblock, available_slots}
use spinach.Worker.{Item, poison_pill, job, Workers, submit_job, put_in, can_accept_job}
use spinach.Worker.Pool.{Pool, Works, takes, finishes, take, submit, Reach}
use spinach.Worker.Pool.Items.{Inv, job_done, pill-Passed}
use spinach.Worker.Pool.Invariant.{put-Placed, queue_with}
use spinach.Worker.Pool.Steps.{Works-Inv, submit-Inv, Reach-Inv}
use spinach.Worker.Pool.Stops.{holder-counted, Works-must_stop}
use spinach.Broker.{Broker, Contract}
use spinach.Engine.Arbiter.{Dispatched, to_workers, to_notifier, dispatch, at_least_zero}

abbrev pub with_out : Job → Pool → Pool
with_out k p = record p {
  workers = record p.workers { out_queue = p.workers.out_queue ++ job k ∷ [] };
}

-- The arbiter receives jobs, in their order, and the workers go on meanwhile.
pub data Receives : List Dispatched → Pool → Pool → Type 0 where
  received : {p : Pool} → Receives [] p p
  meanwhile : {ds : List Dispatched} {p q r : Pool} → Works p q → Receives ds q r → Receives ds p r
  submitted :
      {ds : List Dispatched} {p r : Pool} (fut : ℕ) (j : Job)
      → Receives ds (submit fut j p) r
      → Receives (to_workers j ∷ ds) p r
  notified :
      {ds : List Dispatched} {p r : Pool} (k : Job)
      → Receives ds (with_out k p) r
      → Receives (to_notifier k ∷ ds) p r

-- The queue has this many slots.
abbrev Room : ℕ → Queuey Item → Type 0
Room n q = q.unfinished_tasks + n ≤ q.maxsize

abbrev Same : Queuey Item → Queuey Item → Type 0
Same q r = (r.unfinished_tasks ≡ q.unfinished_tasks) × (r.maxsize ≡ q.maxsize)

get_noblock-Same :
    (i m u : ℕ) (items : List Item) (getters : List ℕ) (putters : List (Item × ℕ))
    → Same
        (queue_with m u items getters putters)
        (get_noblock i (queue_with m u items getters putters)).queue
unfolding get_noblock
get_noblock-Same i m u [] gs ps = (refl, refl)
get_noblock-Same i m u (a ∷ items) gs [] = (refl, refl)
get_noblock-Same i m u (a ∷ items) gs (p ∷ ps) = (refl, refl)

-- A put for which there is room takes one slot.
put_noblock-Room :
    (n : ℕ) (item : Item) (fut m u : ℕ) (items : List Item) (getters : List ℕ)
    (putters : List (Item × ℕ))
    → length items < m
    → Room (suc n) (queue_with m u items getters putters)
    → Room n (put_noblock item fut (queue_with m u items getters putters)).queue
unfolding put_noblock
put_noblock-Room n item fut m u items [] ps h room =
    let free : ltb (length items) m ≡ true = ground arith in rw (free, put_noblock) (omega arith)
put_noblock-Room n item fut m u [] (g ∷ gs) ps h room =
    let free : ltb 0 m ≡ true = ground arith in rw (free, put_noblock) (omega arith)
put_noblock-Room n item fut m u (a ∷ items) (g ∷ gs) ps h room =
    let free : ltb (length (a ∷ items)) m ≡ true = ground arith in
    rw (free, put_noblock) (omega arith)

-- What holds while the arbiter receives.
record Ready (n : ℕ) (p : Pool) : Type 0 where
  inv : Inv p
  going : p.workers.must_stop ≡ false
  room : Room n p.workers.in_queue

Works-Room : {p q : Pool} (n : ℕ) → Works p q → Ready n p → Room n q.workers.in_queue
unfolding take
Works-Room n (takes {p} i e) v =
    let q = p.workers.in_queue in
    let (u, m) = get_noblock-Same i q.maxsize q.unfinished_tasks q.items q.getters q.putters in
    omega (arith, v.room, u, m)
Works-Room n (finishes {p} i ended randint err (job j) e) v =
    rw (job_done i ended randint err j p (holder-counted i (job j) p v.inv e))
      (omega (arith, v.room))
Works-Room n (finishes {p} i ended randint err poison_pill e) v =
    let (placed, h) = pill-Passed i ended randint err p v.inv e in
    let no = sym v.going ∙ h.stopped in absurd (grind (arith, no))

Works-Ready : {p q : Pool} (n : ℕ) → Works p q → Ready n p → Ready n q
Works-Ready n w v = record {
  inv = Works-Inv w v.inv;
  going = Works-must_stop w v.inv ∙ v.going;
  room = Works-Room n w v;
}

Room-can_accept_job : (n : ℕ) (w : Workers) → Room (suc n) w.in_queue → can_accept_job w ≡ true
unfolding can_accept_job available_slots
Room-can_accept_job n w h = ground arith

-- What a submission needs.
accepted :
    (n : ℕ) (p : Pool)
    → Ready (suc n) p
    → length p.workers.in_queue.items < p.workers.in_queue.maxsize
accepted n p v = omega (arith, v.inv.fair.counted, v.room)

submit-Ready : (n fut : ℕ) (j : Job) (p : Pool) → Ready (suc n) p → Ready n (submit fut j p)
unfolding submit submit_job put_in
submit-Ready n fut j p v =
    let q = p.workers.in_queue in
    let going = v.going in
    let inv = submit-Inv fut j p v.inv (Room-can_accept_job n p.workers v.room) going in
    record {
      inv = inv;
      going = rw (going) refl;
      room = rw (going) (
          put_noblock-Room n (job j) fut q.maxsize q.unfinished_tasks q.items q.getters q.putters
            (accepted n p v) v.room);
    }

with_out-Ready : (n : ℕ) (k : Job) (p : Pool) → Ready (suc n) p → Ready n (with_out k p)
with_out-Ready n k p v = record {
  inv = record { fair = v.inv.fair; one = v.inv.one };
  going = v.going;
  room = omega (arith, v.room);
}

recount : {m n : ℕ} (p : Pool) → m ≡ n → Ready m p → Ready n p
recount p e v = subst (λ k. Ready k p) e v

Receives-Ready :
    {ds : List Dispatched} {p q : Pool} (n : ℕ)
    → Receives ds p q
    → Ready (length ds + n) p
    → Ready n q
Receives-Ready {p} n received v = recount p (omega arith) v
Receives-Ready {ds} n (meanwhile w rest) v = Receives-Ready n rest (Works-Ready (length ds + n) w v)
Receives-Ready n (submitted {ds} {p} fut j rest) v =
    Receives-Ready n rest (submit-Ready (length ds + n) fut j p (recount p (omega arith) v))
Receives-Ready n (notified {ds} {p} k rest) v =
    Receives-Ready n rest (with_out-Ready (length ds + n) k p (recount p (omega arith) v))

-- The put of a job for which there is room does not wait.
submit_job-free :
    (n fut : ℕ) (j : Job) (p : Pool)
    → Ready (suc n) p
    → (put : Put Item) × ((submit_job j fut p.workers).0 ≡ ok put) × (put.fut ≡ none)
unfolding submit_job put_in
submit_job-free n fut j p v =
    let q = p.workers.in_queue in
    let going = v.going in
    (
      put_noblock (job j) fut q,
      rw (going) refl,
      (put-Placed (job j) fut q p.crew v.inv.fair (accepted n p v)).free,
    )

slots-Room :
    (w : Workers) (n : ℕ)
    → 1 ≤ n
    → n ≤ at_least_zero (available_slots w.in_queue)
    → Room n w.in_queue
unfolding available_slots
slots-Room w n some_job h = ground arith

-- In a round of the arbiter, over any broker that keeps the contract and over workers in any state that they
-- reach and that were not stopped: when the jobs that were fetched for the slots there were are received
-- one after the other, however the workers and their jobs go on meanwhile, submitting the next one
-- raises nothing and does not wait.
pub round_finds_room :
    (broker : Broker) (contract : Contract broker) (ts : Tasks) (now : ℕ) (randint : ℕ → ℕ)
    (queue : String) (s t : broker.State) (js : List Job) (num_workers fut : ℕ) (p q : Pool)
    (before rest : List Dispatched) (j : Job)
    → Reach num_workers p
    → p.workers.must_stop ≡ false
    → 1 ≤ at_least_zero (available_slots p.workers.in_queue)
    → broker.get_jobs_from_queue queue (at_least_zero (available_slots p.workers.in_queue)) s
      ≡ some (ok js, t)
    → map (dispatch ts now randint) js ≡ before ++ to_workers j ∷ rest
    → Receives before p q
    → (put : Put Item) × ((submit_job j fut q.workers).0 ≡ ok put) × (put.fut ≡ none)
round_finds_room broker contract ts now randint queue s t js num_workers fut p q before rest j reach
      going some_slot fetched dispatched runs =
    let few =
      contract.bounded queue (at_least_zero (available_slots p.workers.in_queue)) js s t some_slot
        fetched in
    let enough : length before + 1 ≤ at_least_zero (available_slots p.workers.in_queue) = omega (
      arith,
      few,
      ap length dispatched,
      length-map (dispatch ts now randint) js,
      length-append before (to_workers j ∷ rest),
    ) in
    submit_job-free 0 fut j q (
      Receives-Ready 1 runs (record {
        inv = Reach-Inv reach;
        going = going;
        room = slots-Room p.workers (length before + 1) (omega arith) enough;
      }))
