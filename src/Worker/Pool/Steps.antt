-- ===== src/Worker/Pool/Steps.antt =====
-- Every step of the workers of spinach/worker.py keeps their invariant.
use spinach.Prelude.{
  ℕ, zero, suc, ◌+◌, ◌≤◌, ◌<◌, ◌≡◌, refl, sym, ◌∙◌, inl, Bool, true, false, [], some, length, ◌==◌,
  arith, if◌then◌else◌,
}
use spinach.Outcome.{ok, raise, value_error}
use spinach.Job.{Job}
use spinach.Queuey.{Queuey, Put, Got, get_noblock, put_noblock, task_done, available_slots}
use spinach.Queuey
use spinach.Worker.{
  RunEnd, create, Item, poison_pill, job, Workers, put_in, submit_job, stop, can_accept_job,
}
use spinach.Worker.Pool.{
  State, ready, holding, Pool, get_at, finish, submit, stop_pool, crew_of, Works, takes, finishes,
  Step, works, submits, stops, Reach, here, next,
}
use spinach.Worker.Pool.Crew.{total, held, waits, passes, pills, count_pills}
use spinach.Worker.Pool.Invariant.{put-Placed}
use spinach.Worker.Pool.Pill.{put-OnePill}
use spinach.Worker.Pool.Items.{Inv, take-Inv, finish_job-Inv, finish_pill-Inv}

accepts : (w : Workers) → can_accept_job w ≡ true → w.in_queue.unfinished_tasks < w.in_queue.maxsize
unfolding can_accept_job available_slots
accepts w e = ground arith

pub submit-Inv :
    (fut : ℕ) (j : Job) (p : Pool)
    → Inv p
    → can_accept_job p.workers ≡ true
    → p.workers.must_stop ≡ false
    → Inv (submit fut j p)
unfolding submit submit_job put_in
submit-Inv fut j p v e going =
    let q = p.workers.in_queue in
    let none_yet : count_pills q.items + total pills p.crew ≡ 0 = v.one.budget ∙ rw (going) refl in
    let placed =
      put-Placed (job j) fut q p.crew v.fair (omega (arith, accepts p.workers e, v.fair.counted)) in
    rw (going) (record {
      fair = placed.fair;
      one =
          put-OnePill false (job j) q p.crew (put_noblock (job j) fut q) (omega (arith, none_yet))
            (omega (arith, none_yet)) refl placed;
    })

stop_pool-Inv :
    (fut : ℕ) (p : Pool)
    → Inv p
    → p.workers.must_stop ≡ false
    → length p.workers.in_queue.items < p.workers.in_queue.maxsize
    → Inv (stop_pool fut p)
unfolding stop_pool stop put_in
stop_pool-Inv fut p v going room =
    let q = p.workers.in_queue in
    let none_yet : count_pills q.items + total pills p.crew ≡ 0 = v.one.budget ∙ rw (going) refl in
    let placed = put-Placed poison_pill fut q p.crew v.fair room in
    rw (going) (record {
      fair = placed.fair;
      one =
          put-OnePill true poison_pill q p.crew (put_noblock poison_pill fut q)
            (omega (arith, none_yet)) (omega (arith, none_yet)) refl placed;
    })

finish-Inv :
    (i ended : ℕ) (randint : ℕ → ℕ) (how : RunEnd) (item : Item) (p : Pool)
    → Inv p
    → get_at i p.crew ≡ some (holding item)
    → Inv (finish i ended randint how item p)
finish-Inv i ended randint how poison_pill p v e = finish_pill-Inv i ended randint how p v e
finish-Inv i ended randint how (job j) p v e = finish_job-Inv i ended randint how j p v e

pub Works-Inv : {p q : Pool} → Works p q → Inv p → Inv q
Works-Inv (takes {p} i e) v = take-Inv i p v e
Works-Inv (finishes {p} i ended randint how item e) v = finish-Inv i ended randint how item p v e

Step-Inv : {p q : Pool} → Step p q → Inv p → Inv q
Step-Inv (works w) v = Works-Inv w v
Step-Inv (submits {p} fut j e going) v = submit-Inv fut j p v e going
Step-Inv (stops {p} fut going room) v = stop_pool-Inv fut p v going room

crew_of-total : (f : State → ℕ) (n : ℕ) → f ready ≡ 0 → total f (crew_of n) ≡ 0
crew_of-total f zero z = refl
crew_of-total f (suc n) z = omega (arith, z, crew_of-total f n z)

unless_raised :
    (b : Bool) (v w : Workers)
    → (if b then raise value_error else ok v) ≡ ok w
    → (b ≡ false) × (v ≡ w)
unless_raised true v w e = absurd (grind (arith, e))
unless_raised false v w e = (refl, cc)

created :
    (n : ℕ) (w : Workers)
    → create n ≡ ok w
    → (1 ≤ n) × (record { in_queue = Queuey.create n; out_queue = []; must_stop = false } ≡ w)
unfolding create
created n w e = let (some_worker, same) = unless_raised (n == 0) _ w e in (ground arith, same)

start-Inv : (n : ℕ) (w : Workers) → create n ≡ ok w → Inv (record { workers = w; crew = crew_of n })
unfolding Queuey.create
start-Inv n w e =
    let (positive, same) = created n w e in
    rw (← same) (record {
      fair = record {
        positive = positive;
        no_putters = refl;
        none_passing = crew_of-total passes n refl;
        counted = omega (arith, crew_of-total held n refl);
        idle = inl refl;
        queued = sym (crew_of-total waits n refl);
        listed = tt;
        distinct = tt;
      };
      one = record {
        budget = omega (arith, crew_of-total pills n refl);
        last = tt;
        behind = inl refl;
      };
    })

pub Reach-Inv : {n : ℕ} {p : Pool} → Reach n p → Inv p
Reach-Inv {n} (here {w} e) = start-Inv n w e
Reach-Inv (next r s) = Step-Inv s (Reach-Inv r)
