-- ===== src/Worker/Pool.antt =====
-- The workers of spinach/worker.py around their queue, as steps in any order: the arbiter submits,
-- a worker takes an item or ends with one, and `stop` puts the poison pill. A worker handles an item in
-- one step. The workers are threads; a coroutine that dies would take the others with it.
pub mod Crew
pub mod Invariant
pub mod Pill
pub mod Items
pub mod Steps
pub mod Stops
use spinach.Prelude.{
  ℕ, zero, suc, Bool, true, false, List, [], ◌∷◌, Option, none, some, ◌≡◌, ◌<◌, length,
}
use spinach.Outcome.{Result, ok, raise}
use spinach.Job.{Job}
use spinach.Job.Advance.{Error}
use spinach.Queuey.{Queuey, Put, get_noblock}
use spinach.Worker.{
  RunEnd, after_run, Item, Workers, poison_pill, job, Fate, goes_on, ends, dies, Ending, create,
  handle, submit_job, stop, can_accept_job,
}

-- A worker is at the top of its loop, waits for an item, has one, waits for room for the pill, or its
-- thread is over.
pub data State : Type 0 where
  ready waiting passing : State
  holding : Item → State
  over : Fate → State

-- The workers by their number, which is also the future that a worker waits for.
pub record Pool : Type 0 where
  pub workers : Workers
  pub crew : List State

abbrev pub get_at : ℕ → List State → Option State
get_at i [] = none
get_at zero (s ∷ crew) = some s
get_at (suc i) (s ∷ crew) = get_at i crew

abbrev pub set_at : ℕ → State → List State → List State
set_at i t [] = []
set_at zero t (s ∷ crew) = t ∷ crew
set_at (suc i) t (s ∷ crew) = s ∷ set_at i t crew

-- A put hands its item to the worker that waits, if there is one.
abbrev pub deliver : Option (ℕ × Item) → List State → List State
deliver none crew = crew
deliver (some (i, item)) crew = set_at i (holding item) crew

abbrev pub taken : Option Item → State
taken none = waiting
taken (some item) = holding item

-- `get_sync` of worker `i`.
unfoldable pub take : ℕ → Pool → Pool
unfolding get_noblock
take i p =
    let g = get_noblock i p.workers.in_queue in
    record {
      workers = record p.workers { in_queue = g.queue };
      crew = set_at i (taken g.item) p.crew;
    }

-- Where the worker is after it handled its item.
abbrev pub state_after : Fate → Option (Put Item) → State
state_after goes_on put = ready
state_after fate none = over fate
state_after fate (some put) = elim put.fut [ none ↦ over fate | some fut ↦ passing ]

abbrev pub served_by : Option (Put Item) → Option (ℕ × Item)
served_by none = none
served_by (some put) = put.served

abbrev pub settle : ℕ → List State → Ending → Pool
settle i crew h = record {
  workers = h.workers;
  crew = deliver (served_by h.put) (set_at i (state_after h.fate h.put) crew);
}

-- Worker `i` handles its item.
unfoldable pub finish : ℕ → ℕ → (ℕ → ℕ) → RunEnd → Item → Pool → Pool
unfolding handle
finish i ended randint how item p = settle i p.crew (handle i ended randint how item p.workers)

abbrev put_of : Result (Put Item) → Option (Put Item)
put_of (ok put) = some put
put_of (raise e) = none

unfoldable pub submit : ℕ → Job → Pool → Pool
unfolding submit_job
submit fut j p =
    let (put, after) = submit_job j fut p.workers in
    record { workers = after; crew = deliver (served_by (put_of put)) p.crew }

unfoldable pub stop_pool : ℕ → Pool → Pool
unfolding stop
stop_pool fut p =
    let (put, after) = stop fut p.workers in
    record { workers = after; crew = deliver (served_by put) p.crew }

-- `__init__` of the workers: as many threads as the queue has places.
abbrev pub crew_of : ℕ → List State
crew_of zero = []
crew_of (suc n) = ready ∷ crew_of n

-- What a worker does next.
pub data Works : Pool → Pool → Type 0 where
  takes : {p : Pool} (i : ℕ) → get_at i p.crew ≡ some ready → Works p (take i p)
  finishes :
      {p : Pool} (i : ℕ) (ended : ℕ) (randint : ℕ → ℕ) (how : RunEnd) (item : Item)
      → get_at i p.crew ≡ some (holding item)
      → Works p (finish i ended randint how item p)

-- The arbiter submits a job only if the workers can accept one; here `stop` finds room for the pill.
pub data Step : Pool → Pool → Type 0 where
  works : {p q : Pool} → Works p q → Step p q
  submits :
      {p : Pool} (fut : ℕ) (j : Job)
      → can_accept_job p.workers ≡ true
      → p.workers.must_stop ≡ false
      → Step p (submit fut j p)
  stops :
      {p : Pool} (fut : ℕ)
      → p.workers.must_stop ≡ false
      → length p.workers.in_queue.items < p.workers.in_queue.maxsize
      → Step p (stop_pool fut p)

-- From the workers' construction on, whose threads were just started.
pub data Reach (num_workers : ℕ) : Pool → Type 0 where
  here :
      {w : Workers}
      → create num_workers ≡ ok w
      → Reach num_workers (record { workers = w; crew = crew_of num_workers })
  next : {p q : Pool} → Reach num_workers p → Step p q → Reach num_workers q
