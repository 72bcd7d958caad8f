-- ===== src/Worker/Pool/Stops.antt =====
-- After `stop`, the workers of spinach/worker.py come to their end.
use spinach.Prelude.{
  ℕ, suc, ◌+◌, ◌≤◌, ◌<◌, ◌≡◌, refl, ap, ◌∙◌, ◌⊎◌, inl, inr, true, List, [], ◌∷◌, ◌++◌, none, some,
  length, arith,
}
use spinach.Outcome.{Result, ok, raise}
use spinach.Queuey.{get_noblock}
use spinach.Worker.{ran, RunEnd, after_run, Item, poison_pill, job, ends, fate_of}
use spinach.Worker.Pool.{
  State, ready, waiting, passing, holding, over, Pool, get_at, set_at, take, finish, state_after,
  Works, takes, finishes, Reach,
}
use spinach.Worker.Pool.Crew.{
  total, alive, pills, count_pills, total-set_at, able_or_not, total-alive, total-pills_le_held,
  total-held_le_able,
}
use spinach.Worker.Pool.Invariant.{done-Fair, take-Took}
use spinach.Worker.Pool.Items.{Inv, job_done, pill-Passed}
use spinach.Worker.Pool.Steps.{Works-Inv, Reach-Inv}

count_pills-le_length : (items : List Item) → count_pills items ≤ length items
count_pills-le_length [] = omega arith
count_pills-le_length (poison_pill ∷ items) = omega (arith, count_pills-le_length items)
count_pills-le_length (job j ∷ items) = omega (arith, count_pills-le_length items)

-- Once `stop` was called, a worker can go on as long as one is left.
can_go_on :
    (p : Pool)
    → Inv p
    → p.workers.must_stop ≡ true
    → ((q : Pool) × Works p q) ⊎ (total alive p.crew ≡ 0)
can_go_on p v stopped = elim (able_or_not p.crew) [
  | inl (i, ready, e, a) ↦ inl (take i p, takes i e)
  | inl (i, holding item, e, a) ↦
      inl (finish i 0 (λ n. n) (ran none) item p, finishes i 0 (λ n. n) (ran none) item e)
  | inl (i, waiting, e, a) ↦ absurd (omega (arith, a))
  | inl (i, passing, e, a) ↦ absurd (omega (arith, a))
  | inl (i, over fate, e, a) ↦ absurd (omega (arith, a))
  | inr z ↦
      let budget : count_pills p.workers.in_queue.items + total pills p.crew ≡ 1 =
        v.one.budget ∙ rw (stopped) refl in
      let none_wait : length p.workers.in_queue.getters ≡ 0 = elim v.fair.idle [
        | inl e ↦ ap length e
        | inr e ↦
            let none_left = ap count_pills e in
            absurd (
              omega (
                arith,
                none_left,
                budget,
                z,
                total-pills_le_held p.crew,
                total-held_le_able p.crew,
              ))
      ] in
      inr (omega (arith, total-alive p.crew, z, none_wait, v.fair.queued, v.fair.none_passing))
]

-- What is left to do, in steps.
abbrev pub effort : State → ℕ
effort ready = 2
effort waiting = 1
effort passing = 0
effort (holding poison_pill) = 1
effort (holding (job j)) = 4
effort (over fate) = 0

abbrev pub effort_of : List Item → ℕ
effort_of [] = 0
effort_of (poison_pill ∷ items) = effort_of items
effort_of (job j ∷ items) = 3 + effort_of items

abbrev pub measure : Pool → ℕ
measure p = effort_of p.workers.in_queue.items + total effort p.crew

effort_of-snoc_pill : (items : List Item) → effort_of (items ++ poison_pill ∷ []) ≡ effort_of items
effort_of-snoc_pill [] = refl
effort_of-snoc_pill (poison_pill ∷ items) = effort_of-snoc_pill items
effort_of-snoc_pill (job j ∷ items) = ap (λ n. 3 + n) (effort_of-snoc_pill items)

-- An item is less effort with a worker that was ready for it than in the queue.
effort_of-cons :
    (a : Item) (items : List Item)
    → effort (holding a) + effort_of items < effort_of (a ∷ items) + 2
effort_of-cons poison_pill items = omega arith
effort_of-cons (job j) items = omega arith

pub holder-counted :
    (i : ℕ) (item : Item) (p : Pool)
    → Inv p
    → get_at i p.crew ≡ some (holding item)
    → 1 ≤ p.workers.in_queue.unfinished_tasks
holder-counted i item p v e =
    (done-Fair p.workers.in_queue p.crew i item (over ends) v.fair e refl refl refl).0

take-measure :
    (i : ℕ) (p : Pool) → Inv p → get_at i p.crew ≡ some ready → measure (take i p) < measure p
unfolding take
take-measure i p v e =
    let q = p.workers.in_queue in
    let g = get_noblock i q in
    let took = take-Took i q p.crew v.fair e in
    elim took.what [
      | inl w ↦
          let before = ap effort_of w.0 in
          rw (w.1, w.2) (omega (arith, before, total-set_at effort i ready waiting p.crew e))
      | inr w ↦
          let (a, front, got) = w in
          let before = ap effort_of front in
          rw (got) (
            omega (
              arith,
              before,
              effort_of-cons a g.queue.items,
              total-set_at effort i ready (holding a) p.crew e,
            ))
    ]

effort_after_job : (r : Result (Unit {0})) → effort (state_after (fate_of r) none) ≤ 2
effort_after_job (ok u) = omega arith
effort_after_job (raise e) = omega arith

finish-measure :
    (i ended : ℕ) (randint : ℕ → ℕ) (how : RunEnd) (item : Item) (p : Pool)
    → Inv p
    → get_at i p.crew ≡ some (holding item)
    → measure (finish i ended randint how item p) < measure p
finish-measure i ended randint how (job j) p v e =
    let r = (after_run ended randint how j).1 in
    let t = state_after (fate_of r) none in
    rw (job_done i ended randint how j p (holder-counted i (job j) p v e))
      (omega (arith, total-set_at effort i (holding (job j)) t p.crew e, effort_after_job r))
finish-measure i ended randint how poison_pill p v e =
    let (placed, h) = pill-Passed i ended randint how p v e in
    let crew = set_at i (over ends) p.crew in
    let gone = total-set_at effort i (holding poison_pill) (over ends) p.crew e in
    let before = ap effort_of h.none_left in
    elim h.put.items_after [
      | inl a ↦
          let after = ap effort_of a.0 ∙ effort_of-snoc_pill p.workers.in_queue.items in
          rw (h.same, a.1) (omega (arith, gone, after, before))
      | inr a ↦
          let (g, none_after, served, waited) = a in
          let after = ap effort_of none_after in
          rw (h.same, served)
            (omega (
              arith,
              gone,
              after,
              before,
              total-set_at effort g waiting (holding poison_pill) crew waited,
            ))
    ]

-- `k` steps of the workers.
pub data Runs : ℕ → Pool → Pool → Type 0 where
  rests : {p : Pool} → Runs 0 p p
  goes : {k : ℕ} {p q r : Pool} → Works p q → Runs k q r → Runs (suc k) p r

Works-measure : {p q : Pool} → Works p q → Inv p → measure q < measure p
Works-measure (takes {p} i e) v = take-measure i p v e
Works-measure (finishes {p} i ended randint how item e) v =
    finish-measure i ended randint how item p v e

finish-must_stop :
    (i ended : ℕ) (randint : ℕ → ℕ) (how : RunEnd) (item : Item) (p : Pool)
    → Inv p
    → get_at i p.crew ≡ some (holding item)
    → (finish i ended randint how item p).workers.must_stop ≡ p.workers.must_stop
finish-must_stop i ended randint how (job j) p v e =
    rw (job_done i ended randint how j p (holder-counted i (job j) p v e)) refl
finish-must_stop i ended randint how poison_pill p v e =
    let (placed, h) = pill-Passed i ended randint how p v e in rw (h.same) refl

pub Works-must_stop : {p q : Pool} → Works p q → Inv p → q.workers.must_stop ≡ p.workers.must_stop
unfolding take
Works-must_stop (takes {p} i e) v = refl
Works-must_stop (finishes {p} i ended randint how item e) v =
    finish-must_stop i ended randint how item p v e

Runs-end :
    {k : ℕ} {p q : Pool}
    → Runs k p q
    → Inv p
    → p.workers.must_stop ≡ true
    → (k + measure q ≤ measure p) × (((r : Pool) × Works q r) ⊎ (total alive q.crew ≡ 0))
Runs-end (rests {p}) v stopped = (omega arith, can_go_on p v stopped)
Runs-end (goes {p} {q} w runs) v stopped =
    let (fewer, ended) = Runs-end runs (Works-Inv w v) (Works-must_stop w v ∙ stopped) in
    (omega (arith, fewer, Works-measure w v), ended)

-- Once `stop` was called with room for the pill in the queue, whatever the workers and their jobs did
-- and in whatever order: the workers take at most as many steps as `measure` says, and as long as one
-- of them is not over, some worker can take a step.
pub stop_ends :
    (num_workers k : ℕ) (p q : Pool)
    → Reach num_workers p
    → p.workers.must_stop ≡ true
    → Runs k p q
    → (k + measure q ≤ measure p) × (((r : Pool) × Works q r) ⊎ (total alive q.crew ≡ 0))
stop_ends num_workers k p q reach stopped runs = Runs-end runs (Reach-Inv reach) stopped
