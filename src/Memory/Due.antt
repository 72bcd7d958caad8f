-- ===== src/Memory/Due.antt =====
-- `move_future_jobs` of spinach/brokers/memory.py moves the jobs that are due, and no others.
use mathlib.Core.List.{append_assoc, append-nil}
use text.Mathlib.TextLemmas.{append_cancel_left}
use spinach.Prelude.{
  ℕ, ◌+◌, ◌≤◌, ◌<◌, ◌≡◌, refl, sym, ap, subst, ◌∙◌, false, String, List, [], ◌∷◌, ◌++◌, length,
  lookup-insert_self, lookup-insert_ne, ◌≢◌, str_eq, eq_iff, arith, Bool-cases, All, leb, ltb,
  if◌then◌else◌, inl, inr,
}
use spinach.Outcome.{Result, ok, raise, is_ok}
use spinach.Time.{now_reaches}
use spinach.Json.{Json}
use spinach.Job.{Job, queued, serialize, deserialize, should_start}
use spinach.Job.Dates.{deserialize-IsUtc}
use spinach.Memory.{MemoryBroker, or_empty, to_namespaced, get_queue, put, set_queue}
use spinach.Memory.Order.{ValidDocs, at_of, IsSorted}
use spinach.Memory.Valid.{IsSound}
use spinach.Memory.Future.{move_due, move_ready}

-- The text that a moved job has in the queue of this name, if that is its queue.
abbrev pub moved_one : String → Json → List Json
moved_one name doc = elim (deserialize doc) [
  | raise e ↦ []
  | ok j ↦ if str_eq j.queue name then serialize (record j { status = queued }) ∷ [] else []
]

-- The texts that moved jobs have in the queue of this name, in their order.
unfoldable pub moved_to : String → List Json → List Json
moved_to name [] = []
moved_to name (doc ∷ docs) = moved_one name doc ++ moved_to name docs

-- What moving does to the future jobs `docs`: a part at the front is moved, which is all that is
-- due, each job goes behind its queue, and the rest stays.
pub record Moved (now : ℕ) (docs : List Json) (n : ℕ) (b : MemoryBroker)
    (r : Result ℕ × MemoryBroker) : Type 0 where
  pub moved : List Json
  pub rest : List Json
  pub split : docs ≡ moved ++ rest
  pub counted : r.0 ≡ ok (n + length moved)
  pub left : r.1.future_jobs ≡ rest
  pub due : All (λ doc. at_of doc ≤ now) moved
  pub later : All (λ doc. now < at_of doc) rest
  pub queues : (name : String) → get_queue r.1 name ≡ get_queue b name ++ moved_to name moved

to_namespaced-injective :
    (b : MemoryBroker) (s t : String) → to_namespaced b s ≡ to_namespaced b t → s ≡ t
unfolding to_namespaced
to_namespaced-injective b s t h = append_cancel_left "/" s t (append_cancel_left b.namespace _ _ h)

get_queue-put_self :
    (b : MemoryBroker) (name : String) (doc : Json)
    → get_queue (put name doc b) name ≡ get_queue b name ++ doc ∷ []
unfolding get_queue put set_queue
get_queue-put_self b name doc =
    ap or_empty (lookup-insert_self (to_namespaced b name) (get_queue b name ++ doc ∷ []) b.queues)

get_queue-put_ne :
    (b : MemoryBroker) (name other : String) (doc : Json)
    → other ≢ name
    → get_queue (put name doc b) other ≡ get_queue b other
unfolding get_queue put set_queue
get_queue-put_ne b name other doc ne = ap or_empty (
    lookup-insert_ne (to_namespaced b name) (to_namespaced b other) (get_queue b name ++ doc ∷ [])
      b.queues (λ q. ne (to_namespaced-injective b other name q)))

-- What one moved job does to each queue.
get_queue-put_moved :
    (b : MemoryBroker) (name : String) (doc : Json) (j : Job)
    → deserialize doc ≡ ok j
    → get_queue (put j.queue (serialize (record j { status = queued })) b) name
      ≡ get_queue b name ++ moved_one name doc
get_queue-put_moved b name doc j e =
    let doc' = serialize (record j { status = queued }) in
    elim (Bool-cases (str_eq j.queue name)) [
      | inl t ↦
          let same : j.queue ≡ name = (eq_iff j.queue name).0 t in
          let moved : moved_one name doc ≡ doc' ∷ [] = rw (e, t, moved_one) refl in
          rw moved (
            subst (λ x. get_queue (put j.queue doc' b) x ≡ get_queue b x ++ doc' ∷ []) same
              (get_queue-put_self b j.queue doc'))
      | inr t ↦
          let ne : name ≢ j.queue = λ q. ground (arith, eq_iff j.queue name) in
          let moved : moved_one name doc ≡ [] = rw (e, t, moved_one) refl in
          rw moved (get_queue-put_ne b j.queue name doc' ne ∙ sym (append-nil (get_queue b name)))
    ]

start_when_due :
    (now : ℕ) (doc : Json) (j : Job)
    → deserialize doc ≡ ok j
    → should_start now j ≡ ok (leb (at_of doc) now)
unfolding should_start now_reaches at_of
start_when_due now doc j e = ap (now_reaches now) (deserialize-IsUtc doc e) ∙ rw (e, at_of) refl

module _ (now : ℕ) where
  later-weaken :
      (a : ℕ) (docs : List Json)
      → now < a
      → All (λ doc. a ≤ at_of doc) docs
      → All (λ doc. now < at_of doc) docs
  later-weaken a [] h k = tt
  later-weaken a (doc ∷ docs) h k = (omega (arith, k.0), later-weaken a docs h k.1)

  move_due-Moved :
      (docs : List Json) (n : ℕ) (b : MemoryBroker)
      → b.future_jobs ≡ docs
      → ValidDocs docs
      → IsSorted docs
      → Moved now docs n b (move_due now docs n b)
  unfolding move_due moved_to
  move_due-Moved [] n b h v s = record {
    moved = [];
    rest = [];
    split = refl;
    counted = ap ok (omega arith);
    left = h;
    due = tt;
    later = tt;
    queues = λ name. sym (append-nil _);
  }
  move_due-Moved (doc ∷ docs) n b h (is_ok j e, v) s = elim (Bool-cases (leb (at_of doc) now)) [
    | inl t ↦
        let m = move_due-Moved docs (n + 1) _ refl v s.1 in
        rw (e, start_when_due now doc j e, t, move_due)
          (record {
            moved = doc ∷ m.moved;
            rest = m.rest;
            split = ap (◌∷◌ doc) m.split;
            counted = m.counted ∙ ap ok (omega arith);
            left = m.left;
            due = (ground arith, m.due);
            later = m.later;
            queues = λ name.
                m.queues name
                ∙ ap (λ q. q ++ moved_to name m.moved) (get_queue-put_moved b name doc j e)
                ∙ append_assoc (get_queue b name) (moved_one name doc) (moved_to name m.moved);
          })
    | inr t ↦
        rw (e, start_when_due now doc j e, t, move_due)
          (record {
            moved = [];
            rest = doc ∷ docs;
            split = refl;
            counted = ap ok (omega arith);
            left = h;
            due = tt;
            later = (ground arith, later-weaken (at_of doc) docs (ground arith) s.0);
            queues = λ name. sym (append-nil _);
          })
  ]

-- If every future job can be read and they are in order, a call that finds `now` on the clock moves
-- exactly those that are due: they are the front part of the future jobs, it returns their number,
-- each goes behind its queue as queued and in the order of the dates, and the others stay.
pub move_ready-Moved :
    (now : ℕ) (b : MemoryBroker) → IsSound b → Moved now b.future_jobs 0 b (move_ready now b)
unfolding move_ready
move_ready-Moved now b s =
    let m = move_due-Moved now b.future_jobs 0 b refl s.future_valid.0 s.future_valid.1 in
    let never : ltb (0 + length m.moved) 0 ≡ false = ground arith in
    rw (m.counted, never)
      (record {
        moved = m.moved;
        rest = m.rest;
        split = m.split;
        counted = refl;
        left = m.left;
        due = m.due;
        later = m.later;
        queues = m.queues;
      })
