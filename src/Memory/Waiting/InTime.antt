-- ===== src/Memory/Waiting/InTime.antt =====
-- The arbiter of spinach/engine.py does not sleep over a job or a periodic task: `wait_for_event` of
-- spinach/brokers/base.py ends in time for every future job and every event of the scheduler.
use spinach.Prelude.{
  ℕ, ◌≤◌, ℤ, pos, ◌≤ℤ◌, sub_ℕ, subst, leb_ℤ, Bool-cases, ◌-◌, ◌⊎◌, inl, inr, ◌≡◌, refl, ap, ◌∙◌,
  List, [], ◌∷◌, Option, none, some, arith, All, Bool,
}
use spinach.Outcome.{Result, ok, is_ok}
use spinach.Time.{until}
use spinach.Json.{Json}
use spinach.Job.{Job, deserialize}
use spinach.Job.Dates.{deserialize-IsUtc}
use spinach.Memory.{Event, MemoryBroker}
use spinach.Memory.Scheduled.{IsScheduled}
use spinach.Memory.Order.{IsFuture, at_of}
use spinach.Memory.Valid.{IsSound}
use spinach.Memory.Waiting.{
  wait_for_event_max, next_future_job_delta, next_future_periodic_delta, timeout_of, or_max,
  or_max_ℕ, min_ℤ, wait_for_event,
}

timeout_of-bounds :
    (d : Option ℤ) (p : Option ℕ)
    → (timeout_of d p ≤ℤ or_max d)
      × (timeout_of d p ≤ℤ or_max_ℕ p)
      × (timeout_of d p ≤ℤ pos wait_for_event_max)
unfolding timeout_of
timeout_of-bounds d p = ground arith

≤ℤ-trans : (a b c : ℤ) → a ≤ℤ b → b ≤ℤ c → a ≤ℤ c
≤ℤ-trans a b c h k = omega (arith, h, k)

sub_ℕ-le : (a b now : ℕ) → a ≤ b → sub_ℕ a now ≤ℤ sub_ℕ b now
sub_ℕ-le a b now h = ground arith

until_at :
    (now : ℕ) (doc : Json) (j : Job)
    → deserialize doc ≡ ok j
    → until now j.at ≡ ok (sub_ℕ (at_of doc) now)
unfolding until at_of
until_at now doc j e = ap (until now) (deserialize-IsUtc doc e) ∙ rw (e, at_of) refl

sub_ℕ-le-All :
    (a now : ℕ) (docs : List Json)
    → All (λ other. a ≤ at_of other) docs
    → All (λ doc. sub_ℕ a now ≤ℤ sub_ℕ (at_of doc) now) docs
sub_ℕ-le-All a now [] h = tt
sub_ℕ-le-All a now (doc ∷ docs) h = (sub_ℕ-le a (at_of doc) now h.0, sub_ℕ-le-All a now docs h.1)

≤ℤ-All :
    (t d : ℤ) (now : ℕ) (docs : List Json)
    → t ≤ℤ d
    → All (λ doc. d ≤ℤ sub_ℕ (at_of doc) now) docs
    → All (λ doc. t ≤ℤ sub_ℕ (at_of doc) now) docs
≤ℤ-All t d now [] h k = tt
≤ℤ-All t d now (doc ∷ docs) h k = (≤ℤ-trans t d _ h k.0, ≤ℤ-All t d now docs h k.1)

-- The first future job is the next one that is due.
abbrev IsFirst : ℕ → List Json → Option ℤ → Type 0
IsFirst now docs d =
    (x : ℤ)
    → d ≡ some x
    → (doc : Json) × (rest : List Json) × (docs ≡ doc ∷ rest) × (x ≡ sub_ℕ (at_of doc) now)

next_delta-IsFirst :
    (now : ℕ) (b : MemoryBroker) (docs : List Json)
    → b.future_jobs ≡ docs
    → IsFuture docs
    → (d : Option ℤ) × (next_future_job_delta now b ≡ ok d)
      × All (λ doc. or_max d ≤ℤ sub_ℕ (at_of doc) now) docs
      × IsFirst now docs d
unfolding next_future_job_delta
next_delta-IsFirst now b [] h f =
    (none, rw (h, next_future_job_delta) refl, tt, λ x e. absurd (grind (arith, e)))
next_delta-IsFirst now b (doc ∷ docs) h ((is_ok j e, v), (first, s)) = (
  some (sub_ℕ (at_of doc) now),
  rw (h, e, until_at now doc j e, next_future_job_delta) refl,
  (sub_ℕ-le (at_of doc) (at_of doc) now (omega arith), sub_ℕ-le-All (at_of doc) now docs first),
  λ x same. (doc, docs, refl, cc),
)

-- The first event is the next one, since they are in order.
abbrev IsFirstEvent : ℕ → List Event → Option ℕ → Type 0
IsFirstEvent mono es p =
    (n : ℕ) → p ≡ some n → (e : Event) × (rest : List Event) × (es ≡ e ∷ rest) × (n ≡ e.time - mono)

later_events :
    (a mono : ℕ) (t : ℤ) (es : List Event)
    → t ≤ℤ pos (a - mono)
    → All (λ e. a ≤ e.time) es
    → All (λ e. t ≤ℤ pos (e.time - mono)) es
later_events a mono t [] h k = tt
later_events a mono t (e ∷ es) h k = (
  ≤ℤ-trans t (pos (a - mono)) (pos (e.time - mono)) h (ground (arith, k.0)),
  later_events a mono t es h k.1,
)

next_delta_of :
    (mono : ℕ) (b : MemoryBroker) (e : Event) (es : List Event)
    → b.scheduler ≡ e ∷ es
    → next_future_periodic_delta mono b ≡ some (e.time - mono)
unfolding next_future_periodic_delta
next_delta_of mono b e es h = rw (h, next_future_periodic_delta) (ap some (ground arith))

next_event-IsFirstEvent :
    (mono : ℕ) (t : ℤ) (b : MemoryBroker) (es : List Event)
    → b.scheduler ≡ es
    → IsScheduled es
    → t ≤ℤ or_max_ℕ (next_future_periodic_delta mono b)
    → All (λ e. t ≤ℤ pos (e.time - mono)) es
      × IsFirstEvent mono es (next_future_periodic_delta mono b)
unfolding next_future_periodic_delta
next_event-IsFirstEvent mono t b [] h s le = (tt, rw (h) (λ n e. absurd (grind (arith, e))))
next_event-IsFirstEvent mono t b (e ∷ es) h (first, s) le =
    let known = next_delta_of mono b e es h in
    let soon : t ≤ℤ pos (e.time - mono) = subst (λ p. t ≤ℤ or_max_ℕ p) known le in
    ((soon, later_events e.time mono t es soon first), λ n is. (e, es, refl, cc))

min_ℤ-cases : (a b : ℤ) → (min_ℤ a b ≡ a) ⊎ (min_ℤ a b ≡ b)
min_ℤ-cases a b = elim (Bool-cases (leb_ℤ a b)) [
  | inl e ↦ inl (rw (e) refl)
  | inr e ↦ inr (rw (e) refl)
]

-- What the timeout is: the minute, the time of the job, or that of the event.
abbrev IsOne : Option ℤ → Option ℕ → ℤ → Type 0
IsOne d p t =
    (t ≡ pos wait_for_event_max)
    ⊎ (((x : ℤ) × (d ≡ some x) × (t ≡ x)) ⊎ ((n : ℕ) × (p ≡ some n) × (t ≡ pos n)))

job-IsOne : (d : Option ℤ) (p : Option ℕ) (t : ℤ) → t ≡ or_max d → IsOne d p t
job-IsOne none p t e = inl e
job-IsOne (some x) p t e = inr (inl (x, refl, e))

event-IsOne : (d : Option ℤ) (p : Option ℕ) (t : ℤ) → t ≡ or_max_ℕ p → IsOne d p t
event-IsOne d none t e = inl e
event-IsOne d (some n) t e = inr (inr (n, refl, e))

timeout_of-IsOne : (d : Option ℤ) (p : Option ℕ) → IsOne d p (timeout_of d p)
unfolding timeout_of
timeout_of-IsOne d p =
    let least = min_ℤ (or_max d) (or_max_ℕ p) in
    elim (min_ℤ-cases least (pos wait_for_event_max)) [
      | inr e ↦ inl e
      | inl e ↦ elim (min_ℤ-cases (or_max d) (or_max_ℕ p)) [
        | inl f ↦ job-IsOne d p (timeout_of d p) (e ∙ f)
        | inr f ↦ event-IsOne d p (timeout_of d p) (e ∙ f)
      ]
    ]

-- What the wait promises: it raises nothing; its timeout is a minute at most, and no longer than to
-- every event of the scheduler and to every future job; and it is no shorter: it is the minute, or
-- the time to the first job or to the first event.
pub record InTime (now mono : ℕ) (b : MemoryBroker) (r : Result ℤ × MemoryBroker) : Type 0 where
  pub timeout : ℤ
  pub waits : r.0 ≡ ok timeout
  pub le_max : timeout ≤ℤ pos wait_for_event_max
  pub periodic : All (λ e. timeout ≤ℤ pos (e.time - mono)) b.scheduler
  pub future : All (λ doc. timeout ≤ℤ sub_ℕ (at_of doc) now) b.future_jobs
  pub no_shorter :
      (timeout ≡ pos wait_for_event_max)
      ⊎ (((doc : Json) × (rest : List Json) × (b.future_jobs ≡ doc ∷ rest)
            × (timeout ≡ sub_ℕ (at_of doc) now))
          ⊎ ((e : Event) × (rest : List Event) × (b.scheduler ≡ e ∷ rest)
              × (timeout ≡ pos (e.time - mono))))

pub wait_for_event-InTime :
    (now mono : ℕ) (happens : Bool) (b : MemoryBroker)
    → IsSound b
    → IsScheduled b.scheduler
    → InTime now mono b (wait_for_event now mono happens b)
unfolding wait_for_event
wait_for_event-InTime now mono happens b s ordered =
    let (d, e, h, first) = next_delta-IsFirst now b b.future_jobs refl s.future_valid in
    let p = next_future_periodic_delta mono b in
    let (le_job, le_periodic, le_max) = timeout_of-bounds d p in
    let (events, next) =
      next_event-IsFirstEvent mono (timeout_of d p) b b.scheduler refl ordered le_periodic in
    rw (e, wait_for_event)
      (record {
        timeout = timeout_of d p;
        waits = refl;
        le_max = le_max;
        periodic = events;
        future = ≤ℤ-All (timeout_of d p) (or_max d) now b.future_jobs le_job h;
        no_shorter = elim (timeout_of-IsOne d p) [
          | inl t ↦ inl t
          | inr (inl (x, is, t)) ↦
              let (doc, rest, jobs, same) = first x is in inr (inl (doc, rest, jobs, t ∙ same))
          | inr (inr (n, is, t)) ↦
              let (v, rest, all, same) = next n is in inr (inr (v, rest, all, t ∙ ap pos same))
        ];
      })
