-- ===== src/Broker.antt =====
-- spinach/brokers/base.py: the abstract class `Broker`, with the methods that the engine calls, as an
-- interface. A call of a method on fuel ends in `none` if the fuel runs out.
use spinach.Prelude.{
  arith, refl, ℕ, ℤ, ◌≤◌, ◌≡◌, Bool, String, List, [], ◌∷◌, Option, none, some, length,
  if◌then◌else◌,
}
use spinach.Outcome.{Result, ok, raise}
use spinach.Outcome
use spinach.Action.{Action}
use spinach.Json.{Json}
use spinach.Job.{Job, waiting, queued, should_start}
use spinach.Task.{Task}

-- What a call finds outside the broker: the two clocks, new ids, an idempotency token, random numbers,
-- what the broker says about itself, and whether the event is set while it waits.
pub record Moment : Type 0 where
  pub now : ℕ
  pub mono : ℕ
  pub uuid : ℕ → String
  pub token : String
  pub randint : ℕ → ℕ
  pub info : Json
  pub happens : Bool

abbrev pub Call : Type 0 → Type 0 → Type 0
Call S A = S → Option (Result A × S)

module _ {S A : Type 0} where
  abbrev pub ends : Action S A → Call S A
  ends m s = some (m s)

  pub ends-injective : {p q : Result A × S} → some p ≡ some q → p ≡ q
  ends-injective e = cc

module _ {S A B : Type 0} where
  abbrev pub then_call : Option (Result A × S) → (A → Call S B) → Option (Result B × S)
  then_call none f = none
  then_call (some (ok a, s)) f = f a s
  then_call (some (raise e, s)) f = some (raise e, s)

  infixl 5 ◌>>=◌ ◌>>◌
  abbrev pub ◌>>=◌ : Call S A → (A → Call S B) → Call S B
  m >>= f = λ s. then_call (m s) f

  abbrev pub ◌>>◌ : Call S A → Call S B → Call S B
  m >> n = m >>= λ _. n

  -- What returned after another call came from a value of that call.
  pub then_call-eq-ok :
      (o : Option (Result A × S)) (f : A → Call S B) (b : B) (t : S)
      → then_call o f ≡ some (ok b, t)
      → (a : A) × (s : S) × (o ≡ some (ok a, s)) × (f a s ≡ some (ok b, t))
  then_call-eq-ok none f b t h = absurd (grind (arith, h))
  then_call-eq-ok (some (ok a, s)) f b t h = (a, s, refl, h)
  then_call-eq-ok (some (raise e, s)) f b t h = absurd (grind (arith, h))

pub record Broker : Type 1 where
  pub State : Type 0
  pub stop : State → State
  pub register_periodic_tasks : Moment → List Task → Call State (Unit {0})
  pub set_concurrency_keys : List Task → Call State (Unit {0})
  pub is_queue_empty : String → Call State Bool
  pub inspect_periodic_tasks : Call State (List (ℕ × String))
  pub enqueue_jobs : Moment → Bool → List Job → Call State (List Job)
  pub remove_job_from_running : Job → Call State (Unit {0})
  pub get_jobs_from_queue : String → ℕ → Call State (List Job)
  pub move_future_jobs : Moment → Call State ℕ
  pub get_next_future_job : Call State (Option Job)
  pub next_future_periodic_delta : Moment → Call State (Option ℕ)
  pub flush : Call State (Unit {0})
  pub get_all_brokers : Moment → Call State (List Json)
  pub enqueue_jobs_from_dead_broker : String → Call State (ℕ × List Json)
  -- How long it waits at most.
  pub wait_for_event : Moment → Call State ℤ

-- The status that a job is enqueued under.
unfoldable pub mark : ℕ → Job → Result Job
unfolding should_start
mark now j =
    Outcome.◌>>=◌ (should_start now j)
      λ starts. ok (record j { status = if starts then queued else waiting })

unfoldable pub mark_all : ℕ → List Job → Result (List Job)
unfolding mark
mark_all now [] = ok []
mark_all now (j ∷ js) =
    Outcome.◌>>=◌ (mark now j) λ job. Outcome.◌>>=◌ (mark_all now js) λ rest. ok (job ∷ rest)

-- What the engine relies on: the jobs that are enqueued are those that were given, each under the
-- status that its date gives it, and a fetch ends and hands out no more jobs than it was asked for.
pub record Contract (broker : Broker) : Type 0 where
  pub marked :
      (m : Moment) (from_failure : Bool) (js out : List Job) (s t : broker.State)
      → broker.enqueue_jobs m from_failure js s ≡ some (ok out, t)
      → mark_all m.now js ≡ ok out
  pub bounded :
      (queue : String) (max_jobs : ℕ) (js : List Job) (s t : broker.State)
      → 1 ≤ max_jobs
      → broker.get_jobs_from_queue queue max_jobs s ≡ some (ok js, t)
      → length js ≤ max_jobs
