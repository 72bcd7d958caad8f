-- ===== src/Engine/Batch.antt =====
-- `schedule_batch` of spinach/engine.py is all or nothing where its requests are concerned.
use spinach.Prelude.{ℕ, suc, ◌≡◌, refl, String, List, [], ◌∷◌, ◌++◌, inl, inr}
use spinach.Outcome.{Exception, Result, raise, Result-cases}
use spinach.Task.{Tasks, ToCreate}
use spinach.Memory.{MemoryBroker}
use spinach.Engine.{make_job, make_jobs, schedule_batch}

abbrev IsRaise : {A : Type 0} → Result A → Type 0
IsRaise r = (e : Exception) × (r ≡ raise e)

make_jobs-IsRaise :
    (ts : Tasks) (uuid : ℕ → String) (n : ℕ) (before : List ToCreate) (r : ToCreate)
    (after : List ToCreate)
    → ((id : String) → IsRaise (make_job ts id r))
    → IsRaise (make_jobs ts uuid n (before ++ r ∷ after))
unfolding make_jobs
make_jobs-IsRaise ts uuid n [] r after h =
    let (e, same) = h (uuid n) in (e, rw (same, make_jobs) refl)
make_jobs-IsRaise ts uuid n (first ∷ before) r after h =
    elim (Result-cases (make_job ts (uuid n) first)) [
      | inr (e, same) ↦ (e, rw (same, make_jobs) refl)
      | inl (job, same) ↦
          let (e, later) = make_jobs-IsRaise ts uuid (suc n) before r after h in
          (e, rw (same, later, make_jobs) refl)
    ]

-- If one request of a batch cannot be made into a job, wherever it stands, `schedule_batch` raises
-- and the broker stays as it was.
pub schedule_batch_atomic :
    (ts : Tasks) (uuid : ℕ → String) (now : ℕ) (before : List ToCreate) (r : ToCreate)
    (after : List ToCreate) (b : MemoryBroker)
    → ((id : String) → (e : Exception) × (make_job ts id r ≡ raise e))
    → (e : Exception) × (schedule_batch ts uuid now (before ++ r ∷ after) b ≡ (raise e, b))
unfolding schedule_batch
schedule_batch_atomic ts uuid now before r after b h =
    let (e, same) = make_jobs-IsRaise ts uuid 0 before r after h in
    (e, rw (same, schedule_batch) refl)
