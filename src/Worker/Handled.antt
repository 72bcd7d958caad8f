-- ===== src/Worker/Handled.antt =====
-- What becomes of a job that a worker of spinach/worker.py took, and of the worker.
use spinach.Prelude.{
  ℕ, ◌+◌, ◌-◌, ◌≤◌, ◌<◌, ◌≡◌, refl, ◌≢◌, ap, ◌∙◌, ◌↔◌, ◌⊎◌, inl, inr, [], ◌∷◌, ◌++◌, Option, some,
  arith,
}
use spinach.Outcome.{Exception, Result, ok, raise, type_error, system_exit}
use spinach.Time.{naive}
use spinach.Job.{Job}
use spinach.Job.Advance.{Error, retry, advance_job_status}
use spinach.Job.Advance.Outcomes.{advance-raise_iff}
use spinach.Queuey.{task_done}
use spinach.Worker.{RunEnd, ran, exits, after_run, job, Workers, goes_on, dies, fate_of, handle}

dies_iff : (r : Result (Unit {0})) (x : Exception) → (fate_of r ≡ dies x) ↔ (r ≡ raise x)
dies_iff (ok u) x = (λ h. cc, λ h. cc)
dies_iff (raise e) x = (λ h. cc, λ h. cc)

ran_same : (e f : Option Error) → ran e ≡ ran f → e ≡ f
ran_same e f same = cc

not_exit :
    (r : Result (Unit {0}))
    → ((x : Exception) → r ≡ raise x → x ≡ type_error)
    → fate_of r ≢ dies system_exit
not_exit r only f =
    let same = only system_exit ((dies_iff r system_exit).0 f) in absurd (grind (arith, same))

fate_cases :
    (r : Result (Unit {0}))
    → ((x : Exception) → r ≡ raise x → x ≡ type_error)
    → (fate_of r ≡ goes_on) ⊎ ((fate_of r ≡ dies type_error) ⊎ (fate_of r ≡ dies system_exit))
fate_cases (ok u) only = inl refl
fate_cases (raise e) only = inr (inl (ap dies (only e refl)))

-- When a job was counted as unfinished, the worker that took it hands it out and marks it as done,
-- however its run ended: with the status that `advance_job_status` gives it, or as it was if the run
-- ended with a `BaseException` that is no `Exception`. The worker dies exactly after such an end, or
-- when the run asked for a retry at a naive date and retries are left, of a TypeError; otherwise it
-- goes on to its next item.
pub handle_job :
    (fut ended : ℕ) (randint : ℕ → ℕ) (how : RunEnd) (j : Job) (w : Workers)
    → 1 ≤ w.in_queue.unfinished_tasks
    → let r = handle fut ended randint how (job j) w in
      (k : Job) × ((err : Option Error)
        → how ≡ ran err
        → k ≡ (advance_job_status ended randint j err).job)
      × (how ≡ exits → k ≡ j)
      × (r.workers.out_queue ≡ w.out_queue ++ job k ∷ [])
      × (r.workers.in_queue.unfinished_tasks + 1 ≡ w.in_queue.unfinished_tasks)
      × (r.workers.in_queue.items ≡ w.in_queue.items)
      × ((r.fate ≡ dies system_exit) ↔ (how ≡ exits))
      × ((r.fate ≡ dies type_error) ↔ (
          (wall : ℕ) × (how ≡ ran (some (retry (some (naive wall)))))
          × (j.retries < j.max_retries)))
      × ((r.fate ≡ goes_on) ⊎ ((r.fate ≡ dies type_error) ⊎ (r.fate ≡ dies system_exit)))
unfolding handle task_done after_run
handle_job fut ended randint (ran err) j w h =
    let q = w.in_queue in
    let done : task_done q ≡ ok (record q { unfinished_tasks = q.unfinished_tasks - 1 }) =
      ground arith in
    let advanced = advance_job_status ended randint j err in
    let (why, only) = advance-raise_iff ended randint j err in
    let dead = dies_iff advanced.result in
    rw done (
      advanced.job,
      (λ x same. ap (λ r. (advance_job_status ended randint j r).job) (ran_same err x same)),
      (λ same. absurd (grind (arith, same))),
      refl,
      omega arith,
      refl,
      ((λ f. absurd (not_exit advanced.result only f)), (λ same. absurd (grind (arith, same)))),
      (
        (λ f.
            let (wall, is, left) = why.0 (type_error, (dead type_error).0 f) in
            (wall, ap ran is, left)),
        (λ (wall, is, left).
            let (x, out) = why.1 (wall, ran_same err (some (retry (some (naive wall)))) is, left) in
            (dead type_error).1 (out ∙ ap raise (only x out))),
      ),
      fate_cases advanced.result only,
    )
handle_job fut ended randint exits j w h =
    let q = w.in_queue in
    let done : task_done q ≡ ok (record q { unfinished_tasks = q.unfinished_tasks - 1 }) =
      ground arith in
    rw done (
      j,
      (λ x same. absurd (grind (arith, same))),
      (λ same. refl),
      refl,
      omega arith,
      refl,
      ((λ f. refl), (λ same. refl)),
      ((λ f. absurd (grind (arith, f))), (λ (wall, is, left). absurd (grind (arith, is)))),
      inr (inr refl),
    )
