-- ===== src/Memory/Release.antt =====
-- Giving up a job's place (spinach/brokers/memory.py) takes one off the count of its task.
use spinach.Prelude.{
  ℕ, ◌+◌, ℤ, pos, pos_pred, ◌≡◌, refl, sym, subst, ◌∙◌, ◌≢◌, inl, inr, String, Option, none, some,
  Dict, lookup, insert, lookup-insert, str_eq, eq_iff, arith, Bool-cases, Option-cases,
}
use spinach.Action.{modify}
use spinach.Job.{Job}
use spinach.Memory.{MemoryBroker, release_concurrency, set_event}
use spinach.Memory.Fetch.{remove_job_from_running}
use spinach.Memory.Counts.{is_of, Counted}
use spinach.Memory.Valid.{IsSound, Quiet, Quiet-refl, >>=-Quiet_from, set_event-Quiet}

module _ (max_keys : Dict (Option ℕ)) (cur_keys : Dict ℤ) (n : String → ℕ) (j : Job)
    (c : Counted max_keys cur_keys (λ t. is_of t j + n t)) where
  Counted-unlimited :
      ((m : ℕ) → lookup j.task_name max_keys ≢ some (some m)) → Counted max_keys cur_keys n
  Counted-unlimited free t k h = elim (Bool-cases (str_eq j.task_name t)) [
    | inl same ↦ absurd (free k (rw ((eq_iff j.task_name t).0 same) h))
    | inr other ↦ ground (arith, c t k h)
  ]

  Counted-released :
      (m : ℕ)
      → lookup j.task_name max_keys ≡ some (some m)
      → Counted max_keys (insert j.task_name (pos (n j.task_name)) cur_keys) n
  Counted-released m e t k h = elim (Bool-cases (str_eq j.task_name t)) [
    | inl same ↦
        let eq : j.task_name ≡ t = (eq_iff j.task_name t).0 same in
        ground (arith, lookup-insert j.task_name t (pos (n j.task_name)) cur_keys, c t k h)
    | inr other ↦
        ground (arith, lookup-insert j.task_name t (pos (n j.task_name)) cur_keys, c t k h)
  ]

  own_count :
      (m : ℕ)
      → lookup j.task_name max_keys ≡ some (some m)
      → lookup j.task_name cur_keys ≡ some (pos (n j.task_name + 1))
  own_count m e = ground (arith, c j.task_name m e, eq_iff j.task_name j.task_name)

-- What a release does to a broker whose counts include the job.
pub record Released (n : String → ℕ) (b b' : MemoryBroker) : Type 0 where
  pub max_same : b'.max_concurrency_keys ≡ b.max_concurrency_keys
  pub counted : Counted b'.max_concurrency_keys b'.cur_concurrency_keys n
  pub sound : IsSound b → IsSound b'

pub release-Released :
    (b : MemoryBroker) (n : String → ℕ) (j : Job)
    → Counted b.max_concurrency_keys b.cur_concurrency_keys (λ t. is_of t j + n t)
    → Released n b (release_concurrency j.task_name b).1
unfolding release_concurrency
release-Released b n j c = elim (Option-cases (lookup j.task_name b.max_concurrency_keys)) [
  | inl e ↦
      rw (e, release_concurrency)
        (record {
          max_same = refl;
          counted = Counted-unlimited b.max_concurrency_keys b.cur_concurrency_keys n j c (λ m. cc);
          sound = λ s. s;
        })
  | inr (none, e) ↦
      rw (e, release_concurrency)
        (record {
          max_same = refl;
          counted = Counted-unlimited b.max_concurrency_keys b.cur_concurrency_keys n j c (λ m. cc);
          sound = λ s. s;
        })
  | inr (some m, e) ↦
      rw (e, own_count b.max_concurrency_keys b.cur_concurrency_keys n j c m e, release_concurrency)
        (record {
          max_same = refl;
          counted =
              subst
                (λ z.
                  Counted b.max_concurrency_keys (insert j.task_name z b.cur_concurrency_keys) n)
                (sym (pos_pred (n j.task_name)))
                (Counted-released b.max_concurrency_keys b.cur_concurrency_keys n j c m e);
          sound = λ s. record { queues_valid = s.queues_valid; future_valid = s.future_valid };
        })
]

pub Released-Quiet :
    (n : String → ℕ) (b c d : MemoryBroker) → Released n b c → Quiet c d → Released n b d
Released-Quiet n b c d r q = record {
  max_same = q.max_same ∙ r.max_same;
  counted = rw (q.max_same, q.cur_same) r.counted;
  sound = λ s. q.sound (r.sound s);
}

pub remove-Quiet :
    (j : Job) (b : MemoryBroker)
    → Quiet (release_concurrency j.task_name b).1 (remove_job_from_running j b).1
unfolding remove_job_from_running
remove-Quiet j b =
    >>=-Quiet_from _ b (release_concurrency j.task_name) (λ u. modify set_event) (Quiet-refl _)
      (λ u. set_event-Quiet)
