-- ===== src/Memory/Counts.antt =====
-- The counts that limit the concurrency of spinach/brokers/memory.py, in one call.
use spinach.Prelude.{
  ℕ, zero, suc, ◌+◌, ◌≤◌, ◌<◌, ℤ, pos, leb_ℤ, ◌≡◌, refl, ap, ◌≢◌, ◌⊎◌, inl, inr, String, List, [],
  ◌∷◌, ◌++◌, Option, none, some, Dict, lookup, insert, lookup-insert, str_eq, eq_iff, arith,
  Bool-cases, Option-cases, All, if◌then◌else◌,
}
use spinach.Outcome.{IsOk, is_ok}
use spinach.Json.{Json}
use spinach.Job.{Job, deserialize}
use spinach.Memory.Fetch.{refuse, take, take_counted, decide, Fetched, fetch, with_job, stopped}

-- One, if the job is of this task.
abbrev pub is_named : String → String → ℕ
is_named t name = if str_eq name t then 1 else 0

abbrev pub is_of : String → Job → ℕ
is_of t j = is_named t j.task_name

-- How many of the jobs are of this task.
unfoldable pub count : String → List Job → ℕ
count t [] = 0
count t (j ∷ js) = is_of t j + count t js

pub count-append : (t : String) (xs ys : List Job) → count t (xs ++ ys) ≡ count t xs + count t ys
unfolding count
count-append t [] ys = omega arith
count-append t (x ∷ xs) ys = omega (arith, count-append t xs ys)

pub count-middle :
    (t : String) (xs : List Job) (j : Job) (ys : List Job)
    → count t (xs ++ j ∷ ys) ≡ is_of t j + count t (xs ++ ys)
unfolding count
count-middle t xs j ys = omega (arith, count-append t xs (j ∷ ys), count-append t xs ys)

-- The count that is kept of each limited task is `n`, and within the limit.
abbrev pub Counted : Dict (Option ℕ) → Dict ℤ → (String → ℕ) → Type 0
Counted max_keys cur_keys n =
    (t : String) (m : ℕ)
    → lookup t max_keys ≡ some (some m)
    → (lookup t cur_keys ≡ some (pos (n t))) × (n t ≤ m)

module _ (max_keys : Dict (Option ℕ)) where
  decide_cases :
      (cur_keys : Dict ℤ) (n : String → ℕ) (t : String)
      → Counted max_keys cur_keys n
      → (decide max_keys cur_keys t ≡ refuse)
        ⊎ (((decide max_keys cur_keys t ≡ take) × ((m : ℕ) → lookup t max_keys ≢ some (some m)))
            ⊎ ((m : ℕ) × (lookup t max_keys ≡ some (some m))
                × (decide max_keys cur_keys t ≡ take_counted (pos (n t + 1)))
                × (n t < m)))
  unfolding decide
  decide_cases cur_keys n t c = elim (Option-cases (lookup t max_keys)) [
    | inl e ↦ inr (inl (rw (e, decide), λ m. cc))
    | inr (none, e) ↦ inr (inl (rw (e, decide), λ m. cc))
    | inr (some m, e) ↦
        let (cur, le) = c t m e in
        elim (Bool-cases (leb_ℤ (pos m) (pos (n t)))) [
          | inl full ↦ inl (rw (e, cur, full, decide))
          | inr free ↦ inr (inr (m, e, ground arith, ground arith))
        ]
  ]

  -- Taking a job of a task that has room adds one to its count.
  insert-Counted :
      (cur_keys : Dict ℤ) (n : String → ℕ) (j : Job) (m : ℕ)
      → Counted max_keys cur_keys n
      → lookup j.task_name max_keys ≡ some (some m)
      → n j.task_name < m
      → Counted max_keys
          (insert j.task_name (pos (n j.task_name + 1)) cur_keys)
          (λ t. is_of t j + n t)
  insert-Counted cur_keys n j m c e lt t k h = elim (Bool-cases (str_eq j.task_name t)) [
    | inl same ↦
        let eq : j.task_name ≡ t = (eq_iff j.task_name t).0 same in
        ground (arith, lookup-insert j.task_name t (pos (n j.task_name + 1)) cur_keys)
    | inr other ↦
        ground (arith, lookup-insert j.task_name t (pos (n j.task_name + 1)) cur_keys, c t k h)
  ]

  -- Taking a job of a task without a limit changes no count that is kept.
  take-Counted :
      (cur_keys : Dict ℤ) (n : String → ℕ) (j : Job)
      → Counted max_keys cur_keys n
      → ((m : ℕ) → lookup j.task_name max_keys ≢ some (some m))
      → Counted max_keys cur_keys (λ t. is_of t j + n t)
  take-Counted cur_keys n j c free t k h = elim (Bool-cases (str_eq j.task_name t)) [
    | inl same ↦ absurd (free k (rw ((eq_iff j.task_name t).0 same) h))
    | inr other ↦ ground (arith, c t k h)
  ]

  pub Counted-cong :
      (cur_keys : Dict ℤ) (n n' : String → ℕ)
      → ((t : String) → n t ≡ n' t)
      → Counted max_keys cur_keys n
      → Counted max_keys cur_keys n'
  Counted-cong cur_keys n n' e c t m h = rw (← e t) (c t m h)

  -- What `fetch` does: no exception, counts that include the jobs taken, and a rest to put back that
  -- can still be read.
  pub record FetchInv (n : String → ℕ) (f : Fetched) : Type 0 where
    pub fine : f.error ≡ none
    pub counted : Counted max_keys f.cur_keys (λ t. count t f.jobs + n t)
    pub rest_valid : All (λ doc. IsOk (deserialize doc)) f.rest
    pub re_add_valid : All (λ doc. IsOk (deserialize doc)) f.jobs_to_re_add

  FetchInv-stopped :
      (n : String → ℕ) (docs : List Json) (cur_keys : Dict ℤ)
      → Counted max_keys cur_keys n
      → All (λ doc. IsOk (deserialize doc)) docs
      → FetchInv n (stopped docs cur_keys none)
  unfolding count
  FetchInv-stopped n docs cur_keys c v = record {
    fine = refl;
    counted = Counted-cong cur_keys n _ (λ t. omega arith) c;
    rest_valid = v;
    re_add_valid = tt;
  }

  FetchInv-with_job :
      (n : String → ℕ) (j k : Job) (f : Fetched)
      → j.task_name ≡ k.task_name
      → FetchInv (λ t. is_of t j + n t) f
      → FetchInv n (with_job k f)
  unfolding count
  FetchInv-with_job n j k f e v = record {
    fine = v.fine;
    counted = Counted-cong f.cur_keys _ _ (λ t. omega (arith, ap (λ s. is_named t s) e)) v.counted;
    rest_valid = v.rest_valid;
    re_add_valid = v.re_add_valid;
  }

  pub fetch-FetchInv :
      (room : ℕ) (docs : List Json) (cur_keys : Dict ℤ) (n : String → ℕ)
      → Counted max_keys cur_keys n
      → All (λ doc. IsOk (deserialize doc)) docs
      → FetchInv n (fetch max_keys room docs cur_keys)
  unfolding fetch
  fetch-FetchInv zero docs cur_keys n c v = FetchInv-stopped n docs cur_keys c v
  fetch-FetchInv (suc room) [] cur_keys n c v = FetchInv-stopped n [] cur_keys c v
  fetch-FetchInv (suc room) (doc ∷ docs) cur_keys n c (is_ok j e, v) =
      elim (decide_cases cur_keys n j.task_name c) [
        | inl refused ↦
            let f = fetch-FetchInv (suc room) docs cur_keys n c v in
            rw (e, refused, fetch)
              (record {
                fine = f.fine;
                counted = f.counted;
                rest_valid = f.rest_valid;
                re_add_valid = (is_ok j e, f.re_add_valid);
              })
        | inr (inl (taken, free)) ↦
            rw (e, taken, fetch)
              (FetchInv-with_job n j _ _ refl
                (fetch-FetchInv room docs cur_keys _ (take-Counted cur_keys n j c free) v))
        | inr (inr (m, limit, taken, lt)) ↦
            rw (e, taken, fetch)
              (FetchInv-with_job n j _ _ refl
                (fetch-FetchInv room docs _ _ (insert-Counted cur_keys n j m c limit lt) v))
      ]
