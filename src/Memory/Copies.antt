-- ===== src/Memory/Copies.antt =====
-- How many copies of a job spinach/brokers/memory.py holds, by the id of the job.
use spinach.Prelude.{
  ℕ, ◌+◌, ◌≡◌, refl, sym, ap, ◌∙◌, inl, inr, String, List, [], ◌∷◌, ◌++◌, map, Dict, lookup, insert,
  str_eq, arith, Bool-cases, leb, if◌then◌else◌,
}
use spinach.Outcome.{Result, ok, raise, >>=-eq-ok, ok-injective}
use spinach.Json.{Json}
use spinach.Job.{Job, serialize, deserialize}
use spinach.Job.RoundTrip.{deserialize-serialize_loads}
use spinach.Memory.{
  MemoryBroker, or_empty, get_queue, set_queue, put, to_namespaced, with_keys, insert_by_key,
  sort_by_key, sort_by_at,
}
use spinach.Memory.Order.{with_keys-values}

module _ (id : String) where
  -- One, if the job has this id.
  abbrev pub has_id : Job → ℕ
  has_id j = if str_eq j.id id then 1 else 0

  abbrev pub read_id : Result Job → ℕ
  read_id (ok j) = has_id j
  read_id (raise e) = 0

  abbrev pub doc_id : Json → ℕ
  doc_id doc = read_id (deserialize doc)

  -- How many of these jobs, or stored texts, are of the job with this id.
  unfoldable pub among : List Job → ℕ
  among [] = 0
  among (j ∷ js) = has_id j + among js

  unfoldable pub stored_among : List Json → ℕ
  stored_among [] = 0
  stored_among (doc ∷ docs) = doc_id doc + stored_among docs

  unfoldable pub in_queues : Dict (List Json) → ℕ
  unfolding stored_among
  in_queues [] = 0
  in_queues ((key, docs) ∷ d) = stored_among docs + in_queues d

  -- In the queues and among the future jobs.
  unfoldable pub stored : MemoryBroker → ℕ
  unfolding in_queues stored_among
  stored b = in_queues b.queues + stored_among b.future_jobs

  pub among-append : (xs ys : List Job) → among (xs ++ ys) ≡ among xs + among ys
  unfolding among
  among-append [] ys = omega arith
  among-append (x ∷ xs) ys = omega (arith, among-append xs ys)

  pub stored_among-append :
      (xs ys : List Json) → stored_among (xs ++ ys) ≡ stored_among xs + stored_among ys
  unfolding stored_among
  stored_among-append [] ys = omega arith
  stored_among-append (x ∷ xs) ys = omega (arith, stored_among-append xs ys)

  -- A job is stored under its id.
  pub doc_id-serialize : (j : Job) → doc_id (serialize j) ≡ has_id j
  doc_id-serialize j = rw (deserialize-serialize_loads j) refl

  in_queues-insert :
      (key : String) (docs : List Json) (d : Dict (List Json))
      → in_queues (insert key docs d) + stored_among (or_empty (lookup key d))
        ≡ in_queues d + stored_among docs
  unfolding in_queues stored_among insert lookup
  in_queues-insert key docs [] = omega arith
  in_queues-insert key docs ((k, old) ∷ d) = elim (Bool-cases (str_eq k key)) [
    | inl t ↦ rw (t) (omega arith)
    | inr t ↦ rw (t) (omega (arith, in_queues-insert key docs d))
  ]

  pub stored-set_queue :
      (b : MemoryBroker) (name : String) (docs : List Json)
      → stored (set_queue name docs b) + stored_among (get_queue b name)
        ≡ stored b + stored_among docs
  unfolding stored set_queue get_queue
  stored-set_queue b name docs =
      omega (arith, in_queues-insert (to_namespaced b name) docs b.queues)

  pub stored-put :
      (b : MemoryBroker) (name : String) (doc : Json)
      → stored (put name doc b) ≡ stored b + doc_id doc
  unfolding put stored_among
  stored-put b name doc = omega (
    arith,
    stored-set_queue b name (get_queue b name ++ doc ∷ []),
    stored_among-append (get_queue b name) (doc ∷ []),
  )

  -- Sorting keeps every copy.
  insert_by_key-among :
      (e : ℕ × Json) (entries : List (ℕ × Json))
      → stored_among (map (λ p. p.1) (insert_by_key e entries))
        ≡ doc_id e.1 + stored_among (map (λ p. p.1) entries)
  unfolding insert_by_key stored_among
  insert_by_key-among e [] = refl
  insert_by_key-among e (f ∷ rest) = elim (Bool-cases (leb e.0 f.0)) [
    | inl t ↦ rw (t) refl
    | inr t ↦ rw (t) (omega (arith, insert_by_key-among e rest))
  ]

  sort_by_key-among :
      (entries : List (ℕ × Json))
      → stored_among (map (λ p. p.1) (sort_by_key entries)) ≡ stored_among (map (λ p. p.1) entries)
  unfolding sort_by_key stored_among
  sort_by_key-among [] = refl
  sort_by_key-among (e ∷ rest) =
      insert_by_key-among e (sort_by_key rest) ∙ ap (λ n. doc_id e.1 + n) (sort_by_key-among rest)

  pub sort_by_at-among :
      (docs out : List Json) → sort_by_at docs ≡ ok out → stored_among out ≡ stored_among docs
  unfolding sort_by_at
  sort_by_at-among docs out h =
      let (entries, read, sorted) = >>=-eq-ok (with_keys docs) _ h in
      ap stored_among (sym (ok-injective sorted))
      ∙ sort_by_key-among entries
      ∙ ap stored_among (with_keys-values docs entries read)
