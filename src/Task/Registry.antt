-- ===== src/Task/Registry.antt =====
-- The registry of spinach/task.py keeps well-formed tasks under their names.
use text.Mathlib.Text.{starts_with}
use spinach.Prelude.{
  ℕ, ◌≤◌, ◌≡◌, refl, sym, ap, subst, subst₂, inl, inr, false, String, [], ◌∷◌, Option, none, some,
  Dict, lookup, insert, lookup-insert, str_eq, eq_iff, arith, Bool-cases,
}
use spinach.Outcome.{ok, >>=-eq-ok, ok-injective}
use spinach.Job.{Func}
use spinach.Task.{
  Task, Tasks, by_name, check_concurrency, create, get, queue_of, retries_of, check_name,
  check_queue, add, update_dict, update, or_else,
}

-- A concurrency limit is at least one, and comes with at least one retry.
abbrev pub IsLimited : Option ℕ → ℕ → Type 0
IsLimited none max_retries = Unit
IsLimited (some m) max_retries = (1 ≤ m) × (1 ≤ max_retries)

pub record IsValid (name : String) (t : Task) : Type 0 where
  pub named : t.name ≡ name
  pub open_queue : starts_with t.queue "_" ≡ false
  pub limited : IsLimited t.max_concurrency t.max_retries

abbrev pub IsValidDict : Dict Task → Type 0
IsValidDict d = (k : String) (t : Task) → lookup k d ≡ some t → IsValid k t

check_concurrency-IsLimited :
    (c : Option ℕ) (n : ℕ) (u : Unit) → check_concurrency c n ≡ ok u → IsLimited c n
unfolding check_concurrency
check_concurrency-IsLimited none n u h = tt
check_concurrency-IsLimited (some m) n u h = ground arith

check_name-eq-ok :
    (ts : Tasks) (name : Option String) {key : String}
    → check_name ts name ≡ ok key
    → (name ≡ some key) × (lookup key ts.tasks ≡ none)
unfolding check_name
check_name-eq-ok ts none h = cc
check_name-eq-ok ts (some name) h = ground arith

check_queue-eq-ok :
    (queue : String) {u : Unit} → check_queue queue ≡ ok u → starts_with queue "_" ≡ false
unfolding check_queue
check_queue-eq-ok queue h = elim (Bool-cases (starts_with queue "_")) [
  | inl e ↦ cc (rw e at h)
  | inr e ↦ e
]

create-IsValid :
    (func : Func) (name queue : String) (n : ℕ) (p c : Option ℕ) {t : Task}
    → starts_with queue "_" ≡ false
    → create func name queue n p c ≡ ok t
    → IsValid name t
unfolding create
create-IsValid func name queue n p c q h =
    let (u, limits, made) = >>=-eq-ok (check_concurrency c n) _ h in
    subst (IsValid name) (ok-injective made)
      (record { named = refl; open_queue = q; limited = check_concurrency-IsLimited c n u limits })

-- A successful `add` in parts.
add-eq-ok :
    (ts : Tasks) (func : Func) (name queue : Option String)
    (max_retries periodicity max_concurrency : Option ℕ) {ts' : Tasks}
    → add ts func name queue max_retries periodicity max_concurrency ≡ ok ts'
    → (key : String) × (t : Task) × (name ≡ some key)
      × (lookup key ts.tasks ≡ none)
      × (ts' ≡ record ts { tasks = insert key t ts.tasks })
      × IsValid key t
unfolding add
add-eq-ok ts func name queue max_retries periodicity max_concurrency h =
    let (key, named, h₁) = >>=-eq-ok (check_name ts name) _ h in
    let (u, opened, h₂) = >>=-eq-ok (check_queue (queue_of ts queue)) _ h₁ in
    let (t, made, h₃) =
      >>=-eq-ok
        (create func key (queue_of ts queue) (retries_of ts max_retries)
          (or_else periodicity ts.periodicity) (or_else max_concurrency ts.max_concurrency))
        _ h₂ in
    let (same, new) = check_name-eq-ok ts name named in
    (
      key,
      t,
      same,
      new,
      sym (ok-injective h₃),
      create-IsValid func key (queue_of ts queue) (retries_of ts max_retries)
          (or_else periodicity ts.periodicity) (or_else max_concurrency ts.max_concurrency)
          (check_queue-eq-ok (queue_of ts queue) opened) made,
    )

IsValidDict-insert :
    (key : String) (new : Task) (d : Dict Task)
    → IsValid key new
    → IsValidDict d
    → IsValidDict (insert key new d)
IsValidDict-insert key new d fine valid k t found = elim (Bool-cases (str_eq key k)) [
  | inl e ↦
      let same : key ≡ k = (eq_iff key k).0 e in
      let it : new ≡ t = ground (arith, lookup-insert key k new d) in subst₂ IsValid same it fine
  | inr e ↦ valid k t (ground (arith, lookup-insert key k new d))
]

-- A successful `add` keeps every task under its name, out of the reserved queues and with a limit
-- that its retries allow.
pub add-IsValidDict :
    (ts : Tasks) (func : Func) (name queue : Option String)
    (max_retries periodicity max_concurrency : Option ℕ) {ts' : Tasks}
    → IsValidDict ts.tasks
    → add ts func name queue max_retries periodicity max_concurrency ≡ ok ts'
    → IsValidDict ts'.tasks
add-IsValidDict ts func name queue max_retries periodicity max_concurrency valid h k t found =
    let (key, new, named, absent, after, fine) =
      add-eq-ok ts func name queue max_retries periodicity max_concurrency h in
    IsValidDict-insert key new ts.tasks fine valid k t (rw (ap (λ r. r.tasks) after) at found)

-- No key stands twice, as in a dict.
abbrev pub IsUnique : Dict Task → Type 0
IsUnique [] = Unit
IsUnique ((k, t) ∷ d) = (lookup k d ≡ none) × IsUnique d

lookup-update_dict :
    (k : String) (d new : Dict Task)
    → IsUnique new
    → lookup k (update_dict d new) ≡ elim (lookup k new) [ none ↦ lookup k d | some t ↦ some t ]
unfolding update_dict lookup
lookup-update_dict k d [] u = refl
lookup-update_dict k d ((j, t) ∷ new) u = elim (Bool-cases (str_eq j k)) [
  | inl e ↦
      let same : j ≡ k = (eq_iff j k).0 e in
      let old : lookup k new ≡ none = rw (← same) u.0 in
      rw (lookup-update_dict k (insert j t d) new u.1, old, e)
        (ground (arith, lookup-insert j k t d))
  | inr e ↦
      rw (lookup-update_dict k (insert j t d) new u.1, e) (ground (arith, lookup-insert j k t d))
]

-- `update`, from a registry without double keys, gives the other registry's task under each of its
-- names and leaves the other names alone.
pub get-update :
    (ts other : Tasks) (name : String)
    → IsUnique other.tasks
    → get (update ts other) (by_name name)
      ≡ elim (lookup name other.tasks) [ none ↦ get ts (by_name name) | some t ↦ ok t ]
unfolding get update
get-update ts other name u = ground (arith, lookup-update_dict name ts.tasks other.tasks u)
