-- ===== src/Memory/Order.antt =====
-- The future jobs of spinach/brokers/memory.py in the order of their dates.
use spinach.Prelude.{
  ℕ, ◌≤◌, ◌≡◌, refl, sym, ap, subst, ◌∙◌, List, [], ◌∷◌, map, arith, Bool-cases, All, leb, inl, inr,
}
use spinach.Outcome.{ok, raise, IsOk, is_ok, >>=-eq-ok, ok-injective}
use spinach.Time.{instant}
use spinach.Json.{Json}
use spinach.Job.{deserialize}
use spinach.Memory.{with_keys, insert_by_key, sort_by_key, sort_by_at}

abbrev pub ValidDocs : List Json → Type 0
ValidDocs docs = All (λ doc. IsOk (deserialize doc)) docs

-- When a stored job is due, by its own text.
unfoldable pub at_of : Json → ℕ
unfolding instant
at_of doc = elim (deserialize doc) [ ok j ↦ instant j.at | raise e ↦ 0 ]

-- Each stored job is due no later than those behind it.
abbrev pub IsSorted : List Json → Type 0
IsSorted [] = Unit
IsSorted (doc ∷ docs) = All (λ other. at_of doc ≤ at_of other) docs × IsSorted docs

abbrev pub IsFuture : List Json → Type 0
IsFuture docs = ValidDocs docs × IsSorted docs

-- Sorting by the key only moves documents.
pub with_keys-values :
    (docs : List Json) (entries : List (ℕ × Json))
    → with_keys docs ≡ ok entries
    → map (λ e. e.1) entries ≡ docs
unfolding with_keys
with_keys-values [] entries h = ap (map (λ e. e.1)) (sym (ok-injective h))
with_keys-values (doc ∷ docs) entries h =
    let (j, read, h₁) = >>=-eq-ok (deserialize doc) _ h in
    let (rest, read_rest, h₂) = >>=-eq-ok (with_keys docs) _ h₁ in
    ap (map (λ e. e.1)) (sym (ok-injective h₂))
    ∙ ap (◌∷◌ doc) (with_keys-values docs rest read_rest)

module _ (P : Json → Type 0) where
  insert_by_key-All :
      (k : ℕ) (doc : Json) (entries : List (ℕ × Json))
      → P doc
      → All P (map (λ e. e.1) entries)
      → All P (map (λ e. e.1) (insert_by_key (k, doc) entries))
  unfolding insert_by_key
  insert_by_key-All k doc [] p h = (p, tt)
  insert_by_key-All k doc (f ∷ rest) p h = elim (Bool-cases (leb k f.0)) [
    | inl e ↦ rw e (p, h)
    | inr e ↦ rw e (h.0, insert_by_key-All k doc rest p h.1)
  ]

  sort_by_key-All :
      (entries : List (ℕ × Json))
      → All P (map (λ e. e.1) entries)
      → All P (map (λ e. e.1) (sort_by_key entries))
  unfolding sort_by_key
  sort_by_key-All [] h = tt
  sort_by_key-All ((k, doc) ∷ rest) h =
      insert_by_key-All k doc (sort_by_key rest) h.0 (sort_by_key-All rest h.1)

  sort_by_at-All : (docs out : List Json) → sort_by_at docs ≡ ok out → All P docs → All P out
  unfolding sort_by_at
  sort_by_at-All docs out h p =
      let (entries, read, sorted) = >>=-eq-ok (with_keys docs) _ h in
      subst (All P) (ok-injective sorted)
        (sort_by_key-All entries (rw (with_keys-values docs entries read) p))

-- The same on the entries that are sorted.
abbrev Ordered : List (ℕ × Json) → Type 0
Ordered [] = Unit
Ordered (e ∷ rest) = All (λ f. e.0 ≤ f.0) rest × Ordered rest

All-weaken :
    (a b : ℕ) (entries : List (ℕ × Json))
    → a ≤ b
    → All (λ f. b ≤ f.0) entries
    → All (λ f. a ≤ f.0) entries
All-weaken a b [] h k = tt
All-weaken a b (f ∷ rest) h k = (omega (arith, k.0), All-weaken a b rest h k.1)

insert_by_key-All_above :
    (a : ℕ) (e : ℕ × Json) (entries : List (ℕ × Json))
    → a ≤ e.0
    → All (λ f. a ≤ f.0) entries
    → All (λ f. a ≤ f.0) (insert_by_key e entries)
unfolding insert_by_key
insert_by_key-All_above a e [] h k = (h, tt)
insert_by_key-All_above a e (f ∷ rest) h k = elim (Bool-cases (leb e.0 f.0)) [
  | inl t ↦ rw t (h, k)
  | inr t ↦ rw t (k.0, insert_by_key-All_above a e rest h k.1)
]

insert_by_key-Ordered :
    (e : ℕ × Json) (entries : List (ℕ × Json)) → Ordered entries → Ordered (insert_by_key e entries)
unfolding insert_by_key
insert_by_key-Ordered e [] h = (tt, tt)
insert_by_key-Ordered e (f ∷ rest) h = elim (Bool-cases (leb e.0 f.0)) [
  | inl t ↦ let le : e.0 ≤ f.0 = ground arith in rw t ((le, All-weaken e.0 f.0 rest le h.0), h)
  | inr t ↦
      rw t (insert_by_key-All_above f.0 e rest (ground arith) h.0, insert_by_key-Ordered e rest h.1)
]

sort_by_key-Ordered : (entries : List (ℕ × Json)) → Ordered (sort_by_key entries)
unfolding sort_by_key
sort_by_key-Ordered [] = tt
sort_by_key-Ordered (e ∷ rest) =
    insert_by_key-Ordered e (sort_by_key rest) (sort_by_key-Ordered rest)

abbrev Keyed : List (ℕ × Json) → Type 0
Keyed entries = All (λ e. e.0 ≡ at_of e.1) entries

insert_by_key-Keyed :
    (e : ℕ × Json) (entries : List (ℕ × Json))
    → e.0 ≡ at_of e.1
    → Keyed entries
    → Keyed (insert_by_key e entries)
unfolding insert_by_key
insert_by_key-Keyed e [] h k = (h, tt)
insert_by_key-Keyed e (f ∷ rest) h k = elim (Bool-cases (leb e.0 f.0)) [
  | inl t ↦ rw t (h, k)
  | inr t ↦ rw t (k.0, insert_by_key-Keyed e rest h k.1)
]

sort_by_key-Keyed : (entries : List (ℕ × Json)) → Keyed entries → Keyed (sort_by_key entries)
unfolding sort_by_key
sort_by_key-Keyed [] k = tt
sort_by_key-Keyed (e ∷ rest) k =
    insert_by_key-Keyed e (sort_by_key rest) k.0 (sort_by_key-Keyed rest k.1)

with_keys-Keyed :
    (docs : List Json) (entries : List (ℕ × Json)) → with_keys docs ≡ ok entries → Keyed entries
unfolding with_keys at_of
with_keys-Keyed [] entries h = subst Keyed (ok-injective h) tt
with_keys-Keyed (doc ∷ docs) entries h =
    let (j, read, h₁) = >>=-eq-ok (deserialize doc) _ h in
    let (rest, read_rest, h₂) = >>=-eq-ok (with_keys docs) _ h₁ in
    subst Keyed (ok-injective h₂) (rw (read, at_of) refl, with_keys-Keyed docs rest read_rest)

above-map :
    (a : ℕ) (entries : List (ℕ × Json))
    → Keyed entries
    → All (λ f. a ≤ f.0) entries
    → All (λ doc. a ≤ at_of doc) (map (λ e. e.1) entries)
above-map a [] k h = tt
above-map a (e ∷ rest) k h = (rw (← k.0) h.0, above-map a rest k.1 h.1)

Ordered-IsSorted :
    (entries : List (ℕ × Json))
    → Keyed entries
    → Ordered entries
    → IsSorted (map (λ e. e.1) entries)
Ordered-IsSorted [] k h = tt
Ordered-IsSorted (e ∷ rest) k h =
    (rw (← k.0) (above-map e.0 rest k.1 h.0), Ordered-IsSorted rest k.1 h.1)

sort_by_at-IsSorted : (docs out : List Json) → sort_by_at docs ≡ ok out → IsSorted out
unfolding sort_by_at
sort_by_at-IsSorted docs out h =
    let (entries, read, sorted) = >>=-eq-ok (with_keys docs) _ h in
    subst IsSorted (ok-injective sorted) (
      Ordered-IsSorted (sort_by_key entries)
        (sort_by_key-Keyed entries (with_keys-Keyed docs entries read))
        (sort_by_key-Ordered entries))

pub sort_by_at-IsFuture :
    (docs out : List Json) → sort_by_at docs ≡ ok out → ValidDocs docs → IsFuture out
sort_by_at-IsFuture docs out h v =
    (sort_by_at-All (λ doc. IsOk (deserialize doc)) docs out h v, sort_by_at-IsSorted docs out h)

with_keys-IsOk : (docs : List Json) → ValidDocs docs → IsOk (with_keys docs)
unfolding with_keys
with_keys-IsOk [] v = is_ok [] refl
with_keys-IsOk (doc ∷ docs) (is_ok j e, v) = elim (with_keys-IsOk docs v) [
  | is_ok rest f ↦ is_ok ((instant j.at, doc) ∷ rest) (rw (e, f, with_keys) refl)
]

-- Jobs that can be read can be sorted.
pub sort_by_at-IsOk : (docs : List Json) → ValidDocs docs → IsOk (sort_by_at docs)
unfolding sort_by_at
sort_by_at-IsOk docs v = elim (with_keys-IsOk docs v) [
  | is_ok entries e ↦ is_ok (map (λ e. e.1) (sort_by_key entries)) (rw (e, sort_by_at) refl)
]
