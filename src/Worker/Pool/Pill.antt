-- ===== src/Worker/Pool/Pill.antt =====
-- The poison pill of spinach/worker.py: where it is, from the call of `stop` on.
use spinach.Prelude.{
  ℕ, ◌+◌, ◌≡◌, refl, sym, subst, ◌∙◌, ◌⊎◌, inl, inr, Bool, List, [], ◌∷◌, ◌++◌, some, arith,
  if◌then◌else◌,
}
use spinach.Queuey.{Queuey, Put, Got}
use spinach.Worker.{Item, poison_pill, job}
use spinach.Worker.Pool.{State, ready, waiting, holding, get_at, set_at, deliver, taken}
use spinach.Worker.Pool.Crew.{total, pill, pills, count_pills, total-set_at}
use spinach.Worker.Pool.Invariant.{Placed, Took}

-- Nothing is behind a pill in the queue.
abbrev pub PillLast : List Item → Type 0
PillLast [] = Unit
PillLast (poison_pill ∷ items) = items ≡ []
PillLast (job j ∷ items) = PillLast items

-- There is one pill once `stop` was called, behind all jobs that nobody took yet.
pub record OnePill (must_stop : Bool) (items : List Item) (crew : List State) : Type 0 where
  pub budget : count_pills items + total pills crew ≡ (if must_stop then 1 else 0)
  pub last : PillLast items
  pub behind : (items ≡ []) ⊎ (total pills crew ≡ 0)

PillLast-nil : (items : List Item) → items ≡ [] → PillLast items
PillLast-nil items e = subst PillLast (sym e) tt

PillLast-snoc :
    (items : List Item) (item : Item) → count_pills items ≡ 0 → PillLast (items ++ item ∷ [])
PillLast-snoc [] poison_pill z = refl
PillLast-snoc [] (job j) z = tt
PillLast-snoc (poison_pill ∷ items) item z = absurd (omega (arith, z))
PillLast-snoc (job j ∷ items) item z = PillLast-snoc items item (omega (arith, z))

-- The first item of the queue goes to worker `i`.
took-OnePill :
    (must_stop : Bool) (a : Item) (items : List Item) (i : ℕ) (crew : List State)
    → OnePill must_stop (a ∷ items) crew
    → get_at i crew ≡ some ready
    → OnePill must_stop items (set_at i (holding a) crew)
took-OnePill must_stop poison_pill items i crew v e = record {
  budget = omega (arith, v.budget, total-set_at pills i ready (holding poison_pill) crew e);
  last = PillLast-nil items v.last;
  behind = inl v.last;
}
took-OnePill must_stop (job j) items i crew v e = record {
  budget = omega (arith, v.budget, total-set_at pills i ready (holding (job j)) crew e);
  last = v.last;
  behind = elim v.behind [
    | inl none_left ↦ absurd (grind (arith, none_left))
    | inr z ↦ inr (omega (arith, z, total-set_at pills i ready (holding (job j)) crew e))
  ];
}

pub take-OnePill :
    (must_stop : Bool) (q : Queuey Item) (i : ℕ) (crew : List State) (g : Got Item)
    → OnePill must_stop q.items crew
    → get_at i crew ≡ some ready
    → Took q i crew g
    → OnePill must_stop g.queue.items (set_at i (taken g.item) crew)
take-OnePill must_stop q i crew g v e t = elim t.what [
  | inl w ↦
      let empty =
        subst (λ l. count_pills l + total pills crew ≡ (if must_stop then 1 else 0)) w.0 v.budget in
      rw (w.1, w.2)
        (record {
          budget = omega (arith, empty, total-set_at pills i ready waiting crew e);
          last = tt;
          behind = inl refl;
        })
  | inr w ↦
      let (a, front, got) = w in
      rw (got) (
        took-OnePill must_stop a g.queue.items i crew
          (subst (λ l. OnePill must_stop l crew) front v) e)
]

-- A put where there is no pill yet.
pub put-OnePill :
    (must_stop : Bool) (item : Item) (q : Queuey Item) (crew : List State) (p : Put Item)
    → count_pills q.items ≡ 0
    → total pills crew ≡ 0
    → pill item ≡ (if must_stop then 1 else 0)
    → Placed item q crew p
    → OnePill must_stop p.queue.items (deliver p.served crew)
put-OnePill must_stop item q crew p z none_held is_pill v = record {
  budget = v.pills_after ∙ omega (arith, z, none_held, is_pill);
  last = elim v.items_after [
    | inl a ↦ rw (a.0) (PillLast-snoc q.items item z)
    | inr a ↦ PillLast-nil p.queue.items a.1
  ];
  behind = elim v.items_after [ inl a ↦ inr (rw (a.1) none_held) | inr a ↦ inl a.1 ];
}
