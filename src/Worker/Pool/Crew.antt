-- ===== src/Worker/Pool/Crew.antt =====
-- Counting the workers of spinach/worker.py by their states.
use spinach.Prelude.{
  ℕ, zero, suc, ◌+◌, ◌≤◌, ◌≡◌, refl, ◌≢◌, ◌⊎◌, inl, inr, List, [], ◌∷◌, ◌++◌, some, All, arith, ap,
  sym, ◌∙◌,
}
use spinach.Worker.{Item, poison_pill, job}
use spinach.Worker.Pool.{State, ready, waiting, passing, holding, over, get_at, set_at}

abbrev pub total : (State → ℕ) → List State → ℕ
total f [] = 0
total f (s ∷ crew) = f s + total f crew

-- 1 for the states that are counted.
abbrev pub held : State → ℕ
held (holding item) = 1
held _ = 0

abbrev pub waits : State → ℕ
waits waiting = 1
waits _ = 0

abbrev pub passes : State → ℕ
passes passing = 1
passes _ = 0

abbrev pub pill : Item → ℕ
pill poison_pill = 1
pill (job j) = 0

abbrev pub pills : State → ℕ
pills (holding item) = pill item
pills _ = 0

-- A worker that can go on.
abbrev pub able : State → ℕ
able ready = 1
able (holding item) = 1
able _ = 0

abbrev pub alive : State → ℕ
alive (over fate) = 0
alive _ = 1

abbrev pub count_pills : List Item → ℕ
count_pills [] = 0
count_pills (item ∷ items) = pill item + count_pills items

pub total-set_at :
    (f : State → ℕ) (i : ℕ) (s t : State) (crew : List State)
    → get_at i crew ≡ some s
    → total f (set_at i t crew) + f s ≡ total f crew + f t
total-set_at f i s t [] e = absurd (grind (arith, e))
total-set_at f zero s t (r ∷ crew) e = let same : r ≡ s = cc in rw (same) (omega arith)
total-set_at f (suc i) s t (r ∷ crew) e = omega (arith, total-set_at f i s t crew e)

pub get_at-set_at_self :
    (i : ℕ) (s t : State) (crew : List State)
    → get_at i crew ≡ some s
    → get_at i (set_at i t crew) ≡ some t
get_at-set_at_self i s t [] e = absurd (grind (arith, e))
get_at-set_at_self zero s t (r ∷ crew) e = refl
get_at-set_at_self (suc i) s t (r ∷ crew) e = get_at-set_at_self i s t crew e

pub get_at-set_at_other :
    (i j : ℕ) (t : State) (crew : List State) → j ≢ i → get_at j (set_at i t crew) ≡ get_at j crew
get_at-set_at_other i j t [] ne = refl
get_at-set_at_other zero zero t (r ∷ crew) ne = absurd (ne refl)
get_at-set_at_other zero (suc j) t (r ∷ crew) ne = refl
get_at-set_at_other (suc i) zero t (r ∷ crew) ne = refl
get_at-set_at_other (suc i) (suc j) t (r ∷ crew) ne =
    get_at-set_at_other i j t crew (λ e. ne (ap suc e))

-- The workers with these numbers wait, each number once.
abbrev pub Waiting : List State → List ℕ → Type 0
Waiting crew getters = All (λ g. get_at g crew ≡ some waiting) getters

abbrev pub Distinct : List ℕ → Type 0
Distinct [] = Unit
Distinct (g ∷ gs) = All (λ h. h ≢ g) gs × Distinct gs

-- A change of a worker that does not wait leaves the waiting ones alone.
pub Waiting-set_at :
    (i : ℕ) (t : State) (crew : List State) (gs : List ℕ)
    → All (λ h. h ≢ i) gs
    → Waiting crew gs
    → Waiting (set_at i t crew) gs
Waiting-set_at i t crew [] others w = tt
Waiting-set_at i t crew (g ∷ gs) others w =
    (get_at-set_at_other i g t crew others.0 ∙ w.0, Waiting-set_at i t crew gs others.1 w.1)

waits_apart : (s : State) → waits s ≡ 0 → some waiting ≢ some s
waits_apart s z e = let same : waiting ≡ s = cc in let one = ap waits same in omega (arith, one, z)

pub Waiting-others :
    (i : ℕ) (s : State) (crew : List State) (gs : List ℕ)
    → get_at i crew ≡ some s
    → waits s ≡ 0
    → Waiting crew gs
    → All (λ h. h ≢ i) gs
Waiting-others i s crew [] e z w = tt
Waiting-others i s crew (g ∷ gs) e z w = (
  λ same. waits_apart s z (sym w.0 ∙ ap (λ n. get_at n crew) same ∙ e),
  Waiting-others i s crew gs e z w.1,
)

pub Waiting-snoc :
    (crew : List State) (gs : List ℕ) (i : ℕ)
    → Waiting crew gs
    → get_at i crew ≡ some waiting
    → Waiting crew (gs ++ i ∷ [])
Waiting-snoc crew [] i w e = (e, tt)
Waiting-snoc crew (g ∷ gs) i w e = (w.0, Waiting-snoc crew gs i w.1 e)

pub Distinct-snoc :
    (gs : List ℕ) (i : ℕ) → All (λ h. h ≢ i) gs → Distinct gs → Distinct (gs ++ i ∷ [])
Distinct-snoc [] i others d = (tt, tt)
Distinct-snoc (g ∷ gs) i others d = (new gs others.0 d.0, Distinct-snoc gs i others.1 d.1)
  where
    new : (hs : List ℕ) → g ≢ i → All (λ h. h ≢ g) hs → All (λ h. h ≢ g) (hs ++ i ∷ [])
    new [] ne d = (λ e. ne (sym e), tt)
    new (h ∷ hs) ne d = (d.0, new hs ne d.1)

alive_one : (s : State) → alive s ≡ able s + waits s + passes s
alive_one ready = omega arith
alive_one waiting = omega arith
alive_one passing = omega arith
alive_one (holding item) = omega arith
alive_one (over fate) = omega arith

pills_le_held : (s : State) → pills s ≤ held s
pills_le_held (holding poison_pill) = omega arith
pills_le_held (holding (job j)) = omega arith
pills_le_held ready = omega arith
pills_le_held waiting = omega arith
pills_le_held passing = omega arith
pills_le_held (over fate) = omega arith

held_le_able : (s : State) → held s ≤ able s
held_le_able (holding item) = omega arith
held_le_able ready = omega arith
held_le_able waiting = omega arith
held_le_able passing = omega arith
held_le_able (over fate) = omega arith

-- Some worker can go on, or none can.
pub able_or_not :
    (crew : List State)
    → ((i : ℕ) × (s : State) × (get_at i crew ≡ some s) × (able s ≡ 1)) ⊎ (total able crew ≡ 0)
able_or_not [] = inr refl
able_or_not (ready ∷ crew) = inl (0, ready, refl, refl)
able_or_not (holding item ∷ crew) = inl (0, holding item, refl, refl)
able_or_not (waiting ∷ crew) = elim (able_or_not crew) [
  | inl (i, s, e, a) ↦ inl (suc i, s, e, a)
  | inr z ↦ inr (omega (arith, z))
]
able_or_not (passing ∷ crew) = elim (able_or_not crew) [
  | inl (i, s, e, a) ↦ inl (suc i, s, e, a)
  | inr z ↦ inr (omega (arith, z))
]
able_or_not (over fate ∷ crew) = elim (able_or_not crew) [
  | inl (i, s, e, a) ↦ inl (suc i, s, e, a)
  | inr z ↦ inr (omega (arith, z))
]

-- A worker that is not over can go on, waits for an item or waits for room.
pub total-alive :
    (crew : List State) → total alive crew ≡ total able crew + total waits crew + total passes crew
total-alive [] = omega arith
total-alive (s ∷ crew) = omega (arith, total-alive crew, alive_one s)

pub total-pills_le_held : (crew : List State) → total pills crew ≤ total held crew
total-pills_le_held [] = omega arith
total-pills_le_held (s ∷ crew) = omega (arith, total-pills_le_held crew, pills_le_held s)

pub total-held_le_able : (crew : List State) → total held crew ≤ total able crew
total-held_le_able [] = omega arith
total-held_le_able (s ∷ crew) = omega (arith, total-held_le_able crew, held_le_able s)
