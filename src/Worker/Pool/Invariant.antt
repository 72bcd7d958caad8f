-- ===== src/Worker/Pool/Invariant.antt =====
-- What holds of the queue and the workers of spinach/worker.py between any two steps.
use spinach.Prelude.{
  ℕ, ◌+◌, ◌-◌, ◌≤◌, ◌<◌, ◌≡◌, refl, ◌⊎◌, inl, inr, List, [], ◌∷◌, ◌++◌, none, some, length,
  length-append, ltb, true, arith,
}
use spinach.Queuey.{Queuey, Put, Got, get_noblock, put_noblock}
use spinach.Worker.{Item}
use spinach.Worker.Pool.{State, ready, waiting, holding, get_at, set_at, deliver, taken}
use spinach.Worker.Pool.Crew.{
  total, held, waits, passes, pill, pills, count_pills, total-set_at, get_at-set_at_self, Waiting,
  Distinct, Waiting-set_at, Waiting-others, Waiting-snoc, Distinct-snoc,
}

-- Every item in the queue or with a worker is unfinished, nobody waits for room, and workers wait, in
-- the order of the getters, only for an empty queue.
pub record Fair (q : Queuey Item) (crew : List State) : Type 0 where
  pub positive : 1 ≤ q.maxsize
  pub no_putters : q.putters ≡ []
  pub none_passing : total passes crew ≡ 0
  pub counted : q.unfinished_tasks ≡ length q.items + total held crew
  pub idle : (q.getters ≡ []) ⊎ (q.items ≡ [])
  pub queued : length q.getters ≡ total waits crew
  pub listed : Waiting crew q.getters
  pub distinct : Distinct q.getters

-- A worker that had an item is done with it.
pub done-Fair :
    (q : Queuey Item) (crew : List State) (i : ℕ) (item : Item) (t : State)
    → Fair q crew
    → get_at i crew ≡ some (holding item)
    → held t ≡ 0
    → waits t ≡ 0
    → passes t ≡ 0
    → (1 ≤ q.unfinished_tasks)
      × Fair (record q { unfinished_tasks = q.unfinished_tasks - 1 }) (set_at i t crew)
done-Fair q crew i item t v e h w p =
    let s = holding item in
    let holds = total-set_at held i s t crew e in
    (
      omega (arith, v.counted, holds, h),
      record {
        positive = v.positive;
        no_putters = v.no_putters;
        none_passing = omega (arith, total-set_at passes i s t crew e, v.none_passing, p);
        counted = omega (arith, v.counted, holds, h);
        idle = v.idle;
        queued = omega (arith, total-set_at waits i s t crew e, v.queued, w);
        listed =
            Waiting-set_at i t crew q.getters (Waiting-others i s crew q.getters e refl v.listed)
              v.listed;
        distinct = v.distinct;
      },
    )

-- What a put does for which there is room.
pub record Placed (item : Item) (q : Queuey Item) (crew : List State) (p : Put Item) : Type 0 where
  pub free : p.fut ≡ none
  pub fair : Fair p.queue (deliver p.served crew)
  pub pills_after :
      count_pills p.queue.items + total pills (deliver p.served crew)
      ≡ count_pills q.items + total pills crew + pill item
  pub items_after :
      ((p.queue.items ≡ q.items ++ item ∷ []) × (p.served ≡ none))
      ⊎ ((g : ℕ) × (p.queue.items ≡ [])
          × (p.served ≡ some (g, item))
          × (get_at g crew ≡ some waiting))

pub count_pills-snoc :
    (items : List Item) (item : Item)
    → count_pills (items ++ item ∷ []) ≡ count_pills items + pill item
count_pills-snoc [] item = omega arith
count_pills-snoc (a ∷ items) item = omega (arith, count_pills-snoc items item)

abbrev pub queue_with : ℕ → ℕ → List Item → List ℕ → List (Item × ℕ) → Queuey Item
queue_with m u items getters putters = record {
  maxsize = m;
  items = items;
  getters = getters;
  putters = putters;
  unfinished_tasks = u;
}

put-Placed_as :
    (item : Item) (fut m u : ℕ) (items : List Item) (getters : List ℕ) (putters : List (Item × ℕ))
    (crew : List State)
    → Fair (queue_with m u items getters putters) crew
    → length items < m
    → Placed item
        (queue_with m u items getters putters)
        crew
        (put_noblock item fut (queue_with m u items getters putters))
unfolding put_noblock
put-Placed_as item fut m u items [] putters crew v h =
    let room : ltb (length items) m ≡ true = ground arith in
    rw (room, put_noblock)
      (record {
        free = refl;
        fair = record {
          positive = v.positive;
          no_putters = v.no_putters;
          none_passing = v.none_passing;
          counted = omega (arith, v.counted, length-append items (item ∷ []));
          idle = inl refl;
          queued = v.queued;
          listed = tt;
          distinct = tt;
        };
        pills_after = omega (arith, count_pills-snoc items item);
        items_after = inl (refl, refl);
      })
put-Placed_as item fut m u [] (g ∷ gs) putters crew v h =
    let room : ltb 0 m ≡ true = ground arith in
    let waits_now = v.listed.0 in
    let t = holding item in
    rw (room, put_noblock)
      (record {
        free = refl;
        fair = record {
          positive = v.positive;
          no_putters = v.no_putters;
          none_passing =
              omega (arith, total-set_at passes g waiting t crew waits_now, v.none_passing);
          counted = omega (arith, total-set_at held g waiting t crew waits_now, v.counted);
          idle = inr refl;
          queued = omega (arith, total-set_at waits g waiting t crew waits_now, v.queued);
          listed = Waiting-set_at g t crew gs v.distinct.0 v.listed.1;
          distinct = v.distinct.1;
        };
        pills_after = omega (arith, total-set_at pills g waiting t crew waits_now);
        items_after = inr (g, refl, refl, waits_now);
      })
put-Placed_as item fut m u (a ∷ items) (g ∷ gs) putters crew v h =
    absurd (elim v.idle [ inl e ↦ grind (arith, e) | inr e ↦ grind (arith, e) ])

pub put-Placed :
    (item : Item) (fut : ℕ) (q : Queuey Item) (crew : List State)
    → Fair q crew
    → length q.items < q.maxsize
    → Placed item q crew (put_noblock item fut q)
put-Placed item fut q crew =
    put-Placed_as item fut q.maxsize q.unfinished_tasks q.items q.getters q.putters crew

-- What a worker gets that takes an item, or waits.
pub record Took (q : Queuey Item) (i : ℕ) (crew : List State) (g : Got Item) : Type 0 where
  pub fair : Fair g.queue (set_at i (taken g.item) crew)
  pub what :
      ((q.items ≡ []) × (g.queue.items ≡ []) × (g.item ≡ none))
      ⊎ ((a : Item) × (q.items ≡ a ∷ g.queue.items) × (g.item ≡ some a))

take-Took_as :
    (i m u : ℕ) (items : List Item) (getters : List ℕ) (putters : List (Item × ℕ))
    (crew : List State)
    → Fair (queue_with m u items getters putters) crew
    → get_at i crew ≡ some ready
    → Took
        (queue_with m u items getters putters)
        i
        crew
        (get_noblock i (queue_with m u items getters putters))
unfolding get_noblock
take-Took_as i m u [] gs putters crew v e =
    let others = Waiting-others i ready crew gs e refl v.listed in
    record {
      fair = record {
        positive = v.positive;
        no_putters = v.no_putters;
        none_passing = omega (arith, total-set_at passes i ready waiting crew e, v.none_passing);
        counted = omega (arith, total-set_at held i ready waiting crew e, v.counted);
        idle = inr refl;
        queued =
            omega (
              arith,
              total-set_at waits i ready waiting crew e,
              v.queued,
              length-append gs (i ∷ []),
            );
        listed =
            Waiting-snoc (set_at i waiting crew) gs i
              (Waiting-set_at i waiting crew gs others v.listed)
              (get_at-set_at_self i ready waiting crew e);
        distinct = Distinct-snoc gs i others v.distinct;
      };
      what = inl (refl, refl, refl);
    }
take-Took_as i m u (a ∷ items) gs [] crew v e =
    let t = holding a in
    record {
      fair = record {
        positive = v.positive;
        no_putters = refl;
        none_passing = omega (arith, total-set_at passes i ready t crew e, v.none_passing);
        counted = omega (arith, total-set_at held i ready t crew e, v.counted);
        idle = elim v.idle [
          | inl none_wait ↦ inl none_wait
          | inr none_left ↦ absurd (grind (arith, none_left))
        ];
        queued = omega (arith, total-set_at waits i ready t crew e, v.queued);
        listed =
            Waiting-set_at i t crew gs (Waiting-others i ready crew gs e refl v.listed) v.listed;
        distinct = v.distinct;
      };
      what = inr (a, refl, refl);
    }
take-Took_as i m u (a ∷ items) gs (p ∷ ps) crew v e =
    let none_wait = v.no_putters in absurd (grind (arith, none_wait))

pub take-Took :
    (i : ℕ) (q : Queuey Item) (crew : List State)
    → Fair q crew
    → get_at i crew ≡ some ready
    → Took q i crew (get_noblock i q)
take-Took i q crew = take-Took_as i q.maxsize q.unfinished_tasks q.items q.getters q.putters crew
