-- ===== src/Queuey/Invariant.antt =====
-- What holds between any two calls of spinach/queuey.py.
use spinach.Prelude.{
  ℕ, zero, suc, ◌+◌, ◌≤◌, ◌≡◌, refl, sym, ap, ◌∙◌, ◌⊎◌, inl, inr, List, [], ◌∷◌, ◌++◌, map, length,
  length-append, arith, Bool-cases, ltb,
}
use mathlib.Core.List.{append_assoc, append-nil, map-append}
use spinach.Queuey.{create, get_noblock, put_noblock, task_done}
use spinach.Queuey.System.{Call, get, put, done, System, step, run, start}

-- `0, 1, …`, from `i` on.
abbrev pub range_from : ℕ → ℕ → List ℕ
range_from i zero = []
range_from i (suc n) = i ∷ range_from (suc i) n

module _ {A : Type 0} where
  pub record Inv (s : System A) : Type 0 where
    pub order :
        map (λ r. r.1) s.received ++ (s.queue.items ++ map (λ p. p.0) s.queue.putters) ≡ s.sent
    pub turn : map (λ r. r.0) s.received ++ s.queue.getters ≡ range_from 0 s.asked
    pub idle : (s.queue.getters ≡ []) ⊎ ((s.queue.items ≡ []) × (s.queue.putters ≡ []))
    pub room : length s.queue.items ≤ s.queue.maxsize
    pub full : (s.queue.putters ≡ []) ⊎ (length s.queue.items ≡ s.queue.maxsize)
    pub positive : 1 ≤ s.queue.maxsize

  start-Inv : (maxsize : ℕ) → 1 ≤ maxsize → Inv (start maxsize)
  unfolding start create
  start-Inv maxsize h = record {
    order = refl;
    turn = refl;
    idle = inl refl;
    room = omega arith;
    full = inl refl;
    positive = h;
  }

range_from-snoc : (i n : ℕ) → range_from i (suc n) ≡ range_from i n ++ (i + n) ∷ []
range_from-snoc i zero = ap (λ k. k ∷ []) (omega arith)
range_from-snoc i (suc n) =
    ap (◌∷◌ i) (range_from-snoc (suc i) n ∙ ap (λ k. range_from (suc i) n ++ k ∷ []) (omega arith))

turn_snoc :
    (xs gs : List ℕ) (n : ℕ)
    → xs ++ gs ≡ range_from 0 n
    → xs ++ (gs ++ n ∷ []) ≡ range_from 0 (n + 1)
turn_snoc xs gs n h =
    sym (append_assoc xs gs (n ∷ []))
    ∙ ap (λ l. l ++ n ∷ []) h
    ∙ ap (λ k. range_from 0 n ++ k ∷ []) (omega arith)
    ∙ sym (range_from-snoc 0 n)
    ∙ ap (range_from 0) {x = suc n} (omega arith)

map-snoc {ℓ κ} :
    {A : Type ℓ} {B : Type κ} (f : A → B) (xs : List A) (x : A) (ys : List B)
    → map f (xs ++ x ∷ []) ++ ys ≡ map f xs ++ f x ∷ ys
map-snoc f xs x ys = simp (map-append, append_assoc)

-- One more item behind the others, at the end of the putters or in front of no putter.
order_blocked {ℓ} :
    {A : Type ℓ} (xs is ps : List A) (a : A) {sent : List A}
    → xs ++ (is ++ ps) ≡ sent
    → xs ++ (is ++ (ps ++ a ∷ [])) ≡ sent ++ a ∷ []
order_blocked xs is ps a h = rw (← h) (simp append_assoc)

order_free {ℓ} :
    {A : Type ℓ} (xs is ps : List A) (a : A) {sent : List A}
    → ps ≡ []
    → xs ++ (is ++ ps) ≡ sent
    → xs ++ ((is ++ a ∷ []) ++ ps) ≡ sent ++ a ∷ []
order_free xs is ps a e h = rw (← h, e) (simp (append_assoc, append-nil))

module _ {A : Type 0} (m u : ℕ) where
  abbrev sys : List A → List ℕ → List (A × ℕ) → List A → ℕ → List (ℕ × A) → System A
  sys items getters putters sent asked received = record {
    queue = record {
      maxsize = m;
      items = items;
      getters = getters;
      putters = putters;
      unfinished_tasks = u;
    };
    sent = sent;
    asked = asked;
    received = received;
  }

  get-Inv :
      (items : List A) (getters : List ℕ) (putters : List (A × ℕ)) (sent : List A) (asked : ℕ)
      (received : List (ℕ × A))
      → Inv (sys items getters putters sent asked received)
      → Inv (step (sys items getters putters sent asked received) get)
  unfolding step get_noblock
  get-Inv [] getters (p ∷ ps) sent asked received v = absurd (grind arith)
  get-Inv [] getters [] sent asked received v = record {
    order = v.order;
    turn = turn_snoc _ getters asked v.turn;
    idle = inr (refl, refl);
    room = v.room;
    full = inl refl;
    positive = v.positive;
  }
  get-Inv (a ∷ rest) (g ∷ gs) putters sent asked received v = absurd (grind arith)
  get-Inv (a ∷ rest) [] [] sent asked received v = record {
    order = map-snoc _ received _ _ ∙ v.order;
    turn = map-snoc _ received _ _ ∙ turn_snoc _ [] asked v.turn;
    idle = inl refl;
    room = omega (arith, v.room);
    full = inl refl;
    positive = v.positive;
  }
  get-Inv (a ∷ rest) [] ((b, f) ∷ ws) sent asked received v = record {
    order =
        map-snoc _ received _ _
        ∙ ap (λ l. map (λ r. r.1) received ++ a ∷ l) (append_assoc rest (b ∷ []) _)
        ∙ v.order;
    turn = map-snoc _ received _ _ ∙ turn_snoc _ [] asked v.turn;
    idle = inl refl;
    room = omega (arith, v.room, length-append rest (b ∷ []));
    full = ground (arith, v.full, length-append rest (b ∷ []));
    positive = v.positive;
  }

  put-Inv :
      (items : List A) (getters : List ℕ) (putters : List (A × ℕ)) (sent : List A) (asked : ℕ)
      (received : List (ℕ × A)) (a : A)
      → Inv (sys items getters putters sent asked received)
      → Inv (step (sys items getters putters sent asked received) (put a))
  unfolding step put_noblock
  put-Inv items [] putters sent asked received a v = elim (Bool-cases (ltb (length items) m)) [
    | inl e ↦
        let none_waits : putters ≡ [] = ground (arith, v.full) in
        rw e (record {
          order = order_free _ items _ a (ap (map (λ p. p.0)) none_waits) v.order;
          turn = v.turn;
          idle = inl refl;
          room = ground (arith, length-append items (a ∷ []));
          full = inl none_waits;
          positive = v.positive;
        })
    | inr e ↦ rw e (record {
      order =
          ap (λ l. map (λ r. r.1) received ++ (items ++ l)) (map-append _ putters _)
          ∙ order_blocked _ items _ a v.order;
      turn = v.turn;
      idle = inl refl;
      room = v.room;
      full = inr (ground (arith, v.room));
      positive = v.positive;
    })
  ]
  put-Inv [] (g ∷ gs) [] sent asked received a v = elim (Bool-cases (ltb 0 m)) [
    | inl e ↦ rw e (record {
      order = map-snoc _ received _ _ ∙ ap (λ l. l ++ a ∷ []) (sym (append-nil _) ∙ v.order);
      turn = map-snoc _ received _ _ ∙ v.turn;
      idle = inr (refl, refl);
      room = omega arith;
      full = inl refl;
      positive = v.positive;
    })
    | inr e ↦ absurd (ground (arith, v.positive))
  ]
  put-Inv [] (g ∷ gs) (p ∷ ps) sent asked received a v = absurd (ground (arith, v.idle))
  put-Inv (i ∷ is) (g ∷ gs) putters sent asked received a v = absurd (ground (arith, v.idle))

  done-Inv :
      (items : List A) (getters : List ℕ) (putters : List (A × ℕ)) (sent : List A) (asked : ℕ)
      (received : List (ℕ × A))
      → Inv (sys items getters putters sent asked received)
      → Inv (step (sys items getters putters sent asked received) done)
  unfolding step task_done
  done-Inv items getters putters sent asked received v = elim (Bool-cases (ltb u 1)) [
    | inl e ↦ rw e v
    | inr e ↦ rw e (record {
      order = v.order;
      turn = v.turn;
      idle = v.idle;
      room = v.room;
      full = v.full;
      positive = v.positive;
    })
  ]

module _ {A : Type 0} where
  pub step-Inv : (s : System A) (c : Call A) → Inv s → Inv (step s c)
  step-Inv s get v =
      get-Inv s.queue.maxsize s.queue.unfinished_tasks s.queue.items s.queue.getters s.queue.putters
        s.sent s.asked s.received v
  step-Inv s (put a) v =
      put-Inv s.queue.maxsize s.queue.unfinished_tasks s.queue.items s.queue.getters s.queue.putters
        s.sent s.asked s.received a v
  step-Inv s done v =
      done-Inv s.queue.maxsize s.queue.unfinished_tasks s.queue.items s.queue.getters
        s.queue.putters s.sent s.asked s.received v

  run-Inv : (s : System A) (cs : List (Call A)) → Inv s → Inv (run s cs)
  unfolding run
  run-Inv s [] v = v
  run-Inv s (c ∷ cs) v = run-Inv (step s c) cs (step-Inv s c v)

  pub run-start-Inv :
      (maxsize : ℕ) (cs : List (Call A)) → 1 ≤ maxsize → Inv (run (start maxsize) cs)
  run-start-Inv maxsize cs h = run-Inv (start maxsize) cs (start-Inv maxsize h)
