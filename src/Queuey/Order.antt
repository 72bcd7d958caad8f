-- ===== src/Queuey/Order.antt =====
-- First come, first served: which get of spinach/queuey.py received which item.
use spinach.Prelude.{
  ℕ, zero, suc, ◌+◌, ◌≤◌, ◌≡◌, refl, ap, inl, inr, List, [], ◌∷◌, ◌++◌, map, length, length-append,
  length-map, arith, min,
}
use spinach.Queuey.System.{Call, System, run, start}
use spinach.Queuey.Invariant.{range_from, Inv, run-start-Inv}

length-range_from : (i n : ℕ) → length (range_from i n) ≡ n
length-range_from i zero = refl
length-range_from i (suc n) = ap suc (length-range_from (suc i) n)

module _ {A : Type 0} where
  -- The items with their numbers, from `i` on.
  abbrev pub numbered : ℕ → List A → List (ℕ × A)
  numbered i [] = []
  numbered i (a ∷ xs) = (i, a) ∷ numbered (suc i) xs

  abbrev pub take : ℕ → List A → List A
  take zero xs = []
  take (suc n) [] = []
  take (suc n) (a ∷ xs) = a ∷ take n xs

  received_numbered :
      (i n : ℕ) (rs : List (ℕ × A)) (gs : List ℕ) (rest sent : List A)
      → map (λ r. r.0) rs ++ gs ≡ range_from i n
      → map (λ r. r.1) rs ++ rest ≡ sent
      → rs ≡ numbered i (take (length rs) sent)
  received_numbered i n [] gs rest sent t o = refl
  received_numbered i zero ((k, a) ∷ rs) gs rest sent t o = cc
  received_numbered i (suc n) ((k, a) ∷ rs) gs rest [] t o = cc
  received_numbered i (suc n) ((k, a) ∷ rs) gs rest (b ∷ sent) t o =
      cc (received_numbered (suc i) n rs gs rest sent (cc) (cc))

  length-received : (s : System A) → Inv s → length s.received ≡ min s.asked (length s.sent)
  length-received s v =
      let asked : length s.received + length s.queue.getters ≡ s.asked = omega (
        arith,
        ap length v.turn,
        length-append (map (λ r. r.0) s.received) s.queue.getters,
        length-map (λ r. r.0) s.received,
        length-range_from 0 s.asked,
      ) in
      let sent : length s.received + (length s.queue.items + length s.queue.putters)
          ≡ length s.sent =
        omega (
          arith,
          ap length v.order,
          length-append (map (λ r. r.1) s.received)
              (s.queue.items ++ map (λ p. p.0) s.queue.putters),
          length-append s.queue.items (map (λ p. p.0) s.queue.putters),
          length-map (λ r. r.1) s.received,
          length-map (λ p. p.0) s.queue.putters,
        ) in
      elim v.idle [
        | inl none_asks ↦ omega (arith, ap length none_asks)
        | inr (no_items, no_putters) ↦ omega (arith, ap length no_items, ap length no_putters)
      ]

-- From an empty queue with room for one item or more, and whatever is called in which order: the
-- n-th get receives the n-th item that was put, exactly the first `min asked (length sent)` gets
-- have received theirs, and no more items are waiting in the queue than fit.
pub received_in_order :
    {A : Type 0} (maxsize : ℕ) (cs : List (Call A))
    → 1 ≤ maxsize
    → let s = run (start maxsize) cs in
      (s.received ≡ numbered 0 (take (min s.asked (length s.sent)) s.sent))
      × (length s.queue.items ≤ s.queue.maxsize)
received_in_order maxsize cs h =
    let s = run (start maxsize) cs in
    let v = run-start-Inv maxsize cs h in
    (
      rw (← length-received s v)
          (received_numbered 0 s.asked s.received s.queue.getters _ s.sent v.turn v.order),
      v.room,
    )
