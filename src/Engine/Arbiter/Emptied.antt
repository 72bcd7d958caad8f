-- ===== src/Engine/Arbiter/Emptied.antt =====
-- When the arbiter of spinach/engine.py stops the engine by itself, `stop_when_queue_empty`.
use spinach.Prelude.{
  ℕ, zero, suc, ◌≡◌, refl, ap, ap₂, sym, ℤ, pos, negsuc, ◌∙◌, inl, inr, Bool, true, false, ◌&&◌,
  String, List, [], ◌∷◌, Option, none, some, length, ltb, ◌==◌, arith, Option-cases, if◌then◌else◌,
}
use spinach.Outcome.{Result, ok, raise, attribute_error}
use spinach.Worker.{Workers}
use spinach.Action.{Action, asks}
use spinach.Queuey.{available_slots}
use spinach.Job.{Job}
use spinach.Task.{Tasks}
use spinach.Broker.{Broker, Moment, then_call-eq-ok, ends-injective}
use spinach.Engine.Lifecycle.{reset, stop_workers}
use spinach.Engine.Arbiter.{
  State, returns, goes_on, on_broker, with_store, stop_all, receive_all, on_workers, at_least_zero,
  fetch_jobs, is_finished, finish_round, arbiter_round, return,
}

module _ (broker : Broker) where
  with_store-eq :
      {A : Type 0} (s : State broker) (o : Option (Result A × broker.State)) (r : Result A)
      (t : State broker)
      → with_store broker s o ≡ some (r, t)
      → (b : broker.State) × (o ≡ some (r, b)) × (t ≡ record s { store = b })
  with_store-eq s none r t h = absurd (grind (arith, h))
  with_store-eq s (some (q, b)) r t h =
      let same = ends-injective h in
      (b, ap (λ x. some (x, b)) (ap (λ p. p.0) same), sym (ap (λ p. p.1) same))

  return-eq :
      {A : Type 0} (a b : A) (s t : State broker)
      → return broker a s ≡ some (ok b, t)
      → (a ≡ b) × (s ≡ t)
  return-eq a b s t h = let same = ends-injective h in (cc, cc)

  stop_all-some :
      (fut : ℕ) (s : State broker) (w : Workers)
      → s.lifecycle.workers ≡ some w
      → stop_all broker fut s
        ≡ some (ok tt, record { store = broker.stop s.store; lifecycle = reset })
  unfolding stop_all stop_workers
  stop_all-some fut s w e = rw (e) refl

  stop_all-none :
      (fut : ℕ) (s : State broker)
      → s.lifecycle.workers ≡ none
      → (u : State broker) × (stop_all broker fut s ≡ some (raise attribute_error, u))
  unfolding stop_all stop_workers
  stop_all-none fut s e =
      (record s { lifecycle = record s.lifecycle { must_stop = true } }, rw (e) refl)

  stop_all-ok :
      (fut : ℕ) (s t : State broker)
      → stop_all broker fut s ≡ some (ok tt, t)
      → t ≡ record { store = broker.stop s.store; lifecycle = reset }
  stop_all-ok fut s t h = elim (Option-cases s.lifecycle.workers) [
    | inl e ↦
        let (u, raised) = stop_all-none fut s e in
        let no = ap (λ p. p.0) (ends-injective (sym raised ∙ h)) in absurd (grind (arith, no))
    | inr (w, e) ↦ ap (λ p. p.1) (ends-injective (sym h ∙ stop_all-some fut s w e))
  ]

  no_workers :
      {A : Type 0} (action : Action Workers A) (s : State broker)
      → s.lifecycle.workers ≡ none
      → on_workers broker action s ≡ some (raise attribute_error, s)
  no_workers action s e = rw (e) refl

  some_workers :
      {A : Type 0} (action : Action Workers A) (s : State broker) (w : Workers)
      → s.lifecycle.workers ≡ some w
      → on_workers broker action s
        ≡ some (
          (action w).0,
          record s { lifecycle = record s.lifecycle { workers = some (action w).1 } },
        )
  some_workers action s w e = rw (e) refl

  -- The broker is left alone by a call of the workers'.
  on_workers-store :
      {A : Type 0} (action : Action Workers A) (s t : State broker) (r : Result A)
      → on_workers broker action s ≡ some (r, t)
      → t.store ≡ s.store
  on_workers-store action s t r h = elim (Option-cases s.lifecycle.workers) [
    | inl e ↦ ap (λ p. p.1.store) (ends-injective (sym h ∙ no_workers action s e))
    | inr (w, e) ↦ ap (λ p. p.1.store) (ends-injective (sym h ∙ some_workers action s w e))
  ]

  -- The workers whose slots a round saw.
  slots_seen :
      (s t : State broker) (slots : ℕ)
      → on_workers broker (asks (λ w. ok (at_least_zero (available_slots w.in_queue)))) s
        ≡ some (ok slots, t)
      → (w : Workers) × (s.lifecycle.workers ≡ some w)
        × (at_least_zero (available_slots w.in_queue) ≡ slots)
  slots_seen s t slots h =
      let seen : Action Workers ℕ = asks (λ w. ok (at_least_zero (available_slots w.in_queue))) in
      elim (Option-cases s.lifecycle.workers) [
        | inl e ↦
            let no = ap (λ p. p.0) (ends-injective (sym h ∙ no_workers seen s e)) in
            absurd (grind (arith, no))
        | inr (w, e) ↦
            let same = ap (λ p. p.0) (ends-injective (sym h ∙ some_workers seen s w e)) in
            (w, e, cc)
      ]

  positive : (z : ℤ) (n : ℕ) → at_least_zero z ≡ suc n → z ≡ pos (suc n)
  positive (pos m) n e = ap pos e
  positive (negsuc m) n e = absurd (grind (arith, e))

  no_jobs : (js : List Job) → length js ≡ 0 → js ≡ []
  no_jobs [] e = refl
  no_jobs (j ∷ js) e = absurd (omega (arith, e))

  asked_if :
      (queue : String) (condition : Bool) (s t : State broker)
      → (if condition then on_broker broker (broker.is_queue_empty queue) else return broker false)
          s
        ≡ some (ok true, t)
      → (condition ≡ true)
        × (b : broker.State) × (broker.is_queue_empty queue s.store ≡ some (ok true, b))
        × (t ≡ record s { store = b })
  asked_if queue true s t h =
      let (b, empty, same) = with_store-eq s (broker.is_queue_empty queue s.store) (ok true) t h in
      (refl, b, empty, same)
  asked_if queue false s t h = let no = (return-eq false true s t h).0 in absurd (grind (arith, no))

  module _ (ts : Tasks) (queue : String) (stop_when_queue_empty : Bool) (fut : ℕ) where
    -- A fetch that was tried and gave nothing.
    fetched_none :
        (m : Moment) (slots : ℕ) (s t : State broker)
        → ltb 0 slots ≡ true
        → fetch_jobs broker ts queue stop_when_queue_empty fut m slots s ≡ some (ok 0, t)
        → (room : ℕ) × (slots ≡ suc room)
          × (broker.get_jobs_from_queue queue (suc room) s.store ≡ some (ok [], t.store))
    unfolding fetch_jobs
    fetched_none m zero s t some_room h = absurd (grind (arith, some_room))
    fetched_none m (suc room) s t some_room h =
        let call = on_broker broker (broker.get_jobs_from_queue queue (suc room)) in
        let (jobs, s1, fetched, later) = then_call-eq-ok (call s) _ 0 t h in
        let receives = receive_all ts m.now m.randint fut jobs in
        let (u, s2, done, counted) = then_call-eq-ok (on_workers broker receives s1) _ 0 t later in
        let (c, asked, after) =
          with_store-eq s (broker.get_jobs_from_queue queue (suc room) s.store) (ok jobs) s1
            fetched in
        let (count, last) = return-eq (length jobs) 0 s2 t counted in
        let left : c ≡ t.store =
          sym (ap (λ u. u.store) after)
          ∙ sym (on_workers-store receives s1 s2 (ok u) done)
          ∙ ap (λ u. u.store) last in
        (room, refl, asked ∙ ap₂ (λ js d. some (ok js, d)) (no_jobs jobs count) left)

    -- What the arbiter saw before it stopped.
    is_finished-true :
        (slots received_jobs : ℕ) (s t : State broker)
        → is_finished broker ts queue stop_when_queue_empty fut slots received_jobs s
          ≡ some (ok true, t)
        → (stop_when_queue_empty ≡ true)
          × (ltb 0 slots ≡ true)
          × (received_jobs ≡ 0)
          × (b : broker.State) × (broker.is_queue_empty queue s.store ≡ some (ok true, b))
          × (t ≡ record s { store = b })
    is_finished-true slots received_jobs s t h =
        let condition = stop_when_queue_empty && ltb 0 slots && (received_jobs == 0) in
        let (met, b, empty, same) = asked_if queue condition s t h in
        (ground arith, ground arith, ground arith, b, empty, same)

    finish_round-returns :
        (m : Moment) (finished : Bool) (s t : State broker)
        → finish_round broker ts queue stop_when_queue_empty fut m finished s ≡ some (ok returns, t)
        → (finished ≡ true) × (t ≡ record { store = broker.stop s.store; lifecycle = reset })
    finish_round-returns m true s t h =
        let (u, s1, stopped, ended) = then_call-eq-ok (stop_all broker fut s) _ returns t h in
        (refl, sym (return-eq returns returns s1 t ended).1 ∙ stop_all-ok fut s s1 stopped)
    finish_round-returns m false s t h =
        let (u, s1, waited, ended) =
          then_call-eq-ok (on_broker broker (broker.wait_for_event m) s) _ returns t h in
        let no = (return-eq goes_on returns s1 t ended).0 in absurd (grind (arith, no))

    -- A round's calls of the broker, one after the other, from the state `s` to the end in `t`.
    abbrev Emptied : Moment → State broker → State broker → Type 0
    Emptied m s t =
        (stop_when_queue_empty ≡ true)
        × (moved : ℕ) × (room : ℕ) × (w : Workers) × (b1 b2 b3 : broker.State)
        × (s.lifecycle.workers ≡ some w)
        × (available_slots w.in_queue ≡ pos (suc room))
        × (broker.move_future_jobs m s.store ≡ some (ok moved, b1))
        × (broker.get_jobs_from_queue queue (suc room) b1 ≡ some (ok [], b2))
        × (broker.is_queue_empty queue b2 ≡ some (ok true, b3))
        × (t ≡ record { store = broker.stop b3; lifecycle = reset })

    abbrev seen : Action Workers ℕ
    seen = asks (λ w. ok (at_least_zero (available_slots w.in_queue)))

    -- The calls of such a round, from the states between them.
    round-Emptied :
        (m : Moment) (moved slots received_jobs : ℕ) (finished : Bool)
        (s s1 s2 s3 s4 t : State broker)
        → on_broker broker (broker.move_future_jobs m) s ≡ some (ok moved, s1)
        → on_workers broker seen s1 ≡ some (ok slots, s2)
        → fetch_jobs broker ts queue stop_when_queue_empty fut m slots s2
          ≡ some (ok received_jobs, s3)
        → is_finished broker ts queue stop_when_queue_empty fut slots received_jobs s3
          ≡ some (ok finished, s4)
        → finish_round broker ts queue stop_when_queue_empty fut m finished s4
          ≡ some (ok returns, t)
        → Emptied m s t
    round-Emptied m moved slots received_jobs finished s s1 s2 s3 s4 t e1 e2 e3 e4 h4 =
        let (is_true, stopped) = finish_round-returns m finished s4 t h4 in
        let (asked, some_room, none_received, b3, empty, same) =
          is_finished-true slots received_jobs s3 s4 (e4 ∙ ap (λ f. some (ok f, s4)) is_true) in
        let (room, is_room, fetched) =
          fetched_none m slots s2 s3 some_room (e3 ∙ ap (λ n. some (ok n, s3)) none_received) in
        let (b1, moves, after) =
          with_store-eq s (broker.move_future_jobs m s.store) (ok moved) s1 e1 in
        let (w, workers, free) = slots_seen s1 s2 slots e2 in
        let left : s2.store ≡ b1 =
          on_workers-store seen s1 s2 (ok slots) e2 ∙ ap (λ u. u.store) after in
        (
          asked,
          moved,
          room,
          w,
          b1,
          s3.store,
          b3,
          ap (λ u. u.lifecycle.workers) (sym after) ∙ workers,
          positive (available_slots w.in_queue) room (free ∙ is_room),
          moves,
          ap (λ b. broker.get_jobs_from_queue queue (suc room) b) (sym left) ∙ fetched,
          empty,
          stopped ∙ ap (λ u. record { store = broker.stop u.store; lifecycle = reset }) same,
        )

    -- If a round stops the arbiter, it was started with `stop_when_queue_empty`; the workers had room for a
    -- job; and after the broker moved its future jobs, the fetch with that room gave none, and the
    -- queue was then empty. With that the broker is stopped and the engine reset.
    pub arbiter_emptied :
        (m : Moment) (s t : State broker)
        → arbiter_round broker ts queue stop_when_queue_empty fut m s ≡ some (ok returns, t)
        → (stop_when_queue_empty ≡ true)
          × (moved : ℕ) × (room : ℕ) × (w : Workers) × (b1 b2 b3 : broker.State)
          × (s.lifecycle.workers ≡ some w)
          × (available_slots w.in_queue ≡ pos (suc room))
          × (broker.move_future_jobs m s.store ≡ some (ok moved, b1))
          × (broker.get_jobs_from_queue queue (suc room) b1 ≡ some (ok [], b2))
          × (broker.is_queue_empty queue b2 ≡ some (ok true, b3))
          × (t ≡ record { store = broker.stop b3; lifecycle = reset })
    unfolding arbiter_round
    arbiter_emptied m s t h =
        let (moved, s1, e1, h1) =
          then_call-eq-ok (on_broker broker (broker.move_future_jobs m) s) _ returns t h in
        let (slots, s2, e2, h2) = then_call-eq-ok (on_workers broker seen s1) _ returns t h1 in
        let (received_jobs, s3, e3, h3) =
          then_call-eq-ok (fetch_jobs broker ts queue stop_when_queue_empty fut m slots s2) _
            returns t h2 in
        let (finished, s4, e4, h4) =
          then_call-eq-ok
            (is_finished broker ts queue stop_when_queue_empty fut slots received_jobs s3) _ returns
            t h3 in
        round-Emptied m moved slots received_jobs finished s s1 s2 s3 s4 t e1 e2 e3 e4 h4
