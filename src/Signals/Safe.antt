-- ===== src/Signals/Safe.antt =====
-- Receivers of a signal of spinach/signals.py cannot make `send` fail, nor hide it from one another.
use spinach.Prelude.{◌≡◌, refl, ap, List, [], ◌∷◌, map, Option, some}
use spinach.Outcome.{Result, ok, raise}
use spinach.Signals.{Receiver, call_each, send, keep}

module _ {Sender V S : Type 0} where
  -- The state after all receivers were called, one after the other, whatever they gave.
  unfoldable pub after_all : List (Receiver Sender V S) → Option Sender → S → S
  after_all [] sender s = s
  after_all (r ∷ rs) sender s = after_all rs sender (r sender s).1

  -- The values of those that did not raise, in their order.
  unfoldable pub values_of : List (Receiver Sender V S) → Option Sender → S → List V
  values_of [] sender s = []
  values_of (r ∷ rs) sender s =
      let rest = values_of rs sender (r sender s).1 in
      elim (r sender s).0 [ ok v ↦ v ∷ rest | raise e ↦ rest ]

  call_each-after_all :
      (rs : List (Receiver Sender V S)) (sender : Option Sender) (s : S)
      → (call_each rs sender s).1 ≡ after_all rs sender s
  unfolding call_each after_all
  call_each-after_all [] sender s = refl
  call_each-after_all (r ∷ rs) sender s = call_each-after_all rs sender (r sender s).1

  kept-values :
      (r : Receiver Sender V S) (result : Result V) (rest : List (Receiver Sender V S × V))
      (values : List V)
      → map (λ p. p.1) rest ≡ values
      → map (λ p. p.1) (keep r result rest) ≡ elim result [ ok v ↦ v ∷ values | raise e ↦ values ]
  kept-values r (ok v) rest values h = ap (◌∷◌ v) h
  kept-values r (raise e) rest values h = h

  call_each-values_of :
      (rs : List (Receiver Sender V S)) (sender : Option Sender) (s : S)
      → map (λ p. p.1) (call_each rs sender s).0 ≡ values_of rs sender s
  unfolding call_each values_of
  call_each-values_of [] sender s = refl
  call_each-values_of (r ∷ rs) sender s =
      kept-values r (r sender s).0 _ _ (call_each-values_of rs sender (r sender s).1)

-- If no receiver is registered, none listens to the sender; then a `send` on behalf of one sender
-- raises nothing whatever the receivers do: every receiver that listens is called, in order, on
-- what the one before left, and the values of those that did not raise are returned.
pub send_safe :
    {Sender V S : Type 0} (receivers : List (Receiver Sender V S))
    (receivers_for : Option Sender → List (Receiver Sender V S)) (sender : Sender) (s : S)
    → (receivers ≡ [] → receivers_for (some sender) ≡ [])
    → (rv : List (Receiver Sender V S × V)) × (send receivers receivers_for (sender ∷ []) s
        ≡ (ok rv, after_all (receivers_for (some sender)) (some sender) s))
      × (map (λ p. p.1) rv ≡ values_of (receivers_for (some sender)) (some sender) s)
unfolding send after_all values_of
send_safe [] receivers_for sender s none_for =
    ([], rw (none_for refl, after_all) refl, rw (none_for refl, values_of) refl)
send_safe (r ∷ rs) receivers_for sender s none_for =
    let listening = receivers_for (some sender) in
    (
      (call_each listening (some sender) s).0,
      rw (← call_each-after_all listening (some sender) s) refl,
      call_each-values_of listening (some sender) s,
    )
