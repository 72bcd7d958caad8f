-- ===== src/Signals.antt =====
-- spinach/signals.py: `SafeNamedSignal.send`. The registry of receivers is the library blinker's:
-- which receivers there are, and which of them listen to a sender, are arguments, and so is what a
-- receiver does to the state that receivers share.
pub mod Safe
use spinach.Prelude.{Bool, true, false, List, [], ◌∷◌, Option, none, some, if◌then◌else◌}
use spinach.Outcome.{Exception, Result, ok, raise, type_error}

-- The call of a receiver, which returns or raises, and its effect either way.
abbrev pub Receiver : Type 0 → Type 0 → Type 0 → Type 0
Receiver Sender V S = Option Sender → S → Result V × S

-- The positional arguments of `send`: none, one, or too many.
unfoldable pub sender_of : {Sender : Type 0} → List Sender → Result (Option Sender)
sender_of [] = ok none
sender_of (s ∷ []) = ok (some s)
sender_of (s ∷ t ∷ rest) = raise type_error

module _ {Sender V S : Type 0} where
  -- `except Exception` logs and goes on.
  abbrev keep :
      Receiver Sender V S
      → Result V
      → List (Receiver Sender V S × V)
      → List (Receiver Sender V S × V)
  keep receiver (ok v) rv = (receiver, v) ∷ rv
  keep receiver (raise e) rv = rv

  -- The loop of `send`.
  unfoldable pub call_each :
      List (Receiver Sender V S) → Option Sender → S → List (Receiver Sender V S × V) × S
  call_each [] sender s = ([], s)
  call_each (receiver ∷ receivers) sender s =
      let (result, after) = receiver sender s in
      let (rv, last) = call_each receivers sender after in (keep receiver result rv, last)

  abbrev is_empty : List (Receiver Sender V S) → Bool
  is_empty [] = true
  is_empty (r ∷ rs) = false

  unfoldable pub send :
      List (Receiver Sender V S)
      → (Option Sender → List (Receiver Sender V S))
      → List Sender
      → S
      → Result (List (Receiver Sender V S × V)) × S
  unfolding call_each sender_of
  send receivers receivers_for senders s = elim (sender_of senders) [
    | raise e ↦ (raise e, s)
    | ok sender ↦
        if is_empty receivers
        then (ok [], s)
        else let (rv, after) = call_each (receivers_for sender) sender s in (ok rv, after)
  ]
