-- ===== src/Samples/Signals.antt =====
-- Receivers of a signal of spinach/signals.py, one of which raises.
use spinach.Prelude.{ℕ, ◌+◌, ◌≡◌, refl, List, [], ◌∷◌, map, Option, some}
use spinach.Outcome.{ok, raise, runtime_error}
use spinach.Signals.{Receiver, send}
use spinach.Signals.Safe.{after_all, values_of, send_safe}

abbrev counts : Receiver ℕ ℕ ℕ
counts sender s = (ok s, s + 1)

abbrev fails : Receiver ℕ ℕ ℕ
fails sender s = (raise runtime_error, s + 10)

abbrev receivers : List (Receiver ℕ ℕ ℕ)
receivers = counts ∷ fails ∷ counts ∷ []

abbrev everyone : Option ℕ → List (Receiver ℕ ℕ ℕ)
everyone sender = receivers

sent : send receivers everyone (7 ∷ []) 0 ≡ (ok ((counts, 0) ∷ (counts, 11) ∷ []), 12)
unfolding send
sent = refl

send_safe_example :
    (rv : List (Receiver ℕ ℕ ℕ × ℕ)) × (send receivers everyone (7 ∷ []) 0
      ≡ (ok rv, after_all receivers (some 7) 0))
    × (map (λ p. p.1) rv ≡ values_of receivers (some 7) 0)
send_safe_example = send_safe receivers everyone 7 0 (λ e. absurd (cc))
