-- ===== src/Utils.antt =====
-- spinach/utils.py: the delay before a retry, and the two loops that call a function again when it
-- fails. What the functions called do, the clock and `random.randint` are arguments.
pub mod Backoff
pub mod Retry
use spinach.Prelude.{
  ℕ, zero, suc, ◌+◌, ◌*◌, ◌/◌, ◌^◌, min, Bool, true, false, List, [], ◌∷◌, Option, none, some, ltb,
  leb, if◌then◌else◌,
}

-- The default of the parameter `cap`, in seconds.
abbrev pub default_cap : ℕ
default_cap = 1200

-- Seconds; `randint n` is what `random.randint(0, n)` gives.
unfoldable pub exponential_backoff : (ℕ → ℕ) → ℕ → ℕ → ℕ
exponential_backoff randint attempt cap =
    let temp = min (3 * 2 ^ attempt) cap / 2 in temp + randint temp

-- How one call ends. `listed` is an exception among those that the caller wants retried.
pub data Call {ℓ} (A : Type ℓ) : Type ℓ where
  returns : A → Call A
  listed unlisted : Call A

-- What `call_with_retry` does: how it ends, how often it called, and how long it slept each time.
pub record Retried {ℓ} (A : Type ℓ) : Type ℓ where
  pub outcome : Call A
  pub calls : ℕ
  pub slept : List ℕ

module _ {ℓ} {A : Type ℓ} (randint : ℕ → ℕ) (func : ℕ → Call A) (max_retries : ℕ) where
  abbrev after_sleep : ℕ → Option (Retried A) → Option (Retried A)
  after_sleep delay none = none
  after_sleep delay (some r) = some (record r { slept = delay ∷ r.slept })

  -- `while True`, on fuel; `attempt` calls are made already, and `func n` is how call `n` ends.
  unfoldable pub retry_from : ℕ → ℕ → Option (Retried A)
  unfolding exponential_backoff
  retry_from zero attempt = none
  retry_from (suc fuel) attempt = elim (func attempt) [
    | returns a ↦ some (record { outcome = returns a; calls = attempt + 1; slept = [] })
    | unlisted ↦ some (record { outcome = unlisted; calls = attempt + 1; slept = [] })
    | listed ↦
        let again =
          after_sleep (exponential_backoff randint (attempt + 1) 60)
            (retry_from fuel (attempt + 1)) in
        if leb max_retries (attempt + 1)
        then some (record { outcome = listed; calls = attempt + 1; slept = [] })
        else again
  ]

  -- Enough fuel: one round for each retry, and the first call.
  unfoldable pub call_with_retry : Option (Retried A)
  unfolding retry_from
  call_with_retry = retry_from (max_retries + 1) 0

-- One round of `run_forever`: the stop event is set, or the function runs for some seconds and
-- returns or raises.
pub data Round : Type 0 where
  stops : Round
  returned : Round
  raised : ℕ → Round

-- The counter after a failure: it starts again if the function ran for ten minutes.
unfoldable pub next_attempt : ℕ → ℕ → ℕ
next_attempt elapsed attempt = if ltb 600 elapsed then 1 else attempt + 1

-- The delays that `run_forever` waits for, over a sequence of rounds.
unfoldable pub run_forever : (ℕ → ℕ) → ℕ → List Round → List ℕ
unfolding next_attempt exponential_backoff
run_forever randint attempt [] = []
run_forever randint attempt (stops ∷ rounds) = []
run_forever randint attempt (returned ∷ rounds) = run_forever randint attempt rounds
run_forever randint attempt (raised elapsed ∷ rounds) =
    exponential_backoff randint (next_attempt elapsed attempt) 120
    ∷ run_forever randint (next_attempt elapsed attempt) rounds
