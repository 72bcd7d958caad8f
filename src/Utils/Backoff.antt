-- ===== src/Utils/Backoff.antt =====
-- The delays of `exponential_backoff`.
use native.Mathlib.Nat.{pow-suc}
use spinach.Prelude.{ℕ, zero, suc, ◌*◌, ◌/◌, ◌^◌, ◌≤◌, min, List, [], ◌∷◌, All, arith}
use spinach.Utils.{exponential_backoff, Round, stops, returned, raised, next_attempt, run_forever}

pow-pos : (a : ℕ) → 1 ≤ 2 ^ a
pow-pos zero = omega arith
pow-pos (suc a) = omega (arith, pow-suc 2 a, pow-pos a)

-- The delay lies between half of the exponential bound and the bound itself.
pub exponential_backoff_bounds :
    (randint : ℕ → ℕ)
    → ((n : ℕ) → randint n ≤ n)
    → (attempt cap : ℕ)
    → (min (3 * 2 ^ attempt) cap / 2 ≤ exponential_backoff randint attempt cap)
      × (exponential_backoff randint attempt cap ≤ min (3 * 2 ^ attempt) cap)
unfolding exponential_backoff
exponential_backoff_bounds randint small attempt cap =
    (omega arith, omega (arith, small (min (3 * 2 ^ attempt) cap / 2)))

pub exponential_backoff-le_cap :
    (randint : ℕ → ℕ)
    → ((n : ℕ) → randint n ≤ n)
    → (attempt cap : ℕ) → exponential_backoff randint attempt cap ≤ cap
exponential_backoff-le_cap randint small attempt cap =
    omega (arith, exponential_backoff_bounds randint small attempt cap)

-- From the first retry on there are at least three seconds of delay, if the cap allows them.
pub three-le-exponential_backoff :
    (randint : ℕ → ℕ) (attempt cap : ℕ)
    → 1 ≤ attempt
    → 6 ≤ cap
    → 3 ≤ exponential_backoff randint attempt cap
unfolding exponential_backoff
three-le-exponential_backoff randint zero cap one h = absurd (omega arith)
three-le-exponential_backoff randint (suc attempt) cap one h =
    omega (arith, pow-suc 2 attempt, pow-pos attempt)

one-le-next_attempt : (elapsed attempt : ℕ) → 1 ≤ next_attempt elapsed attempt
unfolding next_attempt
one-le-next_attempt elapsed attempt = ground arith

-- If `randint n` never gives more than `n`, every delay of `run_forever` lies between three seconds
-- and two minutes, whatever the rounds bring.
pub run_forever_delays :
    (randint : ℕ → ℕ)
    → ((n : ℕ) → randint n ≤ n)
    → (attempt : ℕ) (rounds : List Round)
    → All (λ delay. (3 ≤ delay) × (delay ≤ 120)) (run_forever randint attempt rounds)
unfolding run_forever
run_forever_delays randint small attempt [] = tt
run_forever_delays randint small attempt (stops ∷ rounds) = tt
run_forever_delays randint small attempt (returned ∷ rounds) =
    run_forever_delays randint small attempt rounds
run_forever_delays randint small attempt (raised elapsed ∷ rounds) =
    let next = next_attempt elapsed attempt in
    (
      (
        three-le-exponential_backoff randint next 120 (one-le-next_attempt elapsed attempt)
            (omega arith),
        exponential_backoff-le_cap randint small next 120,
      ),
      run_forever_delays randint small next rounds,
    )
