-- ===== src/Utils/Retry.antt =====
-- `call_with_retry` ends, and how.
use spinach.Prelude.{
  ℕ, zero, suc, ◌+◌, ◌≤◌, ◌<◌, ◌≡◌, refl, ap, ◌∙◌, ◌⊎◌, inl, inr, [], ◌∷◌, some, All, length, arith,
  Bool-cases, leb,
}
use spinach.Utils.{Call, returns, listed, unlisted, Retried, retry_from, call_with_retry}
use spinach.Utils.Backoff.{exponential_backoff-le_cap}

module _ {ℓ} {A : Type ℓ} (func : ℕ → Call A) (max_retries : ℕ) where
  -- How the loop ends when `attempt` calls were made before: each call but the last raised a listed
  -- exception and was slept after, for a minute at most; the last gives the outcome; a listed
  -- exception gets out only when the calls are used up.
  pub record Ends (attempt : ℕ) (r : Retried A) : Type ℓ where
    pub counted : r.calls ≡ attempt + length r.slept + 1
    pub last : func (attempt + length r.slept) ≡ r.outcome
    pub earlier : (i : ℕ) → i < length r.slept → func (attempt + i) ≡ listed
    pub bounded : (length r.slept ≡ 0) ⊎ (r.calls ≤ max_retries)
    pub gave_up : r.outcome ≡ listed → max_retries ≤ r.calls
    pub naps : All (λ delay. delay ≤ 60) r.slept

  Ends-now :
      (attempt : ℕ) (c : Call A)
      → func attempt ≡ c
      → (c ≡ listed → max_retries ≤ attempt + 1)
      → Ends attempt (record { outcome = c; calls = attempt + 1; slept = [] })
  Ends-now attempt c e g = record {
    counted = omega arith;
    last = rw (← e) (ap func (omega arith));
    earlier = λ i h. absurd (omega arith);
    bounded = inl refl;
    gave_up = g;
    naps = tt;
  }

  earlier_later :
      (attempt n i : ℕ)
      → func attempt ≡ listed
      → ((k : ℕ) → k < n → func (attempt + 1 + k) ≡ listed)
      → i < suc n
      → func (attempt + i) ≡ listed
  earlier_later attempt n zero e h lt = ap func (omega arith) ∙ e
  earlier_later attempt n (suc i) e h lt = ap func (omega arith) ∙ h i (omega arith)

  Ends-later :
      (attempt delay : ℕ) (r : Retried A)
      → func attempt ≡ listed
      → attempt + 1 < max_retries
      → delay ≤ 60
      → Ends (attempt + 1) r
      → Ends attempt (record r { slept = delay ∷ r.slept })
  Ends-later attempt delay r e more nap h = record {
    counted = omega (arith, h.counted);
    last = ap func (omega arith) ∙ h.last;
    earlier = λ i lt. earlier_later attempt (length r.slept) i e h.earlier lt;
    bounded = inr (omega (arith, h.bounded, h.counted));
    gave_up = h.gave_up;
    naps = (nap, h.naps);
  }

  module _ (randint : ℕ → ℕ) (small : (n : ℕ) → randint n ≤ n) where
    abbrev Returns : ℕ → ℕ → Type ℓ
    Returns fuel attempt =
        (r : Retried A) × (retry_from randint func max_retries fuel attempt ≡ some r)
        × Ends attempt r

    retry_from-Returns_call :
        (fuel attempt : ℕ) (c : Call A)
        → func attempt ≡ c
        → max_retries ≤ suc fuel + attempt
        → (attempt + 1 < max_retries → Returns fuel (attempt + 1))
        → Returns (suc fuel) attempt
    unfolding retry_from
    retry_from-Returns_call fuel attempt (returns a) e h rec =
        (_, rw (e, retry_from), Ends-now attempt (returns a) e (λ q. cc))
    retry_from-Returns_call fuel attempt unlisted e h rec =
        (_, rw (e, retry_from), Ends-now attempt unlisted e (λ q. cc))
    retry_from-Returns_call fuel attempt listed e h rec =
        elim (Bool-cases (leb max_retries (attempt + 1))) [
          | inl t ↦ (_, rw (e, t, retry_from), Ends-now attempt listed e (λ q. ground arith))
          | inr t ↦
              let more : attempt + 1 < max_retries = ground arith in
              let (r, same, ends) = rec more in
              (
                _,
                rw (e, t, same, retry_from),
                Ends-later attempt _ r e more
                    (exponential_backoff-le_cap randint small (attempt + 1) 60) ends,
              )
        ]

    retry_from-Returns :
        (fuel attempt : ℕ) → 1 ≤ fuel → max_retries ≤ fuel + attempt → Returns fuel attempt
    retry_from-Returns zero attempt f h = absurd (omega arith)
    retry_from-Returns (suc fuel) attempt f h =
        retry_from-Returns_call fuel attempt (func attempt) refl h
          (λ more. retry_from-Returns fuel (attempt + 1) (omega arith) (omega arith))

-- If `randint n` never gives more than `n`, `call_with_retry` returns or raises within its fuel,
-- as `Ends` says for a loop that starts with no call made.
pub call_with_retry-Ends {ℓ} :
    {A : Type ℓ} (randint : ℕ → ℕ) (func : ℕ → Call A) (max_retries : ℕ)
    → ((n : ℕ) → randint n ≤ n)
    → (r : Retried A) × (call_with_retry randint func max_retries ≡ some r)
      × Ends func max_retries 0 r
unfolding call_with_retry
call_with_retry-Ends randint func max_retries small =
    retry_from-Returns func max_retries randint small (max_retries + 1) 0 (omega arith)
      (omega arith)
