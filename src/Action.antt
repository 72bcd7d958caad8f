-- ===== src/Action.antt =====
-- A method of an object: it returns or raises, and the object's state outlives an exception.
use spinach.Prelude.{◌≡◌, refl, ap, arith}
use spinach.Outcome.{Exception, Result, ok}
use spinach.Outcome

abbrev pub Action : Type 0 → Type 0 → Type 0
Action S A = S → Result A × S

module _ {S : Type 0} where
  abbrev pub modify : (S → S) → Action S (Unit {0})
  modify f s = (ok tt, f s)

module _ {S A : Type 0} where
  abbrev pub pure : A → Action S A
  pure a s = (ok a, s)

  -- A computation that leaves the state alone.
  abbrev pub lift : Result A → Action S A
  lift r s = (r, s)

  -- What the current state says.
  abbrev pub asks : (S → Result A) → Action S A
  asks f s = (f s, s)

module _ {S A B : Type 0} where
  abbrev pub and_then : Result A → (A → Action S B) → Action S B
  and_then (ok a) f = f a
  and_then (Outcome.raise e) f = lift (Outcome.raise e)

  infixl 5 ◌>>=◌ ◌>>◌
  abbrev pub ◌>>=◌ : Action S A → (A → Action S B) → Action S B
  m >>= f = λ s. let (result, after) = m s in and_then result f after

  abbrev pub ◌>>◌ : Action S A → Action S B → Action S B
  m >> n = m >>= λ _. n

-- What returned after another step came from a value of that step.
pub and_then-eq-ok :
    {S A B : Type 0} (r : Result A) (f : A → Action S B) (s t : S) (b : B)
    → and_then r f s ≡ (ok b, t)
    → (a : A) × (r ≡ ok a) × (f a s ≡ (ok b, t))
and_then-eq-ok (ok a) f s t b h = (a, refl, h)
and_then-eq-ok (Outcome.raise e) f s t b h = let no = ap (λ p. p.0) h in absurd (grind (arith, no))

-- However a method ends, the state after it is related to the state before it.
abbrev pub Always {κ} : {S A : Type 0} → (S → S → Type κ) → Action S A → Type κ
Always {S} R m = (s : S) → R s (m s).1

module _ {κ} {S A B : Type 0} (R : S → S → Type κ)
    (trans : (s t u : S) → R s t → R t u → R s u) where
  and_then-Always :
      (f : A → Action S B) (r : Result A) (s t : S)
      → ((a : A) → Always R (f a))
      → R s t
      → R s (and_then r f t).1
  and_then-Always f (ok a) s t hf h = trans s t _ h (hf a t)
  and_then-Always f (Outcome.raise e) s t hf h = h

  pub >>=-Always :
      (m : Action S A) (f : A → Action S B)
      → Always R m
      → ((a : A) → Always R (f a))
      → Always R (m >>= f)
  >>=-Always m f hm hf s = let (r, t) = m s in and_then-Always f r s t hf (hm s)
