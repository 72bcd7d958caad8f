-- ===== src/Outcome.antt =====
-- What a statement of the program gives: a value or a raised exception. An `Action` also has the
-- state that outlives an exception. The exceptions are those of spinach/exc.py and the built-in
-- ones that the modelled code raises.
use spinach.Prelude.{◌≡◌, refl, ◌⊎◌, inl, inr}

pub data Exception : Type 0 where
  unknown_task invalid_job_signature : Exception
  key_error value_error type_error runtime_error attribute_error : Exception
  -- SystemExit, for any exception that is no `Exception`
  system_exit : Exception
  -- `redis.ConnectionError` or `redis.TimeoutError`, and an error that a script raised
  connection_error response_error : Exception

pub data Result {ℓ} (A : Type ℓ) : Type ℓ where
  ok : A → Result A
  raise : Exception → Result A

module _ {ℓ κ} {A : Type ℓ} {B : Type κ} where
  -- The next statement, which an exception skips.
  infixl 5 ◌>>=◌
  abbrev pub ◌>>=◌ : Result A → (A → Result B) → Result B
  raise e >>= next = raise e
  ok a >>= next = next a

  pub >>=-eq-ok :
      (r : Result A) (next : A → Result B) {b : B}
      → (r >>= next) ≡ ok b
      → (a : A) × (r ≡ ok a) × (next a ≡ ok b)
  >>=-eq-ok (raise e) next same = cc
  >>=-eq-ok (ok a) next same = (a, refl, same)

infixl 5 ◌>>◌
abbrev pub ◌>>◌ {ℓ} : {B : Type ℓ} → Result (Unit {0}) → Result B → Result B
check >> after = check >>= λ u. after

pub data IsOk {ℓ} {A : Type ℓ} (r : Result A) : Type ℓ where
  is_ok : (a : A) → r ≡ ok a → IsOk r

pub ok-injective {ℓ} : {A : Type ℓ} {a b : A} → ok a ≡ ok b → a ≡ b
ok-injective h = cc

pub Result-cases {ℓ} :
    {A : Type ℓ} (r : Result A) → ((a : A) × (r ≡ ok a)) ⊎ ((e : Exception) × (r ≡ raise e))
Result-cases (ok a) = inl (a, refl)
Result-cases (raise e) = inr (e, refl)
