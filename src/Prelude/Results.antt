-- ===== src/Prelude/Results.antt =====
-- Calls that may raise: the errors of src/generic_rag/types.py and those of Python and SQLAlchemy
-- that the services meet.
use mathlib.Core.Path.{◌≡◌, refl}
use mathlib.Core.Logic.{◌⊎◌, inl, inr}
use mathlib.Core.Bool.{Bool, true, false}

pub data Error : Type 0 where
  invalid_request not_found validation_failed assertion_failed integrity_error : Error
  runtime_error cancelled key_error failed_retriever response_error value_error zero_division :
      Error

pub data Result {ℓ} (A : Type ℓ) : Type ℓ where
  ok : A → Result A
  raise : Error → Result A

pub Result-cases {ℓ} :
    {A : Type ℓ} (r : Result A) → ((e : Error) × (r ≡ raise e)) ⊎ ((a : A) × (r ≡ ok a))
Result-cases (raise e) = inl (e, refl)
Result-cases (ok a) = inr (a, refl)

infixl 5 ◌>>=◌ ◌>>◌
abbrev pub ◌>>=◌ {ℓ κ} : {A : Type ℓ} {B : Type κ} → Result A → (A → Result B) → Result B
ok a >>= f = f a
raise e >>= f = raise e

abbrev pub ◌>>◌ {ℓ} : {B : Type ℓ} → Result (Unit {0}) → Result B → Result B
m >> k = m >>= λ _. k

abbrev pub raise_if : Bool → Error → Result (Unit {0})
raise_if true e = raise e
raise_if false e = ok tt

abbrev pub raise_unless : Bool → Error → Result (Unit {0})
raise_unless true e = ok tt
raise_unless false e = raise e

-- A call that changes a state, which stays as it was left when the call raises.
abbrev pub Action {ℓ κ} : Type ℓ → Type κ → Type (ℓ ⊔ κ)
Action S A = S → Result A × S

module _ {ℓ κ} {S : Type ℓ} {A : Type κ} where
  -- What follows a check.
  abbrev pub checked : Result (Unit {0}) → Action S A → Action S A
  checked (ok u) m s = m s
  checked (raise e) m s = (raise e, s)

  abbrev pub and_then {μ} : {B : Type μ} → Result A × S → (A → Action S B) → Result B × S
  and_then (ok a, s) f = f a s
  and_then (raise e, s) f = (raise e, s)
