-- ===== src/Prelude/Throwing.antt =====
-- A call that may throw: a value, or the exception.
use mathlib.Core.Path.{◌≡◌, refl}
use mathlib.Core.Logic.{◌⊎◌, inl, inr}
use mathlib.Core.Bool.{Bool, true, false}
use mathlib.Core.Option.{Option, none, some}

pub data Result {ℓ} (Thrown : Type 0) (Value : Type ℓ) : Type ℓ where
  err : Thrown → Result Thrown Value
  ok : Value → Result Thrown Value

-- `if (condition) throw e`
abbrev pub throw_if : {E : Type 0} → Bool → E → Result E (Unit {0})
throw_if true e = err e
throw_if false e = ok tt

-- `if (!value) throw e`
abbrev pub or_throw {ℓ} : {E : Type 0} {A : Type ℓ} → Option A → E → Result E A
or_throw none e = err e
or_throw (some a) e = ok a

module _ {ℓ κ} {E : Type 0} {Value : Type ℓ} {Next : Type κ} where
  infixl 5 ◌>>=◌
  -- `await call` with what comes after it
  abbrev pub ◌>>=◌ : Result E Value → (Value → Result E Next) → Result E Next
  err thrown >>= next = err thrown
  ok value >>= next = next value

  -- What comes after a call was reached, if the whole returned.
  pub >>=-eq-ok :
      (call : Result E Value) (next : Value → Result E Next) {result : Next}
      → (call >>= next) ≡ ok result
      → (value : Value) × (call ≡ ok value) × (next value ≡ ok result)
  >>=-eq-ok (err thrown) next returned = cc
  >>=-eq-ok (ok value) next returned = (value, refl, returned)

infixl 5 ◌>>◌
abbrev pub ◌>>◌ {ℓ} :
    {E : Type 0} {Next : Type ℓ} → Result E (Unit {0}) → Result E Next → Result E Next
check >> next = check >>= λ _. next

pub Result-cases {ℓ} :
    {E : Type 0} {Value : Type ℓ} (call : Result E Value)
    → ((value : Value) × (call ≡ ok value)) ⊎ ((thrown : E) × (call ≡ err thrown))
Result-cases (err thrown) = inr (thrown, refl)
Result-cases (ok value) = inl (value, refl)
