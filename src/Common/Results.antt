-- ===== src/Common/Results.antt =====
-- What a call returns or raises. `failure` is a plain `Exception` with its text.
use Prim.Native.String.{String}
use mathlib.Core.Path.{◌≡◌, refl}
use mathlib.Core.Logic.{◌⊎◌, inl, inr}

-- The exceptions that the simulator raises.
pub data Error : Type 0 where
  value_error key_error type_error runtime_error : Error
  failure : String → Error

module _ {ℓ} where
  pub data Result (Value : Type ℓ) : Type ℓ where
    err : Error → Result Value
    ok : Value → Result Value

  pub Result-cases :
      {Value : Type ℓ} (r : Result Value) → ((e : Error) × (r ≡ err e)) ⊎ ((v : Value) × (r ≡ ok v))
  Result-cases (ok v) = inr (v, refl)
  Result-cases (err e) = inl (e, refl)

infixl 5 ◌>>=◌
abbrev pub ◌>>=◌ {ℓ κ} :
    {Value : Type ℓ} {Next : Type κ} → Result Value → (Value → Result Next) → Result Next
err e >>= next = err e
ok value >>= next = next value
