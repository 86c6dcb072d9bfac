-- ===== src/Sync/Calls.antt =====
-- What a call of the synchronous parser comes to.
use minet_core.Prelude.Result.{Result, Exception}

-- `undefined` is a call of `CleanPath` outside its domain, or a write outside a buffer.
pub data Outcome {ℓ} (A : Type ℓ) : Type ℓ where
  returned : A → Outcome A
  thrown : Exception → Outcome A
  undefined : Outcome A
  out_of_fuel : Outcome A

infixl 5 ◌>>=◌
abbrev pub ◌>>=◌ {ℓ κ} : {A : Type ℓ} {B : Type κ} → Outcome A → (A → Outcome B) → Outcome B
returned a >>= f = f a
thrown e >>= f = thrown e
undefined >>= f = undefined
out_of_fuel >>= f = out_of_fuel

abbrev pub lift {ℓ} : {A : Type ℓ} → Result A → Outcome A
lift (Result.returned a) = returned a
lift (Result.thrown e) = thrown e
