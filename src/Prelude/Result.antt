-- ===== src/Prelude/Result.antt =====
-- A call that returns a value or throws.
use mathlib.Core.Path.{◌≡◌, refl}

-- What `std::stoi` throws, what a request handler throws, and what libraries throw of their own.
pub data Exception : Type 0 where
  invalid_argument out_of_range runtime_error library_error : Exception

pub data Result {ℓ} (A : Type ℓ) : Type ℓ where
  returned : A → Result A
  thrown : Exception → Result A

infixl 5 ◌>>=◌
abbrev pub ◌>>=◌ {ℓ κ} : {A : Type ℓ} {B : Type κ} → Result A → (A → Result B) → Result B
returned a >>= f = f a
thrown e >>= f = thrown e

pub bind-eq-returned {ℓ κ} :
    {A : Type ℓ} {B : Type κ} (m : Result A) (f : A → Result B) {b : B}
    → (m >>= f) ≡ returned b
    → (a : A) × (m ≡ returned a) × (f a ≡ returned b)
bind-eq-returned (returned a) f h = (a, refl, h)
bind-eq-returned (thrown e) f h = cc
