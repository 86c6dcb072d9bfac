-- ===== src/Host/Holds.antt =====
-- What a call of the builder comes to: minet/src/core/WebHostBuilder.cpp.
use minet_core.Prelude.{ℕ, Bool, true, false, if◌then◌else◌, ◌≡◌, refl}
use minet_core.Prelude.Result.{Exception}
use minet_core.Host.{Run, returned, thrown, undefined, exited, ◌>>=◌}

-- A value with `P`, an exception with `T`, an exit whose status has `E`, or, if there is `U`, undefined behaviour.
pub data Holds {A : Type 0} (E : ℕ → Type 0) (T : Exception → Type 0) (U : Type 0) (P : A → Type 0)
    : Run A → Type 0 where
  returns : {a : A} → P a → Holds E T U P (returned a)
  throws : {e : Exception} → T e → Holds E T U P (thrown e)
  exits : {n : ℕ} → E n → Holds E T U P (exited n)
  is_undefined : U → Holds E T U P undefined

pub Holds-bind :
    {A B : Type 0} {E : ℕ → Type 0} {T : Exception → Type 0} {U : Type 0} {P : A → Type 0}
    (Q : B → Type 0) {r : Run A} {f : A → Run B}
    → Holds E T U P r
    → ((a : A) → P a → Holds E T U Q (f a))
    → Holds E T U Q (r >>= f)
Holds-bind Q (returns p) g = g _ p
Holds-bind Q (throws h) g = throws h
Holds-bind Q (exits h) g = exits h
Holds-bind Q (is_undefined u) g = is_undefined u

pub Holds-map :
    {A : Type 0} {E F : ℕ → Type 0} {T S : Exception → Type 0} {U V : Type 0} {P : A → Type 0}
    (Q : A → Type 0) {r : Run A}
    → Holds E T U P r
    → ((n : ℕ) → E n → F n)
    → ((e : Exception) → T e → S e)
    → (U → V)
    → ((a : A) → P a → Q a)
    → Holds F S V Q r
Holds-map Q (returns p) f t g h = returns (h _ p)
Holds-map Q (throws e) f t g h = throws (t _ e)
Holds-map Q (exits e) f t g h = exits (f _ e)
Holds-map Q (is_undefined u) f t g h = is_undefined (g u)

pub Holds-if :
    {A : Type 0} {E : ℕ → Type 0} {T : Exception → Type 0} {U : Type 0} {P : A → Type 0} (b : Bool)
    {r s : Run A}
    → (b ≡ true → Holds E T U P r)
    → (b ≡ false → Holds E T U P s)
    → Holds E T U P (if b then r else s)
Holds-if true h g = h refl
Holds-if false h g = g refl
