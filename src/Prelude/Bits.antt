-- ===== src/Prelude/Bits.antt =====
-- The remainder by a power of two, as a mask.
use Prim.Native.Nat.{
  ℕ, zero, suc, ◌+◌, ◌-◌, ◌*◌, ◌/◌, ◌%◌, ◌^◌, ◌≤◌, ◌<◌, min, bit_and, digits, bit_and-bitwise,
}
use mathlib.Core.Path.{◌≡◌, refl, sym, ap, ◌∙◌}
use mathlib.Core.Logic.{◌⊎◌, inl, inr}
use native.Mathlib.Omega.{arith}
use native.Mathlib.Nat.{two-pow-succ, mul-add-mod_self_right, mod-eq_of_lt, div-add-mod'}
use native.Mathlib.Decide.{dec_lt}

-- All of the k lowest digits.
abbrev ones : ℕ → ℕ
ones zero = 0
ones (suc k) = ones k * 2 + 1

ones-pow : (k : ℕ) → ones k + 1 ≡ 2 ^ k
ones-pow zero = refl
ones-pow (suc k) = omega (arith, ones-pow k, two-pow-succ k)

abbrev digits_and : ℕ → ℕ → ℕ → ℕ
digits_and n a b = digits (λ b. zero) min n a b

digits_and-zero : (n a : ℕ) → digits_and n a 0 ≡ 0
digits_and-zero zero a = refl
digits_and-zero (suc n) zero = refl
digits_and-zero (suc n) (suc a) = omega (arith, digits_and-zero n (suc a / 2))

-- A number is a multiple of 2 ^ k and what the mask leaves.
digits_and-ones :
    (k n a : ℕ)
    → a ≤ n
    → (q : ℕ) × (a ≡ q * 2 ^ k + digits_and n a (ones k)) × (digits_and n a (ones k) < 2 ^ k)
digits_and-ones zero n a h =
    (a, omega (arith, digits_and-zero n a), omega (arith, digits_and-zero n a))
digits_and-ones (suc k) zero zero h = (0, omega arith, omega (arith, ones-pow (suc k)))
digits_and-ones (suc k) zero (suc a) h = absurd (omega arith)
digits_and-ones (suc k) (suc n) zero h = (0, omega arith, omega (arith, ones-pow (suc k)))
digits_and-ones (suc k) (suc n) (suc a) h =
    let (q, e, l) = digits_and-ones k n (suc a / 2) (omega arith) in
    let half : (ones k * 2 + 1) / 2 ≡ ones k = omega arith in
    let odd : (ones k * 2 + 1) % 2 ≡ 1 = omega arith in
    let step : digits_and (suc n) (suc a) (ones (suc k))
        ≡ digits_and n (suc a / 2) (ones k) * 2 + suc a % 2 =
      rw (half, odd) (omega arith) in
    let twice : q * 2 ^ suc k ≡ q * 2 ^ k + q * 2 ^ k =
      ap (λ p. q * p) (two-pow-succ k) ∙ omega arith in
    (q, omega (arith, step, twice, e), omega (arith, step, two-pow-succ k, l))

-- The mask of a power of two takes the remainder.
pub bit_and-mod : (k a : ℕ) → bit_and a (2 ^ k - 1) ≡ a % 2 ^ k
bit_and-mod k a =
    let (q, e, l) = digits_and-ones k a a (omega arith) in
    let r = digits_and a a (ones k) in
    let mask : 2 ^ k - 1 ≡ ones k = omega (arith, ones-pow k) in
    ap (bit_and a) mask
    ∙ bit_and-bitwise a (ones k)
    ∙ sym (mod-eq_of_lt l)
    ∙ sym (mul-add-mod_self_right q (2 ^ k) r)
    ∙ ap (λ x. x % 2 ^ k) (sym e)

-- Two numbers with one remainder are equal or far apart.
mod_below : (n m c : ℕ) → n % c ≡ m % c → n / c < m / c → n + c ≤ m
mod_below n m c e h =
    let d = m / c - suc (n / c) in
    let more : m / c ≡ n / c + suc d = omega arith in
    let product : m / c * c ≡ n / c * c + c + d * c = ap (λ q. q * c) more ∙ omega arith in
    omega (arith, div-add-mod' n c, div-add-mod' m c, product, e)

pub mod_apart : (n m c : ℕ) → n % c ≡ m % c → (n ≡ m) ⊎ (n + c ≤ m) ⊎ (m + c ≤ n)
mod_apart n m c e = elim (dec_lt (n / c) (m / c)) [
  | yes h ↦ inr (inl (mod_below n m c e h))
  | no h ↦ elim (dec_lt (m / c) (n / c)) [
    | yes k ↦ inr (inr (mod_below m n c (sym e) k))
    | no k ↦
        let same : n / c ≡ m / c = omega arith in
        inl (
          sym (div-add-mod' n c)
          ∙ ap (λ q. q * c + n % c) same
          ∙ ap (λ r. m / c * c + r) e
          ∙ div-add-mod' m c)
  ]
]
