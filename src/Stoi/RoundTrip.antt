-- ===== src/Stoi/RoundTrip.antt =====
-- Printing a number and reading it back: `std::to_string` and `std::stoi`.
use Prim.Native.Nat.{ℕ, zero, suc, ◌+◌, ◌-◌, ◌*◌, ◌/◌, ◌%◌, ◌≤◌, ◌<◌}
use minet_core.Prelude.{
  true, false, [], ◌∷◌, ◌≡◌, refl, ◌∙◌, ap, arith, ltb, inl, inr, Bool-cases, Bytes, all,
  le→not-ltb,
}
use minet_core.Prelude.Int.{pos}
use minet_core.Prelude.Result.{returned}
use minet_core.Stoi.{
  is_digit, int_max, digits_onto, starts_with_digit, stoi_digits, stoi_sign, stoi, to_string_onto,
  to_string,
}

is_digit-digit : (n : ℕ) → is_digit (n % 10 + b'0') ≡ true
is_digit-digit n = ground arith

digits_onto-cons :
    (m n : ℕ) (out : Bytes)
    → digits_onto m ((n % 10 + b'0') ∷ out) ≡ digits_onto (m * 10 + n % 10) out
unfolding digits_onto
digits_onto-cons m n out =
    let e : m * 10 + (n % 10 + b'0' - b'0') ≡ m * 10 + n % 10 = omega arith in
    rw (is_digit-digit n) (ap (λ k. digits_onto k out) e)

digits_onto-to_string_onto :
    (fuel n : ℕ) (out : Bytes)
    → n < fuel
    → digits_onto 0 (to_string_onto fuel n out) ≡ digits_onto n out
unfolding to_string_onto
digits_onto-to_string_onto zero n out h = absurd (omega arith)
digits_onto-to_string_onto (suc fuel) n out h = elim (Bool-cases (ltb n 10)) [
  | inl small ↦ rw small (digits_onto-cons 0 n out ∙ ap (λ k. digits_onto k out) (ground arith))
  | inr large ↦ rw large (
      digits_onto-to_string_onto fuel (n / 10) ((n % 10 + b'0') ∷ out) (ground arith)
      ∙ digits_onto-cons (n / 10) n out
      ∙ ap (λ k. digits_onto k out) (omega arith))
]

-- The text has only digits, and at least one.
to_string_onto_digits :
    (fuel n : ℕ) (out : Bytes)
    → n < fuel
    → all is_digit out ≡ true
    → (starts_with_digit (to_string_onto fuel n out) ≡ true)
      × (all is_digit (to_string_onto fuel n out) ≡ true)
unfolding to_string_onto
to_string_onto_digits zero n out h o = absurd (omega arith)
to_string_onto_digits (suc fuel) n out h o = elim (Bool-cases (ltb n 10)) [
  | inl small ↦ rw small (is_digit-digit n, rw (is_digit-digit n) o)
  | inr large ↦ rw large (
      to_string_onto_digits fuel (n / 10) ((n % 10 + b'0') ∷ out) (ground arith)
        (rw (is_digit-digit n) o))
]

pub to_string_digits :
    (n : ℕ) → (starts_with_digit (to_string n) ≡ true) × (all is_digit (to_string n) ≡ true)
unfolding to_string
to_string_digits n = to_string_onto_digits (n + 1) n [] (omega arith) refl

-- A text that starts with a digit has no white space or sign to skip.
stoi-stoi_digits : (s : Bytes) → starts_with_digit s ≡ true → stoi s ≡ stoi_digits false s
unfolding stoi stoi_sign
stoi-stoi_digits [] h = cc
stoi-stoi_digits (c ∷ cs) h = ground arith

digits_onto-to_string : (n : ℕ) → digits_onto 0 (to_string n) ≡ n
unfolding to_string digits_onto
digits_onto-to_string n = digits_onto-to_string_onto (n + 1) n [] (omega arith)

-- A number of at most INT_MAX is read back from its decimal digits.
pub stoi-to_string : (n : ℕ) → n ≤ int_max → stoi (to_string n) ≡ returned (pos n)
unfolding stoi_digits
stoi-to_string n h =
    stoi-stoi_digits (to_string n) (to_string_digits n).0
    ∙ rw ((to_string_digits n).0, digits_onto-to_string n, le→not-ltb int_max n h)
