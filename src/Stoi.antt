-- ===== src/Stoi.antt =====
-- `std::stoi` in base 10, as minet/src/utils/Parser.cpp and AsyncParser.cpp call it on the value of
-- Content-Length, and `std::to_string`.
pub mod RoundTrip
use Prim.Native.Nat.{ℕ, zero, suc, ◌+◌, ◌-◌, ◌*◌, ◌/◌, ◌%◌, ◌^◌}
use minet_core.Prelude.{
  Bool, true, false, ◌&&◌, ◌||◌, List, [], ◌∷◌, ◌++◌, ltb, leb, ◌==◌, if◌then◌else◌, Bytes,
}
use minet_core.Prelude.Int.{ℤ, pos, negsuc, negate}
use minet_core.Prelude.Result.{Result, returned, thrown, Exception, invalid_argument, out_of_range}

-- `isspace` in the "C" locale
abbrev pub is_space : ℕ → Bool
is_space c = c == b' ' || leb 9 c && leb c 13

-- `isdigit`
abbrev pub is_digit : ℕ → Bool
is_digit c = leb b'0' c && leb c b'9'

-- `INT_MAX`
abbrev pub int_max : ℕ
int_max = 2147483647

-- The digits at the front, on top of the number read so far. What follows them is ignored.
unfoldable pub digits_onto : ℕ → Bytes → ℕ
digits_onto n [] = n
digits_onto n (c ∷ cs) =
    let rest = digits_onto (n * 10 + (c - b'0')) cs in if is_digit c then rest else n

abbrev pub starts_with_digit : Bytes → Bool
starts_with_digit [] = false
starts_with_digit (c ∷ cs) = is_digit c

-- The range check, on a number and its sign.
abbrev pub in_int_range : Bool → ℕ → Result ℤ
in_int_range negative n =
    if negative
    then (if ltb (int_max + 1) n then thrown out_of_range else returned (negate n))
    else (if ltb int_max n then thrown out_of_range else returned (pos n))

-- After the sign: at least one digit.
unfoldable pub stoi_digits : Bool → Bytes → Result ℤ
unfolding digits_onto
stoi_digits negative s =
    if starts_with_digit s then in_int_range negative (digits_onto 0 s) else thrown invalid_argument

-- The optional sign.
unfoldable pub stoi_sign : Bytes → Result ℤ
unfolding stoi_digits
stoi_sign [] = stoi_digits false []
stoi_sign (c ∷ cs) =
    if c == b'-'
    then stoi_digits true cs
    else if c == b'+'
    then stoi_digits false cs
    else stoi_digits false (c ∷ cs)

-- `std::stoi`: leading white space, a sign, digits.
unfoldable pub stoi : Bytes → Result ℤ
unfolding stoi_sign
stoi [] = stoi_sign []
stoi (c ∷ cs) = let rest = stoi cs in if is_space c then rest else stoi_sign (c ∷ cs)

-- The decimal digits of `n`, in front of `out`, on fuel.
unfoldable pub to_string_onto : ℕ → ℕ → Bytes → Bytes
to_string_onto zero n out = out
to_string_onto (suc fuel) n out =
    let rest = to_string_onto fuel (n / 10) ((n % 10 + b'0') ∷ out) in
    if ltb n 10 then (n % 10 + b'0') ∷ out else rest

-- `std::to_string` at `n ≥ 0`. Each round divides `n` by ten, so `n + 1` rounds are enough.
unfoldable pub to_string : ℕ → Bytes
unfolding to_string_onto
to_string n = to_string_onto (n + 1) n []
