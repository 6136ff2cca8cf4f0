-- ===== src/Text/Decimal.antt =====
-- Numbers in text: `format!("{n}")`, and `parse` for the integer types.
pub mod Length
pub mod RoundTrip
use execkit.Base.{
  ℕ, zero, suc, ◌+◌, ◌-◌, ◌*◌, ◌/◌, ◌%◌, ◌^◌, [], ◌∷◌, ◌++◌, Option, none, some, ◌==◌, ltb, leb,
  all, is_empty, if◌then◌else◌, not, ◌&&◌,
}
use execkit.Text.Chars.{Text, is_ascii_digit}

-- `negsuc n` is -(n + 1).
pub data ℤ : Type 0 where
  pos : ℕ → ℤ
  negsuc : ℕ → ℤ

-- Fuel: a number has no more digits than its value plus one.
unfoldable pub decimal_fuel : ℕ → ℕ → Text
decimal_fuel zero n = []
decimal_fuel (suc f) n =
    let rest = decimal_fuel f (n / 10) in
    if ltb n 10 then (48 + n) ∷ [] else rest ++ (48 + n % 10) ∷ []

unfoldable pub decimal : ℕ → Text
unfolding decimal_fuel
decimal n = decimal_fuel (suc n) n

unfoldable pub digits_value : ℕ → Text → ℕ
digits_value acc [] = acc
digits_value acc (c ∷ cs) = digits_value (acc * 10 + (c - 48)) cs

-- At least one digit, digits only, at most `top`.
unfoldable pub parse_digits : ℕ → Text → Option ℕ
unfolding digits_value
parse_digits top cs =
    if not (is_empty cs) && all is_ascii_digit cs && leb (digits_value 0 cs) top
    then some (digits_value 0 cs)
    else none

abbrev drop_plus : Text → Text
drop_plus [] = []
drop_plus (c ∷ cs) = if c == b'+' then cs else c ∷ cs

-- `parse::<uN>()` with `top` the largest value: an optional `+`, then digits.
unfoldable pub parse_unsigned : ℕ → Text → Option ℕ
unfolding parse_digits
parse_unsigned top cs = parse_digits top (drop_plus cs)

abbrev negate : ℕ → ℤ
negate zero = pos 0
negate (suc n) = negsuc n

-- `parse::<i32>()`: `-` reaches one further than `+`.
unfoldable pub parse_i32 : Text → Option ℤ
unfolding parse_unsigned
parse_i32 [] = none
parse_i32 (c ∷ cs) =
    if c == b'-'
    then (elim (parse_digits (2 ^ 31) cs) [ none ↦ none | some n ↦ some (negate n) ])
    else (elim (parse_unsigned (2 ^ 31 - 1) (c ∷ cs)) [ none ↦ none | some n ↦ some (pos n) ])
