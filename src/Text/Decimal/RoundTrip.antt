-- ===== src/Text/Decimal/RoundTrip.antt =====
-- A number in text reads back.
use execkit.Base.{
  ℕ, zero, suc, ◌+◌, ◌-◌, ◌*◌, ◌/◌, ◌%◌, ◌≤◌, ◌<◌, ◌≡◌, refl, true, false, ◌&&◌, [], ◌∷◌, ◌++◌,
  some, arith, ltb, leb, all, is_empty, Bool-cases, inl, inr, ◌==◌,
}
use execkit.Text.Chars.{Text, is_ascii_digit}
use execkit.Text.Decimal.{
  decimal_fuel, decimal, digits_value, parse_digits, parse_unsigned, drop_plus,
}

digits_value-append :
    (acc : ℕ) (xs : Text) (d : ℕ)
    → digits_value acc (xs ++ d ∷ []) ≡ digits_value acc xs * 10 + (d - 48)
unfolding digits_value
digits_value-append acc [] d = refl
digits_value-append acc (x ∷ xs) d = digits_value-append (acc * 10 + (x - 48)) xs d

one_digit : (n : ℕ) → digits_value 0 ((48 + n) ∷ []) ≡ n
unfolding digits_value
one_digit n = omega arith

value-fuel : (f n : ℕ) → n < f → digits_value 0 (decimal_fuel f n) ≡ n
unfolding decimal_fuel
value-fuel zero n h = absurd (omega arith)
value-fuel (suc f) n h = elim (Bool-cases (ltb n 10)) [
  | inl e ↦ rw e (one_digit n)
  | inr e ↦
      let big : 10 ≤ n = ground arith in
      rw
        (
          e,
          digits_value-append 0 (decimal_fuel f (n / 10)) (48 + n % 10),
          value-fuel f (n / 10) (omega arith),
        )
        (omega arith)
]

digits-fuel : (f n : ℕ) → all is_ascii_digit (decimal_fuel f n) ≡ true
unfolding decimal_fuel
digits-fuel zero n = refl
digits-fuel (suc f) n = elim (Bool-cases (ltb n 10)) [
  | inl e ↦ rw e (ground arith)
  | inr e ↦
      let last : is_ascii_digit (48 + n % 10) ≡ true = ground arith in
      rw (e, one_more (decimal_fuel f (n / 10)) (48 + n % 10), digits-fuel f (n / 10), last) refl
]
  where
    one_more :
        (xs : Text) (d : ℕ)
        → all is_ascii_digit (xs ++ d ∷ []) ≡ (all is_ascii_digit xs && is_ascii_digit d)
    one_more [] d = ground arith
    one_more (x ∷ xs) d = rw (one_more xs d) (ground arith)

not_empty : (f n : ℕ) → is_empty (decimal_fuel (suc f) n) ≡ false
unfolding decimal_fuel
not_empty f n = elim (Bool-cases (ltb n 10)) [
  | inl e ↦ rw e
  | inr e ↦ rw e (behind (decimal_fuel f (n / 10)) (48 + n % 10))
]
  where
    behind : (xs : Text) (d : ℕ) → is_empty (xs ++ d ∷ []) ≡ false
    behind [] d = refl
    behind (x ∷ xs) d = refl

no_plus : (cs : Text) → all is_ascii_digit cs ≡ true → drop_plus cs ≡ cs
no_plus [] h = refl
no_plus (c ∷ cs) h = let e : (c == b'+') ≡ false = ground arith in rw e

pub decimal-digits : (n : ℕ) → all is_ascii_digit (decimal n) ≡ true
unfolding decimal
decimal-digits n = digits-fuel (suc n) n

pub parse_unsigned-decimal : (top n : ℕ) → n ≤ top → parse_unsigned top (decimal n) ≡ some n
unfolding parse_unsigned parse_digits decimal
parse_unsigned-decimal top n h =
    let v = value-fuel (suc n) n (omega arith) in
    let d = digits-fuel (suc n) n in
    let fits : leb n top ≡ true = ground arith in
    rw (no_plus (decimal_fuel (suc n) n) d, not_empty n n, d, v, fits)
