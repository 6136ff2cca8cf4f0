-- ===== src/Text/Decimal/Length.antt =====
-- How long a number is in text.
use native.Mathlib.Nat.{pow-suc}
use execkit.Base.{
  ℕ, zero, suc, ◌+◌, ◌*◌, ◌/◌, ◌%◌, ◌^◌, ◌≤◌, ◌<◌, ◌≡◌, true, [], ◌∷◌, arith, ltb, length,
  length-append, Bool-cases, inl, inr, lt→ltb,
}
use execkit.Text.Decimal.{decimal_fuel, decimal}

fuel-length : (k f n : ℕ) → n < 10 ^ suc k → length (decimal_fuel f n) ≤ suc k
unfolding decimal_fuel
fuel-length k zero n h = omega arith
fuel-length zero (suc f) n h = let e : ltb n 10 ≡ true = lt→ltb n 10 h in rw e (omega arith)
fuel-length (suc k) (suc f) n h = elim (Bool-cases (ltb n 10)) [
  | inl e ↦ rw e (omega arith)
  | inr e ↦
      let p : n < 10 ^ suc k * 10 = rw (pow-suc 10 (suc k)) at h in
      rw e (
        omega (
          arith,
          fuel-length k f (n / 10) (omega arith),
          length-append (decimal_fuel f (n / 10)) ((48 + n % 10) ∷ []),
        ))
]

-- A number below 10^k has at most k digits.
pub length-decimal : (k n : ℕ) → n < 10 ^ suc k → length (decimal n) ≤ suc k
unfolding decimal
length-decimal k n h = fuel-length k (suc n) n h
