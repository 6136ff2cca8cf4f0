-- ===== src/Mcp/Watch/Http/Compare.antt =====
-- The constant-time comparison of crates/execkit-mcp/src/watch/web.rs is equality.
use execkit.Base.{
  ℕ, zero, suc, ◌/◌, ◌%◌, ◌≤◌, ◌≡◌, refl, sym, ap, ◌∙◌, true, [], ◌∷◌, ◌==◌, length, arith,
  Bool-cases, inl, inr, max,
}
use Prim.Native.Nat.{bit_or, bit_xor, digits, differ, bit_or-bitwise, bit_xor-bitwise}
use execkit.Text.Chars.{Bytes, eq_text, eq_text_iff}
use execkit.Mcp.Watch.Http.{diff_from, ct_eq}

differ-zero : (x y : ℕ) → differ x y ≡ 0 → x ≡ y
differ-zero zero y h = sym h
differ-zero (suc x) zero h = absurd (omega arith)
differ-zero (suc x) (suc y) h = omega (arith, differ-zero x y h)

differ_self : (x : ℕ) → differ x x ≡ 0
differ_self zero = refl
differ_self (suc x) = differ_self x

xor_digits-zero : (n a b : ℕ) → a ≤ n → digits (λ b. b) differ n a b ≡ 0 → a ≡ b
xor_digits-zero zero zero b h e = sym e
xor_digits-zero zero (suc a) b h e = absurd (omega arith)
xor_digits-zero (suc n) zero b h e = sym e
xor_digits-zero (suc n) (suc a) b h e =
    let high = xor_digits-zero n (suc a / 2) (b / 2) (omega arith) (omega arith) in
    let low = differ-zero (suc a % 2) (b % 2) (omega arith) in omega arith

xor_digits_self : (n a : ℕ) → a ≤ n → digits (λ b. b) differ n a a ≡ 0
xor_digits_self zero zero h = refl
xor_digits_self zero (suc a) h = absurd (omega arith)
xor_digits_self (suc n) zero h = refl
xor_digits_self (suc n) (suc a) h =
    omega (arith, xor_digits_self n (suc a / 2) (omega arith), differ_self (suc a % 2))

or_digits-zero : (n a b : ℕ) → a ≤ n → digits (λ b. b) max n a b ≡ 0 → (a ≡ 0) × (b ≡ 0)
or_digits-zero zero zero b h e = (refl, e)
or_digits-zero zero (suc a) b h e = absurd (omega arith)
or_digits-zero (suc n) zero b h e = (refl, e)
or_digits-zero (suc n) (suc a) b h e =
    let high = (or_digits-zero n (suc a / 2) (b / 2) (omega arith) (omega arith)).0 in
    absurd (omega arith)

xor-zero : (a b : ℕ) → bit_xor a b ≡ 0 → a ≡ b
xor-zero a b h = xor_digits-zero a a b (omega arith) (sym (bit_xor-bitwise a b) ∙ h)

xor_self : (a : ℕ) → bit_xor a a ≡ 0
xor_self a = bit_xor-bitwise a a ∙ xor_digits_self a a (omega arith)

or-zero : (a b : ℕ) → bit_or a b ≡ 0 → (a ≡ 0) × (b ≡ 0)
or-zero a b h = or_digits-zero a a b (omega arith) (sym (bit_or-bitwise a b) ∙ h)

or-of_zero : (a b : ℕ) → a ≡ 0 → b ≡ 0 → bit_or a b ≡ 0
or-of_zero a b h k = ap (λ n. bit_or n b) h ∙ (bit_or-bitwise 0 b ∙ k)

-- The difference is zero exactly if it was zero and no byte differs.
diff_from-zero :
    (d : ℕ) (xs ys : Bytes) → length xs ≡ length ys → diff_from d xs ys ≡ 0 → (d ≡ 0) × (xs ≡ ys)
diff_from-zero d [] [] l h = (h, refl)
diff_from-zero d [] (y ∷ ys) l h = absurd (omega arith)
diff_from-zero d (x ∷ xs) [] l h = absurd (omega arith)
diff_from-zero d (x ∷ xs) (y ∷ ys) l h =
    let ih = diff_from-zero (bit_or d (bit_xor x y)) xs ys (omega arith) h in
    let both = or-zero d (bit_xor x y) ih.0 in
    let same = xor-zero x y both.1 in (both.0, ap (λ c. c ∷ xs) same ∙ ap (λ cs. y ∷ cs) ih.1)

diff_from_self : (d : ℕ) (xs : Bytes) → d ≡ 0 → diff_from d xs xs ≡ 0
diff_from_self d [] h = h
diff_from_self d (x ∷ xs) h =
    diff_from_self (bit_or d (bit_xor x x)) xs (or-of_zero d (bit_xor x x) h (xor_self x))

pub ct_eq-eq_text : (a b : Bytes) → ct_eq a b ≡ eq_text a b
unfolding ct_eq
ct_eq-eq_text a b = elim (Bool-cases (eq_text a b)) [
  | inl e ↦
      let same : b ≡ a = sym ((eq_text_iff a b).0 e) in
      let z = diff_from_self 0 a refl in rw (e, same) (ground arith)
  | inr n ↦ elim (Bool-cases (length a == length b)) [
    | inr m ↦ rw (n, m) refl
    | inl m ↦ elim (Bool-cases (diff_from 0 a b == 0)) [
      | inr z ↦ rw (n, m, z) refl
      | inl z ↦
          let same = (diff_from-zero 0 a b (ground arith) (ground arith)).1 in
          let e : eq_text a b ≡ true = (eq_text_iff a b).1 same in absurd (cc)
    ]
  ]
]
