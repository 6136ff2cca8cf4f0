-- ===== src/Redact/Values/Rounds.antt =====
-- The loop of `redact_key_values` (crates/execkit/src/redact.rs) has fuel enough.
use execkit.Base.{
  ℕ, zero, suc, ◌+◌, ◌≤◌, ◌<◌, ◌≡◌, refl, sym, ap, ◌∙◌, false, ◌&&◌, [], ◌∷◌, ◌++◌, Option, none,
  some, ltb, length, length-append, length-drop, drop, slice, is_empty, arith, Bool-cases,
  Option-cases, inl, inr,
}
use execkit.Text.Chars.{Text, codes, eq_text}
use execkit.Redact.{balanced_end}
use execkit.Redact.Values.{
  Value, double, single, bare, KeyValue, matched_value, matched, first_or, is_stop, looks_like_code,
  on_bare, on_match, redact_loop,
}
use execkit.Redact.Values.Pieces.{Stands}

length-nonempty : (t : Text) → is_empty t ≡ false → 0 < length t
length-nonempty [] h = absurd (ground arith)
length-nonempty (c ∷ cs) h = omega arith

on_bare-beyond :
    (text p f v after : Text) (start : ℕ)
    → is_empty (p ++ (f ++ (v ++ after))) ≡ false
    → start < (on_bare text start p f v after).1
unfolding on_bare
on_bare-beyond text p f v after start h =
    let value_end = start + length (p ++ (f ++ v)) in
    let more = balanced_end text v value_end is_stop in
    let l = length-nonempty (p ++ (f ++ (v ++ after))) h in
    elim (Bool-cases (looks_like_code v (first_or after none))) [
      | inl c ↦ rw c (omega arith)
      | inr c ↦ elim (Bool-cases (eq_text after (codes ")") && ltb value_end more)) [
        | inl m ↦ let u : value_end < more = ground arith in rw (c, m) (omega arith)
        | inr n ↦ rw (c, n) (omega arith)
      ]
    ]

on_match-beyond :
    (text p : Text) (v : Value) (start : ℕ)
    → is_empty (p ++ matched_value v) ≡ false
    → start < (on_match text start p v).1
on_match-beyond text p (double v) start h =
    let l = length-nonempty (p ++ matched_value (double v)) h in omega arith
on_match-beyond text p (single v) start h =
    let l = length-nonempty (p ++ matched_value (single v)) h in omega arith
on_match-beyond text p (bare opening value after) start h =
    on_bare-beyond text p opening value after start h

Stands-within : (text : Text) (pos : ℕ) (m : KeyValue) → Stands text pos m → pos < length text
Stands-within text pos m (gap, rest, e, s, ne) =
    let l = length-nonempty (matched m) ne in
    let n = sym (length-drop pos text) ∙ ap length e in
    omega (arith, n, length-append gap (matched m ++ rest), length-append (matched m) rest)

module _ (captures : Text → ℕ → Option KeyValue) (text : Text)
    (in_text : (pos : ℕ) (m : KeyValue) → captures text pos ≡ some m → Stands text pos m) where
  loop-none :
      (f pos : ℕ) → captures text pos ≡ none → redact_loop f captures text pos ≡ drop pos text
  unfolding redact_loop
  loop-none zero pos n = refl
  loop-none (suc f) pos n = rw (redact_loop, n) refl

  round_beyond :
      (pos : ℕ) (m : KeyValue)
      → Stands text pos m
      → pos < (on_match text m.start m.prefix m.value).1
  round_beyond pos m (gap, rest, e, s, ne) =
      let b = on_match-beyond text m.prefix m.value m.start ne in omega arith

  -- Behind the text no match stands.
  none_behind : (pos : ℕ) → length text ≤ pos → captures text pos ≡ none
  none_behind pos h = elim (Option-cases (captures text pos)) [
    | inl n ↦ n
    | inr (m, e) ↦ let w = Stands-within text pos m (in_text pos m e) in absurd (omega arith)
  ]

  -- Any two counts of rounds above the characters that are left give the same.
  redact_loop-enough :
      (f g pos : ℕ)
      → length text < f + pos
      → length text < g + pos
      → redact_loop f captures text pos ≡ redact_loop g captures text pos
  unfolding redact_loop
  redact_loop-enough zero g pos h k = sym (loop-none g pos (none_behind pos (omega arith)))
  redact_loop-enough (suc f) zero pos h k = loop-none (suc f) pos (none_behind pos (omega arith))
  redact_loop-enough (suc f) (suc g) pos h k = elim (Option-cases (captures text pos)) [
    | inl n ↦ rw (redact_loop, n) refl
    | inr (m, e) ↦
        let r = on_match text m.start m.prefix m.value in
        let beyond : pos < r.1 = round_beyond pos m (in_text pos m e) in
        let same = redact_loop-enough f g r.1 (omega arith) (omega arith) in
        rw (redact_loop, e) (ap (λ t. slice pos m.start text ++ (r.0 ++ t)) same)
  ]
