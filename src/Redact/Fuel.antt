-- ===== src/Redact/Fuel.antt =====
-- The loop of `learn_from_command` (crates/execkit/src/redact.rs) has fuel enough.
use execkit.Base.{
  ℕ, zero, suc, ◌+◌, ◌≤◌, ◌<◌, ◌≡◌, Bool, ◌||◌, ◌&&◌, List, [], ◌∷◌, Option, some, ◌==◌, length,
  drop, length-drop, Option-cases, Bool-cases, inl, inr, arith, slice,
}
use execkit.Text.Chars.{Text}
use execkit.Redact.{
  Assignment, strip_quotes, count_open, more_of_value, depth_after, balanced_end, ends_bare_value,
  value_of, remember, learn_loop,
}

more_of_value-le :
    (stop : ℕ → Bool) (depth : ℕ) (cs : Text) → more_of_value stop depth cs ≤ length cs
unfolding more_of_value
more_of_value-le stop depth [] = omega arith
more_of_value-le stop depth (c ∷ cs) =
    let ih = more_of_value-le stop (depth_after c depth) cs in
    elim (Bool-cases (stop c || (c == b')' && depth == 0))) [
      | inl e ↦ rw e (omega arith)
      | inr e ↦ rw e (omega (arith, ih))
    ]

-- A value is only ever extended, and within the text.
pub balanced_end-bounds :
    (text value : Text) (at : ℕ) (stop : ℕ → Bool)
    → at ≤ length text
    → (at ≤ balanced_end text value at stop) × (balanced_end text value at stop ≤ length text)
unfolding balanced_end
balanced_end-bounds text value at stop h = elim (Bool-cases (count_open value == 0)) [
  | inl e ↦ rw e (omega arith, h)
  | inr e ↦
      let le = more_of_value-le stop (count_open value) (drop at text) in
      rw e (omega arith, omega (arith, le, length-drop at text))
]

value_of-bounds :
    (cmd : Text) (a : Assignment)
    → a.value_end ≤ a.end
    → a.end ≤ length cmd
    → (a.value_end ≤ (value_of cmd a).0) × ((value_of cmd a).0 ≤ length cmd)
unfolding value_of
value_of-bounds cmd a h k =
    let raw = slice a.value_start a.value_end cmd in
    elim (Bool-cases (length (strip_quotes raw) == length raw)) [
      | inl e ↦ rw e (balanced_end-bounds cmd raw a.value_end ends_bare_value (omega arith))
      | inr e ↦ rw e (h, k)
    ]

-- If the matcher gives, from a position on, only assignments whose value ends behind it and within the
-- command: a loop with at least as many rounds as there are characters left, and one more, finds what
-- every longer loop finds. `learn_from_command` starts at 0 with the length of the command and one.
pub learn_loop-enough :
    (captures : Text → ℕ → Option Assignment) (is_secret_name : Text → Bool) (cmd : Text)
    (fuel more pos : ℕ) (ls : List Text)
    → ((pos : ℕ) (a : Assignment)
        → captures cmd pos ≡ some a
        → (pos < a.value_end) × (a.value_end ≤ a.end) × (a.end ≤ length cmd))
    → length cmd < fuel + pos
    → learn_loop (fuel + more) captures is_secret_name cmd pos ls
      ≡ learn_loop fuel captures is_secret_name cmd pos ls
unfolding learn_loop
learn_loop-enough captures is_secret_name cmd fuel zero pos ls forth enough =
    let e : fuel + 0 ≡ fuel = omega arith in rw e
learn_loop-enough captures is_secret_name cmd zero (suc more) pos ls forth enough =
    let e : 0 + suc more ≡ suc more = omega arith in
    rw e (elim (Option-cases (captures cmd pos)) [
      | inl none_left ↦ rw (none_left, learn_loop)
      | inr (a, found) ↦ let t = forth pos a found in absurd (omega (arith, t.0, t.1, t.2))
    ])
learn_loop-enough captures is_secret_name cmd (suc fuel) (suc more) pos ls forth enough =
    let e : suc fuel + suc more ≡ suc (fuel + suc more) = omega arith in
    rw e (elim (Option-cases (captures cmd pos)) [
      | inl none_left ↦ rw (none_left, learn_loop)
      | inr (a, found) ↦
          let t = forth pos a found in
          let b = value_of-bounds cmd a t.1 t.2 in
          rw (found, learn_loop)
            (learn_loop-enough captures is_secret_name cmd fuel (suc more) (value_of cmd a).0
              (remember is_secret_name a.name (value_of cmd a).1 ls) forth
              (omega (arith, t.0, b.0)))
    ])
