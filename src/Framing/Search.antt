-- ===== src/Framing/Search.antt =====
-- `find` and `rfind` of crates/execkit/src/framing.rs: the first and the last window of a byte
-- string that equals a needle.
pub mod Windows
pub mod Segments
use execkit.Base.{
  ℕ, zero, suc, ◌+◌, ◌-◌, ◌≤◌, ◌<◌, ◌≡◌, refl, Bool, true, false, ◌||◌, List, [], ◌∷◌, ◌++◌, Option,
  none, some, arith, ltb, length, drop, is_empty, if◌then◌else◌, Bool-cases, inl, inr,
}
use execkit.Text.Chars.{Bytes, starts_with}

-- `hay.windows(needle.len()).position(|w| w == needle)` for a needle that is not empty.
unfoldable pub first_window : Bytes → Bytes → Option ℕ
first_window needle [] = none
first_window needle (b ∷ bs) =
    let later = first_window needle bs in
    if starts_with needle (b ∷ bs)
    then some 0
    else (elim later [ none ↦ none | some i ↦ some (suc i) ])

-- `rposition`.
unfoldable pub last_window : Bytes → Bytes → Option ℕ
last_window needle [] = none
last_window needle (b ∷ bs) = elim (last_window needle bs) [
  | some i ↦ some (suc i)
  | none ↦ if starts_with needle (b ∷ bs) then some 0 else none
]

unfoldable pub find : Bytes → Bytes → Option ℕ
unfolding first_window starts_with
find hay needle =
    if is_empty needle || ltb (length hay) (length needle) then none else first_window needle hay

unfoldable pub rfind : Bytes → Bytes → Option ℕ
unfolding last_window starts_with
rfind hay needle =
    if is_empty needle || ltb (length hay) (length needle) then none else last_window needle hay
