-- ===== src/Budget/Grep.antt =====
-- `grep_keep_indices` of crates/execkit/src/budget.rs.
pub mod Near
use execkit.Base.{
  ℕ, zero, suc, ◌+◌, ◌-◌, ◌^◌, ◌≡◌, min, Bool, true, false, List, [], ◌∷◌, ltb, leb, within, length,
  map, if◌then◌else◌,
}
use execkit.Text.Chars.{Text}

abbrev usize_max : ℕ
usize_max = 2 ^ 64 - 1

unfoldable pub saturating_add : ℕ → ℕ → ℕ
saturating_add a b = min (a + b) usize_max

-- The flags at the positions `lo..=hi` are set; the first flag stands at position `i`.
unfoldable pub mark : ℕ → ℕ → ℕ → List Bool → List Bool
mark lo hi i [] = []
mark lo hi i (f ∷ fs) = (if within lo hi i then true else f) ∷ mark lo hi (i + 1) fs

-- The loop over the lines: `i` counts them, `n` is their number.
unfoldable pub mark_lines : (Text → Bool) → ℕ → ℕ → ℕ → List Text → List Bool → List Bool
mark_lines re context n i [] keep = keep
mark_lines re context n i (line ∷ lines) keep =
    mark_lines re context n (i + 1) lines
      (if re line then mark (i - context) (min (saturating_add i context) (n - 1)) 0 keep else keep)

-- The positions of the set flags, from `i` on.
unfoldable pub set_positions : ℕ → List Bool → List ℕ
set_positions i [] = []
set_positions i (f ∷ fs) = if f then i ∷ set_positions (i + 1) fs else set_positions (i + 1) fs

unfoldable pub grep_keep_indices : List Text → (Text → Bool) → ℕ → List ℕ
unfolding mark_lines set_positions
grep_keep_indices content re context =
    set_positions 0 (mark_lines re context (length content) 0 content (map (λ _. false) content))
