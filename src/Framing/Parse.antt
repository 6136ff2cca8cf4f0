-- ===== src/Framing/Parse.antt =====
-- `parse` of crates/execkit/src/framing.rs: the result of one command out of the accumulated bytes.
pub mod Trailer
pub mod FirstBlock
pub mod Growth
pub mod Spec
use execkit.Base.{
  ℕ, zero, suc, ◌+◌, ◌-◌, Bool, true, false, List, [], ◌∷◌, ◌++◌, Option, none, some, ◌==◌, length,
  take, drop, slice, if◌then◌else◌,
}
use execkit.Text.Chars.{Text, Bytes}
use execkit.Text.Split.{trim}
use execkit.Text.Utf8.{from_utf8_lossy}
use execkit.Text.Decimal.{ℤ, negsuc, parse_i32}
use execkit.Output.{clean}
use execkit.Framing.Search.{find, rfind}
use execkit.Framing.Markers.{Markers, us}

pub record Parsed : Type 0 where
  pub stdout : Text
  pub stderr : Text
  pub exit_code : ℤ
  pub cwd : Text

-- The positions of the separators, counted from `i`.
unfoldable pub separators : ℕ → Bytes → List ℕ
separators i [] = []
separators i (b ∷ bs) = if b == us then i ∷ separators (i + 1) bs else separators (i + 1) bs

-- Where the block that an end marker closes lies: its start marker, and three separators in it.
pub record Block : Type 0 where
  pub start_pos : ℕ
  pub end_pos : ℕ
  pub s0 : ℕ
  pub s1 : ℕ
  pub s2 : ℕ

abbrev block_of : ℕ → ℕ → List ℕ → Option Block
block_of start_pos end_pos (s0 ∷ s1 ∷ s2 ∷ more) =
    some (record { start_pos = start_pos; end_pos = end_pos; s0 = s0; s1 = s1; s2 = s2 })
block_of start_pos end_pos _ = none

-- The body of the loop: the block behind the end marker at `end_pos`, if it validates.
unfoldable pub block_at : Bytes → Markers → ℕ → Option Block
block_at acc m end_pos = elim (rfind (take end_pos acc) m.start) [
  | none ↦ none
  | some start_pos ↦
      block_of start_pos end_pos (separators 0 (slice (start_pos + length m.start) end_pos acc))
]

-- Each round starts behind the last end marker, so `length acc` rounds and one suffice.
unfoldable pub find_block : ℕ → Bytes → Markers → ℕ → Option Block
find_block zero acc m from = none
find_block (suc fuel) acc m from = elim (find (drop from acc) m.end) [
  | none ↦ none
  | some i ↦ elim (block_at acc m (from + i)) [
    | some block ↦ some block
    | none ↦ find_block fuel acc m (from + i + 1)
  ]
]

unfoldable pub exit_code_of : Bytes → ℤ
unfolding parse_i32 trim from_utf8_lossy
exit_code_of bytes = elim (parse_i32 (trim (from_utf8_lossy bytes))) [
  | some code ↦ code
  | none ↦ negsuc 0
]

-- `strip_suffix(b"\n")`, where there is one.
unfoldable pub strip_newline : Bytes → Bytes
strip_newline [] = []
strip_newline (b ∷ []) = if b == b'\n' then [] else b ∷ []
strip_newline (b ∷ c ∷ bs) = b ∷ strip_newline (c ∷ bs)

unfoldable pub parsed_of : Bytes → Markers → Block → Parsed
unfolding exit_code_of strip_newline clean from_utf8_lossy
parsed_of acc m k =
    let between = slice (k.start_pos + length m.start) k.end_pos acc in
    record {
      stdout = clean (from_utf8_lossy (strip_newline (take k.start_pos acc)));
      stderr = clean (from_utf8_lossy (drop (k.s2 + 1) between));
      exit_code = exit_code_of (slice (k.s0 + 1) k.s1 between);
      cwd = clean (from_utf8_lossy (slice (k.s1 + 1) k.s2 between));
    }

unfoldable pub parse : Bytes → Markers → Option Parsed
parse acc m = elim (find_block (suc (length acc)) acc m 0) [
  | none ↦ none
  | some block ↦ some (parsed_of acc m block)
]
