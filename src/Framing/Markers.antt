-- ===== src/Framing/Markers.antt =====
-- The sentinels of one command (crates/execkit/src/framing.rs).
use execkit.Base.{ℕ, ◌++◌}
use execkit.Text.Chars.{Text, Bytes, codes}

-- The unit separator.
abbrev pub us : ℕ
us = 0x1f

-- The markers are ASCII, so their bytes are their characters.
pub record Markers : Type 0 where
  pub start : Bytes
  pub end : Bytes

unfoldable pub new_markers : Text → Markers
new_markers token = record {
  start = codes "__EXECKIT_" ++ (token ++ codes "__");
  end = codes "__EXECKITEND_" ++ (token ++ codes "__");
}
