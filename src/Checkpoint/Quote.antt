-- ===== src/Checkpoint/Quote.antt =====
-- `shq` of crates/execkit/src/checkpoint.rs.
pub mod Word
use execkit.Base.{ℕ, ◌==◌, List, [], ◌∷◌, ◌++◌, if◌then◌else◌}
use execkit.Text.Chars.{Text, codes}

-- `s.replace('\'', "'\\''")`.
unfoldable pub escape_quotes : Text → Text
escape_quotes [] = []
escape_quotes (c ∷ cs) =
    if c == b'\'' then codes "'\\''" ++ escape_quotes cs else c ∷ escape_quotes cs

unfoldable pub shq : Text → Text
shq s = b'\'' ∷ (escape_quotes s ++ (b'\'' ∷ []))
