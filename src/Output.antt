-- ===== src/Output.antt =====
-- crates/execkit/src/output.rs: escape stripping, control stripping, and bounded output.
pub mod Clean
pub mod Bound
use execkit.Base.{
  ℕ, zero, suc, ◌+◌, ◌-◌, ◌*◌, ◌/◌, Bool, true, false, ◌||◌, List, [], ◌∷◌, ◌++◌, ltb, leb, within,
  ◌==◌, filter, length, take, drop, if◌then◌else◌,
}
use execkit.Text.Chars.{Text, Bytes, codes}
use execkit.Text.Split.{trim_matches}
use execkit.Text.Utf8.{as_bytes, from_utf8_lossy}
use execkit.Text.Decimal.{decimal}

-- Where the scan of `strip_ansi` stands: in text, behind an ESC, in a CSI or an OSC sequence, or
-- behind an ESC in an OSC sequence.
pub data Scan : Type 0 where
  plain escape csi osc osc_escape : Scan

-- The loop over `i`, one byte at a time. In an OSC sequence an ESC ends it if `\` follows; another
-- byte behind the ESC is read as one of the sequence.
unfoldable pub strip_bytes : Scan → Bytes → Bytes
strip_bytes plain [] = []
strip_bytes escape [] = []
strip_bytes csi [] = []
strip_bytes osc [] = []
strip_bytes osc_escape [] = []
strip_bytes plain (b ∷ bs) =
    let text = strip_bytes plain bs in
    let esc = strip_bytes escape bs in if b == 0x1b then esc else b ∷ text
strip_bytes escape (b ∷ bs) =
    strip_bytes (if b == b'[' then csi else if b == b']' then osc else plain) bs
strip_bytes csi (b ∷ bs) = strip_bytes (if within 0x40 0x7e b then plain else csi) bs
strip_bytes osc (b ∷ bs) =
    strip_bytes (if b == 0x07 then plain else if b == 0x1b then osc_escape else osc) bs
strip_bytes osc_escape (b ∷ bs) =
    strip_bytes
      (if b == b'\\'
        then plain
        else if b == 0x07
        then plain
        else if b == 0x1b
        then osc_escape
        else osc)
      bs

unfoldable pub strip_ansi : Text → Text
unfolding strip_bytes as_bytes from_utf8_lossy
strip_ansi s = from_utf8_lossy (strip_bytes plain (as_bytes s))

abbrev pub is_kept : ℕ → Bool
is_kept c = c == b'\n' || c == b'\t' || leb 0x20 c

unfoldable pub clean : Text → Text
unfolding strip_ansi trim_matches
clean s = trim_matches (λ c. c == b'\n') (filter is_kept (strip_ansi s))

-- The text, and whether it was cut.
unfoldable pub bound : Text → ℕ → Text × Bool
bound chars max =
    if leb (length chars) max then (chars, false) else if ltb max 2 then ([], true) else (
      take (max / 2) chars
          ++ (codes "\n... "
              ++ (decimal (length chars - 2 * (max / 2))
                  ++ (codes " chars elided ...\n" ++ drop (length chars - max / 2) chars))),
      true,
    )
