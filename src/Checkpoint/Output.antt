-- ===== src/Checkpoint/Output.antt =====
-- `Checkpoint`, `parse_sha` and `parse_log` of crates/execkit/src/checkpoint.rs.
pub mod Log
use execkit.Base.{
  ℕ, Bool, not, ◌||◌, ◌==◌, List, [], ◌∷◌, ◌++◌, Option, none, some, length, all, if◌then◌else◌,
}
use execkit.Text.Chars.{Text, codes, is_ascii_hexdigit}
use execkit.Text.Split.{split_whitespace, splitn, lines, trim}
use execkit.Text.Utf8.{as_bytes}

pub record Checkpoint : Type 0 where
  pub id : Text
  pub label : Text
  pub created : Text

unfoldable pub parse_sha : Text → Option Text
parse_sha out = elim (split_whitespace out) [ [] ↦ none | w ∷ ws ↦ some w ]

abbrev pub or_empty : List Text → Text
or_empty [] = []
or_empty (w ∷ ws) = w

abbrev pub rest_of : List Text → List Text
rest_of [] = []
rest_of (w ∷ ws) = ws

-- The entry of one line, from its pieces.
abbrev pub entry_of : List Text → Option Checkpoint
entry_of [] = none
entry_of (piece ∷ pieces) =
    let id = trim piece in
    let bytes = as_bytes id in
    if not (length bytes == 40) || not (all is_ascii_hexdigit bytes)
    then none
    else some (record { id = id; label = or_empty (rest_of pieces); created = or_empty pieces })

abbrev pub push_entry : Option Checkpoint → List Checkpoint → List Checkpoint
push_entry none cs = cs
push_entry (some c) cs = c ∷ cs

abbrev pub entries : List Text → List Checkpoint
entries [] = []
entries (line ∷ ls) = push_entry (entry_of (splitn 3 b' ' line)) (entries ls)

unfoldable pub parse_log : Text → List Checkpoint
parse_log out = entries (lines out)
