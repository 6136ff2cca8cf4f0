-- ===== src/Checkpoint/ReadOnly.antt =====
-- `is_read_only` of crates/execkit/src/checkpoint.rs.
pub mod Parts
pub mod Word
use execkit.Base.{
  ℕ, Bool, true, false, not, ◌&&◌, ◌||◌, ◌==◌, List, [], ◌∷◌, is_empty, all, map, if◌then◌else◌,
}
use execkit.Text.Chars.{Text, codes, contains_char, contains_text, mem_text}
use execkit.Text.Split.{split, split_whitespace, trim, after_last}

abbrev pub read_only : List Text
read_only =
    codes "ls"
    ∷ codes "cat"
    ∷ codes "head"
    ∷ codes "tail"
    ∷ codes "grep"
    ∷ codes "egrep"
    ∷ codes "fgrep"
    ∷ codes "pwd"
    ∷ codes "echo"
    ∷ codes "printf"
    ∷ codes "which"
    ∷ codes "whoami"
    ∷ codes "id"
    ∷ codes "hostname"
    ∷ codes "uname"
    ∷ codes "date"
    ∷ codes "stat"
    ∷ codes "file"
    ∷ codes "wc"
    ∷ codes "cut"
    ∷ codes "ps"
    ∷ codes "df"
    ∷ codes "du"
    ∷ codes "free"
    ∷ codes "uptime"
    ∷ []

-- What can write, or hide a write or an execution.
abbrev pub can_hide : Text → Bool
can_hide command =
    contains_char b'>' command
    || contains_text (codes "$(") command
    || contains_char b'`' command
    || contains_text (codes "<(") command

abbrev pub is_separator : ℕ → Bool
is_separator c = c == b'|' || c == b';' || c == b'&' || c == b'\n' || c == b'\r'

abbrev pub first_or_empty : List Text → Text
first_or_empty [] = []
first_or_empty (w ∷ ws) = w

abbrev pub is_read_only_segment : Text → Bool
is_read_only_segment seg =
    let seg' = trim seg in
    is_empty seg' || mem_text (after_last b'/' (first_or_empty (split_whitespace seg'))) read_only

abbrev pub read_only_segments : List Text → Bool
read_only_segments [] = true
read_only_segments (seg ∷ segs) =
    if is_read_only_segment seg then read_only_segments segs else false

unfoldable pub is_read_only : Text → Bool
is_read_only command =
    if can_hide command then false else read_only_segments (split is_separator command)
