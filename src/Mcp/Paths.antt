-- ===== src/Mcp/Paths.antt =====
-- crates/execkit-mcp/src/paths.rs: the default places of files. A path is its text; `join` is `Path`'s.
use execkit.Base.{Bool, ◌∷◌, ◌++◌, Option, none, some, is_empty, if◌then◌else◌, ◌||◌}
use execkit.Text.Chars.{Text, codes, begins_with, ends_with}

abbrev pub FilePath : Type 0
FilePath = Text

-- On Unix a path is absolute if it begins with `/`.
abbrev pub is_absolute : FilePath → Bool
is_absolute = begins_with b'/'

-- `Path::join`: an absolute path replaces the directory, and one separator stands between the two.
unfoldable pub join : FilePath → FilePath → FilePath
join dir p =
    if is_absolute p
    then p
    else if is_empty dir || ends_with b'/' dir
    then dir ++ p
    else dir ++ b'/' ∷ p

abbrev nonempty : Option FilePath → Option FilePath
nonempty none = none
nonempty (some p) = if is_empty p then none else some p

-- `found` is what the `home` crate finds.
unfoldable pub home_dir : Option FilePath → FilePath
home_dir found = elim (nonempty found) [ none ↦ codes "/root" | some p ↦ p ]

unfoldable pub ssh_dir : Option FilePath → FilePath
unfolding home_dir join
ssh_dir found = join (home_dir found) (codes ".ssh")

unfoldable pub default_known_hosts_path : Option FilePath → FilePath
unfolding home_dir join
default_known_hosts_path found =
    join (join (home_dir found) (codes ".execkit")) (codes "known_hosts")

unfoldable pub default_web_audit_path : Option FilePath → FilePath
unfolding home_dir join
default_web_audit_path found = join (join (home_dir found) (codes ".execkit")) (codes "watch.jsonl")

unfoldable pub default_web_token_path : Option FilePath → FilePath
unfolding home_dir join
default_web_token_path found = join (join (home_dir found) (codes ".execkit")) (codes "watch-token")

unfoldable pub default_viewer_state_path : Option FilePath → FilePath
unfolding home_dir join
default_viewer_state_path found =
    join (join (home_dir found) (codes ".execkit")) (codes "viewer-state.json")
