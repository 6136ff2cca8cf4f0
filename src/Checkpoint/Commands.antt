-- ===== src/Checkpoint/Commands.antt =====
-- The `Checkpointer` of crates/execkit/src/checkpoint.rs and its command lines.
pub mod Excludes
use execkit.Base.{
  Bool, true, false, List, [], ◌∷◌, ◌++◌, Option, none, some, map, is_empty, if◌then◌else◌,
}
use execkit.Text.Chars.{Text, codes}
use execkit.Text.Split.{join}
use execkit.Checkpoint.Quote.{shq}

-- Written before the user's patterns.
abbrev pub build_ignores : List Text
build_ignores =
    codes ".git"
    ∷ codes "node_modules"
    ∷ codes "target"
    ∷ codes ".venv"
    ∷ codes "__pycache__"
    ∷ codes ".mypy_cache"
    ∷ codes "dist"
    ∷ codes "build"
    ∷ []

-- Written after them.
abbrev pub secret_ignores : List Text
secret_ignores =
    codes ".cache"
    ∷ codes ".ssh"
    ∷ codes ".gnupg"
    ∷ codes ".aws"
    ∷ codes ".netrc"
    ∷ codes ".execkit"
    ∷ codes ".env"
    ∷ codes ".env.*"
    ∷ codes "*.pem"
    ∷ codes "*.key"
    ∷ codes "id_rsa*"
    ∷ codes "id_ed25519*"
    ∷ []

pub record Checkpointer : Type 0 where
  pub token : Text
  pub auto : Bool
  pub workspace : Option Text
  pub paths : List Text
  pub ignores : List Text
  pub root : Option Text
  pub initialized : Bool
  pub git_unavailable : Bool
  pub last : Option Text

-- The token is hex: the code asserts it in debug builds.
unfoldable pub new : Text → Bool → Option Text → List Text → Checkpointer
new token auto workspace paths = record {
  token = token;
  auto = auto;
  workspace = workspace;
  paths = if is_empty paths then codes "." ∷ [] else paths;
  ignores = [];
  root = none;
  initialized = false;
  git_unavailable = false;
  last = none;
}

unfoldable pub git_dir : Checkpointer → Text
git_dir cp = codes "\"$HOME/.execkit/ckpt-" ++ (cp.token ++ codes ".git\"")

unfoldable pub shadow_repo_name : Checkpointer → Text
shadow_repo_name cp = codes "ckpt-" ++ (cp.token ++ codes ".git")

unfoldable pub pathspec : Checkpointer → Text
pathspec cp = join (codes " ") (map shq cp.paths)

unfoldable pub git : Checkpointer → Text → Text
git cp root =
    codes "git -C "
    ++ (shq root ++ (codes " --git-dir=" ++ (git_dir cp ++ (codes " --work-tree=" ++ shq root))))

-- The patterns in the order in which they are written.
abbrev pub exclude_patterns : Checkpointer → List Text
exclude_patterns cp = build_ignores ++ (cp.ignores ++ secret_ignores)

unfoldable pub init_cmd : Checkpointer → Text → Text
init_cmd cp root =
    codes "mkdir -p \"$HOME/.execkit\" && "
    ++ (git cp root
        ++ (codes " init -q && printf '%s\\n' "
            ++ (shq (join (codes "\n") (exclude_patterns cp))
                ++ (codes " > " ++ (git_dir cp ++ codes "/info/exclude")))))

unfoldable pub snapshot_cmd : Checkpointer → Text → Text → Text
snapshot_cmd cp root label =
    git cp root
    ++ (codes " add -- "
        ++ (pathspec cp
            ++ (codes "; "
                ++ (git cp root
                    ++ (codes
                          " -c user.email=execkit@local -c user.name=execkit commit -q --allow-empty -m "
                        ++ (shq label
                            ++ (codes " && " ++ (git cp root ++ codes " rev-parse HEAD"))))))))

unfoldable pub restore_cmd : Checkpointer → Text → Text → Text
restore_cmd cp root id =
    git cp root
    ++ (codes " checkout --no-overlay "
        ++ (shq id
            ++ (codes " -- "
                ++ (pathspec cp
                    ++ (codes " && "
                        ++ (git cp root ++ (codes " clean -fdq -- " ++ pathspec cp)))))))

unfoldable pub list_cmd : Checkpointer → Text → Text
list_cmd cp root = git cp root ++ codes " log --format='%H %ct %s'"

unfoldable pub set_ignores : Checkpointer → List Text → Checkpointer
set_ignores cp ignores = record cp { ignores = ignores }

unfoldable pub set_paths : Checkpointer → List Text → Checkpointer
set_paths cp paths = record cp { paths = paths }

unfoldable pub cleanup_cmd : Checkpointer → Text
cleanup_cmd cp = codes "rm -rf " ++ git_dir cp

unfoldable pub diff_count_cmd : Checkpointer → Text → Text → Text
diff_count_cmd cp root id =
    git cp root
    ++ (codes " diff --name-only "
        ++ (shq id ++ (codes " -- " ++ (pathspec cp ++ codes " | wc -l"))))
