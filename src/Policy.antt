-- ===== src/Policy.antt =====
-- crates/execkit/src/policy.rs: the advisory fence over commands. The regex engine is the `regex`
-- crate's: `is_match` takes a pattern and a text.
pub mod Laws
use execkit.Base.{
  ℕ, Bool, true, false, not, ◌&&◌, ◌||◌, ◌==◌, List, [], ◌∷◌, ◌++◌, Option, none, some, is_empty,
  if◌then◌else◌,
}
use execkit.Text.Chars.{Text, codes, contains_char, mem_text}
use execkit.Text.Split.{split, split_whitespace, after_last}

pub record DangerousRule : Type 0 where
  pub re : Text
  pub label : Text

abbrev pub dangerous_rules : List DangerousRule
dangerous_rules =
    record { re = codes "\\brm\\s+-[a-z]*f"; label = codes "rm -rf" }
    ∷ record { re = codes "\\bdd\\b"; label = codes "dd" }
    ∷ record { re = codes "\\bmkfs"; label = codes "mkfs" }
    ∷ record { re = codes "\\bshutdown\\b"; label = codes "shutdown" }
    ∷ record { re = codes "\\breboot\\b"; label = codes "reboot" }
    ∷ record {
      re = codes "(curl|wget)[^|]*\\|\\s*(sh|bash)";
      label = codes "curl/wget piped to a shell";
    }
    ∷ []

pub record Policy : Type 0 where
  pub allow : List Text
  pub deny : List Text

-- `Result<(), String>`.
pub data Verdict : Type 0 where
  allowed : Verdict
  blocked : Text → Verdict

abbrev find_program : List Text → Option Text
find_program [] = none
find_program (t ∷ ts) = if contains_char b'=' t then find_program ts else some t

abbrev is_segment_end : ℕ → Bool
is_segment_end c = c == b';' || c == b'|' || c == b'&' || c == b'\n'

abbrev programs_of : List Text → List Text
programs_of [] = []
programs_of (seg ∷ segs) = elim (find_program (split_whitespace seg)) [
  | none ↦ programs_of segs
  | some t ↦ after_last b'/' t ∷ programs_of segs
]

unfoldable pub programs : Text → List Text
programs command = programs_of (split is_segment_end command)

-- The two loops of `check`, in their order.
abbrev pub check_rules : (Text → Text → Bool) → Text → List DangerousRule → Verdict → Verdict
check_rules is_match command [] rest = rest
check_rules is_match command (rule ∷ rules) rest =
    if is_match rule.re command
    then Verdict.blocked (codes "dangerous pattern blocked: " ++ rule.label)
    else check_rules is_match command rules rest

abbrev pub check_programs : Policy → List Text → Verdict
check_programs p [] = Verdict.allowed
check_programs p (prog ∷ progs) =
    if mem_text prog p.deny
    then Verdict.blocked (codes "'" ++ (prog ++ codes "' is denylisted"))
    else if not (is_empty p.allow) && not (mem_text prog p.allow)
    then Verdict.blocked (codes "'" ++ (prog ++ codes "' not in allowlist"))
    else check_programs p progs

unfoldable pub check : (Text → Text → Bool) → Policy → Text → Verdict
check is_match p command =
    check_rules is_match command dangerous_rules (check_programs p (programs command))
