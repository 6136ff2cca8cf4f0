-- ===== src/Mcp/OperatorPolicy.antt =====
-- crates/execkit-mcp/src/policy.rs: the operator's policy. Reading the file and its JSON is left to the
-- caller, which gives the parsed record; `compile` is the regex crate's.
pub mod Floor
use execkit.Base.{
  ℕ, Bool, List, [], ◌∷◌, ◌++◌, Option, none, some, length, if◌then◌else◌, ◌⊎◌, inl, inr,
}
use execkit.Text.Chars.{Text, codes}
use execkit.Policy.{Policy, Verdict, check}

pub record PolicyFile : Type 0 where
  pub allow : List Text
  pub deny : List Text
  pub deny_patterns : List Text

pub record OperatorPolicy : Type 0 where
  pub names : Policy
  pub deny_patterns : List Text

unfoldable pub empty : OperatorPolicy
empty = record { names = record { allow = []; deny = [] }; deny_patterns = [] }

-- The first pattern that does not compile is the error.
abbrev pub bad_pattern : (Text → Bool) → List Text → Option Text
bad_pattern compiles [] = none
bad_pattern compiles (p ∷ ps) = if compiles p then bad_pattern compiles ps else some p

-- `from_file`, behind the read and the parse.
unfoldable pub from_file : (Text → Bool) → PolicyFile → OperatorPolicy ⊎ Text
from_file compiles pf = elim (bad_pattern compiles pf.deny_patterns) [
  | none ↦ inl (record {
    names = record { allow = pf.allow; deny = pf.deny };
    deny_patterns = pf.deny_patterns;
  })
  | some p ↦ inr (codes "invalid deny_pattern /" ++ (p ++ codes "/"))
]

-- The deny patterns first.
unfoldable pub check_patterns : (Text → Text → Bool) → Text → List Text → Verdict → Verdict
check_patterns is_match command [] rest = rest
check_patterns is_match command (p ∷ ps) rest =
    let more = check_patterns is_match command ps rest in
    if is_match p command
    then Verdict.blocked (codes "matched deny pattern /" ++ (p ++ codes "/"))
    else more

unfoldable pub operator_check : (Text → Text → Bool) → OperatorPolicy → Text → Verdict
operator_check is_match p command =
    check_patterns is_match command p.deny_patterns (check is_match p.names command)

unfoldable pub counts : OperatorPolicy → ℕ × ℕ × ℕ
counts p = (length p.names.allow, length p.names.deny, length p.deny_patterns)
