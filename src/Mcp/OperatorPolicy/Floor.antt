-- ===== src/Mcp/OperatorPolicy/Floor.antt =====
-- The operator's policy is a floor: what it lets through, the names' policy lets through too.
use execkit.Base.{Bool, true, false, ◌≡◌, refl, ◌↔◌, List, [], ◌∷◌, any, all, Bool-cases, inl, inr}
use execkit.Text.Chars.{Text}
use execkit.Policy.{Verdict, check, dangerous_rules, programs}
use execkit.Policy.Laws.{may_run, check_iff}
use execkit.Mcp.OperatorPolicy.{OperatorPolicy, check_patterns, operator_check}

check_patterns_iff :
    (is_match : Text → Text → Bool) (command : Text) (ps : List Text) (rest : Verdict)
    → (check_patterns is_match command ps rest ≡ Verdict.allowed)
      ↔ ((any (λ p. is_match p command) ps ≡ false) × (rest ≡ Verdict.allowed))
unfolding check_patterns
check_patterns_iff is_match command [] rest = (λ e. (refl, e), λ e. e.1)
check_patterns_iff is_match command (p ∷ ps) rest = elim (Bool-cases (is_match p command)) [
  | inl m ↦ rw m (λ e. cc, λ e. cc)
  | inr m ↦ rw m (check_patterns_iff is_match command ps rest)
]

-- A command passes the operator's policy exactly when none of the operator's patterns and no dangerous
-- pattern matches it, and each of its programs is off the deny list and, where the allow list is not
-- empty, on it.
pub operator_check_iff :
    (is_match : Text → Text → Bool) (p : OperatorPolicy) (command : Text)
    → (operator_check is_match p command ≡ Verdict.allowed) ↔ (
        (any (λ re. is_match re command) p.deny_patterns ≡ false)
        × (any (λ rule. is_match rule.re command) dangerous_rules ≡ false)
        × (all (may_run p.names) (programs command) ≡ true))
unfolding operator_check
operator_check_iff is_match p command =
    let patterns =
      check_patterns_iff is_match command p.deny_patterns (check is_match p.names command) in
    let names = check_iff is_match p.names command in
    (
      λ e.
          let (none_hit, passed) = patterns.0 e in
          let (safe, may) = names.0 passed in (none_hit, safe, may),
      λ (none_hit, safe, may). patterns.1 (none_hit, names.1 (safe, may)),
    )
