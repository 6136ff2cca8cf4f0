-- ===== src/Policy/Laws.antt =====
-- Which commands the policy of crates/execkit/src/policy.rs lets through.
use execkit.Base.{
  Bool, true, false, not, ◌&&◌, ◌||◌, ◌≡◌, refl, ◌↔◌, List, [], ◌∷◌, is_empty, any, all, Bool-cases,
  inl, inr,
}
use execkit.Text.Chars.{Text, mem_text}
use execkit.Policy.{
  DangerousRule, Policy, Verdict, dangerous_rules, programs, check_rules, check_programs, check,
}

abbrev pub may_run : Policy → Text → Bool
may_run p prog = not (mem_text prog p.deny) && (is_empty p.allow || mem_text prog p.allow)

check_programs_iff :
    (p : Policy) (progs : List Text)
    → (check_programs p progs ≡ Verdict.allowed) ↔ (all (may_run p) progs ≡ true)
check_programs_iff p [] = (λ e. refl, λ e. refl)
check_programs_iff p (prog ∷ progs) =
    let ih = check_programs_iff p progs in
    elim (Bool-cases (mem_text prog p.deny)) [
      | inl d ↦ rw d (λ e. cc, λ e. cc)
      | inr d ↦ elim (Bool-cases (is_empty p.allow)) [
        | inl a ↦ rw (d, a) ih
        | inr a ↦ elim (Bool-cases (mem_text prog p.allow)) [
          | inl m ↦ rw (d, a, m) ih
          | inr m ↦ rw (d, a, m) (λ e. cc, λ e. cc)
        ]
      ]
    ]

check_rules_iff :
    (is_match : Text → Text → Bool) (command : Text) (rules : List DangerousRule) (rest : Verdict)
    → (check_rules is_match command rules rest ≡ Verdict.allowed)
      ↔ ((any (λ rule. is_match rule.re command) rules ≡ false) × (rest ≡ Verdict.allowed))
check_rules_iff is_match command [] rest = (λ e. (refl, e), λ e. e.1)
check_rules_iff is_match command (rule ∷ rules) rest =
    let ih = check_rules_iff is_match command rules rest in
    elim (Bool-cases (is_match rule.re command)) [
      | inl m ↦ rw m (λ e. cc, λ e. cc)
      | inr m ↦ rw m ih
    ]

-- A command passes the policy exactly when no dangerous pattern matches it and each of its programs is
-- off the deny list and, where the allow list is not empty, on it.
pub check_iff :
    (is_match : Text → Text → Bool) (p : Policy) (command : Text)
    → (check is_match p command ≡ Verdict.allowed) ↔ (
        (any (λ rule. is_match rule.re command) dangerous_rules ≡ false)
        × (all (may_run p) (programs command) ≡ true))
unfolding check
check_iff is_match p command =
    let rules =
      check_rules_iff is_match command dangerous_rules (check_programs p (programs command)) in
    let progs = check_programs_iff p (programs command) in
    (λ e. let (r, c) = rules.0 e in (r, progs.0 c), λ (r, c). rules.1 (r, progs.1 c))
