-- ===== src/Session/State.antt =====
-- The `Session` of crates/execkit/src/session.rs, its builders, and how it runs a framed command.
-- The redactor (crates/execkit/src/redact.rs) is a part of the environment, with its state in `R`.
use execkit.Base.{
  ℕ, ◌*◌, ◌^◌, ◌-◌, max, min, Bool, true, false, ◌||◌, List, [], ◌∷◌, ◌++◌, Option, none, some,
  is_empty, if◌then◌else◌, ◌⊎◌,
}
use execkit.Text.Chars.{Text, Bytes, codes}
use execkit.Text.Decimal.{ℤ}
use execkit.Error.{Error, Result, ok, err}
use execkit.Policy.{Policy}
use execkit.Budget.Builders.{Budget}
use execkit.Budget.Apply.{BudgetReport}
use execkit.Checkpoint.Commands.{Checkpointer, new, set_ignores, set_paths, shadow_repo_name}
use execkit.Session.Channel.{Reply, Framed, run_command, silent}

-- `ExecResult` of crates/execkit/src/exec.rs.
pub record ExecResult : Type 0 where
  pub command : Text
  pub stdout : Text
  pub stderr : Text
  pub exit_code : ℤ
  pub duration_ms : ℕ
  pub cwd : Text
  pub truncated : Bool
  pub budget : Option BudgetReport
  pub timed_out : Bool

-- The `regex` crate's matcher and builder, the printed form of a duration, and the redactor.
pub record Env (R : Type 0) : Type 0 where
  pub is_match : Text → Text → Bool
  pub build : Text → ℕ → (Text → Bool) ⊎ Text
  pub seconds : ℕ → Text
  pub learn_from_command : R → Text → R
  pub redact : R → Text → Text
  pub redact_command : R → Text → Text

-- `replies` is what the transport will do for the next commands, `written` what it was given so far;
-- `audited` are the results handed to the audit log.
pub record Session (R : Type 0) : Type 0 where
  pub replies : List Reply
  pub written : List Bytes
  pub policy : Option Policy
  pub audit : Option Text
  pub audited : List ExecResult
  pub timeout : ℕ
  pub max_output : ℕ
  pub output_budget : Option Budget
  pub poisoned : Bool
  pub checkpointer : Option Checkpointer
  pub redactor : R

-- A channel without a further reply is silent.
abbrev pub next_reply : List Reply → Reply × List Reply
next_reply [] = (silent, [])
next_reply (r ∷ rs) = (r, rs)

-- An operation's effect: the session after it, and its result.
abbrev pub Outcome : Type 0 → Type 0 → Type 0
Outcome R A = Session R × Result A

infixl 5 ◌&→◌
-- `?`: the rest of an operation, where it has not returned early.
abbrev pub ◌&→◌ : {R A B : Type 0} → Outcome R A → (Session R → A → Outcome R B) → Outcome R B
(s, ok a) &→ f = f s a
(s, err e) &→ f = (s, err e)

module _ {R : Type 0} where
  -- `from_transport`, behind the readiness handshake. Durations are milliseconds.
  unfoldable pub from_transport : List Reply → Bool → Text → R → Session R
  from_transport replies remote token redactor = record {
    replies = replies;
    written = [];
    policy = none;
    audit = none;
    audited = [];
    timeout = 30000;
    max_output = 100000;
    output_budget = none;
    poisoned = false;
    checkpointer = if remote then some (new token true none (codes "." ∷ [])) else none;
    redactor = redactor;
  }

  unfoldable pub with_policy : Session R → Policy → Session R
  with_policy s policy = record s { policy = some policy }

  unfoldable pub with_audit : Session R → Text → Session R
  with_audit s path = record s { audit = some path }

  unfoldable pub with_timeout : Session R → ℕ → Session R
  with_timeout s timeout = record s { timeout = timeout }

  unfoldable pub set_timeout : Session R → ℕ → Session R
  set_timeout s timeout = record s { timeout = timeout }

  unfoldable pub with_max_output : Session R → ℕ → Session R
  with_max_output s n = record s { max_output = n }

  unfoldable pub with_output_budget : Session R → Budget → Session R
  with_output_budget s budget = record s { output_budget = some budget }

  -- A change of the checkpointer, where there is one.
  abbrev pub on_checkpointer : (Checkpointer → Checkpointer) → Session R → Session R
  on_checkpointer f s = record s {
    checkpointer = elim s.checkpointer [ none ↦ none | some cp ↦ some (f cp) ];
  }

  unfoldable pub with_auto_snapshot : Session R → Bool → Session R
  with_auto_snapshot s on = on_checkpointer (λ cp. record cp { auto = on }) s

  unfoldable pub with_workspace : Session R → Text → Session R
  with_workspace s root = on_checkpointer (λ cp. record cp { workspace = some root }) s

  unfoldable pub with_checkpoint_paths : Session R → List Text → Session R
  with_checkpoint_paths s paths =
      on_checkpointer (λ cp. if is_empty paths then cp else set_paths cp paths) s

  unfoldable pub with_checkpoint_ignores : Session R → List Text → Session R
  with_checkpoint_ignores s ignores = on_checkpointer (λ cp. set_ignores cp ignores) s

  unfoldable pub is_poisoned : Session R → Bool
  is_poisoned s = s.poisoned

  unfoldable pub checkpoint_shadow_repo_name : Session R → Option Text
  checkpoint_shadow_repo_name s = elim s.checkpointer [
    | none ↦ none
    | some cp ↦ some (shadow_repo_name cp)
  ]

  -- `usize` arithmetic: the product saturates.
  unfoldable pub default_acc_cap : Session R → ℕ
  default_acc_cap s = max (min (s.max_output * 2) (2 ^ 64 - 1)) 65536

  unfoldable pub run_framed_for : Env R → Session R → Text → ℕ → ℕ → Outcome R Framed
  run_framed_for env s command timeout acc_cap =
      let (r, rest) = next_reply s.replies in
      let ran = run_command (env.seconds timeout) command acc_cap r in
      (
        record s {
          replies = rest;
          written = s.written ++ ran.written;
          poisoned = s.poisoned || ran.poisons;
        },
        ran.result,
      )

  unfoldable pub run_framed : Env R → Session R → Text → Outcome R Framed
  run_framed env s command = run_framed_for env s command s.timeout (default_acc_cap s) &→ λ s' f. (
    s',
    if f.timed_out
        then err (
            Error.transport (
              codes "internal command timed out after "
              ++ (env.seconds s.timeout ++ codes "s and was interrupted")))
        else ok f,
  )
