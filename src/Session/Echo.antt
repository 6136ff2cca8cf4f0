-- ===== src/Session/Echo.antt =====
-- The command that a result of crates/execkit/src/session.rs echoes is redacted with all that the
-- session has learned, also from this command.
use execkit.Base.{ℕ, Bool, true, false, ◌≡◌, refl, ap, Option, none, some, if◌then◌else◌}
use execkit.Text.Chars.{Text}
use execkit.Error.{Error, Result, ok, err}
use execkit.Budget.Builders.{Budget}
use execkit.Budget.Apply.{Shaped, apply}
use execkit.Session.Channel.{Framed}
use execkit.Session.State.{Session, Env, Outcome, run_framed_for, next_reply, default_acc_cap}
use execkit.Session.Checkpoints.{maybe_auto_snapshot}
use execkit.Session.Kept.{run_framed_for-Keeps, maybe_auto_snapshot-Keeps}
use execkit.Session.Exec.{
  ExecOutcome, exec_inner, exec_with_timeout, run_and_shape, finish, guarded, and_shaped,
  grep_guard, policy_guard, or_default, is_default, budget_acc_cap,
}

module _ {R : Type 0} (env : Env R) (command : Text) (r : R) where
  -- A result, where there is one, echoes the command as this redactor gives it, which is the session's
  -- afterwards.
  abbrev pub EchoesWith : ExecOutcome R → Type 0
  EchoesWith (s, none) = Unit {0}
  EchoesWith (s, some (err e)) = Unit {0}
  EchoesWith (s, some (ok result)) = (result.command ≡ env.redact r command) × (s.redactor ≡ r)

  EchoesWith-and_shaped :
      (s : Session R) (o : Option (Result Shaped)) (f : Shaped → ExecOutcome R)
      → ((x : Shaped) → EchoesWith (f x))
      → EchoesWith (and_shaped env s o f)
  EchoesWith-and_shaped s none f k = tt
  EchoesWith-and_shaped s (some (err e)) f k = tt
  EchoesWith-and_shaped s (some (ok x)) f k = k x

  finish-EchoesWith :
      (b : Budget) (elapsed : ℕ) (o : Outcome R Framed)
      → o.0.redactor ≡ r
      → EchoesWith (finish env command b elapsed o)
  finish-EchoesWith b elapsed (s, err e) h = tt
  finish-EchoesWith b elapsed (s, ok f) h =
      EchoesWith-and_shaped s (apply env.build (env.redact s.redactor f.stdout) b s.max_output) _
        (λ out.
          EchoesWith-and_shaped s (apply env.build (env.redact s.redactor f.stderr) b s.max_output)
            _ (λ errs. (ap (λ q. env.redact q command) h, h)))

  EchoesWith-guarded :
      (s : Session R) (g : Result (Unit {0})) (rest : ExecOutcome R)
      → EchoesWith rest
      → EchoesWith (guarded env s g rest)
  EchoesWith-guarded s (ok u) rest k = k
  EchoesWith-guarded s (err e) rest k = tt

  EchoesWith-unless :
      (s : Session R) (b : Bool) (rest : ExecOutcome R)
      → EchoesWith rest
      → EchoesWith (if b then (s, some (err Error.session_poisoned)) else rest)
  EchoesWith-unless s true rest k = tt
  EchoesWith-unless s false rest k = k

  run_and_shape-EchoesWith :
      (s : Session R) (b : Budget) (timeout : ℕ)
      → s.redactor ≡ r
      → EchoesWith (run_and_shape env s command b timeout)
  unfolding run_and_shape
  run_and_shape-EchoesWith s b timeout h =
      let s' = maybe_auto_snapshot env s command in
      let cap = if is_default b then default_acc_cap s' else budget_acc_cap in
      EchoesWith-unless s' s'.poisoned _ (
        finish-EchoesWith b (next_reply s'.replies).0.elapsed_ms
          (run_framed_for env s' command timeout cap)
          (run_framed_for-Keeps env r s' command timeout cap
            (maybe_auto_snapshot-Keeps env r s command h)))

module _ {R : Type 0} (env : Env R) (command : Text) where
  -- The redactor that the session has before the call, once it has learned from the command.
  abbrev pub learned : Session R → R
  learned s = env.learn_from_command s.redactor command

  abbrev pub Echoes : Session R → ExecOutcome R → Type 0
  Echoes s = EchoesWith env command (learned s)

  exec_inner-Echoes :
      (s : Session R) (b : Budget) (timeout : ℕ) → Echoes s (exec_inner env s command b timeout)
  unfolding exec_inner
  exec_inner-Echoes s b timeout =
      let s' = record s { redactor = learned s } in
      EchoesWith-unless env command (learned s) s s.poisoned _ (
        EchoesWith-guarded env command (learned s) s' (grep_guard env b.grep) _ (
          EchoesWith-guarded env command (learned s) s' (policy_guard env s'.policy command) _
            (run_and_shape-EchoesWith env command (learned s) s' b timeout refl)))

-- Whatever the transport does: a result that an execution returns echoes the command as the redactor
-- gives it that the session had before the call and that has learned from this command, and this is the
-- session's redactor after the call.
pub exec_with_timeout-Echoes :
    {R : Type 0} (env : Env R) (command : Text) (s : Session R) (b : Option Budget) (timeout : ℕ)
    → Echoes env command s (exec_with_timeout env s command b timeout)
unfolding exec_with_timeout
exec_with_timeout-Echoes env command s (some b) timeout = exec_inner-Echoes env command s b timeout
exec_with_timeout-Echoes env command s none timeout =
    exec_inner-Echoes env command s (or_default s.output_budget) timeout
