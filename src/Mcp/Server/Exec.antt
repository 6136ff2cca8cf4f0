-- ===== src/Mcp/Server/Exec.antt =====
-- `session_exec` of crates/execkit-mcp/src/main.rs. The notifications to the client change nothing in
-- the server and are left out.
pub mod Settled
use execkit.Base.{
  ℕ, ◌*◌, Bool, true, false, ◌&&◌, List, [], ◌++◌, Option, none, some, if◌then◌else◌,
}
use execkit.Text.Chars.{Text, codes}
use execkit.Error.{Error, Result, ok, err, to_string}
use execkit.Policy.{Verdict}
use execkit.Budget.Builders.{Budget}
use execkit.Session.State.{Session, Env, ExecResult}
use execkit.Session.Exec.{ExecOutcome, exec_with_timeout, redact_command}
use execkit.Mcp.Params.{
  ExecParams, BudgetParams, Config, Checked, good, bad, unwrap_or, clamp, to_budget,
}
use execkit.Mcp.OperatorPolicy.{OperatorPolicy, operator_check}
use execkit.Mcp.Audit.{AuditEvent, exec_of}
use execkit.Mcp.Server.{SessionEntry, Server, get, unregister, release, update}
use execkit.Mcp.Server.Handlers.{
  Response, Handled, executed, tool_error, protocol_error, record_event, with_session, touch,
  closed, put_session,
}

-- The budget of a call, where it gives one.
abbrev pub budget_of : Option BudgetParams → Checked (Option Budget)
budget_of none = good none
budget_of (some bp) = elim (to_budget bp) [ good b ↦ good (some b) | bad e ↦ bad e ]

unfoldable pub timeout_of : Option ℕ → ℕ → ℕ
timeout_of timeout_secs exec_timeout_secs = clamp 1 3600 (unwrap_or exec_timeout_secs timeout_secs)

abbrev pub is_dead : Error → Bool
is_dead Error.still_running = true
is_dead Error.shell_exited = true
is_dead Error.session_poisoned = true
is_dead e = false

abbrev pub close_reason : Error → Text
close_reason Error.shell_exited = codes "shell_exited"
close_reason e = codes "timed_out"

abbrev pub truncation_hint : ExecResult → Option Text
truncation_hint r =
    if r.truncated && (elim r.budget [ none ↦ true | some b ↦ false ])
    then some (codes "output was truncated; pass budget (grep/keep/max_chars) to shape it")
    else none

module _ {R : Type 0} where
  -- A session that can run nothing more is closed.
  abbrev pub after_error : ℕ → Text → Server R → Error → Handled R
  after_error now id s e =
      let r = unregister id s in
      if is_dead e
      then (elim r.1 [
        | none ↦ (r.0, tool_error (to_string e))
        | some entry ↦ (
          closed now id (close_reason e) r,
          tool_error (to_string e ++ (codes " (session " ++ (id ++ codes " was closed)"))),
        )
      ])
      else (s, tool_error (to_string e))

  -- `none` is a panic of the call, which leaves the time of the last use as it was.
  abbrev pub finished : ℕ → Text → SessionEntry R → Server R → ExecOutcome R → Handled R
  finished later id e s (session, none) = (put_session id session s, protocol_error)
  finished later id e s (session, some (ok r)) = (
    record_event e.audit (AuditEvent.exec later (exec_of id e.transport r))
        (update id (touch later) (put_session id session s)),
    executed r (truncation_hint r),
  )
  finished later id e s (session, some (err x)) =
      after_error later id (update id (touch later) (put_session id session s)) x

module _ {R : Type 0} (env : Env R) (initial : R) where
  -- A busy session is not waited for.
  abbrev pub shown : SessionEntry R → Text → Text
  shown e command =
      if e.busy then env.redact_command initial command else redact_command env e.session command

  abbrev pub refused : ℕ → ExecParams → Server R → SessionEntry R → Text → Handled R
  refused now p s e reason = (
    record_event e.audit
        (AuditEvent.blocked now p.session_id e.transport (shown e p.command) reason) s,
    tool_error (codes "blocked by operator policy: " ++ reason),
  )

  abbrev pub with_budget :
      ℕ → Config → ExecParams → Server R → SessionEntry R → Checked (Option Budget) → Handled R
  with_budget later config p s e (bad x) = (s, tool_error x)
  with_budget later config p s e (good budget) = finished later p.session_id e s (
      exec_with_timeout env e.session p.command budget
        (timeout_of p.timeout_secs config.exec_timeout_secs * 1000))

  abbrev pub on_verdict :
      (now later : ℕ) → Config → ExecParams → Server R → SessionEntry R → Verdict → Handled R
  on_verdict now later config p s e (Verdict.blocked reason) = refused now p s e reason
  on_verdict now later config p s e Verdict.allowed =
      with_budget later config p s e (budget_of p.budget)

  -- `now` is the time of the call and `later` that of its end.
  unfoldable pub session_exec :
      OperatorPolicy → Config → (now later : ℕ) → ExecParams → Server R → Handled R
  unfolding get update unregister release to_budget timeout_of redact_command
  session_exec policy config now later p s =
      with_session now p.session_id s
        (λ s e. on_verdict now later config p s e (operator_check env.is_match policy p.command))
