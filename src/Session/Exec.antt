-- ===== src/Session/Exec.antt =====
-- `exec`, `exec_budgeted`, `exec_with_timeout` and `exec_inner` of crates/execkit/src/session.rs.
use execkit.Base.{
  ℕ, ◌*◌, Bool, true, false, ◌&&◌, ◌||◌, [], ◌∷◌, ◌++◌, Option, none, some, ltb, if◌then◌else◌,
}
use execkit.Text.Chars.{Text}
use execkit.Error.{Error, Result, ok, err, map_ok}
use execkit.Policy.{Policy, Verdict, check}
use execkit.Budget.Builders.{Budget, Grep, Keep, default}
use execkit.Budget.Apply.{Shaped, apply, compile_grep}
use execkit.Session.Channel.{Framed}
use execkit.Session.State.{
  Session, Env, Outcome, ExecResult, run_framed_for, default_acc_cap, next_reply,
}
use execkit.Session.Checkpoints.{maybe_auto_snapshot}

abbrev pub is_default : Budget → Bool
is_default b =
    (elim b.grep [ none ↦ true | some g ↦ false ])
    && (elim b.keep [ Keep.all ↦ true | _ ↦ false ])
    && (elim b.max_chars [ none ↦ true | some n ↦ false ])

abbrev pub budget_acc_cap : ℕ
budget_acc_cap = 8 * 1024 * 1024

abbrev pub or_default : Option Budget → Budget
or_default none = default
or_default (some b) = b

-- `none` where the call panics.
abbrev pub ExecOutcome : Type 0 → Type 0
ExecOutcome R = Session R × Option (Result ExecResult)

abbrev pub denied : Verdict → Result (Unit {0})
denied Verdict.allowed = ok tt
denied (Verdict.blocked reason) = err (Error.policy_denied reason)

module _ {R : Type 0} (env : Env R) where
  -- The result of a command, once both streams are shaped, and its audit record.
  abbrev pub report : Session R → Text → Budget → ℕ → Framed → Shaped → Shaped → ExecOutcome R
  report s command budget elapsed f out errs =
      let result : ExecResult = record {
        command = env.redact s.redactor command;
        stdout = out.text;
        stderr = errs.text;
        exit_code = f.exit_code;
        duration_ms = elapsed;
        cwd = f.cwd;
        truncated =
            out.capped
            || errs.capped
            || ltb out.report.lines_kept out.report.lines_total
            || ltb errs.report.lines_kept errs.report.lines_total
            || f.overflowed;
        budget =
            if is_default budget
            then none
            else some (record { stdout = out.report; stderr = errs.report });
        timed_out = f.timed_out;
      } in
      (
        record s {
          audited = elim s.audit [ none ↦ s.audited | some path ↦ s.audited ++ (result ∷ []) ];
        },
        some (ok result),
      )

  abbrev pub and_shaped :
      Session R → Option (Result Shaped) → (Shaped → ExecOutcome R) → ExecOutcome R
  and_shaped s none f = (s, none)
  and_shaped s (some (err e)) f = (s, some (err e))
  and_shaped s (some (ok shaped)) f = f shaped

  -- Both streams are redacted, then shaped.
  abbrev pub finish : Text → Budget → ℕ → Outcome R Framed → ExecOutcome R
  finish command budget elapsed (s, err e) = (s, some (err e))
  finish command budget elapsed (s, ok f) =
      and_shaped s (apply env.build (env.redact s.redactor f.stdout) budget s.max_output) (λ out.
        and_shaped s (apply env.build (env.redact s.redactor f.stderr) budget s.max_output)
          (λ errs. report s command budget elapsed f out errs))

  -- Behind the guards: the snapshot, the command, the shaping.
  unfoldable pub run_and_shape : Session R → Text → Budget → ℕ → ExecOutcome R
  run_and_shape s command budget timeout =
      let s' = maybe_auto_snapshot env s command in
      let cap = if is_default budget then default_acc_cap s' else budget_acc_cap in
      if s'.poisoned
      then (s', some (err Error.session_poisoned))
      else finish command budget (next_reply s'.replies).0.elapsed_ms
          (run_framed_for env s' command timeout cap)

  -- A bad grep pattern fails before the command runs.
  abbrev pub grep_guard : Option Grep → Result (Unit {0})
  grep_guard none = ok tt
  grep_guard (some g) = map_ok (λ re. tt) (compile_grep env.build g.pattern)

  abbrev pub policy_guard : Option Policy → Text → Result (Unit {0})
  policy_guard none command = ok tt
  policy_guard (some p) command = denied (check env.is_match p command)

  abbrev pub guarded : Session R → Result (Unit {0}) → ExecOutcome R → ExecOutcome R
  guarded s (err e) rest = (s, some (err e))
  guarded s (ok u) rest = rest

  -- The redactor learns from the command first, whatever comes of it.
  unfoldable pub exec_inner : Session R → Text → Budget → ℕ → ExecOutcome R
  exec_inner s command budget timeout =
      let s' = record s { redactor = env.learn_from_command s.redactor command } in
      if s.poisoned
      then (s, some (err Error.session_poisoned))
      else guarded s' (grep_guard budget.grep)
          (guarded s' (policy_guard s'.policy command) (run_and_shape s' command budget timeout))

  unfoldable pub exec_with_timeout : Session R → Text → Option Budget → ℕ → ExecOutcome R
  exec_with_timeout s command budget timeout = elim budget [
    | some b ↦ exec_inner s command b timeout
    | none ↦ exec_inner s command (or_default s.output_budget) timeout
  ]

  unfoldable pub exec : Session R → Text → ExecOutcome R
  exec s command = exec_with_timeout s command none s.timeout

  unfoldable pub exec_budgeted : Session R → Text → Budget → ExecOutcome R
  exec_budgeted s command budget = exec_with_timeout s command (some budget) s.timeout

  unfoldable pub redact_command : Session R → Text → Text
  redact_command s cmd = env.redact_command s.redactor cmd
