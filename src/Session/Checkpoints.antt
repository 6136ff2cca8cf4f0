-- ===== src/Session/Checkpoints.antt =====
-- The checkpoint operations of crates/execkit/src/session.rs.
use execkit.Base.{
  ℕ, zero, ◌^◌, ◌-◌, Bool, true, false, not, ◌&&◌, List, [], ◌++◌, Option, none, some,
  if◌then◌else◌,
}
use execkit.Text.Chars.{Text, codes, eq_text}
use execkit.Text.Split.{trim}
use execkit.Text.Decimal.{ℤ, pos, parse_unsigned}
use execkit.Error.{Error, Result, ok, err}
use execkit.Checkpoint.ReadOnly.{is_read_only}
use execkit.Checkpoint.Commands.{
  Checkpointer, init_cmd, snapshot_cmd, restore_cmd, list_cmd, diff_count_cmd, cleanup_cmd,
}
use execkit.Checkpoint.Output.{Checkpoint, parse_sha, parse_log}
use execkit.Session.Validate.{is_valid_checkpoint_id}
use execkit.Session.Channel.{Framed}
use execkit.Session.State.{
  Session, Env, Outcome, ◌&→◌, run_framed, run_framed_for, on_checkpointer, default_acc_cap,
}

pub record RestoreReport : Type 0 where
  pub restored_to : Text
  pub files_changed : ℕ

abbrev pub only_remote : Error
only_remote = Error.unsupported (codes "checkpoints are available only for remote sessions")

abbrev pub no_workspace : Error
no_workspace = Error.unsupported (
    codes "checkpoints require an explicit workspace; set it with with_workspace() "
    ++ codes "(library) or the 'workspace' param (MCP)")

abbrev pub needs_git : Error
needs_git = Error.unsupported (
    codes "checkpoints need git on the remote host - install it "
    ++ codes "(e.g. apt/apk/yum install git)")

abbrev pub is_zero : ℤ → Bool
is_zero (pos zero) = true
is_zero _ = false

abbrev pub or_dot : Option Text → Text
or_dot none = codes "."
or_dot (some root) = root

abbrev pub label_or : Option Text → Text
label_or none = codes "checkpoint"
label_or (some l) = l

abbrev pub count_of : Option ℕ → ℕ
count_of none = 0
count_of (some n) = n

-- `f.stdout.trim().parse::<usize>().ok()`, 0 on any failure.
abbrev pub changed_of : Result Framed → ℕ
changed_of (err e) = 0
changed_of (ok f) = count_of (parse_unsigned (2 ^ 64 - 1) (trim f.stdout))

module _ {R : Type 0} (env : Env R) where
  -- The checkpointer of a remote session, as the guards of each operation give it.
  unfoldable pub require_remote : Session R → Outcome R Checkpointer
  require_remote s = (s, elim s.checkpointer [ none ↦ err only_remote | some cp ↦ ok cp ])

  unfoldable pub require_workspace : Session R → Outcome R (Checkpointer × Text)
  require_workspace s = require_remote s &→ λ s cp.
      (s, elim cp.workspace [ none ↦ err no_workspace | some root ↦ ok (cp, root) ])

  unfoldable pub cp_root : Session R → Text
  cp_root s = elim s.checkpointer [ none ↦ codes "." | some cp ↦ or_dot cp.root ]

  -- The probe for git, then the shadow repository. `cp` is the session's checkpointer.
  unfoldable pub ensure_init : Session R → Checkpointer → Outcome R (Unit {0})
  ensure_init s cp =
      if cp.initialized
      then (s, ok tt)
      else if cp.git_unavailable
      then (s, err needs_git)
      else (run_framed env s (codes "command -v git >/dev/null 2>&1 && echo OK || echo NO")
          &→ λ s probe.
              if not (eq_text (trim probe.stdout) (codes "OK"))
              then (on_checkpointer (λ cp. record cp { git_unavailable = true }) s, err needs_git)
              else elim cp.workspace [
                | none ↦ (s, err no_workspace)
                | some root ↦ run_framed env s (init_cmd cp root) &→ λ s f.
                    if not (is_zero f.exit_code)
                    then (
                      s,
                      err (Error.transport (codes "checkpoint init failed: " ++ trim f.stderr)),
                    )
                    else (
                      on_checkpointer (λ cp. record cp { root = some root; initialized = true }) s,
                      ok tt,
                    )
              ])

  abbrev pub remember : Text → Session R → Session R
  remember sha = on_checkpointer (λ cp. record cp { last = some sha })

  unfoldable pub checkpoint : Session R → Option Text → Outcome R Text
  checkpoint s label = require_workspace s &→ λ s (cp, root). ensure_init s cp &→ λ s u.
      run_framed env s (snapshot_cmd cp (cp_root s) (label_or label)) &→ λ s f.
      elim (parse_sha f.stdout) [
        | none ↦ (s, err (Error.transport (codes "checkpoint failed: " ++ trim f.stderr)))
        | some sha ↦ (remember sha s, ok sha)
      ]

  unfoldable pub checkpoints : Session R → Outcome R (List Checkpoint)
  checkpoints s = require_remote s &→ λ s cp. elim cp.workspace [
    | none ↦ (s, ok [])
    | some root ↦
        if not cp.initialized
        then (s, ok [])
        else (run_framed env s (list_cmd cp (cp_root s)) &→ λ s f. (s, ok (parse_log f.stdout)))
  ]

  -- The count of changed files is informational: a failure of its command counts 0.
  unfoldable pub restore : Session R → Text → Outcome R RestoreReport
  restore s id = require_workspace s &→ λ s (cp, root).
      if not cp.initialized
      then (s, err (Error.unsupported (codes "no checkpoints yet in this session")))
      else if not (is_valid_checkpoint_id id)
      then (s, err (Error.unsupported (codes "invalid checkpoint id")))
      else let (s', diff) = run_framed env s (diff_count_cmd cp (cp_root s) id) in
        run_framed env s' (restore_cmd cp (cp_root s) id) &→ λ s f.
        if not (is_zero f.exit_code)
        then (s, err (Error.transport (codes "restore failed: " ++ trim f.stderr)))
        else (s, ok (record { restored_to = id; files_changed = changed_of diff }))

  unfoldable pub restore_last : Session R → Outcome R RestoreReport
  restore_last s = require_workspace s &→ λ s (cp, root). elim cp.last [
    | none ↦ (s, err (Error.unsupported (codes "no checkpoint to restore")))
    | some last ↦ restore s last
  ]

  -- Best effort: the result of each command is dropped, but what it did to the session stays.
  abbrev pub after_snapshot : Outcome R Framed → Session R
  after_snapshot (s, err e) = s
  after_snapshot (s, ok f) = elim (parse_sha f.stdout) [ none ↦ s | some sha ↦ remember sha s ]

  abbrev pub after_init : Checkpointer → Outcome R (Unit {0}) → Session R
  after_init cp (s, err e) = s
  after_init cp (s, ok u) =
      after_snapshot (run_framed env s (snapshot_cmd cp (cp_root s) (codes "auto")))

  unfoldable pub snapshot_auto : Session R → Checkpointer → Session R
  snapshot_auto s cp = after_init cp (ensure_init s cp)

  unfoldable pub wants_snapshot : Checkpointer → Text → Bool
  wants_snapshot cp command =
      cp.auto
      && not cp.git_unavailable
      && (elim cp.workspace [ none ↦ false | some root ↦ true ])
      && not (is_read_only command)

  unfoldable pub maybe_auto_snapshot : Session R → Text → Session R
  maybe_auto_snapshot s command = elim s.checkpointer [
    | none ↦ s
    | some cp ↦ if wants_snapshot cp command then snapshot_auto s cp else s
  ]

  -- `Drop`: the cleanup, with five seconds' time.
  unfoldable pub drop_session : Session R → Session R
  drop_session s = if s.poisoned then s else elim s.checkpointer [
    | none ↦ s
    | some cp ↦
        if cp.initialized
        then (run_framed_for env s (cleanup_cmd cp) 5000 (default_acc_cap s)).0
        else s
  ]
