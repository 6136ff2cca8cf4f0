-- ===== src/Session/Poison/Checkpoints.antt =====
-- Taking and listing checkpoints (crates/execkit/src/session.rs) leaves a usable session, or tells.
use execkit.Base.{false, not, ◌≡◌, sym, Option, none, some}
use execkit.Text.Chars.{Text, codes, eq_text}
use execkit.Text.Split.{trim}
use execkit.Error.{ok, err}
use execkit.Checkpoint.Commands.{Checkpointer, init_cmd, snapshot_cmd, list_cmd}
use execkit.Checkpoint.Output.{parse_sha}
use execkit.Session.State.{Session, Env, run_framed}
use execkit.Session.Checkpoints.{
  require_remote, require_workspace, ensure_init, checkpoint, checkpoints, cp_root, no_workspace,
  only_remote, label_or, is_zero,
}
use execkit.Session.Poison.{
  IsSettled, IsSettled-then, IsSettled-if, IsSettled-option, run_framed-IsSettled,
}

module _ {R : Type 0} (env : Env R) where
  require_remote-IsSettled : (s : Session R) → s.poisoned ≡ false → IsSettled (require_remote env s)
  unfolding require_remote
  require_remote-IsSettled s h = remote s.checkpointer
    where
      remote :
          (o : Option Checkpointer)
          → IsSettled {A = Checkpointer} (s, elim o [ none ↦ err only_remote | some cp ↦ ok cp ])
      remote none = sym h
      remote (some cp) = sym h

  require_workspace-IsSettled :
      (s : Session R) → s.poisoned ≡ false → IsSettled (require_workspace env s)
  unfolding require_workspace
  require_workspace-IsSettled s h =
      IsSettled-then (require_remote env s) _ (require_remote-IsSettled s h)
        (λ s' cp h'. root s' cp cp.workspace h')
    where
      root :
          (s : Session R) (cp : Checkpointer) (o : Option Text)
          → s.poisoned ≡ false
          → IsSettled {A = Checkpointer × Text}
              (s, elim o [ none ↦ err no_workspace | some root ↦ ok (cp, root) ])
      root s cp none h = sym h
      root s cp (some r) h = sym h

  ensure_init-IsSettled :
      (s : Session R) (cp : Checkpointer) → s.poisoned ≡ false → IsSettled (ensure_init env s cp)
  unfolding ensure_init
  ensure_init-IsSettled s cp h = IsSettled-if cp.initialized _ _ (sym h) (
      IsSettled-if cp.git_unavailable _ _ (sym h) (
        IsSettled-then
          (run_framed env s (codes "command -v git >/dev/null 2>&1 && echo OK || echo NO")) _
          (run_framed-IsSettled env s _ h)
          (λ s probe h. IsSettled-if (not (eq_text (trim probe.stdout) (codes "OK"))) _ _ (sym h) (
            IsSettled-option cp.workspace _ _ (sym h) (λ root.
              IsSettled-then (run_framed env s (init_cmd cp root)) _
                (run_framed-IsSettled env s (init_cmd cp root) h)
                (λ s f h. IsSettled-if (not (is_zero f.exit_code)) _ _ (sym h) (sym h)))))))

  -- On a usable session, taking a checkpoint leaves a usable session, or its result says that the
  -- session is gone.
  pub checkpoint-IsSettled :
      (s : Session R) (label : Option Text)
      → s.poisoned ≡ false
      → IsSettled (checkpoint env s label)
  unfolding checkpoint
  checkpoint-IsSettled s label h =
      IsSettled-then (require_workspace env s) _ (require_workspace-IsSettled s h)
        (λ s (cp, root) h.
          IsSettled-then (ensure_init env s cp) _ (ensure_init-IsSettled s cp h) (λ s u h.
            IsSettled-then (run_framed env s (snapshot_cmd cp (cp_root env s) (label_or label))) _
              (run_framed-IsSettled env s _ h)
              (λ s f h. IsSettled-option (parse_sha f.stdout) _ _ (sym h) (λ sha. sym h))))

  -- On a usable session, listing the checkpoints leaves a usable session, or its result says that the
  -- session is gone.
  pub checkpoints-IsSettled : (s : Session R) → s.poisoned ≡ false → IsSettled (checkpoints env s)
  unfolding checkpoints
  checkpoints-IsSettled s h =
      IsSettled-then (require_remote env s) _ (require_remote-IsSettled s h) (λ s cp h.
        IsSettled-option cp.workspace _ _ (sym h) (λ root.
          IsSettled-if (not cp.initialized) _ _ (sym h) (
            IsSettled-then (run_framed env s (list_cmd cp (cp_root env s))) _
              (run_framed-IsSettled env s _ h) (λ s f h. sym h))))
