-- ===== src/Mcp/Connect/Build.antt =====
-- `build_session` of crates/execkit-mcp/src/main.rs, with `Session::local`, `docker` and `ssh` of
-- crates/execkit/src/session.rs in front of the transports.
use execkit.Base.{ℕ, not, ◌||◌, Option, none, some, is_empty, if◌then◌else◌}
use execkit.Text.Chars.{Text, codes, eq_text}
use execkit.Error.{Error, Result, ok, err}
use execkit.Transport.{SshAuth, SshConfig, HostKeyVerification, new}
use execkit.Session.Validate.{is_valid_container_ref}
use execkit.Session.State.{
  Session, with_policy, with_output_budget, with_auto_snapshot, with_workspace,
  with_checkpoint_paths, with_checkpoint_ignores,
}
use execkit.Mcp.Paths.{FilePath, home_dir}
use execkit.Mcp.Params.{CreateParams, BudgetParams, Config, good, bad, and_then, to_budget}
use execkit.Mcp.Label.{session_label, ssh_label}
use execkit.Mcp.SshHosts.{lookup}
use execkit.Mcp.Connect.{resolve_ssh}

-- What a transport is opened to.
pub data Target : Type 0 where
  local : Target
  docker : Text → Target
  ssh : SshConfig → Target

-- A call that may also panic, which is `none`.
abbrev pub Attempt : Type 0 → Type 0
Attempt A = Option (Result A)

infixl 5 ◌!→◌
abbrev pub ◌!→◌ : {A B : Type 0} → Attempt A → (A → Attempt B) → Attempt B
none !→ f = none
some (err e) !→ f = some (err e)
some (ok a) !→ f = f a

abbrev required : Text → Option Text → Attempt Text
required e none = some (err (Error.transport e))
required e (some a) = some (ok a)

unfoldable pub host_key_of : Option Text → Config → HostKeyVerification
host_key_of (some fp) config = HostKeyVerification.pinned fp
host_key_of none config =
    if config.insecure_accept_any
    then HostKeyVerification.accept_any
    else HostKeyVerification.known_hosts config.known_hosts

unfoldable pub ssh_config_of : CreateParams → Config → Text → Option ℕ → Text → SshAuth → SshConfig
unfolding new host_key_of
ssh_config_of p config host port user auth =
    let cfg = new host user auth (host_key_of p.fingerprint config) in
    elim port [ none ↦ cfg | some n ↦ record cfg { port = n } ]

-- `config_text` is the text of the operator's ssh configuration, where it can be read; `found` is the
-- home directory.
module _ {R : Type 0} (canonicalize : FilePath → Option FilePath) (config_text : Option Text)
    (found : Option FilePath) (connect : Target → Attempt (Session R)) where
  -- The session and its label.
  unfoldable pub connected : CreateParams → Config → Attempt (Session R × Text)
  unfolding eq_text resolve_ssh ssh_config_of
  connected p config =
      if eq_text p.transport (codes "ssh")
      then (required (codes "ssh: 'host' required") p.host !→ λ host_arg.
          some (
            resolve_ssh canonicalize host_arg p.user p.port p.password p.key_path
              (and_then (λ text. lookup text host_arg (home_dir found)) config_text) config.key_dir)
          !→ λ (host, port, user, auth).
              connect (Target.ssh (ssh_config_of p config host port user auth)) !→ λ s.
              some (ok (s, ssh_label host_arg user port)))
      else if eq_text p.transport (codes "docker")
      then (required (codes "docker: 'container' required") p.container !→ λ container.
          (if not (is_valid_container_ref container)
            then some (err (Error.transport (codes "invalid docker container name/id")))
            else connect (Target.docker container))
          !→ λ s. some (ok (s, session_label p)))
      else if eq_text p.transport (codes "local")
      then (connect Target.local !→ λ s. some (ok (s, session_label p)))
      else some (err (Error.transport (codes "transport must be \"local\", \"ssh\" or \"docker\"")))

  abbrev with_checkpoints : CreateParams → Session R → Session R
  with_checkpoints p s =
      let s' =
        with_checkpoint_ignores
          (with_checkpoint_paths (with_auto_snapshot s p.auto_snapshot) p.paths)
          p.checkpoint_ignores in
      elim p.workspace [ none ↦ s' | some ws ↦ with_workspace s' ws ]

  abbrev with_budget : Option BudgetParams → Session R → Attempt (Session R)
  with_budget none s = some (ok s)
  with_budget (some bp) s = elim (to_budget bp) [
    | bad e ↦ some (err (Error.budget e))
    | good b ↦ some (ok (with_output_budget s b))
  ]

  abbrev with_names : CreateParams → Session R → Session R
  with_names p s =
      if not (is_empty p.allow) || not (is_empty p.deny)
      then with_policy s (record { allow = p.allow; deny = p.deny })
      else s

  unfoldable pub build_session : CreateParams → Config → Attempt (Session R × Text)
  unfolding connected to_budget with_policy with_output_budget with_auto_snapshot with_workspace
      with_checkpoint_paths with_checkpoint_ignores
  build_session p config = connected p config !→ λ (s, label).
      with_budget p.output_budget (with_checkpoints p s) !→ λ s'. some (ok (with_names p s', label))
