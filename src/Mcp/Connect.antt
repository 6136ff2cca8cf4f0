-- ===== src/Mcp/Connect.antt =====
-- How a session is made, of crates/execkit-mcp/src/main.rs: `validated_key_path`, `resolve_ssh` and
-- `build_session`. Canonical paths are the file system's, and `connect` is the library's transports.
pub mod Confined
pub mod Build
use execkit.Base.{
  ℕ, Bool, true, false, not, ◌&&◌, ◌||◌, ◌==◌, List, [], ◌∷◌, ◌++◌, Option, none, some, map,
  is_empty, filter, if◌then◌else◌,
}
use execkit.Text.Chars.{Text, Bytes, codes, eq_text}
use execkit.Text.Split.{split}
use execkit.Text.Utf8.{as_bytes, from_utf8_lossy}
use execkit.Error.{Error, Result, ok, err}
use execkit.Policy.{Policy}
use execkit.Budget.Builders.{Budget}
use execkit.Transport.{SshAuth, SshConfig, HostKeyVerification}
use execkit.Session.State.{
  Session, with_policy, with_output_budget, with_auto_snapshot, with_workspace,
  with_checkpoint_paths, with_checkpoint_ignores,
}
use execkit.Mcp.Paths.{FilePath, join, home_dir}
use execkit.Mcp.Params.{CreateParams, Config, Checked, good, bad, unwrap_or, and_then, to_budget}
use execkit.Mcp.Label.{session_label, ssh_label}
use execkit.Mcp.SshHosts.{HostEntry, lookup}

-- `Path::starts_with` of a canonical path: component by component.
abbrev pub components : FilePath → List Text
components p = filter (λ w. not (is_empty w)) (split (λ c. c == b'/') p)

abbrev pub is_prefix : List Text → List Text → Bool
is_prefix [] ws = true
is_prefix (d ∷ ds) [] = false
is_prefix (d ∷ ds) (w ∷ ws) = eq_text d w && is_prefix ds ws

abbrev pub not_permitted : Error
not_permitted = Error.transport (codes "ssh: key_path not permitted")

abbrev pub files_of : Option HostEntry → List FilePath
files_of none = []
files_of (some e) = e.identity_files

abbrev pub candidates : Option HostEntry → FilePath → List FilePath
candidates alias key_dir =
    files_of alias
    ++ map (join key_dir) (codes "id_ed25519" ∷ codes "id_ecdsa" ∷ codes "id_rsa" ∷ [])

abbrev pub or_else {ℓ} : {A : Type ℓ} → Option A → Option A → Option A
or_else none o = o
or_else (some a) o = some a

abbrev pub resolved_user : Option Text → Option HostEntry → Result Text
resolved_user user alias = elim (or_else user (and_then (λ e. e.user) alias)) [
  | some u ↦ ok u
  | none ↦ err (
      Error.transport
        (codes "ssh: 'user' required (or define User for this Host in ~/.ssh/config)"))
]

abbrev with_auth :
    Text → Option ℕ → Text → Result SshAuth → Result (Text × Option ℕ × Text × SshAuth)
with_auth host port user (err e) = err e
with_auth host port user (ok auth) = ok (host, port, user, auth)

module _ (canonicalize : FilePath → Option FilePath) where
  unfoldable pub validated_key_path : FilePath → FilePath → Result FilePath
  validated_key_path raw key_dir = elim (canonicalize key_dir) [
    | none ↦ err not_permitted
    | some dir ↦ elim (canonicalize raw) [
      | none ↦ err not_permitted
      | some path ↦
          if is_prefix (components dir) (components path) then ok path else err not_permitted
    ]
  ]

  -- `find_map` of the candidates; `to_string_lossy` changes nothing in a path of scalar values.
  abbrev pub first_valid : FilePath → List FilePath → Option FilePath
  first_valid key_dir [] = none
  first_valid key_dir (c ∷ cs) = elim (validated_key_path c key_dir) [
    | err e ↦ first_valid key_dir cs
    | ok path ↦ some path
  ]

  -- The password, then the key that the call names, then the first candidate that is permitted.
  unfoldable pub auth_of :
      Option Text → Option FilePath → Option HostEntry → FilePath → Result SshAuth
  unfolding validated_key_path
  auth_of (some pw) key_path alias key_dir = ok (SshAuth.password pw)
  auth_of none (some key) alias key_dir = elim (validated_key_path key key_dir) [
    | err e ↦ err e
    | ok path ↦ ok (SshAuth.key path none)
  ]
  auth_of none none alias key_dir = elim (first_valid key_dir (candidates alias key_dir)) [
    | some path ↦ ok (SshAuth.key path none)
    | none ↦ err (Error.transport (codes "ssh: 'password' or 'key_path' required"))
  ]

  unfoldable pub resolve_ssh :
      Text
      → Option Text
      → Option ℕ
      → Option Text
      → Option FilePath
      → Option HostEntry
      → FilePath
      → Result (Text × Option ℕ × Text × SshAuth)
  unfolding auth_of
  resolve_ssh host_or_alias user port password key_path alias key_dir =
      elim (resolved_user user alias) [
        | err e ↦ err e
        | ok u ↦
            with_auth (unwrap_or host_or_alias (and_then (λ e. e.hostname) alias))
              (or_else port (and_then (λ e. e.port) alias)) u
              (auth_of password key_path alias key_dir)
      ]
