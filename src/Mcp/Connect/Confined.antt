-- ===== src/Mcp/Connect/Confined.antt =====
-- What `resolve_ssh` of crates/execkit-mcp/src/main.rs settles on, whatever the call and the ssh
-- configuration say.
use execkit.Base.{
  ℕ, ◌≡◌, true, List, [], ◌∷◌, Option, none, some, arith, Bool-cases, Option-cases, inl, inr,
}
use execkit.Text.Chars.{Text}
use execkit.Error.{ok, failed_or}
use execkit.Transport.{SshAuth}
use execkit.Mcp.Paths.{FilePath}
use execkit.Mcp.Params.{unwrap_or, and_then}
use execkit.Mcp.SshHosts.{HostEntry}
use execkit.Mcp.Connect.{
  components, is_prefix, validated_key_path, first_valid, candidates, auth_of, or_else, resolve_ssh,
}

module _ (canonicalize : FilePath → Option FilePath) (key_dir : FilePath) where
  -- A file that, links resolved, lies under the key directory.
  abbrev pub IsConfined : FilePath → Type 0
  IsConfined path =
      (raw dir : FilePath) × (canonicalize raw ≡ some path)
      × (canonicalize key_dir ≡ some dir)
      × (is_prefix (components dir) (components path) ≡ true)

  -- The password where one is given, a confined key otherwise.
  abbrev pub IsAllowed : Option Text → SshAuth → Type 0
  IsAllowed (some pw) auth = auth ≡ SshAuth.password pw
  IsAllowed none auth = (path : FilePath) × (auth ≡ SshAuth.key path none) × IsConfined path

  validated-IsConfined :
      (raw path : FilePath)
      → validated_key_path canonicalize raw key_dir ≡ ok path
      → IsConfined path
  unfolding validated_key_path
  validated-IsConfined raw path h = elim (Option-cases (canonicalize key_dir)) [
    | inl e ↦ absurd (ground arith)
    | inr (dir, e) ↦ elim (Option-cases (canonicalize raw)) [
      | inl n ↦ absurd (ground arith)
      | inr (p, n) ↦ elim (Bool-cases (is_prefix (components dir) (components p))) [
        | inr b ↦ absurd (ground arith)
        | inl b ↦ let same : p ≡ path = ground arith in (raw, dir, rw same at n, e, rw same at b)
      ]
    ]
  ]

  first_valid-IsConfined :
      (cs : List FilePath) (path : FilePath)
      → first_valid canonicalize key_dir cs ≡ some path
      → IsConfined path
  first_valid-IsConfined [] path h = cc
  first_valid-IsConfined (c ∷ cs) path h =
      elim (failed_or (validated_key_path canonicalize c key_dir)) [
        | inl (e, v) ↦ first_valid-IsConfined cs path (ground arith)
        | inr (p, v) ↦
            let same : p ≡ path = ground arith in validated-IsConfined c path (rw same at v)
      ]

  auth_of-IsAllowed :
      (password : Option Text) (key_path : Option FilePath) (alias : Option HostEntry)
      (auth : SshAuth)
      → auth_of canonicalize password key_path alias key_dir ≡ ok auth
      → IsAllowed password auth
  unfolding auth_of
  auth_of-IsAllowed (some pw) key_path alias auth h = ground arith
  auth_of-IsAllowed none (some key) alias auth h =
      elim (failed_or (validated_key_path canonicalize key key_dir)) [
        | inl (e, v) ↦ absurd (ground arith)
        | inr (p, v) ↦ (p, ground arith, validated-IsConfined key p v)
      ]
  auth_of-IsAllowed none none alias auth h =
      elim (Option-cases (first_valid canonicalize key_dir (candidates alias key_dir))) [
        | inl v ↦ absurd (ground arith)
        | inr (p, v) ↦ (p, ground arith, first_valid-IsConfined (candidates alias key_dir) p v)
      ]

  -- What the call says goes before what the alias says.
  abbrev pub IsPreferred :
      Text → Option Text → Option ℕ → Option HostEntry → Text → Option ℕ → Text → Type 0
  IsPreferred host_or_alias user port alias host' port' user' =
      (host' ≡ unwrap_or host_or_alias (and_then (λ e. e.hostname) alias))
      × (port' ≡ or_else port (and_then (λ e. e.port) alias))
      × (some user' ≡ or_else user (and_then (λ e. e.user) alias))

  -- Whatever the call and the ssh configuration say: where `resolve_ssh` succeeds, it settles on the
  -- call's password or, without one, on a key file that lies under the key directory once links are
  -- resolved; the user and the port are the call's where it gives them and the alias's otherwise; and
  -- the host is the alias's host name or what the call gave.
  pub resolve_ssh-IsAllowed :
      (host_or_alias : Text) (user : Option Text) (port : Option ℕ) (password : Option Text)
      (key_path : Option FilePath) (alias : Option HostEntry) (host' : Text) (port' : Option ℕ)
      (user' : Text) (auth : SshAuth)
      → resolve_ssh canonicalize host_or_alias user port password key_path alias key_dir
        ≡ ok (host', port', user', auth)
      → IsAllowed password auth × IsPreferred host_or_alias user port alias host' port' user'
  unfolding resolve_ssh
  resolve_ssh-IsAllowed host_or_alias user port password key_path alias host' port' user' auth h =
      elim (Option-cases (or_else user (and_then (λ e. e.user) alias))) [
        | inl u ↦ absurd (ground arith)
        | inr (u', u) ↦ elim (failed_or (auth_of canonicalize password key_path alias key_dir)) [
          | inl (e, a) ↦ absurd (ground arith)
          | inr (auth', a) ↦
              let same : auth' ≡ auth = ground arith in
              (
                auth_of-IsAllowed password key_path alias auth (rw same at a),
                (ground arith, ground arith, ground arith),
              )
        ]
      ]
