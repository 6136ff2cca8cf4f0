-- ===== src/Tests/McpExamples.antt =====
-- The theorems on the MCP server at concrete inputs, and runs on the inputs of the unit
-- tests of crates/execkit-mcp/src.
use execkit.Base.{
  ℕ, ◌++◌, ◌∷◌, [], List, true, false, Option, none, some, ◌≡◌, refl, arith, inl, if◌then◌else◌,
}
use execkit.Text.Chars.{Text, codes, eq_text}
use execkit.Text.Decimal.{decimal}
use execkit.Text.Split.{lines}
use execkit.Transport.{SshAuth}
use execkit.Error.{ok}
use execkit.Session.Channel.{Reply, Event, silent}
use execkit.Session.State.{Env, Session, from_transport}
use execkit.Mcp.Paths.{FilePath}
use execkit.Mcp.Params.{Vars, Config, CreateParams, from_env, ExecParams}
use execkit.Mcp.OperatorPolicy.{empty}
use execkit.Mcp.Audit.{off}
use execkit.Mcp.SshHosts.{HostEntry, lookup}
use execkit.Mcp.SshHosts.Scope.{is_named, keywords, applied, entry_of, lookup-eq-blocks}
use execkit.Mcp.Connect.{resolve_ssh}
use execkit.Mcp.Connect.Confined.{IsAllowed, IsPreferred, resolve_ssh-IsAllowed}
use execkit.Mcp.Label.{sanitize}
use execkit.Mcp.Server.{Server, SessionEntry}
use execkit.Mcp.Server.Exec.{session_exec}
use execkit.Mcp.Server.Exec.Settled.{AllUsable, session_exec-AllUsable}
use execkit.Mcp.Server.Gate.{Step, run, start}
use execkit.Mcp.Server.Handlers.{session_create}
use execkit.Mcp.Server.Runs.{idle, with_log, session_create-IsRun}
use execkit.Mcp.Connect.Build.{Attempt}
use execkit.Mcp.Server.Slots.{IsAccounted, run-IsAccounted}

-- Two calls that reach a cap of one at the same time: the second reservation is undone.
abbrev rush : List (Step (Unit {0}))
rush = Step.arrive ∷ Step.arrive ∷ Step.number ∷ Step.reject ∷ []

run-IsAccounted_example : IsAccounted 1 (run (codes "1a2b") 1 (start (Unit {0})) rush)
run-IsAccounted_example = run-IsAccounted (codes "1a2b") 1 rush (omega arith)

abbrev env : Env (Unit {0})
env = record {
  is_match = λ pattern text. false;
  build = λ pattern limit. inl (λ line. true);
  seconds = decimal;
  learn_from_command = λ r command. r;
  redact = λ r text. text;
  redact_command = λ r text. text;
}

-- A session whose shell ends at the first command.
abbrev hangs_up : List Reply
hangs_up = record silent { events = Event.closed ∷ [] } ∷ []

abbrev entry : SessionEntry (Unit {0})
entry = record {
  session = from_transport hangs_up true (codes "0a") tt;
  busy = false;
  last_used = 0;
  transport = codes "local";
  audit = none;
}

abbrev server : Server (Unit {0})
server = record { sessions = (codes "s", entry) ∷ []; live = 1; counter = 2; log = [] }

abbrev no_vars : Vars
no_vars = record {
  audit = none;
  audit_dir = none;
  audit_retention_days = none;
  key_dir = none;
  known_hosts = none;
  insecure_accept_any_hostkey = none;
  max_sessions = none;
  session_ttl = none;
  exec_timeout = none;
}

abbrev make : ExecParams
make = record { session_id = codes "s"; command = codes "make"; budget = none; timeout_secs = none }

session_exec-AllUsable_example :
    AllUsable (session_exec env tt empty (from_env none no_vars) 5 6 make server).0
unfolding from_transport
session_exec-AllUsable_example =
    session_exec-AllUsable env tt (from_env none no_vars) empty 5 6 make server (refl, tt)

-- A file system whose key directory is a link.
abbrev canonical : FilePath → Option FilePath
canonical path =
    if eq_text path (codes "/home/u/.ssh")
    then some (codes "/keys")
    else if eq_text path (codes "/home/u/.ssh/id_rsa")
    then some (codes "/keys/id_rsa")
    else none

abbrev bastion : HostEntry
bastion = record {
  hostname = some (codes "10.0.0.5");
  user = some (codes "deploy");
  port = some 2222;
  identity_files = codes "/opt/id" ∷ codes "/home/u/.ssh/id_rsa" ∷ [];
}

-- The first key file of the alias is not permitted, the second is; the call's user goes first.
resolve_ssh-IsAllowed_example :
    IsAllowed canonical (codes "/home/u/.ssh") none (SshAuth.key (codes "/keys/id_rsa") none)
    × IsPreferred canonical
        (codes "/home/u/.ssh")
        (codes "bastion")
        (some (codes "root"))
        none
        (some bastion)
        (codes "10.0.0.5")
        (some 2222)
        (codes "root")
unfolding resolve_ssh eq_text execkit.Text.Split.split
resolve_ssh-IsAllowed_example =
    resolve_ssh-IsAllowed canonical (codes "/home/u/.ssh") (codes "bastion") (some (codes "root"))
      none none none (some bastion) (codes "10.0.0.5") (some 2222) (codes "root")
      (SshAuth.key (codes "/keys/id_rsa") none) refl

-- The settings of a `Match` block are nobody's.
abbrev config_text : Text
config_text =
    codes
      "Host bastion\n User deploy\n\nMatch host \"192.168.*\"\n IdentityFile ~/.ssh/id_internal\n"
    ++ codes " HostName leaked.example\n"

lookup-eq-blocks_example : lookup config_text (codes "bastion") (codes "/home/u") ≡ (
    if is_named (codes "bastion") (keywords (lines config_text))
    then some
        (entry_of (codes "/home/u") (applied (codes "bastion") (keywords (lines config_text))))
    else none)
lookup-eq-blocks_example = lookup-eq-blocks config_text (codes "bastion") (codes "/home/u")

lookup-bastion :
    lookup config_text (codes "bastion") (codes "/home/u")
    ≡ some
        (record { hostname = none; user = some (codes "deploy"); port = none; identity_files = [] })
unfolding lookup execkit.Mcp.SshHosts.lookup_lines execkit.Mcp.SshHosts.keyword_of
    execkit.Mcp.SshHosts.on_keyword execkit.Mcp.SshHosts.matches_alias execkit.Mcp.SshHosts.unquote
    eq_text execkit.Mcp.SshHosts.set_field
lookup-bastion = refl

sanitize-space : sanitize (codes "web app") ≡ codes "web_app"
unfolding sanitize
sanitize-space = refl

abbrev local_call : CreateParams
local_call = record {
  transport = codes "local";
  container = none;
  host = none;
  port = none;
  user = none;
  password = none;
  key_path = none;
  fingerprint = none;
  allow = [];
  deny = [];
  auto_snapshot = false;
  workspace = none;
  paths = [];
  checkpoint_ignores = [];
  output_budget = none;
}

abbrev opens : CreateParams → Config → Attempt (Session (Unit {0}) × Text)
opens p config = some (ok (from_transport hangs_up true (codes "0a") tt, codes "local"))

session_create-IsRun_example :
    (sts : List (Step (Unit {0}))) × (opened : List ℕ) × (run
        (codes "1a2b")
        (from_env none no_vars).max_sessions
        (idle (with_log [] server) (1 ∷ []))
        sts
      ≡ idle
          (with_log []
            (session_create (codes "1a2b") off 9 (from_env none no_vars) opens local_call server).0)
          opened)
session_create-IsRun_example =
    session_create-IsRun (codes "1a2b") off 9 (from_env none no_vars) opens local_call server
      (1 ∷ []) []
