-- ===== src/Mcp/Audit.antt =====
-- crates/execkit-mcp/src/audit.rs: the audit events, and the log as the list of the lines written, each
-- with its file. The JSON of an event is the serde crate's.
use execkit.Base.{ℕ, Bool, List, [], ◌∷◌, ◌++◌, Option, none, some}
use execkit.Text.Chars.{Text}
use execkit.Text.Decimal.{ℤ}
use execkit.Session.State.{ExecResult}
use execkit.Mcp.Paths.{FilePath, join}
use execkit.Mcp.Params.{Config}
use execkit.Mcp.Label.{audit_file}

pub record Exec : Type 0 where
  pub session : Text
  pub transport : Text
  pub command : Text
  pub stdout : Text
  pub stderr : Text
  pub exit_code : ℤ
  pub duration_ms : ℕ
  pub cwd : Text
  pub truncated : Bool
  pub timed_out : Bool

-- The first argument of an event is its time, `ts`.
pub data AuditEvent : Type 0 where
  opened : ℕ → (session transport : Text) → AuditEvent
  exec : ℕ → Exec → AuditEvent
  close : ℕ → (session reason : Text) → AuditEvent
  blocked : ℕ → (session transport command reason : Text) → AuditEvent

-- `AuditEvent::session`.
abbrev pub session_of : AuditEvent → Text
session_of (opened ts session transport) = session
session_of (exec ts e) = e.session
session_of (close ts session reason) = session
session_of (blocked ts session transport command reason) = session

abbrev pub exec_of : Text → Text → ExecResult → Exec
exec_of session transport r = record {
  session = session;
  transport = transport;
  command = r.command;
  stdout = r.stdout;
  stderr = r.stderr;
  exit_code = r.exit_code;
  duration_ms = r.duration_ms;
  cwd = r.cwd;
  truncated = r.truncated;
  timed_out = r.timed_out;
}

pub data AuditSink : Type 0 where
  off : AuditSink
  shared per_session : FilePath → AuditSink

-- Of `ExeckitServer::new`: a directory goes before a file.
unfoldable pub sink_of : Config → AuditSink
sink_of config = elim config.audit_dir [
  | some dir ↦ per_session dir
  | none ↦ elim config.audit_path [ some path ↦ shared path | none ↦ off ]
]

unfoldable pub writer_for : AuditSink → Text → ℕ → Option FilePath
unfolding audit_file join
writer_for off session_id now = none
writer_for (shared w) session_id now = some w
writer_for (per_session dir) session_id now = some (join dir (audit_file session_id now))

abbrev pub Log : Type 0
Log = List (FilePath × AuditEvent)

-- `append`; a session without a writer records nothing.
abbrev pub append : Option FilePath → AuditEvent → Log → Log
append none ev log = log
append (some file) ev log = log ++ (file, ev) ∷ []
