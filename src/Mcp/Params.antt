-- ===== src/Mcp/Params.antt =====
-- The arguments of the tools and the operator's configuration, of crates/execkit-mcp/src/main.rs.
use execkit.Base.{
  ℕ, ◌*◌, ◌-◌, ◌^◌, Bool, true, false, List, ◌++◌, Option, none, some, ltb, if◌then◌else◌,
}
use execkit.Text.Chars.{Text, codes, eq_text}
use execkit.Text.Split.{trim}
use execkit.Text.Decimal.{parse_unsigned}
use execkit.Budget.Builders.{Budget, Grep, Keep}
use execkit.Mcp.Paths.{FilePath, ssh_dir, default_known_hosts_path}

-- `Grep` serves for `GrepParams`.
pub record KeepParams : Type 0 where
  pub mode : Text
  pub n : Option ℕ
  pub head : Option ℕ
  pub tail : Option ℕ

pub record BudgetParams : Type 0 where
  pub grep : Option Grep
  pub keep : Option KeepParams
  pub max_chars : Option ℕ

pub record CreateParams : Type 0 where
  pub transport : Text
  pub container : Option Text
  pub host : Option Text
  pub port : Option ℕ
  pub user : Option Text
  pub password : Option Text
  pub key_path : Option FilePath
  pub fingerprint : Option Text
  pub allow : List Text
  pub deny : List Text
  pub auto_snapshot : Bool
  pub workspace : Option Text
  pub paths : List Text
  pub checkpoint_ignores : List Text
  pub output_budget : Option BudgetParams

abbrev pub unwrap_or {ℓ} : {A : Type ℓ} → A → Option A → A
unwrap_or d none = d
unwrap_or d (some a) = a

-- A value, or the text of an error.
pub data Checked {ℓ} (A : Type ℓ) : Type ℓ where
  good : A → Checked A
  bad : Text → Checked A

unfoldable pub keep_of : Option KeepParams → Checked Keep
unfolding eq_text
keep_of none = good Keep.all
keep_of (some k) =
    if eq_text k.mode (codes "all")
    then good Keep.all
    else if eq_text k.mode (codes "tail")
    then good (Keep.tail (unwrap_or 0 k.n))
    else if eq_text k.mode (codes "head")
    then good (Keep.head (unwrap_or 0 k.n))
    else if eq_text k.mode (codes "head_tail")
    then good (Keep.head_tail (unwrap_or 0 k.head) (unwrap_or 0 k.tail))
    else bad (codes "unknown keep mode: " ++ k.mode)

abbrev budget_with : BudgetParams → Checked Keep → Checked Budget
budget_with p (bad e) = bad e
budget_with p (good keep) = good (record { grep = p.grep; keep = keep; max_chars = p.max_chars })

unfoldable pub to_budget : BudgetParams → Checked Budget
unfolding keep_of
to_budget p = budget_with p (keep_of p.keep)

-- A call's arguments; `timeout_secs` is a u64.
pub record ExecParams : Type 0 where
  pub session_id : Text
  pub command : Text
  pub budget : Option BudgetParams
  pub timeout_secs : Option ℕ

pub record Config : Type 0 where
  pub audit_path : Option FilePath
  pub audit_dir : Option FilePath
  pub retention_days : ℕ
  pub key_dir : FilePath
  pub known_hosts : FilePath
  pub insecure_accept_any : Bool
  pub max_sessions : ℕ
  -- A Duration, in milliseconds like the server's clock.
  pub session_ttl : Option ℕ
  pub exec_timeout_secs : ℕ

-- The variables that the configuration is read from.
pub record Vars : Type 0 where
  pub audit : Option Text
  pub audit_dir : Option Text
  pub audit_retention_days : Option Text
  pub key_dir : Option Text
  pub known_hosts : Option Text
  pub insecure_accept_any_hostkey : Option Text
  pub max_sessions : Option Text
  pub session_ttl : Option Text
  pub exec_timeout : Option Text

abbrev pub and_then {ℓ κ} : {A : Type ℓ} {B : Type κ} → (A → Option B) → Option A → Option B
and_then f none = none
and_then f (some a) = f a

abbrev parse_u64 : Text → Option ℕ
parse_u64 = parse_unsigned (2 ^ 64 - 1)

-- `clamp(lo, hi)`.
abbrev pub clamp : ℕ → ℕ → ℕ → ℕ
clamp lo hi n = if ltb n lo then lo else if ltb hi n then hi else n

-- The variable is in seconds, the Duration in milliseconds; 0 turns idle reaping off.
abbrev ttl_of : Option ℕ → Option ℕ
ttl_of none = some (1800 * 1000)
ttl_of (some n) = if ltb 0 n then some (n * 1000) else none

abbrev is_some {ℓ} : {A : Type ℓ} → Option A → Bool
is_some none = false
is_some (some a) = true

-- `home` is the home directory that the `home` crate finds.
unfoldable pub from_env : Option FilePath → Vars → Config
unfolding parse_unsigned trim ssh_dir default_known_hosts_path
from_env home v = record {
  audit_path = v.audit;
  audit_dir = v.audit_dir;
  retention_days = unwrap_or 14 (and_then (λ s. parse_u64 (trim s)) v.audit_retention_days);
  key_dir = unwrap_or (ssh_dir home) v.key_dir;
  known_hosts = unwrap_or (default_known_hosts_path home) v.known_hosts;
  insecure_accept_any = is_some v.insecure_accept_any_hostkey;
  max_sessions = unwrap_or 64 (and_then parse_u64 v.max_sessions);
  session_ttl = ttl_of (and_then parse_u64 v.session_ttl);
  exec_timeout_secs =
      clamp 1 3600 (unwrap_or 120 (and_then (λ s. parse_u64 (trim s)) v.exec_timeout));
}
