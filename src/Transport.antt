-- ===== src/Transport.antt =====
-- crates/execkit/src/transport: `KnownHosts` is the host-key check of ssh.rs, `Handshake` is
-- `shell_init` of mod.rs. Here is how an ssh host is reached.
pub mod KnownHosts
pub mod Handshake
use execkit.Base.{ℕ, Option}
use execkit.Text.Chars.{Text}

pub data SshAuth : Type 0 where
  password : Text → SshAuth
  key : (path : Text) → (passphrase : Option Text) → SshAuth

pub data HostKeyVerification : Type 0 where
  pinned known_hosts : Text → HostKeyVerification
  accept_any : HostKeyVerification

-- The timeout is in milliseconds.
pub record SshConfig : Type 0 where
  pub host : Text
  pub port : ℕ
  pub user : Text
  pub auth : SshAuth
  pub host_key : HostKeyVerification
  pub connect_timeout : ℕ

unfoldable pub new : Text → Text → SshAuth → HostKeyVerification → SshConfig
new host user auth host_key = record {
  host = host;
  port = 22;
  user = user;
  auth = auth;
  host_key = host_key;
  connect_timeout = 15000;
}
