-- ===== src/Mcp.antt =====
-- crates/execkit-mcp: the server's own rules around the library. `OperatorPolicy` is src/policy.rs,
-- `Retention` is src/retention.rs, `Paths` is src/paths.rs, `SshHosts` is src/sshconfig.rs, `Audit` is
-- src/audit.rs, `Watch` is src/watch, and `Params`, `Label`, `Connect` and `Server` are src/main.rs.
pub mod Paths
pub mod Params
pub mod Label
pub mod SshHosts
pub mod Audit
pub mod Connect
pub mod Server
pub mod Watch
pub mod OperatorPolicy
pub mod Retention
