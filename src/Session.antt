-- ===== src/Session.antt =====
-- crates/execkit/src/session.rs: the persistent session. `Validate` has the checks of untrusted names
-- and the cut of late stderr, `Channel` one framed command over the transport, `State` the session and
-- its builders, `Checkpoints` the checkpoint operations, `Exec` the command path.
pub mod Validate
pub mod Channel
pub mod State
pub mod Checkpoints
pub mod Exec
pub mod Poison
pub mod Guards
pub mod Redaction
pub mod Kept
pub mod Echo
