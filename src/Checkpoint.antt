-- ===== src/Checkpoint.antt =====
-- crates/execkit/src/checkpoint.rs: the command lines, the parsers and the classification behind a
-- session's checkpoints. `ReadOnly` has `is_read_only`, `Quote` has `shq`, `Commands` the
-- `Checkpointer` and its command lines, `Output` the two parsers of git's output.
pub mod ReadOnly
pub mod Quote
pub mod Commands
pub mod Output
