-- ===== src/Framing.antt =====
-- crates/execkit/src/framing.rs: how a command is sent to the shell and how its result comes back.
-- `Search` has `find` and `rfind`, `Base64` the encoder, `Payload` what is written to the shell,
-- `Parse` the trailer's parser, `Accumulator` the incremental buffer with its compaction.
pub mod Search
pub mod Base64
pub mod Markers
pub mod Payload
pub mod Parse
pub mod Accumulator
