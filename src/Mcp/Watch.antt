-- ===== src/Mcp/Watch.antt =====
-- crates/execkit-mcp/src/watch: the viewer. `Render` is render.rs with `follow_lines` of mod.rs, `State`
-- is state.rs, `Tail` is tail.rs, dirtail.rs and source.rs, `Meta` is meta.rs, `Web` is the session
-- history of web.rs, and `Http` and `Routes` are its connections.
pub mod Render
pub mod State
pub mod Views
pub mod Own
pub mod Demux
pub mod Tail
pub mod Web
pub mod Meta
pub mod Http
pub mod Routes
