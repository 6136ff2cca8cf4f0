-- ===== src/Budget.antt =====
-- crates/execkit/src/budget.rs: the pipeline that shapes one stream of output (grep, line window,
-- character cap). The regex engine is the `regex` crate's: `build` compiles a pattern under a size
-- limit, into the test of a line or an error text.
pub mod Builders
pub mod Grep
pub mod Window
pub mod Render
pub mod Apply
