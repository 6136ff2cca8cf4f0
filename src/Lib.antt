-- ===== src/Lib.antt =====
-- execkit: structured command execution over a persistent shell.
--
-- A session (crates/execkit/src/session.rs) sends each command to a shell over a transport, framed by
-- sentinels with a fresh token (framing.rs), collects the output until the trailer arrives, cleans and
-- bounds it (output.rs), shapes it with a budget (budget.rs), and returns exit code, directory and the
-- two streams. Before a command runs, an advisory policy is asked (policy.rs), and on remote sessions
-- a checkpoint of the workspace is taken with git (checkpoint.rs).
--
-- The modules, with the code they model:
--   Base        names shared by all modules: lists, tests and case splits over native numbers
--   Text        what the code takes of Rust's strings: scalar values, bytes, cuts, UTF-8, decimals
--   Error       crates/execkit/src/error.rs
--   Output      crates/execkit/src/output.rs: strip_ansi, clean, bound
--   Framing     crates/execkit/src/framing.rs: Search (find, rfind), Base64 (b64), Markers, Payload
--               (build_payload), Parse (parse), Accumulator (Accumulator, compact_range)
--   Budget      crates/execkit/src/budget.rs: Builders, Grep (grep_keep_indices), Window
--               (keep_subset), Render (render), Apply (compile_grep, apply)
--   Policy      crates/execkit/src/policy.rs: programs, Policy::check
--   Checkpoint  crates/execkit/src/checkpoint.rs: ReadOnly (is_read_only), Quote (shq), Commands
--               (Checkpointer), Output (parse_sha, parse_log)
--   Session     crates/execkit/src/session.rs: Validate (the checks of untrusted names, stderr_tail),
--               Channel (run_framed_for, interrupt, resync), State (Session, its builders), Checkpoints
--               (checkpoint, checkpoints, restore, the automatic snapshot, drop), Exec (exec and its
--               variants); the theorems stand in Validate/Tail, Validate/Hash, Channel/Answered,
--               Guards, Poison, Kept and Echo (with Redaction, which fills the session's redactor
--               interface)
--   Redact      crates/execkit/src/redact.rs: Redactor::learn_from_command, Redactor::redact, and in
--               Values redact_key_values, looks_like_code and the module's own redact
--   Transport   crates/execkit/src/transport: the ssh configuration and the host-key check (ssh.rs, in
--               KnownHosts: verify_known_hosts, verify_fingerprint, check_server_key), and the readiness
--               handshake (mod.rs, in Handshake: shell_init)
--   Mcp         crates/execkit-mcp/src. OperatorPolicy (policy.rs), Retention (retention.rs), Paths
--               (paths.rs), SshHosts (sshconfig.rs: lookup), Audit (audit.rs and AuditSink). Of main.rs:
--               Params (the tools' parameters, Config::from_env), Label (sanitize, the labels, session
--               ids and log files), Connect (validated_key_path, resolve_ssh, and build_session in
--               Build), Server (the map of sessions, the cap's counter, the session counter), with
--               Server/Handlers (the tools on sessions, reap_idle), Server/Exec (session_exec) and
--               Server/Gate (the atomic steps of concurrent calls, in any order). Of watch: Watch/Render
--               (render.rs, follow_lines of mod.rs), Watch/State (state.rs), Watch/Tail (tail.rs,
--               dirtail.rs, source.rs), Watch/Meta (meta.rs), Watch/Web (of web.rs id_ok, split_label,
--               list_sessions, session_transcript), Watch/Http and Watch/Routes (of web.rs
--               handle_conn, handle_post_state, ct_eq)
--   Tests       runs on the inputs of the unit tests, and each theorem at a concrete input
--
-- How it is modelled. A str is the list of its scalar values, a byte slice the list of its bytes. An
-- operation on `&mut self` returns the new state; `?` is a chain of results. Loops over a list are
-- structural; `find_block` and `find_start` move forward in a buffer and take its length plus one as
-- fuel, which is enough since each round moves by one byte at least (`parse-printed` and
-- `feed-eq-parse` depend on it). The loops over the body of a request (`read_body-fuel`) and over the
-- key/value matches (`redact_loop-enough`) move on in each round too. Lengths and
-- positions in a buffer are plain numbers; where a count comes from outside (budget windows, grep
-- context, the output cap) the saturating arithmetic of the code is written out. `apply` is an
-- Option whose `none` is a panic. The transport, the clock and the random tokens are a list of
-- replies, one for each command: each round of a loop takes one event, and the end of the events is
-- the deadline. The handshake's loop takes a list of waits: a chunk and the time that it leaves, or
-- nothing, as the code cannot tell a closed channel from a deadline there. The server's clock and the
-- lifetime of an idle session are milliseconds, ages of audit files nanoseconds. The server's map is its list of entries and its atomic counters wrap at 64 bits; its
-- log is the list of what was appended. A file that is polled is what each look at it finds.
--
-- Parameters: the regex crate's matcher and builder, git's pattern matching, the printed form of a
-- duration. In Redact the fixed patterns are one parameter; Values says how they are applied in
-- turn. Of the server: canonical paths, the opening of a connection, the home directory, the clock
-- and local time, and serde's reading and printing of JSON.
--
-- Not modelled: the input and output of PTY, docker and ssh (crates/execkit/src/transport); the
-- audit file of the library (audit.rs; the session keeps the records it would write); of
-- crates/execkit-mcp the notifications to the client, the server's description and dispatch
-- (main.rs), the screen (tui.rs), the listener, the token's file and the stream of web.rs and the
-- command line (cli.rs); and the Python binding (crates/execkit-py). They are calls of other crates,
-- of the operating system or of the library's own operations.
pub mod Base
pub mod Text
pub mod Output
pub mod Framing
pub mod Error
pub mod Budget
pub mod Policy
pub mod Checkpoint
pub mod Session
pub mod Tests
pub mod Redact
pub mod Transport
pub mod Mcp
