-- ===== src/Session/Channel.antt =====
-- One framed command over the transport: `run_framed_for`, `interrupt` and `resync` of
-- crates/execkit/src/session.rs. What the transport and the clock do during one command is a value,
-- a `Reply`; a loop takes one event in each round, and the end of the events is the deadline.
pub mod Answered
use execkit.Base.{
  ℕ, ◌-◌, ◌/◌, ◌==◌, Bool, true, false, ◌||◌, List, [], ◌∷◌, ◌++◌, Option, none, some, length, take,
  drop, is_empty, ltb, if◌then◌else◌,
}
use execkit.Text.Chars.{Text, Bytes, codes}
use execkit.Text.Utf8.{as_bytes, from_utf8_lossy}
use execkit.Text.Decimal.{ℤ, pos}
use execkit.Error.{Error, Result, ok, err}
use execkit.Output.{clean}
use execkit.Framing.Markers.{Markers, new_markers}
use execkit.Framing.Payload.{build_payload}
use execkit.Framing.Parse.{Parsed, parse}
use execkit.Framing.Accumulator.{Accumulator, new, push, overflowed, partial_stdout}
use execkit.Session.Validate.{stderr_tail}

-- `recv_timeout`: a chunk, or nothing with time still on the clock (the channel closed).
pub data Event : Type 0 where
  chunk : Bytes → Event
  closed : Event

-- An error of `write_all`.
pub data WriteError : Type 0 where
  io transport : Text → WriteError

abbrev pub write_failed : WriteError → Error
write_failed (WriteError.io e) = Error.io e
write_failed (WriteError.transport e) = Error.transport e

-- The tokens are `framing::new_token`'s, which are random; `elapsed_ms` is the clock's.
pub record Reply : Type 0 where
  pub token : Text
  pub write_error : Option WriteError
  pub events : List Event
  pub resync_token : Text
  pub resync_write_error : Option (ℕ × WriteError)
  pub resync_events : List Event
  pub elapsed_ms : ℕ

-- Nothing comes, and each deadline passes.
abbrev pub silent : Reply
silent = record {
  token = [];
  write_error = none;
  events = [];
  resync_token = [];
  resync_write_error = none;
  resync_events = [];
  elapsed_ms = 0;
}

pub record Framed : Type 0 where
  pub stdout : Text
  pub stderr : Text
  pub exit_code : ℤ
  pub cwd : Text
  pub overflowed : Bool
  pub timed_out : Bool

abbrev pub framed_of : Parsed → Bool → Framed
framed_of p over = record {
  stdout = p.stdout;
  stderr = p.stderr;
  exit_code = p.exit_code;
  cwd = p.cwd;
  overflowed = over;
  timed_out = false;
}

-- How the loop ends.
pub data LoopEnd : Type 0 where
  finished : Framed → LoopEnd
  deadline : Accumulator → LoopEnd
  hung_up : LoopEnd

unfoldable pub run_loop : Markers → Accumulator → List Event → LoopEnd
run_loop m acc [] = LoopEnd.deadline acc
run_loop m acc (Event.closed ∷ events) = LoopEnd.hung_up
run_loop m acc (Event.chunk bytes ∷ events) =
    let (r, acc') = push acc bytes m in
    let rest = run_loop m acc' events in
    elim r [ some p ↦ LoopEnd.finished (framed_of p (overflowed acc')) | none ↦ rest ]

abbrev pub resync_cap : ℕ
resync_cap = 65536

-- A still flooding command must not grow the buffer: its last half is kept.
abbrev pub drain : Bytes → Bytes
drain acc = if ltb resync_cap (length acc) then drop (length acc - resync_cap / 2) acc else acc

unfoldable pub resync_loop : Markers → Bytes → List Event → Result (Text × Text)
resync_loop m acc [] = err Error.still_running
resync_loop m acc (Event.closed ∷ events) = err Error.still_running
resync_loop m acc (Event.chunk bytes ∷ events) =
    let acc' = drain (acc ++ bytes) in
    let rest = resync_loop m acc' events in
    elim (parse acc' m) [ some p ↦ ok (p.cwd, stderr_tail p.stderr 16384) | none ↦ rest ]

-- Ctrl-C, the line that saves the stderr file's name, and the cleanup command.
abbrev pub save_line : Text
save_line = codes "{ __ek_x=$__ek_f; } 2>/dev/null\n"

abbrev pub resync_command : Text
resync_command =
    codes "__ek_n=$(wc -c 2>/dev/null <\"$__ek_x\"); tail -c 16384 \"$__ek_x\" >&2 2>/dev/null; "
    ++ codes "printf '\\n%s#' \"$__ek_n\" >&2; rm -f \"$__ek_x\" 2>/dev/null; unset __ek_x __ek_n"

-- The three writes.
abbrev pub resync_writes : Text → List Bytes
resync_writes token =
    (3 ∷ []) ∷ as_bytes save_line ∷ as_bytes (build_payload resync_command token) ∷ []

-- A write that fails leaves those before it; `n` of the three succeeded. What was written, and the cwd with the late stderr.
unfoldable pub resync : Reply → List Bytes × Result (Text × Text)
resync r = elim r.resync_write_error [
  | some (n, e) ↦ (take n (resync_writes r.resync_token), err (write_failed e))
  | none ↦
      (resync_writes r.resync_token, resync_loop (new_markers r.resync_token) [] r.resync_events)
]

abbrev ends_with_newline : Text → Bool
ends_with_newline [] = false
ends_with_newline (c ∷ []) = c == b'\n'
ends_with_newline (c ∷ d ∷ cs) = ends_with_newline (d ∷ cs)

-- `seconds` is the timeout in the form of `as_secs_f64`.
abbrev pub guidance : Text → Text → Text
guidance seconds late =
    late
    ++ ((if is_empty late || ends_with_newline late then [] else codes "\n")
        ++ (codes "execkit: timed out after "
            ++ (seconds
                ++ (codes
                      "s; sent Ctrl-C. The shell session is intact (cwd/env kept). For long jobs run "
                    ++ codes
                        "them in the background: nohup CMD > /tmp/job.log 2>&1 & then poll the log."))))

-- What one command leaves: the bytes written, the result, and whether the session is now poisoned.
pub record Ran : Type 0 where
  pub written : List Bytes
  pub poisons : Bool
  pub result : Result Framed

-- By the outcome of the resync.
abbrev pub interrupted : Text → Markers → Accumulator → List Bytes → Result (Text × Text) → Ran
interrupted seconds m acc sent (err e) = record {
  written = sent;
  poisons = true;
  result = err Error.still_running;
}
interrupted seconds m acc sent (ok (cwd, late)) = record {
  written = sent;
  poisons = false;
  result = ok (record {
    stdout = clean (from_utf8_lossy (partial_stdout acc m));
    stderr = guidance seconds late;
    exit_code = pos 124;
    cwd = cwd;
    overflowed = overflowed acc;
    timed_out = true;
  });
}

unfoldable pub interrupt : Text → Markers → Reply → Accumulator → Ran
interrupt seconds m r acc = let (sent, back) = resync r in interrupted seconds m acc sent back

-- By the way the loop ended.
abbrev pub ended : Text → Markers → Reply → Bytes → LoopEnd → Ran
ended seconds m r payload (LoopEnd.finished f) = record {
  written = payload ∷ [];
  poisons = false;
  result = ok f;
}
ended seconds m r payload LoopEnd.hung_up = record {
  written = payload ∷ [];
  poisons = true;
  result = err Error.shell_exited;
}
ended seconds m r payload (LoopEnd.deadline acc) =
    let i = interrupt seconds m r acc in record i { written = payload ∷ i.written }

abbrev pub sent_unless : Option WriteError → Ran → Ran
sent_unless none ran = ran
sent_unless (some e) ran = record { written = []; poisons = false; result = err (write_failed e) }

-- `run_framed_for`, on the transport's reply to this command.
unfoldable pub run_command : Text → Text → ℕ → Reply → Ran
run_command seconds command acc_cap r =
    let m = new_markers r.token in
    let payload = as_bytes (build_payload command r.token) in
    sent_unless r.write_error (ended seconds m r payload (run_loop m (new acc_cap) r.events))
