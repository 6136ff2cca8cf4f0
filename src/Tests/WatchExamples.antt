-- ===== src/Tests/WatchExamples.antt =====
-- The theorems on the viewer (crates/execkit-mcp/src/watch) at concrete inputs.
use execkit.Base.{
  ℕ, ◌∷◌, ◌++◌, [], List, map, true, Option, none, some, ◌≡◌, refl, arith, length, ◌⊎◌,
}
use execkit.Text.Chars.{Text, codes}
use execkit.Text.Utf8.{as_bytes}
use execkit.Text.Utf8.RoundTrip.{IsScalar-small}
use execkit.Mcp.Params.{good}
use execkit.Mcp.Audit.{AuditEvent}
use execkit.Mcp.Label.{label_for, session_id, file_stem, audit_file}
use execkit.Mcp.Watch.State.{new}
use execkit.Mcp.Watch.Views.{ids_from, apply_all}
use execkit.Mcp.Watch.Own.{view_of}
use execkit.Mcp.Watch.Demux.{apply_all-demux}
use execkit.Mcp.Watch.Tail.{Tailer, poll, seen, complete, events_of}
use execkit.Mcp.Watch.Tail.Polls.{grown, polls, polls-complete}
use execkit.Mcp.Watch.Meta.{takes, no_state}
use execkit.Mcp.Watch.Http.{Segment, arrived}
use execkit.Mcp.Watch.Routes.{Json, Ctx, handle_conn}
use execkit.Mcp.Watch.Routes.Guarded.{IsTurnedAway, IsAuthorised, handle_conn-IsGuarded}
use execkit.Mcp.Watch.Web.{Entry, session_info, id_ok}
use execkit.Mcp.Watch.Web.Listed.{row_of, session_info-audit_file}

abbrev two_sessions : List AuditEvent
two_sessions =
    AuditEvent.opened 1 (codes "a") (codes "local")
    ∷ AuditEvent.opened 2 (codes "b") (codes "docker:c")
    ∷ AuditEvent.close 3 (codes "a") (codes "destroyed")
    ∷ []

apply_all-demux_example :
    (apply_all two_sessions new).sessions ≡ map (view_of two_sessions) (ids_from [] two_sessions)
apply_all-demux_example = apply_all-demux two_sessions

-- A file of two characters and a line end, the second character's last byte written later.
abbrev snippet : Text
snippet = 97 ∷ 233 ∷ b'\n' ∷ 98 ∷ []

abbrev any_line : Text → Option ℕ
any_line l = some (length l)

polls-complete_example :
    polls any_line
      (grown [] ((97 ∷ 0xC3 ∷ []) ∷ (0xA9 ∷ b'\n' ∷ 98 ∷ []) ∷ []))
      execkit.Mcp.Watch.Tail.new
    ≡ (
      record { offset = length (as_bytes snippet); buf = (complete snippet).1 },
      events_of any_line (complete snippet).0,
    )
unfolding as_bytes
polls-complete_example =
    polls-complete any_line snippet (97 ∷ 0xC3 ∷ []) ((0xA9 ∷ b'\n' ∷ 98 ∷ []) ∷ [])
      (IsScalar-small snippet refl) refl

abbrev id : Text
id =
    session_id (codes "1a2b") 3 (label_for (codes "docker") none none none (some (codes "web app")))

abbrev log_entry : Entry
log_entry = record {
  name = audit_file id 1700000000000;
  size = some 12;
  modified = none;
  text = none;
}

session_info-audit_file_example :
    (session_info log_entry ≡ some (row_of log_entry id 1700000000000))
    × (id_ok (file_stem id 1700000000000) ≡ true)
session_info-audit_file_example =
    session_info-audit_file (codes "1a2b") 3 (codes "docker") none none none
      (some (codes "web app")) 1700000000000 log_entry (refl, refl) (omega arith) tt (omega arith)
      refl

abbrev json : Json
json = record {
  page = codes "<html>";
  from_slice = λ body. good no_state;
  to_vec_pretty = λ st. some (codes "{}");
  state_body = λ st. some (codes "{}");
  sessions_body = λ rows. some (codes "[]");
  from_json = λ line. none;
  lines_body = λ rows. some (codes "[]");
}

abbrev ctx : Ctx
ctx = record { token = codes "5f"; audit = none; state = none }

-- A POST of the state in two pieces, whose write takes one byte.
abbrev pieces : List Segment
pieces =
    arrived (codes "POST /state?t=5f HTTP/1.1\r\nContent-Le")
    ∷ arrived (codes "ngth: 2\r\n\r\n{}")
    ∷ []

handle_conn-IsGuarded_example :
    IsTurnedAway json (takes 1) ctx (handle_conn json (takes 1) ctx pieces)
    ⊎ IsAuthorised json (takes 1) ctx pieces (handle_conn json (takes 1) ctx pieces).0
handle_conn-IsGuarded_example = handle_conn-IsGuarded json (takes 1) ctx pieces

-- A file that grows between the two looks of a poll: its second line is delivered twice.
abbrev grows_between : Tailer × List ℕ
unfolding poll
grows_between = poll any_line execkit.Mcp.Watch.Tail.new (seen 2 (codes "a\nb\n"))

poll-grows_between :
    grows_between.1 ++ (poll any_line grows_between.0 (seen 4 (codes "a\nb\n"))).1 ≡ 1 ∷ 1 ∷ 1 ∷ []
unfolding grows_between poll execkit.Mcp.Watch.Tail.new events_of
poll-grows_between = refl
