-- ===== src/Mcp/Watch/Routes.antt =====
-- The answers to requests, of crates/execkit-mcp/src/watch/web.rs: `handle_post_state` and the routes of
-- `handle_conn`. JSON is the serde crate's, as parameters.
pub mod Guarded
pub mod Body
use execkit.Base.{
  ℕ, zero, suc, ◌+◌, ◌^◌, map, ◌-◌, Bool, true, false, not, ◌&&◌, List, [], ◌∷◌, ◌++◌, Option, none,
  some, ltb, leb, length, take, drop, is_empty, if◌then◌else◌,
}
use execkit.Text.Chars.{Text, Bytes, codes, starts_with, eq_text, to_ascii_lowercase}
use execkit.Text.Split.{lines, trim}
use execkit.Text.Utf8.{as_bytes}
use execkit.Text.Decimal.{parse_unsigned}
use execkit.Mcp.Params.{Checked, good, bad, and_then}
use execkit.Mcp.Watch.Meta.{ViewerState, max_state_bytes, parse_validated, load, save, Write}
use execkit.Mcp.Watch.Web.{SessionInfo, Entry, WireLine, list_sessions, session_transcript}
use execkit.Mcp.Audit.{AuditEvent}
use execkit.Mcp.Watch.Http.{
  Segment, arrived, broken, left_over, Head, got, hung_up, Request, read_head, request_of,
  head_text, find_prefixed, text_or_empty, ct_eq, write_simple,
}

abbrev lowered : List Text → List Text
lowered [] = []
lowered (l ∷ ls) = map to_ascii_lowercase l ∷ lowered ls

abbrev number_or_zero : Option Text → ℕ
number_or_zero none = 0
number_or_zero (some v) = elim (parse_unsigned (2 ^ 64 - 1) (trim v)) [ none ↦ 0 | some n ↦ n ]

unfoldable pub content_length : Text → ℕ
unfolding lines trim parse_unsigned starts_with
content_length head =
    number_or_zero (find_prefixed (codes "content-length:") (lowered (lines head)))

-- The loop that reads a body, 4096 bytes at most at a time; `none` is a read that fails. Each round adds
-- a byte, so a fuel above `len` is enough (`read_body-fuel`).
unfoldable pub read_body : ℕ → ℕ → Bytes → List Segment → Option Bytes
read_body zero len body ss = some body
read_body (suc fuel) len body [] = some body
read_body (suc fuel) len body (broken ∷ ss) = if ltb (length body) len then none else some body
read_body (suc fuel) len body (arrived c ∷ ss) =
    let body' = body ++ take 4096 c in
    let rest = read_body fuel len body' (left_over 4096 c ss) in
    if not (ltb (length body) len)
    then some body
    else if is_empty c
    then some body
    else if ltb max_state_bytes (length body')
    then some body'
    else rest

-- `closes`: nothing is sent. `streams`: the client gets the stream of events.
pub data Outcome : Type 0 where
  closes streams : Outcome
  answers : Bytes → Outcome

pub record Ctx : Type 0 where
  pub token : Text
  pub audit : Option (List Entry)
  pub state : Option Bytes

-- The page, and what the serde crate reads and prints.
pub record Json : Type 0 where
  pub page : Bytes
  pub from_slice : Bytes → Checked ViewerState
  pub to_vec_pretty : ViewerState → Option Bytes
  pub state_body : ViewerState → Option Bytes
  pub sessions_body : List SessionInfo → Option Bytes
  pub from_json : Text → Option AuditEvent
  pub lines_body : List WireLine → Option Bytes

abbrev pub plain : Text
plain = codes "text/plain"

abbrev pub forbidden : Outcome
unfolding write_simple
forbidden = answers (write_simple (codes "403 Forbidden") plain (codes "403 forbidden\n"))

abbrev pub bad_request : Bytes → Outcome
unfolding write_simple
bad_request body = answers (write_simple (codes "400 Bad Request") plain body)

abbrev pub not_found : Bytes → Outcome
unfolding write_simple
not_found body = answers (write_simple (codes "404 Not Found") plain body)

abbrev pub json_or : Bytes → Option Bytes → Outcome
unfolding write_simple
json_or d none = answers (write_simple (codes "200 OK") (codes "application/json") d)
json_or d (some body) = answers (write_simple (codes "200 OK") (codes "application/json") body)

-- The file, with the answer to its write.
abbrev pub saved : Option Bytes × Bool → Option Bytes × Outcome
unfolding write_simple
saved (file, true) = (
  file,
  answers (write_simple (codes "200 OK") (codes "application/json") (codes "{\"ok\":true}")),
)
saved (file, false) =
    (file, answers (write_simple (codes "500 Internal Server Error") plain (codes "save failed\n")))

abbrev pub stored : Json → Write → Ctx → Checked ViewerState → Option Bytes × Outcome
stored json w ctx (bad e) = (ctx.state, bad_request (as_bytes (e ++ codes "\n")))
stored json w ctx (good st) = saved (save json.to_vec_pretty w st ctx.state)

abbrev pub on_body : Json → Write → Ctx → Option Bytes → Option Bytes × Outcome
on_body json w ctx none = (ctx.state, closes)
on_body json w ctx (some body) = stored json w ctx (parse_validated json.from_slice body)

-- The bytes behind the head, not more than the length says.
abbrev pub body_start : ℕ → Bytes → Option ℕ → Bytes
body_start len buf none = []
body_start len buf (some end) = take len (drop end buf)

unfoldable pub handle_post_state :
    Json → Write → Ctx → Bytes → Option ℕ → List Segment → Option Bytes × Outcome
unfolding content_length parse_validated save read_body as_bytes
handle_post_state json w ctx buf head_end ss =
    let len = content_length (head_text buf head_end) in
    if ltb max_state_bytes len
    then (ctx.state, bad_request (codes "state too large\n"))
    else on_body json w ctx (read_body (suc len) len (body_start len buf head_end) ss)

abbrev pub get_route : Json → Ctx → Text → Outcome
unfolding write_simple load eq_text starts_with list_sessions session_transcript
get_route json ctx path =
    if eq_text path (codes "/")
    then answers (write_simple (codes "200 OK") (codes "text/html; charset=utf-8") json.page)
    else if eq_text path (codes "/events")
    then streams
    else if eq_text path (codes "/state")
    then json_or (codes "{}") (json.state_body (load json.from_slice ctx.state))
    else if eq_text path (codes "/sessions")
    then json_or (codes "[]") (json.sessions_body (list_sessions ctx.audit))
    else if starts_with (codes "/session/") path
    then (elim (and_then json.lines_body
        (session_transcript json.from_json ctx.audit (drop 9 path))) [
          | some body ↦ json_or [] (some body)
          | none ↦ not_found (codes "no such session\n")
        ])
    else not_found (codes "404 not found\n")

abbrev pub is_get : Request → Bool
unfolding eq_text
is_get r = eq_text r.method (codes "GET")

abbrev pub is_post_state : Request → Bool
unfolding eq_text
is_post_state r = eq_text r.method (codes "POST") && eq_text r.path (codes "/state")

abbrev pub route :
    Json → Write → Ctx → Request → Bytes → Option ℕ → List Segment → Option Bytes × Outcome
unfolding handle_post_state
route json w ctx r buf head_end ss =
    if is_get r
    then (ctx.state, get_route json ctx r.path)
    else if is_post_state r
    then handle_post_state json w ctx buf head_end ss
    else (ctx.state, not_found (codes "404 not found\n"))

abbrev pub on_head : Json → Write → Ctx → Head → Option Bytes × Outcome
unfolding ct_eq request_of
on_head json w ctx hung_up = (ctx.state, closes)
on_head json w ctx (got buf head_end ss) =
    let r = request_of (head_text buf head_end) in
    if not (ct_eq (as_bytes r.supplied) (as_bytes ctx.token))
    then (ctx.state, forbidden)
    else route json w ctx r buf head_end ss

-- The state file after a connection, and what the client gets.
unfoldable pub handle_conn : Json → Write → Ctx → List Segment → Option Bytes × Outcome
unfolding read_head
handle_conn json w ctx ss = on_head json w ctx (read_head [] ss)
