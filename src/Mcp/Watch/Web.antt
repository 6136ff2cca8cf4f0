-- ===== src/Mcp/Watch/Web.antt =====
-- The session history of crates/execkit-mcp/src/watch/web.rs: `id_ok`, `split_label`, `list_sessions`
-- and `session_transcript`. The directory is the list of its entries; the JSON is the serde crate's.
pub mod Listed
use execkit.Base.{
  ℕ, ◌-◌, ◌^◌, Bool, true, false, not, ◌&&◌, ◌||◌, List, [], ◌∷◌, ◌++◌, Option, none, some, ◌==◌,
  ltb, leb, all, is_empty, length, map, if◌then◌else◌,
}
use execkit.Text.Chars.{Text, Bytes, codes, is_ascii_alphanumeric, eq_text}
use execkit.Text.Split.{split_once, lines}
use execkit.Text.Utf8.{as_bytes}
use execkit.Text.Decimal.{parse_unsigned}
use execkit.Session.Validate.{rsplit_once}
use execkit.Mcp.Audit.{AuditEvent, session_of}
use execkit.Mcp.Watch.Render.{LineKind, StyledLine, render_event, display_ts}

abbrev pub is_id_byte : ℕ → Bool
is_id_byte b =
    is_ascii_alphanumeric b || b == b'@' || b == b'.' || b == b':' || b == b'_' || b == b'-'

abbrev pub starts_alphanumeric : Bytes → Bool
starts_alphanumeric [] = false
starts_alphanumeric (b ∷ bs) = is_ascii_alphanumeric b

unfoldable pub id_ok : Text → Bool
unfolding as_bytes
id_ok id =
    let bytes = as_bytes id in
    not (is_empty bytes)
    && leb (length bytes) 128
    && all is_id_byte bytes
    && starts_alphanumeric bytes

-- `strip_suffix` of a text.
unfoldable pub strip_suffix_text : Text → Text → Option Text
unfolding eq_text
strip_suffix_text suffix [] = if eq_text suffix [] then some [] else none
strip_suffix_text suffix (c ∷ cs) =
    let rest = strip_suffix_text suffix cs in
    if eq_text (c ∷ cs) suffix then some [] else elim rest [ none ↦ none | some r ↦ some (c ∷ r) ]

-- The text behind the first `_`, and what a missing cut leaves.
abbrev pub or_empty : Option Text → Text
or_empty none = []
or_empty (some t) = t

unfoldable pub split_label : Text → Text × Text
unfolding split_once eq_text
split_label id =
    let rest = or_empty (split_once (λ c. c == b'_') id).1 in
    let (transport, cut) = split_once (λ c. c == b'_') rest in
    let tail = or_empty cut in
    (transport, if eq_text transport (codes "local") || is_empty tail then transport else tail)

pub record SessionInfo : Type 0 where
  pub key : Text
  pub id : Text
  pub label : Text
  pub transport : Text
  pub started_ms : ℕ
  pub last_ms : ℕ
  pub size : ℕ

-- `size` and `modified` (unix milliseconds) are the entry's metadata, where it can be read; `text` is
-- the file's, where it can.
pub record Entry : Type 0 where
  pub name : Text
  pub size : Option ℕ
  pub modified : Option ℕ
  pub text : Option Text

abbrev pub or_zero : Option ℕ → ℕ
or_zero none = 0
or_zero (some n) = n

abbrev pub last_of : ℕ → Option ℕ → ℕ
last_of started none = started
last_of started (some ms) = if ltb 0 ms then ms else started

abbrev pub info_of : Entry → Text → Text × Text → SessionInfo
info_of e stem (id, ts) =
    let started = or_zero (parse_unsigned (2 ^ 64 - 1) ts) in
    let (transport, label) = split_label id in
    record {
      key = stem;
      id = id;
      label = label;
      transport = transport;
      started_ms = started;
      last_ms = last_of started e.modified;
      size = or_zero e.size;
    }

abbrev pub info_if : Entry → Text → Option (Text × Text) → Option SessionInfo
info_if e stem none = none
info_if e stem (some (id, ts)) = if id_ok id then some (info_of e stem (id, ts)) else none

abbrev pub info_of_stem : Entry → Option Text → Option SessionInfo
info_of_stem e none = none
info_of_stem e (some stem) = info_if e stem (rsplit_once b'-' stem)

-- What one entry adds to the list.
unfoldable pub session_info : Entry → Option SessionInfo
unfolding strip_suffix_text rsplit_once id_ok split_label parse_unsigned
session_info e = info_of_stem e (strip_suffix_text (codes ".jsonl") e.name)

-- `sort_by_key` with the latest start first; equal ones keep their order.
unfoldable pub insert_newest : SessionInfo → List SessionInfo → List SessionInfo
insert_newest s [] = s ∷ []
insert_newest s (t ∷ ts) =
    if ltb s.started_ms t.started_ms then t ∷ insert_newest s ts else s ∷ t ∷ ts

-- `none`: the audit path is no directory, or cannot be read.
unfoldable pub list_sessions : Option (List Entry) → List SessionInfo
unfolding session_info insert_newest
list_sessions none = []
list_sessions (some []) = []
list_sessions (some (e ∷ es)) =
    let rest = list_sessions (some es) in
    elim (session_info e) [ none ↦ rest | some s ↦ insert_newest s rest ]

abbrev pub has_stem : Text → Option Text → Bool
has_stem key none = false
has_stem key (some stem) = eq_text stem key

unfoldable pub find_stem : Text → List Entry → Option Entry
unfolding strip_suffix_text eq_text
find_stem key [] = none
find_stem key (e ∷ es) =
    if has_stem key (strip_suffix_text (codes ".jsonl") e.name) then some e else find_stem key es

-- `wire_value`: the fields of a line on the wire.
pub record WireLine : Type 0 where
  pub session : Text
  pub kind : Text
  pub text : Text
  pub ts : ℕ

abbrev pub kind_str : LineKind → Text
kind_str LineKind.prompt = codes "prompt"
kind_str LineKind.stdout = codes "stdout"
kind_str LineKind.stderr = codes "stderr"
kind_str LineKind.exit_ok = codes "exit_ok"
kind_str LineKind.exit_err = codes "exit_err"
kind_str LineKind.marker = codes "marker"

unfoldable pub wire_value : Text → ℕ → StyledLine → WireLine
wire_value session ts l = record {
  session = session;
  kind = kind_str l.kind;
  text = l.text;
  ts = ts;
}

abbrev pub wire_lines : AuditEvent → List WireLine
wire_lines ev = map (wire_value (session_of ev) (display_ts ev)) (render_event ev)

module _ (from_json : Text → Option AuditEvent) where
  abbrev transcript_of : List Text → List WireLine
  transcript_of [] = []
  transcript_of (l ∷ ls) =
      (elim (from_json l) [ none ↦ [] | some ev ↦ wire_lines ev ]) ++ transcript_of ls

  abbrev read_entry : Option Entry → Option (List WireLine)
  read_entry none = none
  read_entry (some e) = elim e.text [ none ↦ none | some text ↦ some (transcript_of (lines text)) ]

  unfoldable pub session_transcript : Option (List Entry) → Text → Option (List WireLine)
  unfolding id_ok find_stem wire_value render_event lines
  session_transcript none key = none
  session_transcript (some es) key = if id_ok key then read_entry (find_stem key es) else none
