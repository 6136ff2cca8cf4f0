-- ===== src/Mcp/Watch/Tail.antt =====
-- crates/execkit-mcp/src/watch/tail.rs, dirtail.rs and source.rs: polling of growing files. The JSON of
-- a line is the serde crate's, `from_json`.
pub mod Lines
pub mod Polls
use execkit.Base.{
  ℕ, ◌+◌, Bool, true, false, List, [], ◌∷◌, ◌++◌, Option, none, some, ◌==◌, ltb, length, drop,
  is_empty, if◌then◌else◌,
}
use execkit.Text.Chars.{Text, Bytes, codes, eq_text}
use execkit.Text.Split.{trim_end}
use execkit.Text.Utf8.{from_utf8}

pub record Tailer : Type 0 where
  pub offset : ℕ
  pub buf : Text

unfoldable pub new : Tailer
new = record { offset = 0; buf = [] }

-- What a poll meets: no file (or no metadata); a length and then a failing seek; or a length and then
-- the bytes that the file holds when it is read.
pub data Look : Type 0 where
  missing : Look
  no_seek : ℕ → Look
  seen : ℕ → Bytes → Look

-- A truncated file is read from its start.
abbrev pub rewound : ℕ → Tailer → Tailer
rewound len t = if ltb len t.offset then record { offset = 0; buf = [] } else t

abbrev pub in_front : ℕ → List Text × Text → List Text × Text
in_front c ([], rest) = ([], c ∷ rest)
in_front c (l ∷ ls, rest) = ((c ∷ l) ∷ ls, rest)

-- The lines that are ended, and what follows them.
unfoldable pub complete : Text → List Text × Text
complete [] = ([], [])
complete (c ∷ cs) = let r = complete cs in if c == b'\n' then ([] ∷ r.0, r.1) else in_front c r

-- `DirTailer`: a tailer for each `*.jsonl` of the directory, in the order of their paths. `tailers`
-- pairs each path with its tailer; `entries` are the paths now in the directory with their extension.
abbrev pub Tailers : Type 0
Tailers = List (Text × Tailer)

abbrev is_jsonl : Option Text → Bool
is_jsonl none = false
is_jsonl (some e) = eq_text e (codes "jsonl")

-- The order of two paths is a parameter of the map.
unfoldable pub add_tailer : (Text → Text → Bool) → Text → Tailers → Tailers
unfolding eq_text new
add_tailer before path [] = (path, new) ∷ []
add_tailer before path ((p, t) ∷ ts) =
    if eq_text p path
    then (p, t) ∷ ts
    else if before path p
    then (path, new) ∷ (p, t) ∷ ts
    else (p, t) ∷ add_tailer before path ts

unfoldable pub discover : (Text → Text → Bool) → List (Text × Option Text) → Tailers → Tailers
unfolding add_tailer
discover before [] ts = ts
discover before ((path, extension) ∷ es) ts =
    discover before es (if is_jsonl extension then add_tailer before path ts else ts)

pub data Source : Type 0 where
  file : Text → Tailer → Source
  dir : Tailers → Source

module _ {E : Type 0} (from_json : Text → Option E) where
  -- A line that is blank or does not parse is passed over.
  abbrev pub event_of : Text → List E
  event_of l =
      if is_empty (trim_end l)
      then []
      else elim (from_json (trim_end l)) [ none ↦ [] | some ev ↦ ev ∷ [] ]

  unfoldable pub events_of : List Text → List E
  unfolding trim_end
  events_of [] = []
  events_of (l ∷ ls) = event_of l ++ events_of ls

  abbrev pub taken : ℕ → Tailer → Option Text → Tailer × List E
  taken len t none = (t, [])
  taken len t (some chunk) =
      let r = complete (t.buf ++ chunk) in (record { offset = len; buf = r.1 }, events_of r.0)

  unfoldable pub poll : Tailer → Look → Tailer × List E
  unfolding complete from_utf8
  poll t missing = (t, [])
  poll t (no_seek len) = (rewound len t, [])
  poll t (seen len bytes) =
      let t' = rewound len t in
      if len == t'.offset then (t', []) else taken len t' (from_utf8 (drop t'.offset bytes))

  unfoldable pub poll_all : (Text → Look) → Tailers → Tailers × List E
  unfolding poll
  poll_all look [] = ([], [])
  poll_all look ((path, t) ∷ ts) =
      let r = poll t (look path) in
      let rest = poll_all look ts in ((path, r.0) ∷ rest.0, r.1 ++ rest.1)

  unfoldable pub poll_dir :
      (Text → Text → Bool) → List (Text × Option Text) → (Text → Look) → Tailers → Tailers × List E
  unfolding discover poll_all
  poll_dir before entries look ts = poll_all look (discover before entries ts)

  abbrev of_file : Text → Tailer × List E → Source × List E
  of_file path (t, evs) = (file path t, evs)

  abbrev of_dir : Tailers × List E → Source × List E
  of_dir (ts, evs) = (dir ts, evs)

  -- `Source::poll`; the entries are those of the directory of a `dir`.
  unfoldable pub poll_source :
      (Text → Text → Bool) → List (Text × Option Text) → (Text → Look) → Source → Source × List E
  unfolding poll poll_dir
  poll_source before entries look (file path t) = of_file path (poll t (look path))
  poll_source before entries look (dir ts) = of_dir (poll_dir before entries look ts)
