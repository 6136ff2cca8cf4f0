-- ===== src/Framing/Accumulator.antt =====
-- `Accumulator` of crates/execkit/src/framing.rs: one command's output until its trailer arrives.
-- Positions and lengths are `usize`; they stay below the length of a buffer in memory, and `cap`
-- times two saturates far above it, so plain numbers serve.
pub mod Compact
pub mod Incremental
pub mod Range
pub mod Zones
pub mod Intact
use execkit.Base.{
  ℕ, zero, suc, ◌+◌, ◌-◌, ◌*◌, ◌/◌, ◌%◌, max, Bool, true, false, ◌&&◌, ◌||◌, List, [], ◌∷◌, ◌++◌,
  Option, none, some, ◌==◌, ltb, leb, within, length, take, drop, get_elem?, get_or, if◌then◌else◌,
}
use execkit.Text.Chars.{Text, Bytes, is_ascii_digit}
use execkit.Framing.Search.{find}
use execkit.Framing.Markers.{Markers, us}
use execkit.Framing.Parse.{Parsed, parse, separators}
use Compact.{Zone, compact_range}

pub record Accumulator : Type 0 where
  pub buf : Bytes
  pub cap : ℕ
  pub scanned : ℕ
  pub elided : ℕ
  pub start : Option ℕ
  pub stderr_at : Option ℕ
  pub err_elided : ℕ
  pub err_keep : Option ℕ

unfoldable pub new : ℕ → Accumulator
new cap = record {
  buf = [];
  cap = cap;
  scanned = 0;
  elided = 0;
  start = none;
  stderr_at = none;
  err_elided = 0;
  err_keep = none;
}

-- Longest `US exit US` after a start marker.
abbrev pub hdr : ℕ
hdr = 5

unfoldable pub count_digits : Bytes → ℕ
count_digits [] = 0
count_digits (b ∷ bs) = if is_ascii_digit b then suc (count_digits bs) else 0

unfoldable pub valid_header : Bytes → Bool
unfolding count_digits
valid_header [] = false
valid_header (b ∷ rest) =
    b == us
    && within 1 (hdr - 2) (count_digits rest)
    && (elim (get_elem? rest (count_digits rest)) [ some c ↦ c == us | none ↦ false ])

-- The loop over start marker candidates; each round starts behind the last candidate.
unfoldable pub find_start : ℕ → Bytes → Bytes → ℕ → Option ℕ
find_start zero buf start from = none
find_start (suc fuel) buf start from = elim (find (drop from buf) start) [
  | none ↦ none
  | some i ↦ elim (valid_header (drop (from + i + length start) buf)) [
    | true ↦ some (from + i)
    | false ↦ find_start fuel buf start (from + i + 1)
  ]
]

abbrev or_else {ℓ} : {A : Type ℓ} → Option A → Option A → Option A
or_else (some a) o = some a
or_else none o = o

abbrev third : List ℕ → Option ℕ
third (a ∷ b ∷ c ∷ more) = some c
third _ = none

-- Where stderr begins behind the start marker at `s`: past the third separator.
unfoldable pub stderr_from : Bytes → ℕ → Option ℕ
stderr_from buf s = elim (third (separators 0 (drop s buf))) [
  | none ↦ none
  | some i ↦ some (s + i + 1)
]

unfoldable pub track_start : Bytes → Accumulator → Accumulator
track_start start a =
    let found =
      or_else a.start
        (find_start (suc (length a.buf)) a.buf start (a.scanned - (length start - 1 + hdr))) in
    record a {
      start = found;
      stderr_at =
          or_else a.stderr_at
            (elim found [ none ↦ none | some s ↦ stderr_from a.buf (s + length start) ]);
    }

-- The head and tail kept of stderr: what stdout left of `cap`, but at least a quarter each.
abbrev stderr_keep : Accumulator → ℕ → ℕ
stderr_keep a e = elim a.err_keep [ some keep ↦ keep | none ↦ max ((a.cap - e) / 2) (a.cap / 4) ]

-- The stderr zone, which starts at `e` once the stdout zone has been compacted.
unfoldable pub compact_stderr : Accumulator → ℕ → Accumulator
compact_stderr a e =
    let keep = stderr_keep a e in
    let z = compact_range a.buf e (length a.buf) keep a.err_elided in
    record a { buf = z.buf; stderr_at = some e; err_elided = z.elided; err_keep = some keep }

-- The stdout zone: the whole buffer as long as no start marker is known.
unfoldable pub compact_stdout : Accumulator → ℕ → Zone
compact_stdout a to = compact_range a.buf 0 to (a.cap / 2) a.elided

-- With the start marker known at `s`, the two zones are compacted one after the other.
unfoldable pub compact_zones : Accumulator → ℕ → Accumulator
compact_zones a s =
    let z = compact_stdout a s in
    let b = record a { buf = z.buf; elided = z.elided; start = some z.end } in
    elim a.stderr_at [ none ↦ b | some e ↦ compact_stderr b (e - s + z.end) ]

unfoldable pub compact : Accumulator → Accumulator
compact a = elim a.start [
  | none ↦ let z = compact_stdout a (length a.buf) in record a { buf = z.buf; elided = z.elided }
  | some s ↦ compact_zones a s
]

-- `push` where it finds no result: the start marker is tracked, and a long buffer compacted.
unfoldable pub settle : Markers → Accumulator → Accumulator
settle m a =
    let t = track_start m.start a in
    let c = if ltb (t.cap * 2) (length t.buf) then compact t else t in
    record c { scanned = length c.buf }

-- The search for an end marker: in the new bytes and the overlap with the old ones.
unfoldable pub search_end : Markers → Accumulator → Option Parsed
search_end m a = elim (find (drop (a.scanned - (length m.end - 1)) a.buf) m.end) [
  | none ↦ none
  | some i ↦ parse a.buf m
]

-- Append a chunk; the parsed result once the trailer is complete, and the new state.
unfoldable pub push : Accumulator → Bytes → Markers → Option Parsed × Accumulator
push a chunk m =
    let b = record a { buf = a.buf ++ chunk } in
    elim (search_end m b) [ some p ↦ (some p, b) | none ↦ (none, settle m b) ]

unfoldable pub overflowed : Accumulator → Bool
overflowed a = ltb 0 a.elided || ltb 0 a.err_elided

-- The stdout accumulated so far, for a command that timed out.
unfoldable pub partial_stdout : Accumulator → Markers → Bytes
partial_stdout a m = elim (or_else a.start (find a.buf m.start)) [
  | some i ↦ take i a.buf
  | none ↦ a.buf
]

-- The chunks of a stream pushed one after the other until a result comes (`run_framed_for` of
-- crates/execkit/src/session.rs, which has the deadline and the transport beside it).
unfoldable pub feed : Markers → Accumulator → List Bytes → Option Parsed × Accumulator
feed m a [] = (none, a)
feed m a (chunk ∷ chunks) =
    let (r, b) = push a chunk m in
    let rest = feed m b chunks in elim r [ some p ↦ (some p, b) | none ↦ rest ]
