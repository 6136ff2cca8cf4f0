-- ===== src/Framing/Accumulator/Zones.antt =====
-- What compaction keeps: the bytes around a zone, the count of what was dropped, and the trailer's
-- start marker with its header.
use execkit.Base.{
  ℕ, ◌+◌, ◌-◌, ◌/◌, ◌≤◌, ◌≡◌, refl, sym, ap, ◌∙◌, Option, none, some, arith, length, take, drop,
  length-drop, take-drop,
}
use execkit.Text.Chars.{Bytes}
use execkit.Framing.Accumulator.Compact.{Zone}
use execkit.Framing.Accumulator.{
  Accumulator, compact_stdout, compact_stderr, compact_zones, compact, stderr_keep,
}
use execkit.Framing.Accumulator.Range.{Keeps, compact_range-Keeps}

-- The bytes of `[s, s + h)`.
abbrev window : ℕ → ℕ → Bytes → Bytes
window s h xs = take h (drop s xs)

window_of_behind :
    (s t h : ℕ) (xs ys : Bytes) → drop t ys ≡ drop s xs → window t h ys ≡ window s h xs
window_of_behind s t h xs ys e = ap (take h) e

window_of_before :
    (s h e : ℕ) (xs ys : Bytes) → s + h ≡ e → take e ys ≡ take e xs → window s h ys ≡ window s h xs
window_of_before s h e xs ys p q =
    take-drop h s ys ∙ (rw (p, q) (rw (← p) (sym (take-drop h s xs))))

-- Where the trailer lies: its start marker in the buffer, and its header before stderr.
pub record IsPlaced (a : Accumulator) (s : ℕ) : Type 0 where
  pub started : a.start ≡ some s
  pub in_buffer : s ≤ length a.buf
  pub header : (e : ℕ) → a.stderr_at ≡ some e → (s ≤ e) × (e ≤ length a.buf)

-- How many bytes from the start marker on are no stderr.
abbrev pub before_stderr : Option ℕ → ℕ → ℕ → ℕ
before_stderr none len s = len - s
before_stderr (some e) len s = e - s

abbrev pub header_length : Accumulator → ℕ → ℕ
header_length a s = before_stderr a.stderr_at (length a.buf) s

abbrev pub moved : Option ℕ → ℕ → ℕ → Option ℕ
moved none s t = none
moved (some e) s t = some (t + (e - s))

module _ (a : Accumulator) (s : ℕ) (placed : IsPlaced a s) where
  abbrev out : Zone
  out = compact_stdout a s

  out-Keeps : Keeps a.buf 0 s (a.cap / 2) a.elided out
  unfolding compact_stdout
  out-Keeps = compact_range-Keeps a.buf 0 s (a.cap / 2) a.elided (omega arith) placed.in_buffer

  abbrev mid : Accumulator
  mid = record a { buf = out.buf; elided = out.elided; start = some out.end }

  compact_placed : compact a ≡ compact_zones a s
  unfolding compact
  compact_placed = simp (placed.started, compact)

  zones_none : a.stderr_at ≡ none → compact_zones a s ≡ mid
  unfolding compact_zones
  zones_none e = simp (e, compact_zones)

  zones_some :
      (e : ℕ) → a.stderr_at ≡ some e → compact_zones a s ≡ compact_stderr mid (e - s + out.end)
  unfolding compact_zones
  zones_some e p = simp (p, compact_zones)

  room_for : (e : ℕ) → a.stderr_at ≡ some e → e - s + out.end ≤ length out.buf
  room_for e p =
      let h = placed.header e p in
      omega (
        arith,
        h.0,
        h.1,
        out-Keeps.inside,
        ap length out-Keeps.behind,
        length-drop out.end out.buf,
        length-drop s a.buf,
        placed.in_buffer,
      )

  -- Compacting stderr moves nothing before it.
  stderr-window :
      (e : ℕ)
      → a.stderr_at ≡ some e
      → window out.end (e - s) (compact_stderr mid (e - s + out.end)).buf
        ≡ window out.end (e - s) out.buf
  unfolding compact_stderr
  stderr-window e p =
      let room : e - s + out.end ≤ length out.buf = room_for e p in
      let k =
        compact_range-Keeps out.buf (e - s + out.end) (length out.buf)
          (stderr_keep mid (e - s + out.end)) a.err_elided room (omega arith) in
      window_of_before out.end (e - s) (e - s + out.end) out.buf _ (omega arith) k.before

  stderr-fields :
      (e : ℕ)
      → ((compact_stderr mid e).start ≡ some out.end) × ((compact_stderr mid e).stderr_at ≡ some e)
  unfolding compact_stderr
  stderr-fields e = (refl, refl)

  -- The bytes of the marker and the header, in the compacted buffer.
  abbrev IsKept : Accumulator → ℕ → Type 0
  IsKept b t =
      (b.start ≡ some t)
      × (window t (header_length a s) b.buf ≡ window s (header_length a s) a.buf)
      × (b.stderr_at ≡ moved a.stderr_at s t)

  kept : (o : Option ℕ) → a.stderr_at ≡ o → IsKept (compact_zones a s) out.end
  kept none p =
      rw (zones_none p) (
        refl,
        window_of_behind s out.end (header_length a s) a.buf out.buf out-Keeps.behind,
        simp p,
      )
  kept (some e) p =
      let n : header_length a s ≡ e - s = ap (λ o. before_stderr o (length a.buf) s) p in
      let f = stderr-fields (e - s + out.end) in
      rw (zones_some e p) (
        f.0,
        rw n
            (stderr-window e p ∙ window_of_behind s out.end (e - s) a.buf out.buf out-Keeps.behind),
        f.1 ∙ simp (p) (ap some (omega arith)),
      )

-- Compaction never cuts into the trailer. Where the start marker is known and lies, with its header,
-- in the buffer: afterwards it is known at its new place, the bytes from it to the end of the header
-- (to the end of the buffer, while the header is incomplete) are those from before, and stderr begins
-- as far behind it as before.
pub compact-header :
    (a : Accumulator) (s : ℕ)
    → IsPlaced a s
    → (t : ℕ) × ((compact a).start ≡ some t)
      × (take (header_length a s) (drop t (compact a).buf)
          ≡ take (header_length a s) (drop s a.buf))
      × ((compact a).stderr_at ≡ moved a.stderr_at s t)
compact-header a s placed =
    let k = kept a s placed a.stderr_at refl in
    rw (compact_placed a s placed) ((out a s placed).end, k.0, k.1, k.2)
