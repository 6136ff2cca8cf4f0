-- ===== src/Framing/Accumulator/Intact.antt =====
-- A stream of at most twice `cap` bytes passes the accumulator whole.
use execkit.Base.{
  ◌*◌, ◌≤◌, ◌≡◌, ap, false, List, [], ◌∷◌, ◌++◌, none, some, arith, length, flatten, ltb,
  Option-cases, inl, inr, length-append, append_assoc,
}
use execkit.Text.Chars.{Bytes}
use execkit.Framing.Markers.{Markers}
use execkit.Framing.Parse.{Parsed}
use execkit.Framing.Accumulator.{
  Accumulator, search_end, settle, track_start, push, feed, overflowed,
}
use execkit.Framing.Accumulator.Incremental.{settle-keeps, grown, push_found, push_missed}

-- Nothing was elided so far.
abbrev IsWhole : Accumulator → Type 0
IsWhole a = (a.elided ≡ 0) × (a.err_elided ≡ 0)

settle-IsWhole :
    (m : Markers) (a : Accumulator) → length a.buf ≤ a.cap * 2 → IsWhole a → IsWhole (settle m a)
unfolding settle track_start
settle-IsWhole m a h whole =
    let small : ltb (a.cap * 2) (length a.buf) ≡ false = ground arith in
    rw (small, settle, track_start) whole

overflowed-IsWhole : (a : Accumulator) → IsWhole a → overflowed a ≡ false
unfolding overflowed
overflowed-IsWhole a whole = rw (whole.0, whole.1)

nothing_fed : (m : Markers) (a : Accumulator) → IsWhole a → overflowed (feed m a []).1 ≡ false
unfolding feed
nothing_fed m a whole = overflowed-IsWhole a whole

-- One chunk of a feed.
pub feed_found :
    (m : Markers) (a b : Accumulator) (c : Bytes) (cs : List Bytes) (p : Parsed)
    → push a c m ≡ (some p, b)
    → feed m a (c ∷ cs) ≡ (some p, b)
unfolding feed
feed_found m a b c cs p e = ap (λ r. elim r.0 [ some p ↦ (some p, r.1) | none ↦ feed m r.1 cs ]) e

pub feed_missed :
    (m : Markers) (a b : Accumulator) (c : Bytes) (cs : List Bytes)
    → push a c m ≡ (none, b)
    → feed m a (c ∷ cs) ≡ feed m b cs
unfolding feed
feed_missed m a b c cs e = ap (λ r. elim r.0 [ some p ↦ (some p, r.1) | none ↦ feed m r.1 cs ]) e

pub feed-overflowed :
    (m : Markers) (a : Accumulator) (chunks : List Bytes)
    → (a.elided ≡ 0) × (a.err_elided ≡ 0)
    → length (a.buf ++ flatten chunks) ≤ a.cap * 2
    → overflowed (feed m a chunks).1 ≡ false
feed-overflowed m a [] whole h = nothing_fed m a whole
feed-overflowed m a (c ∷ cs) whole h = elim (Option-cases (search_end m (grown a c))) [
  | inr (p, e) ↦
      rw (feed_found m a (grown a c) c cs p (push_found m a c p e))
        (overflowed-IsWhole (grown a c) whole)
  | inl e ↦
      let small : length (a.buf ++ c) ≤ a.cap * 2 = omega (
        arith,
        h,
        length-append a.buf (c ++ flatten cs),
        length-append c (flatten cs),
        length-append a.buf c,
      ) in
      let k = settle-keeps m (grown a c) small in
      let fits : length ((settle m (grown a c)).buf ++ flatten cs)
          ≤ (settle m (grown a c)).cap * 2 =
        rw (k.0, k.1, append_assoc a.buf c (flatten cs)) h in
      rw (feed_missed m a (settle m (grown a c)) c cs (push_missed m a c e)) (
        feed-overflowed m (settle m (grown a c)) cs (settle-IsWhole m (grown a c) small whole) fits)
]
