-- ===== src/Framing/Accumulator/Incremental.antt =====
-- The incremental search of the accumulator against the parser on the whole stream.
use native.Mathlib.Decide.{dec_lt}
use execkit.Base.{
  ℕ, ◌+◌, ◌-◌, ◌*◌, ◌≤◌, ◌<◌, ◌≡◌, refl, sym, ap, ◌∙◌, true, false, List, [], ◌∷◌, ◌++◌, none, some,
  arith, length, drop, flatten, ltb, Option-cases, inl, inr, length-append, append_assoc,
  append-nil, drop-drop, length-drop,
}
use execkit.Text.Chars.{Bytes}
use execkit.Framing.Search.{find}
use execkit.Framing.Search.Windows.{At, find-IsFirst, length-starts_with}
use execkit.Framing.Markers.{Markers}
use execkit.Framing.Parse.{Parsed, parse}
use execkit.Framing.Parse.FirstBlock.{IsProper, IsFirstBlock}
use execkit.Framing.Parse.Spec.{parse-append, parse_rejects, parse_of_rejects}
use execkit.Framing.Parse.Growth.{At-of_append, block_at-append}
use execkit.Framing.Accumulator.{Accumulator, new, search_end, settle, track_start, push, feed}

-- No byte of `seen` was dropped, all of it was searched, and no trailer was found in it.
record IsFresh (m : Markers) (a : Accumulator) (seen : Bytes) : Type 0 where
  holds : a.buf ≡ seen
  searched : a.scanned ≡ length seen
  rejected : IsFirstBlock seen m 0 none

-- Past the old bytes less the overlap there is no end marker: so there is none that is accepted.
rejects_more :
    (m : Markers) (seen chunk : Bytes)
    → IsProper m
    → IsFirstBlock seen m 0 none
    → ((j : ℕ) → At m.end (drop (length seen - (length m.end - 1)) (seen ++ chunk)) j false)
    → IsFirstBlock (seen ++ chunk) m 0 none
rejects_more m seen chunk proper old none_new j lj t =
    elim (dec_lt (length seen) (j + length m.end)) [
      | yes new_one ↦
          let from = length seen - (length m.end - 1) in
          let e : from + (j - from) ≡ j = omega (arith, proper.1) in
          let at_new : At m.end (drop from (seen ++ chunk)) (j - from) true =
            rw (drop-drop (j - from) from (seen ++ chunk), e) t in
          cc (none_new (j - from), at_new)
      | no old_one ↦
          let le : j + length m.end ≤ length seen = omega arith in
          rw (block_at-append seen chunk m j (omega arith))
            (old j lj (At-of_append m.end seen chunk j le t))
    ]

first_none :
    (needle hay : Bytes)
    → 0 < length needle
    → find hay needle ≡ none
    → (j : ℕ) → At needle hay j false
first_none [] hay h e = absurd (omega arith)
first_none (x ∷ xs) hay h e = rw e at (find-IsFirst x xs hay)

-- The incremental search decides what the parser decides on the whole buffer.
search_end-eq-parse :
    (m : Markers) (a : Accumulator) (seen chunk : Bytes)
    → IsProper m
    → IsFresh m a seen
    → search_end m (record a { buf = a.buf ++ chunk }) ≡ parse (seen ++ chunk) m
unfolding search_end
search_end-eq-parse m a seen chunk proper f =
    rw (f.holds, f.searched)
      (elim (Option-cases (find (drop (length seen - (length m.end - 1)) (seen ++ chunk)) m.end)) [
        | inl e ↦
            rw (e, search_end)
              (sym (
                parse_of_rejects (seen ++ chunk) m proper
                  (rejects_more m seen chunk proper f.rejected (first_none m.end _ proper.1 e))))
        | inr (i, e) ↦ rw (e, search_end)
      ])

track_start-keeps :
    (start : Bytes) (a : Accumulator)
    → ((track_start start a).buf ≡ a.buf) × ((track_start start a).cap ≡ a.cap)
unfolding track_start
track_start-keeps start a = (refl, refl)

-- Below the limit nothing is compacted.
pub settle-keeps :
    (m : Markers) (a : Accumulator)
    → length a.buf ≤ a.cap * 2
    → ((settle m a).buf ≡ a.buf)
      × ((settle m a).cap ≡ a.cap)
      × ((settle m a).scanned ≡ length a.buf)
unfolding settle
settle-keeps m a h =
    let k = track_start-keeps m.start a in
    let small : ltb ((track_start m.start a).cap * 2) (length (track_start m.start a).buf) ≡ false =
      rw (k.0, k.1) (ground arith) in
    rw (small, settle) (k.0, k.1, ap length k.0)

abbrev pub grown : Accumulator → Bytes → Accumulator
grown a chunk = record a { buf = a.buf ++ chunk }

pub push_found :
    (m : Markers) (a : Accumulator) (chunk : Bytes) (p : Parsed)
    → search_end m (grown a chunk) ≡ some p
    → push a chunk m ≡ (some p, grown a chunk)
unfolding push
push_found m a chunk p e = rw (e, push)

pub push_missed :
    (m : Markers) (a : Accumulator) (chunk : Bytes)
    → search_end m (grown a chunk) ≡ none
    → push a chunk m ≡ (none, settle m (grown a chunk))
unfolding push
push_missed m a chunk e = rw (e, push)

settle-IsFresh :
    (m : Markers) (a : Accumulator) (seen chunk : Bytes)
    → IsProper m
    → IsFresh m a seen
    → length (seen ++ chunk) ≤ a.cap * 2
    → parse (seen ++ chunk) m ≡ none
    → IsFresh m (settle m (grown a chunk)) (seen ++ chunk)
settle-IsFresh m a seen chunk proper f small e =
    let all_bytes : a.buf ++ chunk ≡ seen ++ chunk = rw f.holds in
    let k = settle-keeps m (grown a chunk) (rw all_bytes small) in
    record {
      holds = k.0 ∙ all_bytes;
      searched = k.2 ∙ ap length all_bytes;
      rejected = parse_rejects (seen ++ chunk) m proper e;
    }

feed_from :
    (m : Markers) (a : Accumulator) (seen : Bytes) (chunks : List Bytes)
    → IsProper m
    → IsFresh m a seen
    → length (seen ++ flatten chunks) ≤ a.cap * 2
    → (feed m a chunks).0 ≡ parse (seen ++ flatten chunks) m
unfolding feed
feed_from m a seen [] proper f h =
    rw (append-nil seen) (sym (parse_of_rejects seen m proper f.rejected))
feed_from m a seen (c ∷ cs) proper f h = elim (Option-cases (parse (seen ++ c) m)) [
  | inr (p, e) ↦
      let found = push_found m a c p (search_end-eq-parse m a seen c proper f ∙ e) in
      rw (found, feed, ← append_assoc seen c (flatten cs))
        (sym (parse-append (seen ++ c) (flatten cs) m p proper e))
  | inl e ↦
      let missed = push_missed m a c (search_end-eq-parse m a seen c proper f ∙ e) in
      let small : length (seen ++ c) ≤ a.cap * 2 = omega (
        arith,
        h,
        length-append seen (c ++ flatten cs),
        length-append c (flatten cs),
        length-append seen c,
      ) in
      let kept = settle-keeps m (grown a c) (rw (ap (λ b. b ++ c) f.holds) small) in
      rw (missed, feed, ← append_assoc seen c (flatten cs))
        (rw missed (
          feed_from m (settle m (grown a c)) (seen ++ c) cs proper
            (settle-IsFresh m a seen c proper f small e)
            (rw (kept.1, append_assoc seen c (flatten cs)) h)))
]

-- However a stream is cut into chunks, and although each chunk is searched for the end marker only
-- in its own bytes and an overlap with the old ones: pushing the chunks one by one into a new
-- accumulator gives the result that `parse` gives on the whole stream, if the markers are not empty
-- and the stream is at most twice `cap` long, so that nothing is compacted.
pub feed-eq-parse :
    (m : Markers) (cap : ℕ) (chunks : List Bytes)
    → IsProper m
    → length (flatten chunks) ≤ cap * 2
    → (feed m (new cap) chunks).0 ≡ parse (flatten chunks) m
unfolding new
feed-eq-parse m cap chunks proper h = feed_from m (new cap) [] chunks proper fresh h
  where
    nothing_yet : IsFirstBlock [] m 0 none
    nothing_yet j le t =
        absurd (
          omega (arith, length-starts_with m.end (drop j []) t, length-drop {A = ℕ} j [], proper.1))

    fresh : IsFresh m (new cap) []
    fresh = record { holds = refl; searched = refl; rejected = nothing_yet }
