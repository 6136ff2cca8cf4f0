-- ===== src/Session/Channel/Answered.antt =====
-- A command that the shell answers (crates/execkit/src/session.rs): the loop returns what was printed.
use execkit.Base.{
  ℕ, ◌*◌, ◌≤◌, ◌<◌, ◌≡◌, refl, ap, ◌∙◌, sym, false, List, [], ◌∷◌, ◌++◌, Option, none, some, map,
  arith, length, flatten, Option-cases, inl, inr,
}
use execkit.Text.Chars.{Text, Bytes}
use execkit.Text.Utf8.{as_bytes, from_utf8_lossy}
use execkit.Text.Decimal.{pos, decimal}
use execkit.Error.{ok}
use execkit.Output.{clean}
use execkit.Framing.Markers.{Markers, new_markers}
use execkit.Framing.Parse.{Parsed, parse}
use execkit.Framing.Parse.FirstBlock.{IsProper}
use execkit.Framing.Parse.Trailer.{IsHonest, parse-printed}
use execkit.Framing.Parse.Trailer.Token.{IsToken, printed}
use execkit.Framing.Payload.{build_payload}
use execkit.Framing.Accumulator.{Accumulator, new, push, feed, overflowed}
use execkit.Framing.Accumulator.Incremental.{feed-eq-parse}
use execkit.Framing.Accumulator.Intact.{feed-overflowed, feed_found, feed_missed}
use execkit.Session.Channel.{
  Event, Reply, LoopEnd, framed_of, run_loop, run_command, ended, sent_unless,
}

-- One event of the loop.
abbrev next_round : Markers → List Event → Option Parsed × Accumulator → LoopEnd
next_round m events r = elim r.0 [
  | some p ↦ LoopEnd.finished (framed_of p (overflowed r.1))
  | none ↦ run_loop m r.1 events
]

run_loop_step :
    (m : Markers) (a : Accumulator) (c : Bytes) (events : List Event)
    → run_loop m a (Event.chunk c ∷ events) ≡ next_round m events (push a c m)
unfolding run_loop
run_loop_step m a c events = refl

nothing_found : (m : Markers) (a : Accumulator) (p : Parsed) → (feed m a []).0 ≡ some p → ⊥
unfolding feed
nothing_found m a p h = cc

run_loop-feed :
    (m : Markers) (a : Accumulator) (chunks : List Bytes) (p : Parsed)
    → (feed m a chunks).0 ≡ some p
    → run_loop m a (map Event.chunk chunks)
      ≡ LoopEnd.finished (framed_of p (overflowed (feed m a chunks).1))
run_loop-feed m a [] p h = absurd (nothing_found m a p h)
run_loop-feed m a (c ∷ cs) p h =
    let b = (push a c m).1 in
    let events = map Event.chunk cs in
    elim (Option-cases (push a c m).0) [
      | inl e ↦
          let pushed : push a c m ≡ (none, b) = ap (λ o. (o, b)) e in
          let fed = feed_missed m a b c cs pushed in
          run_loop_step m a c events
          ∙ (ap (next_round m events) pushed
              ∙ (run_loop-feed m b cs p (ap (λ r. r.0) (sym fed) ∙ h)
                  ∙ ap (λ r. LoopEnd.finished (framed_of p (overflowed r.1))) (sym fed)))
      | inr (q, e) ↦
          let pushed : push a c m ≡ (some q, b) = ap (λ o. (o, b)) e in
          let fed = feed_found m a b c cs q pushed in
          let same : some q ≡ some p = ap (λ r. r.0) (sym fed) ∙ h in
          let one : q ≡ p = cc in
          run_loop_step m a c events
          ∙ (ap (next_round m events) pushed
              ∙ (ap (λ q. LoopEnd.finished (framed_of q (overflowed b))) one
                  ∙ ap (λ r. LoopEnd.finished (framed_of p (overflowed r.1))) (sym fed)))
    ]

IsProper-markers : (token : Text) → IsProper (new_markers token)
unfolding new_markers
IsProper-markers token = (omega arith, omega arith)

new_whole : (cap : ℕ) → ((new cap).elided ≡ 0) × ((new cap).err_elided ≡ 0)
unfolding new
new_whole cap = (refl, refl)

new_empty : (cap : ℕ) (xs : Bytes) → ((new cap).buf ++ xs ≡ xs) × ((new cap).cap ≡ cap)
unfolding new
new_empty cap xs = (refl, refl)

-- One command from end to end. Where the payload is written, and then prints the command's output and
-- the trailer of the run line before the deadline, cut into chunks in any way: the command's result is
-- its own stdout, stderr and directory, decoded and cleaned, and its exit status; it is marked neither
-- as overflowed nor as timed out; the session stays usable; and what was written is the payload. The
-- token is 32 hexadecimal digits and stands in none of the streams, the directory has no separator byte,
-- the exit status is below 256, and the whole stream is at most twice the cap.
pub run_command-printed :
    (seconds command : Text) (cap : ℕ) (r : Reply) (chunks : List Bytes) (out cwd errs rest : Bytes)
    (n : ℕ)
    → IsToken r.token
    → IsHonest r.token out cwd errs
    → n < 256
    → r.write_error ≡ none
    → r.events ≡ map Event.chunk chunks
    → flatten chunks
      ≡ (out ++ printed (new_markers r.token) (decimal n) cwd errs)
        ++ ((new_markers r.token).end ++ rest)
    → length (flatten chunks) ≤ cap * 2
    → run_command seconds command cap r ≡ record {
      written = as_bytes (build_payload command r.token) ∷ [];
      poisons = false;
      result = ok (record {
        stdout = clean (from_utf8_lossy out);
        stderr = clean (from_utf8_lossy errs);
        exit_code = pos n;
        cwd = clean (from_utf8_lossy cwd);
        overflowed = false;
        timed_out = false;
      });
    }
unfolding run_command
run_command-printed seconds command cap r chunks out cwd errs rest n tok honest small wrote came
      stream fits =
    let m = new_markers r.token in
    let payload = as_bytes (build_payload command r.token) in
    let p : Parsed = record {
      stdout = clean (from_utf8_lossy out);
      stderr = clean (from_utf8_lossy errs);
      exit_code = pos n;
      cwd = clean (from_utf8_lossy cwd);
    } in
    let found : (feed m (new cap) chunks).0 ≡ some p =
      feed-eq-parse m cap chunks (IsProper-markers r.token) fits
      ∙ (ap (λ s. parse s m) stream ∙ parse-printed r.token out cwd errs rest n tok honest small) in
    let e = new_empty cap (flatten chunks) in
    let whole = feed-overflowed m (new cap) chunks (new_whole cap) (rw (e.0, e.1) fits) in
    let loop : run_loop m (new cap) r.events ≡ LoopEnd.finished (framed_of p false) =
      ap (run_loop m (new cap)) came
      ∙ (run_loop-feed m (new cap) chunks p found
          ∙ ap (λ b. LoopEnd.finished (framed_of p b)) whole) in
    ap (λ w. sent_unless w (ended seconds m r payload (run_loop m (new cap) r.events))) wrote
    ∙ ap (ended seconds m r payload) loop
