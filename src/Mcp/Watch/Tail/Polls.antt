-- ===== src/Mcp/Watch/Tail/Polls.antt =====
-- The events that polling delivers (crates/execkit-mcp/src/watch/tail.rs) are those of the file,
-- wherever the polls fall.
use execkit.Base.{
  ◌≡◌, refl, sym, ap, ◌∙◌, false, List, [], ◌∷◌, ◌++◌, Option, none, some, ltb, length, is_empty,
  All, All-append, flatten, if◌then◌else◌, arith, Option-cases, inl, inr, append-nil, append_assoc,
  length-append, drop-append_self,
}
use execkit.Text.Chars.{Text, Bytes}
use execkit.Text.Utf8.{as_bytes, from_utf8}
use execkit.Text.Utf8.RoundTrip.{IsScalar, as_bytes-append}
use execkit.Mcp.Watch.Tail.{Tailer, new, seen, complete, event_of, events_of, taken, poll}
use execkit.Mcp.Watch.Tail.Lines.{
  complete-append, from_utf8-some, rest-text, empty_bytes, same_length, complete-rest, nothing_read,
}

-- The tailer that has read a text, and nothing more.
abbrev pub at : Text → Tailer
at t = record { offset = length (as_bytes t); buf = (complete t).1 }

abbrev pub grown : Bytes → List Bytes → List Bytes
grown file [] = []
grown file (p ∷ ps) = (file ++ p) ∷ grown (file ++ p) ps

module _ {E : Type 0} (from_json : Text → Option E) where
  -- Polls of a file that is seen whole each time.
  abbrev pub polls : List Bytes → Tailer → Tailer × List E
  polls [] t = (t, [])
  polls (file ∷ files) t =
      let r = poll from_json t (seen (length file) file) in
      let rest = polls files r.0 in (rest.0, r.1 ++ rest.1)

  events_of-append :
      (xs ys : List Text)
      → events_of from_json (xs ++ ys) ≡ events_of from_json xs ++ events_of from_json ys
  unfolding events_of
  events_of-append [] ys = refl
  events_of-append (x ∷ xs) ys =
      rw (events_of-append xs ys) (
        sym (append_assoc (event_of from_json x) (events_of from_json xs) (events_of from_json ys)))

  abbrev events : Text → List E
  events t = events_of from_json (complete t).0

  abbrev new_events : Text → Text → List E
  new_events u v = events_of from_json (complete ((complete u).1 ++ v)).0

  events-append : (u v : Text) → events (u ++ v) ≡ events u ++ new_events u v
  events-append u v =
      ap (λ r. events_of from_json r.0) (complete-append u v)
      ∙ events_of-append (complete u).0 (complete ((complete u).1 ++ v)).0

  -- A poll of a file that holds what was read and more.
  poll-more :
      (u : Text) (r : Bytes)
      → poll from_json (at u) (seen (length (as_bytes u ++ r)) (as_bytes u ++ r)) ≡ (
          if is_empty r
          then (at u, [])
          else taken from_json (length (as_bytes u ++ r)) (at u) (from_utf8 r))
  unfolding poll
  poll-more u r =
      let n = length (as_bytes u ++ r) in
      let len = length-append (as_bytes u) r in
      let kept : ltb n (length (as_bytes u)) ≡ false = ground arith in
      rw (kept) (rw (same_length u r, drop-append_self (as_bytes u) r) refl)

  poll-unread :
      (u : Text) (r : Bytes)
      → from_utf8 r ≡ none
      → poll from_json (at u) (seen (length (as_bytes u ++ r)) (as_bytes u ++ r)) ≡ (at u, [])
  poll-unread u [] n = poll-more u []
  poll-unread u (b ∷ bs) n = poll-more u (b ∷ bs) ∙ rw n refl

  poll-read :
      (u v : Text) (r : Bytes)
      → from_utf8 r ≡ some v
      → poll from_json (at u) (seen (length (as_bytes u ++ r)) (as_bytes u ++ r))
        ≡ (at (u ++ v), new_events u v)
  unfolding events_of
  poll-read u v [] e =
      let none_left : v ≡ [] = nothing_read v e in
      poll-more u [] ∙ rw (none_left, append-nil u, append-nil (complete u).1, complete-rest u) refl
  poll-read u v (b ∷ bs) e =
      poll-more u (b ∷ bs)
      ∙ rw (e, complete-append u v, as_bytes-append u v, (from_utf8-some (b ∷ bs) v e).0) refl

  -- The tailer has read `u`, and `evs` completes the events of `u` to those of `t`.
  abbrev HasRead : Text → Text → Tailer × List E → Type 0
  HasRead u t r = (r.0 ≡ at t) × (events u ++ r.1 ≡ events t)

  -- One poll of a file `g`, and the polls behind it.
  read-then :
      (u v t : Text) (r g : Bytes) (files : List Bytes)
      → g ≡ as_bytes u ++ r
      → from_utf8 r ≡ some v
      → HasRead (u ++ v) t (polls files (at (u ++ v)))
      → HasRead u t (polls (g ∷ files) (at u))
  read-then u v t r g files e d h =
      let rest = polls files (at (u ++ v)) in
      rw (e, poll-read u v r d)
        (
          h.0,
          sym (append_assoc (events u) (new_events u v) rest.1)
              ∙ (ap (λ evs. evs ++ rest.1) (sym (events-append u v)) ∙ h.1),
        )

  unread-then :
      (u t : Text) (r g : Bytes) (files : List Bytes)
      → g ≡ as_bytes u ++ r
      → from_utf8 r ≡ none
      → HasRead u t (polls files (at u))
      → HasRead u t (polls (g ∷ files) (at u))
  unread-then u t r g files e d h = rw (e, poll-unread u r d) h

  polls-grown :
      (t u : Text) (r file p : Bytes) (ps : List Bytes)
      → All IsScalar t
      → All IsScalar u
      → file ≡ as_bytes u ++ r
      → file ++ flatten (p ∷ ps) ≡ as_bytes t
      → HasRead u t (polls (grown file (p ∷ ps)) (at u))
  polls-grown t u r file p [] ht hu e w =
      let g : file ++ p ≡ as_bytes u ++ (r ++ p) = rw e (append_assoc (as_bytes u) r p) in
      let whole : as_bytes u ++ (r ++ p) ≡ as_bytes t =
        sym g ∙ (ap (◌++◌ file) (sym (append-nil p)) ∙ w) in
      let (v, d, same) = rest-text t u (r ++ p) ht hu whole in
      read-then u v t (r ++ p) (file ++ p) [] g d (rw same (refl, append-nil (events t)))
  polls-grown t u r file p (q ∷ qs) ht hu e w =
      let g : file ++ p ≡ as_bytes u ++ (r ++ p) = rw e (append_assoc (as_bytes u) r p) in
      let files = grown (file ++ p) (q ∷ qs) in
      let w' : (file ++ p) ++ flatten (q ∷ qs) ≡ as_bytes t =
        append_assoc file p (flatten (q ∷ qs)) ∙ w in
      elim (Option-cases (from_utf8 (r ++ p))) [
        | inl n ↦
            unread-then u t (r ++ p) (file ++ p) files g n
              (polls-grown t u (r ++ p) (file ++ p) q qs ht hu g w')
        | inr (v, d) ↦
            let b = from_utf8-some (r ++ p) v d in
            let g' : file ++ p ≡ as_bytes (u ++ v) ++ [] =
              g
              ∙ (ap (◌++◌ (as_bytes u)) (sym b.0)
                  ∙ (sym (as_bytes-append u v) ∙ sym (append-nil (as_bytes (u ++ v))))) in
            read-then u v t (r ++ p) (file ++ p) files g d
              (polls-grown t (u ++ v) [] (file ++ p) q qs ht (All-append IsScalar u v hu b.1) g' w')
      ]

  new-at : new ≡ at []
  unfolding new as_bytes complete
  new-at = refl

  no_events : events [] ≡ []
  unfolding complete events_of
  no_events = refl

  -- A file that grows by pieces and is polled behind each, a piece that ends inside a character
  -- included: where the file in the end is a text of scalar values, the polls together deliver the
  -- events of its complete lines, each once and in order, and the tailer holds what follows the last
  -- line end and has read every byte. The file does not change between the two looks of one poll.
  pub polls-complete :
      (t : Text) (p : Bytes) (ps : List Bytes)
      → All IsScalar t
      → flatten (p ∷ ps) ≡ as_bytes t
      → polls (grown [] (p ∷ ps)) new ≡ (
        record { offset = length (as_bytes t); buf = (complete t).1 },
        events_of from_json (complete t).0,
      )
  polls-complete t p ps ht w =
      let h = polls-grown t [] [] [] p ps ht tt empty_bytes w in
      let evs = (polls (grown [] (p ∷ ps)) (at [])).1 in
      rw new-at (rw (h.0) (ap (λ e. (at t, e)) (ap (λ e. e ++ evs) (sym no_events) ∙ h.1)))
