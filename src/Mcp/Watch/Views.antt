-- ===== src/Mcp/Watch/Views.antt =====
-- One session's view of the event stream (crates/execkit-mcp/src/watch/state.rs).
use execkit.Base.{
  ◌≡◌, refl, ap, ◌∙◌, Bool, true, false, List, [], ◌∷◌, ◌++◌, filter, if◌then◌else◌, Bool-cases,
  Option-cases, inl, inr, append-nil,
}
use execkit.Text.Chars.{Text, eq_text}
use execkit.Mcp.Audit.{AuditEvent, session_of}
use execkit.Mcp.Watch.Render.{render_event}
use execkit.Mcp.Watch.State.{
  SessionView, AppState, index_of, ensure, fresh_view, transport_of, on_index, mark, add_lines,
  apply,
}

abbrev pub shows : AuditEvent → SessionView → SessionView
shows ev v = add_lines (render_event ev) (mark ev v)

-- One session's view of a stream: its own events, in order, from an empty transcript on.
abbrev pub replay : List AuditEvent → SessionView → SessionView
replay [] v = v
replay (ev ∷ evs) v = replay evs (shows ev v)

abbrev pub is_of : Text → AuditEvent → Bool
is_of id ev = eq_text (session_of ev) id

-- The transport of a session is its first event's.
abbrev pub first_transport : List AuditEvent → Text
first_transport [] = []
first_transport (ev ∷ evs) = transport_of ev

abbrev pub replayed : List AuditEvent → Text → SessionView
replayed evs id =
    let own = filter (is_of id) evs in replay own (fresh_view id (first_transport own))

-- The ids of a stream, each where it first shows.
abbrev pub add_id : Text → List Text → List Text
add_id id [] = id ∷ []
add_id id (k ∷ ks) = if eq_text k id then k ∷ ks else k ∷ add_id id ks

abbrev pub ids_from : List Text → List AuditEvent → List Text
ids_from ids [] = ids
ids_from ids (ev ∷ evs) = ids_from (add_id (session_of ev) ids) evs

abbrev pub apply_all : List AuditEvent → AppState → AppState
apply_all [] s = s
apply_all (ev ∷ evs) s = apply_all evs (apply ev s)

-- `ensure` and the change of the entry, in one pass.
abbrev pub upsert : Text → Text → (SessionView → SessionView) → List SessionView → List SessionView
upsert id transport f [] = f (fresh_view id transport) ∷ []
upsert id transport f (v ∷ vs) = if eq_text v.id id then f v ∷ vs else v ∷ upsert id transport f vs

pub ensure-upsert :
    (id transport : Text) (f : SessionView → SessionView) (vs : List SessionView)
    → on_index (ensure id transport vs).1 f (ensure id transport vs).0 ≡ upsert id transport f vs
unfolding ensure index_of
ensure-upsert id transport f [] = refl
ensure-upsert id transport f (v ∷ vs) =
    let ih = ensure-upsert id transport f vs in
    elim (Bool-cases (eq_text v.id id)) [
      | inl e ↦ rw e refl
      | inr e ↦ elim (Option-cases (index_of id vs)) [
        | inl o ↦ rw (e, o) (ap (◌∷◌ v) (rw o at ih))
        | inr (i, o) ↦ rw (e, o) (ap (◌∷◌ v) (rw o at ih))
      ]
    ]

replay-append :
    (evs : List AuditEvent) (ev : AuditEvent) (v : SessionView)
    → replay (evs ++ ev ∷ []) v ≡ shows ev (replay evs v)
replay-append [] ev v = refl
replay-append (e ∷ evs) ev v = replay-append evs ev (shows e v)

pub filter-append :
    (p : AuditEvent → Bool) (xs ys : List AuditEvent)
    → filter p (xs ++ ys) ≡ filter p xs ++ filter p ys
filter-append p [] ys = refl
filter-append p (x ∷ xs) ys = elim (Bool-cases (p x)) [
  | inl e ↦ rw (e, filter-append p xs ys) refl
  | inr e ↦ rw (e, filter-append p xs ys) refl
]

mark-id : (ev : AuditEvent) (v : SessionView) → (mark ev v).id ≡ v.id
mark-id (AuditEvent.opened ts session transport) v = refl
mark-id (AuditEvent.exec ts e) v = refl
mark-id (AuditEvent.close ts session reason) v = refl
mark-id (AuditEvent.blocked ts session transport command reason) v = refl

pub replay-id : (evs : List AuditEvent) (v : SessionView) → (replay evs v).id ≡ v.id
replay-id [] v = refl
replay-id (ev ∷ evs) v = replay-id evs (shows ev v) ∙ mark-id ev v

-- One more event changes the view of its own session only.
pub replayed-other :
    (evs : List AuditEvent) (ev : AuditEvent) (id : Text)
    → eq_text (session_of ev) id ≡ false
    → replayed (evs ++ ev ∷ []) id ≡ replayed evs id
replayed-other evs ev id n =
    let own : filter (is_of id) (evs ++ ev ∷ []) ≡ filter (is_of id) evs =
      filter-append (is_of id) evs (ev ∷ []) ∙ rw n (append-nil (filter (is_of id) evs)) in
    ap (λ es. replay es (fresh_view id (first_transport es))) own

abbrev pub is_nil : List AuditEvent → Bool
is_nil [] = true
is_nil (ev ∷ evs) = false

nil_of : (evs : List AuditEvent) → is_nil evs ≡ true → evs ≡ []
nil_of [] h = refl
nil_of (ev ∷ evs) h = cc

first_transport-append :
    (evs : List AuditEvent) (ev : AuditEvent)
    → is_nil evs ≡ false
    → first_transport (evs ++ ev ∷ []) ≡ first_transport evs
first_transport-append [] ev h = cc
first_transport-append (e ∷ evs) ev h = refl

pub own-append :
    (evs : List AuditEvent) (ev : AuditEvent) (id : Text)
    → eq_text (session_of ev) id ≡ true
    → filter (is_of id) (evs ++ ev ∷ []) ≡ filter (is_of id) evs ++ ev ∷ []
own-append evs ev id e = filter-append (is_of id) evs (ev ∷ []) ∙ rw e refl

pub replayed-own :
    (evs : List AuditEvent) (ev : AuditEvent) (id : Text)
    → eq_text (session_of ev) id ≡ true
    → is_nil (filter (is_of id) evs) ≡ false
    → replayed (evs ++ ev ∷ []) id ≡ shows ev (replayed evs id)
replayed-own evs ev id e h =
    let own = filter (is_of id) evs in
    rw (own-append evs ev id e, first_transport-append own ev h)
      (replay-append own ev (fresh_view id (first_transport own)))

pub replayed-first :
    (evs : List AuditEvent) (ev : AuditEvent) (id : Text)
    → eq_text (session_of ev) id ≡ true
    → is_nil (filter (is_of id) evs) ≡ true
    → replayed (evs ++ ev ∷ []) id ≡ shows ev (fresh_view id (transport_of ev))
replayed-first evs ev id e h =
    let none_yet : filter (is_of id) evs ≡ [] = nil_of (filter (is_of id) evs) h in
    rw (own-append evs ev id e, none_yet) refl
