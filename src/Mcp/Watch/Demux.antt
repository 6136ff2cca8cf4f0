-- ===== src/Mcp/Watch/Demux.antt =====
-- The viewer's sessions (crates/execkit-mcp/src/watch/state.rs) are the event stream, taken apart by
-- session.
use execkit.Base.{
  ◌≡◌, refl, sym, ap, ◌∙◌, Bool, true, false, ◌||◌, List, [], ◌∷◌, ◌++◌, map, All, filter, any,
  arith, Bool-cases, inl, inr, ||-false, append_assoc, append-nil,
}
use execkit.Text.Chars.{Text, eq_text, eq_text_iff, eq_text_self}
use execkit.Mcp.Audit.{AuditEvent, session_of}
use execkit.Mcp.Watch.State.{AppState, new, transport_of, push, apply}
use execkit.Mcp.Watch.Views.{
  shows, is_of, replayed, add_id, ids_from, apply_all, upsert, ensure-upsert, replay-id, is_nil,
  own-append, filter-append, replayed-other, replayed-own, replayed-first,
}
use execkit.Mcp.Watch.Own.{view_of, replayed-view_of, map-same}

abbrev holds : Text → List Text → Bool
holds id ks = any (λ k. eq_text k id) ks

abbrev IsDistinct : List Text → Type 0
IsDistinct [] = Unit
IsDistinct (k ∷ ks) = (holds k ks ≡ false) × IsDistinct ks

abbrev has_none : List AuditEvent → Text → Bool
has_none evs k = is_nil (filter (is_of k) evs)

abbrev AllShown : List AuditEvent → List Text → Type 0
AllShown evs = All (λ k. has_none evs k ≡ false)

eq_text-swap : (a b : Text) → eq_text a b ≡ false → eq_text b a ≡ false
eq_text-swap a b n = elim (Bool-cases (eq_text b a)) [
  | inr m ↦ m
  | inl e ↦
      let same : b ≡ a = (eq_text_iff b a).0 e in
      let bad : eq_text a b ≡ true = rw same (eq_text_self a) in absurd (cc)
]

map-other :
    (evs : List AuditEvent) (ev : AuditEvent) (ks : List Text)
    → holds (session_of ev) ks ≡ false
    → map (replayed evs) ks ≡ map (replayed (evs ++ ev ∷ [])) ks
map-other evs ev [] h = refl
map-other evs ev (k ∷ ks) h =
    let n : eq_text k (session_of ev) ≡ false = ground arith in
    let hs : holds (session_of ev) ks ≡ false = ground arith in
    rw (replayed-other evs ev k (eq_text-swap k (session_of ev) n), map-other evs ev ks hs) refl

replayed-id : (evs : List AuditEvent) (k : Text) → (replayed evs k).id ≡ k
replayed-id evs k = replay-id (filter (is_of k) evs) _

-- One event, over the views of the ids seen so far.
upsert-views :
    (evs : List AuditEvent) (ev : AuditEvent) (ks : List Text)
    → IsDistinct ks
    → AllShown evs ks
    → (holds (session_of ev) ks ≡ false → has_none evs (session_of ev) ≡ true)
    → upsert (session_of ev) (transport_of ev) (shows ev) (map (replayed evs) ks)
      ≡ map (replayed (evs ++ ev ∷ [])) (add_id (session_of ev) ks)
upsert-views evs ev [] d a m =
    rw (replayed-first evs ev (session_of ev) (eq_text_self (session_of ev)) (m refl)) refl
upsert-views evs ev (k ∷ ks) d a m =
    let id = session_of ev in
    elim (Bool-cases (eq_text k id)) [
      | inl e ↦
          let same : k ≡ id = (eq_text_iff k id).0 e in
          let own : eq_text id k ≡ true = rw same (eq_text_self id) in
          let rest : holds id ks ≡ false = rw (sym same) d.0 in
          rw (replayed-id evs k, e, map-other evs ev ks rest, replayed-own evs ev k own a.0) refl
      | inr n ↦
          rw (replayed-id evs k, n, replayed-other evs ev k (eq_text-swap k id n))
            (ap (◌∷◌ (replayed evs k)) (upsert-views evs ev ks d.1 a.1 (λ h. m (rw n h))))
    ]

is_nil-append : (xs : List AuditEvent) (ev : AuditEvent) → is_nil (xs ++ ev ∷ []) ≡ false
is_nil-append [] ev = refl
is_nil-append (x ∷ xs) ev = refl

-- What was shown stays shown.
shown-append :
    (evs : List AuditEvent) (ev : AuditEvent) (k : Text)
    → has_none evs k ≡ false
    → has_none (evs ++ ev ∷ []) k ≡ false
shown-append evs ev k h = elim (Bool-cases (is_of k ev)) [
  | inl e ↦ rw (own-append evs ev k e) (is_nil-append (filter (is_of k) evs) ev)
  | inr n ↦
      let same : filter (is_of k) (evs ++ ev ∷ []) ≡ filter (is_of k) evs =
        filter-append (is_of k) evs (ev ∷ []) ∙ rw n (append-nil (filter (is_of k) evs)) in
      rw same h
]

AllShown-append :
    (evs : List AuditEvent) (ev : AuditEvent) (ks : List Text)
    → AllShown evs ks
    → AllShown (evs ++ ev ∷ []) ks
AllShown-append evs ev [] a = tt
AllShown-append evs ev (k ∷ ks) a = (shown-append evs ev k a.0, AllShown-append evs ev ks a.1)

AllShown-add_id :
    (evs : List AuditEvent) (ev : AuditEvent) (ks : List Text)
    → AllShown evs ks
    → AllShown (evs ++ ev ∷ []) (add_id (session_of ev) ks)
AllShown-add_id evs ev [] a = (
  rw (own-append evs ev (session_of ev) (eq_text_self (session_of ev)))
      (is_nil-append (filter (is_of (session_of ev)) evs) ev),
  tt,
)
AllShown-add_id evs ev (k ∷ ks) a = elim (Bool-cases (eq_text k (session_of ev))) [
  | inl e ↦ rw e (shown-append evs ev k a.0, AllShown-append evs ev ks a.1)
  | inr n ↦ rw n (shown-append evs ev k a.0, AllShown-add_id evs ev ks a.1)
]

holds-add_id :
    (j id : Text) (ks : List Text) → holds j (add_id id ks) ≡ (holds j ks || eq_text id j)
holds-add_id j id [] = ground arith
holds-add_id j id (k ∷ ks) = elim (Bool-cases (eq_text k id)) [
  | inl e ↦ let same : k ≡ id = (eq_text_iff k id).0 e in rw e (rw same (ground arith))
  | inr n ↦ rw n (ground (arith, holds-add_id j id ks))
]

IsDistinct-add_id : (id : Text) (ks : List Text) → IsDistinct ks → IsDistinct (add_id id ks)
IsDistinct-add_id id [] d = (refl, tt)
IsDistinct-add_id id (k ∷ ks) d = elim (Bool-cases (eq_text k id)) [
  | inl e ↦ rw e d
  | inr n ↦
      let other = eq_text-swap k id n in
      rw n (ground (arith, holds-add_id k id ks), IsDistinct-add_id id ks d.1)
]

none-append :
    (evs : List AuditEvent) (ev : AuditEvent) (k : Text)
    → eq_text (session_of ev) k ≡ false
    → has_none (evs ++ ev ∷ []) k ≡ has_none evs k
none-append evs ev k n =
    ap is_nil (filter-append (is_of k) evs (ev ∷ []) ∙ rw n (append-nil (filter (is_of k) evs)))

-- The ids are distinct, and are those of the events.
record AreIds (evs : List AuditEvent) (ks : List Text) : Type 0 where
  distinct : IsDistinct ks
  shown : AllShown evs ks
  missing : (k : Text) → holds k ks ≡ false → has_none evs k ≡ true

AreIds-add_id :
    (evs : List AuditEvent) (ev : AuditEvent) (ks : List Text)
    → AreIds evs ks
    → AreIds (evs ++ ev ∷ []) (add_id (session_of ev) ks)
AreIds-add_id evs ev ks a = record {
  distinct = IsDistinct-add_id (session_of ev) ks a.distinct;
  shown = AllShown-add_id evs ev ks a.shown;
  missing = λ k h.
      let out = sym (holds-add_id k (session_of ev) ks) ∙ h in
      let n : eq_text (session_of ev) k ≡ false = (||-false (holds k ks) _ out).1 in
      none-append evs ev k n ∙ a.missing k (||-false (holds k ks) _ out).0;
}

apply-views :
    (evs : List AuditEvent) (ev : AuditEvent) (ks : List Text) (s : AppState)
    → AreIds evs ks
    → s.sessions ≡ map (replayed evs) ks
    → (apply ev s).sessions ≡ map (replayed (evs ++ ev ∷ [])) (add_id (session_of ev) ks)
unfolding apply push
apply-views evs ev ks s a h =
    ensure-upsert (session_of ev) (transport_of ev) (shows ev) s.sessions
    ∙ (ap (upsert (session_of ev) (transport_of ev) (shows ev)) h
        ∙ upsert-views evs ev ks a.distinct a.shown (a.missing (session_of ev)))

apply_all-views :
    (before : List AuditEvent) (evs : List AuditEvent) (ks : List Text) (s : AppState)
    → AreIds before ks
    → s.sessions ≡ map (replayed before) ks
    → (apply_all evs s).sessions ≡ map (replayed (before ++ evs)) (ids_from ks evs)
apply_all-views before [] ks s a h = rw (append-nil before) h
apply_all-views before (ev ∷ evs) ks s a h =
    let next =
      apply_all-views (before ++ ev ∷ []) evs (add_id (session_of ev) ks) (apply ev s)
        (AreIds-add_id before ev ks a) (apply-views before ev ks s a h) in
    next
    ∙ ap (λ es. map (replayed es) (ids_from (add_id (session_of ev) ks) evs))
        (append_assoc before (ev ∷ []) evs)

-- Over any stream of events the viewer shows one view for each session id, in the order in which the
-- ids first occur. Each view says of its session's own events: the transport that the first one names
-- (a close names none), whether one is a close, how many are executed commands, and their rendered lines
-- in order.
pub apply_all-demux :
    (evs : List AuditEvent) → (apply_all evs new).sessions ≡ map (view_of evs) (ids_from [] evs)
apply_all-demux evs =
    apply_all-views [] evs [] new (record { distinct = tt; shown = tt; missing = λ k h. refl }) refl
    ∙ map-same (replayed evs) (view_of evs) (replayed-view_of evs) (ids_from [] evs)
