-- ===== src/Mcp/Watch/Own.antt =====
-- What the viewer shows of a session (crates/execkit-mcp/src/watch/state.rs), told from the session's
-- own events alone.
use execkit.Base.{
  ℕ, suc, ◌+◌, ◌||◌, any, map, append_assoc, arith, ◌≡◌, refl, sym, ap, ◌∙◌, Bool, true, false,
  List, [], ◌∷◌, ◌++◌, filter, append-nil,
}
use execkit.Text.Chars.{Text}
use execkit.Mcp.Audit.{AuditEvent}
use execkit.Mcp.Watch.Render.{StyledLine, render_event}
use execkit.Mcp.Watch.State.{SessionView, fresh_view, mark, add_lines}
use execkit.Mcp.Watch.Views.{shows, replay, is_of, first_transport, replayed}

abbrev pub is_close : AuditEvent → Bool
is_close (AuditEvent.close ts session reason) = true
is_close (AuditEvent.opened ts session transport) = false
is_close (AuditEvent.exec ts e) = false
is_close (AuditEvent.blocked ts session transport command reason) = false

abbrev pub count_commands : List AuditEvent → ℕ
count_commands [] = 0
count_commands (AuditEvent.exec ts e ∷ evs) = suc (count_commands evs)
count_commands (AuditEvent.opened ts session transport ∷ evs) = count_commands evs
count_commands (AuditEvent.close ts session reason ∷ evs) = count_commands evs
count_commands (AuditEvent.blocked ts session transport command reason ∷ evs) = count_commands evs

abbrev pub named_transport : List AuditEvent → Text
named_transport [] = []
named_transport (AuditEvent.opened ts session transport ∷ evs) = transport
named_transport (AuditEvent.exec ts e ∷ evs) = e.transport
named_transport (AuditEvent.close ts session reason ∷ evs) = []
named_transport (AuditEvent.blocked ts session transport command reason ∷ evs) = transport

abbrev pub rendered : List AuditEvent → List StyledLine
rendered [] = []
rendered (ev ∷ evs) = render_event ev ++ rendered evs

abbrev pub view_of : List AuditEvent → Text → SessionView
view_of evs id =
    let own = filter (is_of id) evs in
    record {
      id = id;
      transport = named_transport own;
      closed = any is_close own;
      cmd_count = count_commands own;
      transcript = rendered own;
    }

-- A view, and what a run of events adds to it.
abbrev joined : SessionView → List AuditEvent → SessionView
joined v evs = record {
  id = v.id;
  transport = v.transport;
  closed = v.closed || any is_close evs;
  cmd_count = v.cmd_count + count_commands evs;
  transcript = v.transcript ++ rendered evs;
}

abbrev view_with : Text → Text → Bool → ℕ → List StyledLine → SessionView
view_with id transport closed n lines = record {
  id = id;
  transport = transport;
  closed = closed;
  cmd_count = n;
  transcript = lines;
}

same_view :
    (id transport : Text) (c c' : Bool) (n n' : ℕ) (ls ls' : List StyledLine)
    → c ≡ c'
    → n ≡ n'
    → ls ≡ ls'
    → view_with id transport c n ls ≡ view_with id transport c' n' ls'
same_view id transport c c' n n' ls ls' e f g =
    ap (λ c. view_with id transport c n ls) e
    ∙ (ap (λ n. view_with id transport c' n ls) f ∙ ap (view_with id transport c' n') g)

-- One more event in front, given what it does to the mark and to the count.
joined-shown :
    (v w : SessionView) (ev : AuditEvent) (evs : List AuditEvent)
    → mark ev v ≡ w
    → w.id ≡ v.id
    → w.transport ≡ v.transport
    → (w.closed || any is_close evs) ≡ (v.closed || (is_close ev || any is_close evs))
    → w.cmd_count + count_commands evs ≡ v.cmd_count + count_commands (ev ∷ evs)
    → w.transcript ≡ v.transcript
    → joined (shows ev v) evs ≡ joined v (ev ∷ evs)
joined-shown v w ev evs m i t c n l =
    ap (λ u. joined (add_lines (render_event ev) u) evs) m
    ∙ rw (i, t, l)
        (same_view v.id v.transport (w.closed || any is_close evs)
          (v.closed || (is_close ev || any is_close evs)) (w.cmd_count + count_commands evs)
          (v.cmd_count + count_commands (ev ∷ evs))
          ((v.transcript ++ render_event ev) ++ rendered evs) (v.transcript ++ rendered (ev ∷ evs))
          c n (append_assoc v.transcript (render_event ev) (rendered evs)))

joined-shows :
    (ev : AuditEvent) (evs : List AuditEvent) (v : SessionView)
    → joined (shows ev v) evs ≡ joined v (ev ∷ evs)
joined-shows (AuditEvent.opened ts session transport) evs v =
    joined-shown v v (AuditEvent.opened ts session transport) evs refl refl refl refl refl refl
joined-shows (AuditEvent.exec ts e) evs v =
    joined-shown v (record v { cmd_count = v.cmd_count + 1 }) (AuditEvent.exec ts e) evs refl refl
      refl refl (omega arith) refl
joined-shows (AuditEvent.close ts session reason) evs v =
    joined-shown v (record v { closed = true }) (AuditEvent.close ts session reason) evs refl refl
      refl (ground arith) refl refl
joined-shows (AuditEvent.blocked ts session transport command reason) evs v =
    joined-shown v v (AuditEvent.blocked ts session transport command reason) evs refl refl refl
      refl refl refl

replay-joined : (evs : List AuditEvent) (v : SessionView) → replay evs v ≡ joined v evs
replay-joined [] v =
    same_view v.id v.transport v.closed (v.closed || false) v.cmd_count (v.cmd_count + 0)
      v.transcript (v.transcript ++ []) (ground arith) (omega arith) (sym (append-nil v.transcript))
replay-joined (ev ∷ evs) v = replay-joined evs (shows ev v) ∙ joined-shows ev evs v

first_transport-named : (evs : List AuditEvent) → first_transport evs ≡ named_transport evs
first_transport-named [] = refl
first_transport-named (AuditEvent.opened ts session transport ∷ evs) = refl
first_transport-named (AuditEvent.exec ts e ∷ evs) = refl
first_transport-named (AuditEvent.close ts session reason ∷ evs) = refl
first_transport-named (AuditEvent.blocked ts session transport command reason ∷ evs) = refl

pub replayed-view_of : (evs : List AuditEvent) (id : Text) → replayed evs id ≡ view_of evs id
replayed-view_of evs id =
    let own = filter (is_of id) evs in
    replay-joined own (fresh_view id (first_transport own))
    ∙ (ap (λ t. joined (fresh_view id t) own) (first_transport-named own)
        ∙ same_view id (named_transport own) (any is_close own) (any is_close own)
            (0 + count_commands own) (count_commands own) (rendered own) (rendered own) refl
            (omega arith) refl)

pub map-same :
    {A B : Type 0} (f g : A → B) → ((a : A) → f a ≡ g a) → (xs : List A) → map f xs ≡ map g xs
map-same f g h [] = refl
map-same f g h (x ∷ xs) = rw (h x, map-same f g h xs) refl
