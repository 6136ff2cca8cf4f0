-- ===== src/Mcp/Watch/State.antt =====
-- crates/execkit-mcp/src/watch/state.rs: one transcript for each session, and the selection.
use execkit.Base.{
  ℕ, zero, suc, ◌+◌, ◌-◌, Bool, true, false, List, [], ◌∷◌, ◌++◌, Option, none, some, ltb, length,
  get_elem?, if◌then◌else◌,
}
use execkit.Text.Chars.{Text, eq_text}
use execkit.Mcp.Audit.{AuditEvent, session_of}
use execkit.Mcp.Watch.Render.{StyledLine, Days, render_event, render_event_stamped, before}

pub record SessionView : Type 0 where
  pub id : Text
  pub transport : Text
  pub closed : Bool
  pub cmd_count : ℕ
  pub transcript : List StyledLine

pub record AppState : Type 0 where
  pub sessions : List SessionView
  pub selected : ℕ

abbrev pub new : AppState
new = record { sessions = []; selected = 0 }

unfoldable pub index_of : Text → List SessionView → Option ℕ
index_of id [] = none
index_of id (v ∷ vs) =
    let rest = index_of id vs in
    if eq_text v.id id then some 0 else elim rest [ none ↦ none | some i ↦ some (suc i) ]

abbrev pub fresh_view : Text → Text → SessionView
fresh_view id transport = record {
  id = id;
  transport = transport;
  closed = false;
  cmd_count = 0;
  transcript = [];
}

abbrev pub placed : Text → Text → List SessionView → Option ℕ → List SessionView × ℕ
placed id transport vs (some i) = (vs, i)
placed id transport vs none = (vs ++ fresh_view id transport ∷ [], length vs)

-- The sessions, and the place of the one with this id.
unfoldable pub ensure : Text → Text → List SessionView → List SessionView × ℕ
unfolding index_of
ensure id transport vs = placed id transport vs (index_of id vs)

abbrev pub transport_of : AuditEvent → Text
transport_of (AuditEvent.opened ts session transport) = transport
transport_of (AuditEvent.exec ts e) = e.transport
transport_of (AuditEvent.close ts session reason) = []
transport_of (AuditEvent.blocked ts session transport command reason) = transport

-- A change of `sessions[i]`.
abbrev pub on_index : ℕ → (SessionView → SessionView) → List SessionView → List SessionView
on_index i f [] = []
on_index zero f (v ∷ vs) = f v ∷ vs
on_index (suc i) f (v ∷ vs) = v ∷ on_index i f vs

abbrev pub mark : AuditEvent → SessionView → SessionView
mark (AuditEvent.opened ts session transport) v = v
mark (AuditEvent.exec ts e) v = record v { cmd_count = v.cmd_count + 1 }
mark (AuditEvent.close ts session reason) v = record v { closed = true }
mark (AuditEvent.blocked ts session transport command reason) v = v

abbrev pub add_lines : List StyledLine → SessionView → SessionView
add_lines lines v = record v { transcript = v.transcript ++ lines }

unfoldable pub push : AuditEvent → List StyledLine → AppState → AppState
unfolding ensure
push ev lines s =
    let (vs, i) = ensure (session_of ev) (transport_of ev) s.sessions in
    record s { sessions = on_index i (λ v. add_lines lines (mark ev v)) vs }

unfoldable pub apply : AuditEvent → AppState → AppState
unfolding push render_event
apply ev s = push ev (render_event ev) s

unfoldable pub apply_dated :
    (ℕ → Option (Text × Text)) → ℕ → AuditEvent → AppState × Days → AppState × Days
unfolding push before render_event_stamped
apply_dated local_time now ev (s, days) =
    let (days', separator) = before local_time now (session_of ev) ev days in
    (push ev (separator ++ render_event_stamped local_time now ev) s, days')

unfoldable pub selected_view : AppState → Option SessionView
selected_view s = get_elem? s.sessions s.selected

unfoldable pub select_index : ℕ → AppState → AppState
select_index i s = if ltb i (length s.sessions) then record s { selected = i } else s

unfoldable pub select_next : AppState → AppState
select_next s =
    if ltb (s.selected + 1) (length s.sessions) then record s { selected = s.selected + 1 } else s

unfoldable pub select_prev : AppState → AppState
select_prev s = record s { selected = s.selected - 1 }
