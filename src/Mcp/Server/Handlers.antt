-- ===== src/Mcp/Server/Handlers.antt =====
-- The handlers of crates/execkit-mcp/src/main.rs but `session_exec`, each run without another between
-- its steps. The JSON of a response is the serde crate's.
use execkit.Base.{
  ℕ, ◌-◌, ◌/◌, Bool, true, false, not, ◌&&◌, List, [], ◌∷◌, ◌++◌, Option, none, some, map, ltb,
  if◌then◌else◌,
}
use execkit.Text.Chars.{Text, codes}
use execkit.Text.Decimal.{decimal}
use execkit.Error.{ok, err, to_string}
use execkit.Checkpoint.Output.{Checkpoint}
use execkit.Session.State.{Session, Env, Outcome, ExecResult}
use execkit.Session.Checkpoints.{RestoreReport, checkpoint, checkpoints, restore, restore_last}
use execkit.Mcp.Paths.{FilePath}
use execkit.Mcp.Params.{CreateParams, Config}
use execkit.Mcp.Label.{session_id, transport_label}
use execkit.Mcp.Audit.{AuditEvent, AuditSink, writer_for, append}
use execkit.Mcp.Connect.Build.{Attempt}
use execkit.Mcp.Server.{
  SessionEntry, Server, get, reserve, release, next_num, register, unregister, update,
}

-- `protocol_error` is an `ErrorData`.
pub data Response : Type 0 where
  created : Text → Response
  executed : ExecResult → Option Text → Response
  snapshot : Text → Response
  listed_checkpoints : List Checkpoint → Response
  restored : RestoreReport → Response
  destroyed : Bool → Response
  listed : List (Text × Text × ℕ) → Response
  tool_error : Text → Response
  protocol_error : Response

abbrev pub Handled : Type 0 → Type 0
Handled R = Server R × Response

abbrev pub unknown_session : Text → Response
unknown_session id =
    tool_error
      (codes "unknown session_id '" ++ (id ++ codes "'; call session_list to see live sessions"))

abbrev pub limit_reached : ℕ → Response
limit_reached max =
    tool_error
      (codes "session limit reached (" ++ (decimal max ++ codes "); destroy unused sessions"))

module _ {R : Type 0} where
  abbrev pub record_event : Option FilePath → AuditEvent → Server R → Server R
  record_event audit ev s = record s { log = append audit ev s.log }

  -- `get`: the entry, touched.
  abbrev pub touch : ℕ → SessionEntry R → SessionEntry R
  touch now e = record e { last_used = now }

  abbrev pub on_entry :
      ℕ
      → Text
      → Server R
      → (Server R → SessionEntry R → Handled R)
      → Option (SessionEntry R)
      → Handled R
  on_entry now id s f none = (s, unknown_session id)
  on_entry now id s f (some e) = f (update id (touch now) s) (touch now e)

  abbrev pub with_session :
      ℕ → Text → Server R → (Server R → SessionEntry R → Handled R) → Handled R
  with_session now id s f = on_entry now id s f (get id s.sessions)

  abbrev pub is_stale : ℕ → ℕ → SessionEntry R → Bool
  is_stale ttl now e = ltb ttl (now - e.last_used) && not e.busy

  abbrev pub stale : ℕ → ℕ → List (Text × SessionEntry R) → List Text
  stale ttl now [] = []
  stale ttl now ((id, e) ∷ m) = if is_stale ttl now e then id ∷ stale ttl now m else stale ttl now m

  -- One session is closed, if it is there.
  abbrev pub closed : ℕ → Text → Text → Server R × Option (SessionEntry R) → Server R
  closed now id reason (s, none) = s
  closed now id reason (s, some e) =
      record_event e.audit (AuditEvent.close now id reason) (release s)

  unfoldable pub reap_all : ℕ → List Text → Server R → Server R
  unfolding release unregister
  reap_all now [] s = s
  reap_all now (id ∷ ids) s = reap_all now ids (closed now id (codes "reaped") (unregister id s))

  unfoldable pub reap_idle : Option ℕ → ℕ → Server R → Server R
  unfolding reap_all
  reap_idle none now s = s
  reap_idle (some ttl) now s = reap_all now (stale ttl now s.sessions) s

  -- The session takes its number, its log and its place in the map.
  unfoldable pub open_session :
      Text → AuditSink → ℕ → CreateParams → Session R → Text → Server R → Handled R
  unfolding next_num register session_id writer_for transport_label
  open_session run sink now p session label s =
      let (s', n) = next_num s in
      let id = session_id run n label in
      let audit = writer_for sink id now in
      let entry : SessionEntry R = record {
        session = session;
        busy = false;
        last_used = now;
        transport = transport_label p;
        audit = audit;
      } in
      (
        register id entry (record_event audit (AuditEvent.opened now id (transport_label p)) s'),
        created id,
      )

  abbrev pub on_built :
      Text → AuditSink → ℕ → CreateParams → Server R → Attempt (Session R × Text) → Handled R
  on_built run sink now p s none = (release s, protocol_error)
  on_built run sink now p s (some (err e)) =
      (release s, tool_error (codes "session_create failed: " ++ to_string e))
  on_built run sink now p s (some (ok (session, label))) =
      open_session run sink now p session label s

  unfoldable pub session_create :
      Text
      → AuditSink
      → ℕ
      → Config
      → (CreateParams → Config → Attempt (Session R × Text))
      → CreateParams
      → Server R
      → Handled R
  unfolding reap_idle reserve release open_session
  session_create run sink now config build p s =
      let (s', admitted) = reserve config.max_sessions (reap_idle config.session_ttl now s) in
      if admitted
      then on_built run sink now p s' (build p config)
      else (release s', limit_reached config.max_sessions)

  unfoldable pub session_destroy : ℕ → Text → Server R → Handled R
  unfolding unregister release
  session_destroy now id s =
      let r = unregister id s in
      (closed now id (codes "destroyed") r, destroyed (elim r.1 [ none ↦ false | some e ↦ true ]))

  unfoldable pub session_list : ℕ → Server R → Handled R
  session_list now s =
      (s, listed (map (λ m. (m.0, m.1.transport, (now - m.1.last_used) / 1000)) s.sessions))

  abbrev pub put_session : Text → Session R → Server R → Server R
  put_session id session = update id (λ e. record e { session = session })

  -- A call of the library on the session, and the response to its result.
  abbrev pub answered : {A : Type 0} → Text → Server R → (A → Response) → Outcome R A → Handled R
  answered id s f (session, ok a) = (put_session id session s, f a)
  answered id s f (session, err e) = (put_session id session s, tool_error (to_string e))

  module _ (env : Env R) where
    unfoldable pub session_checkpoint : ℕ → Text → Option Text → Server R → Handled R
    unfolding get update
    session_checkpoint now id label s =
        with_session now id s (λ s e. answered id s snapshot (checkpoint env e.session label))

    unfoldable pub session_checkpoints : ℕ → Text → Server R → Handled R
    unfolding get update
    session_checkpoints now id s =
        with_session now id s (λ s e. answered id s listed_checkpoints (checkpoints env e.session))

    unfoldable pub session_restore : ℕ → Text → Option Text → Server R → Handled R
    unfolding get update
    session_restore now id checkpoint_id s = with_session now id s (λ s e.
        answered id s restored (elim checkpoint_id [
          | some cid ↦ restore env e.session cid
          | none ↦ restore_last env e.session
        ]))
