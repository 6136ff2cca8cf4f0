-- ===== src/Mcp/Server/Runs.antt =====
-- The tools of the server (crates/execkit-mcp/src/main.rs) that open and close sessions take the steps of
-- Mcp/Server/Gate, but for the log.
use execkit.Base.{
  ℕ, ◌≡◌, refl, ap, ◌∙◌, Bool, true, false, List, [], ◌∷◌, ◌++◌, ltb, Option, none, some,
  if◌then◌else◌,
}
use execkit.Text.Chars.{Text, codes}
use execkit.Error.{ok, err}
use execkit.Session.State.{Session}
use execkit.Mcp.Params.{CreateParams, Config}
use execkit.Mcp.Audit.{Log, AuditSink, writer_for}
use execkit.Mcp.Label.{session_id, transport_label}
use execkit.Mcp.Connect.Build.{Attempt}
use execkit.Mcp.Server.{SessionEntry, Server, get, remove, reserve, release, unregister}
use execkit.Mcp.Server.Handlers.{
  closed, reap_all, reap_idle, stale, on_built, open_session, session_create, limit_reached,
}
use execkit.Mcp.Server.Gate.{World, Step, step, run, takes_out, arrived}

abbrev pub with_log : {R : Type 0} → Log → Server R → Server R
with_log log s = record s { log = log }

-- No call holds anything.
abbrev pub idle : {R : Type 0} → Server R → List ℕ → World R
idle s opened = record {
  server = s;
  reserved = 0;
  numbered = [];
  rejected = 0;
  released = 0;
  opened = opened;
}

abbrev pub closing : {R : Type 0} → List Text → List (Step R)
closing [] = []
closing (id ∷ ids) = Step.take_out id ∷ Step.give_back ∷ closing ids

module _ {R : Type 0} (run_id : Text) (cap : ℕ) (log : Log) where
  closed-steps :
      (now : ℕ) (id reason : Text) (s : Server R) (opened : List ℕ) (o : Option (SessionEntry R))
      → step run_id cap
          (takes_out run_id cap
            (idle (with_log log s) opened)
            (with_log log (record s { sessions = remove id s.sessions }), o))
          Step.give_back
        ≡ idle
            (with_log log (closed now id reason (record s { sessions = remove id s.sessions }, o)))
            opened
  unfolding step release
  closed-steps now id reason s opened none = refl
  closed-steps now id reason s opened (some e) = refl

  reap_all-steps :
      (now : ℕ) (ids : List Text) (s : Server R) (opened : List ℕ)
      → run run_id cap (idle (with_log log s) opened) (closing ids)
        ≡ idle (with_log log (reap_all now ids s)) opened
  unfolding run step reap_all unregister
  reap_all-steps now [] s opened = refl
  reap_all-steps now (id ∷ ids) s opened =
      ap (λ w. run run_id cap w (closing ids))
        (closed-steps now id (codes "reaped") s opened (get id s.sessions))
      ∙ reap_all-steps now ids (closed now id (codes "reaped") (unregister id s)) opened

  run-append :
      (w : World R) (xs ys : List (Step R))
      → run run_id cap w (xs ++ ys) ≡ run run_id cap (run run_id cap w xs) ys
  unfolding run
  run-append w [] ys = refl
  run-append w (st ∷ xs) ys = run-append (step run_id cap w st) xs ys

  reap_idle-steps :
      (ttl : Option ℕ) (now : ℕ) (s : Server R) (opened : List ℕ)
      → (sts : List (Step R)) × (run run_id cap (idle (with_log log s) opened) sts
          ≡ idle (with_log log (reap_idle ttl now s)) opened)
  unfolding reap_idle run
  reap_idle-steps none now s opened = ([], refl)
  reap_idle-steps (some ttl) now s opened =
      (closing (stale ttl now s.sessions), reap_all-steps now (stale ttl now s.sessions) s opened)

  -- The steps behind a reservation.
  admitted-steps :
      (sink : AuditSink) (now : ℕ) (p : CreateParams) (s : Server R) (opened : List ℕ) (b : Bool)
      (a : Attempt (Session R × Text))
      → (sts : List (Step R)) × (opened' : List ℕ) × (run run_id cap
            (arrived run_id cap (idle (with_log log s) opened) (with_log log (reserve cap s).0, b))
            sts
          ≡ idle
              (with_log log
                (if b
                  then on_built run_id sink now p (reserve cap s).0 a
                  else (release (reserve cap s).0, limit_reached cap)).0)
              opened')
  unfolding run step reserve release open_session
  admitted-steps sink now p s opened false a = (Step.reject ∷ [], opened, refl)
  admitted-steps sink now p s opened true none = (Step.fail ∷ [], opened, refl)
  admitted-steps sink now p s opened true (some (err e)) = (Step.fail ∷ [], opened, refl)
  admitted-steps sink now p s opened true (some (ok (session, label))) =
      let id = session_id run_id s.counter label in
      let entry : SessionEntry R = record {
        session = session;
        busy = false;
        last_used = now;
        transport = transport_label p;
        audit = writer_for sink id now;
      } in
      (Step.number ∷ Step.insert_at 0 label entry ∷ [], s.counter ∷ opened, refl)

module _ {R : Type 0} (run_id : Text) where
  -- Whatever the call of `session_create`, its idle sessions and the outcome of building the session: on
  -- a server where no other call holds a slot, it is a run of the atomic steps of concurrent calls, log
  -- aside, and none of its own slots is held when it returns.
  pub session_create-IsRun :
      (sink : AuditSink) (now : ℕ) (config : Config)
      (build : CreateParams → Config → Attempt (Session R × Text)) (p : CreateParams) (s : Server R)
      (opened : List ℕ) (log : Log)
      → (sts : List (Step R)) × (opened' : List ℕ) × (run run_id config.max_sessions
            (idle (with_log log s) opened)
            sts
          ≡ idle (with_log log (session_create run_id sink now config build p s).0) opened')
  unfolding session_create run step reserve
  session_create-IsRun sink now config build p s opened log =
      let cap = config.max_sessions in
      let s' = reap_idle config.session_ttl now s in
      let before = reap_idle-steps run_id cap log config.session_ttl now s opened in
      let behind =
        admitted-steps run_id cap log sink now p s' opened (ltb s'.live cap) (build p config) in
      (
        before.0 ++ Step.arrive ∷ behind.0,
        behind.1,
        run-append run_id cap log (idle (with_log log s) opened) before.0 (Step.arrive ∷ behind.0)
            ∙ (ap (λ w. run run_id cap w (Step.arrive ∷ behind.0)) before.1 ∙ behind.2),
      )
