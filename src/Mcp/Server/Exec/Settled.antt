-- ===== src/Mcp/Server/Exec/Settled.antt =====
-- What `session_exec` of crates/execkit-mcp/src/main.rs leaves in the session map.
use execkit.Base.{
  ℕ, ◌*◌, ◌≡◌, refl, sym, ◌∙◌, true, false, Option, none, some, Option-cases, Bool-cases, inl, inr,
}
use execkit.Text.Chars.{Text}
use execkit.Error.{Error, Result, ok, err}
use execkit.Policy.{Verdict}
use execkit.Budget.Builders.{Budget}
use execkit.Session.State.{Session, Env, ExecResult}
use execkit.Session.Exec.{exec_with_timeout}
use execkit.Session.Poison.{tells}
use execkit.Session.Poison.Exec.{tells_exec, exec_with_timeout-settled}
use execkit.Mcp.Params.{ExecParams, Config, Checked, good, bad}
use execkit.Mcp.OperatorPolicy.{OperatorPolicy, operator_check}
use execkit.Mcp.Server.{SessionEntry, Server, get, remove, alter, unregister, release, update}
use execkit.Mcp.Server.Map.{Each, remove-alter, alter-Each, remove-Each}
use execkit.Mcp.Server.Handlers.{on_entry, touch, put_session}
use execkit.Mcp.Server.Exec.{
  budget_of, is_dead, after_error, finished, with_budget, on_verdict, timeout_of, session_exec,
}

is_dead-tells : (e : Error) → is_dead e ≡ tells {A = ExecResult} (err e)
is_dead-tells Error.still_running = refl
is_dead-tells Error.shell_exited = refl
is_dead-tells Error.session_poisoned = refl
is_dead-tells (Error.io e) = refl
is_dead-tells (Error.serde e) = refl
is_dead-tells (Error.transport e) = refl
is_dead-tells (Error.policy_denied e) = refl
is_dead-tells (Error.unsupported e) = refl
is_dead-tells (Error.budget e) = refl

module _ {R : Type 0} where
  abbrev pub IsUsable : SessionEntry R → Type 0
  IsUsable e = e.session.poisoned ≡ false

  -- No session in the map is poisoned.
  abbrev pub AllUsable : Server R → Type 0
  AllUsable s = Each IsUsable s.sessions

  touch-AllUsable :
      (id : Text) (now : ℕ) (s : Server R) → AllUsable s → AllUsable (update id (touch now) s)
  unfolding update
  touch-AllUsable id now s h = alter-Each IsUsable id (touch now) s.sessions (λ e u. u) h

  put-AllUsable :
      (id : Text) (t : Session R) (s : Server R)
      → t.poisoned ≡ false
      → AllUsable s
      → AllUsable (put_session id t s)
  unfolding update
  put-AllUsable id t s p h =
      alter-Each IsUsable id (λ e. record e { session = t }) s.sessions (λ e u. p) h

  -- A session that is gone takes whatever was put into it along.
  after_error-sessions :
      (now : ℕ) (id : Text) (s : Server R) (e : Error)
      → is_dead e ≡ true
      → (after_error now id s e).0.sessions ≡ remove id s.sessions
  unfolding unregister release
  after_error-sessions now id s e d = elim (Option-cases (get id s.sessions)) [
    | inl n ↦ rw (d, n) refl
    | inr (x, g) ↦ rw (d, g) (rw g refl)
  ]

  gone-AllUsable :
      (later : ℕ) (id : Text) (t : Session R) (s : Server R)
      → AllUsable s
      → Each IsUsable (remove id (update id (touch later) (put_session id t s)).sessions)
  unfolding update
  gone-AllUsable later id t s h =
      let put = λ (e : SessionEntry R). record e { session = t } in
      rw (remove-alter id (touch later) (alter id put s.sessions), remove-alter id put s.sessions)
        (remove-Each IsUsable id s.sessions h)

  finished-AllUsable :
      (later : ℕ) (id : Text) (e : SessionEntry R) (s : Server R) (t : Session R)
      (r : Option (Result ExecResult))
      → tells_exec r ≡ t.poisoned
      → AllUsable s
      → AllUsable (finished later id e s (t, r)).0
  finished-AllUsable later id e s t none p h = put-AllUsable id t s (sym p) h
  finished-AllUsable later id e s t (some (ok r)) p h =
      touch-AllUsable id later (put_session id t s) (put-AllUsable id t s (sym p) h)
  finished-AllUsable later id e s t (some (err x)) p h =
      let s' = update id (touch later) (put_session id t s) in
      let d = is_dead-tells x ∙ p in
      elim (Bool-cases t.poisoned) [
        | inl b ↦ rw (after_error-sessions later id s' x (d ∙ b)) (gone-AllUsable later id t s h)
        | inr b ↦
            let live : is_dead x ≡ false = d ∙ b in
            rw live (touch-AllUsable id later (put_session id t s) (put-AllUsable id t s b h))
      ]

module _ {R : Type 0} (env : Env R) (initial : R) (config : Config) where
  with_budget-AllUsable :
      (later : ℕ) (p : ExecParams) (s : Server R) (e : SessionEntry R) (c : Checked (Option Budget))
      → AllUsable s
      → AllUsable (with_budget env initial later config p s e c).0
  with_budget-AllUsable later p s e (bad x) h = h
  with_budget-AllUsable later p s e (good budget) h =
      let t = timeout_of p.timeout_secs config.exec_timeout_secs * 1000 in
      let o = exec_with_timeout env e.session p.command budget t in
      finished-AllUsable later p.session_id e s o.0 o.1
        (exec_with_timeout-settled env e.session p.command budget t) h

  on_verdict-AllUsable :
      (now later : ℕ) (p : ExecParams) (s : Server R) (e : SessionEntry R) (v : Verdict)
      → AllUsable s
      → AllUsable (on_verdict env initial now later config p s e v).0
  on_verdict-AllUsable now later p s e (Verdict.blocked reason) h = h
  on_verdict-AllUsable now later p s e Verdict.allowed h =
      with_budget-AllUsable later p s e (budget_of p.budget) h

  -- Whatever the command, the policy and the transport do: where no session in the map is poisoned
  -- before the call, none is after it. A session whose shell is gone is out of the map when the call
  -- that found it so returns.
  pub session_exec-AllUsable :
      (policy : OperatorPolicy) (now later : ℕ) (p : ExecParams) (s : Server R)
      → AllUsable s
      → AllUsable (session_exec env initial policy config now later p s).0
  unfolding session_exec
  session_exec-AllUsable policy now later p s h = found (get p.session_id s.sessions)
    where
      found :
          (o : Option (SessionEntry R))
          → AllUsable
              (on_entry now p.session_id s
                (λ s e.
                  on_verdict env initial now later config p s e
                    (operator_check env.is_match policy p.command))
                o).0
      found none = h
      found (some e) =
          on_verdict-AllUsable now later p (update p.session_id (touch now) s) (touch now e)
            (operator_check env.is_match policy p.command) (touch-AllUsable p.session_id now s h)
