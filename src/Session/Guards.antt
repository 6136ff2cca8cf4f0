-- ===== src/Session/Guards.antt =====
-- What the guards of crates/execkit/src/session.rs keep off the transport.
use execkit.Base.{
  ℕ, Bool, true, false, not, ◌≡◌, refl, sym, ◌∙◌, ap, subst, none, some, Bool-cases, inl, inr,
  if◌then◌else◌,
}
use execkit.Text.Chars.{Text}
use execkit.Error.{Error, Result, ok, err}
use execkit.Policy.{Policy, Verdict, check}
use execkit.Budget.Builders.{Budget}
use execkit.Session.Validate.{is_valid_checkpoint_id}
use execkit.Session.Validate.Hash.{IsHash, is_valid_checkpoint_id-IsHash}
use execkit.Session.State.{Session, Env, Outcome, ◌&→◌}
use execkit.Session.Checkpoints.{require_remote, require_workspace, restore}
use execkit.Session.Exec.{ExecOutcome, exec_inner, guarded, grep_guard, policy_guard, denied}

-- Nothing reaches the transport or the audit log, and the call fails.
abbrev pub IsRefused : {R : Type 0} → Session R → ExecOutcome R → Type 0
IsRefused s (s', none) = ⊥
IsRefused s (s', some (ok result)) = ⊥
IsRefused s (s', some (err e)) =
    (s'.written ≡ s.written) × (s'.replies ≡ s.replies) × (s'.audited ≡ s.audited)

module _ {R : Type 0} (env : Env R) where
  IsRefused-first :
      (s s' : Session R) (g : Result (Unit {0})) (rest : ExecOutcome R)
      → IsRefused s (s', some (err Error.session_poisoned))
      → IsRefused s rest
      → IsRefused s (guarded env s' g rest)
  IsRefused-first s s' (ok u) rest h k = k
  IsRefused-first s s' (err e) rest h k = h

  IsRefused-by :
      (s s' : Session R) (g : Result (Unit {0})) (e : Error) (rest : ExecOutcome R)
      → g ≡ err e
      → IsRefused s (s', some (err e))
      → IsRefused s (guarded env s' g rest)
  IsRefused-by s s' g e rest eq h = subst (λ g. IsRefused s (guarded env s' g rest)) (sym eq) h

  IsRefused-if :
      (s : Session R) (b : Bool) (x y : ExecOutcome R)
      → IsRefused s x
      → IsRefused s y
      → IsRefused s (if b then x else y)
  IsRefused-if s true x y hx hy = hx
  IsRefused-if s false x y hx hy = hy

  -- On a session with a policy that blocks the command, an execution fails, and nothing is written to
  -- the transport, no reply is taken from it, and nothing is audited; no snapshot is taken either.
  pub exec-denied :
      (s : Session R) (p : Policy) (command reason : Text) (b : Budget) (timeout : ℕ)
      → s.policy ≡ some p
      → check env.is_match p command ≡ Verdict.blocked reason
      → IsRefused s (exec_inner env s command b timeout)
  unfolding exec_inner
  exec-denied s p command reason b timeout has blocked =
      let s' = record s { redactor = env.learn_from_command s.redactor command } in
      let stops : policy_guard env s.policy command ≡ err (Error.policy_denied reason) =
        ap (λ o. policy_guard env o command) has ∙ ap denied blocked in
      IsRefused-if s s.poisoned _ _ (refl, refl, refl)
        (IsRefused-first s s' (grep_guard env b.grep) _ (refl, refl, refl)
          (IsRefused-by s s' (policy_guard env s.policy command) (Error.policy_denied reason) _
            stops (refl, refl, refl)))

  require_remote-same : (s : Session R) → (require_remote env s).0 ≡ s
  unfolding require_remote
  require_remote-same s = refl

  same-then :
      {A B : Type 0} (s : Session R) (o : Outcome R A) (f : Session R → A → Outcome R B)
      → o.0 ≡ s
      → ((s' : Session R) (a : A) → s' ≡ s → (f s' a).0 ≡ s)
      → (o &→ f).0 ≡ s
  same-then s (s', ok a) f h k = k s' a h
  same-then s (s', err e) f h k = h

  require_workspace-same : (s : Session R) → (require_workspace env s).0 ≡ s
  unfolding require_workspace
  require_workspace-same s =
      same-then s (require_remote env s) _ (require_remote-same s) (λ s' cp h. h)

  -- The session is as it was, and the operation fails.
  abbrev pub IsRejected : {A : Type 0} → Session R → Outcome R A → Type 0
  IsRejected s (s', ok a) = ⊥
  IsRejected s (s', err e) = s' ≡ s

  IsRejected-then :
      {A B : Type 0} (s : Session R) (o : Outcome R A) (f : Session R → A → Outcome R B)
      → o.0 ≡ s
      → ((s' : Session R) (a : A) → s' ≡ s → IsRejected s (f s' a))
      → IsRejected s (o &→ f)
  IsRejected-then s (s', ok a) f h k = k s' a h
  IsRejected-then s (s', err e) f h k = h

  IsRejected-if :
      {A : Type 0} (s : Session R) (b : Bool) (x y : Outcome R A)
      → IsRejected s x
      → IsRejected s y
      → IsRejected s (if b then x else y)
  IsRejected-if s true x y hx hy = hx
  IsRejected-if s false x y hx hy = hy

  no_hash : (id : Text) → ¬ (IsHash id) → is_valid_checkpoint_id id ≡ false
  no_hash id n = elim (Bool-cases (is_valid_checkpoint_id id)) [
    | inl v ↦ absurd (n (is_valid_checkpoint_id-IsHash id v))
    | inr v ↦ v
  ]

  -- A restore to an id that is not 4 to 40 hexadecimal digits fails and leaves the session as it is:
  -- neither the count nor the restore, which could take the id as an option of git, is sent.
  pub restore-invalid :
      (s : Session R) (id : Text) → ¬ (IsHash id) → IsRejected s (restore env s id)
  unfolding restore
  restore-invalid s id n =
      let bad = no_hash id n in
      IsRejected-then s (require_workspace env s) _ (require_workspace-same s)
        (λ s' (cp, root) h. IsRejected-if s (not cp.initialized) _ _ h (rw bad h))
