-- ===== src/Session/Poison/Exec.antt =====
-- The command path of crates/execkit/src/session.rs tells its caller when the session is gone.
use execkit.Base.{
  ℕ, ◌^◌, Bool, true, false, ◌≡◌, refl, sym, ◌∙◌, List, [], ◌∷◌, ◌++◌, Option, none, some,
  if◌then◌else◌, Bool-cases, inl, inr, ◌⊎◌, ltb, length,
}
use execkit.Text.Chars.{Text, codes}
use execkit.Text.Split.{lines}
use execkit.Text.Utf8.{as_bytes}
use execkit.Error.{Error, Result, ok, err, map_ok}
use execkit.Policy.{check, Policy, Verdict}
use execkit.Budget.Builders.{Budget, Grep}
use execkit.Budget.Grep.{grep_keep_indices}
use execkit.Budget.Apply.{
  Shaped, apply, apply_grep, returned, compile_grep, shape, range, max_grep_pattern_len,
}
use execkit.Session.Channel.{Framed}
use execkit.Session.State.{
  Session, Env, Outcome, ExecResult, run_framed_for, next_reply, default_acc_cap,
}
use execkit.Session.Checkpoints.{maybe_auto_snapshot}
use execkit.Session.Exec.{
  ExecOutcome, exec_inner, exec_with_timeout, run_and_shape, finish, guarded, and_shaped,
  grep_guard, policy_guard, denied, is_default, budget_acc_cap, or_default,
}
use execkit.Session.Poison.{tells, IsSettled, run_framed_for-IsSettled}

abbrev pub tells_exec : Option (Result ExecResult) → Bool
tells_exec none = false
tells_exec (some r) = tells r

abbrev tells_shaped : Option (Result Shaped) → Bool
tells_shaped none = false
tells_shaped (some r) = tells r

-- Neither a pattern nor the shaping gives a fatal error.
built-plain :
    (o : (Text → Bool) ⊎ Text)
    → tells (elim o [
      | inl re ↦ ok re
      | inr e ↦ err (Error.budget (codes "invalid grep pattern: " ++ e))
    ])
      ≡ false
built-plain (inl re) = refl
built-plain (inr e) = refl

compile_grep-plain :
    (build : Text → ℕ → (Text → Bool) ⊎ Text) (pattern : Text)
    → tells (compile_grep build pattern) ≡ false
unfolding compile_grep
compile_grep-plain build pattern =
    elim (Bool-cases (ltb max_grep_pattern_len (length (as_bytes pattern)))) [
      | inl e ↦ rw e
      | inr e ↦ rw e (built-plain (build pattern (2 ^ 20)))
    ]

dropped-plain :
    (r : Result (Text → Bool)) → tells r ≡ false → tells (map_ok (λ re. tt {0}) r) ≡ false
dropped-plain (ok re) h = refl
dropped-plain (err e) h = h

returned-plain : (o : Option Shaped) → tells_shaped (returned o) ≡ false
returned-plain none = refl
returned-plain (some s) = refl

compiled-plain :
    (r : Result (Text → Bool)) (f : (Text → Bool) → Option Shaped)
    → tells r ≡ false
    → tells_shaped (elim r [ err e ↦ some (err e) | ok re ↦ returned (f re) ]) ≡ false
compiled-plain (ok re) f h = returned-plain (f re)
compiled-plain (err e) f h = h

apply_grep-plain :
    (build : Text → ℕ → (Text → Bool) ⊎ Text) (content : List Text) (b : Budget) (fallback : ℕ)
    (g : Option Grep)
    → tells_shaped (apply_grep build content b fallback g) ≡ false
apply_grep-plain build content b fallback none =
    returned-plain (shape content b fallback (range 0 (length content)) [])
apply_grep-plain build content b fallback (some g) =
    compiled-plain (compile_grep build g.pattern)
      (λ re. shape content b fallback (grep_keep_indices content re g.context) (codes "grep" ∷ []))
      (compile_grep-plain build g.pattern)

apply-plain :
    (build : Text → ℕ → (Text → Bool) ⊎ Text) (text : Text) (b : Budget) (fallback : ℕ)
    → tells_shaped (apply build text b fallback) ≡ false
unfolding apply
apply-plain build text b fallback = apply_grep-plain build (lines text) b fallback b.grep

module _ {R : Type 0} (env : Env R) where
  abbrev IsSettledExec : ExecOutcome R → Type 0
  IsSettledExec (s, r) = tells_exec r ≡ s.poisoned

  -- A poisoned session is refused.
  settled_unless :
      (s : Session R) (b : Bool) (rest : ExecOutcome R)
      → s.poisoned ≡ b
      → (s.poisoned ≡ false → IsSettledExec rest)
      → IsSettledExec (if b then (s, some (err Error.session_poisoned)) else rest)
  settled_unless s true rest e k = sym e
  settled_unless s false rest e k = k e

  settled-and_shaped :
      (s : Session R) (o : Option (Result Shaped)) (f : Shaped → ExecOutcome R)
      → s.poisoned ≡ false
      → tells_shaped o ≡ false
      → ((x : Shaped) → IsSettledExec (f x))
      → IsSettledExec (and_shaped env s o f)
  settled-and_shaped s none f h p k = sym h
  settled-and_shaped s (some (err e)) f h p k = p ∙ sym h
  settled-and_shaped s (some (ok x)) f h p k = k x

  settled-finish :
      (command : Text) (b : Budget) (elapsed : ℕ) (o : Outcome R Framed)
      → IsSettled o
      → IsSettledExec (finish env command b elapsed o)
  settled-finish command b elapsed (s, err e) h = h
  settled-finish command b elapsed (s, ok f) h =
      let out = apply env.build (env.redact s.redactor f.stdout) b s.max_output in
      let errs = apply env.build (env.redact s.redactor f.stderr) b s.max_output in
      settled-and_shaped s out _ (sym h)
        (apply-plain env.build (env.redact s.redactor f.stdout) b s.max_output)
        (λ x.
          settled-and_shaped s errs _ (sym h)
            (apply-plain env.build (env.redact s.redactor f.stderr) b s.max_output) (λ y. h))

  settled-guarded :
      (s : Session R) (g : Result (Unit {0})) (rest : ExecOutcome R)
      → s.poisoned ≡ false
      → tells g ≡ false
      → IsSettledExec rest
      → IsSettledExec (guarded env s g rest)
  settled-guarded s (ok u) rest h p k = k
  settled-guarded s (err e) rest h p k = p ∙ sym h

  grep_guard-plain : (g : Option Grep) → tells (grep_guard env g) ≡ false
  grep_guard-plain none = refl
  grep_guard-plain (some g) =
      dropped-plain (compile_grep env.build g.pattern) (compile_grep-plain env.build g.pattern)

  denied-plain : (v : Verdict) → tells (denied v) ≡ false
  denied-plain Verdict.allowed = refl
  denied-plain (Verdict.blocked reason) = refl

  policy_guard-plain :
      (p : Option Policy) (command : Text) → tells (policy_guard env p command) ≡ false
  policy_guard-plain none command = refl
  policy_guard-plain (some p) command = denied-plain (check env.is_match p command)

  run_and_shape-settled :
      (s : Session R) (command : Text) (b : Budget) (timeout : ℕ)
      → IsSettledExec (run_and_shape env s command b timeout)
  unfolding run_and_shape
  run_and_shape-settled s command b timeout =
      let s' = maybe_auto_snapshot env s command in
      let cap = if is_default b then default_acc_cap s' else budget_acc_cap in
      settled_unless s' s'.poisoned _ refl (λ e.
        settled-finish command b (next_reply s'.replies).0.elapsed_ms
          (run_framed_for env s' command timeout cap)
          (run_framed_for-IsSettled env s' command timeout cap e))

  exec_inner-settled :
      (s : Session R) (command : Text) (b : Budget) (timeout : ℕ)
      → IsSettledExec (exec_inner env s command b timeout)
  unfolding exec_inner
  exec_inner-settled s command b timeout =
      let s' = record s { redactor = env.learn_from_command s.redactor command } in
      settled_unless s s.poisoned _ refl (λ e.
        settled-guarded s' (grep_guard env b.grep) _ e (grep_guard-plain b.grep) (
          settled-guarded s' (policy_guard env s'.policy command) _ e
            (policy_guard-plain s'.policy command) (run_and_shape-settled s' command b timeout)))

-- However the transport behaves during a command and the snapshot before it: the session is poisoned
-- after the call exactly when its result is one of the three errors that say so (still running, shell
-- exited, session poisoned); after any other result, errors included, it is usable.
pub exec_with_timeout-settled :
    {R : Type 0} (env : Env R) (s : Session R) (command : Text) (b : Option Budget) (timeout : ℕ)
    → tells_exec (exec_with_timeout env s command b timeout).1
      ≡ (exec_with_timeout env s command b timeout).0.poisoned
unfolding exec_with_timeout
exec_with_timeout-settled env s command (some b) timeout =
    exec_inner-settled env s command b timeout
exec_with_timeout-settled env s command none timeout =
    exec_inner-settled env s command (or_default s.output_budget) timeout
