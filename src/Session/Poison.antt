-- ===== src/Session/Poison.antt =====
-- When a session of crates/execkit/src/session.rs is unusable, and that its callers are told so.
pub mod Exec
pub mod Checkpoints
use execkit.Base.{
  ℕ, Bool, true, false, not, ◌&&◌, ◌||◌, ◌≡◌, refl, sym, ◌∙◌, ap, subst, List, [], ◌∷◌, ◌++◌,
  Option, none, some, if◌then◌else◌, Bool-cases, inl, inr, ◌⊎◌, Option-cases, arith, ltb, length,
  ◌^◌,
}
use execkit.Text.Chars.{Text, Bytes, codes}
use execkit.Text.Utf8.{as_bytes}
use execkit.Framing.Markers.{Markers, new_markers}
use execkit.Framing.Payload.{build_payload}
use execkit.Framing.Accumulator.{Accumulator, new}
use execkit.Error.{Error, Result, ok, err}
use execkit.Policy.{check, Policy, Verdict}
use execkit.Budget.Builders.{Budget}
use execkit.Budget.Apply.{
  Shaped, apply, apply_grep, returned, compile_grep, shape, range, max_grep_pattern_len,
}
use execkit.Session.Channel.{
  Reply, Framed, Ran, LoopEnd, run_loop, run_command, interrupt, interrupted, ended, sent_unless,
  resync, write_failed, WriteError,
}
use execkit.Session.State.{
  Session, Env, Outcome, ◌&→◌, run_framed_for, run_framed, next_reply, ExecResult, default_acc_cap,
}
use execkit.Session.Exec.{
  ExecOutcome, exec_inner, exec_with_timeout, run_and_shape, finish, guarded, and_shaped, report,
  grep_guard, policy_guard,
}

-- The errors that tell a caller that the session is gone.
abbrev pub is_fatal : Error → Bool
is_fatal Error.still_running = true
is_fatal Error.shell_exited = true
is_fatal Error.session_poisoned = true
is_fatal _ = false

abbrev pub tells {ℓ} : {A : Type ℓ} → Result A → Bool
tells (ok a) = false
tells (err e) = is_fatal e

write_failed-plain : (e : WriteError) → is_fatal (write_failed e) ≡ false
write_failed-plain (WriteError.io e) = refl
write_failed-plain (WriteError.transport e) = refl

interrupted-tells :
    (seconds : Text) (m : Markers) (acc : Accumulator) (sent : List Bytes)
    (back : Result (Text × Text))
    → tells (interrupted seconds m acc sent back).result
      ≡ (interrupted seconds m acc sent back).poisons
interrupted-tells seconds m acc sent (ok p) = refl
interrupted-tells seconds m acc sent (err e) = refl

ended-tells :
    (seconds : Text) (m : Markers) (r : Reply) (payload : Bytes) (e : LoopEnd)
    → tells (ended seconds m r payload e).result ≡ (ended seconds m r payload e).poisons
unfolding interrupt
ended-tells seconds m r payload (LoopEnd.finished f) = refl
ended-tells seconds m r payload LoopEnd.hung_up = refl
ended-tells seconds m r payload (LoopEnd.deadline acc) =
    interrupted-tells seconds m acc (resync r).0 (resync r).1

sent_unless-tells :
    (w : Option WriteError) (ran : Ran)
    → tells ran.result ≡ ran.poisons
    → tells (sent_unless w ran).result ≡ (sent_unless w ran).poisons
sent_unless-tells none ran h = h
sent_unless-tells (some e) ran h = write_failed-plain e

run_command-tells :
    (seconds command : Text) (cap : ℕ) (r : Reply)
    → tells (run_command seconds command cap r).result ≡ (run_command seconds command cap r).poisons
unfolding run_command
run_command-tells seconds command cap r =
    let m = new_markers r.token in
    let payload = as_bytes (build_payload command r.token) in
    let e = run_loop m (new cap) r.events in
    sent_unless-tells r.write_error (ended seconds m r payload e)
      (ended-tells seconds m r payload e)

module _ {R : Type 0} where
  -- The result tells the caller exactly when the session is unusable.
  abbrev pub IsSettled : {A : Type 0} → Outcome R A → Type 0
  IsSettled (s, r) = tells r ≡ s.poisoned

  pub IsSettled-then :
      {A B : Type 0} (o : Outcome R A) (f : Session R → A → Outcome R B)
      → IsSettled o
      → ((s : Session R) (a : A) → s.poisoned ≡ false → IsSettled (f s a))
      → IsSettled (o &→ f)
  IsSettled-then (s, ok a) f h k = k s a (sym h)
  IsSettled-then (s, err e) f h k = h

  pub IsSettled-if :
      {A : Type 0} (b : Bool) (x y : Outcome R A)
      → IsSettled x
      → IsSettled y
      → IsSettled (if b then x else y)
  IsSettled-if true x y hx hy = hx
  IsSettled-if false x y hx hy = hy

  pub IsSettled-option :
      {A B : Type 0} (o : Option B) (x : Outcome R A) (f : B → Outcome R A)
      → IsSettled x
      → ((b : B) → IsSettled (f b))
      → IsSettled (elim o [ none ↦ x | some b ↦ f b ])
  IsSettled-option none x f hx hf = hx
  IsSettled-option (some b) x f hx hf = hf b

  pub run_framed_for-IsSettled :
      (env : Env R) (s : Session R) (command : Text) (timeout cap : ℕ)
      → s.poisoned ≡ false
      → IsSettled (run_framed_for env s command timeout cap)
  unfolding run_framed_for
  run_framed_for-IsSettled env s command timeout cap h =
      let r = (next_reply s.replies).0 in
      run_command-tells (env.seconds timeout) command cap r
      ∙ ap (λ b. b || (run_command (env.seconds timeout) command cap r).poisons) (sym h)

  pub run_framed-IsSettled :
      (env : Env R) (s : Session R) (command : Text)
      → s.poisoned ≡ false
      → IsSettled (run_framed env s command)
  unfolding run_framed
  run_framed-IsSettled env s command h =
      IsSettled-then (run_framed_for env s command s.timeout (default_acc_cap s)) _
        (run_framed_for-IsSettled env s command s.timeout (default_acc_cap s) h)
        (λ s' f h'. elim (Bool-cases f.timed_out) [ inl e ↦ rw e (sym h') | inr e ↦ rw e (sym h') ])
