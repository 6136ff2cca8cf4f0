-- ===== src/Session/Kept.antt =====
-- What the operations of crates/execkit/src/session.rs leave of the session's redactor: all of it, but for
-- the learning from the command that an execution begins with.
use execkit.Base.{Bool, true, false, ◌≡◌, Option, none, some, ℕ, if◌then◌else◌}
use execkit.Text.Chars.{Text}
use execkit.Error.{ok, err}
use execkit.Checkpoint.Commands.{Checkpointer}
use execkit.Checkpoint.Output.{parse_sha}
use execkit.Session.Channel.{Framed}
use execkit.Session.State.{Session, Env, Outcome, ◌&→◌, run_framed, run_framed_for}
use execkit.Session.Checkpoints.{
  ensure_init, remember, after_snapshot, after_init, snapshot_auto, wants_snapshot,
  maybe_auto_snapshot,
}

module _ {R : Type 0} (env : Env R) (r : R) where
  abbrev pub Keeps : {A : Type 0} → Outcome R A → Type 0
  Keeps o = o.0.redactor ≡ r

  Keeps-then :
      {A B : Type 0} (o : Outcome R A) (f : Session R → A → Outcome R B)
      → Keeps o
      → ((s : Session R) (a : A) → s.redactor ≡ r → Keeps (f s a))
      → Keeps (o &→ f)
  Keeps-then (s, ok a) f h k = k s a h
  Keeps-then (s, err e) f h k = h

  Keeps-if :
      {A : Type 0} (b : Bool) (x y : Outcome R A) → Keeps x → Keeps y → Keeps (if b then x else y)
  Keeps-if true x y hx hy = hx
  Keeps-if false x y hx hy = hy

  Keeps-option :
      {A B : Type 0} (o : Option B) (x : Outcome R A) (f : B → Outcome R A)
      → Keeps x
      → ((b : B) → Keeps (f b))
      → Keeps (elim o [ none ↦ x | some b ↦ f b ])
  Keeps-option none x f hx hf = hx
  Keeps-option (some b) x f hx hf = hf b

  pub run_framed_for-Keeps :
      (s : Session R) (command : Text) (timeout cap : ℕ)
      → s.redactor ≡ r
      → Keeps (run_framed_for env s command timeout cap)
  unfolding run_framed_for
  run_framed_for-Keeps s command timeout cap h = h

  run_framed-Keeps :
      (s : Session R) (command : Text) → s.redactor ≡ r → Keeps (run_framed env s command)
  unfolding run_framed
  run_framed-Keeps s command h =
      Keeps-then (run_framed_for env s command s.timeout _) _
        (run_framed_for-Keeps s command s.timeout _ h) (λ s' f k. k)

  ensure_init-Keeps :
      (s : Session R) (cp : Checkpointer) → s.redactor ≡ r → Keeps (ensure_init env s cp)
  unfolding ensure_init
  ensure_init-Keeps s cp h = Keeps-if cp.initialized _ _ h (
      Keeps-if cp.git_unavailable _ _ h (
        Keeps-then (run_framed env s _) _ (run_framed-Keeps s _ h) (λ s' probe k. Keeps-if _ _ _ k (
          Keeps-option cp.workspace _ _ k (λ root.
            Keeps-then (run_framed env s' _) _ (run_framed-Keeps s' _ k)
              (λ t f l. Keeps-if _ _ _ l l))))))

  remembered :
      (s : Session R) (o : Option Text)
      → s.redactor ≡ r
      → (elim o as (λ x. Session R) [ none ↦ s | some sha ↦ remember env sha s ]).redactor ≡ r
  remembered s none h = h
  remembered s (some sha) h = h

  after_snapshot-Keeps : (o : Outcome R Framed) → Keeps o → (after_snapshot env o).redactor ≡ r
  after_snapshot-Keeps (s, err e) h = h
  after_snapshot-Keeps (s, ok f) h = remembered s (parse_sha f.stdout) h

  after_init-Keeps :
      (cp : Checkpointer) (o : Outcome R (Unit {0})) → Keeps o → (after_init env cp o).redactor ≡ r
  after_init-Keeps cp (s, err e) h = h
  after_init-Keeps cp (s, ok u) h =
      after_snapshot-Keeps (run_framed env s _) (run_framed-Keeps s _ h)

  snapshot_if :
      (s t : Session R) (b : Bool)
      → s.redactor ≡ r
      → t.redactor ≡ r
      → (if b then t else s).redactor ≡ r
  snapshot_if s t true h k = k
  snapshot_if s t false h k = h

  snapshot_wanted :
      (s : Session R) (command : Text) (o : Option Checkpointer)
      → s.redactor ≡ r
      → (elim o as (λ x. Session R) [
        | none ↦ s
        | some cp ↦ if wants_snapshot env cp command then snapshot_auto env s cp else s
      ]).redactor
        ≡ r
  unfolding snapshot_auto
  snapshot_wanted s command none h = h
  snapshot_wanted s command (some cp) h =
      snapshot_if s (snapshot_auto env s cp) (wants_snapshot env cp command) h
        (after_init-Keeps cp (ensure_init env s cp) (ensure_init-Keeps s cp h))

  pub maybe_auto_snapshot-Keeps :
      (s : Session R) (command : Text)
      → s.redactor ≡ r
      → (maybe_auto_snapshot env s command).redactor ≡ r
  unfolding maybe_auto_snapshot
  maybe_auto_snapshot-Keeps s command h = snapshot_wanted s command s.checkpointer h
