-- ===== src/Session/Redaction.antt =====
-- The redactor of crates/execkit/src/redact.rs as the session's: its state is the learned literals.
use execkit.Base.{ℕ, Bool, List, Option, ◌⊎◌}
use execkit.Text.Chars.{Text}
use execkit.Redact.{Assignment, learn_from_command, redact, redact_command}
use execkit.Session.State.{Env}

module _ (is_match : Text → Text → Bool) (build : Text → ℕ → (Text → Bool) ⊎ Text)
    (seconds : ℕ → Text) (shapes : Text → Text) (captures : Text → ℕ → Option Assignment)
    (is_secret_name : Text → Bool) where
  abbrev pub redacting : Env (List Text)
  redacting = record {
    is_match = is_match;
    build = build;
    seconds = seconds;
    learn_from_command = learn_from_command captures is_secret_name;
    redact = redact shapes;
    redact_command = redact_command shapes captures is_secret_name;
  }
