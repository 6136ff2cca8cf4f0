-- ===== src/Error.antt =====
-- crates/execkit/src/error.rs: the library's errors and its results.
use execkit.Base.{◌≡◌, refl, ◌++◌, ◌⊎◌, inl, inr}
use execkit.Text.Chars.{Text, codes}

-- `Io` and `Serde` carry another library's error; its text is kept.
pub data Error : Type 0 where
  io serde transport policy_denied unsupported budget : Text → Error
  still_running shell_exited session_poisoned : Error

pub data Result {ℓ} (A : Type ℓ) : Type ℓ where
  ok : A → Result A
  err : Error → Result A

-- `map`.
abbrev pub map_ok {ℓ κ} : {A : Type ℓ} {B : Type κ} → (A → B) → Result A → Result B
map_ok f (err e) = err e
map_ok f (ok a) = ok (f a)

pub failed_or {ℓ} :
    {A : Type ℓ} (r : Result A) → ((e : Error) × (r ≡ err e)) ⊎ ((a : A) × (r ≡ ok a))
failed_or (err e) = inl (e, refl)
failed_or (ok a) = inr (a, refl)

-- The message of an error.
unfoldable pub to_string : Error → Text
to_string (Error.io e) = codes "io error: " ++ e
to_string (Error.serde e) = codes "serialization error: " ++ e
to_string (Error.transport e) = codes "pty/transport error: " ++ e
to_string Error.still_running =
    codes "command timed out and could not be interrupted; the session was closed - "
    ++ codes "create a new session"
to_string Error.shell_exited =
    codes "shell exited and closed the session; create a new session "
    ++ codes "(a command ran 'exit', or 'set -e' hit a failing command)"
to_string Error.session_poisoned =
    codes "session is no longer usable (a command could not be interrupted, or the shell exited); "
    ++ codes "create a new session"
to_string (Error.policy_denied e) = codes "blocked by policy: " ++ e
to_string (Error.unsupported e) = codes "unsupported: " ++ e
to_string (Error.budget e) = codes "invalid output budget: " ++ e
