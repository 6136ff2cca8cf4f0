-- ===== src/Tests/SessionExamples.antt =====
-- The theorems on sessions at concrete inputs: a session whose first command ends the shell, and whose
-- transport is silent afterwards.
use execkit.Base.{
  ◌++◌, map, take, drop, arith, ◌≡◌, refl, true, false, List, [], ◌∷◌, none, some, inl,
}
use execkit.Text.Chars.{Text, Bytes, codes}
use execkit.Text.Utf8.{as_bytes, from_utf8_lossy}
use execkit.Output.{clean}
use execkit.Framing.Markers.{new_markers}
use execkit.Framing.Payload.{build_payload}
use execkit.Framing.Search.Windows.{not-At_short}
use execkit.Framing.Parse.Trailer.Token.{printed}
use execkit.Session.Channel.{run_command}
use execkit.Session.Channel.Answered.{run_command-printed}
use execkit.Text.Decimal.{decimal, pos}
use execkit.Session.Validate.{stderr_tail}
use execkit.Session.Validate.Tail.{begun, stderr_tail-printed}
use execkit.Error.{Error, ok, err}
use execkit.Policy.{Policy, Verdict, check}
use execkit.Budget.Builders.{default}
use execkit.Session.State.{
  on_checkpointer, Session, Env, from_transport, with_policy, with_workspace,
}
use execkit.Session.Channel.{Reply, Event, silent}
use execkit.Session.Checkpoints.{checkpoint, checkpoints, restore}
use execkit.Session.Exec.{exec_inner, exec_with_timeout}
use execkit.Session.Guards.{IsRefused, IsRejected, exec-denied, restore-invalid}
use execkit.Session.Validate.Hash.{IsHash, IsHexDigit}
use execkit.Session.Poison.{IsSettled}
use execkit.Session.Poison.Exec.{tells_exec, exec_with_timeout-settled}
use execkit.Session.Poison.Checkpoints.{checkpoint-IsSettled}

abbrev env : Env (Unit {0})
env = record {
  is_match = λ pattern text. false;
  build = λ pattern limit. inl (λ line. true);
  seconds = decimal;
  learn_from_command = λ r command. r;
  redact = λ r text. text;
  redact_command = λ r text. text;
}

abbrev no_rm : Policy
no_rm = record { allow = []; deny = codes "rm" ∷ [] }

abbrev hangs_up : List Reply
hangs_up = record silent { events = Event.closed ∷ [] } ∷ []

abbrev remote : Session (Unit {0})
remote =
    with_policy (with_workspace (from_transport hangs_up true (codes "0a") tt) (codes "/w")) no_rm

exec_with_timeout-settled_example :
    tells_exec (exec_with_timeout env remote (codes "make") none 1000).1
    ≡ (exec_with_timeout env remote (codes "make") none 1000).0.poisoned
exec_with_timeout-settled_example = exec_with_timeout-settled env remote (codes "make") none 1000

checkpoint-IsSettled_example : IsSettled (checkpoint env remote (some (codes "one")))
unfolding from_transport with_workspace with_policy
checkpoint-IsSettled_example = checkpoint-IsSettled env remote (some (codes "one")) refl

exec-denied_example : IsRefused remote (exec_inner env remote (codes "rm x") default 1000)
unfolding with_policy check execkit.Policy.programs execkit.Text.Split.split
    execkit.Text.Split.split_whitespace execkit.Text.Chars.mem_text execkit.Text.Split.after_last
exec-denied_example =
    exec-denied env remote no_rm (codes "rm x") (codes "'rm' is denylisted") default 1000 refl refl

-- A session whose shadow repository is there, so that only the guard on the id stops a restore.
abbrev with_shadow : Session (Unit {0})
with_shadow =
    on_checkpointer (λ cp. record cp { root = some (codes "/w"); initialized = true }) remote

option_no-IsHash : ¬ (IsHash (codes "--output=/etc/x"))
option_no-IsHash h = let d : IsHexDigit 45 = h.2.0 in ground arith

restore-invalid_example :
    IsRejected env with_shadow (restore env with_shadow (codes "--output=/etc/x"))
restore-invalid_example = restore-invalid env with_shadow (codes "--output=/etc/x") option_no-IsHash

restore-guarded :
    (restore env with_shadow (codes "--output=/etc/x")).1
    ≡ err (Error.unsupported (codes "invalid checkpoint id"))
unfolding restore execkit.Session.Checkpoints.require_workspace
    execkit.Session.Checkpoints.require_remote with_policy with_workspace from_transport
    execkit.Session.Validate.is_valid_checkpoint_id as_bytes
restore-guarded = refl

abbrev token : Text
token = codes "0123456789abcdef0123456789abcdef"

-- What the shell prints for a command with status 3.
abbrev stream : Bytes
stream =
    (codes "out" ++ printed (new_markers token) (decimal 3) (codes "/w") (codes "e"))
    ++ ((new_markers token).end ++ codes "\n")

-- It comes in two chunks.
abbrev answer : Reply
answer = record silent {
  token = token;
  events = map Event.chunk (take 9 stream ∷ drop 9 stream ∷ []);
}

run_command-printed_example : run_command (codes "30") (codes "f") 100 answer ≡ record {
  written = as_bytes (build_payload (codes "f") token) ∷ [];
  poisons = false;
  result = ok (record {
    stdout = clean (from_utf8_lossy (codes "out"));
    stderr = clean (from_utf8_lossy (codes "e"));
    exit_code = pos 3;
    cwd = clean (from_utf8_lossy (codes "/w"));
    overflowed = false;
    timed_out = false;
  });
}
unfolding new_markers decimal
run_command-printed_example =
    run_command-printed (codes "30") (codes "f") 100 answer (take 9 stream ∷ drop 9 stream ∷ [])
      (codes "out") (codes "/w") (codes "e") (codes "\n") 3 (refl, refl)
      (record {
        out_clear = λ j. not-At_short token (codes "out") j (omega arith);
        cwd_clear = λ j. not-At_short token (codes "/w") j (omega arith);
        err_clear = λ j. not-At_short token (codes "e") j (omega arith);
        cwd_free = refl;
      })
      (omega arith) refl refl refl (omega arith)

stderr_tail-printed_example :
    stderr_tail ((begun (codes "ab") (some (codes "cd")) ++ b'\n' ∷ decimal 9) ++ b'#' ∷ []) 5
    ≡ codes "cd"
stderr_tail-printed_example =
    stderr_tail-printed (codes "ab") (some (codes "cd")) 9 5 refl (omega arith)

-- A session with a checkpoint, over a transport that hangs in the next command.
abbrev opened : Session (Unit {0})
opened = record remote {
  replies = silent ∷ silent ∷ [];
  checkpointer = some (record {
    token = codes "0a";
    auto = true;
    workspace = some (codes "/w");
    paths = codes "." ∷ [];
    ignores = [];
    root = some (codes "/w");
    initialized = true;
    git_unavailable = false;
    last = none;
  });
}

-- The count of changed files poisons the session, and the restore is sent all the same.
restore_after_poison :
    ((restore env opened (codes "abcd")).0.poisoned ≡ true)
    × ((restore env opened (codes "abcd")).0.replies ≡ [])
unfolding restore execkit.Session.Checkpoints.require_workspace
    execkit.Session.Checkpoints.require_remote execkit.Session.Validate.is_valid_checkpoint_id
    as_bytes execkit.Session.State.run_framed execkit.Session.State.run_framed_for run_command
    execkit.Session.Channel.run_loop execkit.Session.Channel.interrupt
    execkit.Session.Channel.resync execkit.Session.Channel.resync_loop from_transport with_workspace
    with_policy new_markers execkit.Framing.Accumulator.new
restore_after_poison = (refl, refl)
