-- ===== src/Tests/RedactExamples.antt =====
-- The theorems on redaction and on the server's rules at concrete inputs.
use execkit.Base.{
  ◌++◌, ◌+◌, ◌<◌, ◌≤◌, subst, ℕ, zero, suc, ◌≡◌, ◌↔◌, refl, true, false, Bool, List, [], ◌∷◌,
  Option, none, some, any, all, arith, inl,
}
use execkit.Text.Chars.{Text, codes, contains_text, mem_text, eq_text_self}
use execkit.Text.Decimal.{decimal}
use execkit.Policy.{Verdict, dangerous_rules, programs}
use execkit.Policy.Laws.{may_run}
use execkit.Framing.Search.Segments.{Clear, Clear-short}
use execkit.Redact.Fuel.{learn_loop-enough}
use execkit.Redact.{Assignment, learn_loop, learn_from_command, redact}
use execkit.Redact.Learned.{IsMemory, learn_from_command-IsMemory}
use execkit.Redact.Literals.{redact-Clear}
use execkit.Redact.Values.{KeyValue, bare, redact_key_values, looks_like_code}
use execkit.Redact.Values.Pieces.{Stands, IsMasked, redact_key_values-IsMasked}
use execkit.Framing.Markers.{new_markers}
use execkit.Framing.Parse.Trailer.Token.{printed}
use execkit.Session.Channel.{silent, Reply, Event}
use execkit.Session.State.{Env, Session, from_transport}
use execkit.Session.Exec.{exec_with_timeout}
use execkit.Session.Echo.{Echoes, exec_with_timeout-Echoes}
use execkit.Session.Redaction.{redacting}
use execkit.Mcp.OperatorPolicy.{OperatorPolicy, operator_check}
use execkit.Mcp.OperatorPolicy.Floor.{operator_check_iff}
use execkit.Mcp.Retention.{Entry, IsSweep, sweep, sweep-IsSweep}

-- One assignment, `MY_TOKEN=s3cret-value`, at the front of the command.
abbrev captures : Text → ℕ → Option Assignment
captures cmd zero =
    some (record { end = 21; name = codes "MY_TOKEN"; value_start = 9; value_end = 21 })
captures cmd (suc pos) = none

abbrev names_token : Text → Bool
names_token = contains_text (codes "TOKEN")

abbrev known : List Text
known = codes "hunter2hunter2" ∷ []

known_once : mem_text (codes "hunter2hunter2") known ≡ true
unfolding mem_text
known_once = rw (eq_text_self (codes "hunter2hunter2")) refl

learn_from_command-IsMemory_example :
    IsMemory (learn_from_command captures names_token known (codes "MY_TOKEN=s3cret-value run"))
    × (mem_text
          (codes "hunter2hunter2")
          (learn_from_command captures names_token known (codes "MY_TOKEN=s3cret-value run"))
        ≡ true)
unfolding mem_text
learn_from_command-IsMemory_example =
    learn_from_command-IsMemory captures names_token known (codes "MY_TOKEN=s3cret-value run")
      (codes "hunter2hunter2") (omega arith, refl, tt) known_once

redact-Clear_example :
    Clear (codes "hunter2hunter2") (redact (λ text. text) known (codes "pw hunter2hunter2 !"))
redact-Clear_example =
    redact-Clear (λ text. text) known (codes "pw hunter2hunter2 !") (codes "hunter2hunter2")
      known_once
      (record {
        not_empty = λ e. cc;
        no_open = refl;
        no_close = refl;
        not_in_mark = Clear-short (codes "hunter2hunter2") (codes "[REDACTED") (omega arith);
      })

abbrev env : Env (List Text)
env =
    redacting (λ pattern text. false) (λ pattern limit. inl (λ line. true)) decimal (λ text. text)
      captures names_token

abbrev token : Text
token = codes "0123456789abcdef0123456789abcdef"

-- The command ends with status 0 and prints nothing.
abbrev answered : Reply
answered = record silent {
  token = token;
  events =
      Event.chunk (
        printed (new_markers token) (decimal 0) (codes "/w") []
        ++ ((new_markers token).end ++ codes "\n"))
      ∷ [];
}

abbrev before_call : Session (List Text)
before_call = from_transport (answered ∷ []) false (codes "0a") known

exec_with_timeout-Echoes_example :
    Echoes env
      (codes "MY_TOKEN=s3cret-value run")
      before_call
      (exec_with_timeout env before_call (codes "MY_TOKEN=s3cret-value run") none 1000)
exec_with_timeout-Echoes_example =
    exec_with_timeout-Echoes env (codes "MY_TOKEN=s3cret-value run") before_call none 1000

abbrev operator : OperatorPolicy
operator = record {
  names = record { allow = []; deny = codes "rm" ∷ [] };
  deny_patterns = codes "kubectl delete" ∷ [];
}

operator_check_iff_example :
    (operator_check contains_text operator (codes "ls | rm x") ≡ Verdict.allowed) ↔ (
      (any (λ re. contains_text re (codes "ls | rm x")) operator.deny_patterns ≡ false)
      × (any (λ rule. contains_text rule.re (codes "ls | rm x")) dangerous_rules ≡ false)
      × (all (may_run operator.names) (programs (codes "ls | rm x")) ≡ true))
operator_check_iff_example = operator_check_iff contains_text operator (codes "ls | rm x")

abbrev files : List Entry
files =
    record {
      name = codes "old";
      extension = some (codes "jsonl");
      modified = some 10;
      removable = true;
    }
    ∷ record {
      name = codes "new";
      extension = some (codes "jsonl");
      modified = some 95;
      removable = true;
    }
    ∷ record {
      name = codes "edge";
      extension = some (codes "jsonl");
      modified = some 50;
      removable = true;
    }
    ∷ record { name = codes "other"; extension = none; modified = some 1; removable = true }
    ∷ []

sweep-IsSweep_example : IsSweep 100 50 files (sweep 100 50 files)
sweep-IsSweep_example = sweep-IsSweep 100 50 files

forth :
    (pos : ℕ) (a : Assignment)
    → captures (codes "MY_TOKEN=s3cret-value run") pos ≡ some a
    → (pos < a.value_end) × (a.value_end ≤ a.end) × (a.end ≤ 25)
forth zero a h =
    let got : record { end = 21; name = codes "MY_TOKEN"; value_start = 9; value_end = 21 } ≡ a =
      cc in
    subst (λ b. (0 < b.value_end) × (b.value_end ≤ b.end) × (b.end ≤ 25)) got
      (omega arith, omega arith, omega arith)
forth (suc pos) a h = absurd cc

learn_loop-enough_example :
    learn_loop (26 + 5) captures names_token (codes "MY_TOKEN=s3cret-value run") 0 known
    ≡ learn_loop 26 captures names_token (codes "MY_TOKEN=s3cret-value run") 0 known
learn_loop-enough_example =
    learn_loop-enough captures names_token (codes "MY_TOKEN=s3cret-value run") 26 5 0 known forth
      (omega arith)

-- The value of the one pair runs on through the parenthesis that it opened.
abbrev line : Text
line = codes "password=Pass(word)! ok"

abbrev pair : KeyValue
pair = record {
  start = 0;
  prefix = codes "password=";
  value = bare [] (codes "Pass(word") (codes ")");
}

abbrev one_pair : Text → ℕ → Option KeyValue
one_pair text zero = some pair
one_pair text (suc pos) = none

one_pair-Stands : (pos : ℕ) (m : KeyValue) → one_pair line pos ≡ some m → Stands line pos m
one_pair-Stands zero m e =
    subst (Stands line 0) (let same : pair ≡ m = cc in same) ([], codes "! ok", refl, refl, refl)
one_pair-Stands (suc pos) m e = absurd (cc)

redact_key_values-IsMasked_example : IsMasked line (redact_key_values one_pair line)
redact_key_values-IsMasked_example = redact_key_values-IsMasked one_pair line one_pair-Stands

redact_key_values-line : redact_key_values one_pair line ≡ codes "password=[REDACTED] ok"
unfolding redact_key_values execkit.Redact.count_open execkit.Redact.more_of_value
redact_key_values-line = refl

looks_like_code-call : looks_like_code (codes "cfg.get(") (some b'"') ≡ true
unfolding looks_like_code
looks_like_code-call = refl
