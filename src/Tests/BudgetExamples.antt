-- ===== src/Tests/BudgetExamples.antt =====
-- The theorems on budgets, policies and checkpoints at concrete inputs.
use execkit.Base.{
  not, ℕ, ◌≡◌, ◌↔◌, refl, Bool, true, false, ◌&&◌, List, [], ◌∷◌, ◌++◌, none, some, arith, ltb, any,
  all, map, ◌⊎◌, inl,
}
use execkit.Text.Chars.{Text, codes, contains_text, eq_text, starts_with}
use execkit.Text.Split.{lines, join}
use execkit.Policy.{Policy, Verdict, check, dangerous_rules, programs}
use execkit.Policy.Laws.{may_run, check_iff}
use execkit.Budget.Builders.{Budget, Keep}
use execkit.Budget.Grep.{grep_keep_indices}
use execkit.Budget.Grep.Near.{has, near, Rising, grep_keep_indices_lem}
use execkit.Budget.Apply.{apply, or_else}
use execkit.Budget.Apply.Laws.{IsOutcome, apply-IsOutcome}
use execkit.Checkpoint.ReadOnly.{is_read_only}
use execkit.Checkpoint.ReadOnly.Parts.{
  Joint, line_feed, pipe, joined, part_of, hides, is_read_only-joined,
}
use execkit.Checkpoint.ReadOnly.Word.{reads}
use execkit.Checkpoint.Quote.{shq}
use execkit.Checkpoint.Quote.Word.{Quoting, read_word, read_word-shq}
use execkit.Checkpoint.Commands.{Checkpointer, exclude_patterns, new}
use execkit.Checkpoint.Commands.Excludes.{is_ignored, secret-ignored}
use execkit.Checkpoint.Output.{Checkpoint, parse_log}
use execkit.Checkpoint.Output.Log.{print_entry, parse_log-printed}

-- A pattern is the text that a line begins with.
abbrev build : Text → ℕ → (Text → Bool) ⊎ Text
build pattern limit = inl (starts_with pattern)

abbrev content : List Text
content = codes "a" ∷ codes "ERR" ∷ codes "b" ∷ codes "c" ∷ []

abbrev is_err : Text → Bool
is_err = eq_text (codes "ERR")

grep_keep_indices_lem_example :
    ((k : ℕ) → has (grep_keep_indices content is_err 1) k ≡ (ltb k 4 && near is_err 1 k 0 content))
    × Rising 0 4 (grep_keep_indices content is_err 1)
grep_keep_indices_lem_example = grep_keep_indices_lem content is_err 1 (omega arith)

abbrev rising : Rising 0 9 (1 ∷ 4 ∷ 5 ∷ 7 ∷ [])
rising = (
  omega arith,
  omega arith,
  (omega arith, omega arith, (omega arith, omega arith, (omega arith, omega arith, tt))),
)

abbrev log : Text
log = codes "a\nERR 1\nb\nERR 2\n"

abbrev last_error : Budget
last_error = record {
  grep = some (record { pattern = codes "ERR"; context = 0 });
  keep = Keep.tail 1;
  max_chars = none;
}

apply-IsOutcome_example :
    IsOutcome build (lines log) last_error (or_else none 1000) (apply build log last_error 1000)
unfolding lines execkit.Text.Split.split execkit.Text.Split.end_lines
apply-IsOutcome_example = apply-IsOutcome build log last_error 1000 (omega arith)

abbrev only_ls : Policy
only_ls = record { allow = codes "ls" ∷ []; deny = [] }

check_iff_example : (check contains_text only_ls (codes "ls | cat") ≡ Verdict.allowed) ↔ (
    (any (λ rule. contains_text rule.re (codes "ls | cat")) dangerous_rules ≡ false)
    × (all (may_run only_ls) (programs (codes "ls | cat")) ≡ true))
check_iff_example = check_iff contains_text only_ls (codes "ls | cat")

-- `ls`, a line end, `/bin/cat x`, a pipe and ` rm x`.
abbrev chained : List (Joint × Text)
chained = (line_feed, codes "/bin/cat x") ∷ (pipe, codes " rm x") ∷ []

is_read_only-joined_example : is_read_only (joined (codes "ls") chained) ≡ (
    not (hides (joined (codes "ls") chained))
    && reads (codes "ls")
    && all (λ next. reads (part_of next)) chained)
is_read_only-joined_example = is_read_only-joined (codes "ls") chained (ground arith) (ground arith)

read_word-shq_example :
    read_word Quoting.outside (shq (codes "it's; rm") ++ codes " && x")
    ≡ (codes "it's; rm", codes " && x")
read_word-shq_example = read_word-shq (codes "it's; rm") (codes " && x") (refl, refl)

-- The user tries to take the key files in again.
abbrev greedy : Checkpointer
unfolding new
greedy = record (new (codes "0a") true none []) { ignores = codes "!.ssh" ∷ [] }

secret-ignored_example :
    is_ignored contains_text (codes ".ssh") false (exclude_patterns greedy) ≡ true
unfolding contains_text
secret-ignored_example = secret-ignored contains_text greedy (codes ".ssh") false refl

abbrev commit : Checkpoint
commit = record {
  id = codes "0123456789abcdef0123456789abcdef01234567";
  label = codes "before the change";
  created = codes "1700000000";
}

parse_log-printed_example :
    parse_log (join (codes "\n") (map print_entry (commit ∷ commit ∷ []))) ≡ commit ∷ commit ∷ []
parse_log-printed_example =
    parse_log-printed (commit ∷ commit ∷ [])
      ((refl, refl, refl, refl), ((refl, refl, refl, refl), tt))
