-- ===== src/Budget/Apply.antt =====
-- `StreamReport`, `compile_grep` and `apply` of crates/execkit/src/budget.rs. `build pattern limit`
-- stands for the `regex` crate's builder: the test of a compiled pattern, or the error's text.
pub mod Laws
use execkit.Base.{
  ℕ, zero, suc, ◌*◌, ◌^◌, List, [], ◌∷◌, ◌++◌, Option, none, some, Bool, ltb, length, is_empty,
  if◌then◌else◌, ◌⊎◌, inl, inr,
}
use execkit.Text.Chars.{Text, codes}
use execkit.Text.Split.{join, lines}
use execkit.Text.Utf8.{as_bytes}
use execkit.Text.Decimal.{decimal}
use execkit.Error.{Error, Result, ok, err}
use execkit.Output.{bound}
use execkit.Budget.Builders.{Grep, Keep, Budget}
use execkit.Budget.Grep.{grep_keep_indices}
use execkit.Budget.Window.{keep_subset}
use execkit.Budget.Render.{render}

pub record StreamReport : Type 0 where
  pub mode : Text
  pub lines_total : ℕ
  pub lines_kept : ℕ

pub record BudgetReport : Type 0 where
  pub stdout : StreamReport
  pub stderr : StreamReport

abbrev pub keep_label : Keep → Option Text
keep_label Keep.all = none
keep_label (Keep.tail k) = some (codes "tail")
keep_label (Keep.head k) = some (codes "head")
keep_label (Keep.head_tail h t) = some (codes "head_tail")

-- `MAX_GREP_PATTERN_LEN`, in bytes.
abbrev pub max_grep_pattern_len : ℕ
max_grep_pattern_len = 4096

unfoldable pub compile_grep : (Text → ℕ → (Text → Bool) ⊎ Text) → Text → Result (Text → Bool)
compile_grep build pattern =
    let n = length (as_bytes pattern) in
    if ltb max_grep_pattern_len n
    then err (
        Error.budget (
          codes "grep pattern too long ("
          ++ (decimal n ++ (codes " bytes; max " ++ (decimal max_grep_pattern_len ++ codes ")")))))
    else elim (build pattern (2 ^ 20)) [
      | inl re ↦ ok re
      | inr e ↦ err (Error.budget (codes "invalid grep pattern: " ++ e))
    ]

-- `lo, lo + 1, …`, `n` of them.
abbrev pub range : ℕ → ℕ → List ℕ
range lo zero = []
range lo (suc n) = lo ∷ range (suc lo) n

abbrev pub mode_of : List Text → Text
mode_of parts = if is_empty parts then codes "all" else join (codes "+") parts

abbrev pub label_parts : Keep → List Text
label_parts keep = elim (keep_label keep) [ none ↦ [] | some l ↦ l ∷ [] ]

abbrev pub or_else : Option ℕ → ℕ → ℕ
or_else none d = d
or_else (some n) d = n

-- The text, its report, and whether the cap cut it.
pub record Shaped : Type 0 where
  pub text : Text
  pub report : StreamReport
  pub capped : Bool

-- `apply` behind the grep: `idx` are the lines that are left, `parts` the labels so far.
unfoldable pub shape : List Text → Budget → ℕ → List ℕ → List Text → Option Shaped
shape content budget fallback idx parts =
    let kept = keep_subset idx budget.keep in
    elim (render content kept (length content)) [
      | none ↦ none
      | some rendered ↦
          let (capped_text, was_capped) = bound rendered (or_else budget.max_chars fallback) in
          some (record {
            text = capped_text;
            report = record {
              mode = mode_of (parts ++ label_parts budget.keep);
              lines_total = length content;
              lines_kept = length kept;
            };
            capped = was_capped;
          })
    ]

abbrev pub returned : Option Shaped → Option (Result Shaped)
returned none = none
returned (some s) = some (ok s)

-- The selection by the grep, where there is one.
abbrev pub apply_grep :
    (Text → ℕ → (Text → Bool) ⊎ Text)
    → List Text
    → Budget
    → ℕ
    → Option Grep
    → Option (Result Shaped)
apply_grep build content budget fallback none =
    returned (shape content budget fallback (range 0 (length content)) [])
apply_grep build content budget fallback (some g) = elim (compile_grep build g.pattern) [
  | err e ↦ some (err e)
  | ok re ↦
      returned
        (shape content budget fallback (grep_keep_indices content re g.context) (codes "grep" ∷ []))
]

-- `none` where the code would panic.
unfoldable pub apply :
    (Text → ℕ → (Text → Bool) ⊎ Text) → Text → Budget → ℕ → Option (Result Shaped)
apply build text budget fallback = apply_grep build (lines text) budget fallback budget.grep
