-- ===== src/Budget/Builders.antt =====
-- `Budget`, `Grep`, `Keep` and the builder methods of crates/execkit/src/budget.rs.
use execkit.Base.{ℕ, Option, none, some}
use execkit.Text.Chars.{Text}

pub record Grep : Type 0 where
  pub pattern : Text
  pub context : ℕ

pub data Keep : Type 0 where
  all : Keep
  tail head : ℕ → Keep
  head_tail : ℕ → ℕ → Keep

pub record Budget : Type 0 where
  pub grep : Option Grep
  pub keep : Keep
  pub max_chars : Option ℕ

abbrev pub default : Budget
default = record { grep = none; keep = Keep.all; max_chars = none }

unfoldable pub of_tail : ℕ → Budget
of_tail n = record default { keep = Keep.tail n }

unfoldable pub of_head : ℕ → Budget
of_head n = record default { keep = Keep.head n }

unfoldable pub of_head_tail : ℕ → ℕ → Budget
of_head_tail h t = record default { keep = Keep.head_tail h t }

unfoldable pub of_grep : Text → Budget
of_grep pattern = record default { grep = some (record { pattern = pattern; context = 0 }) }

-- No effect without a grep filter.
unfoldable pub with_context : Budget → ℕ → Budget
with_context b n = elim b.grep [
  | some g ↦ record b { grep = some (record g { context = n }) }
  | none ↦ b
]

unfoldable pub with_keep : Budget → Keep → Budget
with_keep b keep = record b { keep = keep }

unfoldable pub with_max_chars : Budget → ℕ → Budget
with_max_chars b n = record b { max_chars = some n }
