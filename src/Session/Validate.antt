-- ===== src/Session/Validate.antt =====
-- `is_valid_container_ref`, `is_valid_checkpoint_id` and `stderr_tail` of
-- crates/execkit/src/session.rs.
pub mod Hash
pub mod Tail
use execkit.Base.{
  ℕ, ◌^◌, ◌-◌, ◌==◌, Bool, false, ◌&&◌, ◌||◌, [], ◌∷◌, Option, none, some, length, within, all, ltb,
  if◌then◌else◌,
}
use execkit.Text.Chars.{Text, is_ascii_alphanumeric, is_ascii_hexdigit}
use execkit.Text.Split.{split_once, trim}
use execkit.Text.Utf8.{as_bytes}
use execkit.Text.Decimal.{parse_unsigned}

unfoldable pub is_valid_container_ref : Text → Bool
is_valid_container_ref [] = false
is_valid_container_ref (c ∷ cs) =
    is_ascii_alphanumeric c
    && all (λ d. is_ascii_alphanumeric d || (d == b'_' || d == b'.' || d == b'-')) cs

unfoldable pub is_valid_checkpoint_id : Text → Bool
is_valid_checkpoint_id s =
    let bytes = as_bytes s in within 4 40 (length bytes) && all is_ascii_hexdigit bytes

-- `strip_suffix(k)`.
unfoldable pub strip_suffix : ℕ → Text → Option Text
strip_suffix k [] = none
strip_suffix k (c ∷ []) = if c == k then some [] else none
strip_suffix k (c ∷ d ∷ cs) = elim (strip_suffix k (d ∷ cs)) [ none ↦ none | some r ↦ some (c ∷ r) ]

-- `rsplit_once(k)`.
unfoldable pub rsplit_once : ℕ → Text → Option (Text × Text)
rsplit_once k [] = none
rsplit_once k (c ∷ cs) = elim (rsplit_once k cs) [
  | some r ↦ some (c ∷ r.0, r.1)
  | none ↦ if c == k then some ([], cs) else none
]

abbrev pub tail_and_size : Text → Text × Text
tail_and_size body = elim (rsplit_once b'\n' body) [ none ↦ ([], body) | some r ↦ r ]

abbrev pub is_cut : Text → ℕ → Bool
is_cut size cap = elim (parse_unsigned (2 ^ 64 - 1) (trim size)) [
  | none ↦ false
  | some n ↦ ltb cap n
]

-- What follows the first `\n`, if there is one.
abbrev pub behind_first_line : Text → Text
behind_first_line tail = elim (split_once (λ c. c == b'\n') tail).1 [ none ↦ [] | some rest ↦ rest ]

unfoldable pub stderr_tail : Text → ℕ → Text
stderr_tail framed cap = elim (strip_suffix b'#' framed) [
  | none ↦ framed
  | some body ↦
      let (tail, size) = tail_and_size body in
      if is_cut size cap then behind_first_line tail else tail
]
