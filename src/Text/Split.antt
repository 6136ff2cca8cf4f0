-- ===== src/Text/Split.antt =====
-- `split`, `splitn`, `split_whitespace`, `lines`, `trim` and `join`.
pub mod Laws
use execkit.Base.{
  ℕ, zero, suc, Bool, not, ◌&&◌, List, [], ◌∷◌, ◌++◌, Option, none, some, ◌==◌, filter, is_empty,
  any, if◌then◌else◌,
}
use execkit.Text.Chars.{Text, is_whitespace}

-- The text before the first `p`, and what follows it where there is one.
unfoldable pub split_once : (ℕ → Bool) → Text → Text × Option Text
split_once p [] = ([], none)
split_once p (c ∷ cs) =
    let rest = split_once p cs in if p c then ([], some cs) else (c ∷ rest.0, rest.1)

abbrev pub push_front : ℕ → List Text → List Text
push_front c [] = (c ∷ []) ∷ []
push_front c (w ∷ ws) = (c ∷ w) ∷ ws

-- `split(p)`: one piece more than there are separators.
unfoldable pub split : (ℕ → Bool) → Text → List Text
split p [] = [] ∷ []
split p (c ∷ cs) = if p c then [] ∷ split p cs else push_front c (split p cs)

-- `splitn(n, c)`: at most `n` pieces, the last one whole.
unfoldable pub splitn : ℕ → ℕ → Text → List Text
unfolding split_once
splitn zero k cs = []
splitn (suc zero) k cs = cs ∷ []
splitn (suc n) k cs =
    let cut = split_once (λ c. c == k) cs in
    cut.0 ∷ (elim cut.1 [ none ↦ [] | some rest ↦ splitn n k rest ])

unfoldable pub split_whitespace : Text → List Text
unfolding split is_whitespace
split_whitespace cs = filter (λ w. not (is_empty w)) (split is_whitespace cs)

unfoldable pub trim_start_matches : (ℕ → Bool) → Text → Text
trim_start_matches p [] = []
trim_start_matches p (c ∷ cs) = if p c then trim_start_matches p cs else c ∷ cs

unfoldable pub trim_end_matches : (ℕ → Bool) → Text → Text
trim_end_matches p [] = []
trim_end_matches p (c ∷ cs) =
    let rest = trim_end_matches p cs in if is_empty rest && p c then [] else c ∷ rest

unfoldable pub trim_matches : (ℕ → Bool) → Text → Text
unfolding trim_start_matches trim_end_matches
trim_matches p cs = trim_end_matches p (trim_start_matches p cs)

unfoldable pub trim : Text → Text
unfolding trim_matches is_whitespace
trim = trim_matches is_whitespace

unfoldable pub trim_start : Text → Text
unfolding trim_start_matches is_whitespace
trim_start = trim_start_matches is_whitespace

unfoldable pub trim_end : Text → Text
unfolding trim_end_matches is_whitespace
trim_end = trim_end_matches is_whitespace

-- A line that ended in `\n` loses one `\r` before it.
unfoldable pub strip_cr : Text → Text
strip_cr [] = []
strip_cr (c ∷ []) = if c == b'\r' then [] else c ∷ []
strip_cr (c ∷ d ∷ cs) = c ∷ strip_cr (d ∷ cs)

-- What `split('\n')` gives, as lines: the last piece ended in no `\n`, and is dropped if empty.
unfoldable pub end_lines : List Text → List Text
unfolding strip_cr
end_lines [] = []
end_lines (w ∷ []) = if is_empty w then [] else w ∷ []
end_lines (w ∷ v ∷ ws) = strip_cr w ∷ end_lines (v ∷ ws)

-- `str::lines`.
unfoldable pub lines : Text → List Text
unfolding split end_lines
lines cs = end_lines (split (λ c. c == b'\n') cs)

unfoldable pub join : Text → List Text → Text
join sep [] = []
join sep (w ∷ []) = w
join sep (w ∷ v ∷ ws) = w ++ (sep ++ join sep (v ∷ ws))

-- `rsplit(k).next()`: what follows the last `k`, or the whole text.
unfoldable pub after_last : ℕ → Text → Text
after_last k [] = []
after_last k (c ∷ cs) = if any (λ d. d == k) (c ∷ cs) then after_last k cs else c ∷ cs
