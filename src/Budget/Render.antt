-- ===== src/Budget/Render.antt =====
-- `render` of crates/execkit/src/budget.rs; `none` where the code would panic on an index.
pub mod Layout
use execkit.Base.{
  ℕ, ◌+◌, ◌-◌, List, [], ◌∷◌, ◌++◌, Option, none, some, ltb, ◌==◌, get_elem?, if◌then◌else◌,
}
use execkit.Text.Chars.{Text, codes}
use execkit.Text.Split.{join}
use execkit.Text.Decimal.{decimal}

unfoldable pub marker : ℕ → Text
marker n = codes "... " ++ (decimal n ++ codes " lines elided ...")

-- `out.push`, seen from the front: the line stands before what the rest of the loop pushes.
abbrev pub push : Text → Option (List Text) → Option (List Text)
push w none = none
push w (some ws) = some (w ∷ ws)

-- `out.push(content[i].to_string())`.
abbrev pub push_content : List Text → ℕ → Option (List Text) → Option (List Text)
push_content content i rest = elim (get_elem? content i) [
  | none ↦ none
  | some line ↦ push line rest
]

-- The loop from the kept line `i` on, and the marker behind the last one.
unfoldable pub render_from : List Text → ℕ → ℕ → List ℕ → Option (List Text)
render_from content total i [] = push_content content i (
    if total == 0
    then none
    else if ltb i (total - 1)
    then some (marker (total - 1 - i) ∷ [])
    else some [])
render_from content total i (j ∷ js) =
    let rest = render_from content total j js in
    push_content content i (if ltb (i + 1) j then push (marker (j - i - 1)) rest else rest)

-- What the code joins with line ends.
unfoldable pub render_lines : List Text → List ℕ → ℕ → Option (List Text)
render_lines content [] total = if total == 0 then some [] else some (marker total ∷ [])
render_lines content (i ∷ ks) total =
    let rest = render_from content total i ks in if ltb 0 i then push (marker i) rest else rest

unfoldable pub render : List Text → List ℕ → ℕ → Option Text
render content kept total = elim (render_lines content kept total) [
  | none ↦ none
  | some out ↦ some (join (codes "\n") out)
]
