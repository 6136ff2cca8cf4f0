-- ===== src/Budget/Render/Layout.antt =====
-- What a rendered text promises: each line of the content is shown in its place, or is counted by
-- exactly one marker.
use execkit.Base.{
  ℕ, zero, suc, ◌+◌, ◌-◌, ◌≤◌, ◌<◌, ◌≡◌, refl, ap, sym, subst, List, [], ◌∷◌, Option, none, some,
  arith, ltb, ◌==◌, length, map, drop, drop_all, ◌∙◌, get_elem?, drop-drop, length-drop, Bool-cases,
  inl, inr, false, ltb→lt, ltb→le,
}
use execkit.Text.Chars.{Text}
use execkit.Budget.Grep.Near.{Rising}
use execkit.Budget.Render.{marker, push, push_content, render_from, render_lines}

pub data Item : Type 0 where
  shown : Text → Item
  elided : ℕ → Item

abbrev pub print : Item → Text
print (Item.shown line) = line
print (Item.elided n) = marker n

abbrev pub shown_count : List Item → ℕ
shown_count [] = 0
shown_count (Item.shown line ∷ items) = suc (shown_count items)
shown_count (Item.elided n ∷ items) = shown_count items

-- The items tell of all the lines, in their order; a marker counts at least one.
abbrev pub Covers : List Item → List Text → Type 0
Covers [] [] = Unit {0}
Covers [] (c ∷ cs) = ⊥
Covers (Item.shown line ∷ items) [] = ⊥
Covers (Item.shown line ∷ items) (c ∷ cs) = (line ≡ c) × Covers items cs
Covers (Item.elided n ∷ items) cs = (0 < n) × (n ≤ length cs) × Covers items (drop n cs)

-- The texts `out` are the printed items of a cover that shows `n` lines.
abbrev pub IsLayout : List Text → ℕ → Option (List Text) → Type 0
IsLayout content n out =
    (items : List Item) × (out ≡ some (map print items))
    × Covers items content
    × (shown_count items ≡ n)

pub drop-get :
    (content : List Text) (i : ℕ)
    → i < length content
    → (line : Text) × (get_elem? content i ≡ some line)
      × (drop i content ≡ line ∷ drop (suc i) content)
drop-get [] i h = absurd (omega arith)
drop-get (c ∷ cs) zero h = (c, refl, refl)
drop-get (c ∷ cs) (suc i) h = drop-get cs i (omega arith)

-- A kept line, in front of a layout of what follows it.
IsLayout-line :
    (content : List Text) (i n : ℕ) (out : Option (List Text))
    → i < length content
    → IsLayout (drop (suc i) content) n out
    → IsLayout (drop i content) (suc n) (push_content content i out)
IsLayout-line content i n out h (items, e, c, s) =
    let (line, got, cut) = drop-get content i h in
    let pushed : push_content content i out ≡ some (line ∷ map print items) =
      ap (λ o. elim o [ none ↦ none | some line ↦ push line out ]) got ∙ ap (push line) e in
    (Item.shown line ∷ items, pushed, rw cut (refl, c), ap suc s)

-- A marker, in front of a layout of what follows the gap.
IsLayout-gap :
    (cs : List Text) (g n : ℕ) (out : Option (List Text))
    → 0 < g
    → g ≤ length cs
    → IsLayout (drop g cs) n out
    → IsLayout cs n (push (marker g) out)
IsLayout-gap cs g n out pos le (items, e, c, s) =
    rw e (Item.elided g ∷ items, refl, (pos, le, c), s)

IsLayout-nil : (cs : List Text) → cs ≡ [] → IsLayout cs 0 (some [])
IsLayout-nil cs e = subst (λ cs. IsLayout cs 0 (some [])) (sym e) ([], refl, tt, refl)

render_from-IsLayout :
    (content : List Text) (i : ℕ) (ks : List ℕ)
    → i < length content
    → Rising (suc i) (length content) ks
    → IsLayout (drop i content) (suc (length ks)) (render_from content (length content) i ks)
unfolding render_from
render_from-IsLayout content i [] h r =
    let n = length content in
    let z : (n == 0) ≡ false = ground arith in
    elim (Bool-cases (ltb i (n - 1))) [
      | inl e ↦
          let g = n - 1 - i in
          let end : drop g (drop (suc i) content) ≡ [] =
            drop-drop g (suc i) content ∙ drop_all (suc i + g) content (omega arith) in
          rw (z, e)
            (IsLayout-line content i 0 (some (marker g ∷ [])) h (
              IsLayout-gap (drop (suc i) content) g 0 (some []) (omega (arith, ltb→lt i (n - 1) e))
                (omega (arith, length-drop (suc i) content))
                (IsLayout-nil (drop g (drop (suc i) content)) end)))
      | inr e ↦
          rw (z, e)
            (IsLayout-line content i 0 (some []) h (
              IsLayout-nil (drop (suc i) content)
                (drop_all (suc i) content (omega (arith, ltb→le i (n - 1) e)))))
    ]
render_from-IsLayout content i (j ∷ js) h r =
    let n = length content in
    let rest = render_from content n j js in
    let ih = render_from-IsLayout content j js r.1 r.2 in
    elim (Bool-cases (ltb (i + 1) j)) [
      | inl e ↦
          let g = j - i - 1 in
          let pos : i + 1 < j = ltb→lt (i + 1) j e in
          let at : suc i + g ≡ j = omega arith in
          let there : drop g (drop (suc i) content) ≡ drop j content =
            drop-drop g (suc i) content ∙ ap (λ k. drop k content) at in
          rw e (
            IsLayout-line content i (suc (length js)) (push (marker g) rest) h (
              IsLayout-gap (drop (suc i) content) g (suc (length js)) rest (omega arith)
                (omega (arith, r.1, length-drop (suc i) content)) (rw there ih)))
      | inr e ↦
          let at : suc i ≡ j = omega (arith, r.0, ltb→le (i + 1) j e) in
          rw e (IsLayout-line content i (suc (length js)) rest h (rw at ih))
    ]

-- For increasing kept line numbers within the content, `render` hits no index out of range, and its
-- lines are the print of items that tell of every line of the content, in order: each line is shown in
-- its place or counted by exactly one marker, no marker counts zero lines, and as many lines are shown
-- as were kept.
pub render_lines-IsLayout :
    (content : List Text) (kept : List ℕ)
    → Rising 0 (length content) kept
    → IsLayout content (length kept) (render_lines content kept (length content))
unfolding render_lines
render_lines-IsLayout [] [] r = IsLayout-nil [] refl
render_lines-IsLayout (c ∷ cs) [] r =
    let z : (suc (length cs) == 0) ≡ false = ground arith in
    (
      Item.elided (length (c ∷ cs)) ∷ [],
      rw z,
      (omega arith, omega arith, rw (drop_all (length cs) cs (omega arith)) tt),
      refl,
    )
render_lines-IsLayout content (i ∷ ks) r =
    let rest = render_from content (length content) i ks in
    let ih = render_from-IsLayout content i ks r.1 r.2 in
    elim (Bool-cases (ltb 0 i)) [
      | inl e ↦
          rw e
            (IsLayout-gap content i (suc (length ks)) rest (ltb→lt 0 i e) (omega (arith, r.1)) ih)
      | inr e ↦
          let at : i ≡ 0 = omega (arith, ltb→le 0 i e) in
          rw e (subst (λ k. IsLayout (drop k content) (suc (length ks)) rest) at ih)
    ]
