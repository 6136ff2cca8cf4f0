-- ===== src/Budget/Apply/Laws.antt =====
-- What `apply` promises for any budget, and that the default one changes nothing before the cap.
use execkit.Base.{
  ℕ, zero, suc, ◌+◌, ◌-◌, ◌^◌, ◌≤◌, ◌<◌, ◌≡◌, refl, ap, sym, subst, ◌∙◌, List, [], ◌∷◌, ◌++◌,
  Option, none, some, arith, ltb, ◌==◌, length, map, drop, drop_all, get_elem?, Bool, false, inl,
  inr, ◌⊎◌, Option-cases,
}
use execkit.Text.Chars.{Text, codes}
use execkit.Text.Split.{join, lines}
use native.Mathlib.Nat.{zero-add}
use execkit.Error.{Result, ok, err, failed_or}
use execkit.Output.{bound}
use execkit.Budget.Builders.{Grep, Keep, Budget, default}
use execkit.Budget.Grep.{grep_keep_indices}
use execkit.Budget.Grep.Near.{Rising, grep_keep_indices_lem}
use execkit.Budget.Window.{keep_subset, quota, keep_subset-Rising, length-keep_subset}
use execkit.Budget.Render.{push, push_content, render_from, render_lines, render}
use execkit.Budget.Render.Layout.{Item, print, shown_count, Covers, render_lines-IsLayout, drop-get}
use execkit.Budget.Apply.{
  Shaped, apply, apply_grep, shape, range, compile_grep, or_else, returned, mode_of, label_parts,
}

-- Each line of the content is shown or counted; the window's size bounds the lines shown; the report
-- has the counts; the cap cuts the text.
abbrev pub IsShaped : List Text → Budget → ℕ → Shaped → Type 0
IsShaped content b cap s =
    (items : List Item) × Covers items content
    × (shown_count items ≡ s.report.lines_kept)
    × (s.report.lines_kept ≤ quota b.keep (length content))
    × (s.report.lines_total ≡ length content)
    × ((s.text, s.capped) ≡ bound (join (codes "\n") (map print items)) cap)

-- The result is an error only where the grep pattern does not compile; there is no panic.
abbrev pub IsOutcome :
    (Text → ℕ → (Text → Bool) ⊎ Text) → List Text → Budget → ℕ → Option (Result Shaped) → Type 0
IsOutcome build content b cap none = ⊥
IsOutcome build content b cap (some (err e)) =
    (g : Grep) × (b.grep ≡ some g) × (compile_grep build g.pattern ≡ err e)
IsOutcome build content b cap (some (ok s)) = IsShaped content b cap s

Rising-length : (lo hi : ℕ) (ks : List ℕ) → Rising lo hi ks → length ks ≤ hi - lo
Rising-length lo hi [] r = omega arith
Rising-length lo hi (k ∷ ks) r = omega (arith, r.0, r.1, Rising-length (suc k) hi ks r.2)

quota_mono : (keep : Keep) (m n : ℕ) → m ≤ n → quota keep m ≤ quota keep n
quota_mono Keep.all m n h = h
quota_mono (Keep.tail k) m n h = omega arith
quota_mono (Keep.head k) m n h = omega arith
quota_mono (Keep.head_tail a b) m n h = omega arith

range-Rising : (lo n : ℕ) → Rising lo (lo + n) (range lo n)
range-Rising lo zero = tt
range-Rising lo (suc n) =
    let e : suc lo + n ≡ lo + suc n = omega arith in
    (
      omega arith,
      omega arith,
      subst (λ hi. Rising (suc lo) hi (range (suc lo) n)) e (range-Rising (suc lo) n),
    )

-- What is made of the rendered lines.
abbrev pub shaped : List Text → Budget → ℕ → List ℕ → List Text → List Text → Shaped
shaped content b fallback idx parts out =
    let cut = bound (join (codes "\n") out) (or_else b.max_chars fallback) in
    record {
      text = cut.0;
      report = record {
        mode = mode_of (parts ++ label_parts b.keep);
        lines_total = length content;
        lines_kept = length (keep_subset idx b.keep);
      };
      capped = cut.1;
    }

shape_of :
    (content : List Text) (b : Budget) (fallback : ℕ) (idx : List ℕ) (parts out : List Text)
    → render_lines content (keep_subset idx b.keep) (length content) ≡ some out
    → shape content b fallback idx parts ≡ some (shaped content b fallback idx parts out)
unfolding shape render
shape_of content b fallback idx parts out e = rw (e, shape, render)

shape-IsShaped :
    (content : List Text) (b : Budget) (fallback : ℕ) (idx : List ℕ) (parts : List Text)
    → length content < 2 ^ 64
    → Rising 0 (length content) idx
    → (s : Shaped) × (shape content b fallback idx parts ≡ some s)
      × IsShaped content b (or_else b.max_chars fallback) s
shape-IsShaped content b fallback idx parts big r =
    let few = Rising-length 0 (length content) idx r in
    let size = length-keep_subset b.keep idx (omega arith) in
    let (items, out, c, n) =
      render_lines-IsLayout content (keep_subset idx b.keep)
        (keep_subset-Rising b.keep 0 (length content) idx (omega arith) r) in
    let lines_out = map print items in
    (
      shaped content b fallback idx parts lines_out,
      shape_of content b fallback idx parts lines_out out,
      (
        items,
        c,
        n,
        omega (arith, size, quota_mono b.keep (length idx) (length content) (omega arith)),
        refl,
        refl,
      ),
    )

module _ (build : Text → ℕ → (Text → Bool) ⊎ Text) (text : Text) (b : Budget) (fallback : ℕ) where
  apply-none :
      b.grep ≡ none
      → apply build text b fallback
        ≡ returned (shape (lines text) b fallback (range 0 (length (lines text))) [])
  unfolding apply
  apply-none e = ap (apply_grep build (lines text) b fallback) e

  apply-some :
      (g : Grep)
      → b.grep ≡ some g
      → apply build text b fallback ≡ apply_grep build (lines text) b fallback (some g)
  unfolding apply
  apply-some g e = ap (apply_grep build (lines text) b fallback) e

-- What `apply` gives for any budget, pattern compiler and text of fewer than 2^64 lines. It does not
-- panic. It fails only where the budget has a grep whose pattern does not compile, with that error.
-- Otherwise every line of the text is shown in its place or counted by a marker, the report's counts are
-- the lines of the text and the lines shown, no more are shown than the window asks for, and the text is
-- what `bound` makes of the rendered lines at the budget's cap, or the session's where it has none.
pub apply-IsOutcome :
    (build : Text → ℕ → (Text → Bool) ⊎ Text) (text : Text) (b : Budget) (fallback : ℕ)
    → length (lines text) < 2 ^ 64
    → IsOutcome build (lines text) b (or_else b.max_chars fallback) (apply build text b fallback)
apply-IsOutcome build text b fallback big =
    let content = lines text in
    let cap = or_else b.max_chars fallback in
    let to : (o : Option (Result Shaped))
        → apply build text b fallback ≡ o
        → IsOutcome build content b cap o
        → IsOutcome build content b cap (apply build text b fallback) =
      λ o e good. subst (IsOutcome build content b cap) (sym e) good in
    elim (Option-cases b.grep) [
      | inl e ↦
          let (s, at, good) = shape-IsShaped content b fallback (range 0 (length content)) [] big (
            subst (λ n. Rising 0 n (range 0 (length content))) (zero-add (length content))
              (range-Rising 0 (length content))) in
          to (some (ok s)) (apply-none build text b fallback e ∙ ap returned at) good
      | inr (g, e) ↦ elim (failed_or (compile_grep build g.pattern)) [
        | inr (re, c) ↦
            let (s, at, good) =
              shape-IsShaped content b fallback (grep_keep_indices content re g.context)
                (codes "grep" ∷ []) big (grep_keep_indices_lem content re g.context big).1 in
            to (some (ok s))
              (apply-some build text b fallback g e ∙ rw (c, apply_grep) (ap returned at)) good
        | inl (x, c) ↦
            to (some (err x)) (apply-some build text b fallback g e ∙ rw (c, apply_grep)) (g, e, c)
      ]
    ]

push_content-some :
    (content : List Text) (i : ℕ) (line : Text) (out : List Text)
    → get_elem? content i ≡ some line
    → push_content content i (some out) ≡ some (line ∷ out)
push_content-some content i line out e =
    ap (λ o. elim o [ none ↦ none | some line ↦ push line (some out) ]) e

-- All the lines kept.
render_from-range :
    (content : List Text) (i m : ℕ)
    → i + suc m ≡ length content
    → render_from content (length content) i (range (suc i) m) ≡ some (drop i content)
unfolding render_from
render_from-range content i zero h =
    let n = length content in
    let (line, got, cut) = drop-get content i (omega arith) in
    let z : (n == 0) ≡ false = ground arith in
    let last : ltb i (n - 1) ≡ false = ground arith in
    let none_left : drop (suc i) content ≡ [] = drop_all (suc i) content (omega arith) in
    rw (z, last, cut, none_left) (push_content-some content i line [] got)
render_from-range content i (suc m) h =
    let (line, got, cut) = drop-get content i (omega arith) in
    let near : ltb (i + 1) (suc i) ≡ false = ground arith in
    rw (near, render_from-range content (suc i) m (omega arith), cut)
      (push_content-some content i line (drop (suc i) content) got)

render_lines-range :
    (content : List Text)
    → render_lines content (range 0 (length content)) (length content) ≡ some content
unfolding render_lines
render_lines-range [] = refl
render_lines-range (c ∷ cs) = render_from-range (c ∷ cs) 0 (length cs) (omega arith)

-- The default budget is a no-op before the cap: every line passes, no marker is added, the mode is
-- "all", both counts are the number of lines, and the text is the lines cut by `bound` at the session's
-- cap.
pub apply-default :
    (build : Text → ℕ → (Text → Bool) ⊎ Text) (text : Text) (fallback : ℕ)
    → apply build text default fallback
      ≡ some (
          ok (shaped (lines text) default fallback (range 0 (length (lines text))) [] (lines text)))
unfolding keep_subset
apply-default build text fallback =
    let content = lines text in
    let idx = range 0 (length content) in
    apply-none build text default fallback refl
    ∙ ap returned (shape_of content default fallback idx [] content (render_lines-range content))
