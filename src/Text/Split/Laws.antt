-- ===== src/Text/Split/Laws.antt =====
-- Cuts undone: pieces joined and split again, and trims that find nothing.
use execkit.Base.{
  ℕ, Bool, true, false, not, ◌≡◌, refl, ◌==◌, List, [], ◌∷◌, ◌++◌, some, all, All, is_empty, leb,
  Bool-cases, inl, inr, arith,
}
use execkit.Text.Chars.{Text, codes}
use execkit.Text.Split.{
  split, split_once, trim_start_matches, trim_end_matches, trim_matches, strip_cr, end_lines, lines,
  join,
}

split-cons : (p : ℕ → Bool) (xs : Text) → (w : Text) × (ws : List Text) × (split p xs ≡ w ∷ ws)
unfolding split
split-cons p [] = ([], [], refl)
split-cons p (x ∷ xs) =
    let (w, ws, e) = split-cons p xs in
    elim (Bool-cases (p x)) [ inl h ↦ ([], split p xs, rw h) | inr h ↦ (x ∷ w, ws, rw (h, e)) ]

pub split-append :
    (p : ℕ → Bool) (s : ℕ) (xs ys : Text)
    → p s ≡ true
    → split p (xs ++ (s ∷ ys)) ≡ split p xs ++ split p ys
unfolding split
split-append p s [] ys h = rw h
split-append p s (x ∷ xs) ys h =
    let ih = split-append p s xs ys h in
    let (w, ws, e) = split-cons p xs in
    elim (Bool-cases (p x)) [ inl hx ↦ rw (hx, ih) | inr hx ↦ rw (hx, ih, e) ]

abbrev pub none_of : (ℕ → Bool) → Text → Bool
none_of p = all (λ c. not (p c))

pub split_once-append :
    (p : ℕ → Bool) (s : ℕ) (xs ys : Text)
    → p s ≡ true
    → none_of p xs ≡ true
    → split_once p (xs ++ (s ∷ ys)) ≡ (xs, some ys)
unfolding split_once
split_once-append p s [] ys h n = rw h
split_once-append p s (x ∷ xs) ys h n =
    let hx : p x ≡ false = ground arith in
    let hn : none_of p xs ≡ true = ground arith in rw (hx, split_once-append p s xs ys h hn)

pub split_whole : (p : ℕ → Bool) (xs : Text) → none_of p xs ≡ true → split p xs ≡ xs ∷ []
unfolding split
split_whole p [] n = refl
split_whole p (x ∷ xs) n =
    let hx : p x ≡ false = ground arith in
    let hn : none_of p xs ≡ true = ground arith in rw (hx, split_whole p xs hn)

trim_end_none : (p : ℕ → Bool) (xs : Text) → none_of p xs ≡ true → trim_end_matches p xs ≡ xs
unfolding trim_end_matches
trim_end_none p [] n = refl
trim_end_none p (x ∷ xs) n =
    let hx : p x ≡ false = ground arith in
    let hn : none_of p xs ≡ true = ground arith in rw (trim_end_none p xs hn, hx) (ground arith)

pub trim_none : (p : ℕ → Bool) (xs : Text) → none_of p xs ≡ true → trim_matches p xs ≡ xs
unfolding trim_matches trim_start_matches
trim_none p [] n = trim_end_none p [] n
trim_none p (x ∷ xs) n = let hx : p x ≡ false = ground arith in rw hx (trim_end_none p (x ∷ xs) n)

-- A line that reads back: some characters, and no control character among them.
abbrev pub IsLine : Text → Type 0
IsLine w = (is_empty w ≡ false) × (all (leb 32) w ≡ true)

no_newline : (w : Text) → all (leb 32) w ≡ true → none_of (λ c. c == b'\n') w ≡ true
no_newline [] h = refl
no_newline (c ∷ cs) h =
    let hc : leb 32 c ≡ true = ground arith in
    let hs : all (leb 32) cs ≡ true = ground arith in rw (no_newline cs hs) (ground arith)

strip_none : (w : Text) → all (leb 32) w ≡ true → strip_cr w ≡ w
unfolding strip_cr
strip_none [] h = refl
strip_none (c ∷ []) h = let e : (c == b'\r') ≡ false = ground arith in rw e
strip_none (c ∷ d ∷ cs) h =
    let hs : all (leb 32) (d ∷ cs) ≡ true = ground arith in rw (strip_none (d ∷ cs) hs)

split-join :
    (w : Text) (ws : List Text)
    → All IsLine (w ∷ ws)
    → split (λ c. c == b'\n') (join (codes "\n") (w ∷ ws)) ≡ w ∷ ws
unfolding join
split-join w [] h = split_whole (λ c. c == b'\n') w (no_newline w h.0.1)
split-join w (v ∷ ws) h = rw (
  split-append (λ c. c == b'\n') b'\n' w (join (codes "\n") (v ∷ ws)) refl,
  split_whole (λ c. c == b'\n') w (no_newline w h.0.1),
  split-join v ws h.1,
)

end_lines_lem : (ws : List Text) → All IsLine ws → end_lines ws ≡ ws
unfolding end_lines
end_lines_lem [] h = refl
end_lines_lem (w ∷ []) h = rw h.0.0
end_lines_lem (w ∷ v ∷ ws) h = rw (strip_none w h.0.1, end_lines_lem (v ∷ ws) h.1)

lines_empty : lines (join (codes "\n") []) ≡ []
unfolding lines join
lines_empty = refl

pub lines-join : (ws : List Text) → All IsLine ws → lines (join (codes "\n") ws) ≡ ws
unfolding lines
lines-join [] h = lines_empty
lines-join (w ∷ ws) h = rw (split-join w ws h) (end_lines_lem (w ∷ ws) h)
