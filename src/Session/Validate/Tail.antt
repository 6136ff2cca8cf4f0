-- ===== src/Session/Validate/Tail.antt =====
-- What `stderr_tail` of crates/execkit/src/session.rs makes of what the resync command prints.
use execkit.Base.{
  ℕ, ◌^◌, ◌-◌, ◌<◌, ◌≡◌, refl, ap, ◌∙◌, true, false, Bool, [], ◌∷◌, ◌++◌, Option, none, some, ◌==◌,
  ltb, all, arith, if◌then◌else◌,
}
use execkit.Text.Chars.{Text, is_ascii_digit, is_whitespace}
use execkit.Text.Decimal.{decimal, parse_unsigned}
use execkit.Text.Decimal.RoundTrip.{decimal-digits, parse_unsigned-decimal}
use execkit.Text.Split.{trim, split_once}
use execkit.Text.Split.Laws.{none_of, trim_none, split_once-append}
use execkit.Session.Validate.{
  strip_suffix, rsplit_once, tail_and_size, is_cut, behind_first_line, stderr_tail,
}

strip_suffix-append : (k : ℕ) (xs : Text) → strip_suffix k (xs ++ k ∷ []) ≡ some xs
unfolding strip_suffix
strip_suffix-append k [] = let e : (k == k) ≡ true = ground arith in rw e
strip_suffix-append k (x ∷ []) =
    ap (λ o. elim o [ none ↦ none | some r ↦ some (x ∷ r) ]) (strip_suffix-append k [])
strip_suffix-append k (x ∷ y ∷ xs) =
    ap (λ o. elim o [ none ↦ none | some r ↦ some (x ∷ r) ]) (strip_suffix-append k (y ∷ xs))

-- One more character in front of a split.
abbrev in_front : ℕ → ℕ → Text → Option (Text × Text) → Option (Text × Text)
in_front k c cs o = elim o [
  | some r ↦ some (c ∷ r.0, r.1)
  | none ↦ if c == k then some ([], cs) else none
]

rsplit_once_step :
    (k c : ℕ) (cs : Text) → rsplit_once k (c ∷ cs) ≡ in_front k c cs (rsplit_once k cs)
unfolding rsplit_once
rsplit_once_step k c cs = refl

unsplit : (k : ℕ) → rsplit_once k [] ≡ none
unfolding rsplit_once
unsplit k = refl

no_split : (k : ℕ) (w : Text) → none_of (λ c. c == k) w ≡ true → rsplit_once k w ≡ none
no_split k [] h = unsplit k
no_split k (c ∷ cs) h =
    let hc : (c == k) ≡ false = ground arith in
    let hs : none_of (λ c. c == k) cs ≡ true = ground arith in
    rsplit_once_step k c cs ∙ (ap (in_front k c cs) (no_split k cs hs) ∙ rw hc refl)

pub rsplit_once-append :
    (k : ℕ) (xs w : Text)
    → none_of (λ c. c == k) w ≡ true
    → rsplit_once k (xs ++ k ∷ w) ≡ some (xs, w)
rsplit_once-append k [] w h =
    let e : (k == k) ≡ true = ground arith in
    rsplit_once_step k k w ∙ (ap (in_front k k w) (no_split k w h) ∙ rw e refl)
rsplit_once-append k (x ∷ xs) w h =
    rsplit_once_step k x (xs ++ k ∷ w)
    ∙ ap (in_front k x (xs ++ k ∷ w)) (rsplit_once-append k xs w h)

digits_no_newline : (w : Text) → all is_ascii_digit w ≡ true → none_of (λ c. c == b'\n') w ≡ true
digits_no_newline [] h = refl
digits_no_newline (c ∷ cs) h =
    let hs : all is_ascii_digit cs ≡ true = ground arith in
    rw (digits_no_newline cs hs) (ground arith)

digits_no_blank : (w : Text) → all is_ascii_digit w ≡ true → none_of is_whitespace w ≡ true
unfolding is_whitespace
digits_no_blank [] h = refl
digits_no_blank (c ∷ cs) h =
    let hs : all is_ascii_digit cs ≡ true = ground arith in
    let hc : is_whitespace c ≡ false = ground arith in rw (digits_no_blank cs hs, hc)

trim-decimal : (n : ℕ) → trim (decimal n) ≡ decimal n
unfolding trim
trim-decimal n =
    trim_none is_whitespace (decimal n) (digits_no_blank (decimal n) (decimal-digits n))

-- A size that was read is larger than what is kept.
abbrev is_larger : ℕ → Option ℕ → Bool
is_larger kept o = elim o [ none ↦ false | some n ↦ ltb kept n ]

is_cut-decimal : (n kept : ℕ) → n < 2 ^ 64 → is_cut (decimal n) kept ≡ ltb kept n
is_cut-decimal n kept h =
    ap (λ w. is_larger kept (parse_unsigned (2 ^ 64 - 1) w)) (trim-decimal n)
    ∙ ap (is_larger kept) (parse_unsigned-decimal (2 ^ 64 - 1) n (omega arith))

-- `stderr_tail` behind the mark, and behind the split.
abbrev shown : ℕ → Text × Text → Text
shown kept r = if is_cut r.1 kept then behind_first_line r.0 else r.0

abbrev split_tail : Text → Option (Text × Text) → Text × Text
split_tail body o = elim o [ none ↦ ([], body) | some r ↦ r ]

abbrev behind_mark : ℕ → Text → Option Text → Text
behind_mark kept framed o = elim o [ none ↦ framed | some body ↦ shown kept (tail_and_size body) ]

stderr_tail_parts :
    (framed : Text) (kept : ℕ)
    → stderr_tail framed kept ≡ behind_mark kept framed (strip_suffix b'#' framed)
unfolding stderr_tail
stderr_tail_parts framed kept = refl

tail-printed :
    (tail : Text) (n kept : ℕ)
    → n < 2 ^ 64
    → stderr_tail ((tail ++ b'\n' ∷ decimal n) ++ b'#' ∷ []) kept
      ≡ (if ltb kept n then behind_first_line tail else tail)
tail-printed tail n kept h =
    let body = tail ++ b'\n' ∷ decimal n in
    let digits = digits_no_newline (decimal n) (decimal-digits n) in
    stderr_tail_parts (body ++ b'#' ∷ []) kept
    ∙ ap (behind_mark kept (body ++ b'#' ∷ [])) (strip_suffix-append b'#' body)
    ∙ ap (λ o. shown kept (split_tail body o)) (rsplit_once-append b'\n' tail (decimal n) digits)
    ∙ ap (λ b. if b then behind_first_line tail else tail) (is_cut-decimal n kept h)

split_once-none : (p : ℕ → Bool) (w : Text) → none_of p w ≡ true → split_once p w ≡ (w, none)
unfolding split_once
split_once-none p [] h = refl
split_once-none p (c ∷ cs) h =
    let hc : p c ≡ false = ground arith in
    let hs : none_of p cs ≡ true = ground arith in rw (hc, split_once-none p cs hs) refl

-- A text of a first line without a line end and, where there is one, what follows its line end.
abbrev pub begun : Text → Option Text → Text
begun line none = line
begun line (some rest) = line ++ b'\n' ∷ rest

abbrev pub or_nothing : Option Text → Text
or_nothing none = []
or_nothing (some rest) = rest

behind_first_line-begun :
    (line : Text) (rest : Option Text)
    → none_of (λ c. c == b'\n') line ≡ true
    → behind_first_line (begun line rest) ≡ or_nothing rest
behind_first_line-begun line none h =
    ap (λ r. or_nothing r.1) (split_once-none (λ c. c == b'\n') line h)
behind_first_line-begun line (some rest) h =
    ap (λ r. or_nothing r.1) (split_once-append (λ c. c == b'\n') b'\n' line rest refl h)

-- What the resync prints is the tail of a file, a line end, the file's size and `#`. The tail begins
-- with a line that holds no line end. Of a file that is no larger than what was kept of it the tail comes
-- back whole; of a larger one exactly what follows the first line's end does, and nothing where the tail
-- has no line end, so the line that the cut fell in is not shown.
pub stderr_tail-printed :
    (line : Text) (rest : Option Text) (n kept : ℕ)
    → none_of (λ c. c == b'\n') line ≡ true
    → n < 2 ^ 64
    → stderr_tail ((begun line rest ++ b'\n' ∷ decimal n) ++ b'#' ∷ []) kept
      ≡ (if ltb kept n then or_nothing rest else begun line rest)
stderr_tail-printed line rest n kept h k =
    tail-printed (begun line rest) n kept k
    ∙ ap (λ t. if ltb kept n then t else begun line rest) (behind_first_line-begun line rest h)
