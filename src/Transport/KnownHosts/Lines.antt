-- ===== src/Transport/KnownHosts/Lines.antt =====
-- The known_hosts file of crates/execkit/src/transport/ssh.rs as lines, and a line of two words.
use execkit.Base.{
  ℕ, ◌≡◌, refl, sym, ap, Bool, true, false, List, [], ◌∷◌, ◌++◌, some, map, ◌==◌, All, All-append,
  is_empty, arith, Bool-cases, inl, inr, append_assoc,
}
use execkit.Text.Chars.{Text, codes, is_whitespace}
use execkit.Text.Split.{lines, split, end_lines, strip_cr, split_whitespace}
use execkit.Text.Split.Laws.{none_of, split-append, split_whole}
use execkit.Text.Utf8.RoundTrip.{IsScalar}
use execkit.Transport.KnownHosts.{two_words}

-- A file of lines that are all ended.
abbrev pub ended : List Text → Text
ended [] = []
ended (w ∷ ws) = w ++ b'\n' ∷ ended ws

abbrev pub IsOneLine : Text → Type 0
IsOneLine w = (none_of (λ c. c == b'\n') w ≡ true) × All IsScalar w

abbrev pub IsWord : Text → Type 0
IsWord w = (is_empty w ≡ false) × (none_of is_whitespace w ≡ true) × All IsScalar w

pub split-ended :
    (ws : List Text) → All IsOneLine ws → split (λ c. c == b'\n') (ended ws) ≡ ws ++ [] ∷ []
unfolding split
split-ended [] h = refl
split-ended (w ∷ ws) h = rw (
  split-append (λ c. c == b'\n') b'\n' w (ended ws) refl,
  split_whole (λ c. c == b'\n') w h.0.0,
  split-ended ws h.1,
)

pub end_lines-ended : (ws : List Text) → end_lines (ws ++ [] ∷ []) ≡ map strip_cr ws
unfolding end_lines
end_lines-ended [] = refl
end_lines-ended (w ∷ []) = refl
end_lines-ended (w ∷ v ∷ ws) = ap (◌∷◌ (strip_cr w)) (end_lines-ended (v ∷ ws))

pub lines-ended : (ws : List Text) → All IsOneLine ws → lines (ended ws) ≡ map strip_cr ws
unfolding lines
lines-ended ws h = rw (split-ended ws h) (end_lines-ended ws)

pub ended-append :
    (ws : List Text) (v : Text) → ended (ws ++ v ∷ []) ≡ ended ws ++ (v ++ codes "\n")
ended-append [] v = refl
ended-append (w ∷ ws) v =
    rw (ended-append ws v) (sym (append_assoc w (b'\n' ∷ ended ws) (v ++ codes "\n")))

pub ended-IsScalar : (ws : List Text) → All IsOneLine ws → All IsScalar (ended ws)
ended-IsScalar [] h = tt
ended-IsScalar (w ∷ ws) h =
    All-append IsScalar w (b'\n' ∷ ended ws) h.0.1 ((omega arith, refl), ended-IsScalar ws h.1)

-- What a line without blanks but one between two words is read as.
pub no_char :
    (k : ℕ) (w : Text)
    → is_whitespace k ≡ true
    → none_of is_whitespace w ≡ true
    → none_of (λ c. c == k) w ≡ true
no_char k [] b h = refl
no_char k (c ∷ cs) b h =
    let hc : is_whitespace c ≡ false = ground arith in
    let hs : none_of is_whitespace cs ≡ true = ground arith in
    let ne : (c == k) ≡ false = elim (Bool-cases (c == k)) [
      | inr n ↦ n
      | inl e ↦
          let same : c ≡ k = ground arith in
          let bad : is_whitespace k ≡ false = rw same at hc in absurd (cc)
    ] in
    rw (ne, no_char k cs b hs) refl

pub none_of-append :
    (p : ℕ → Bool) (xs ys : Text)
    → none_of p xs ≡ true
    → none_of p ys ≡ true
    → none_of p (xs ++ ys) ≡ true
none_of-append p [] ys h k = k
none_of-append p (x ∷ xs) ys h k = ground (arith, none_of-append p xs ys)

pub strip_cr_none : (w : Text) → none_of (λ c. c == b'\r') w ≡ true → strip_cr w ≡ w
unfolding strip_cr
strip_cr_none [] h = refl
strip_cr_none (c ∷ []) h = let e : (c == b'\r') ≡ false = ground arith in rw e
strip_cr_none (c ∷ d ∷ cs) h =
    let hs : none_of (λ c. c == b'\r') (d ∷ cs) ≡ true = ground arith in
    rw (strip_cr_none (d ∷ cs) hs)

pub blanks :
    (is_whitespace b'\n' ≡ true) × (is_whitespace b'\r' ≡ true) × (is_whitespace b' ' ≡ true)
unfolding is_whitespace
blanks = (refl, refl, refl)

module _ (key fp : Text) (k : IsWord key) (f : IsWord fp) where
  abbrev pub line_of : Text
  line_of = key ++ b' ' ∷ fp

  pub line-lacks :
      (c : ℕ) → is_whitespace c ≡ true → (b' ' == c) ≡ false → none_of (λ d. d == c) line_of ≡ true
  line-lacks c w n =
      none_of-append (λ d. d == c) key (b' ' ∷ fp) (no_char c key w k.1)
        (rw (n, no_char c fp w f.1) refl)

  pub line-IsOneLine : IsOneLine line_of
  line-IsOneLine = (
    line-lacks b'\n' blanks.0 refl,
    All-append IsScalar key (b' ' ∷ fp) k.2 ((omega arith, refl), f.2),
  )

  pub words-line : two_words (split_whitespace line_of) ≡ some (key, fp)
  unfolding split_whitespace
  words-line =
      rw
        (
          split-append is_whitespace b' ' key fp blanks.2,
          split_whole is_whitespace key k.1,
          split_whole is_whitespace fp f.1,
          k.0,
          f.0,
        )
        refl
