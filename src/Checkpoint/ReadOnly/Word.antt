-- ===== src/Checkpoint/ReadOnly/Word.antt =====
-- The program of a part: its first word, without the folders in front of it.
use execkit.Base.{
  ℕ, sym, ◌∙◌, Bool, true, false, not, ◌&&◌, ◌||◌, ◌≡◌, refl, ap, ◌==◌, List, [], ◌∷◌, ◌++◌,
  append-nil, append_assoc, Bool-cases, inl, inr, arith, if◌then◌else◌, any, filter, is_empty,
}
use execkit.Text.Chars.{Text, is_whitespace, mem_text}
use execkit.Text.Split.{
  split, split_whitespace, trim, trim_matches, trim_start_matches, trim_end_matches, after_last,
  push_front,
}
use execkit.Checkpoint.ReadOnly.{read_only, first_or_empty, is_read_only_segment}

-- Up to the first blank.
abbrev pub word : Text → Text
word [] = []
word (c ∷ cs) = let rest = word cs in if is_whitespace c then [] else c ∷ rest

-- The first word, after the blanks in front of it.
abbrev pub first_word : Text → Text
first_word [] = []
first_word (c ∷ cs) = let rest = first_word cs in if is_whitespace c then rest else c ∷ word cs

-- What was read since the last slash.
abbrev pub base_name : Text → Text → Text
base_name read [] = read
base_name read (c ∷ cs) = if c == b'/' then base_name [] cs else base_name (read ++ (c ∷ [])) cs

-- A blank part runs nothing; another one runs the program its first word names.
abbrev pub reads : Text → Bool
reads part = is_empty (first_word part) || mem_text (base_name [] (first_word part)) read_only

keeps :
    (c : ℕ) (rest : Text)
    → is_whitespace c ≡ false
    → (if is_empty rest && is_whitespace c then [] else c ∷ rest) ≡ c ∷ rest
keeps c [] e = rw e
keeps c (d ∷ rest) e = refl

trim_end-cons :
    (c : ℕ) (cs : Text)
    → is_whitespace c ≡ false
    → trim_end_matches is_whitespace (c ∷ cs) ≡ c ∷ trim_end_matches is_whitespace cs
unfolding trim_end_matches
trim_end-cons c cs e = keeps c (trim_end_matches is_whitespace cs) e

blank_end :
    (c : ℕ) (rest : Text)
    → is_whitespace c ≡ true
    → word (if is_empty rest && is_whitespace c then [] else c ∷ rest) ≡ []
blank_end c [] e = rw e
blank_end c (d ∷ rest) e = rw e

word-trim_blank :
    (c : ℕ) (cs : Text)
    → is_whitespace c ≡ true
    → word (trim_end_matches is_whitespace (c ∷ cs)) ≡ []
unfolding trim_end_matches
word-trim_blank c cs e = blank_end c (trim_end_matches is_whitespace cs) e

word-trim_end : (cs : Text) → word (trim_end_matches is_whitespace cs) ≡ word cs
unfolding trim_end_matches
word-trim_end [] = refl
word-trim_end (c ∷ cs) = elim (Bool-cases (is_whitespace c)) [
  | inl e ↦ word-trim_blank c cs e ∙ sym (rw e refl)
  | inr e ↦ rw (trim_end-cons c cs e) (rw (e, word-trim_end cs))
]

first-push :
    (c : ℕ) (ws : List Text)
    → first_or_empty (filter (λ w. not (is_empty w)) (push_front c ws)) ≡ c ∷ first_or_empty ws
first-push c [] = refl
first-push c (w ∷ ws) = refl

first-split : (cs : Text) → first_or_empty (split is_whitespace cs) ≡ word cs
unfolding split
first-split [] = refl
first-split (c ∷ cs) = elim (Bool-cases (is_whitespace c)) [
  | inl e ↦ rw e
  | inr e ↦ rw e (grown (split is_whitespace cs) (first-split cs))
]
  where
    grown :
        (ws : List Text)
        → first_or_empty ws ≡ word cs
        → first_or_empty (push_front c ws) ≡ c ∷ word cs
    grown [] h = ap (◌∷◌ c) h
    grown (w ∷ ws) h = ap (◌∷◌ c) h

first_word-begun :
    (c : ℕ) (cs : Text)
    → is_whitespace c ≡ false
    → first_or_empty (split_whitespace (trim_end_matches is_whitespace (c ∷ cs))) ≡ c ∷ word cs
unfolding split_whitespace split
first_word-begun c cs e = rw (trim_end-cons c cs e) (
    rw e (
      first-push c (split is_whitespace (trim_end_matches is_whitespace cs))
      ∙ ap (◌∷◌ c) (first-split (trim_end_matches is_whitespace cs) ∙ word-trim_end cs)))

abbrev trimmed : Text → Text
trimmed cs = trim_end_matches is_whitespace (trim_start_matches is_whitespace cs)

none_first : first_or_empty (split_whitespace []) ≡ []
unfolding split_whitespace split
none_first = refl

first_word-trimmed :
    (cs : Text)
    → (first_or_empty (split_whitespace (trimmed cs)) ≡ first_word cs)
      × (is_empty (trimmed cs) ≡ is_empty (first_word cs))
unfolding trim_start_matches trim_end_matches
first_word-trimmed [] = (none_first, refl)
first_word-trimmed (c ∷ cs) = elim (Bool-cases (is_whitespace c)) [
  | inl e ↦ rw e (first_word-trimmed cs)
  | inr e ↦ rw e (first_word-begun c cs e, rw (trim_end-cons c cs e))
]

first_word-trim :
    (cs : Text)
    → (first_or_empty (split_whitespace (trim cs)) ≡ first_word cs)
      × (is_empty (trim cs) ≡ is_empty (first_word cs))
unfolding trim trim_matches
first_word-trim cs = first_word-trimmed cs

base_name-none : (read cs : Text) → any (λ d. d == b'/') cs ≡ false → base_name read cs ≡ read ++ cs
base_name-none read [] h = sym (append-nil read)
base_name-none read (c ∷ cs) h =
    let hc : (c == b'/') ≡ false = ground arith in
    let hs : any (λ d. d == b'/') cs ≡ false = ground arith in
    rw hc (base_name-none (read ++ (c ∷ [])) cs hs ∙ append_assoc read (c ∷ []) cs)

after_last-none : (cs : Text) → any (λ d. d == b'/') cs ≡ false → after_last b'/' cs ≡ cs
unfolding after_last
after_last-none [] h = refl
after_last-none (c ∷ cs) h = rw h

base_name-after :
    (read cs : Text) → any (λ d. d == b'/') cs ≡ true → base_name read cs ≡ after_last b'/' cs
unfolding after_last
base_name-after read [] h = absurd cc
base_name-after read (c ∷ cs) h = elim (Bool-cases (any (λ d. d == b'/') cs)) [
  | inl e ↦ elim (Bool-cases (c == b'/')) [
    | inl k ↦ rw k (base_name-after [] cs e)
    | inr k ↦ rw (k, e) (base_name-after (read ++ (c ∷ [])) cs e)
  ]
  | inr e ↦
      let hc : (c == b'/') ≡ true = ground arith in
      rw hc (base_name-none [] cs e ∙ sym (after_last-none cs e))
]

base_name_lem : (cs : Text) → base_name [] cs ≡ after_last b'/' cs
base_name_lem cs = elim (Bool-cases (any (λ d. d == b'/') cs)) [
  | inl e ↦ base_name-after [] cs e
  | inr e ↦ base_name-none [] cs e ∙ sym (after_last-none cs e)
]

pub is_read_only_segment_lem : (seg : Text) → is_read_only_segment seg ≡ reads seg
is_read_only_segment_lem seg =
    rw (first_word-trim seg).0 (rw (first_word-trim seg).1 (rw (base_name_lem (first_word seg))))
