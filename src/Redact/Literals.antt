-- ===== src/Redact/Literals.antt =====
-- What `Redactor::redact` (crates/execkit/src/redact.rs) takes out.
use execkit.Base.{
  ℕ, zero, suc, ◌-◌, ◌<◌, ◌≡◌, refl, true, false, List, [], ◌∷◌, ◌++◌, length, All, ◌==◌, ltb,
  Bool-cases, inl, inr, arith, subst, &&-true,
}
use execkit.Text.Chars.{Text, codes, starts_with, mem_text, eq_text, eq_text_iff}
use execkit.Text.Utf8.{as_bytes}
use execkit.Framing.Search.Segments.{Free, Clear, Clear-sep, Clear-short}
use execkit.Redact.{mark, replace_from, insert_longest, sort_longest, redact_each, redact}

-- A literal that the mark cannot bring back: not empty, without the mark's brackets, and no part of the
-- mark's word.
pub record IsPlain (l : Text) : Type 0 where
  pub not_empty : 0 ≡ length l → ⊥
  pub no_open : Free b'[' l
  pub no_close : Free b']' l
  pub not_in_mark : Clear l (codes "[REDACTED")

starts_empty : (hay : Text) → starts_with [] hay ≡ true
unfolding starts_with
starts_empty hay = refl

starts_with-cons :
    (x c : ℕ) (w hay : Text)
    → starts_with (x ∷ w) (c ∷ hay) ≡ true
    → ((x == c) ≡ true) × (starts_with w hay ≡ true)
unfolding starts_with
starts_with-cons x c w hay h = &&-true (x == c) (starts_with w hay) h

starts_with-both :
    (x c : ℕ) (w hay : Text)
    → (x == c) ≡ true
    → starts_with w hay ≡ true
    → starts_with (x ∷ w) (c ∷ hay) ≡ true
unfolding starts_with
starts_with-both x c w hay e h = rw (e, h) refl

Free-rest : (x : ℕ) (w : Text) → Free b'[' (x ∷ w) → Free b'[' w
Free-rest x w h = ground arith

-- Where a mark begins, no text without its bracket does.
opens : (x : ℕ) (w rest : Text) → Free b'[' (x ∷ w) → starts_with (x ∷ w) (mark ++ rest) ≡ true → ⊥
unfolding starts_with
opens x w rest free h = ground arith

-- What a replaced text begins with, without a mark, the text began with.
copied :
    (lit w hay : Text)
    → Free b'[' w
    → starts_with w (replace_from lit zero hay) ≡ true
    → starts_with w hay ≡ true
unfolding replace_from
copied lit [] hay free h = starts_empty hay
copied lit (x ∷ w) [] free h = h
copied lit (x ∷ w) (c ∷ hay) free h = elim (Bool-cases (starts_with lit (c ∷ hay))) [
  | inl e ↦ absurd (opens x w _ free (rw e at h))
  | inr e ↦
      let t = starts_with-cons x c w (replace_from lit zero hay) (rw e at h) in
      starts_with-both x c w hay t.0 (copied lit w hay (Free-rest x w free) t.1)
]

starts_not : (l text : Text) → (starts_with l text ≡ true → ⊥) → starts_with l text ≡ false
starts_not l text h = elim (Bool-cases (starts_with l text)) [ inl e ↦ absurd (h e) | inr e ↦ e ]

Clear-cons :
    (l : Text) (c : ℕ) (ys : Text) → starts_with l (c ∷ ys) ≡ false → Clear l ys → Clear l (c ∷ ys)
Clear-cons l c ys h clear zero = h
Clear-cons l c ys h clear (suc j) = clear j

-- A kept character begins no literal that it did not begin before.
first_kept :
    (lit l : Text) (c : ℕ) (cs : Text)
    → starts_with lit (c ∷ cs) ≡ false
    → IsPlain l
    → starts_with l (c ∷ cs) ≡ false
    → starts_with l (c ∷ replace_from lit zero cs) ≡ false
unfolding replace_from
first_kept lit l c cs e plain miss = starts_not l (c ∷ replace_from lit zero cs) λ s.
    let hit : starts_with l (replace_from lit zero (c ∷ cs)) ≡ true = rw e s in
    cc (copied lit l (c ∷ cs) plain.no_open hit, miss)

longer : (l : Text) → (0 ≡ length l → ⊥) → 0 < length l
longer [] h = absurd (h refl)
longer (c ∷ cs) h = omega arith

-- Taking one literal out brings no other back.
replace_from-Clear :
    (lit l : Text) (skip : ℕ) (hay : Text)
    → IsPlain l
    → Clear l hay
    → Clear l (replace_from lit skip hay)
unfolding replace_from
replace_from-Clear lit l skip [] plain clear = clear
replace_from-Clear lit l (suc skip) (c ∷ cs) plain clear =
    replace_from-Clear lit l skip cs plain (λ j. clear (suc j))
replace_from-Clear lit l zero (c ∷ cs) plain clear = elim (Bool-cases (starts_with lit (c ∷ cs))) [
  | inl e ↦
      let rest = replace_from-Clear lit l (length lit - 1) cs plain (λ j. clear (suc j)) in
      rw e (Clear-sep l b']' plain.no_close (codes "[REDACTED") _ plain.not_in_mark rest)
  | inr e ↦
      let rest = replace_from-Clear lit l zero cs plain (λ j. clear (suc j)) in
      rw e
        (Clear-cons l c (replace_from lit zero cs) (first_kept lit l c cs e plain (clear 0)) rest)
]

-- Nothing of the literal itself is left.
replaced-Clear :
    (lit : Text) (skip : ℕ) (hay : Text) → IsPlain lit → Clear lit (replace_from lit skip hay)
unfolding replace_from
replaced-Clear lit skip [] plain = Clear-short lit [] (longer lit plain.not_empty)
replaced-Clear lit (suc skip) (c ∷ cs) plain = replaced-Clear lit skip cs plain
replaced-Clear lit zero (c ∷ cs) plain = elim (Bool-cases (starts_with lit (c ∷ cs))) [
  | inl e ↦ rw e (
      Clear-sep lit b']' plain.no_close (codes "[REDACTED") _ plain.not_in_mark
        (replaced-Clear lit (length lit - 1) cs plain))
  | inr e ↦ rw e (
      Clear-cons lit c (replace_from lit zero cs) (first_kept lit lit c cs e plain e)
        (replaced-Clear lit zero cs plain))
]

each_keeps :
    (ls : List Text) (l text : Text) → IsPlain l → Clear l text → Clear l (redact_each ls text)
unfolding redact_each
each_keeps [] l text plain clear = clear
each_keeps (k ∷ ks) l text plain clear =
    each_keeps ks l (replace_from k zero text) plain (replace_from-Clear k l zero text plain clear)

-- The text holds no plain literal of the list.
abbrev IsRedacted : List Text → Text → Type 0
IsRedacted ls text = All (λ l. IsPlain l → Clear l text) ls

each-IsRedacted : (ls : List Text) (text : Text) → IsRedacted ls (redact_each ls text)
unfolding redact_each
each-IsRedacted [] text = tt
each-IsRedacted (l ∷ ls) text = (
  λ plain. each_keeps ls l (replace_from l zero text) plain (replaced-Clear l zero text plain),
  each-IsRedacted ls (replace_from l zero text),
)

-- What holds of all the literals sorted holds of all of them.
All-insert :
    (P : Text → Type 0) (l : Text) (ls : List Text) → All P (insert_longest l ls) → P l × All P ls
unfolding insert_longest
All-insert P l [] h = h
All-insert P l (k ∷ ks) h = elim (Bool-cases (ltb (length (as_bytes l)) (length (as_bytes k)))) [
  | inl e ↦ let h' = rw e at h in let t = All-insert P l ks h'.1 in (t.0, (h'.0, t.1))
  | inr e ↦ rw e at h
]

All-sort : (P : Text → Type 0) (ls : List Text) → All P (sort_longest ls) → All P ls
unfolding sort_longest
All-sort P [] h = h
All-sort P (l ∷ ls) h = let t = All-insert P l (sort_longest ls) h in (t.0, All-sort P ls t.1)

All-mem : (P : Text → Type 0) (l : Text) (ls : List Text) → All P ls → mem_text l ls ≡ true → P l
unfolding mem_text
All-mem P l [] h m = cc
All-mem P l (k ∷ ks) h m = elim (Bool-cases (eq_text k l)) [
  | inl e ↦ subst P ((eq_text_iff k l).0 e) h.0
  | inr e ↦ All-mem P l ks h.1 (rw e at m)
]

-- Whatever the fixed patterns do to the text: after redaction it holds no learned literal that is not
-- empty, has no square bracket and is no part of the mark's own word. Taking one literal out neither
-- leaves a part that reads as another nor brings one back.
pub redact-Clear :
    (shapes : Text → Text) (literals : List Text) (text l : Text)
    → mem_text l literals ≡ true
    → IsPlain l
    → Clear l (redact shapes literals text)
unfolding redact
redact-Clear shapes literals text l learned plain =
    let P : Text → Type 0 =
      λ l. IsPlain l → Clear l (redact_each (sort_longest literals) (shapes text)) in
    All-mem P l literals
      (All-sort P literals (each-IsRedacted (sort_longest literals) (shapes text))) learned plain
