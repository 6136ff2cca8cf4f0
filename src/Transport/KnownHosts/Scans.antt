-- ===== src/Transport/KnownHosts/Scans.antt =====
-- Scans of a known_hosts file (crates/execkit/src/transport/ssh.rs) for several keys and fingerprints.
use execkit.Base.{
  ◌≡◌, refl, ap, fun_ext, Bool, true, false, List, [], ◌∷◌, ◌++◌, Option, none, some, Bool-cases,
  inl, inr,
}
use execkit.Text.Chars.{Text, codes, starts_with, eq_text, eq_text_iff, eq_text_self}
use execkit.Text.Split.{split_whitespace}
use execkit.Transport.KnownHosts.{Scan, known, unseen, two_words, on_words, scan}

abbrev pub Scanner : Type 0
Scanner = Bool → Scan

-- One line, given what the later lines do.
pub words-known :
    (key fp fp' : Text) (o : Option (Text × Text)) (rest rest' : Scanner) (foreign : Bool)
    → ((f : Bool) → rest f ≡ known true → rest' f ≡ known (eq_text fp fp'))
    → on_words key fp o rest foreign ≡ known true
    → on_words key fp' o rest' foreign ≡ known (eq_text fp fp')
words-known key fp fp' none rest rest' foreign ih h = ih foreign h
words-known key fp fp' (some (k, f)) rest rest' foreign ih h =
    elim (Bool-cases (starts_with (codes "SHA256:") f)) [
      | inr s ↦ rw s (ih true (rw s at h))
      | inl s ↦ elim (Bool-cases (eq_text k key)) [
        | inr n ↦ rw (s, n) (ih foreign (rw (s, n) at h))
        | inl e ↦
            let g : known (eq_text f fp) ≡ known true = rw (s, e) at h in
            let same : f ≡ fp = (eq_text_iff f fp).0 (cc) in rw (s, e, same) refl
      ]
    ]

-- The fingerprint of the line that a scan stops at is the only one that it accepts.
pub scan-known :
    (key fp fp' : Text) (ls : List Text) (foreign : Bool)
    → scan key fp ls foreign ≡ known true
    → scan key fp' ls foreign ≡ known (eq_text fp fp')
unfolding scan
scan-known key fp fp' [] foreign h = cc
scan-known key fp fp' (l ∷ ls) foreign h =
    words-known key fp fp' (two_words (split_whitespace l)) (scan key fp ls) (scan key fp' ls)
      foreign (λ f. scan-known key fp fp' ls f) h

pub words-unseen :
    (key fp fp' : Text) (o : Option (Text × Text)) (rest rest' : Scanner) (foreign : Bool)
    → ((f : Bool) → rest f ≡ unseen false → rest' f ≡ known (eq_text fp fp'))
    → on_words key fp o rest foreign ≡ unseen false
    → on_words key fp' o rest' foreign ≡ known (eq_text fp fp')
words-unseen key fp fp' none rest rest' foreign ih h = ih foreign h
words-unseen key fp fp' (some (k, f)) rest rest' foreign ih h =
    elim (Bool-cases (starts_with (codes "SHA256:") f)) [
      | inr s ↦ rw s (ih true (rw s at h))
      | inl s ↦ elim (Bool-cases (eq_text k key)) [
        | inr n ↦ rw (s, n) (ih foreign (rw (s, n) at h))
        | inl e ↦ absurd (let g : known (eq_text f fp) ≡ unseen false = rw (s, e) at h in cc)
      ]
    ]

pub words-other :
    (key fp : Text) (o : Option (Text × Text)) (rest rest' : Scanner) (foreign : Bool)
    → ((f : Bool) → rest f ≡ rest' f)
    → on_words key fp o rest foreign ≡ on_words key fp o rest' foreign
words-other key fp o rest rest' foreign ih = ap (λ r. on_words key fp o r foreign) (fun_ext ih)

module _ (line key fp : Text) (is_pin : two_words (split_whitespace line) ≡ some (key, fp))
    (is_ours : starts_with (codes "SHA256:") fp ≡ true) where
  -- Behind the lines that do not know a key, its own line answers.
  pub scan-pinned :
      (fp' : Text) (ls : List Text) (foreign : Bool)
      → scan key fp ls foreign ≡ unseen false
      → scan key fp' (ls ++ line ∷ []) foreign ≡ known (eq_text fp fp')
  unfolding scan
  scan-pinned fp' [] foreign h = rw (is_pin, is_ours, eq_text_self key) refl
  scan-pinned fp' (l ∷ ls) foreign h =
      words-unseen key fp fp' (two_words (split_whitespace l)) (scan key fp ls)
        (scan key fp' (ls ++ line ∷ [])) foreign (λ f. scan-pinned fp' ls f) h

  -- It says nothing of another key.
  pub scan-other :
      (key' fp' : Text) (ls : List Text) (foreign : Bool)
      → eq_text key key' ≡ false
      → scan key' fp' (ls ++ line ∷ []) foreign ≡ scan key' fp' ls foreign
  unfolding scan
  scan-other key' fp' [] foreign n = rw (is_pin, is_ours, n) refl
  scan-other key' fp' (l ∷ ls) foreign n =
      words-other key' fp' (two_words (split_whitespace l)) (scan key' fp' (ls ++ line ∷ []))
        (scan key' fp' ls) foreign (λ f. scan-other key' fp' ls f n)
