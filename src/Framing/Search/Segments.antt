-- ===== src/Framing/Search/Segments.antt =====
-- Where a needle can stand in a text that is made of segments: not across a byte that the needle
-- does not hold, and not in a segment that lacks a part of it.
use execkit.Base.{
  ℕ, suc, ◌+◌, ◌-◌, ◌≤◌, ◌<◌, ◌≡◌, refl, true, false, not, [], ◌∷◌, ◌++◌, some, arith, ◌==◌, length,
  drop, all, Bool-cases, inl, inr, length-append, length-drop, drop-append_le, drop-append_ge,
  drop-drop, append_assoc, drop-append_self,
}
use native.Mathlib.Decide.{dec_lt}
use execkit.Text.Chars.{Bytes, starts_with}
use execkit.Framing.Search.{find, rfind}
use execkit.Framing.Search.Windows.{
  At, find_of_first, rfind_of_last, length-starts_with, not-At_short,
}

-- The byte `c` does not occur in `w`.
abbrev pub Free : ℕ → Bytes → Type 0
Free c w = all (λ d. not (d == c)) w ≡ true

-- `w` stands nowhere in `xs`.
abbrev pub Clear : Bytes → Bytes → Type 0
Clear w xs = (j : ℕ) → At w xs j false

pub starts_with-append : (w xs : Bytes) → starts_with w (w ++ xs) ≡ true
unfolding starts_with
starts_with-append [] xs = refl
starts_with-append (c ∷ w) xs = ground (arith, starts_with-append w xs)

pub starts_with-sep :
    (w xs : Bytes) (c : ℕ) (ys : Bytes)
    → Free c w
    → starts_with w (xs ++ c ∷ ys) ≡ true
    → starts_with w xs ≡ true
unfolding starts_with
starts_with-sep [] xs c ys f h = refl
starts_with-sep (d ∷ w) [] c ys f h = ground arith
starts_with-sep (d ∷ w) (x ∷ xs) c ys f h = ground (arith, starts_with-sep w xs c ys)

pub starts_with-part :
    (p t q hay : Bytes)
    → starts_with (p ++ (t ++ q)) hay ≡ true
    → starts_with t (drop (length p) hay) ≡ true
unfolding starts_with
starts_with-part [] [] q hay h = refl
starts_with-part [] (c ∷ t) q [] h = cc
starts_with-part [] (c ∷ t) q (b ∷ hay) h = ground (arith, starts_with-part [] t q hay)
starts_with-part (c ∷ p) t q [] h = cc
starts_with-part (c ∷ p) t q (b ∷ hay) h = starts_with-part p t q hay (ground arith)

-- A refuted position.
not-At : (w hay : Bytes) (j : ℕ) → (At w hay j true → ⊥) → At w hay j false
not-At w hay j h = elim (Bool-cases (starts_with w (drop j hay))) [
  | inl e ↦ absurd (h e)
  | inr e ↦ e
]

pub Clear-part : (p t q xs : Bytes) → Clear t xs → Clear (p ++ (t ++ q)) xs
Clear-part p t q xs h j = not-At _ xs j λ e.
    let hit : starts_with t (drop (length p) (drop j xs)) ≡ true =
      starts_with-part p t q (drop j xs) e in
    cc (h (j + length p), rw (drop-drop (length p) j xs) at hit)

pub Clear-short : (w xs : Bytes) → length xs < length w → Clear w xs
Clear-short w xs h j = not-At_short w xs j h

module _ (w : Bytes) (c : ℕ) (free : Free c w) where
  At-left : (xs ys : Bytes) (j : ℕ) → j ≤ length xs → At w xs j false → At w (xs ++ c ∷ ys) j false
  At-left xs ys j h miss = not-At w (xs ++ c ∷ ys) j λ e.
      cc (miss, starts_with-sep w (drop j xs) c ys free (rw (drop-append_le j xs (c ∷ ys) h) at e))

  at_right :
      (xs ys : Bytes) (j : ℕ)
      → length xs < j
      → drop j (xs ++ c ∷ ys) ≡ drop (j - suc (length xs)) ys
  at_right xs ys j h =
      let e : j - length xs ≡ suc (j - suc (length xs)) = omega arith in
      rw (drop-append_ge j xs (c ∷ ys) (omega arith), e) refl

  pub Clear-sep : (xs ys : Bytes) → Clear w xs → Clear w ys → Clear w (xs ++ c ∷ ys)
  Clear-sep xs ys hx hy j = elim (dec_lt (length xs) j) [
    | yes h ↦ rw (at_right xs ys j h) (hy (j - suc (length xs)))
    | no h ↦ At-left xs ys j (omega arith) (hx j)
  ]

  -- The needle itself, once more only at its own place.
  pub Clear-after_self :
      (ys : Bytes) (j : ℕ) → 0 < j → 0 < length w → Clear w ys → At w (w ++ c ∷ ys) j false
  Clear-after_self ys j pos ne hy = elim (dec_lt (length w) j) [
    | yes h ↦ rw (at_right w ys j h) (hy (j - suc (length w)))
    | no h ↦
        At-left w ys j (omega arith)
          (not-At w w j λ e. omega (arith, length-starts_with w (drop j w) e, length-drop j w))
  ]

  -- No position in `xs`, nor the separator's, whatever follows.
  pub skip_sep :
      (xs ys : Bytes) → Clear w xs → (j : ℕ) → j < suc (length xs) → At w (xs ++ c ∷ ys) j false
  skip_sep xs ys hx j h = At-left xs ys j (omega arith) (hx j)

-- The needle stands at no position of `xs` in `xs ++ ys`.
abbrev pub Skips : Bytes → Bytes → Bytes → Type 0
Skips w xs ys = (j : ℕ) → j < length xs → At w (xs ++ ys) j false

pub Skips-append :
    (w xs ys zs : Bytes) → Skips w xs (ys ++ zs) → Skips w ys zs → Skips w (xs ++ ys) zs
Skips-append w xs ys zs hx hy j h = elim (dec_lt j (length xs)) [
  | yes k ↦ rw (append_assoc xs ys zs) (hx j k)
  | no k ↦
      rw (append_assoc xs ys zs, drop-append_ge j xs (ys ++ zs) (omega arith))
        (hy (j - length xs) (omega (arith, length-append xs ys)))
]

pub find_behind :
    (x : ℕ) (w xs ys : Bytes)
    → Skips (x ∷ w) xs ys
    → starts_with (x ∷ w) ys ≡ true
    → find (xs ++ ys) (x ∷ w) ≡ some (length xs)
find_behind x w xs ys s h =
    find_of_first x w (xs ++ ys) (some (length xs)) (rw (drop-append_self xs ys) h, s)

pub rfind_behind :
    (x : ℕ) (w xs ys : Bytes)
    → starts_with (x ∷ w) ys ≡ true
    → ((j : ℕ) → 0 < j → At (x ∷ w) ys j false)
    → rfind (xs ++ ys) (x ∷ w) ≡ some (length xs)
rfind_behind x w xs ys h later = rfind_of_last x w (xs ++ ys) (some (length xs)) (
  rw (drop-append_self xs ys) h,
  λ j lt. rw (drop-append_ge j xs ys (omega arith)) (later (j - length xs) (omega arith)),
)

module _ (w : Bytes) (c : ℕ) (free : Free c w) where
  pub Skips-sep : (xs ys zs : Bytes) → Clear w xs → Skips w ys zs → Skips w (xs ++ c ∷ ys) zs
  Skips-sep xs ys zs hx hy j h = elim (dec_lt (length xs) j) [
    | yes k ↦
        rw (append_assoc xs (c ∷ ys) zs, at_right w c free xs (ys ++ zs) j k)
          (hy (j - suc (length xs)) (omega (arith, length-append xs (c ∷ ys))))
    | no k ↦
        rw (append_assoc xs (c ∷ ys) zs) (At-left w c free xs (ys ++ zs) j (omega arith) (hx j))
  ]

pub Free-append : (c : ℕ) (xs ys : Bytes) → Free c xs → Free c ys → Free c (xs ++ ys)
Free-append c [] ys hx hy = hy
Free-append c (x ∷ xs) ys hx hy = ground (arith, Free-append c xs ys)
