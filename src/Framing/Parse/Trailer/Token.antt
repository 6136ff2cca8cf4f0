-- ===== src/Framing/Parse/Trailer/Token.antt =====
-- The markers of a token (`new_token`, `Markers`), and where they can stand in a printed stream.
use native.Mathlib.Decide.{dec_lt}
use execkit.Base.{
  ℕ, suc, ◌+◌, ◌-◌, ◌<◌, ◌≡◌, refl, ap, true, false, [], ◌∷◌, ◌++◌, arith, ◌==◌, length, drop, all,
  length-drop, drop-append_le, drop-append_ge, drop-drop, Bool-cases, inl, inr,
}
use execkit.Text.Chars.{Text, Bytes, codes, is_ascii_hexdigit, starts_with}
use execkit.Framing.Search.Windows.{length-starts_with}
use execkit.Framing.Search.Segments.{
  Free, Clear, Skips, Free-append, Clear-part, starts_with-sep, starts_with-part,
}
use execkit.Framing.Markers.{Markers, us, new_markers}
use execkit.Framing.Parse.{separators, strip_newline}

-- What `new_token` makes: 32 hex digits.
abbrev pub IsToken : Text → Type 0
IsToken t = (length t ≡ 32) × (all is_ascii_hexdigit t ≡ true)

-- From the newline before the start marker to the end of the command's stderr.
abbrev pub printed : Markers → Bytes → Bytes → Bytes → Bytes
printed m code cwd err = b'\n' ∷ (m.start ++ (us ∷ (code ++ (us ∷ (cwd ++ (us ∷ err))))))

hex-Free :
    (c : ℕ) (t : Bytes) → is_ascii_hexdigit c ≡ false → all is_ascii_hexdigit t ≡ true → Free c t
hex-Free c [] h k = refl
hex-Free c (x ∷ t) h k = ground (arith, hex-Free c t h)

pub separators_at :
    (i : ℕ) (xs ys : Bytes)
    → Free us xs
    → separators i (xs ++ us ∷ ys) ≡ (i + length xs) ∷ separators (i + length xs + 1) ys
unfolding separators
separators_at i [] ys h = let e : i + 0 ≡ i = omega arith in rw e
separators_at i (x ∷ xs) ys h =
    let e : i + suc (length xs) ≡ i + 1 + length xs = omega arith in
    let rest : Free us xs = ground arith in
    let miss : (x == us) ≡ false = ground arith in rw (e, miss) (separators_at (i + 1) xs ys rest)

pub strip_newline-concat : (xs : Bytes) → strip_newline (xs ++ b'\n' ∷ []) ≡ xs
unfolding strip_newline
strip_newline-concat [] = refl
strip_newline-concat (x ∷ []) = refl
strip_newline-concat (x ∷ y ∷ xs) = ap (◌∷◌ x) (strip_newline-concat (y ∷ xs))

module _ (token : Text) (tok : IsToken token) where
  abbrev m : Markers
  m = new_markers token

  pub Free-start :
      (c : ℕ)
      → is_ascii_hexdigit c ≡ false
      → Free c (codes "__EXECKIT_")
      → Free c (codes "__")
      → Free c m.start
  unfolding new_markers
  Free-start c h p q =
      Free-append c (codes "__EXECKIT_") _ p (Free-append c token _ (hex-Free c token h tok.1) q)

  pub Free-end :
      (c : ℕ)
      → is_ascii_hexdigit c ≡ false
      → Free c (codes "__EXECKITEND_")
      → Free c (codes "__")
      → Free c m.end
  unfolding new_markers
  Free-end c h p q =
      Free-append c (codes "__EXECKITEND_") _ p (Free-append c token _ (hex-Free c token h tok.1) q)

  pub Clear-start : (xs : Bytes) → Clear token xs → Clear m.start xs
  unfolding new_markers
  Clear-start xs h = Clear-part (codes "__EXECKIT_") token (codes "__") xs h

  pub Clear-end : (xs : Bytes) → Clear token xs → Clear m.end xs
  unfolding new_markers
  Clear-end xs h = Clear-part (codes "__EXECKITEND_") token (codes "__") xs h

  -- What lies before the token in an end marker, less its last byte.
  abbrev head : Bytes
  head = codes "__EXECKITEND"

  abbrev behind : Bytes → Bytes
  behind tail = (token ++ codes "__") ++ tail

  -- The token starts neither in `xs` nor in what is left of an end marker's own head behind it.
  no_token :
      (xs tail : Bytes) (k : ℕ)
      → Clear token xs
      → starts_with token (drop k (xs ++ (head ++ (b'_' ∷ tail)))) ≡ true
      → length xs + 12 < k
  no_token xs tail k clear h = elim (dec_lt (length xs + 12) k) [
    | yes far ↦ far
    | no near ↦ elim (dec_lt (length xs) k) [
      | yes inside ↦
          let j = k - length xs in
          let e = starts_with-sep token (drop j head) b'_' tail (hex-Free b'_' token refl tok.1) (
            rw
              (
                drop-append_ge k xs (head ++ (b'_' ∷ tail)) (omega arith),
                drop-append_le j head (b'_' ∷ tail) (omega arith),
              )
              at h) in
          absurd
            (omega (arith, length-starts_with token (drop j head) e, length-drop j head, tok.0))
      | no before ↦ cc (
        clear k,
        starts_with-sep token (drop k xs) b'_' (codes "_EXECKITEND" ++ (b'_' ∷ tail))
            (hex-Free b'_' token refl tok.1)
            (rw (drop-append_le k xs (head ++ (b'_' ∷ tail)) (omega arith)) at h),
      )
    ]
  ]

  -- The end marker starts nowhere in a stderr without the token, though it follows at once.
  pub overlap : (err rest : Bytes) → Clear token err → Skips m.end err (m.end ++ rest)
  unfolding new_markers
  overlap err rest clear j h =
      elim (Bool-cases (starts_with m.end (drop j (err ++ (m.end ++ rest))))) [
        | inr e ↦ e
        | inl e ↦
            let hit = starts_with-part (codes "__EXECKITEND_") token (codes "__") _ e in
            absurd (
              omega (
                arith,
                no_token err (behind rest) (j + 13) clear
                    (rw (drop-drop 13 j (err ++ (m.end ++ rest))) at hit),
              ))
      ]
