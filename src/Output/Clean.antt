-- ===== src/Output/Clean.antt =====
-- What is left in a cleaned text, and that cleaning twice is cleaning once.
use execkit.Base.{
  ℕ, ◌≤◌, ◌⊎◌, ◌↔◌, subst, ◌≡◌, refl, ap, Bool, true, false, ◌&&◌, [], ◌∷◌, arith, ◌==◌, filter,
  is_empty, All, All-append, if◌then◌else◌, Bool-cases, inl, inr,
}
use execkit.Text.Chars.{Text, Bytes}
use execkit.Text.Split.{trim_matches, trim_start_matches, trim_end_matches}
use execkit.Text.Utf8.{as_bytes, encode_char}
use execkit.Text.Utf8.RoundTrip.{IsScalar, from_utf8_lossy-as_bytes}
use execkit.Output.{
  Scan, plain, escape, csi, osc, osc_escape, strip_bytes, strip_ansi, is_kept, clean,
}

abbrev NotEscape : ℕ → Type 0
NotEscape b = (b == 0x1b) ≡ false

-- No escape byte gets through the scan, from whatever state.
strip_bytes-NotEscape : (s : Scan) (bs : Bytes) → All NotEscape (strip_bytes s bs)
unfolding strip_bytes
strip_bytes-NotEscape plain [] = tt
strip_bytes-NotEscape escape [] = tt
strip_bytes-NotEscape csi [] = tt
strip_bytes-NotEscape osc [] = tt
strip_bytes-NotEscape osc_escape [] = tt
strip_bytes-NotEscape plain (b ∷ bs) =
    ground (arith, strip_bytes-NotEscape plain bs, strip_bytes-NotEscape escape bs)
strip_bytes-NotEscape escape (b ∷ bs) = strip_bytes-NotEscape _ bs
strip_bytes-NotEscape csi (b ∷ bs) = strip_bytes-NotEscape _ bs
strip_bytes-NotEscape osc (b ∷ bs) = strip_bytes-NotEscape _ bs
strip_bytes-NotEscape osc_escape (b ∷ bs) = strip_bytes-NotEscape _ bs

-- A text without escapes passes unchanged.
strip_bytes_id : (bs : Bytes) → All NotEscape bs → strip_bytes plain bs ≡ bs
unfolding strip_bytes
strip_bytes_id [] h = refl
strip_bytes_id (b ∷ bs) h = rw h.0 (ap (◌∷◌ b) (strip_bytes_id bs h.1))

abbrev pub first_is : (ℕ → Bool) → Text → Bool
first_is p [] = false
first_is p (c ∷ cs) = p c

abbrev pub last_is : (ℕ → Bool) → Text → Bool
last_is p [] = false
last_is p (c ∷ []) = p c
last_is p (c ∷ d ∷ cs) = last_is p (d ∷ cs)

module _ (p : ℕ → Bool) where
  first_is-trim_start : (cs : Text) → first_is p (trim_start_matches p cs) ≡ false
  unfolding trim_start_matches
  first_is-trim_start [] = refl
  first_is-trim_start (c ∷ cs) = elim (Bool-cases (p c)) [
    | inl e ↦ rw e (first_is-trim_start cs)
    | inr e ↦ rw (e, e)
  ]

  -- What the end keeps, in front of one more character.
  abbrev keep_end : ℕ → Text → Text
  keep_end c rest = if is_empty rest && p c then [] else c ∷ rest

  last_is-keep_end :
      (c : ℕ) (rest : Text) → last_is p rest ≡ false → last_is p (keep_end c rest) ≡ false
  last_is-keep_end c [] h = elim (Bool-cases (p c)) [ inl e ↦ rw e | inr e ↦ rw (e, e) ]
  last_is-keep_end c (d ∷ rest) h = h

  last_is-trim_end : (cs : Text) → last_is p (trim_end_matches p cs) ≡ false
  unfolding trim_end_matches
  last_is-trim_end [] = refl
  last_is-trim_end (c ∷ cs) = last_is-keep_end c (trim_end_matches p cs) (last_is-trim_end cs)

  first_is-trim_end :
      (cs : Text) → first_is p cs ≡ false → first_is p (trim_end_matches p cs) ≡ false
  unfolding trim_end_matches
  first_is-trim_end [] h = refl
  first_is-trim_end (c ∷ cs) h = head (trim_end_matches p cs)
    where
      head : (rest : Text) → first_is p (keep_end c rest) ≡ false
      head [] = rw (h, h)
      head (d ∷ rest) = h

  trim_start_id : (cs : Text) → first_is p cs ≡ false → trim_start_matches p cs ≡ cs
  unfolding trim_start_matches
  trim_start_id [] h = refl
  trim_start_id (c ∷ cs) h = rw h

  trim_end_id : (cs : Text) → last_is p cs ≡ false → trim_end_matches p cs ≡ cs
  unfolding trim_end_matches
  trim_end_id [] h = refl
  trim_end_id (c ∷ []) h = rw h
  trim_end_id (c ∷ d ∷ cs) h = rw (trim_end_id (d ∷ cs) h)

module _ (P : ℕ → Type 0) (p : ℕ → Bool) where
  All-trim_start : (cs : Text) → All P cs → All P (trim_start_matches p cs)
  unfolding trim_start_matches
  All-trim_start [] h = tt
  All-trim_start (c ∷ cs) h = elim (Bool-cases (p c)) [
    | inl e ↦ rw e (All-trim_start cs h.1)
    | inr e ↦ rw e h
  ]

  All-trim_end : (cs : Text) → All P cs → All P (trim_end_matches p cs)
  unfolding trim_end_matches
  All-trim_end [] h = tt
  All-trim_end (c ∷ cs) h = elim (Bool-cases (is_empty (trim_end_matches p cs) && p c)) [
    | inl e ↦ rw e tt
    | inr e ↦ rw e (h.0, All-trim_end cs h.1)
  ]

  All-filter : (cs : Text) → ((c : ℕ) → p c ≡ true → P c) → All P (filter p cs)
  All-filter [] h = tt
  All-filter (c ∷ cs) h = elim (Bool-cases (p c)) [
    | inl e ↦ rw e (h c e, All-filter cs h)
    | inr e ↦ rw e (All-filter cs h)
  ]

filter_id : (p : ℕ → Bool) (cs : Text) → All (λ c. p c ≡ true) cs → filter p cs ≡ cs
filter_id p [] h = refl
filter_id p (c ∷ cs) h = rw h.0 (ap (◌∷◌ c) (filter_id p cs h.1))

abbrev newline : ℕ → Bool
newline c = c == b'\n'

-- Tab, newline, or a character from the space on.
abbrev pub IsShown : ℕ → Type 0
IsShown c = (c ≡ 9) ⊎ ((c ≡ 10) ⊎ (32 ≤ c))

is_kept_iff : (c : ℕ) → (is_kept c ≡ true) ↔ IsShown c
is_kept_iff c = (
  λ h. ground arith,
  λ h. elim h [ inl e ↦ rw e refl | inr (inl e) ↦ rw e refl | inr (inr l) ↦ ground arith ],
)

-- Only such characters, and no newline at either end.
pub record IsClean (t : Text) : Type 0 where
  pub chars : All IsShown t
  pub first : first_is newline t ≡ false
  pub last : last_is newline t ≡ false

cleaned : (s : Text) → IsClean (clean s)
unfolding clean trim_matches
cleaned s =
    let kept = All-filter IsShown is_kept (strip_ansi s) (λ c e. (is_kept_iff c).0 e) in
    let begun = trim_start_matches newline (filter is_kept (strip_ansi s)) in
    record {
      chars =
          All-trim_end IsShown newline begun
            (All-trim_start IsShown newline (filter is_kept (strip_ansi s)) kept);
      first =
          first_is-trim_end newline begun
            (first_is-trim_start newline (filter is_kept (strip_ansi s)));
      last = last_is-trim_end newline begun;
    }

encode-NotEscape : (c : ℕ) → IsShown c → All NotEscape (encode_char c)
unfolding encode_char
encode-NotEscape c h = ground arith

as_bytes-NotEscape : (t : Text) → All IsShown t → All NotEscape (as_bytes t)
unfolding as_bytes
as_bytes-NotEscape [] h = tt
as_bytes-NotEscape (c ∷ t) h =
    All-append NotEscape (encode_char c) (as_bytes t) (encode-NotEscape c h.0)
      (as_bytes-NotEscape t h.1)

All-kept : (t : Text) → All IsShown t → All (λ c. is_kept c ≡ true) t
All-kept [] h = tt
All-kept (c ∷ t) h = ((is_kept_iff c).1 h.0, All-kept t h.1)

-- Clean text is kept as it is: `clean` changes nothing in a text of Unicode scalar values with no
-- control characters but tabs and newlines and with no newline at either end.
pub clean_id : (t : Text) → All IsScalar t → IsClean t → clean t ≡ t
unfolding clean strip_ansi trim_matches
clean_id t scalar k = rw (strip_bytes_id (as_bytes t) (as_bytes-NotEscape t k.chars)) (
    rw (from_utf8_lossy-as_bytes t scalar) (
      rw (filter_id is_kept t (All-kept t k.chars))
        (rw (trim_start_id newline t k.first) (trim_end_id newline t k.last))))

-- Whatever a command printed, as a text of scalar values: its cleaned text holds no character below the
-- space but tabs and newlines (no escape, no NUL, no unit separator, no carriage return; DEL and the
-- controls from U+0080 on may stay), and neither starts nor ends with a newline; and the texts that
-- `clean` leaves as they are are exactly these.
pub clean-IsClean : (s : Text) → All IsScalar s → IsClean (clean s) × ((clean s ≡ s) ↔ IsClean s)
clean-IsClean s scalar = (cleaned s, (λ e. subst IsClean e (cleaned s), clean_id s scalar))
