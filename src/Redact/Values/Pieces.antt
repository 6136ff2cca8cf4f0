-- ===== src/Redact/Values/Pieces.antt =====
-- What the pass over `name=value` pairs (crates/execkit/src/redact.rs) can change in a text.
use execkit.Base.{
  ℕ, zero, suc, ◌+◌, ◌-◌, ◌<◌, ◌≡◌, refl, sym, ap, ◌∙◌, false, ◌&&◌, [], ◌∷◌, ◌++◌, Option, none,
  some, ltb, length, take, drop, slice, is_empty, take-append-drop, take-append_self,
  drop-append_self, append_assoc, drop-drop, subst, arith, Bool-cases, Option-cases, inl, inr,
}
use execkit.Text.Chars.{Text, codes, eq_text}
use execkit.Redact.{balanced_end, mark}
use execkit.Redact.Values.{
  Value, double, single, bare, KeyValue, matched_value, matched, first_or, is_stop, looks_like_code,
  on_bare, on_match, redact_loop, redact_key_values,
}

-- A text, and the same with some of its stretches replaced by the mark.
pub data IsMasked : Text → Text → Type 0 where
  masked_nil : IsMasked [] []
  kept : (c : ℕ) (t o : Text) → IsMasked t o → IsMasked (c ∷ t) (c ∷ o)
  masked : (v t o : Text) → IsMasked t o → IsMasked (v ++ t) (mark ++ o)

IsMasked_refl : (t : Text) → IsMasked t t
IsMasked_refl [] = masked_nil
IsMasked_refl (c ∷ cs) = kept c cs cs (IsMasked_refl cs)

IsMasked-front : (s t o : Text) → IsMasked t o → IsMasked (s ++ t) (s ++ o)
IsMasked-front [] t o h = h
IsMasked-front (c ∷ cs) t o h = kept c (cs ++ t) (cs ++ o) (IsMasked-front cs t o h)

-- Where a match stands in the text behind `pos`.
abbrev pub Stands : Text → ℕ → KeyValue → Type 0
Stands text pos m =
    (gap : Text) × (rest : Text) × (drop pos text ≡ gap ++ (matched m ++ rest))
    × (m.start ≡ pos + length gap)
    × (is_empty (matched m) ≡ false)

masked_inside :
    (p f v b rest o : Text)
    → IsMasked rest o
    → IsMasked ((p ++ (f ++ (v ++ b))) ++ rest) ((p ++ (f ++ (mark ++ b))) ++ o)
masked_inside p f v b rest o h =
    rw
      (
        append_assoc p (f ++ (v ++ b)) rest,
        append_assoc f (v ++ b) rest,
        append_assoc v b rest,
        append_assoc p (f ++ (mark ++ b)) o,
        append_assoc f (mark ++ b) o,
      )
      (IsMasked-front p (f ++ (v ++ (b ++ rest))) (f ++ (mark ++ (b ++ o))) (
        IsMasked-front f (v ++ (b ++ rest)) (mark ++ (b ++ o))
          (masked v (b ++ rest) (b ++ o) (IsMasked-front b rest o h))))

masked_on :
    (p f v x o : Text) (k : ℕ)
    → IsMasked (drop k x) o
    → IsMasked (p ++ (f ++ (v ++ x))) ((p ++ (f ++ mark)) ++ o)
masked_on p f v x o k h =
    let m : IsMasked (v ++ x) (mark ++ o) =
      subst (λ t. IsMasked (v ++ t) (mark ++ o)) (take-append-drop k x)
        (subst (λ t. IsMasked t (mark ++ o)) (append_assoc v (take k x) (drop k x))
          (masked (v ++ take k x) (drop k x) o h)) in
    rw (append_assoc p (f ++ mark) o, append_assoc f mark o)
      (IsMasked-front p (f ++ (v ++ x)) (f ++ (mark ++ o))
        (IsMasked-front f (v ++ x) (mark ++ o) m))

-- Behind what stands at `pos`.
drop-behind :
    (text w rest : Text) (pos : ℕ) → drop pos text ≡ w ++ rest → drop (pos + length w) text ≡ rest
drop-behind text w rest pos h =
    sym (drop-drop (length w) pos text) ∙ (ap (drop (length w)) h ∙ drop-append_self w rest)

behind_match :
    (text w rest o : Text) (start : ℕ)
    → drop start text ≡ w ++ rest
    → IsMasked (drop (start + length w) text) o
    → IsMasked rest o
behind_match text w rest o start e h = subst (λ t. IsMasked t o) (drop-behind text w rest start e) h

-- The value is followed by more than the match, and all of it is masked.
masked_more :
    (text p f v x o : Text) (start more : ℕ)
    → drop start text ≡ p ++ (f ++ (v ++ x))
    → start + length (p ++ (f ++ v)) < more
    → IsMasked (drop more text) o
    → IsMasked (p ++ (f ++ (v ++ x))) ((p ++ (f ++ mark)) ++ o)
masked_more text p f v x o start more e l h =
    let value_end = start + length (p ++ (f ++ v)) in
    let whole : drop start text ≡ (p ++ (f ++ v)) ++ x =
      e ∙ rw (append_assoc p (f ++ v) x, append_assoc f v x) refl in
    let there : drop more text ≡ drop (more - value_end) x =
      ap (λ n. drop n text) (let n : more ≡ value_end + (more - value_end) = omega arith in n)
      ∙ (sym (drop-drop (more - value_end) value_end text)
          ∙ ap (drop (more - value_end)) (drop-behind text (p ++ (f ++ v)) x start whole)) in
    masked_on p f v x o (more - value_end) (subst (λ t. IsMasked t o) there h)

on_bare-IsMasked :
    (text p f v after rest o : Text) (start : ℕ)
    → drop start text ≡ (p ++ (f ++ (v ++ after))) ++ rest
    → IsMasked (drop (on_bare text start p f v after).1 text) o
    → IsMasked ((p ++ (f ++ (v ++ after))) ++ rest) ((on_bare text start p f v after).0 ++ o)
unfolding on_bare
on_bare-IsMasked text p f v after rest o start e =
    let w = p ++ (f ++ (v ++ after)) in
    let value_end = start + length (p ++ (f ++ v)) in
    let more = balanced_end text v value_end is_stop in
    elim (Bool-cases (looks_like_code v (first_or after none))) [
      | inl c ↦ rw c (λ h. IsMasked-front w rest o (behind_match text w rest o start e h))
      | inr c ↦ elim (Bool-cases (eq_text after (codes ")") && ltb value_end more)) [
        | inr n ↦
            rw (c, n) (λ h. masked_inside p f v after rest o (behind_match text w rest o start e h))
        | inl m ↦
            let l : value_end < more = ground arith in
            let flat : w ++ rest ≡ p ++ (f ++ (v ++ (after ++ rest))) =
              rw
                (
                  append_assoc p (f ++ (v ++ after)) rest,
                  append_assoc f (v ++ after) rest,
                  append_assoc v after rest,
                )
                refl in
            rw (c, m)
              (λ h.
                subst (λ t. IsMasked t ((p ++ (f ++ mark)) ++ o)) (sym flat)
                  (masked_more text p f v (after ++ rest) o start more (e ∙ flat) l h))
      ]
    ]

on_match-IsMasked :
    (text p : Text) (v : Value) (rest o : Text) (start : ℕ)
    → drop start text ≡ (p ++ matched_value v) ++ rest
    → IsMasked (drop (on_match text start p v).1 text) o
    → IsMasked ((p ++ matched_value v) ++ rest) ((on_match text start p v).0 ++ o)
on_match-IsMasked text p (double v) rest o start e h =
    masked_inside p (b'"' ∷ []) v (b'"' ∷ []) rest o
      (behind_match text (p ++ matched_value (double v)) rest o start e h)
on_match-IsMasked text p (single v) rest o start e h =
    masked_inside p (b'\'' ∷ []) v (b'\'' ∷ []) rest o
      (behind_match text (p ++ matched_value (single v)) rest o start e h)
on_match-IsMasked text p (bare opening value after) rest o start e h =
    on_bare-IsMasked text p opening value after rest o start e h

module _ (captures : Text → ℕ → Option KeyValue) (text : Text)
    (in_text : (pos : ℕ) (m : KeyValue) → captures text pos ≡ some m → Stands text pos m) where
  -- One round, given the rest of the loop.
  round-IsMasked :
      (pos : ℕ) (m : KeyValue) (o : Text)
      → Stands text pos m
      → IsMasked (drop (on_match text m.start m.prefix m.value).1 text) o
      → IsMasked
          (drop pos text)
          (slice pos m.start text ++ ((on_match text m.start m.prefix m.value).0 ++ o))
  round-IsMasked pos m o (gap, rest, e, s, ne) h =
      let n : m.start - pos ≡ length gap = omega arith in
      let front : slice pos m.start text ≡ gap =
        rw (n, e) (take-append_self gap (matched m ++ rest)) in
      let there : drop m.start text ≡ matched m ++ rest =
        rw s (drop-behind text gap (matched m ++ rest) pos e) in
      let one = on_match-IsMasked text m.prefix m.value rest o m.start there h in
      rw (front, e)
        (IsMasked-front gap (matched m ++ rest) ((on_match text m.start m.prefix m.value).0 ++ o)
          one)

  loop-IsMasked : (fuel pos : ℕ) → IsMasked (drop pos text) (redact_loop fuel captures text pos)
  unfolding redact_loop
  loop-IsMasked zero pos = IsMasked_refl (drop pos text)
  loop-IsMasked (suc fuel) pos = elim (Option-cases (captures text pos)) [
    | inl n ↦ rw (redact_loop, n) (IsMasked_refl (drop pos text))
    | inr (m, e) ↦
        let next = (on_match text m.start m.prefix m.value).1 in
        rw (redact_loop, e)
          (round-IsMasked pos m (redact_loop fuel captures text next) (in_text pos m e)
            (loop-IsMasked fuel next))
  ]

  -- If the matcher gives matches that stand in the text at or behind the position they are sought from,
  -- and are not empty: the pass changes a text only by putting the mark in the place of stretches of it.
  pub redact_key_values-IsMasked : IsMasked text (redact_key_values captures text)
  unfolding redact_key_values
  redact_key_values-IsMasked = loop-IsMasked (suc (length text)) 0
