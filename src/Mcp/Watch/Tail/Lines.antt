-- ===== src/Mcp/Watch/Tail/Lines.antt =====
-- Complete lines and decoded chunks (crates/execkit-mcp/src/watch/tail.rs) of a text that goes on.
use execkit.Base.{
  ℕ, ◌≡◌, refl, sym, ap, subst, ◌∙◌, true, false, ◌&&◌, List, [], ◌∷◌, ◌++◌, some, ◌==◌, length,
  is_empty, all, All, arith, Bool-cases, inl, inr, &&-true, length-append,
}
use execkit.Text.Chars.{Text, Bytes, eq_text, eq_text_iff, eq_text_self}
use execkit.Text.Utf8.{as_bytes, from_utf8_lossy, from_utf8, is_scalar}
use execkit.Text.Utf8.RoundTrip.{
  IsScalar, from_utf8_lossy-as_bytes, from_utf8_lossy-append, as_bytes-append,
}
use execkit.Mcp.Watch.Tail.{complete, in_front}

abbrev pub joined : List Text × Text → Text → List Text × Text
joined r ys = (r.0 ++ (complete (r.1 ++ ys)).0, (complete (r.1 ++ ys)).1)

pub in_front-joined :
    (c : ℕ) (r : List Text × Text) (ys : Text)
    → (c == b'\n') ≡ false
    → in_front c (joined r ys) ≡ joined (in_front c r) ys
unfolding complete
in_front-joined c ([], rest) ys n = rw n refl
in_front-joined c (l ∷ ls, rest) ys n = refl

-- The lines of a text that goes on.
pub complete-append : (xs ys : Text) → complete (xs ++ ys) ≡ joined (complete xs) ys
unfolding complete
complete-append [] ys = refl
complete-append (x ∷ xs) ys = elim (Bool-cases (x == b'\n')) [
  | inl e ↦ rw (e, complete-append xs ys) refl
  | inr n ↦ rw (n, complete-append xs ys) (in_front-joined x (complete xs) ys n)
]

pub cancel : (xs ys zs : Bytes) → xs ++ ys ≡ xs ++ zs → ys ≡ zs
cancel [] ys zs e = e
cancel (x ∷ xs) ys zs e = cancel xs ys zs (cc)

pub scalars : (t : Text) → all is_scalar t ≡ true → All IsScalar t
scalars [] h = tt
scalars (c ∷ cs) h = (ground arith, scalars cs (ground arith))

pub all_scalar : (t : Text) → All IsScalar t → all is_scalar t ≡ true
all_scalar [] h = refl
all_scalar (c ∷ cs) h = let rest = all_scalar cs h.1 in let hd = h.0 in ground arith

-- A decoded chunk: its bytes are the text's.
pub from_utf8-some :
    (bs : Bytes) (t : Text) → from_utf8 bs ≡ some t → (as_bytes t ≡ bs) × All IsScalar t
unfolding from_utf8
from_utf8-some bs t h =
    elim (Bool-cases
      (eq_text (as_bytes (from_utf8_lossy bs)) bs && all is_scalar (from_utf8_lossy bs))) [
        | inr n ↦ absurd (ground arith)
        | inl e ↦
            let u = from_utf8_lossy bs in
            let two = &&-true (eq_text (as_bytes u) bs) (all is_scalar u) e in
            let same : u ≡ t = ground arith in
            (rw (sym same) ((eq_text_iff (as_bytes u) bs).0 two.0), rw (sym same) (scalars u two.1))
      ]

pub from_utf8-as_bytes : (t : Text) → All IsScalar t → from_utf8 (as_bytes t) ≡ some t
unfolding from_utf8
from_utf8-as_bytes t h =
    rw (from_utf8_lossy-as_bytes t h, eq_text_self (as_bytes t), all_scalar t h) refl

pub All-append_right : (xs ys : Text) → All IsScalar (xs ++ ys) → All IsScalar ys
All-append_right [] ys h = h
All-append_right (x ∷ xs) ys h = All-append_right xs ys h.1

-- What follows decoded text in decoded text is decoded text.
pub rest-text :
    (t u : Text) (r : Bytes)
    → All IsScalar t
    → All IsScalar u
    → as_bytes u ++ r ≡ as_bytes t
    → (v : Text) × (from_utf8 r ≡ some v) × (u ++ v ≡ t)
rest-text t u r ht hu e =
    let v = from_utf8_lossy r in
    let whole : u ++ v ≡ t =
      sym (from_utf8_lossy-append u r hu)
      ∙ (ap from_utf8_lossy e ∙ from_utf8_lossy-as_bytes t ht) in
    let hv : All IsScalar v = All-append_right u v (rw whole ht) in
    let bytes : as_bytes v ≡ r =
      cancel (as_bytes u) (as_bytes v) r
        (sym (as_bytes-append u v) ∙ (ap as_bytes whole ∙ sym e)) in
    (v, subst (λ b. from_utf8 b ≡ some v) bytes (from_utf8-as_bytes v hv), whole)

pub empty_bytes : [] ≡ as_bytes [] ++ []
unfolding as_bytes
empty_bytes = refl

pub same_length :
    (u : Text) (r : Bytes) → (length (as_bytes u ++ r) == length (as_bytes u)) ≡ is_empty r
same_length u [] = let e = length-append (as_bytes u) [] in ground arith
same_length u (b ∷ bs) = let e = length-append (as_bytes u) (b ∷ bs) in ground arith

pub rest-in_front :
    (c : ℕ) (r : List Text × Text)
    → (c == b'\n') ≡ false
    → complete r.1 ≡ ([], r.1)
    → complete (in_front c r).1 ≡ ([], (in_front c r).1)
unfolding complete
rest-in_front c ([], rest) n h = rw (n, h) refl
rest-in_front c (l ∷ ls, rest) n h = h

pub complete-rest : (u : Text) → complete (complete u).1 ≡ ([], (complete u).1)
unfolding complete
complete-rest [] = refl
complete-rest (c ∷ cs) = elim (Bool-cases (c == b'\n')) [
  | inl e ↦ rw e (complete-rest cs)
  | inr n ↦ rw n (rest-in_front c (complete cs) n (complete-rest cs))
]

pub nothing_read : (v : Text) → from_utf8 [] ≡ some v → v ≡ []
unfolding from_utf8
nothing_read v e = cc
