-- ===== src/Framing/Search/Windows.antt =====
-- What `find` and `rfind` return, in terms of the positions at which the needle stands.
use execkit.Base.{
  ℕ, zero, suc, ◌≤◌, ◌<◌, ◌≡◌, refl, ap, Bool, true, false, [], ◌∷◌, Option, none, some, arith,
  length, drop, Bool-cases, inl, inr, drop_all, length-drop, if◌then◌else◌, ltb, ltb→lt,
}
use native.Mathlib.Decide.{dec_lt}
use execkit.Text.Chars.{Bytes, starts_with}
use execkit.Framing.Search.{first_window, last_window, find, rfind}

-- The needle stands at position `i`.
abbrev pub At : Bytes → Bytes → ℕ → Bool → Type 0
At needle hay i b = starts_with needle (drop i hay) ≡ b

abbrev pub IsFirst : Bytes → Bytes → Option ℕ → Type 0
IsFirst needle hay none = (j : ℕ) → At needle hay j false
IsFirst needle hay (some i) = At needle hay i true × ((j : ℕ) → j < i → At needle hay j false)

abbrev pub IsLast : Bytes → Bytes → Option ℕ → Type 0
IsLast needle hay none = (j : ℕ) → At needle hay j false
IsLast needle hay (some i) = At needle hay i true × ((j : ℕ) → i < j → At needle hay j false)

module _ (x : ℕ) (xs : Bytes) where
  not-At_end : (hay : Bytes) (j : ℕ) → length hay ≤ j → At (x ∷ xs) hay j false
  unfolding starts_with
  not-At_end hay j h = rw (drop_all j hay h) refl

  cons-IsFirst :
      (b : ℕ) (bs : Bytes) (t : Bool) (r : Option ℕ)
      → At (x ∷ xs) (b ∷ bs) 0 t
      → IsFirst (x ∷ xs) bs r
      → IsFirst
          (x ∷ xs)
          (b ∷ bs)
          (if t then some 0 else (elim r [ none ↦ none | some i ↦ some (suc i) ]))
  cons-IsFirst b bs true r h ih = (h, λ j lt. absurd (omega arith))
  cons-IsFirst b bs false none h ih =
      λ j. elim j as (λ j. At (x ∷ xs) (b ∷ bs) j false) [ zero ↦ h | suc k ↦ ih k ]
  cons-IsFirst b bs false (some i) h ih = (ih.0, below)
    where
      below : (j : ℕ) → j < suc i → At (x ∷ xs) (b ∷ bs) j false
      below zero lt = h
      below (suc k) lt = ih.1 k (omega arith)

  pub first_window-IsFirst : (hay : Bytes) → IsFirst (x ∷ xs) hay (first_window (x ∷ xs) hay)
  unfolding first_window
  first_window-IsFirst [] = λ j. not-At_end [] j (omega arith)
  first_window-IsFirst (b ∷ bs) =
      cons-IsFirst b bs (starts_with (x ∷ xs) (b ∷ bs)) (first_window (x ∷ xs) bs) refl
        (first_window-IsFirst bs)

  cons-IsLast :
      (b : ℕ) (bs : Bytes) (t : Bool) (r : Option ℕ)
      → At (x ∷ xs) (b ∷ bs) 0 t
      → IsLast (x ∷ xs) bs r
      → IsLast
          (x ∷ xs)
          (b ∷ bs)
          (elim r [ some i ↦ some (suc i) | none ↦ if t then some 0 else none ])
  cons-IsLast b bs t (some i) h ih = (ih.0, above)
    where
      above : (j : ℕ) → suc i < j → At (x ∷ xs) (b ∷ bs) j false
      above zero lt = absurd (omega arith)
      above (suc k) lt = ih.1 k (omega arith)
  cons-IsLast b bs true none h ih = (h, above)
    where
      above : (j : ℕ) → 0 < j → At (x ∷ xs) (b ∷ bs) j false
      above zero lt = absurd (omega arith)
      above (suc k) lt = ih k
  cons-IsLast b bs false none h ih =
      λ j. elim j as (λ j. At (x ∷ xs) (b ∷ bs) j false) [ zero ↦ h | suc k ↦ ih k ]

  pub last_window-IsLast : (hay : Bytes) → IsLast (x ∷ xs) hay (last_window (x ∷ xs) hay)
  unfolding last_window
  last_window-IsLast [] = λ j. not-At_end [] j (omega arith)
  last_window-IsLast (b ∷ bs) =
      cons-IsLast b bs (starts_with (x ∷ xs) (b ∷ bs)) (last_window (x ∷ xs) bs) refl
        (last_window-IsLast bs)

-- A needle longer than the text stands nowhere in it.
pub length-starts_with :
    (needle hay : Bytes) → starts_with needle hay ≡ true → length needle ≤ length hay
unfolding starts_with
length-starts_with [] hay h = omega arith
length-starts_with (x ∷ xs) [] h = cc
length-starts_with (x ∷ xs) (y ∷ ys) h = omega (arith, length-starts_with xs ys (ground arith))

pub not-At_short : (needle hay : Bytes) (j : ℕ) → length hay < length needle → At needle hay j false
not-At_short needle hay j h = elim (Bool-cases (starts_with needle (drop j hay))) [
  | inl e ↦ absurd (omega (arith, length-starts_with needle (drop j hay) e, length-drop j hay))
  | inr e ↦ e
]

-- `find` returns the first position at which a nonempty needle stands, and nothing if there is none.
pub find-IsFirst : (x : ℕ) (xs hay : Bytes) → IsFirst (x ∷ xs) hay (find hay (x ∷ xs))
unfolding find
find-IsFirst x xs hay = elim (Bool-cases (ltb (length hay) (length (x ∷ xs)))) [
  | inl e ↦ rw e (λ j. not-At_short (x ∷ xs) hay j (ltb→lt _ _ e))
  | inr e ↦ rw e (first_window-IsFirst x xs hay)
]

-- `rfind` returns the last position at which a nonempty needle stands, and nothing if there is none.
pub rfind-IsLast : (x : ℕ) (xs hay : Bytes) → IsLast (x ∷ xs) hay (rfind hay (x ∷ xs))
unfolding rfind
rfind-IsLast x xs hay = elim (Bool-cases (ltb (length hay) (length (x ∷ xs)))) [
  | inl e ↦ rw e (λ j. not-At_short (x ∷ xs) hay j (ltb→lt _ _ e))
  | inr e ↦ rw e (last_window-IsLast x xs hay)
]

IsFirst-unique :
    (needle hay : Bytes) (r s : Option ℕ) → IsFirst needle hay r → IsFirst needle hay s → r ≡ s
IsFirst-unique needle hay none none p q = refl
IsFirst-unique needle hay none (some j) p q = cc (p j, q.0)
IsFirst-unique needle hay (some i) none p q = cc (q i, p.0)
IsFirst-unique needle hay (some i) (some j) p q = elim (dec_lt i j) [
  | yes h ↦ cc (q.1 i h, p.0)
  | no h ↦ elim (dec_lt j i) [ yes k ↦ cc (p.1 j k, q.0) | no k ↦ ap some (omega arith) ]
]

IsLast-unique :
    (needle hay : Bytes) (r s : Option ℕ) → IsLast needle hay r → IsLast needle hay s → r ≡ s
IsLast-unique needle hay none none p q = refl
IsLast-unique needle hay none (some j) p q = cc (p j, q.0)
IsLast-unique needle hay (some i) none p q = cc (q i, p.0)
IsLast-unique needle hay (some i) (some j) p q = elim (dec_lt i j) [
  | yes h ↦ cc (p.1 j h, q.0)
  | no h ↦ elim (dec_lt j i) [ yes k ↦ cc (q.1 i k, p.0) | no k ↦ ap some (omega arith) ]
]

pub find_of_first :
    (x : ℕ) (xs hay : Bytes) (r : Option ℕ) → IsFirst (x ∷ xs) hay r → find hay (x ∷ xs) ≡ r
find_of_first x xs hay r h = IsFirst-unique (x ∷ xs) hay _ r (find-IsFirst x xs hay) h

pub rfind_of_last :
    (x : ℕ) (xs hay : Bytes) (r : Option ℕ) → IsLast (x ∷ xs) hay r → rfind hay (x ∷ xs) ≡ r
rfind_of_last x xs hay r h = IsLast-unique (x ∷ xs) hay _ r (rfind-IsLast x xs hay) h
