-- ===== src/Mcp/Watch/Meta/Caps.antt =====
-- What `parse_validated` (crates/execkit-mcp/src/watch/meta.rs) lets pass is within the caps.
use execkit.Base.{
  ℕ, ◌≤◌, ◌≡◌, refl, true, false, List, [], ◌∷◌, Option, none, some, ltb, length, All, is_empty,
  arith, Bool-cases, inl, inr,
}
use execkit.Text.Chars.{Text, Bytes}
use execkit.Text.Utf8.{as_bytes}
use execkit.Mcp.Params.{Checked, good, bad}
use execkit.Mcp.Watch.Meta.{
  SessionMeta, UiPrefs, ViewerState, max_state_bytes, capped, cap_alias, cap_aliases, cons_capped,
  width_ok, with_aliases, validated, parse_validated,
}

-- The caps on what is stored.
abbrev pub IsCappedAlias : Option Text → Type 0
IsCappedAlias none = Unit
IsCappedAlias (some a) = (is_empty a ≡ false) × (length (as_bytes a) ≤ 200)

abbrev pub IsCappedWidth : Option ℕ → Type 0
IsCappedWidth none = Unit
IsCappedWidth (some w) = (120 ≤ w) × (w ≤ 2000)

abbrev pub IsCapped : ViewerState → Type 0
IsCapped st =
    All (λ (e : Text × SessionMeta). IsCappedAlias e.1.alias) st.sessions
    × IsCappedWidth st.ui.sidebar_width

-- What holds of a value, where there is one.
abbrev ForSome : {A : Type 0} → (A → Type 0) → Option A → Type 0
ForSome P none = Unit
ForSome P (some a) = P a

abbrev pub ForGood : {A : Type 0} → (A → Type 0) → Checked A → Type 0
ForGood P (bad e) = Unit
ForGood P (good a) = P a

capped-IsCapped :
    (m : SessionMeta) (o : Option Text)
    → m.alias ≡ o
    → ForSome (λ k. IsCappedAlias k.alias) (capped m o)
unfolding capped
capped-IsCapped m none e = rw e tt
capped-IsCapped m (some a) e = elim (Bool-cases (is_empty a)) [
  | inl z ↦ rw z tt
  | inr z ↦ elim (Bool-cases (ltb 200 (length (as_bytes a)))) [
    | inl l ↦ rw (z, l) tt
    | inr l ↦ rw (z, l) (rw e (z, ground arith))
  ]
]

abbrev AllCapped : List (Text × SessionMeta) → Type 0
AllCapped ms = All (λ (e : Text × SessionMeta). IsCappedAlias e.1.alias) ms

cons_capped-AllCapped :
    (id : Text) (o : Option SessionMeta) (rest : Option (List (Text × SessionMeta)))
    → ForSome (λ k. IsCappedAlias k.alias) o
    → ForSome AllCapped rest
    → ForSome AllCapped (cons_capped id o rest)
cons_capped-AllCapped id none rest h k = tt
cons_capped-AllCapped id (some m) none h k = tt
cons_capped-AllCapped id (some m) (some ms) h k = (h, k)

cap_aliases-AllCapped : (ms : List (Text × SessionMeta)) → ForSome AllCapped (cap_aliases ms)
unfolding cap_alias
cap_aliases-AllCapped [] = tt
cap_aliases-AllCapped ((id, m) ∷ ms) =
    cons_capped-AllCapped id (cap_alias m) (cap_aliases ms) (capped-IsCapped m m.alias refl)
      (cap_aliases-AllCapped ms)

width_ok-IsCapped : (o : Option ℕ) → width_ok o ≡ true → IsCappedWidth o
width_ok-IsCapped none h = tt
width_ok-IsCapped (some w) h = (ground arith, ground arith)

with_aliases-IsCapped :
    (ui : UiPrefs) (o : Option (List (Text × SessionMeta)))
    → ForSome AllCapped o
    → ForGood IsCapped (with_aliases ui o)
with_aliases-IsCapped ui none h = tt
with_aliases-IsCapped ui (some ms) h = elim (Bool-cases (width_ok ui.sidebar_width)) [
  | inl w ↦ rw w (h, width_ok-IsCapped ui.sidebar_width w)
  | inr w ↦ rw w tt
]

validated-IsCapped : (c : Checked ViewerState) → ForGood IsCapped (validated c)
validated-IsCapped (bad e) = tt
validated-IsCapped (good st) =
    with_aliases-IsCapped st.ui (cap_aliases st.sessions) (cap_aliases-AllCapped st.sessions)

pub parse_validated-IsCapped :
    (from_slice : Bytes → Checked ViewerState) (body : Bytes)
    → ForGood IsCapped (parse_validated from_slice body)
unfolding parse_validated
parse_validated-IsCapped from_slice body = elim (Bool-cases (ltb max_state_bytes (length body))) [
  | inl l ↦ rw l tt
  | inr l ↦ rw l (validated-IsCapped (from_slice body))
]
